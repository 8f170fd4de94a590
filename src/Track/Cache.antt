-- ===== src/Track/Cache.antt =====
-- The cache of the database's data: `dbc_entry` and `dbc_man`, src/UserTrack.cc.
pub mod Fresh
use tacppd.Common.{
  ℕ, ◌-◌, Bool, true, false, none, some, List, [], ◌∷◌, ◌++◌, Text, str_eq, if◌then◌else◌, find,
  ltb,
}
use tacppd.User.{DbUser, new_user}

pub record DbcEntry : Type 0 where
  pub entry : DbUser
  pub date : ℕ

abbrev pub has_name : Text → DbcEntry → Bool
has_name u e = str_eq e.entry.username u

-- Entries of more than 31 seconds are erased up to the first younger one of that name.
unfoldable pub present : ℕ → Text → List DbcEntry → List DbcEntry × Bool
present now u [] = ([], false)
present now u (e ∷ dbec) =
    let (rest, found) = present now u dbec in
    if ltb 31 (now - e.date)
    then (rest, found)
    else if has_name u e
    then (e ∷ dbec, true)
    else (e ∷ rest, found)

unfoldable pub dbc_get : Text → List DbcEntry → DbUser
dbc_get u dbec = elim (find (has_name u) dbec) [ none ↦ new_user | some e ↦ e.entry ]

unfoldable pub dbc_add : ℕ → DbUser → List DbcEntry → List DbcEntry
dbc_add now d dbec = dbec ++ record { entry = d; date = now } ∷ []
