-- ===== src/Track/Billing.antt =====
-- The data of users with a session, with a counter: `user_data`, and `getUd`, `addUd` and `delUd` of
-- `CoreBilling`.
pub mod Counter
pub mod Lost
use tacppd.Common.{
  ℕ, ◌+◌, ◌-◌, Bool, none, some, List, [], ◌∷◌, ◌++◌, Text, str_eq, if◌then◌else◌, any, find,
  update_first, leb,
}
use tacppd.User.{DbUser, new_user}

pub record UserData : Type 0 where
  pub ddata : DbUser
  pub numptr : ℕ

-- The constructor.
abbrev pub new_data : DbUser → UserData
new_data d = record { ddata = d; numptr = 0 }

abbrev pub is_of : Text → UserData → Bool
is_of u e = str_eq e.ddata.username u

abbrev pub inc_num_ptr : UserData → UserData
inc_num_ptr e = record e { numptr = e.numptr + 1 }

abbrev pub dec_num_ptr : UserData → UserData
dec_num_ptr e = record e { numptr = e.numptr - 1 }

unfoldable pub get_ud : Text → List UserData → DbUser
get_ud u ud = elim (find (is_of u) ud) [ none ↦ new_user | some e ↦ e.ddata ]

unfoldable pub add_ud : DbUser → List UserData → List UserData
add_ud d ud =
    if any (is_of d.username) ud
    then update_first (is_of d.username) inc_num_ptr ud
    else ud ++ new_data d ∷ []

unfoldable pub del_ud : Text → List UserData → List UserData
del_ud u [] = []
del_ud u (e ∷ ud) =
    let rest = del_ud u ud in
    if is_of u e then (if leb e.numptr 1 then rest else dec_num_ptr e ∷ rest) else e ∷ rest
