-- ===== src/Track/Billing/Counter.antt =====
-- How many sessions the counter of a user's data stands for.
use tacppd.Common.{
  ◌≡◌, refl, ℕ, ◌+◌, ◌-◌, ◌≤◌, Bool-cases, true, false, inl, inr, List, [], ◌∷◌, ◌++◌, Text, str_eq,
  str_eq_iff, if◌then◌else◌, any, find, update_first, arith,
}
use tacppd.Common.Keyed.{Distinct, Distinct-push, Distinct-update_first}
use tacppd.User.{DbUser, new_user}
use tacppd.Track.Billing.{UserData, new_data, is_of, inc_num_ptr, get_ud, add_ud, del_ud}

abbrev pub name_of : UserData → Text
name_of e = e.ddata.username

-- No two data of one user.
abbrev pub IsSingle : List UserData → Type 0
IsSingle ud = Distinct name_of str_eq ud

-- The counter starts with 0 for the first session.
unfoldable pub refs : Text → List UserData → ℕ
refs u [] = 0
refs u (e ∷ ud) = let n = refs u ud in if is_of u e then e.numptr + 1 else n

pub add_ud-IsSingle : (d : DbUser) (ud : List UserData) → IsSingle ud → IsSingle (add_ud d ud)
unfolding add_ud
add_ud-IsSingle d ud h = elim (Bool-cases (any (is_of d.username) ud)) [
  | inl e ↦ rw e (
      Distinct-update_first name_of str_eq str_eq_iff (is_of d.username) inc_num_ptr (λ _. refl) ud
        h)
  | inr e ↦ rw e (Distinct-push name_of str_eq str_eq_iff ud (new_data d) e h)
]

pub any-del_ud :
    (u v : Text) (ud : List UserData)
    → any (is_of u) ud ≡ false
    → any (is_of u) (del_ud v ud) ≡ false
unfolding any del_ud
any-del_ud u v [] h = refl
any-del_ud u v (e ∷ ud) h = ground (arith, any-del_ud u v ud)

pub del_ud-IsSingle : (u : Text) (ud : List UserData) → IsSingle ud → IsSingle (del_ud u ud)
unfolding del_ud any
del_ud-IsSingle u [] h = tt
del_ud-IsSingle u (e ∷ ud) h = ground (arith, any-del_ud (name_of e) u ud, del_ud-IsSingle u ud)

refs-update_first :
    (u v : Text) (ud : List UserData)
    → any (is_of v) ud ≡ true
    → refs u (update_first (is_of v) inc_num_ptr ud)
      ≡ (if str_eq v u then refs u ud + 1 else refs u ud)
unfolding refs update_first any
refs-update_first u v [] h = absurd (ground (arith, h))
refs-update_first u v (e ∷ ud) h = ground (
  arith,
  refs-update_first u v ud,
  str_eq_iff (name_of e) v,
  str_eq_iff (name_of e) u,
  str_eq_iff v u,
)

refs-push :
    (u : Text) (d : DbUser) (ud : List UserData)
    → any (is_of d.username) ud ≡ false
    → refs u (ud ++ new_data d ∷ []) ≡ (if str_eq d.username u then refs u ud + 1 else refs u ud)
unfolding refs any
refs-push u d [] h = ground arith
refs-push u d (e ∷ ud) h = ground (
  arith,
  refs-push u d ud,
  str_eq_iff (name_of e) d.username,
  str_eq_iff (name_of e) u,
  str_eq_iff d.username u,
)

pub refs-add_ud :
    (u : Text) (d : DbUser) (ud : List UserData)
    → refs u (add_ud d ud) ≡ (if str_eq d.username u then refs u ud + 1 else refs u ud)
unfolding add_ud
refs-add_ud u d ud = elim (Bool-cases (any (is_of d.username) ud)) [
  | inl e ↦ rw e (refs-update_first u d.username ud e)
  | inr e ↦ rw e (refs-push u d ud e)
]

pub refs-none : (u : Text) (ud : List UserData) → any (is_of u) ud ≡ false → refs u ud ≡ 0
unfolding refs any
refs-none u [] h = refl
refs-none u (e ∷ ud) h = ground (arith, refs-none u ud)

pub refs-del_ud :
    (u v : Text) (ud : List UserData)
    → IsSingle ud
    → refs u (del_ud v ud) ≤ (if str_eq v u then refs u ud - 1 else refs u ud)
unfolding refs del_ud
refs-del_ud u v [] h = ground arith
refs-del_ud u v (e ∷ ud) h = ground (
  arith,
  refs-del_ud u v ud,
  refs-none (name_of e) (del_ud v ud),
  any-del_ud (name_of e) v ud,
  str_eq_iff (name_of e) v,
  str_eq_iff (name_of e) u,
  str_eq_iff v u,
)

-- Without a session that counts, nothing is known.
pub get_ud-refs : (u : Text) (ud : List UserData) → refs u ud ≡ 0 → get_ud u ud ≡ new_user
unfolding get_ud find refs
get_ud-refs u [] h = refl
get_ud-refs u (e ∷ ud) h = ground (arith, get_ud-refs u ud)
