-- ===== src/Track/Billing/Lost.antt =====
-- What the counter does when a user has several sessions.
use tacppd.Common.{
  ◌≡◌, refl, subst, ap, ◌∙◌, ℕ, zero, suc, ◌-◌, Bool-cases, true, false, inl, inr, none, some, List,
  [], ◌∷◌, Text, str_eq, str_eq_iff, str_eq_refl, if◌then◌else◌, any, find, leb, ltb, arith,
}
use tacppd.Common.Keyed.{find-push, find-none, find-update_first}
use tacppd.User.{DbUser, new_user}
use tacppd.Track.Billing.{
  UserData, new_data, is_of, inc_num_ptr, dec_num_ptr, get_ud, add_ud, del_ud,
}
use tacppd.Track.Billing.Counter.{IsSingle, any-del_ud, name_of, add_ud-IsSingle, del_ud-IsSingle}

-- So many sessions of a user begin, or end.
unfoldable pub begin : ℕ → DbUser → List UserData → List UserData
begin zero d ud = ud
begin (suc n) d ud = add_ud d (begin n d ud)

unfoldable pub end : ℕ → Text → List UserData → List UserData
end zero u ud = ud
end (suc n) u ud = del_ud u (end n u ud)

abbrev counted : DbUser → ℕ → UserData
counted d n = record { ddata = d; numptr = n }

begin-IsSingle : (n : ℕ) (d : DbUser) (ud : List UserData) → IsSingle ud → IsSingle (begin n d ud)
unfolding begin
begin-IsSingle zero d ud h = h
begin-IsSingle (suc n) d ud h = add_ud-IsSingle d (begin n d ud) (begin-IsSingle n d ud h)

end-IsSingle : (n : ℕ) (u : Text) (ud : List UserData) → IsSingle ud → IsSingle (end n u ud)
unfolding end
end-IsSingle zero u ud h = h
end-IsSingle (suc n) u ud h = del_ud-IsSingle u (end n u ud) (end-IsSingle n u ud h)

any-find :
    (u : Text) (ud : List UserData) (e : UserData)
    → find (is_of u) ud ≡ some e
    → any (is_of u) ud ≡ true
unfolding any find
any-find u [] e h = absurd (ground (arith, h))
any-find u (x ∷ ud) e h = ground (arith, any-find u ud e)

find-begin :
    (n : ℕ) (d : DbUser) (ud : List UserData)
    → any (is_of d.username) ud ≡ false
    → find (is_of d.username) (begin (suc n) d ud) ≡ some (counted d n)
unfolding begin add_ud
find-begin zero d ud h =
    rw (h, find-push (is_of d.username) ud (new_data d), h, str_eq_refl d.username) refl
find-begin (suc n) d ud h =
    let before = find-begin n d ud h in
    rw (any-find d.username (begin (suc n) d ud) (counted d n) before) (
      find-update_first name_of str_eq str_eq_iff inc_num_ptr (λ _. refl) d.username d.username
        (begin (suc n) d ud)
      ∙ rw (str_eq_refl d.username, before) (ap (λ m. some (counted d m)) (omega arith)))

del_ud-gone :
    (u : Text) (x : UserData) (ud : List UserData)
    → IsSingle (x ∷ ud)
    → is_of u x ≡ true
    → find (is_of u) (del_ud u ud) ≡ none
del_ud-gone u x ud h f = find-none (is_of u) (del_ud u ud) (
    subst (λ v. any (is_of v) (del_ud u ud) ≡ false) ((str_eq_iff (name_of x) u).0 f)
      (any-del_ud (name_of x) u ud h.0))

find-del_ud :
    (u : Text) (ud : List UserData)
    → IsSingle ud
    → find (is_of u) (del_ud u ud) ≡ elim (find (is_of u) ud) [
      | none ↦ none
      | some e ↦ if leb e.numptr 1 then none else some (dec_num_ptr e)
    ]
unfolding find del_ud
find-del_ud u [] h = refl
find-del_ud u (x ∷ ud) h = elim (Bool-cases (is_of u x)) [
  | inl f ↦ ground (arith, del_ud-gone u x ud h f)
  | inr f ↦ ground (arith, find-del_ud u ud)
]

find-end-begin :
    (j k : ℕ) (d : DbUser) (ud : List UserData)
    → IsSingle ud
    → any (is_of d.username) ud ≡ false
    → find (is_of d.username) (end (suc j) d.username (begin (suc k) d ud))
      ≡ (if ltb (suc j) k then some (counted d (k - suc j)) else none)
unfolding end
find-end-begin zero k d ud h miss =
    find-del_ud d.username (begin (suc k) d ud) (begin-IsSingle (suc k) d ud h)
    ∙ rw (find-begin k d ud miss) (ground arith)
find-end-begin (suc j) k d ud h miss =
    find-del_ud d.username (end (suc j) d.username (begin (suc k) d ud))
      (end-IsSingle (suc j) d.username (begin (suc k) d ud) (begin-IsSingle (suc k) d ud h))
    ∙ rw (find-end-begin j k d ud h miss) (ground arith)

-- From a list with one data for each of its users and none for this one: after k + 1 sessions of the
-- user began and j of them ended, at least one, the user's data is
-- still there exactly if j < k: the end of the last but one session already drops it.
pub get_ud-end-begin :
    (j k : ℕ) (d : DbUser) (ud : List UserData)
    → IsSingle ud
    → any (is_of d.username) ud ≡ false
    → get_ud d.username (end (suc j) d.username (begin (suc k) d ud))
      ≡ (if ltb (suc j) k then d else new_user)
unfolding get_ud
get_ud-end-begin j k d ud h miss = rw (get_ud, find-end-begin j k d ud h miss) (ground arith)
