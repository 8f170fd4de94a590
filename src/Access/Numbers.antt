-- ===== src/Access/Numbers.antt =====
-- Access lists by their numbers: no two lists share one, and what each operation does to the others.
use tacppd.Common.{◌≡◌, refl, List, [], ◌∷◌, none, some, CString, any, Bool-cases, inl, inr}
use tacppd.Common.Int.{ℤ, int_eq, int_eq_iff}
use tacppd.Common.Keyed.{Distinct, Distinct-push, Distinct-update_first, Distinct-erase_all}
use tacppd.Access.Data.{AclData}
use tacppd.Access.Data
use tacppd.Access.{
  CoreAccess, has_number, touch_or_make, add, add_permit, add_deny, del, del_permit, del_deny,
}

-- The calls that the configuration commands make.
pub data Edit : Type 0 where
  adds : ℤ → Edit
  adds_permit adds_deny : ℤ → CString → Edit
  dels : ℤ → Edit
  dels_permit dels_deny : ℤ → CString → Edit

unfoldable pub step : CoreAccess → Edit → CoreAccess
step c (adds n) = add c n
step c (adds_permit n r) = (add_permit c n r).0
step c (adds_deny n r) = (add_deny c n r).0
step c (dels n) = (del c n).0
step c (dels_permit n r) = (del_permit c n r).0
step c (dels_deny n r) = (del_deny c n r).0

unfoldable pub run : CoreAccess → List Edit → CoreAccess
run c [] = c
run c (e ∷ es) = run (step c e) es

abbrev pub number_of : AclData → ℤ
number_of d = d.number

-- No two lists have one number.
abbrev pub IsDistinct : CoreAccess → Type 0
IsDistinct c = Distinct number_of int_eq c.acls

pub number-add_permit : (r : CString) (d : AclData) → (Data.add_permit d r).0.number ≡ d.number
unfolding Data.add_permit
number-add_permit none d = refl
number-add_permit (some []) d = refl
number-add_permit (some (c ∷ p)) d = refl

pub number-add_deny : (r : CString) (d : AclData) → (Data.add_deny d r).0.number ≡ d.number
unfolding Data.add_deny
number-add_deny none d = refl
number-add_deny (some []) d = refl
number-add_deny (some (c ∷ p)) d = refl

pub number-del_permit : (r : CString) (d : AclData) → (Data.del_permit d r).0.number ≡ d.number
unfolding Data.del_permit
number-del_permit none d = refl
number-del_permit (some []) d = refl
number-del_permit (some (c ∷ p)) d = refl

pub number-del_deny : (r : CString) (d : AclData) → (Data.del_deny d r).0.number ≡ d.number
unfolding Data.del_deny
number-del_deny none d = refl
number-del_deny (some []) d = refl
number-del_deny (some (c ∷ p)) d = refl

pub touch_or_make-IsDistinct :
    (c : CoreAccess) (p : ℤ) (f : AclData → AclData)
    → ((d : AclData) → (f d).number ≡ d.number)
    → IsDistinct c
    → IsDistinct (touch_or_make c p f)
unfolding touch_or_make
touch_or_make-IsDistinct c p f keeps v = elim (Bool-cases (any (has_number p) c.acls)) [
  | inl old ↦
      rw old (Distinct-update_first number_of int_eq int_eq_iff (has_number p) f keeps c.acls v)
  | inr new ↦ rw new (
      Distinct-push number_of int_eq int_eq_iff c.acls (f (Data.new p))
        (rw (keeps (Data.new p)) new) v)
]

add-IsDistinct : (c : CoreAccess) (n : ℤ) → IsDistinct c → IsDistinct (add c n)
unfolding add
add-IsDistinct c n v = elim (Bool-cases (any (has_number n) c.acls)) [
  | inl old ↦ rw old v
  | inr new ↦ rw new (Distinct-push number_of int_eq int_eq_iff c.acls (Data.new n) new v)
]

pub del-IsDistinct : (c : CoreAccess) (p : ℤ) → IsDistinct c → IsDistinct (del c p).0
unfolding del
del-IsDistinct c p v = Distinct-erase_all number_of int_eq int_eq_iff _ c.acls v

pub step-IsDistinct : (c : CoreAccess) (e : Edit) → IsDistinct c → IsDistinct (step c e)
unfolding step add_permit add_deny del_permit del_deny
step-IsDistinct c (adds n) v = add-IsDistinct c n v
step-IsDistinct c (adds_permit n r) v = touch_or_make-IsDistinct c n _ (number-add_permit r) v
step-IsDistinct c (adds_deny n r) v = touch_or_make-IsDistinct c n _ (number-add_deny r) v
step-IsDistinct c (dels n) v = del-IsDistinct c n v
step-IsDistinct c (dels_permit n r) v =
    Distinct-update_first number_of int_eq int_eq_iff _ _ (number-del_permit r) c.acls v
step-IsDistinct c (dels_deny n r) v =
    Distinct-update_first number_of int_eq int_eq_iff _ _ (number-del_deny r) c.acls v

-- No sequence of edits makes two lists of one number.
pub run-IsDistinct : (c : CoreAccess) (es : List Edit) → IsDistinct c → IsDistinct (run c es)
unfolding run
run-IsDistinct c [] v = v
run-IsDistinct c (e ∷ es) v = run-IsDistinct (step c e) es (step-IsDistinct c e v)
