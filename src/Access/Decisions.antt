-- ===== src/Access/Decisions.antt =====
-- `CoreAccess::check` against the lists by their numbers, and what the edits do to its decisions.
use tacppd.Common.{
  ◌≡◌, refl, Bool, false, ◌||◌, ◌&&◌, ℕ, List, [], ◌∷◌, Option, none, some, Text, CString, arith,
  any, find, if◌then◌else◌, Bool-cases, inl, inr,
}
use tacppd.Common.Int.{ℤ, int_eq, int_eq_iff}
use tacppd.Common.Keyed.{
  Distinct, find-update_first, find-erase_all, find-push, find-none, find-any,
}
use tacppd.Access.Entry.{Regex, AclEntry, fires}
use tacppd.Access.Rules.{all_silent}
use tacppd.Access.Rules
use tacppd.Access.Data.{AclData}
use tacppd.Access.Data
use tacppd.Access.Numbers.{
  IsDistinct, number_of, number-add_permit, number-add_deny, touch_or_make-IsDistinct,
  del-IsDistinct,
}
use tacppd.Access.{
  CoreAccess, has_number, touch_or_make, add_permit, add_deny, del, check, check_lists,
}

-- The decision of the list that was found, and a refusal where there is none.
abbrev pub decide : Regex → Text → Option AclData → Bool
decide rx r none = false
decide rx r (some d) = Data.check rx d r

check_lists_miss :
    (rx : Regex) (p : ℤ) (r : Text) (ds : List AclData)
    → any (has_number p) ds ≡ false
    → check_lists rx ds p r ≡ false
unfolding check_lists any
check_lists_miss rx p r [] h = refl
check_lists_miss rx p r (d ∷ ds) h = ground (arith, check_lists_miss rx p r ds)

check_lists-find :
    (rx : Regex) (p : ℤ) (r : Text) (ds : List AclData)
    → Distinct number_of int_eq ds
    → check_lists rx ds p r ≡ decide rx r (find (has_number p) ds)
unfolding check_lists find
check_lists-find rx p r [] v = refl
check_lists-find rx p r (d ∷ ds) v =
    ground (arith, check_lists_miss rx p r ds, check_lists-find rx p r ds, int_eq_iff d.number p)

-- While numbers are distinct, a check by number is the decision of the one list of that number, and
-- a refusal where there is none.
pub check-find :
    (rx : Regex) (c : CoreAccess) (p : ℤ) (r : Text)
    → IsDistinct c
    → check rx c p r ≡ decide rx r (find (has_number p) c.acls)
unfolding check
check-find rx c p r v = check_lists-find rx p r c.acls v

-- Deleting a list refuses what is checked against its number from then on, and changes no decision
-- of another number.
pub check-del :
    (rx : Regex) (c : CoreAccess) (p q : ℤ) (r : Text)
    → IsDistinct c
    → check rx (del c p).0 q r ≡ (if int_eq p q then false else check rx c q r)
unfolding del
check-del rx c p q r v =
    rw
      (
        check-find rx (del c p).0 q r (del-IsDistinct c p v),
        check-find rx c q r v,
        find-erase_all number_of int_eq int_eq_iff p q c.acls,
        del,
      )
      (ground (arith, find-erase_all number_of int_eq int_eq_iff p q c.acls))

abbrev or_new : ℤ → Option AclData → AclData
or_new p none = Data.new p
or_new p (some d) = d

find-touch_or_make :
    (c : CoreAccess) (p q : ℤ) (f : AclData → AclData)
    → ((d : AclData) → (f d).number ≡ d.number)
    → find (has_number q) (touch_or_make c p f).acls ≡ (
        if int_eq p q
        then some (f (or_new p (find (has_number p) c.acls)))
        else find (has_number q) c.acls)
unfolding touch_or_make
find-touch_or_make c p q f keeps = elim (Bool-cases (any (has_number p) c.acls)) [
  | inl old ↦
      let (d, found) = find-any (has_number p) c.acls old in
      rw old (rw (find-update_first number_of int_eq int_eq_iff f keeps p q c.acls, found) refl)
  | inr new ↦
      rw (new, find-none (has_number p) c.acls new)
        (ground (
          arith,
          find-push (has_number q) c.acls (f (Data.new p)),
          find-none (has_number q) c.acls,
          keeps (Data.new p),
          int_eq_iff p q,
        ))
]

check-touch_or_make :
    (rx : Regex) (c : CoreAccess) (p q : ℤ) (r : Text) (f : AclData → AclData)
    → ((d : AclData) → (f d).number ≡ d.number)
    → IsDistinct c
    → check rx (touch_or_make c p f) q r ≡ (
        if int_eq p q
        then Data.check rx (f (or_new p (find (has_number p) c.acls))) r
        else check rx c q r)
check-touch_or_make rx c p q r f keeps v =
    rw
      (
        check-find rx (touch_or_make c p f) q r (touch_or_make-IsDistinct c p f keeps v),
        check-find rx c q r v,
      )
      (ground (arith, find-touch_or_make c p q f keeps))

check-or_new :
    (rx : Regex) (c : CoreAccess) (p : ℤ) (r : Text)
    → IsDistinct c
    → Data.check rx (or_new p (find (has_number p) c.acls)) r ≡ check rx c p r
unfolding Data.check
check-or_new rx c p r v = rw (check-find rx c p r v) (ground arith)

-- The rules under a number: none where there is no list.
abbrev pub rules : CoreAccess → ℤ → List AclEntry
rules c p = (or_new p (find (has_number p) c.acls)).acl

-- A permit rule changes decisions of its number alone, and of those only refusals: where no rule
-- under the number says anything of the text, and the new rule's pattern matches it.
pub check-add_permit :
    (rx : Regex) (c : CoreAccess) (p q : ℤ) (k : ℕ) (s r : Text)
    → IsDistinct c
    → check rx (add_permit c p (some (k ∷ s))).0 q r
      ≡ (check rx c q r || (int_eq p q && (all_silent rx r (rules c p) && fires rx (k ∷ s) r)))
unfolding add_permit
check-add_permit rx c p q k s r v = ground (
  arith,
  check-touch_or_make rx c p q r (λ d. (Data.add_permit d (some (k ∷ s))).0)
      (number-add_permit (some (k ∷ s))) v,
  Rules.check_entries-add_permit rx r (or_new p (find (has_number p) c.acls)) k s,
  check-or_new rx c p r v,
  int_eq_iff p q,
)

-- A deny rule goes behind all others, and so changes no decision.
pub check-add_deny :
    (rx : Regex) (c : CoreAccess) (p q : ℤ) (k : CString) (r : Text)
    → IsDistinct c
    → check rx (add_deny c p k).0 q r ≡ check rx c q r
unfolding add_deny
check-add_deny rx c p q k r v = ground (
  arith,
  check-touch_or_make rx c p q r (λ d. (Data.add_deny d k).0) (number-add_deny k) v,
  Rules.check_entries-add_deny rx r (or_new p (find (has_number p) c.acls)) k,
  check-or_new rx c p r v,
  int_eq_iff p q,
)
