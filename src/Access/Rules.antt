-- ===== src/Access/Rules.antt =====
-- What `Acl_data::check` decides, and what edits of a list do to its decisions.
use tacppd.Common.{
  ◌≡◌, refl, ap, ◌∙◌, inl, inr, ◌↔◌, Bool, true, false, ◌&&◌, ◌||◌, List, [], ◌∷◌, ◌++◌, ℕ, none,
  some, Text, CString, All, arith, if◌then◌else◌, Bool-cases,
}
use tacppd.Access.Entry.{Regex, AclEntry, fires, check_permit, check_deny}
use tacppd.Access.Data.{AclData, check, check_entries, add_permit, add_deny}

module _ (rx : Regex) (s : Text) where
  -- The rule says nothing of the text.
  abbrev pub IsSilent : AclEntry → Type 0
  IsSilent e = (fires rx e.deny s ≡ false) × (fires rx e.permit s ≡ false)

  -- The rule lets the text through.
  abbrev pub Permits : AclEntry → Type 0
  Permits e = (fires rx e.deny s ≡ false) × (fires rx e.permit s ≡ true)

  -- A rule that permits, behind rules that are silent.
  abbrev pub IsPermitted : List AclEntry → Type 0
  IsPermitted es =
      (front : List AclEntry) × (e : AclEntry) × (back : List AclEntry) × (es ≡ front ++ e ∷ back)
      × All IsSilent front
      × Permits e

  check_entries-IsPermitted : (es : List AclEntry) → check_entries rx es s ≡ true → IsPermitted es
  unfolding check_entries check_deny check_permit
  check_entries-IsPermitted [] h = absurd (ground arith)
  check_entries-IsPermitted (e ∷ es) h = elim (Bool-cases (fires rx e.permit s)) [
    | inl p ↦ ([], e, es, refl, tt, (ground arith, p))
    | inr p ↦
        let (front, x, back, eq, silent, found) = check_entries-IsPermitted es (ground arith) in
        (e ∷ front, x, back, ap (◌∷◌ e) eq, ((ground arith, p), silent), found)
  ]

  check_entries_of_split :
      (front : List AclEntry) (e : AclEntry) (back : List AclEntry)
      → All IsSilent front
      → Permits e
      → check_entries rx (front ++ e ∷ back) s ≡ true
  unfolding check_entries check_deny check_permit
  check_entries_of_split [] e back silent p = ground arith
  check_entries_of_split (x ∷ front) e back silent p =
      ground (arith, check_entries_of_split front e back silent.1 p)

  -- A list permits a text exactly when the first of its rules that is not silent on the text
  -- permits it: a rule with a deny pattern that matches, or no rule at all, refuses.
  pub check_iff : (d : AclData) → (check rx d s ≡ true) ↔ IsPermitted d.acl
  unfolding check
  check_iff d = (
    check_entries-IsPermitted d.acl,
    λ (front, e, back, eq, silent, p). rw eq (check_entries_of_split front e back silent p),
  )

  unfoldable pub all_silent : List AclEntry → Bool
  all_silent [] = true
  all_silent (e ∷ es) =
      if fires rx e.deny s then false else if fires rx e.permit s then false else all_silent es

  check_entries-append :
      (es : List AclEntry) (e : AclEntry)
      → check_entries rx (es ++ e ∷ []) s
        ≡ (check_entries rx es s || (all_silent es && check_entries rx (e ∷ []) s))
  unfolding check_entries check_deny check_permit all_silent
  check_entries-append [] e = refl
  check_entries-append (x ∷ es) e = ground (arith, check_entries-append es e)

  fires_empty : fires rx [] s ≡ false
  unfolding fires
  fires_empty = refl

  only_permit :
      (p : Text) → check_entries rx (record { permit = p; deny = [] } ∷ []) s ≡ fires rx p s
  unfolding check_entries check_deny check_permit
  only_permit p = ground (arith, fires_empty)

  only_deny : (p : Text) → check_entries rx (record { permit = []; deny = p } ∷ []) s ≡ false
  unfolding check_entries check_deny check_permit
  only_deny p = ground (arith, fires_empty)

  -- A permit rule goes to the end of its list: what the list permitted stays permitted, and of the
  -- other texts those are let through on which every older rule is silent and the new one fires.
  pub check_entries-add_permit :
      (d : AclData) (c : ℕ) (p : Text)
      → check rx (add_permit d (some (c ∷ p))).0 s
        ≡ (check rx d s || (all_silent d.acl && fires rx (c ∷ p) s))
  unfolding check add_permit
  check_entries-add_permit d c p =
      check_entries-append d.acl _
      ∙ ap (λ b. check_entries rx d.acl s || (all_silent d.acl && b)) (only_permit (c ∷ p))

  -- A deny rule goes to the end too, where it changes no decision.
  pub check_entries-add_deny :
      (d : AclData) (r : CString) → check rx (add_deny d r).0 s ≡ check rx d s
  unfolding check add_deny
  check_entries-add_deny d none = refl
  check_entries-add_deny d (some []) = refl
  check_entries-add_deny d (some (c ∷ p)) =
      check_entries-append d.acl _ ∙ ground (arith, only_deny (c ∷ p))
