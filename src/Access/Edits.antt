-- ===== src/Access/Edits.antt =====
-- `Acl_data::del_permit` and `del_deny` against the rules that were added.
use tacppd.Common.{
  ◌≡◌, Bool, true, false, List, [], ◌∷◌, ◌++◌, ℕ, some, Text, arith, any, str_eq_refl,
}
use tacppd.Common.Keyed.{any-push, erase_first-push}
use tacppd.Access.Data.{AclData, has_permit, has_deny, add_permit, add_deny, del_permit, del_deny}

any-push_hit {ℓ} :
    {A : Type ℓ} (p : A → Bool) (xs : List A) (x : A) → p x ≡ true → any p (xs ++ x ∷ []) ≡ true
any-push_hit p xs x e = ground (arith, any-push p xs x)

-- Deleting a permit pattern that was just added to a list without it gives the list back.
pub del_permit-add_permit :
    (d : AclData) (c : ℕ) (p : Text)
    → any (has_permit (c ∷ p)) d.acl ≡ false
    → del_permit (add_permit d (some (c ∷ p))).0 (some (c ∷ p)) ≡ (d, true)
unfolding del_permit add_permit
del_permit-add_permit d c p h =
    let e = str_eq_refl (c ∷ p) in
    ground (
      arith,
      erase_first-push (has_permit (c ∷ p)) d.acl (record { permit = c ∷ p; deny = [] }) h e,
      any-push_hit (has_permit (c ∷ p)) d.acl (record { permit = c ∷ p; deny = [] }) e,
    )

-- The same of a deny pattern.
pub del_deny-add_deny :
    (d : AclData) (c : ℕ) (p : Text)
    → any (has_deny (c ∷ p)) d.acl ≡ false
    → del_deny (add_deny d (some (c ∷ p))).0 (some (c ∷ p)) ≡ (d, true)
unfolding del_deny add_deny
del_deny-add_deny d c p h =
    let e = str_eq_refl (c ∷ p) in
    ground (
      arith,
      erase_first-push (has_deny (c ∷ p)) d.acl (record { permit = []; deny = c ∷ p }) h e,
      any-push_hit (has_deny (c ∷ p)) d.acl (record { permit = []; deny = c ∷ p }) e,
    )
