-- ===== src/Tacacs/Author/Backed.antt =====
-- Pairs that the user's entry in the database allows, and the reviews that keep to them.
use tacppd.Common.{
  ◌≡◌, refl, sym, ap, ◌∙◌, ℕ, zero, suc, Bool, true, false, ◌||◌, some, List, [], ◌∷◌, ◌++◌, Text,
  codes, any, subst, find, arith, if◌then◌else◌, Bool-cases, Option-cases, str_eq, str_eq_iff,
  str_eq_refl, inl, inr, drop, take, All, All-append,
}
use tacppd.Common.Prefix.{scomp_n}
use tacppd.User.{UserAvp}
use tacppd.Tacacs.Author.{
  Review, Response, fail, pass_add, pass_repl, allows_mandatory, keep, case_f, case_g, case_h,
  review_mandatory, review_default, from_db, review_optional, add_missing, is_missing, respond,
  nonempty, avp_texts,
}

-- The pairs that a reply carries.
unfoldable pub pairs : Response → List Text
pairs fail = []
pairs (pass_add ps) = ps
pairs (pass_repl ps) = ps

-- The pairs of a request that name its service and, directly behind it, its protocol.
unfoldable pub named_pairs : List Text → List Text
named_pairs [] = []
named_pairs (first ∷ []) = first ∷ []
named_pairs (first ∷ second ∷ args) =
    if scomp_n second (codes "protocol=") 9 then first ∷ second ∷ [] else first ∷ []

-- Is one of these pairs, or is allowed by a pair of the user: the same pair, or an optional one of
-- the same attribute.
unfoldable pub is_backed : List Text → List UserAvp → Text → Bool
is_backed named avps p = any (str_eq p) named || any (allows_mandatory p) avps

abbrev pub AllBacked : List Text → List UserAvp → List Text → Type 0
AllBacked named avps ps = All (λ p. is_backed named avps p ≡ true) ps

pub named_first :
    (avps : List UserAvp) (p : Text) (ps : List Text) → is_backed (p ∷ ps) avps p ≡ true
unfolding is_backed any
named_first avps p ps = ground (arith, str_eq_refl p)

pub named_second : (avps : List UserAvp) (p q : Text) → is_backed (p ∷ q ∷ []) avps q ≡ true
unfolding is_backed any
named_second avps p q = ground (arith, str_eq_refl q)

any-append :
    (p : Text) (front : List UserAvp) (a : UserAvp) (back : List UserAvp)
    → allows_mandatory p a ≡ true
    → any (allows_mandatory p) (front ++ a ∷ back) ≡ true
unfolding any
any-append p [] a back h = ground arith
any-append p (x ∷ front) a back h = ground (arith, any-append p front a back h)

allows_own : (a : UserAvp) → allows_mandatory a.avp a ≡ true
unfolding allows_mandatory
allows_own a = ground (arith, str_eq_refl a.avp)

any_of_find :
    (t : UserAvp → Bool) (avps : List UserAvp) (a : UserAvp)
    → find t avps ≡ some a
    → any (allows_mandatory a.avp) avps ≡ true
unfolding any find
any_of_find t [] a h = absurd (ground arith)
any_of_find t (x ∷ avps) a h = elim (Bool-cases (t x)) [
  | inl e ↦
      let same : x ≡ a = ground arith in
      let own : allows_mandatory a.avp x ≡ true =
        sym (ap (λ b. allows_mandatory b.avp x) same) ∙ allows_own x in
      ground (arith, own)
  | inr e ↦ ground (arith, any_of_find t avps a (ground arith))
]

any_of_equal :
    (p : Text) (avps : List UserAvp)
    → any (λ a. str_eq p a.avp) avps ≡ true
    → any (allows_mandatory p) avps ≡ true
unfolding any allows_mandatory
any_of_equal p [] h = absurd (ground arith)
any_of_equal p (x ∷ avps) h =
    ground (arith, any_of_equal p avps, str_eq_iff p x.avp, str_eq_iff x.avp p)

-- Every pair that `avps` allows is allowed by `all` too.
abbrev Within : List UserAvp → List UserAvp → Type 0
Within all avps =
    (p : Text) → any (allows_mandatory p) avps ≡ true → any (allows_mandatory p) all ≡ true

Within-tail :
    (all : List UserAvp) (a : UserAvp) (avps : List UserAvp)
    → Within all (a ∷ avps)
    → Within all avps
unfolding any
Within-tail all a avps w p h = w p (ground arith)

Within-head :
    (all : List UserAvp) (a : UserAvp) (avps : List UserAvp)
    → Within all (a ∷ avps)
    → any (allows_mandatory a.avp) all ≡ true
unfolding any
Within-head all a avps w = w a.avp (ground (arith, allows_own a))

module _ (named : List Text) where
  pub AllBacked-nonempty :
      (avps : List UserAvp) (ps : List Text)
      → AllBacked named avps ps
      → AllBacked named avps (nonempty ps)
  unfolding nonempty
  AllBacked-nonempty avps [] h = tt
  AllBacked-nonempty avps ([] ∷ ps) h = AllBacked-nonempty avps ps h.1
  AllBacked-nonempty avps ((c ∷ s) ∷ ps) h = (h.0, AllBacked-nonempty avps ps h.1)

  AllBacked-drop :
      (avps : List UserAvp) (n : ℕ) (ps : List Text)
      → AllBacked named avps ps
      → AllBacked named avps (drop n ps)
  AllBacked-drop avps zero ps h = h
  AllBacked-drop avps (suc n) [] h = tt
  AllBacked-drop avps (suc n) (p ∷ ps) h = AllBacked-drop avps n ps h.1

  pub AllBacked-take :
      (avps : List UserAvp) (n : ℕ) (ps : List Text)
      → AllBacked named avps ps
      → AllBacked named avps (take n ps)
  AllBacked-take avps zero ps h = tt
  AllBacked-take avps (suc n) [] h = tt
  AllBacked-take avps (suc n) (p ∷ ps) h = (h.0, AllBacked-take avps n ps h.1)

  is_backed_of_any :
      (avps : List UserAvp) (p : Text)
      → any (allows_mandatory p) avps ≡ true
      → is_backed named avps p ≡ true
  unfolding is_backed
  is_backed_of_any avps p h = ground arith

  AllBacked-snoc :
      (avps : List UserAvp) (ps : List Text) (p : Text)
      → AllBacked named avps ps
      → any (allows_mandatory p) avps ≡ true
      → AllBacked named avps (ps ++ p ∷ [])
  AllBacked-snoc avps ps p h k =
      All-append (λ q. is_backed named avps q ≡ true) ps (p ∷ []) h (is_backed_of_any avps p k, tt)

  AllBacked-from_db :
      (avps : List UserAvp) (t : UserAvp → Bool) (other r : Review)
      → AllBacked named avps r.bavpair
      → AllBacked named avps other.bavpair
      → AllBacked named avps (from_db (find t avps) other r).bavpair
  unfolding from_db
  AllBacked-from_db avps t other r h k = elim (Option-cases (find t avps)) [
    | inl e ↦ rw e k
    | inr (a, e) ↦ rw e (AllBacked-snoc avps r.bavpair a.avp h (any_of_find t avps a e))
  ]

  pub AllBacked-review_optional :
      (avps : List UserAvp) (p : Text) (r : Review)
      → AllBacked named avps r.bavpair
      → AllBacked named avps (review_optional false avps p r).bavpair
  unfolding review_optional review_default
  AllBacked-review_optional avps p r h = elim (Bool-cases (any (λ a. str_eq p a.avp) avps)) [
    | inl e ↦ rw e (AllBacked-snoc avps r.bavpair p h (any_of_equal p avps e))
    | inr e ↦ rw e (
        AllBacked-from_db avps (case_f p) _ r h
          (AllBacked-from_db avps (case_g p) _ r h (AllBacked-from_db avps (case_h p) _ r h h)))
  ]

  pub AllBacked-review_mandatory :
      (avps : List UserAvp) (p : Text) (r r' : Review)
      → AllBacked named avps r.bavpair
      → review_mandatory false avps p r ≡ some r'
      → AllBacked named avps r'.bavpair
  unfolding review_mandatory
  AllBacked-review_mandatory avps p r r' h e = elim (Bool-cases (any (allows_mandatory p) avps)) [
    | inl k ↦
        let same : keep p r ≡ r' = ground (arith, k) in
        subst (λ q. AllBacked named avps q.bavpair) same (AllBacked-snoc avps r.bavpair p h k)
    | inr k ↦ absurd (ground (arith, k))
  ]

  pub AllBacked-add_missing :
      (all : List UserAvp) (service protocol : Text) (avps : List UserAvp) (r : Review)
      → Within all avps
      → AllBacked named all r.bavpair
      → AllBacked named all (add_missing service protocol avps r).bavpair
  unfolding add_missing
  AllBacked-add_missing all service protocol [] r w h = h
  AllBacked-add_missing all service protocol (a ∷ avps) r w h =
      elim (Bool-cases (is_missing service protocol r.bavpair a)) [
        | inl e ↦
            rw (add_missing, e)
              (AllBacked-add_missing all service protocol avps _ (Within-tail all a avps w)
                (AllBacked-snoc all r.bavpair a.avp h (Within-head all a avps w)))
        | inr e ↦
            rw (add_missing, e)
              (AllBacked-add_missing all service protocol avps r (Within-tail all a avps w) h)
      ]

  pub AllBacked-avp_texts :
      (all avps : List UserAvp) → Within all avps → AllBacked named all (avp_texts avps)
  AllBacked-avp_texts all [] w = tt
  AllBacked-avp_texts all (a ∷ avps) w = (
    is_backed_of_any all a.avp (Within-head all a avps w),
    AllBacked-avp_texts all avps (Within-tail all a avps w),
  )

  AllBacked-counts :
      (avps : List UserAvp) (n : ℕ) (b : List Text) (added replaced : ℕ)
      → AllBacked named avps b
      → AllBacked named avps
          (pairs (respond n (record { bavpair = b; added = added; replaced = replaced })))
  unfolding respond pairs
  AllBacked-counts avps n b a (suc k) h = h
  AllBacked-counts avps n b (suc k) zero h =
      AllBacked-nonempty avps (drop n b) (AllBacked-drop avps n b h)
  AllBacked-counts avps n b zero zero h = tt

  pub AllBacked-respond :
      (avps : List UserAvp) (n : ℕ) (r : Review)
      → AllBacked named avps r.bavpair
      → AllBacked named avps (pairs (respond n r))
  AllBacked-respond avps n r h = AllBacked-counts avps n r.bavpair r.added r.replaced h

  pub AllBacked-if :
      (avps : List UserAvp) (b : Bool) (x y : Response)
      → (b ≡ true → AllBacked named avps (pairs x))
      → (b ≡ false → AllBacked named avps (pairs y))
      → AllBacked named avps (pairs (if b then x else y))
  AllBacked-if avps true x y h k = h refl
  AllBacked-if avps false x y h k = k refl
