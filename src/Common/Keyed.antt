-- ===== src/Common/Keyed.antt =====
-- Lists of objects that are found by a key, each key at most once: what the walks of the program do
-- to them. An implementation gives its key, and the test for equal keys.
use mathlib.Core.Path.{◌≡◌, refl, ◌∙◌, ap, subst}
use mathlib.Core.Logic.{◌↔◌, inl, inr}
use mathlib.Core.Bool.{Bool, true, false}
use mathlib.Core.List.{List, [], ◌∷◌, ◌++◌}
use mathlib.Core.Option.{Option, none, some}
use native.Mathlib.Omega.{arith}
use tacppd.Common.Tests.{Bool-cases, if◌then◌else◌}
use tacppd.Common.Walks.{find, any, update_first, erase_first, erase_all}

module _ {A K : Type 0} (key : A → K) (eq : K → K → Bool) where
  abbrev pub at_key : K → A → Bool
  at_key k a = eq (key a) k

  -- No two objects have one key.
  abbrev pub Distinct : List A → Type 0
  Distinct [] = Unit {0}
  Distinct (x ∷ xs) = (any (at_key (key x)) xs ≡ false) × Distinct xs

module _ {ℓ} {A : Type ℓ} (p : A → Bool) where
  pub any-push : (xs : List A) (x : A) → any p (xs ++ x ∷ []) ≡ (if any p xs then true else p x)
  unfolding any
  any-push [] x = ground arith
  any-push (y ∷ xs) x = ground (arith, any-push xs x)

  pub find-push :
      (xs : List A) (x : A)
      → find p (xs ++ x ∷ []) ≡ (if any p xs then find p xs else if p x then some x else none)
  unfolding find any
  find-push [] x = ground arith
  find-push (y ∷ xs) x = ground (arith, find-push xs x)

  pub erase_first-push :
      (xs : List A) (x : A) → any p xs ≡ false → p x ≡ true → erase_first p (xs ++ x ∷ []) ≡ xs
  unfolding any erase_first
  erase_first-push [] x h e = ground arith
  erase_first-push (y ∷ xs) x h e = ground (arith, erase_first-push xs x)

  pub find-none : (xs : List A) → any p xs ≡ false → find p xs ≡ none
  unfolding find any
  find-none [] h = refl
  find-none (x ∷ xs) h = ground (arith, find-none xs)

  pub find-any : (xs : List A) → any p xs ≡ true → (a : A) × (find p xs ≡ some a)
  unfolding find any
  find-any [] h = absurd (ground arith)
  find-any (x ∷ xs) h = elim (Bool-cases (p x)) [
    | inl e ↦ (x, ground arith)
    | inr e ↦ let (a, f) = find-any xs (ground arith) in (a, ground arith)
  ]

  pub erase_all_miss : (xs : List A) → any p xs ≡ false → erase_all p xs ≡ xs
  unfolding any erase_all
  erase_all_miss [] h = refl
  erase_all_miss (x ∷ xs) h = ground (arith, erase_all_miss xs)

module _ {A K : Type 0} (key : A → K) (eq : K → K → Bool)
    (eq_iff : (a b : K) → (eq a b ≡ true) ↔ (a ≡ b)) where
  pub Distinct-push :
      (xs : List A) (x : A)
      → any (at_key key eq (key x)) xs ≡ false
      → Distinct key eq xs
      → Distinct key eq (xs ++ x ∷ [])
  unfolding any
  Distinct-push [] x h v = (refl, tt)
  Distinct-push (y ∷ xs) x h v = ground (
    arith,
    any-push (at_key key eq (key y)) xs x,
    Distinct-push xs x,
    eq_iff (key x) (key y),
    eq_iff (key y) (key x),
  )

  pub any-erase_first :
      (k : K) (p : A → Bool) (xs : List A)
      → any (at_key key eq k) xs ≡ false
      → any (at_key key eq k) (erase_first p xs) ≡ false
  unfolding any erase_first
  any-erase_first k p [] h = refl
  any-erase_first k p (x ∷ xs) h = ground (arith, any-erase_first k p xs)

  pub Distinct-erase_first :
      (p : A → Bool) (xs : List A) → Distinct key eq xs → Distinct key eq (erase_first p xs)
  unfolding erase_first
  Distinct-erase_first p [] v = tt
  Distinct-erase_first p (x ∷ xs) v =
      ground (arith, any-erase_first (key x) p xs, Distinct-erase_first p xs)

  pub any-erase_all :
      (k : K) (p : A → Bool) (xs : List A)
      → any (at_key key eq k) xs ≡ false
      → any (at_key key eq k) (erase_all p xs) ≡ false
  unfolding any erase_all
  any-erase_all k p [] h = refl
  any-erase_all k p (x ∷ xs) h = ground (arith, any-erase_all k p xs)

  pub Distinct-erase_all :
      (p : A → Bool) (xs : List A) → Distinct key eq xs → Distinct key eq (erase_all p xs)
  unfolding erase_all
  Distinct-erase_all p [] v = tt
  Distinct-erase_all p (x ∷ xs) v =
      ground (arith, any-erase_all (key x) p xs, Distinct-erase_all p xs)

  -- A change that leaves the keys alone.
  module _ (p : A → Bool) (f : A → A) (keeps : (a : A) → key (f a) ≡ key a) where
    pub any-update_first :
        (k : K) (xs : List A)
        → any (at_key key eq k) (update_first p f xs) ≡ any (at_key key eq k) xs
    unfolding any update_first
    any-update_first k [] = refl
    any-update_first k (x ∷ xs) = ground (arith, any-update_first k xs, keeps x)

    pub Distinct-update_first :
        (xs : List A) → Distinct key eq xs → Distinct key eq (update_first p f xs)
    unfolding update_first
    Distinct-update_first [] v = tt
    Distinct-update_first (x ∷ xs) v =
        ground (arith, any-update_first (key x) xs, Distinct-update_first xs, keeps x)

  -- The change is seen at its key, and at no other.
  pub find-update_first :
      (f : A → A) (keeps : (a : A) → key (f a) ≡ key a) (k j : K) (xs : List A)
      → find (at_key key eq j) (update_first (at_key key eq k) f xs) ≡ (
          if eq k j
          then elim (find (at_key key eq k) xs) [ none ↦ none | some a ↦ some (f a) ]
          else find (at_key key eq j) xs)
  unfolding find update_first
  find-update_first f keeps k j [] = ground arith
  find-update_first f keeps k j (x ∷ xs) = ground (
    arith,
    find-update_first f keeps k j xs,
    keeps x,
    eq_iff k j,
    eq_iff (key x) j,
    eq_iff (key x) k,
  )

  pub find-erase_all :
      (k j : K) (xs : List A)
      → find (at_key key eq j) (erase_all (at_key key eq k) xs)
        ≡ (if eq k j then none else find (at_key key eq j) xs)
  unfolding find erase_all
  find-erase_all k j [] = ground arith
  find-erase_all k j (x ∷ xs) =
      ground (arith, find-erase_all k j xs, eq_iff k j, eq_iff (key x) j, eq_iff (key x) k)

  -- The first with the key is the only one.
  pub find-erase_first :
      (k j : K) (xs : List A)
      → Distinct key eq xs
      → find (at_key key eq j) (erase_first (at_key key eq k) xs)
        ≡ (if eq k j then none else find (at_key key eq j) xs)
  unfolding find erase_first
  find-erase_first k j [] v = ground arith
  find-erase_first k j (x ∷ xs) v = elim (Bool-cases (eq (key x) k)) [
    | inr e ↦
        ground (arith, find-erase_first k j xs, eq_iff k j, eq_iff (key x) j, eq_iff (key x) k)
    | inl e ↦
        let gone : (c : K) → eq k c ≡ true → find (at_key key eq c) xs ≡ none = λ c e'.
          find-none (at_key key eq c) xs (
            subst (λ c. any (at_key key eq c) xs ≡ false)
              ((eq_iff (key x) k).0 e ∙ (eq_iff k c).0 e') v.0) in
        ground (arith, gone j, eq_iff k j, eq_iff (key x) j, eq_iff (key x) k)
  ]

  -- An object that is put behind the others where none has its key.
  module _ (k : K) (x : A) (its : key x ≡ k) where
    abbrev at : K → A → Bool
    at = at_key key eq

    find-push_key :
        (j : K) (xs : List A)
        → find (at j) (xs ++ x ∷ [])
          ≡ elim (find (at j) xs) [ none ↦ if eq k j then some x else none | some a ↦ some a ]
    unfolding find
    find-push_key j [] = rw its refl
    find-push_key j (y ∷ xs) = ground (arith, find-push_key j xs)

    or-none : (o : Option A) → elim o [ none ↦ none | some a ↦ some a ] ≡ o
    or-none none = refl
    or-none (some a) = refl

    pub find-add :
        (j : K) (xs : List A)
        → find (at j) (if any (at k) xs then xs else xs ++ x ∷ []) ≡ (
            if eq k j
            then elim (find (at j) xs) [ none ↦ some x | some a ↦ some a ]
            else find (at j) xs)
    find-add j xs = elim (Bool-cases (any (at k) xs)) [
      | inl e ↦ elim (Bool-cases (eq k j)) [
        | inl e' ↦
            let (a, f) = find-any (at k) xs e in
            let g = subst (λ c. find (at c) xs ≡ some a) ((eq_iff k j).0 e') f in rw (e, e', g) refl
        | inr e' ↦ rw (e, e') refl
      ]
      | inr e ↦ elim (Bool-cases (eq k j)) [
        | inl e' ↦
            let g =
              subst (λ c. find (at c) xs ≡ none) ((eq_iff k j).0 e') (find-none (at k) xs e) in
            rw (e, find-push_key j xs, e', g) (ap (λ b. if b then some x else none) e')
        | inr e' ↦
            rw (e, find-push_key j xs, e')
              (ap
                  (λ b. elim (find (at j) xs) [
                    | none ↦ if b then some x else none
                    | some a ↦ some a
                  ])
                  e'
                ∙ or-none (find (at j) xs))
      ]
    ]
