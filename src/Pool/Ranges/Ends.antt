-- ===== src/Pool/Ranges/Ends.antt =====
-- The loop of `getAddr` ends, and what it finds.
use tacppd.Common.{
  ◌≡◌, ◌≢◌, refl, ℕ, zero, suc, ◌+◌, ◌-◌, ◌<◌, ◌≤◌, Bool, none, [], ◌∷◌, Text, length, arith, inl,
  inr, ◌⊎◌,
}
use tacppd.Pool.Ranges.Loop.{range_loop_lem}
use tacppd.Pool.Ranges.{
  width, part, Turn, found, onward, range_turn, turn_at, turn, addr_loop, get_addr,
}

length-part : (s : Text) → length (part s).1 ≤ length s
unfolding part
length-part [] = omega arith
length-part (c ∷ s) = ground (arith, length-part s)

Turn-cases : (t : Turn) → ((a : Text) × (t ≡ found a)) ⊎ ((r : Text) × (k : ℕ) × (t ≡ onward r k))
Turn-cases (found a) = inl (a, refl)
Turn-cases (onward r k) = inr (r, k, refl)

module _ (octet : Text → ℕ → ℕ) (is_ip : Text → Bool) where
  -- A turn that goes on leaves less to do.
  abbrev IsOnward : Text → ℕ → ℕ → Turn → Type 0
  IsOnward str k n t =
      (rest : Text) (k' : ℕ)
      → t ≡ onward rest k'
      → (k' < n) × (length rest + (n - k') < length str + (n - k))

  range_turn-IsOnward :
      (str s1 s2 rest : Text) (k n : ℕ)
      → k < n
      → length rest < length str
      → IsOnward str k n (range_turn octet is_ip s1 s2 rest k n)
  unfolding range_turn
  range_turn-IsOnward str s1 s2 rest k n h l r k' e = ground (
    arith,
    e,
    range_loop_lem octet is_ip s1 rest (octet s2 3) n (width octet is_ip s1 s2) (octet s1 3) k refl
        h,
  )

  turn_at-IsOnward :
      (str s1 rest : Text) (k n : ℕ)
      → k < n
      → length rest ≤ length str
      → IsOnward str k n (turn_at octet is_ip s1 rest k n)
  unfolding turn_at
  turn_at-IsOnward str s1 [] k n h l r k' e = ground (arith, e)
  turn_at-IsOnward str s1 (d ∷ behind) k n h l r k' e = ground (
    arith,
    e,
    range_turn-IsOnward str s1 (part behind).0 (part behind).1 k n h
        (omega (arith, length-part behind)) r k',
  )

  turn-IsOnward : (str : Text) (k n : ℕ) → k < n → IsOnward str k n (turn octet is_ip str k n)
  unfolding turn
  turn-IsOnward [] k n h r k' e = cc
  turn-IsOnward (c ∷ str) k n h r k' e =
      turn_at-IsOnward (c ∷ str) (part (c ∷ str)).0 (part (c ∷ str)).1 k n h (length-part (c ∷ str))
        r k' e

  addr_loop_ends :
      (fuel : ℕ) (str : Text) (k n : ℕ)
      → k < n
      → length str + (n - k) < fuel
      → addr_loop octet is_ip fuel str k n ≢ none
  unfolding addr_loop
  addr_loop_ends zero str k n h f = absurd (omega arith)
  addr_loop_ends (suc fuel) str k n h f = elim (Turn-cases (turn octet is_ip str k n)) [
    | inl (a, e) ↦ rw (addr_loop, e) (λ p. cc)
    | inr (r, k', e) ↦
        let (lo, less) = turn-IsOnward str k n h r k' e in
        rw (addr_loop, e) (addr_loop_ends fuel r k' n lo (omega (arith, less)))
  ]

  -- The search for an address ends, on every text and for every number of an address.
  pub get_addr-ne-none : (str : Text) (n : ℕ) → get_addr octet is_ip str n ≢ none
  unfolding get_addr
  get_addr-ne-none str n =
      addr_loop_ends (length str + n + 2) str 0 (n + 1) (omega arith) (omega arith)
