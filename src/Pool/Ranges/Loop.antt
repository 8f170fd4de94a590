-- ===== src/Pool/Ranges/Loop.antt =====
-- What the loop over the addresses of a range finds.
use tacppd.Common.{
  ◌≡◌, refl, ap, ◌∙◌, ℕ, zero, suc, ◌+◌, ◌-◌, ◌<◌, Bool, Text, if◌then◌else◌, ◌==◌, leb, arith,
  Bool-cases, true, false, inl, inr,
}
use tacppd.Pool.Ranges.{found, onward, host, checked, range_loop}

module _ (octet : Text → ℕ → ℕ) (is_ip : Text → Bool) (s1 rest : Text) (right n : ℕ) where
  -- The address that is as many turns away as are missing, if there are so many.
  pub range_loop_lem :
      (fuel p k : ℕ)
      → fuel ≡ right + 1 - p
      → k < n
      → range_loop octet is_ip fuel s1 rest p right k n ≡ (
          if leb n (k + fuel)
          then found (checked octet is_ip (host octet is_ip s1 (p + (n - k - 1))))
          else onward rest (k + fuel))
  unfolding range_loop
  range_loop_lem zero p k w h =
      let short : leb n (k + 0) ≡ false = ground (arith, h) in
      let none_left : k ≡ k + 0 = omega arith in rw short (ap (onward rest) none_left)
  range_loop_lem (suc fuel) p k w h =
      let in_range : leb p right ≡ true = ground (arith, w) in
      elim (Bool-cases (k + 1 == n)) [
        | inl e ↦
            let here : leb n (k + suc fuel) ≡ true = ground (arith, e) in
            let same : p ≡ p + (n - k - 1) = ground (arith, e) in
            rw (range_loop, in_range, e, here)
              (ap (λ q. found (checked octet is_ip (host octet is_ip s1 q))) same)
        | inr e ↦
            let next : p + 1 + (n - (k + 1) - 1) ≡ p + (n - k - 1) = ground (arith, e, h) in
            let turns : k + 1 + fuel ≡ k + suc fuel = omega arith in
            rw (range_loop, in_range, e)
              (range_loop_lem fuel (p + 1) (k + 1) (omega (arith, w)) (ground (arith, e, h))
                ∙ rw (next, turns) refl)
      ]
