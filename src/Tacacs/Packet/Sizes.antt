-- ===== src/Tacacs/Packet/Sizes.antt =====
-- What the signed arithmetic of `read_packet` makes of each length.
use tacppd.Common.{
  ◌≡◌, refl, ◌∙◌, if◌then◌else◌, ℕ, ◌+◌, ◌-◌, ◌≤◌, ◌<◌, ◌^◌, ltb, Bool-cases, inl, inr, arith,
}
use tacppd.Common.Int.{ℤ, pos, negsuc, int_lt}
use tacppd.Tacacs.Packet.{fits, too_long, huge, minus, size_of, to_int, plus_int}

to_int-low : (n : ℕ) → n < 2 ^ 31 → to_int n ≡ pos n
unfolding to_int
to_int-low n h = ground arith

to_int-high : (n : ℕ) → 2 ^ 31 ≤ n → to_int n ≡ negsuc (2 ^ 32 - 1 - n)
unfolding to_int
to_int-high n h = ground arith

plus_int-up : (k n : ℕ) → n < k → plus_int k (negsuc n) ≡ pos (k - 1 - n)
unfolding plus_int
plus_int-up k n h = ground arith

plus_int-down : (k n : ℕ) → k ≤ n → plus_int k (negsuc n) ≡ negsuc (n - k)
unfolding plus_int
plus_int-down k n h = ground arith

plus_int-pos : (k n : ℕ) → plus_int k (pos n) ≡ to_int (k + n)
unfolding plus_int
plus_int-pos k n = refl

-- From the three numbers of `read_packet`.
size_of_at :
    (n : ℕ) (a b c : ℤ)
    → to_int n ≡ a
    → plus_int 12 a ≡ b
    → plus_int 3 b ≡ c
    → size_of n ≡ (
        if int_lt (pos 10000) b
        then too_long
        else if int_lt c (pos 0)
        then huge
        else if int_lt a (pos 0)
        then minus
        else fits)
unfolding size_of
size_of_at n a b c p q r = rw (p, q, r) refl

pub size_of-short : (n : ℕ) → n ≤ 9988 → size_of n ≡ fits
size_of-short n h =
    size_of_at n (pos n) (pos (12 + n)) (pos (3 + (12 + n))) (to_int-low n (omega arith))
      (plus_int-pos 12 n ∙ to_int-low (12 + n) (omega arith))
      (plus_int-pos 3 (12 + n) ∙ to_int-low (3 + (12 + n)) (omega arith))
    ∙ ground arith

pub size_of-long : (n : ℕ) → 9988 < n → n + 12 < 2 ^ 31 → size_of n ≡ too_long
size_of-long n h k =
    size_of_at n (pos n) (pos (12 + n)) _ (to_int-low n (omega arith))
      (plus_int-pos 12 n ∙ to_int-low (12 + n) (omega arith)) refl
    ∙ ground arith

pub size_of-below : (n : ℕ) → 2 ^ 31 ≤ n + 12 → n + 15 < 2 ^ 32 → size_of n ≡ huge
size_of-below n h k = elim (Bool-cases (ltb n (2 ^ 31))) [
  | inl small ↦
      let m = 2 ^ 32 - 1 - (12 + n) in
      size_of_at n (pos n) (negsuc m) (negsuc (m - 3)) (to_int-low n (ground arith))
        (plus_int-pos 12 n ∙ to_int-high (12 + n) (omega arith)) (plus_int-down 3 m (omega arith))
      ∙ ground arith
  | inr large ↦
      let m = 2 ^ 32 - 1 - n in
      size_of_at n (negsuc m) (negsuc (m - 12)) (negsuc (m - 12 - 3)) (to_int-high n (ground arith))
        (plus_int-down 12 m (omega arith)) (plus_int-down 3 (m - 12) (omega arith))
      ∙ ground arith
]

pub size_of-minus : (n : ℕ) → 2 ^ 32 ≤ n + 15 → size_of n ≡ minus
size_of-minus n h =
    let m = 2 ^ 32 - 1 - n in
    elim (Bool-cases (ltb m 12)) [
      | inl near ↦
          size_of_at n (negsuc m) (pos (12 - 1 - m)) (pos (3 + (12 - 1 - m)))
            (to_int-high n (omega arith)) (plus_int-up 12 m (ground arith))
            (plus_int-pos 3 _ ∙ to_int-low _ (omega arith))
          ∙ ground arith
      | inr far ↦
          size_of_at n (negsuc m) (negsuc (m - 12)) (pos (3 - 1 - (m - 12)))
            (to_int-high n (omega arith)) (plus_int-down 12 m (ground arith))
            (plus_int-up 3 (m - 12) (omega arith))
          ∙ ground arith
    ]
