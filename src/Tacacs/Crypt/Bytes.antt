-- ===== src/Tacacs/Crypt/Bytes.antt =====
-- Bytes, and what a mask does to them.
use Prim.Native.Nat.{bit_xor}
use tacppd.Common.{
  ◌≡◌, refl, ℕ, zero, suc, ◌<◌, Bool, true, false, ◌&&◌, ◌==◌, ltb, ==_iff, arith, if◌then◌else◌,
}

abbrev pub IsByte : ℕ → Type 0
IsByte b = b < 256

-- The test holds of every number under the bound.
holds_under : (ℕ → Bool) → ℕ → Bool
holds_under test zero = true
holds_under test (suc bound) = if test bound then holds_under test bound else false

holds_under-at :
    (test : ℕ → Bool) (bound i : ℕ) → i < bound → holds_under test bound ≡ true → test i ≡ true
unfolding holds_under
holds_under-at test zero i lt h = absurd (omega arith)
holds_under-at test (suc bound) i lt h = ground (arith, holds_under-at test bound i)

-- Twice the same mask changes nothing, and a mask keeps a byte a byte.
abbrev masks : ℕ → ℕ → Bool
masks x y = (bit_xor (bit_xor x y) y == x) && ltb (bit_xor x y) 256

-- All pairs of bytes, by evaluation.
masks_table : holds_under (λ x. holds_under (masks x) 256) 256 ≡ true
unfolding holds_under
masks_table = refl

masks_bytes : (x y : ℕ) → IsByte x → IsByte y → masks x y ≡ true
masks_bytes x y hx hy =
    holds_under-at (masks x) 256 y hy
      (holds_under-at (λ a. holds_under (masks a) 256) 256 x hx masks_table)

pub xor-IsByte :
    (x y : ℕ) → IsByte x → IsByte y → (bit_xor (bit_xor x y) y ≡ x) × IsByte (bit_xor x y)
xor-IsByte x y hx hy =
    ((==_iff _ x).0 (ground (arith, masks_bytes x y hx hy)), ground (arith, masks_bytes x y hx hy))
