-- ===== src/Base64/RoundTrip.antt =====
-- A text in base 64 is read back.
use tacppd.Common.{
  ◌≡◌, refl, ap, ℕ, ◌+◌, ◌*◌, ◌/◌, ◌%◌, ◌<◌, ◌≤◌, false, some, List, [], ◌∷◌, Text, length,
  take_all, ◌==◌, All, arith,
}
use tacppd.Tacacs.Crypt.Bytes.{IsByte}
use tacppd.Tacacs.Wire.Texts.{IsText, IsText-bytes, until_nul_lem}
use tacppd.Base64.{tbl, groups, base64_encode, dtable, kept, ungroup, base64_decode}

dtable-tbl : (n : ℕ) → n < 64 → dtable (tbl n) ≡ some n
unfolding dtable tbl
dtable-tbl n h = ground arith

tbl-ne : (n : ℕ) → n < 64 → (tbl n == b'=') ≡ false
unfolding tbl
tbl-ne n h = ground arith

kept-cons : (n : ℕ) (s : Text) → n < 64 → kept (tbl n ∷ s) ≡ (tbl n, n) ∷ kept s
unfolding kept
kept-cons n s h = rw (kept, dtable-tbl n h) refl

kept-fill : (s : Text) → kept (b'=' ∷ s) ≡ (b'=', 0) ∷ kept s
unfolding kept dtable
kept-fill s = refl

first_byte : (a y : ℕ) → a < 256 → y / 16 ≡ a % 4 → (a / 4 * 4 + y / 16) % 256 ≡ a
first_byte a y h e = omega arith

ungroup_whole :
    (a b c : ℕ) (s : Text) (rest : List (ℕ × ℕ))
    → a < 256
    → b < 256
    → c < 256
    → ungroup (
        (tbl (a / 4), a / 4)
        ∷ (tbl (a % 4 * 16 + b / 16), a % 4 * 16 + b / 16)
        ∷ (tbl (b % 16 * 4 + c / 64), b % 16 * 4 + c / 64)
        ∷ (tbl (c % 64), c % 64)
        ∷ rest)
      ≡ a ∷ b ∷ c ∷ ungroup rest
unfolding ungroup
ungroup_whole a b c s rest ha hb hc =
    let one : (a / 4 * 4 + (a % 4 * 16 + b / 16) / 16) % 256 ≡ a = omega arith in
    let two : (a % 4 * 16 + b / 16) % 16 * 16 + (b % 16 * 4 + c / 64) / 4 ≡ b = omega arith in
    let three : (b % 16 * 4 + c / 64) % 4 * 64 + c % 64 ≡ c = omega arith in
    rw (tbl-ne (b % 16 * 4 + c / 64) (omega arith), tbl-ne (c % 64) (omega arith), one, two, three)
      refl

ungroup-groups : (s : Text) → All IsByte s → ungroup (kept (groups s)) ≡ s
unfolding groups ungroup
ungroup-groups [] h = unfold kept ungroup in refl
ungroup-groups (a ∷ []) h =
    let one : (a / 4 * 4 + (a % 4 * 16) / 16) % 256 ≡ a = omega arith in
    rw
      (
        kept-cons (a / 4) (tbl (a % 4 * 16) ∷ b'=' ∷ b'=' ∷ []) (omega arith),
        kept-cons (a % 4 * 16) (b'=' ∷ b'=' ∷ []) (omega arith),
        kept-fill (b'=' ∷ []),
        kept-fill [],
      )
      (unfold kept ungroup in ap (λ x. x ∷ []) one)
ungroup-groups (a ∷ b ∷ []) h =
    let one : (a / 4 * 4 + (a % 4 * 16 + b / 16) / 16) % 256 ≡ a = omega arith in
    let two : (a % 4 * 16 + b / 16) % 16 * 16 + (b % 16 * 4) / 4 ≡ b = omega arith in
    rw
      (
        kept-cons (a / 4) (tbl (a % 4 * 16 + b / 16) ∷ tbl (b % 16 * 4) ∷ b'=' ∷ []) (omega arith),
        kept-cons (a % 4 * 16 + b / 16) (tbl (b % 16 * 4) ∷ b'=' ∷ []) (omega arith),
        kept-cons (b % 16 * 4) (b'=' ∷ []) (omega arith),
        kept-fill [],
        ungroup,
        tbl-ne (b % 16 * 4) (omega arith),
        one,
        two,
      )
      refl
ungroup-groups (a ∷ b ∷ c ∷ s) h =
    rw
      (
        kept-cons (a / 4)
            (tbl (a % 4 * 16 + b / 16) ∷ tbl (b % 16 * 4 + c / 64) ∷ tbl (c % 64) ∷ groups s)
            (omega arith),
        kept-cons (a % 4 * 16 + b / 16) (tbl (b % 16 * 4 + c / 64) ∷ tbl (c % 64) ∷ groups s)
            (omega arith),
        kept-cons (b % 16 * 4 + c / 64) (tbl (c % 64) ∷ groups s) (omega arith),
        kept-cons (c % 64) (groups s) (omega arith),
        ungroup_whole a b c s (kept (groups s)) h.0 h.1.0 h.1.1.0,
        ungroup-groups s h.1.1.1,
      )
      refl

-- A whole group is four bytes for three.
length-groups : (s : Text) → length (groups s) * 3 ≤ length s * 4 + 8
unfolding groups
length-groups [] = omega arith
length-groups (a ∷ []) = omega arith
length-groups (a ∷ b ∷ []) = omega arith
length-groups (a ∷ b ∷ c ∷ s) = omega (arith, length-groups s)

-- A text of at most 44 bytes, written in base 64, is read back.
pub base64_decode-base64_encode :
    (s : Text) → IsText s → length s ≤ 44 → base64_decode (base64_encode s) ≡ s
unfolding base64_encode base64_decode
base64_decode-base64_encode s h short =
    let small = length-groups s in
    rw
      (
        take_all 62 s (omega arith),
        take_all 63 (groups s) (omega (arith, small)),
        take_all 62 (groups s) (omega (arith, small)),
        ungroup-groups s (IsText-bytes s h),
        until_nul_lem s h,
      )
      refl
