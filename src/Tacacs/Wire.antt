-- ===== src/Tacacs/Wire.antt =====
-- Numbers and texts in the body of a packet. A body is the list of the bytes that stand in memory
-- from its start on; behind that list memory counts as zeros.
pub mod Texts
pub mod Places
use tacppd.Common.{
  ℕ, zero, suc, ◌+◌, ◌*◌, ◌/◌, ◌%◌, List, [], ◌∷◌, ◌++◌, none, some, Text, length, if◌then◌else◌,
  ◌==◌, take, drop, get_elem?,
}

unfoldable pub byte_at : List ℕ → ℕ → ℕ
byte_at body i = elim (get_elem? body i) [ none ↦ 0 | some b ↦ b ]

-- `ntohs`.
abbrev pub short_at : List ℕ → ℕ → ℕ
short_at body i = byte_at body i * 256 + byte_at body (i + 1)

unfoldable pub until_nul : List ℕ → Text
until_nul [] = []
until_nul (c ∷ s) = let rest = until_nul s in if c == 0 then [] else c ∷ rest

-- `strncpy` of `n` bytes from there, as a C string.
unfoldable pub text_at : List ℕ → ℕ → ℕ → Text
unfolding until_nul
text_at body i n = until_nul (take n (drop i body))

unfoldable pub pad : ℕ → List ℕ → List ℕ
pad zero body = []
pad (suc n) [] = 0 ∷ pad n []
pad (suc n) (b ∷ body) = b ∷ pad n body

-- `n` bytes from there.
unfoldable pub bytes_at : List ℕ → ℕ → ℕ → List ℕ
unfolding pad
bytes_at body i n = pad n (drop i body)

-- Texts one behind the other, and their lengths as bytes.
unfoldable pub concat : List Text → List ℕ
concat [] = []
concat (s ∷ ss) = s ++ concat ss

unfoldable pub lengths : List Text → List ℕ
lengths [] = []
lengths (s ∷ ss) = (length s % 256) ∷ lengths ss

-- Texts of these lengths, one behind the other.
unfoldable pub split_texts : List ℕ → List ℕ → List Text
unfolding until_nul
split_texts [] body = []
split_texts (n ∷ ns) body = until_nul (take n body) ∷ split_texts ns (drop n body)

unfoldable pub sum : List ℕ → ℕ
sum [] = 0
sum (n ∷ ns) = n + sum ns
