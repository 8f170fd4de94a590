-- ===== src/Base64.antt =====
-- Texts in base 64, which the web interface takes passwords in: `utl::base64Encode` and
-- `utl::base64Decode` of src/Utils.cc. The bits that the source shifts and joins are written with
-- products, quotients and remainders.
pub mod RoundTrip
mod Examples
use tacppd.Common.{
  ℕ, ◌+◌, ◌-◌, ◌*◌, ◌/◌, ◌%◌, Bool, ◌&&◌, Option, none, some, List, [], ◌∷◌, ◌++◌, Text, take,
  if◌then◌else◌, ◌==◌, ltb, leb,
}
use tacppd.Tacacs.Wire.{until_nul}

-- `tbl`, from the numbers below 64.
unfoldable pub tbl : ℕ → ℕ
tbl n =
    if ltb n 26
    then b'A' + n
    else if ltb n 52
    then b'a' + (n - 26)
    else if ltb n 62
    then b'0' + (n - 52)
    else if n == 62
    then b'+'
    else b'/'

-- The groups of three bytes, as four each; the last one filled with =.
unfoldable pub groups : Text → Text
unfolding tbl
groups [] = []
groups (a ∷ []) = tbl (a / 4) ∷ tbl (a % 4 * 16) ∷ b'=' ∷ b'=' ∷ []
groups (a ∷ b ∷ []) = tbl (a / 4) ∷ tbl (a % 4 * 16 + b / 16) ∷ tbl (b % 16 * 4) ∷ b'=' ∷ []
groups (a ∷ b ∷ c ∷ s) =
    tbl (a / 4) ∷ tbl (a % 4 * 16 + b / 16) ∷ tbl (b % 16 * 4 + c / 64) ∷ tbl (c % 64) ∷ groups s

-- 62 bytes are read, and 63 written, at most.
unfoldable pub base64_encode : Text → Text
unfolding groups
base64_encode s = take 63 (groups (take 62 s))

-- `dtable`: none for a byte that is dropped. (At one of 128 and more the source reads outside the
-- table, which C++ leaves undefined.)
unfoldable pub dtable : ℕ → Option ℕ
dtable c =
    if leb b'A' c && leb c b'Z'
    then some (c - b'A')
    else if leb b'a' c && leb c b'z'
    then some (26 + (c - b'a'))
    else if leb b'0' c && leb c b'9'
    then some (52 + (c - b'0'))
    else if c == b'+'
    then some 62
    else if c == b'/'
    then some 63
    else if c == b'='
    then some 0
    else none

-- The bytes that are not dropped, with their values.
unfoldable pub kept : Text → List (ℕ × ℕ)
unfolding dtable
kept [] = []
kept (c ∷ s) = let rest = kept s in elim (dtable c) [ none ↦ rest | some n ↦ (c, n) ∷ rest ]

-- Four bytes at a time; a group that is not whole ends the text, and so does one with =.
unfoldable pub ungroup : List (ℕ × ℕ) → Text
ungroup ((a, x) ∷ (b, y) ∷ (c, z) ∷ (d, w) ∷ rest) =
    let more = ungroup rest in
    let o₀ = (x * 4 + y / 16) % 256 in
    let o₁ = y % 16 * 16 + z / 4 in
    let o₂ = z % 4 * 64 + w in
    if c == b'=' then o₀ ∷ [] else if d == b'=' then o₀ ∷ o₁ ∷ [] else o₀ ∷ o₁ ∷ o₂ ∷ more
ungroup _ = []

-- 62 bytes are read at most, so that no more than 46 are written; the result ends at a 0.
unfoldable pub base64_decode : Text → Text
unfolding kept ungroup until_nul
base64_decode s = until_nul (ungroup (kept (take 62 s)))
