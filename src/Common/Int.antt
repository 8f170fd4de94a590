-- ===== src/Common/Int.antt =====
-- `int` values: the integers, their order and their decimal text (`%d`).
use Prim.Native.Nat.{ℕ, zero, suc, ◌+◌, ◌-◌, ◌*◌, ◌/◌, ◌%◌}
use mathlib.Core.Path.{◌≡◌, refl}
use mathlib.Core.Logic.{◌↔◌}
use mathlib.Core.Bool.{Bool, true, false}
use mathlib.Core.List.{[], ◌∷◌, ◌++◌}
use native.Mathlib.Omega.{arith}
use tacppd.Common.Tests.{◌==◌, ltb, leb, if◌then◌else◌}
use tacppd.Common.Texts.{Text}

-- `negsuc n` is -(n + 1).
pub data ℤ : Type 0 where
  pos : ℕ → ℤ
  negsuc : ℕ → ℤ

abbrev pub int_eq : ℤ → ℤ → Bool
int_eq (pos m) (pos n) = m == n
int_eq (pos m) (negsuc n) = false
int_eq (negsuc m) (pos n) = false
int_eq (negsuc m) (negsuc n) = m == n

abbrev pub int_lt : ℤ → ℤ → Bool
int_lt (pos m) (pos n) = ltb m n
int_lt (pos m) (negsuc n) = false
int_lt (negsuc m) (pos n) = true
int_lt (negsuc m) (negsuc n) = ltb n m

pub int_eq_iff : (a b : ℤ) → (int_eq a b ≡ true) ↔ (a ≡ b)
int_eq_iff (pos m) (pos n) = ground arith
int_eq_iff (pos m) (negsuc n) = ground arith
int_eq_iff (negsuc m) (pos n) = ground arith
int_eq_iff (negsuc m) (negsuc n) = ground arith

pub int_eq_refl : (a : ℤ) → int_eq a a ≡ true
int_eq_refl a = (int_eq_iff a a).1 refl

-- The decimal digits of a number, the fuel being at least the count of digits less one.
unfoldable pub digits : ℕ → ℕ → Text
digits zero n = (b'0' + n % 10) ∷ []
digits (suc fuel) n =
    let front = digits fuel (n / 10) in
    if ltb n 10 then (b'0' + n) ∷ [] else front ++ (b'0' + n % 10) ∷ []

unfoldable pub show_nat : ℕ → Text
unfolding digits
show_nat n = digits 20 n

unfoldable pub show_int : ℤ → Text
unfolding show_nat
show_int (pos n) = show_nat n
show_int (negsuc n) = b'-' ∷ show_nat (suc n)

-- Leading digits, as `atoi` reads them.
unfoldable pub is_digit : ℕ → Bool
is_digit c = if leb b'0' c then leb c b'9' else false

unfoldable pub read_digits : ℕ → Text → ℕ
unfolding is_digit
read_digits acc [] = acc
read_digits acc (c ∷ s) = if is_digit c then read_digits (acc * 10 + (c - b'0')) s else acc

-- What `isspace` takes in the C locale.
unfoldable pub is_space : ℕ → Bool
is_space c = if c == b' ' then true else if leb 9 c then leb c 13 else false

unfoldable pub signed : Bool → ℕ → ℤ
signed false n = pos n
signed true zero = pos zero
signed true (suc n) = negsuc n

unfoldable pub read_sign : Text → ℤ
unfolding read_digits signed
read_sign [] = pos 0
read_sign (c ∷ s) =
    if c == b'-'
    then signed true (read_digits 0 s)
    else if c == b'+'
    then pos (read_digits 0 s)
    else pos (read_digits 0 (c ∷ s))

-- `atoi`: white space, a sign, digits.
unfoldable pub atoi : Text → ℤ
unfolding is_space read_sign
atoi [] = pos 0
atoi (c ∷ s) = if is_space c then atoi s else read_sign (c ∷ s)
