-- ===== src/Common/Prefix.antt =====
-- `utl::scomp(s1,s2,num)`: both texts have `num` bytes, and the first `num` agree.
use Prim.Native.Nat.{ℕ}
use mathlib.Core.Path.{◌≡◌, refl}
use mathlib.Core.List.{[], ◌∷◌, ◌++◌}
use mathlib.Core.Option.{Option, none, some}
use native.Mathlib.Omega.{arith}
use mathlib.Core.Bool.{Bool, true, false, ◌&&◌}
use tacppd.Common.Tests.{◌==◌, ltb, if◌then◌else◌}
use tacppd.Common.Lists.{length, take, take_all, take-length_append, length-append}
use tacppd.Common.Texts.{Text, str_eq, str_eq_refl}

unfoldable pub scomp_n : Text → Text → ℕ → Bool
scomp_n s1 s2 num =
    if ltb (length s1) num
    then false
    else if ltb (length s2) num
    then false
    else str_eq (take num s1) (take num s2)

pub scomp_n-append : (p rest : Text) → scomp_n (p ++ rest) p (length p) ≡ true
unfolding scomp_n
scomp_n-append p rest =
    rw (take-length_append p rest, take_all (length p) p (omega arith))
      (ground (arith, length-append p rest, str_eq_refl p))

-- The text begins with the bytes `p`.
unfoldable pub begins : Text → Text → Bool
begins [] s = true
begins (c ∷ p) [] = false
begins (c ∷ p) (d ∷ s) = (d == c) && begins p s

pub scomp_n-begins : (s p : Text) → scomp_n s p (length p) ≡ begins p s
unfolding scomp_n begins str_eq
scomp_n-begins [] [] = refl
scomp_n-begins (d ∷ s) [] = ground arith
scomp_n-begins [] (c ∷ p) = ground arith
scomp_n-begins (d ∷ s) (c ∷ p) = ground (arith, scomp_n-begins s p)

-- What stands before the first byte `c`, and behind it.
unfoldable pub before : ℕ → Text → Text
before c [] = []
before c (d ∷ s) = let rest = before c s in if d == c then [] else d ∷ rest

unfoldable pub after : ℕ → Text → Option Text
after c [] = none
after c (d ∷ s) = let rest = after c s in if d == c then some s else rest
