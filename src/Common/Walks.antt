-- ===== src/Common/Walks.antt =====
-- The ways in which the program walks a `list` of objects: up to the first that passes a test, or
-- over all of them.
use mathlib.Core.Bool.{Bool, true, false}
use mathlib.Core.List.{List, [], ◌∷◌}
use mathlib.Core.Option.{Option, none, some}
use tacppd.Common.Tests.{if◌then◌else◌}

module _ {ℓ} {A : Type ℓ} where
  -- `for(...) if(test(x)) return x;`
  unfoldable pub find : (A → Bool) → List A → Option A
  find p [] = none
  find p (x ∷ xs) = if p x then some x else find p xs

  unfoldable pub any : (A → Bool) → List A → Bool
  any p [] = false
  any p (x ∷ xs) = if p x then true else any p xs

  -- `for(...) if(test(x)) { change(x); break; }`
  unfoldable pub update_first : (A → Bool) → (A → A) → List A → List A
  update_first p f [] = []
  update_first p f (x ∷ xs) = if p x then f x ∷ xs else x ∷ update_first p f xs

  -- `for(...) if(test(x)) { erase(x); break; }`
  unfoldable pub erase_first : (A → Bool) → List A → List A
  erase_first p [] = []
  erase_first p (x ∷ xs) = if p x then xs else x ∷ erase_first p xs

  -- `for(...) if(test(x)) i = erase(i); else i++;`
  unfoldable pub erase_all : (A → Bool) → List A → List A
  erase_all p [] = []
  erase_all p (x ∷ xs) = if p x then erase_all p xs else x ∷ erase_all p xs
