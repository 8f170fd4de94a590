-- ===== src/Cron/Items.antt =====
-- Entries that are lists of numbers and ranges, and what `cron_parse` makes of them.
use tacppd.Common.{
  ◌≡◌, refl, sym, ap, ◌∙◌, ℕ, zero, suc, ◌≤◌, ◌<◌, Bool, true, false, ◌&&◌, ◌||◌, not, some, List,
  [], ◌∷◌, ◌++◌, Text, length, length-append, take_all, if◌then◌else◌, ◌==◌, leb, any, All, arith,
}
use mathlib.Core.List.{append_assoc, append-nil}
use tacppd.Cron.{
  is_digit, digits, skip, get_digit, decimal, starts, step_over, found, onward, turn, cron_loop,
  cron_parse,
}
use tacppd.Cron.Ends.{cron_loop_nil, cron_loop_found, cron_loop_onward}

-- A number, or the numbers from the first to the second, by their digits.
pub data Item : Type 0 where
  one : Text → Item
  range : Text → Text → Item

unfoldable pub print_item : Item → Text
print_item (one a) = a
print_item (range a b) = a ++ (b'-' ∷ b)

-- One item at least, with commas.
unfoldable pub print : Item → List Item → Text
unfolding print_item
print x [] = print_item x
print x (y ∷ ys) = print_item x ++ (b',' ∷ print y ys)

abbrev pub number : Text → ℕ
number a = decimal 0 a

-- The time is the number, or the first of the range, or lies in it.
abbrev pub hits : ℕ → Item → Bool
hits curtime (one a) = curtime == number a
hits curtime (range a b) =
    (curtime == number a) || (leb (number a) curtime && leb curtime (number b))

-- One digit to nine, so that `atoi` is defined.
abbrev pub IsNumber : Text → Type 0
IsNumber a = All (λ c. is_digit c ≡ true) a × (0 < length a) × (length a ≤ 9)

abbrev pub IsItem : Item → Type 0
IsItem (one a) = IsNumber a
IsItem (range a b) = IsNumber a × IsNumber b

-- No digit at the head.
abbrev no_digit : Text → Bool
no_digit [] = true
no_digit (c ∷ s) = not (is_digit c)

digits-append :
    (a rest : Text) → All (λ c. is_digit c ≡ true) a → no_digit rest ≡ true → digits (a ++ rest) ≡ a
unfolding digits
digits-append [] [] h k = refl
digits-append [] (c ∷ rest) h k = ground (arith, k)
digits-append (c ∷ a) rest h k = rw (h.0) (ap (◌∷◌ c) (digits-append a rest h.1 k))

skip-append :
    (a rest : Text)
    → All (λ c. is_digit c ≡ true) a
    → no_digit rest ≡ true
    → skip (a ++ rest) ≡ rest
unfolding skip
skip-append [] [] h k = refl
skip-append [] (c ∷ rest) h k = ground (arith, k)
skip-append (c ∷ a) rest h k = rw (h.0) (skip-append a rest h.1 k)

get_digit-append :
    (a rest : Text) → IsNumber a → no_digit rest ≡ true → get_digit (a ++ rest) ≡ number a
unfolding get_digit
get_digit-append a rest h k = rw (digits-append a rest h.0 k, take_all 20 a (omega arith)) refl

-- A turn over one item.
turn-item :
    (curtime : ℕ) (x : Item) (rest : Text)
    → IsItem x
    → no_digit rest ≡ true
    → starts b'-' rest ≡ false
    → turn curtime (print_item x ++ rest)
      ≡ (if hits curtime x then found else onward (step_over b',' rest))
unfolding turn print_item
turn-item curtime (one a) rest h k l =
    rw (get_digit-append a rest h k, skip-append a rest h.0 k, l) refl
turn-item curtime (range a b) rest h k l =
    rw
      (
        append_assoc a (b'-' ∷ b) rest,
        get_digit-append a (b'-' ∷ (b ++ rest)) h.0 refl,
        skip-append a (b'-' ∷ (b ++ rest)) h.0.0 refl,
        get_digit-append b rest h.1 k,
        skip-append b rest h.1.0 k,
      )
      (ground arith)

-- The loop over a text of one byte at least.
cron_loop-turn :
    (fuel curtime : ℕ) (s rest : Text) (b : Bool)
    → 0 < length s
    → turn curtime s ≡ (if b then found else onward rest)
    → cron_loop (suc fuel) curtime s ≡ (if b then some true else cron_loop fuel curtime rest)
cron_loop-turn fuel curtime [] rest b h e = absurd (omega arith)
cron_loop-turn fuel curtime (c ∷ s) rest true h e = cron_loop_found fuel curtime c s e
cron_loop-turn fuel curtime (c ∷ s) rest false h e = cron_loop_onward fuel curtime c s rest e

length-print_item : (x : Item) → IsItem x → 0 < length (print_item x)
unfolding print_item
length-print_item (one a) h = h.1
length-print_item (range a b) h = omega (arith, length-append a (b'-' ∷ b), h.0.1)

if-some : (b c : Bool) → (if b then some true else some c) ≡ some (if b then true else c)
if-some true c = refl
if-some false c = refl

cron_loop-print :
    (fuel curtime : ℕ) (x : Item) (xs : List Item)
    → All IsItem (x ∷ xs)
    → suc (length xs) < fuel
    → cron_loop fuel curtime (print x xs) ≡ some (any (hits curtime) (x ∷ xs))
unfolding print any
cron_loop-print zero curtime x xs h k = absurd (omega arith)
cron_loop-print (suc zero) curtime x xs h k = absurd (omega arith)
cron_loop-print (suc (suc fuel)) curtime x [] h k =
    cron_loop-turn (suc fuel) curtime (print_item x) [] (hits curtime x) (length-print_item x h.0)
      (ap (turn curtime) (sym (append-nil (print_item x))) ∙ turn-item curtime x [] h.0 refl refl)
    ∙ rw (cron_loop_nil fuel curtime) (if-some (hits curtime x) false)
cron_loop-print (suc (suc fuel)) curtime x (y ∷ ys) h k =
    cron_loop-turn (suc fuel) curtime (print_item x ++ (b',' ∷ print y ys)) (print y ys)
      (hits curtime x) (omega (arith, length-append (print_item x) (b',' ∷ print y ys)))
      (turn-item curtime x (b',' ∷ print y ys) h.0 refl refl)
    ∙ ap (λ o. if hits curtime x then some true else o)
        (cron_loop-print (suc fuel) curtime y ys h.1 (omega arith))
    ∙ if-some (hits curtime x) (any (hits curtime) (y ∷ ys))

pub length-print :
    (x : Item) (xs : List Item) → All IsItem (x ∷ xs) → suc (length xs) ≤ length (print x xs)
unfolding print
length-print x [] h = length-print_item x h.0
length-print x (y ∷ ys) h = omega (
  arith,
  length-print y ys h.1,
  length-append (print_item x) (b',' ∷ print y ys),
  length-print_item x h.0,
)

-- No number begins with `*`.
starts-append : (a rest : Text) → IsNumber a → starts b'*' (a ++ rest) ≡ false
starts-append [] rest h = absurd (omega arith)
starts-append (c ∷ a) rest h = ground (arith, h.0.0)

starts-print_item : (x : Item) (rest : Text) → IsItem x → starts b'*' (print_item x ++ rest) ≡ false
unfolding print_item
starts-print_item (one a) rest h = starts-append a rest h
starts-print_item (range a b) rest h =
    rw (append_assoc a (b'-' ∷ b) rest) (starts-append a (b'-' ∷ (b ++ rest)) h.0)

starts-print : (x : Item) (xs : List Item) → IsItem x → starts b'*' (print x xs) ≡ false
unfolding print
starts-print x [] h = ap (starts b'*') (sym (append-nil (print_item x))) ∙ starts-print_item x [] h
starts-print x (y ∷ ys) h = starts-print_item x (b',' ∷ print y ys) h

cron_parse_loop :
    (curtime : ℕ) (s : Text)
    → 0 < length s
    → starts b'*' s ≡ false
    → cron_parse (some s) curtime ≡ cron_loop (suc (length s)) curtime s
unfolding cron_parse
cron_parse_loop curtime [] h k = absurd (omega arith)
cron_parse_loop curtime (c ∷ s) h k = rw k refl

-- An entry of numbers and ranges, with commas, is met by a time exactly if the time is one of the
-- numbers or the first of a range, or lies in one of the ranges. Each number has one digit to nine.
pub cron_parse-print :
    (curtime : ℕ) (x : Item) (xs : List Item)
    → All IsItem (x ∷ xs)
    → cron_parse (some (print x xs)) curtime ≡ some (any (hits curtime) (x ∷ xs))
cron_parse-print curtime x xs h =
    let long = length-print x xs h in
    cron_parse_loop curtime (print x xs) (omega arith) (starts-print x xs h.0)
    ∙ cron_loop-print (suc (length (print x xs))) curtime x xs h (omega arith)
