-- ===== src/Cron/Ends.antt =====
-- Which entries the loop of `cron_parse` comes to the end of.
use tacppd.Common.{
  ◌≡◌, ◌≢◌, ◌⊎◌, refl, ◌∙◌, ℕ, zero, suc, ◌≤◌, ◌<◌, Bool, Bool-cases, true, false, ◌||◌, none, some,
  [], ◌∷◌, Text, length, if◌then◌else◌, ◌==◌, All, inl, inr, arith,
}
use tacppd.Cron.{
  is_digit, digits, skip, get_digit, decimal, starts, behind, step_over, found, onward, turn,
  cron_loop, cron_parse,
}

-- Entries of digits, `-` and `,`.
abbrev pub is_cron : ℕ → Bool
is_cron c = is_digit c || ((c == b'-') || (c == b','))

abbrev pub IsCron : Text → Type 0
IsCron s = All (λ c. is_cron c ≡ true) s

-- What a walk leaves: no more than there was, of the same kind.
abbrev Within : Text → ℕ → Type 0
Within s n = IsCron s × (length s ≤ n)

skip-Within : (s : Text) → IsCron s → Within (skip s) (length s)
unfolding skip
skip-Within [] h = (tt, omega arith)
skip-Within (c ∷ s) h = let rest = skip-Within s h.1 in ground (arith, rest)

behind-Within : (s : Text) (n : ℕ) → Within s n → Within (behind s) n
behind-Within [] n h = h
behind-Within (c ∷ s) n h = (h.0.1, omega (arith, h.1))

step_over-Within : (c : ℕ) (s : Text) (n : ℕ) → Within s n → Within (step_over c s) n
step_over-Within c s n h = elim (Bool-cases (starts c s)) [
  | inl e ↦ rw e (behind-Within s n h)
  | inr e ↦ rw e h
]

-- Where the next turn begins, behind the first number.
pub after : Text → Text
after s = step_over b',' (if starts b'-' s then skip (behind s) else s)

pub turn-cases :
    (curtime : ℕ) (s : Text) → (turn curtime s ≡ found) ⊎ (turn curtime s ≡ onward (after (skip s)))
unfolding turn after
turn-cases curtime s = ground arith

pub skip_digit : (c : ℕ) (s : Text) → is_digit c ≡ true → skip (c ∷ s) ≡ skip s
unfolding skip
skip_digit c s h = rw h refl

pub skip_other : (c : ℕ) (s : Text) → is_digit c ≡ false → skip (c ∷ s) ≡ c ∷ s
unfolding skip
skip_other c s h = rw h refl

after-Within : (s : Text) (n : ℕ) → Within s n → Within (after s) n
unfolding after
after-Within s n h =
    step_over-Within b',' (if starts b'-' s then skip (behind s) else s) n
      (elim (Bool-cases (starts b'-' s)) [
        | inl e ↦
            let inner = behind-Within s n h in
            let rest = skip-Within (behind s) inner.0 in
            rw e (rest.0, omega (arith, rest.1, inner.1))
        | inr e ↦ rw e h
      ])

-- Each turn goes over one byte at least.
next-Within : (c : ℕ) (s : Text) → IsCron (c ∷ s) → Within (after (skip (c ∷ s))) (length s)
unfolding after
next-Within c s h =
    let rest = skip-Within s h.1 in
    elim (Bool-cases (is_digit c)) [
      | inl e ↦ rw (skip_digit c s e) (after-Within (skip s) (length s) rest)
      | inr e ↦ elim (Bool-cases (c == b'-')) [
        | inl f ↦ rw (skip_other c s e, f) (step_over-Within b',' (skip s) (length s) rest)
        | inr f ↦
            let comma : (c == b',') ≡ true = ground (arith, h.0, e, f) in
            rw (skip_other c s e, f, comma) (h.1, omega arith)
      ]
    ]

pub cron_loop_nil : (fuel curtime : ℕ) → cron_loop (suc fuel) curtime [] ≡ some false
unfolding cron_loop
cron_loop_nil fuel curtime = refl

pub cron_loop_found :
    (fuel curtime c : ℕ) (s : Text)
    → turn curtime (c ∷ s) ≡ found
    → cron_loop (suc fuel) curtime (c ∷ s) ≡ some true
unfolding cron_loop
cron_loop_found fuel curtime c s e = rw (cron_loop, e) refl

pub cron_loop_onward :
    (fuel curtime c : ℕ) (s rest : Text)
    → turn curtime (c ∷ s) ≡ onward rest
    → cron_loop (suc fuel) curtime (c ∷ s) ≡ cron_loop fuel curtime rest
unfolding cron_loop
cron_loop_onward fuel curtime c s rest e = rw (cron_loop, e) refl

-- An entry of digits, `-` and `,` is read to its end, whatever the time.
pub cron_loop-some :
    (fuel curtime : ℕ) (s : Text)
    → IsCron s
    → length s < fuel
    → (b : Bool) × (cron_loop fuel curtime s ≡ some b)
cron_loop-some zero curtime s h k = absurd (omega arith)
cron_loop-some (suc fuel) curtime [] h k = (false, cron_loop_nil fuel curtime)
cron_loop-some (suc fuel) curtime (c ∷ s) h k = elim (turn-cases curtime (c ∷ s)) [
  | inl e ↦ (true, cron_loop_found fuel curtime c s e)
  | inr e ↦
      let rest = next-Within c s h in
      let known =
        cron_loop-some fuel curtime (after (skip (c ∷ s))) rest.0 (omega (arith, rest.1)) in
      (known.0, cron_loop_onward fuel curtime c s (after (skip (c ∷ s))) e ∙ known.1)
]

-- The parser ends, with one turn more than the entry has bytes at most, on every entry of digits,
-- `-` and `,`.
pub cron_parse-some :
    (curtime : ℕ) (s : Text) → IsCron s → (b : Bool) × (cron_parse (some s) curtime ≡ some b)
unfolding cron_parse
cron_parse-some curtime [] h = (false, refl)
cron_parse-some curtime (c ∷ s) h = elim (Bool-cases (c == b'*')) [
  | inl e ↦ (true, rw e refl)
  | inr e ↦
      let known = cron_loop-some (suc (suc (length s))) curtime (c ∷ s) h (omega arith) in
      (known.0, rw e known.1)
]

digits_other : (c : ℕ) (s : Text) → is_digit c ≡ false → digits (c ∷ s) ≡ []
unfolding digits
digits_other c s h = rw h refl

-- A turn at any other byte leaves the text as it is.
turn_other :
    (curtime c : ℕ) (s : Text)
    → is_cron c ≡ false
    → curtime ≢ 0
    → turn curtime (c ∷ s) ≡ onward (c ∷ s)
unfolding turn get_digit decimal
turn_other curtime c s h k =
    let other : is_digit c ≡ false = ground (arith, h) in
    let minus : (c == b'-') ≡ false = ground (arith, h) in
    let comma : (c == b',') ≡ false = ground (arith, h) in
    let late : (curtime == 0) ≡ false = ground (arith, k) in
    rw (digits_other c s other, skip_other c s other, minus, comma, late) refl

-- At any other byte the loop never ends, however long it runs, unless the time is 0.
pub cron_loop-none :
    (fuel curtime c : ℕ) (s : Text)
    → is_cron c ≡ false
    → curtime ≢ 0
    → cron_loop fuel curtime (c ∷ s) ≡ none
unfolding cron_loop
cron_loop-none zero curtime c s h k = refl
cron_loop-none (suc fuel) curtime c s h k =
    cron_loop_onward fuel curtime c s (c ∷ s) (turn_other curtime c s h k)
    ∙ cron_loop-none fuel curtime c s h k
