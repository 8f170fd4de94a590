-- ===== src/Tacacs/Wire/Texts.antt =====
-- Texts are read from the place where they were put.
use tacppd.Common.{
  Bool, true, ◌&&◌, ltb, ◌≡◌, refl, ap, ℕ, zero, suc, ◌+◌, ◌%◌, ◌<◌, List, [], ◌∷◌, ◌++◌, Text,
  length, take, drop, All, arith, take-length_append, drop-length_append, length-append,
}
use mathlib.Core.List.{append_assoc}
use tacppd.Tacacs.Crypt.Bytes.{IsByte}
use tacppd.Tacacs.Wire.{until_nul, text_at, pad, bytes_at, concat, lengths, split_texts, sum}

-- A byte of a text, which is not 0.
abbrev pub IsChar : ℕ → Type 0
IsChar c = (0 < c) × (c < 256)

abbrev pub IsText : Text → Type 0
IsText s = All IsChar s

abbrev pub no_nul : Text → Bool
no_nul [] = true
no_nul (c ∷ s) = (ltb 0 c && ltb c 256) && no_nul s

pub no_nul-IsText : (s : Text) → no_nul s ≡ true → IsText s
no_nul-IsText [] h = tt
no_nul-IsText (c ∷ s) h = ground (arith, no_nul-IsText s)

pub take-IsText : (n : ℕ) (s : Text) → IsText s → IsText (take n s)
take-IsText zero s h = tt
take-IsText (suc n) [] h = tt
take-IsText (suc n) (c ∷ s) h = (h.0, take-IsText n s h.1)

pub until_nul_lem : (s : Text) → IsText s → until_nul s ≡ s
unfolding until_nul
until_nul_lem [] h = refl
until_nul_lem (c ∷ s) h = ground (arith, until_nul_lem s h.1)

pub IsText-bytes : (s : Text) → IsText s → All IsByte s
IsText-bytes [] h = tt
IsText-bytes (c ∷ s) h = (h.0.1, IsText-bytes s h.1)

pub drop_behind :
    (i j : ℕ) (front body : List ℕ) → i ≡ length front + j → drop i (front ++ body) ≡ drop j body
drop_behind i j [] body e = let e' : i ≡ j = omega arith in rw e' refl
drop_behind zero j (x ∷ front) body e = absurd (omega arith)
drop_behind (suc i) j (x ∷ front) body e = drop_behind i j front body (omega arith)

pub text_at_behind :
    (i j n : ℕ) (front body : List ℕ)
    → i ≡ length front + j
    → text_at (front ++ body) i n ≡ text_at body j n
unfolding text_at
text_at_behind i j n front body e = ap (λ b. until_nul (take n b)) (drop_behind i j front body e)

pub text_at-append :
    (n : ℕ) (s rest : List ℕ) → IsText s → n ≡ length s → text_at (s ++ rest) 0 n ≡ s
unfolding text_at
text_at-append n s rest h e = rw (e, take-length_append s rest) (until_nul_lem s h)

pub bytes_at_behind :
    (i j n : ℕ) (front body : List ℕ)
    → i ≡ length front + j
    → bytes_at (front ++ body) i n ≡ bytes_at body j n
unfolding bytes_at
bytes_at_behind i j n front body e = ap (pad n) (drop_behind i j front body e)

pub pad-append : (n : ℕ) (xs rest : List ℕ) → n ≡ length xs → pad n (xs ++ rest) ≡ xs
unfolding pad
pad-append zero [] rest e = refl
pad-append zero (x ∷ xs) rest e = absurd (omega arith)
pad-append (suc n) [] rest e = absurd (omega arith)
pad-append (suc n) (x ∷ xs) rest e = ap (◌∷◌ x) (pad-append n xs rest (omega arith))

pub bytes_at-append : (n : ℕ) (xs rest : List ℕ) → n ≡ length xs → bytes_at (xs ++ rest) 0 n ≡ xs
unfolding bytes_at
bytes_at-append n xs rest e = pad-append n xs rest e

-- A text that a length byte of less than 128 can announce.
abbrev pub IsShort : Text → Type 0
IsShort s = IsText s × (length s < 128)

pub split_texts-concat :
    (ss : List Text) (rest : List ℕ)
    → All IsShort ss
    → split_texts (lengths ss) (concat ss ++ rest) ≡ ss
unfolding split_texts lengths concat
split_texts-concat [] rest h = refl
split_texts-concat (s ∷ ss) rest h =
    let small : length s % 256 ≡ length s = omega arith in
    rw
      (
        small,
        append_assoc s (concat ss) rest,
        take-length_append s (concat ss ++ rest),
        drop-length_append s (concat ss ++ rest),
        until_nul_lem s h.0.0,
        split_texts-concat ss rest h.1,
      )
      refl

pub length-lengths : (ss : List Text) → length (lengths ss) ≡ length ss
unfolding lengths
length-lengths [] = refl
length-lengths (s ∷ ss) = ap suc (length-lengths ss)

pub sum-lengths : (ss : List Text) → All IsShort ss → sum (lengths ss) ≡ length (concat ss)
unfolding sum lengths concat
sum-lengths [] h = refl
sum-lengths (s ∷ ss) h = omega (arith, sum-lengths ss h.1, length-append s (concat ss))

pub lengths-bytes : (ss : List Text) → All IsByte (lengths ss)
unfolding lengths
lengths-bytes [] = tt
lengths-bytes (s ∷ ss) = (omega arith, lengths-bytes ss)
