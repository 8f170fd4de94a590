-- ===== src/Cron.antt =====
-- Times in the style of cron: `get_digit`, `cron_parse` and `check_time`, src/Utils.cc. A text ends
-- where its list ends. The loop of `cron_parse` runs on fuel, one more than the length of the
-- entry: `none` is a loop that has not ended by then.
pub mod Ends
pub mod Items
pub mod Template
mod Examples
use tacppd.Common.{
  ℕ, zero, suc, ◌+◌, ◌-◌, ◌*◌, Bool, true, false, ◌&&◌, not, Option, none, some, List, [], ◌∷◌,
  ◌++◌, Text, CString, length, take, is_empty, if◌then◌else◌, ◌==◌, ltb, leb,
}

infix 30 ◌>>=◌
abbrev ◌>>=◌ : {A B : Type 0} → Option A → (A → Option B) → Option B
none >>= f = none
some a >>= f = f a

abbrev pub is_digit : ℕ → Bool
is_digit c = leb b'0' c && leb c b'9'

-- The digits at the head of a text, and what follows them.
unfoldable pub digits : Text → Text
digits [] = []
digits (c ∷ s) = let rest = digits s in if is_digit c then c ∷ rest else []

unfoldable pub skip : Text → Text
skip [] = []
skip (c ∷ s) = let rest = skip s in if is_digit c then rest else c ∷ s

-- `atoi` of digits. (It is undefined for a number of 2 ^ 31 or more.)
unfoldable pub decimal : ℕ → Text → ℕ
decimal n [] = n
decimal n (c ∷ s) = decimal (n * 10 + (c - b'0')) s

-- (From 20 digits on the closing 0 is written behind the buffer.)
unfoldable pub get_digit : Text → ℕ
unfolding digits decimal
get_digit s = decimal 0 (take 20 (digits s))

abbrev pub starts : ℕ → Text → Bool
starts c [] = false
starts c (d ∷ s) = d == c

abbrev pub behind : Text → Text
behind [] = []
behind (c ∷ s) = s

abbrev pub step_over : ℕ → Text → Text
step_over c s = if starts c s then behind s else s

-- One turn of the loop: the time is met, or the loop goes on.
pub data Turn : Type 0 where
  found : Turn
  onward : Text → Turn

unfoldable pub turn : ℕ → Text → Turn
unfolding skip get_digit
turn curtime s =
    let dig = get_digit s in
    let s₁ = skip s in
    let dig2 = get_digit (behind s₁) in
    if curtime == dig
    then found
    else if starts b'-' s₁
    then (if leb dig curtime && leb curtime dig2
        then found
        else onward (step_over b',' (skip (behind s₁))))
    else onward (step_over b',' s₁)

unfoldable pub cron_loop : ℕ → ℕ → Text → Option Bool
unfolding turn
cron_loop zero curtime s = none
cron_loop (suc fuel) curtime [] = some false
cron_loop (suc fuel) curtime (c ∷ s) = elim (turn curtime (c ∷ s)) [
  | found ↦ some true
  | onward rest ↦ cron_loop fuel curtime rest
]

unfoldable pub cron_parse : CString → ℕ → Option Bool
unfolding cron_loop
cron_parse none curtime = some false
cron_parse (some []) curtime = some false
cron_parse (some (c ∷ s)) curtime =
    if c == b'*' then some true else cron_loop (suc (suc (length s))) curtime (c ∷ s)

-- The fields of `struct tm` that are compared.
pub record Tm : Type 0 where
  pub min : ℕ
  pub hour : ℕ
  pub mday : ℕ
  pub mon : ℕ
  pub wday : ℕ

-- The text up to the next space and what follows it. The buffer has 100 bytes, with the 0; the loop
-- does not stop at the end of the text, but reads on behind it; and an empty field leaves the
-- buffer as it was: nothing is said of these (`none`).
unfoldable pub up_to_space : ℕ → Text → Option (Text × Text)
up_to_space zero s = none
up_to_space (suc room) [] = none
up_to_space (suc room) (c ∷ s) = elim (up_to_space room s) [
  | none ↦ if c == b' ' then some ([], c ∷ s) else none
  | some (field, rest) ↦ if c == b' ' then some ([], c ∷ s) else some (c ∷ field, rest)
]

unfoldable pub spaces : Text → Text
spaces [] = []
spaces (c ∷ s) = let rest = spaces s in if c == b' ' then rest else c ∷ s

abbrev pub filled : Text × Text → Option (Text × Text)
filled ([], rest) = none
filled (c ∷ field, rest) = some (c ∷ field, rest)

unfoldable pub next_field : Text → Option (Text × Text)
unfolding up_to_space spaces
next_field s = do (field, rest) ← up_to_space 100 s; filled (field, spaces rest)

-- The last field ends with the text, too.
unfoldable pub last_field : ℕ → Text → Option Text
last_field zero s = none
last_field (suc room) [] = some []
last_field (suc room) (c ∷ s) = elim (last_field room s) [
  | none ↦ if c == b' ' then some [] else none
  | some field ↦ if c == b' ' then some [] else some (c ∷ field)
]

-- The five fields of a template.
unfoldable pub split_template : Text → Option (List Text)
unfolding next_field last_field
split_template s = do
  (c_min, s₁) ← next_field s
  (c_hour, s₂) ← next_field s₁
  (c_day, s₃) ← next_field s₂
  (c_month, s₄) ← next_field s₃
  c_weekday ← last_field 100 s₄
  if is_empty c_weekday then none else some (c_min ∷ c_hour ∷ c_day ∷ c_month ∷ c_weekday ∷ [])

-- `cron_parse(...) && cron_parse(...) && ...`
unfoldable pub all_meet : List Text → List ℕ → Option Bool
unfolding cron_parse
all_meet [] ns = some true
all_meet (e ∷ es) [] = some true
all_meet (e ∷ es) (n ∷ ns) = elim (cron_parse (some e) n) [
  | none ↦ none
  | some true ↦ all_meet es ns
  | some false ↦ some false
]

unfoldable pub check_time : Tm → CString → Option Bool
unfolding split_template all_meet
check_time tm none = some true
check_time tm (some entry) =
    if ltb (length entry) 3
    then some true
    else split_template entry
      >>= (λ es. all_meet es (tm.min ∷ tm.hour ∷ tm.mday ∷ (tm.mon + 1) ∷ tm.wday ∷ []))
