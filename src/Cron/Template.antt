-- ===== src/Cron/Template.antt =====
-- Templates of five entries, and what `check_time` makes of them.
use tacppd.Common.{
  ◌≡◌, refl, ℕ, zero, suc, ◌+◌, ◌≤◌, ◌<◌, Bool, Bool-cases, true, false, ◌&&◌, some, List, [], ◌∷◌,
  ◌++◌, Text, length, length-append, ◌==◌, ltb, any, All, All-append, is_empty, inl, inr, arith,
}
use tacppd.Cron.{
  is_digit, starts, cron_parse, Tm, up_to_space, spaces, next_field, last_field, split_template,
  all_meet, check_time, filled,
}
use tacppd.Cron.Items.{
  Item, one, range, IsItem, print_item, print, hits, length-print, cron_parse-print,
}

-- An entry of a template: any time, or a list of items.
pub data Entry : Type 0 where
  always : Entry
  items : Item → List Item → Entry

unfoldable pub print_entry : Entry → Text
unfolding print
print_entry always = b'*' ∷ []
print_entry (items x xs) = print x xs

abbrev pub meets : ℕ → Entry → Bool
meets n always = true
meets n (items x xs) = any (hits n) (x ∷ xs)

-- An entry of at most 99 bytes.
abbrev pub IsEntry : Entry → Type 0
IsEntry always = Unit {0}
IsEntry (items x xs) = All IsItem (x ∷ xs) × (length (print x xs) ≤ 99)

abbrev IsField : Text → Type 0
IsField e = All (λ c. (c == b' ') ≡ false) e × (0 < length e) × (length e ≤ 99)

digits-IsField : (a : Text) → All (λ c. is_digit c ≡ true) a → All (λ c. (c == b' ') ≡ false) a
digits-IsField [] h = tt
digits-IsField (c ∷ a) h = (ground (arith, h.0), digits-IsField a h.1)

print_item-spaces : (x : Item) → IsItem x → All (λ c. (c == b' ') ≡ false) (print_item x)
unfolding print_item
print_item-spaces (one a) h = digits-IsField a h.0
print_item-spaces (range a b) h =
    All-append (λ c. (c == b' ') ≡ false) a (b'-' ∷ b) (digits-IsField a h.0.0)
      (refl, digits-IsField b h.1.0)

print-spaces :
    (x : Item) (xs : List Item) → All IsItem (x ∷ xs) → All (λ c. (c == b' ') ≡ false) (print x xs)
unfolding print
print-spaces x [] h = print_item-spaces x h.0
print-spaces x (y ∷ ys) h =
    All-append (λ c. (c == b' ') ≡ false) (print_item x) (b',' ∷ print y ys)
      (print_item-spaces x h.0) (refl, print-spaces y ys h.1)

print_entry-IsField : (e : Entry) → IsEntry e → IsField (print_entry e)
unfolding print_entry
print_entry-IsField always h = ((refl, tt), omega arith, omega arith)
print_entry-IsField (items x xs) h =
    (print-spaces x xs h.0, omega (arith, length-print x xs h.0), h.1)

up_to_space-append :
    (room : ℕ) (e rest : Text)
    → All (λ c. (c == b' ') ≡ false) e
    → length e < room
    → up_to_space room (e ++ b' ' ∷ rest) ≡ some (e, b' ' ∷ rest)
unfolding up_to_space
up_to_space-append zero e rest h k = absurd (omega arith)
up_to_space-append (suc room) [] rest h k = ground arith
up_to_space-append (suc room) (c ∷ e) rest h k =
    rw (up_to_space-append room e rest h.1 (omega arith), h.0) refl

spaces_lem : (s : Text) → starts b' ' s ≡ false → spaces (b' ' ∷ s) ≡ s
unfolding spaces
spaces_lem [] h = refl
spaces_lem (c ∷ s) h = rw h refl

filled_lem : (e rest : Text) → 0 < length e → filled (e, rest) ≡ some (e, rest)
filled_lem [] rest h = absurd (omega arith)
filled_lem (c ∷ e) rest h = refl

next_field-append :
    (e rest : Text)
    → IsField e
    → starts b' ' rest ≡ false
    → next_field (e ++ b' ' ∷ rest) ≡ some (e, rest)
unfolding next_field
next_field-append e rest h k =
    rw (up_to_space-append 100 e rest h.0 (omega arith), spaces_lem rest k) (filled_lem e rest h.1)

last_field_lem :
    (room : ℕ) (e : Text)
    → All (λ c. (c == b' ') ≡ false) e
    → length e < room
    → last_field room e ≡ some e
unfolding last_field
last_field_lem zero e h k = absurd (omega arith)
last_field_lem (suc room) [] h k = refl
last_field_lem (suc room) (c ∷ e) h k = rw (last_field_lem room e h.1 (omega arith), h.0) refl

starts-append : (e rest : Text) → IsField e → starts b' ' (e ++ rest) ≡ false
starts-append [] rest h = absurd (omega arith)
starts-append (c ∷ e) rest h = h.0.0

starts_field : (e : Text) → IsField e → starts b' ' e ≡ false
starts_field [] h = absurd (omega arith)
starts_field (c ∷ e) h = h.0.0

is_empty_field : (e : Text) → IsField e → is_empty e ≡ false
is_empty_field [] h = absurd (omega arith)
is_empty_field (c ∷ e) h = refl

-- Five entries with spaces between them.
abbrev pub join : Text → Text → Text → Text → Text → Text
join a b c d e = a ++ b' ' ∷ (b ++ b' ' ∷ (c ++ b' ' ∷ (d ++ b' ' ∷ e)))

split_template-join :
    (a b c d e : Text)
    → IsField a
    → IsField b
    → IsField c
    → IsField d
    → IsField e
    → split_template (join a b c d e) ≡ some (a ∷ b ∷ c ∷ d ∷ e ∷ [])
unfolding split_template
split_template-join a b c d e ha hb hc hd he =
    rw
      (
        next_field-append a (b ++ b' ' ∷ (c ++ b' ' ∷ (d ++ b' ' ∷ e))) ha
            (starts-append b (b' ' ∷ (c ++ b' ' ∷ (d ++ b' ' ∷ e))) hb),
        next_field-append b (c ++ b' ' ∷ (d ++ b' ' ∷ e)) hb
            (starts-append c (b' ' ∷ (d ++ b' ' ∷ e)) hc),
        next_field-append c (d ++ b' ' ∷ e) hc (starts-append d (b' ' ∷ e) hd),
        next_field-append d e hd (starts_field e he),
        last_field_lem 100 e he.0 (omega arith),
        is_empty_field e he,
      )
      refl

cron_parse-print_entry :
    (n : ℕ) (e : Entry) → IsEntry e → cron_parse (some (print_entry e)) n ≡ some (meets n e)
unfolding print_entry cron_parse
cron_parse-print_entry n always h = refl
cron_parse-print_entry n (items x xs) h = cron_parse-print n x xs h.0

all_meet_nil : (ns : List ℕ) → all_meet [] ns ≡ some true
unfolding all_meet
all_meet_nil ns = refl

all_meet-cons :
    (e : Entry) (es : List Text) (n : ℕ) (ns : List ℕ) (b : Bool)
    → IsEntry e
    → all_meet es ns ≡ some b
    → all_meet (print_entry e ∷ es) (n ∷ ns) ≡ some (meets n e && b)
unfolding all_meet
all_meet-cons e es n ns b h k = elim (Bool-cases (meets n e)) [
  | inl f ↦ rw (all_meet, cron_parse-print_entry n e h, f) k
  | inr f ↦ rw (all_meet, cron_parse-print_entry n e h, f) refl
]

join_long : (a b c d e : Text) → ltb (length (join a b c d e)) 3 ≡ false
join_long a b c d e = ground (
  arith,
  length-append a (b' ' ∷ (b ++ b' ' ∷ (c ++ b' ' ∷ (d ++ b' ' ∷ e)))),
  length-append b (b' ' ∷ (c ++ b' ' ∷ (d ++ b' ' ∷ e))),
  length-append c (b' ' ∷ (d ++ b' ' ∷ e)),
  length-append d (b' ' ∷ e),
)

-- The check of a template of five entries, each of at most 99 bytes, comes to an end, and succeeds
-- exactly if each entry is met: minutes, hours, days, months from 1, and days of the week. A range
-- whose last number is below its first is met by its first number alone.
pub check_time-join :
    (tm : Tm) (a b c d e : Entry)
    → IsEntry a
    → IsEntry b
    → IsEntry c
    → IsEntry d
    → IsEntry e
    → check_time tm (
        some (join (print_entry a) (print_entry b) (print_entry c) (print_entry d) (print_entry e)))
      ≡ some (
          meets tm.min a
          && (meets tm.hour b
              && (meets tm.mday c && (meets (tm.mon + 1) d && (meets tm.wday e && true)))))
unfolding check_time
check_time-join tm a b c d e ha hb hc hd he =
    let es : List Text =
      print_entry a ∷ print_entry b ∷ print_entry c ∷ print_entry d ∷ print_entry e ∷ [] in
    let met : all_meet es (tm.min ∷ tm.hour ∷ tm.mday ∷ (tm.mon + 1) ∷ tm.wday ∷ [])
        ≡ some (
            meets tm.min a
            && (meets tm.hour b
                && (meets tm.mday c && (meets (tm.mon + 1) d && (meets tm.wday e && true))))) =
      all_meet-cons a (print_entry b ∷ print_entry c ∷ print_entry d ∷ print_entry e ∷ []) tm.min
        (tm.hour ∷ tm.mday ∷ (tm.mon + 1) ∷ tm.wday ∷ []) _ ha
        (all_meet-cons b (print_entry c ∷ print_entry d ∷ print_entry e ∷ []) tm.hour
          (tm.mday ∷ (tm.mon + 1) ∷ tm.wday ∷ []) _ hb
          (all_meet-cons c (print_entry d ∷ print_entry e ∷ []) tm.mday
            ((tm.mon + 1) ∷ tm.wday ∷ []) _ hc
            (all_meet-cons d (print_entry e ∷ []) (tm.mon + 1) (tm.wday ∷ []) _ hd
              (all_meet-cons e [] tm.wday [] true he (all_meet_nil []))))) in
    rw
      (
        join_long (print_entry a) (print_entry b) (print_entry c) (print_entry d) (print_entry e),
        split_template-join (print_entry a) (print_entry b) (print_entry c) (print_entry d)
            (print_entry e) (print_entry-IsField a ha) (print_entry-IsField b hb)
            (print_entry-IsField c hc) (print_entry-IsField d hd) (print_entry-IsField e he),
      )
      met
