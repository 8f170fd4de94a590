-- ===== src/Cron/Examples.antt =====
-- Entries and templates, and each theorem at an input that meets its hypotheses.
use tacppd.Common.{◌≡◌, refl, Bool, true, some, none, [], codes, arith, any}
use tacppd.Cron.{Tm, turn, skip, digits, decimal, get_digit, cron_loop, cron_parse, check_time}
use tacppd.Cron.Ends.{cron_parse-some, cron_loop-none}
use tacppd.Cron.Items.{one, print, print_item}
use tacppd.Cron.Template.{Entry, always, items, print_entry, join, check_time-join}

five_to_nine : cron_parse (some (codes "5-9,30")) 7 ≡ some true
unfolding cron_parse cron_loop turn skip digits decimal get_digit
five_to_nine = refl

-- A second comma counts as the number 0.
two_commas : cron_parse (some (codes "5,,7")) 0 ≡ some true
unfolding cron_parse cron_loop turn skip digits decimal get_digit
two_commas = refl

cron_parse-some_example : (b : Bool) × (cron_parse (some (codes "5-9,30")) 1 ≡ some b)
cron_parse-some_example =
    cron_parse-some 1 (codes "5-9,30") (refl, (refl, (refl, (refl, (refl, (refl, tt))))))

-- The name of a month is never read to its end.
cron_loop-none_example : cron_loop 1000 5 (codes "may") ≡ none
cron_loop-none_example = cron_loop-none 1000 5 109 (codes "ay") refl (λ e. omega (arith, e))

abbrev noon : Tm
noon = record { min = 0; hour = 12; mday = 1; mon = 0; wday = 3 }

abbrev at_twelve : Entry
at_twelve = items (one (codes "12")) []

check_time-join_example :
    check_time noon (
      some (
        join
          (print_entry always)
          (print_entry at_twelve)
          (print_entry always)
          (print_entry always)
          (print_entry always)))
    ≡ some true
unfolding decimal any print print_item
check_time-join_example =
    check_time-join noon always at_twelve always always always tt
      ((((refl, (refl, tt)), omega arith, omega arith), tt), omega arith) tt tt tt
