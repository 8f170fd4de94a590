-- ===== src/Accounting/Examples.antt =====
-- Requests of accounting, and each theorem at an input that meets its hypotheses. Addresses are
-- numbers here: the length of their text.
use tacppd.Common.{
  ◌≡◌, refl, ℕ, ◌==◌, ==_iff, true, false, List, [], ◌∷◌, Text, codes, length, any, str_eq,
}
use tacppd.Common.Int.{pos}
use tacppd.Common.Prefix.{scomp_n}
use tacppd.User.{DbUser, new_user}
use tacppd.Pool.{new_entry}
use tacppd.Track.{no_tracking}
use tacppd.Tacacs.Request.{Request}
use tacppd.Tacacs.Acct.Process.{log_pairs}
use tacppd.Accounting.{
  start, State, set_fields, set_field, named_action, other_field, no_log, db_accounting,
}
use tacppd.Accounting.Ports.{port_convert, convert_copy}
use tacppd.Accounting.Fields.{Says, claims, set_fields-log_pairs}
use tacppd.Accounting.Sessions.{Stopped, db_accounting-Stopped}

abbrev fill : Text → ℕ → ℕ
fill s old = length s

abbrev db : ℕ → Text → DbUser
db now u = record new_user { username = u; result = true; opened = 1 }

abbrev shell : Request
shell = record {
  method = 6;
  priv_lvl = 1;
  authen_type = 1;
  authen_service = 1;
  user = codes "ann";
  port = codes "Async1";
  rem_addr = codes "";
  avpair = codes "task_id=2" ∷ codes "addr=ten bytes." ∷ [];
}

set_fields-log_pairs_example :
    Says fill start
      (codes "ann")
      (codes "Async1")
      []
      7
      (set_fields fill (no_log 1) (log_pairs (codes "a peer.") 2 shell))
unfolding claims scomp_n str_eq
set_fields-log_pairs_example =
    set_fields-log_pairs fill (no_log 1) (codes "a peer.") 2 shell (refl, (refl, tt))

abbrev stops : List Text
stops =
    codes "action=STOP"
    ∷ codes "user=ann"
    ∷ codes "port=Async1"
    ∷ codes "nas=a peer."
    ∷ codes "addr=ten bytes."
    ∷ []

abbrev begun : State ℕ
begun = record {
  track = record no_tracking { nas = record { hostaddr = 7; cusr = [] } ∷ [] };
  pools =
      record { pool = pos 1; ae = record { address = 10; tag = false } ∷ new_entry 11 ∷ [] } ∷ [];
  log = [];
}

db_accounting-Stopped_example :
    Stopped
      (◌==◌)
      ==_iff
      fill
      0
      1
      db
      (set_fields fill (no_log 1) stops)
      begun
      (db_accounting (◌==◌) 0 1 db fill 9 stops begun)
unfolding set_fields set_field named_action other_field scomp_n str_eq any
db_accounting-Stopped_example =
    db_accounting-Stopped (◌==◌) ==_iff fill 0 1 db 9 stops begun refl refl refl
      ((refl, (refl, tt)), tt)

-- A port is written in neither form by two conversions.
async_stays : port_convert (port_convert (codes "As1")) ≡ codes "As1"
unfolding port_convert convert_copy scomp_n str_eq
async_stays = refl
