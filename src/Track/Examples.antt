-- ===== src/Track/Examples.antt =====
-- Sessions that begin and end, and each theorem at an input that meets its hypotheses. Addresses
-- are numbers.
use tacppd.Common.{
  ◌≡◌, refl, ℕ, ◌+◌, ◌≤◌, true, ◌==◌, List, [], ◌∷◌, Text, codes, str_eq, any, find, update_first,
  erase_first,
}
use tacppd.Common.Prefix.{scomp_n}
use tacppd.User.{DbUser, new_user}
use tacppd.Common.Int.{pos}
use tacppd.Aaa.{
  Tools, Origin, db_authentication, sessions_left, is_open, check_password, cpass, check_rows,
}
use tacppd.Track.Limit.{numsess_all-begin_session}
use tacppd.Track.Billing.{get_ud, add_ud, del_ud}
use tacppd.Track.Sessions.{numsess, usr_add, usr_del, usr_activate}
use tacppd.Track.Sessions.Backed.{count}
use tacppd.Track.Cache.{present, dbc_get, dbc_add}
use tacppd.Track.{
  DeviceData, numsess_all, Action, adds, dels, adds_device, no_tracking, try_each, try_first,
  look_up, get2add, add, del, add_device, step, run,
}
use tacppd.Track.Covered.{total, IsTracked, no_tracking-IsTracked}
use tacppd.Track.Backed.{IsNamed, run-IsTracked}
use tacppd.Track.Fresh.{get2add-run}
use tacppd.Track.Lifecycle.{begin_session}

-- A database that knows every name, and when it was asked.
abbrev db : ℕ → Text → DbUser
db now u = record new_user { username = u; result = true; opened = 1; closed = now }

db-IsNamed : IsNamed db
db-IsNamed now u h = refl

abbrev ann : Text
ann = codes "ann"

abbrev tty : Text
tty = codes "As1"

abbrev history : List (Action ℕ)
history = adds_device 7 ∷ adds 100 ann 7 tty [] 50 ∷ dels 7 tty ∷ []

run-IsTracked_example : IsTracked (run ◌==◌ 0 1 db no_tracking history)
run-IsTracked_example =
    run-IsTracked ◌==◌ 0 1 db db-IsNamed no_tracking history (no_tracking-IsTracked ℕ)

get2add-run_example :
    (read : ℕ) × ((get2add ◌==◌ 0 1 db 120 ann 7 tty [] (run ◌==◌ 0 1 db no_tracking history)).1
      ≡ db read ann)
    × (120 ≤ read + 31)
unfolding run step get2add add del look_up present dbc_get dbc_add try_each try_first add_device
    get_ud add_ud del_ud usr_add usr_del usr_activate find any update_first erase_first total count
    str_eq
get2add-run_example = get2add-run ◌==◌ 0 1 db db-IsNamed history 120 ann 7 tty [] refl refl

-- The data is that of the first look, 20 seconds ago.
read_at_100 :
    (get2add ◌==◌ 0 1 db 120 ann 7 tty [] (run ◌==◌ 0 1 db no_tracking history)).1 ≡ db 100 ann
unfolding run step get2add add del look_up present dbc_get dbc_add try_each try_first add_device
    get_ud add_ud del_ud usr_add usr_del usr_activate find any update_first erase_first str_eq
read_at_100 = refl

abbrev tools : Tools
tools = record {
  regex = record { compiles = λ p. true; matches = λ p s. str_eq p s };
  md5 = λ s. s;
  check_time = λ s. true;
}

-- A user with one session.
abbrev one_session : DbUser
one_session = record new_user {
  username = ann;
  authsrc = codes "cpwd";
  password = codes "secret";
  result = true;
  maxsess = pos 1;
}

abbrev origin : Origin
origin = record { rem_addr = []; nas = []; port = tty }

abbrev device : DeviceData ℕ
device = record { hostaddr = 7; cusr = [] }

ann_enters :
    db_authentication tools one_session
      (pos (numsess_all ann (device ∷ [])))
      5
      origin
      (codes "secret")
      []
    ≡ true
unfolding db_authentication sessions_left is_open check_password cpass scomp_n check_rows str_eq
    numsess_all numsess
ann_enters = refl

numsess_all-begin_session_example :
    numsess_all ann
      (record device { cusr = (begin_session ◌==◌ 0 1 9 7 ann tty [] 50 one_session [] []).1 } ∷ [])
    ≤ 1
unfolding any
numsess_all-begin_session_example =
    numsess_all-begin_session ◌==◌ 0 1 tools one_session 5 0 origin (codes "secret") [] [] [] device
      9 7 ann tty [] 50 [] refl ann_enters refl
