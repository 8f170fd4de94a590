-- ===== src/Tacacs/Authen/Examples.antt =====
-- A login packet by packet, and each theorem at an input that meets its hypotheses. Patterns are
-- plain texts that match themselves, and the digest is 16 bytes of 7.
use tacppd.Common.{
  ◌≡◌, ◌≢◌, ◌⊎◌, ap, refl, inr, ℕ, true, false, some, none, List, [], ◌∷◌, Text, codes, str_eq,
  arith, if◌then◌else◌,
}
use tacppd.Common.Int.{pos}
use tacppd.Common.Prefix.{scomp_n}
use tacppd.User.{new_user}
use tacppd.Aaa.{db_authentication, sessions_left, is_open, check_password, cpass, check_rows}
use tacppd.Aaa.Password.{Knows}
use tacppd.Tacacs.Header.{Hdr}
use tacppd.Tacacs.Intake.{Authen, new_authen, get_start, get_cont, request_type, ver_0}
use tacppd.Tacacs.Wire.{text_at, byte_at, until_nul}
use tacppd.Tacacs.Authen.{
  Moment, pass, fail, getpass, Reply, answer, prompt, cleared, accepts, start_login, decide,
  start_request, start, take_password, read_password, read_user, process,
}
use tacppd.Tacacs.Authen.Passes.{IsSendpass, process-Knows}
use tacppd.Tacacs.Authen.Silence.{IsAborted, process_replies}
use tacppd.Tacacs.Authen.Login.{verdict, process_login}

abbrev sevens : Text
sevens = 7 ∷ 7 ∷ 7 ∷ 7 ∷ 7 ∷ 7 ∷ 7 ∷ 7 ∷ 7 ∷ 7 ∷ 7 ∷ 7 ∷ 7 ∷ 7 ∷ 7 ∷ 7 ∷ []

abbrev moment : Moment
moment = record {
  tools = record {
    regex = record { compiles = λ p. true; matches = λ p s. str_eq p s };
    md5 = λ s. sevens;
    check_time = λ s. true;
  };
  lookup = λ u. record new_user { authsrc = codes "db"; password = codes "pw"; result = true };
  numsess = λ u. pos 0;
  now = 5;
  nas = codes "10.0.0.1";
  loginstring = codes "login:";
  pwdstring = codes "password:";
}

abbrev start_hdr : Hdr
start_hdr = record {
  version = 192;
  type = 1;
  seq_no = 1;
  encryption = 1;
  session_id = 77;
  datalength = 11;
}

-- An ASCII login of the user `bob`.
abbrev start_body : List ℕ
start_body = 1 ∷ 1 ∷ 1 ∷ 1 ∷ 3 ∷ 0 ∷ 0 ∷ 0 ∷ codes "bob"

abbrev cont_hdr : Hdr
cont_hdr = record start_hdr { seq_no = 3; datalength = 7 }

abbrev cont_body : List ℕ
cont_body = 0 ∷ 2 ∷ 0 ∷ 0 ∷ 0 ∷ codes "pw"

abbrev bob : Authen
bob = record new_authen { user = codes "bob"; request = 2 }

abbrev bob_in : Authen
bob_in = record bob { pwstring = codes "pw" }

bob_starts :
    process moment 1 start_hdr start_body new_authen
    ≡ (bob, prompt getpass (codes "password:") false)
unfolding process start get_start text_at byte_at until_nul request_type start_request start_login
    accepts db_authentication sessions_left is_open check_password scomp_n str_eq
bob_starts = refl

bob_enters : process moment 3 cont_hdr cont_body bob ≡ (bob_in, answer pass ver_0)
unfolding process read_user read_password get_cont text_at byte_at until_nul take_password decide
    accepts db_authentication sessions_left is_open check_password cpass scomp_n str_eq check_rows
bob_enters = refl

bob_sends : get_cont cont_hdr cont_body 50 ≡ some (codes "pw", 0)
unfolding get_cont text_at byte_at until_nul
bob_sends = refl

abbrev welcome : Reply
welcome = record { status = pass; server_msg = []; echo = false; version = ver_0 }

bob_is_welcome : (process moment 3 cont_hdr cont_body bob).1 ≡ some welcome
bob_is_welcome = ap (λ x. x.1) bob_enters

three : ℕ
three = 3

request_kept : (process moment 3 cont_hdr cont_body bob).0.request ≡ 2
request_kept = ap (λ x. x.0.request) bob_enters

no-IsSendpass : ¬ IsSendpass (process moment 3 cont_hdr cont_body bob).0
no-IsSendpass h = absurd (ground (arith, h, request_kept))

process-Knows_example :
    Knows moment.tools (codes "pw") (process moment 3 cont_hdr cont_body bob).0.pwstring
    ⊎ Knows moment.tools [] (process moment 3 cont_hdr cont_body bob).0.enable
process-Knows_example =
    process-Knows moment 3 cont_hdr cont_body bob welcome [] bob_is_welcome refl refl no-IsSendpass

not-IsAborted : ¬ IsAborted (get_cont cont_hdr cont_body 50)
not-IsAborted (msg, e) = absurd (ground (arith, e, bob_sends))

process_replies_example : (process moment 3 cont_hdr cont_body bob).1 ≢ none
process_replies_example =
    process_replies moment 3 cont_hdr cont_body bob (omega arith) (omega arith)
      (inr (refl, not-IsAborted))

bob_refused : verdict moment bob (codes "(null)") ≡ false
unfolding verdict db_authentication sessions_left is_open check_password scomp_n str_eq
bob_refused = refl

process_login_example :
    ((process moment 1 start_hdr start_body new_authen).1
      ≡ prompt getpass (codes "password:") false)
    × ((process moment 3 cont_hdr cont_body (process moment 1 start_hdr start_body new_authen).0).1
        ≡ (if verdict moment
              (get_start start_hdr start_body (cleared new_authen)).authen
              (codes "pw")
            then answer pass ver_0
            else answer fail ver_0))
unfolding get_start text_at byte_at until_nul request_type verdict db_authentication sessions_left
    is_open check_password scomp_n str_eq
process_login_example =
    process_login moment moment start_hdr cont_hdr start_body cont_body new_authen (codes "pw") 0
      refl (λ e. cc) refl bob_sends (λ e. absurd (omega arith))
