-- ===== src/Tacacs/Authen.antt =====
-- Authentication, a state machine that one session's packets drive: the AUTHENTICATION part of
-- `TacacsSessionContainer::process`.
pub mod Passes
pub mod Silence
pub mod Login
mod Examples
use tacppd.Common.{
  ℕ, Bool, true, false, ◌||◌, ◌&&◌, not, Option, none, some, List, [], ◌∷◌, Text, codes, is_empty,
  if◌then◌else◌, ◌==◌, take,
}
use tacppd.Common.Int.{ℤ}
use tacppd.User.{DbUser}
use tacppd.Aaa.{Tools, Origin, db_authentication}
use tacppd.Tacacs.Header.{Hdr}
use tacppd.Tacacs.Intake.{
  enable_request, ascii_login, pap_login, chap_login, chap_password, pap_password, ver_0, ver_1,
  Authen, new_authen, get_start, get_cont,
}

-- What a packet meets when it is processed: the database, the clock, the device's address, and the
-- prompts of the device.
pub record Moment : Type 0 where
  pub tools : Tools
  pub lookup : Text → DbUser
  pub numsess : Text → ℤ
  pub now : ℕ
  pub nas : Text
  pub loginstring : Text
  pub pwdstring : Text

-- `db_authentication` with the fields of the session.
unfoldable pub accepts : Moment → Authen → Text → Bool
accepts m a password =
    db_authentication m.tools (m.lookup a.user) (m.numsess a.user) m.now
      (record { rem_addr = a.rem_addr; nas = m.nas; port = a.port }) password a.enable

-- TAC_PLUS_AUTHEN_STATUS_PASS, FAIL, GETUSER and GETPASS.
pub data Status : Type 0 where
  pass fail getuser getpass : Status

pub record Reply : Type 0 where
  pub status : Status
  pub server_msg : Text
  pub echo : Bool
  pub version : ℕ

abbrev pub answer : Status → ℕ → Option Reply
answer s v = some (record { status = s; server_msg = []; echo = false; version = v })

abbrev pub prompt : Status → Text → Bool → Option Reply
prompt s text echo = some (record { status = s; server_msg = text; echo = echo; version = ver_0 })

abbrev pub is_interactive : Authen → Bool
is_interactive a = (a.request == ascii_login) || (a.request == enable_request)

-- A start packet for a login with prompts.
unfoldable pub start_login : Moment → Authen → Option Reply
start_login m a =
    if is_empty a.user
    then prompt getuser m.loginstring true
    else if accepts m a (codes "(null)")
    then answer pass ver_0
    else prompt getpass m.pwdstring false

-- The decision on a password.
unfoldable pub decide : Moment → Authen → Option Reply
decide m a =
    if accepts m a a.pwstring
    then answer pass (if a.chap then ver_1 else ver_0)
    else answer fail ver_0

-- seq 1. The fields are cleared first; `chap` is not.
abbrev pub cleared : Authen → Authen
cleared a = record new_authen { chap = a.chap }

unfoldable pub start_request : Moment → Authen → Text → Authen × Option Reply
unfolding start_login decide
start_request m a data_ =
    let enabling = record a { en_req = enable_request } in
    let keyed = record a { pwstring = take 253 data_; chap = true } in
    if a.request == ascii_login
    then (a, start_login m a)
    else if a.request == enable_request
    then (enabling, start_login m enabling)
    else if ((a.request == pap_login) || (a.request == chap_login)) && not (is_empty data_)
    then (keyed, decide m keyed)
    else if (a.request == chap_password) || (a.request == pap_password)
    then (a, answer pass ver_0)
    else (a, answer fail ver_0)

unfoldable pub start : Moment → Hdr → List ℕ → Authen → Authen × Option Reply
unfolding start_request
start m hdr body a =
    let s = get_start hdr body (cleared a) in
    if s.res == 0
    then (s.authen, answer fail ver_0)
    else start_request m (record s.authen { request = s.res }) s.data_

-- The user's name, in answer to GETUSER.
unfoldable pub take_user : Moment → Authen → Option (Text × ℕ) → Authen × Option Reply
take_user m a none = (a, answer fail ver_0)
take_user m a (some (msg, flag)) =
    let a' = record a { user = msg } in
    let text = if a.en_req == enable_request then codes "ENABLE PASSWORD:" else m.pwdstring in
    if flag == 1
    then (a', answer fail ver_0)
    else if accepts m a' (codes "(null)")
    then (a', answer pass ver_0)
    else (a', prompt getpass text false)

-- The password, in answer to GETPASS.
unfoldable pub take_password : Moment → Authen → Option (Text × ℕ) → Authen × Option Reply
unfolding decide
take_password m a none = (a, answer fail ver_0)
take_password m a (some (msg, flag)) =
    let a' =
      if a.en_req == enable_request
      then record a { enable = msg }
      else record a { pwstring = take 252 msg } in
    if flag == 1 then (a, none) else (a', decide m a')

-- seq 5 to 7.
unfoldable pub read_password : Moment → Hdr → List ℕ → Authen → Authen × Option Reply
unfolding take_password
read_password m hdr body a =
    if is_interactive a then take_password m a (get_cont hdr body 50) else (a, none)

-- seq 2 to 4.
unfoldable pub read_user : Moment → Hdr → List ℕ → Authen → Authen × Option Reply
unfolding take_user read_password
read_user m hdr body a =
    if is_interactive a
    then (if is_empty a.user
        then take_user m a (get_cont hdr body 32)
        else read_password m hdr body a)
    else (a, none)

-- `process` for a packet with that sequence number: the state after it, and the reply.
unfoldable pub process : Moment → ℕ → Hdr → List ℕ → Authen → Authen × Option Reply
unfolding start read_user read_password
process m seq hdr body a =
    if seq == 1
    then start m hdr body a
    else if (seq == 2) || ((seq == 3) || (seq == 4))
    then read_user m hdr body a
    else if (seq == 5) || ((seq == 6) || (seq == 7))
    then read_password m hdr body a
    else (a, none)
