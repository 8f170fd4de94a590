-- ===== src/Tacacs/Intake.antt =====
-- What a session keeps of its authentication, and what it reads from the packets: `get_start` and
-- `get_cont` of `TacacsServerAuthentication`.
-- A body is the list of the bytes that stand in memory from its start on; behind that list memory
-- counts as zeros. `data` and `password`, which each call clears and fills before it reads them,
-- are results here instead of state; `res`, too.
use tacppd.Common.{
  ℕ, ◌+◌, Bool, false, ◌||◌, ◌&&◌, not, Option, none, some, List, [], Text, if◌then◌else◌, ◌==◌,
  ltb,
}
use tacppd.Tacacs.Header.{Hdr}
use tacppd.Tacacs.Wire.{byte_at, short_at, text_at}

-- TACACS_ENABLE_REQUEST and its kin: what a start packet asks for; 0 is nothing known.
abbrev pub enable_request : ℕ
enable_request = 1

abbrev pub ascii_login : ℕ
ascii_login = 2

abbrev pub pap_login : ℕ
pap_login = 3

abbrev pub chap_login : ℕ
chap_login = 4

abbrev pub arap_login : ℕ
arap_login = 5

abbrev pub pap_out : ℕ
pap_out = 6

abbrev pub chap_out : ℕ
chap_out = 7

abbrev pub ascii_chpass : ℕ
ascii_chpass = 9

abbrev pub mschap_login : ℕ
mschap_login = 12

abbrev pub mschap_out : ℕ
mschap_out = 13

abbrev pub chap_password : ℕ
chap_password = 14

abbrev pub pap_password : ℕ
pap_password = 15

-- TAC_PLUS_VER_0 and TAC_PLUS_VER_1.
abbrev pub ver_0 : ℕ
ver_0 = 192

abbrev pub ver_1 : ℕ
ver_1 = 193

-- `class TacacsServerAuthentication`.
pub record Authen : Type 0 where
  pub user : Text
  pub port : Text
  pub rem_addr : Text
  pub enable : Text
  pub request : ℕ
  pub en_req : ℕ
  pub pwstring : Text
  pub chap : Bool

-- The constructor.
abbrev pub new_authen : Authen
new_authen = record {
  user = [];
  port = [];
  rem_addr = [];
  enable = [];
  request = 0;
  en_req = 0;
  pwstring = [];
  chap = false;
}

-- The cascade of tests at the head of `get_start`, of which the last one that holds decides.
unfoldable pub request_type : ℕ → ℕ → ℕ → ℕ → ℕ
request_type version action authen_type service =
    if (action == 3) && ((authen_type == 2) && (version == ver_0))
    then pap_password
    else if (action == 3) && ((authen_type == 3) && (version == ver_0))
    then chap_password
    else if (action == 1) && ((authen_type == 4) && (version == ver_1))
    then arap_login
    else if (action == 4) && ((authen_type == 5) && (version == ver_1))
    then mschap_out
    else if (action == 1) && ((authen_type == 5) && (version == ver_1))
    then mschap_login
    else if (action == 4) && ((authen_type == 3) && (version == ver_1))
    then chap_out
    else if (action == 1) && ((authen_type == 3) && (version == ver_1))
    then chap_login
    else if (action == 4) && ((authen_type == 2) && (version == ver_1))
    then pap_out
    else if (action == 1) && ((authen_type == 2) && (version == ver_1))
    then pap_login
    else if (action == 1) && (((service == 1) || (service == 10)) && (authen_type == 1))
    then ascii_login
    else if (action == 2) && (authen_type == 1)
    then ascii_chpass
    else if (action == 1) && (service == 2)
    then enable_request
    else 0

-- What `get_start` leaves: the fields that it stored, its result, and the packet's data.
pub record Started : Type 0 where
  pub authen : Authen
  pub res : ℕ
  pub data_ : Text

unfoldable pub get_start : Hdr → List ℕ → Authen → Started
unfolding text_at byte_at request_type
get_start hdr body a =
    let n_user = byte_at body 4 in
    let n_port = byte_at body 5 in
    let n_addr = byte_at body 6 in
    let n_data = byte_at body 7 in
    let named = record a { user = text_at body 8 n_user } in
    let placed = record named { port = text_at body (8 + n_user) n_port } in
    let addressed = record placed { rem_addr = text_at body (8 + n_user + n_port) n_addr } in
    if not ((hdr.version == ver_0) || (hdr.version == ver_1))
    then record { authen = a; res = 0; data_ = [] }
    else if not (hdr.seq_no == 1)
    then record { authen = a; res = 0; data_ = [] }
    else if ltb 32 n_user
    then record { authen = a; res = 0; data_ = [] }
    else if ltb 32 n_port
    then record { authen = named; res = 0; data_ = [] }
    else if ltb 32 n_addr
    then record { authen = placed; res = 0; data_ = [] }
    else if ltb 254 n_data
    then record { authen = addressed; res = 0; data_ = [] }
    else record {
      authen = addressed;
      res = request_type hdr.version (byte_at body 0) (byte_at body 2) (byte_at body 3);
      data_ = text_at body (8 + n_user + n_port + n_addr) n_data;
    }

-- The message of a CONTINUE packet, of at most `maxlen` bytes, and its flags. (-1 is `none`.)
unfoldable pub get_cont : Hdr → List ℕ → ℕ → Option (Text × ℕ)
unfolding text_at byte_at
get_cont hdr body maxlen =
    let n_msg = short_at body 0 in
    let n_data = short_at body 2 in
    if not (hdr.datalength == 5 + n_msg + n_data)
    then none
    else if ltb maxlen n_msg
    then none
    else if ltb 254 n_data
    then none
    else some (text_at body 5 n_msg, byte_at body 4)
