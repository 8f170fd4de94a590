-- ===== src/Tacacs/Client.antt =====
-- What a client sends to authenticate: `authen_send_start` and `authen_send_cont` of
-- `TacacsClient`.
pub mod Starts
pub mod Body
pub mod RoundTrip
pub mod Continues
mod Examples
use tacppd.Common.{
  ℕ, zero, suc, ◌+◌, ◌-◌, ◌*◌, ◌/◌, ◌%◌, Bool, true, false, ◌||◌, ◌&&◌, not, Option, none, some,
  List, [], ◌∷◌, ◌++◌, Text, length, take, if◌then◌else◌, ◌==◌, ltb, leb, is_empty,
}
use tacppd.Tacacs.Header.{Hdr, clear}
use tacppd.Tacacs.Packet.{TacacsPacket, write_packet}
use tacppd.Tacacs.Intake.{
  enable_request, ascii_login, pap_login, chap_login, arap_login, pap_out, chap_out, ascii_chpass,
  mschap_login, mschap_out, ver_0, ver_1,
}

-- TAC_PLUS_AUTHEN.
abbrev pub authen_type : ℕ
authen_type = 1

unfoldable pub start_version : ℕ → ℕ
start_version type = if (type == enable_request) || (type == ascii_login) then ver_0 else ver_1

-- The fields `action`, `authen_type` and `service` of the packet, 0 where none is set.
unfoldable pub start_fields : ℕ → ℕ × ℕ × ℕ
start_fields type =
    if type == enable_request
    then (1, 0, 2)
    else if type == ascii_login
    then (1, 1, 1)
    else if type == pap_login
    then (1, 2, 0)
    else if type == pap_out
    then (4, 2, 0)
    else if type == chap_login
    then (1, 3, 0)
    else if type == chap_out
    then (4, 3, 0)
    else if type == mschap_login
    then (1, 5, 0)
    else if type == mschap_out
    then (4, 5, 0)
    else if type == arap_login
    then (1, 4, 0)
    else if type == ascii_chpass
    then (2, 1, 0)
    else (0, 0, 0)

-- A copy of 31 bytes at most, in the place of the whole text.
unfoldable pub cut : Text → List ℕ
cut s = if ltb 31 (length s) then take 31 s ++ 0 ∷ [] else s

unfoldable pub zeros : ℕ → List ℕ
zeros zero = []
zeros (suc n) = 0 ∷ zeros n

-- The bytes behind the address, as many as `datalength` counts: of an MS-CHAP login none is filled.
unfoldable pub start_data : ℕ → Text → List ℕ
unfolding zeros
start_data type data_ =
    if type == chap_login
    then 1 ∷ data_
    else if type == mschap_login
    then zeros (1 + length data_)
    else if (type == pap_login) || (type == arap_login)
    then data_
    else []

unfoldable pub start_body : Text → ℕ → Text → Text → Text → List ℕ
unfolding start_fields cut start_data
start_body addr type username port data_ =
    let (action, kind, service) = start_fields type in
    action
    ∷ 0
    ∷ kind
    ∷ service
    ∷ (length username % 256)
    ∷ (length port % 256)
    ∷ (length addr % 256)
    ∷ (length data_ % 256)
    ∷ (cut username ++ (cut port ++ (cut addr ++ start_data type data_)))

-- A length byte of more than 32 is refused.
abbrev pub too_wide : Text → Bool
too_wide s = ltb 32 (length s % 256)

-- The packet with the bytes for the socket; `refused`, where the function returns false before it
-- writes, but has counted its number up; or a copy that runs over the buffer, of 244 bytes behind the header. (A copy of a name,
-- port or address fills 31 bytes with zeros; that of the data sets a 0 behind it.)
pub data Sent : Type 0 where
  refused : TacacsPacket → Sent
  overrun : Sent
  sent : TacacsPacket → List ℕ → Sent

unfoldable pub fits : Text → ℕ → Text → Text → Text → Bool
unfolding start_data
fits addr type username port data_ =
    let n_user = length username in
    let n_port = length port in
    (is_empty port || leb (8 + n_user + 31) 244)
    && ((is_empty addr || leb (8 + n_user + n_port + 31) 244)
        && leb (8 + n_user + n_port + length addr + length (start_data type data_)) 243)

unfoldable pub start_header : TacacsPacket → Text → ℕ → Text → Text → Text → Hdr
unfolding start_version start_data
start_header t addr type username port data_ = record {
  version = start_version type;
  type = authen_type;
  seq_no = (t.seq_no + 1) % 256;
  encryption = clear;
  session_id = t.session_id;
  datalength = 8 + length username + length port + length addr + length (start_data type data_);
}

unfoldable pub authen_send_start :
    (List ℕ → List ℕ) → TacacsPacket → ℕ → Text → Text → Text → ℕ → Text → Sent
unfolding start_header start_body fits write_packet
authen_send_start md5 t now our_addr port username type data_ =
    let addr = take 56 our_addr in
    let (t', bytes) =
      write_packet md5 (record t { seq_no = t.seq_no + 1 }) now
        (start_header t addr type username port data_) (start_body addr type username port data_) in
    if too_wide username || (too_wide port || too_wide addr)
    then refused (record t { seq_no = t.seq_no + 1 })
    else if fits addr type username port data_
    then sent t' bytes
    else overrun

-- The body of a CONTINUE packet. Its flags are 0.
unfoldable pub cont_body : Text → Text → List ℕ
cont_body user_msg data_ =
    (length user_msg / 256 % 256)
    ∷ (length user_msg % 256)
    ∷ (length data_ / 256 % 256)
    ∷ (length data_ % 256)
    ∷ 0
    ∷ (user_msg ++ data_)

unfoldable pub cont_header : TacacsPacket → Text → Text → Hdr
cont_header t user_msg data_ = record {
  version = ver_0;
  type = authen_type;
  seq_no = (t.seq_no + 1) % 256;
  encryption = clear;
  session_id = t.session_id;
  datalength = 5 + length user_msg + length data_;
}

-- Of a body that runs over its 500 bytes, with the 0 behind it, nothing is said (`none`).
unfoldable pub authen_send_cont :
    (List ℕ → List ℕ) → TacacsPacket → ℕ → Text → Text → Option (TacacsPacket × List ℕ)
unfolding cont_header cont_body write_packet
authen_send_cont md5 t now user_msg data_ =
    if leb (length (cont_body user_msg data_)) 499
    then some (
        write_packet md5 (record t { seq_no = t.seq_no + 1 }) now (cont_header t user_msg data_)
          (cont_body user_msg data_))
    else none
