-- ===== src/Tacacs/Acct.antt =====
-- The request of accounting on the wire, `struct acct`, which is `struct author` behind a byte of
-- flags: `account_send_request` of `TacacsClient` and `get_request` of `TacacsServerAccounting`.
pub mod RoundTrip
pub mod Reply
pub mod Process
mod Examples
use tacppd.Common.{
  ℕ, ◌+◌, ◌^◌, ◌%◌, Bool, ◌||◌, not, Option, none, some, List, [], ◌∷◌, ◌++◌, Text, length, take,
  drop, if◌then◌else◌, ◌==◌, leb,
}
use tacppd.Tacacs.Header.{Hdr, clear}
use tacppd.Tacacs.Packet.{TacacsPacket, write_packet}
use tacppd.Tacacs.Intake.{ver_0}
use tacppd.Tacacs.Wire.{byte_at, bytes_at, concat}
use tacppd.Tacacs.Request.{
  Request, field_size, clip, encode_author, expected_length, any_negative, read_author,
}

-- TAC_PLUS_ACCT.
abbrev pub acct_type : ℕ
acct_type = 3

-- TAC_PLUS_ACCT_FLAG_START and TAC_PLUS_ACCT_FLAG_STOP.
abbrev pub flag_start : ℕ
flag_start = 2

abbrev pub flag_stop : ℕ
flag_stop = 4

unfoldable pub encode_acct : ℕ → Request → List ℕ
unfolding encode_author
encode_acct flags r = (flags % 256) ∷ encode_author r

unfoldable pub acct_header : TacacsPacket → Request → Hdr
unfolding concat
acct_header t r = record {
  version = ver_0;
  type = acct_type;
  seq_no = (t.seq_no + 1) % 256;
  encryption = clear;
  session_id = t.session_id;
  datalength =
      9
      + length r.avpair
      + length r.user
      + length r.port
      + length r.rem_addr
      + length (concat r.avpair);
}

-- The byte of the flags stays 0: `flag` is used nowhere. Of a body that runs over its 500 bytes, with
-- the 0 behind it, nothing is said (`none`).
unfoldable pub account_send_request :
    (List ℕ → List ℕ) → TacacsPacket → ℕ → Text → ℕ → Request → Option (TacacsPacket × List ℕ)
unfolding clip acct_header encode_acct write_packet
account_send_request md5 t now our_addr flag r =
    let sent = clip our_addr r in
    let body = encode_acct 0 sent in
    if leb (length body) 499
    then some (write_packet md5 (record t { seq_no = t.seq_no + 1 }) now (acct_header t sent) body)
    else none

-- `get_request`: 0 with nothing read; a copy that runs over an array, which C++ leaves undefined; or
-- the flags and the request.
pub data Accounted : Type 0 where
  refused overrun : Accounted
  accounted : ℕ → Request → Accounted

-- Some length makes `get_request` write behind an array of `process` or leave it without its 0, or
-- copy a negative number of bytes.
unfoldable pub acct_runs_over : List ℕ → Bool
unfolding byte_at bytes_at any_negative
acct_runs_over fields =
    leb field_size (byte_at fields 4)
    || (leb field_size (byte_at fields 5)
        || (leb field_size (byte_at fields 6)
            || any_negative (bytes_at fields 8 (byte_at fields 7))))

unfoldable pub get_request : Hdr → List ℕ → Accounted
unfolding byte_at expected_length acct_runs_over read_author
get_request hdr body =
    let fields = drop 1 body in
    if not (hdr.type == acct_type)
    then refused
    else if not (hdr.seq_no == 1)
    then refused
    else if not (hdr.datalength == (1 + expected_length fields) % 2 ^ 32)
    then refused
    else if acct_runs_over fields
    then overrun
    else accounted (byte_at body 0) (read_author fields)
