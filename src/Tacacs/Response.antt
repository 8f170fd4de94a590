-- ===== src/Tacacs/Response.antt =====
-- The reply of an authorization on the wire, `struct author_reply`: `send_response` of
-- `TacacsServerAuthorization` and `author_get_response` of `TacacsClient`. Its two lengths are stored
-- without `htons`, as the machine has them: here with the low byte first.
pub mod Reading
pub mod RoundTrip
mod Examples
use tacppd.Common.{
  ℕ, ◌+◌, ◌*◌, ◌/◌, ◌%◌, ◌^◌, Option, none, some, List, [], ◌∷◌, ◌++◌, Text, length, drop, map,
  if◌then◌else◌, ◌==◌, leb, not, is_empty,
}
use tacppd.Tacacs.Header.{Hdr, clear}
use tacppd.Tacacs.Packet.{TacacsPacket, write_packet}
use tacppd.Tacacs.Intake.{ver_0}
use tacppd.Tacacs.Wire.{byte_at, text_at, bytes_at, concat, lengths, split_texts, sum}
use tacppd.Tacacs.Request.{author_type, signed, any_negative}

-- TAC_PLUS_AUTHOR_STATUS_ERROR.
abbrev pub status_error : ℕ
status_error = 17

-- The pairs before the first empty one.
unfoldable pub before_empty : List Text → List Text
before_empty [] = []
before_empty (s ∷ ss) = let rest = before_empty ss in if is_empty s then [] else s ∷ rest

-- The bytes that `datalength` counts.
unfoldable pub response_body : ℕ → Text → Text → List Text → List ℕ
unfolding lengths concat
response_body status server_msg data_ pairs =
    (status % 256)
    ∷ (length pairs % 256)
    ∷ (length server_msg % 256)
    ∷ (length server_msg / 256 % 256)
    ∷ (length data_ % 256)
    ∷ (length data_ / 256 % 256)
    ∷ (lengths pairs ++ (server_msg ++ (data_ ++ concat pairs)))

unfoldable pub response_header : TacacsPacket → Text → Text → List Text → Hdr
unfolding concat
response_header t server_msg data_ pairs = record {
  version = ver_0;
  type = author_type;
  seq_no = (t.seq_no + 1) % 256;
  encryption = clear;
  session_id = t.session_id;
  datalength = 6 + length pairs + length server_msg + length data_ + length (concat pairs);
}

-- The texts of all pairs are put into the buffer, also those behind an empty one. Of a body that runs
-- over its 500 bytes, with the 0 behind it, nothing is said (`none`).
unfoldable pub send_response :
    (List ℕ → List ℕ)
    → TacacsPacket
    → ℕ
    → ℕ
    → Text
    → Text
    → List Text
    → Option (TacacsPacket × List ℕ)
unfolding before_empty response_body response_header concat write_packet
send_response md5 t now status server_msg data_ avpair =
    let pairs = before_empty avpair in
    if leb (6 + length pairs + length server_msg + length data_ + length (concat avpair)) 499
    then some (
        write_packet md5 (record t { seq_no = t.seq_no + 1 }) now
          (response_header t server_msg data_ pairs) (response_body status server_msg data_ pairs))
    else none

-- What `author_get_response` gives: 0, with nothing stored; a status, with no pair and the texts left
-- as they were; a copy of a negative number of bytes, which C++ leaves undefined; or all of it.
pub data Response : Type 0 where
  refused overrun : Response
  status_only : ℕ → Response
  response : ℕ → Text → Text → List Text → Response

unfoldable pub low_short_at : List ℕ → ℕ → ℕ
unfolding byte_at
low_short_at body i = byte_at body i + 256 * byte_at body (i + 1)

-- The lengths of the pairs count as signed.
unfoldable pub response_length : List ℕ → ℕ
unfolding low_short_at byte_at bytes_at signed sum
response_length body =
    (6
      + byte_at body 1
      + low_short_at body 2
      + low_short_at body 4
      + sum (map signed (bytes_at body 6 (byte_at body 1))))
    % 2 ^ 32

unfoldable pub author_get_response : Hdr → List ℕ → Response
unfolding response_length low_short_at byte_at bytes_at text_at split_texts any_negative
author_get_response hdr body =
    let status = byte_at body 0 in
    let n_arg = byte_at body 1 in
    let n_msg = low_short_at body 2 in
    let n_data = low_short_at body 4 in
    if not (hdr.type == author_type)
    then refused
    else if not (hdr.seq_no == 2)
    then refused
    else if status == status_error
    then status_only status
    else if not (hdr.datalength == response_length body)
    then status_only status
    else if any_negative (bytes_at body 6 n_arg)
    then overrun
    else response status (text_at body (6 + n_arg) n_msg) (text_at body (6 + n_arg + n_msg) n_data)
        (split_texts (bytes_at body 6 n_arg) (drop (6 + n_arg + n_msg + n_data) body))
