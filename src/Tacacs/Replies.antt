-- ===== src/Tacacs/Replies.antt =====
-- The reply of an authentication on the wire, `struct authen_reply`: `send_reply` of
-- `TacacsServerAuthentication` and `authen_get_reply` of `TacacsClient`. The arrays of the caller are
-- the bytes that stand in memory from their start on, with zeros behind.
pub mod RoundTrip
mod Examples
use tacppd.Common.{
  ℕ, ◌+◌, ◌*◌, ◌/◌, ◌%◌, Option, none, some, List, [], ◌∷◌, ◌++◌, Text, length, drop, if◌then◌else◌,
  ◌==◌, leb, take, ltb,
}
use tacppd.Tacacs.Header.{Hdr, clear}
use tacppd.Tacacs.Packet.{TacacsPacket, write_packet}
use tacppd.Tacacs.Wire.{byte_at, short_at, until_nul, pad}
use tacppd.Tacacs.Client.{authen_type}

unfoldable pub reply_body : ℕ → Text → Text → ℕ → List ℕ
reply_body status server_msg data_ flag =
    (status % 256)
    ∷ (flag % 256)
    ∷ (length server_msg / 256 % 256)
    ∷ (length server_msg % 256)
    ∷ (length data_ / 256 % 256)
    ∷ (length data_ % 256)
    ∷ (server_msg ++ data_)

unfoldable pub reply_header : TacacsPacket → Text → Text → ℕ → Hdr
reply_header t server_msg data_ ver = record {
  version = ver;
  type = authen_type;
  seq_no = (t.seq_no + 1) % 256;
  encryption = clear;
  session_id = t.session_id;
  datalength = 6 + length server_msg + length data_;
}

-- Of a body that runs over its 500 bytes, with the 0 behind it, nothing is said (`none`).
unfoldable pub send_reply :
    (List ℕ → List ℕ) → TacacsPacket → ℕ → ℕ → Text → Text → ℕ → ℕ → Option (TacacsPacket × List ℕ)
unfolding reply_header reply_body write_packet
send_reply md5 t now status server_msg data_ flag ver =
    if leb (length (reply_body status server_msg data_ flag)) 499
    then some (
        write_packet md5 (record t { seq_no = t.seq_no + 1 }) now
          (reply_header t server_msg data_ ver) (reply_body status server_msg data_ flag))
    else none

-- Some bytes over those of an array.
unfoldable pub overwrite : List ℕ → List ℕ → List ℕ
overwrite new old = new ++ drop (length new) old

-- `bzero(server, sizeof(server))`, of a pointer: eight bytes.
unfoldable pub cleared : List ℕ → List ℕ
unfolding pad overwrite
cleared array = overwrite (pad 8 []) array

-- `if(n > 0) strncpy(array, s, n)`.
unfoldable pub copied : List ℕ → List ℕ → ℕ → List ℕ
unfolding pad until_nul overwrite
copied array s n = overwrite (pad n (until_nul (take n s))) array

-- What the call ends with: a number that it returns, or the `unsigned char` that it throws, for
-- which its `catch(int)` is no handler.
pub data Outcome : Type 0 where
  returned uncaught : ℕ → Outcome

pub record Answer : Type 0 where
  pub outcome : Outcome
  pub server : List ℕ
  pub datas : List ℕ

unfoldable pub authen_get_reply : Hdr → List ℕ → List ℕ → List ℕ → Answer
unfolding byte_at cleared copied
authen_get_reply hdr body server datas =
    let mlen = short_at body 2 in
    let dlen = short_at body 4 in
    if hdr.datalength == 6 + mlen + dlen
    then record {
      outcome = uncaught (byte_at body 0);
      server = copied (cleared server) (drop 6 body) mlen;
      datas = copied (cleared datas) (drop (6 + mlen) body) dlen;
    }
    else record { outcome = returned 0; server = cleared server; datas = cleared datas }
