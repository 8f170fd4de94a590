-- ===== src/Tacacs/Request.antt =====
-- The authorization request on the wire, `struct author`: `author_send_request` of `TacacsClient`
-- and `get_request` of `TacacsServerAuthorization`.
pub mod Reading
pub mod Signed
pub mod RoundTrip
mod Examples
use tacppd.Common.{
  ℕ, ◌+◌, ◌-◌, ◌*◌, ◌%◌, ◌^◌, Bool, true, false, ◌||◌, not, Option, none, some, List, [], ◌∷◌, ◌++◌,
  map, Text, length, take, drop, if◌then◌else◌, ◌==◌, ltb, leb,
}
use tacppd.Tacacs.Header.{Hdr, clear}
use tacppd.Tacacs.Packet.{TacacsPacket, write_packet}
use tacppd.Tacacs.Intake.{ver_0}
use tacppd.Tacacs.Wire.{byte_at, text_at, bytes_at, concat, lengths, split_texts, sum}

-- TAC_PLUS_AUTHOR.
abbrev pub author_type : ℕ
author_type = 2

-- USERNAME_LEN, PORT_LEN and REM_ADDR_LEN.
abbrev pub field_size : ℕ
field_size = 32

abbrev pub max_avp : ℕ
max_avp = 100

-- What the request says: the first four fields as numbers, then the texts.
pub record Request : Type 0 where
  pub method : ℕ
  pub priv_lvl : ℕ
  pub authen_type : ℕ
  pub authen_service : ℕ
  pub user : Text
  pub port : Text
  pub rem_addr : Text
  pub avpair : List Text

-- `struct author` and what stands behind it.
unfoldable pub encode_author : Request → List ℕ
unfolding concat lengths
encode_author r =
    (r.method % 256)
    ∷ (r.priv_lvl % 256)
    ∷ (r.authen_type % 256)
    ∷ (r.authen_service % 256)
    ∷ (length r.user % 256)
    ∷ (length r.port % 256)
    ∷ (length r.rem_addr % 256)
    ∷ (length r.avpair % 256)
    ∷ (lengths r.avpair ++ (r.user ++ (r.port ++ (r.rem_addr ++ concat r.avpair))))

-- The texts that `author_send_request` sends: its own address, of at most 19 bytes, and of each
-- pair 255 bytes at most.
unfoldable pub clip : Text → Request → Request
clip our_addr r = record r { rem_addr = take 19 our_addr; avpair = map (take 255) r.avpair }

unfoldable pub author_header : TacacsPacket → Request → Hdr
unfolding concat
author_header t r = record {
  version = ver_0;
  type = author_type;
  seq_no = (t.seq_no + 1) % 256;
  encryption = clear;
  session_id = t.session_id;
  datalength =
      8
      + length r.avpair
      + length r.user
      + length r.port
      + length r.rem_addr
      + length (concat r.avpair);
}

-- The packet and the bytes for the socket. The buffer has 244 bytes for the body and the 0 that the
-- last `strcpy` sets behind it: nothing is said of a longer one (`none`), which C++ leaves undefined.
unfoldable pub author_send_request :
    (List ℕ → List ℕ) → TacacsPacket → ℕ → Text → Request → Option (TacacsPacket × List ℕ)
unfolding clip author_header encode_author write_packet
author_send_request md5 t now our_addr r =
    let sent = clip our_addr r in
    let body = encode_author sent in
    if leb (length body) 243
    then some
        (write_packet md5 (record t { seq_no = t.seq_no + 1 }) now (author_header t sent) body)
    else none

-- A length as a signed `char`, in the 32 bits of an `int`.
unfoldable pub signed : ℕ → ℕ
signed b = if ltb b 128 then b else (2 ^ 32 - 256) + b

-- Some length that is negative as a signed `char`.
unfoldable pub any_negative : List ℕ → Bool
any_negative [] = false
any_negative (b ∷ bs) = not (ltb b 128) || any_negative bs

-- `get_request` of the server: a refusal; a copy that runs over an array, which C++ leaves
-- undefined; or the request.
pub data Asked : Type 0 where
  refused overrun : Asked
  asked : Request → Asked

-- The test on lengths: those of the pairs count as signed.
unfoldable pub expected_length : List ℕ → ℕ
unfolding byte_at bytes_at signed sum
expected_length body =
    (8
      + byte_at body 7
      + byte_at body 4
      + byte_at body 5
      + byte_at body 6
      + sum (map signed (bytes_at body 8 (byte_at body 7))))
    % 2 ^ 32

-- The request that is stored, when the tests let it pass.
unfoldable pub read_author : List ℕ → Request
unfolding byte_at text_at bytes_at split_texts
read_author body =
    let n_arg = byte_at body 7 in
    let n_user = byte_at body 4 in
    let n_port = byte_at body 5 in
    let n_addr = byte_at body 6 in
    record {
      method = byte_at body 0;
      priv_lvl = byte_at body 1;
      authen_type = byte_at body 2;
      authen_service = byte_at body 3;
      user = text_at body (8 + n_arg) n_user;
      port = text_at body (8 + n_arg + n_user) n_port;
      rem_addr = text_at body (8 + n_arg + n_user + n_port) n_addr;
      avpair =
          split_texts (bytes_at body 8 n_arg) (drop (8 + n_arg + n_user + n_port + n_addr) body);
    }

-- Some length makes `get_request` write behind an array, or copy a negative number of bytes.
unfoldable pub runs_over : List ℕ → Bool
unfolding byte_at bytes_at any_negative
runs_over body =
    leb field_size (byte_at body 4)
    || (leb field_size (byte_at body 5)
        || (leb field_size (byte_at body 6)
            || (leb max_avp (byte_at body 7) || any_negative (bytes_at body 8 (byte_at body 7)))))

unfoldable pub get_request : Hdr → List ℕ → Asked
unfolding expected_length read_author runs_over
get_request hdr body =
    if not (hdr.type == author_type)
    then refused
    else if not (hdr.seq_no == 1)
    then refused
    else if not (hdr.datalength == expected_length body)
    then refused
    else if runs_over body
    then overrun
    else asked (read_author body)
