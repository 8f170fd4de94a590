-- ===== src/Tacacs/Acct/Reply.antt =====
-- The reply of accounting on the wire, `struct acct_reply`: `send_reply` of `TacacsServerAccounting`
-- and `account_get_reply` of `TacacsClient`. The lengths are stored as the machine has them.
use tacppd.Common.{
  ◌≡◌, refl, sym, ap, ◌∙◌, ℕ, ◌+◌, ◌*◌, ◌/◌, ◌%◌, ◌<◌, ◌≤◌, ◌^◌, Option, none, some, List, [], ◌∷◌,
  ◌++◌, Text, length, length-append, drop, drop-length_append, All, All-append, arith, true, false,
  if◌then◌else◌, ◌==◌, leb, not,
}
use mathlib.Core.List.{append-nil}
use tacppd.Tacacs.Header.{Hdr, clear}
use tacppd.Tacacs.Crypt.Bytes.{IsByte}
use tacppd.Tacacs.Crypt.Involution.{GivesBytes}
use tacppd.Tacacs.Packet.{TacacsPacket, write_packet, receive, is_major}
use tacppd.Tacacs.Packet.RoundTrip.{sent_header, receive-write_packet}
use tacppd.Tacacs.Intake.{ver_0}
use tacppd.Tacacs.Wire.{byte_at, until_nul}
use tacppd.Tacacs.Wire.Texts.{IsText, IsText-bytes, drop_behind}
use tacppd.Tacacs.Replies.{cleared, copied}
use tacppd.Tacacs.Replies.RoundTrip.{IsZeros, cleared-IsZeros, until_nul-copied}
use tacppd.Tacacs.Response.{low_short_at}
use tacppd.Tacacs.Acct.{acct_type}

unfoldable pub acct_reply_body : Text → Text → ℕ → List ℕ
acct_reply_body server_msg data_ status =
    (length server_msg % 256)
    ∷ (length server_msg / 256 % 256)
    ∷ (length data_ % 256)
    ∷ (length data_ / 256 % 256)
    ∷ (status % 256)
    ∷ (server_msg ++ data_)

unfoldable pub acct_reply_header : TacacsPacket → Text → Text → Hdr
acct_reply_header t server_msg data_ = record {
  version = ver_0;
  type = acct_type;
  seq_no = (t.seq_no + 1) % 256;
  encryption = clear;
  session_id = t.session_id;
  datalength = 5 + length server_msg + length data_;
}

-- Of a body that runs over its 500 bytes, with the 0 behind it, nothing is said (`none`).
unfoldable pub send_acct_reply :
    (List ℕ → List ℕ) → TacacsPacket → ℕ → Text → Text → ℕ → Option (TacacsPacket × List ℕ)
unfolding acct_reply_header acct_reply_body write_packet
send_acct_reply md5 t now server_msg data_ status =
    if leb (length (acct_reply_body server_msg data_ status)) 499
    then some (
        write_packet md5 (record t { seq_no = t.seq_no + 1 }) now
          (acct_reply_header t server_msg data_) (acct_reply_body server_msg data_ status))
    else none

-- The status with the two arrays; or the text that is thrown, a `const char*`, for which the
-- `catch(char*)` of the function is no handler.
pub data AcctAnswer : Type 0 where
  uncaught : AcctAnswer
  answered : ℕ → List ℕ → List ℕ → AcctAnswer

unfoldable pub account_get_reply : Hdr → List ℕ → List ℕ → List ℕ → AcctAnswer
unfolding byte_at low_short_at cleared copied
account_get_reply hdr body server_msg data_ =
    let mlen = low_short_at body 0 in
    let dlen = low_short_at body 2 in
    if not (hdr.type == acct_type)
    then uncaught
    else if not (hdr.seq_no == 2)
    then uncaught
    else if not (hdr.datalength == 5 + mlen + dlen)
    then uncaught
    else answered (byte_at body 4) (copied (cleared server_msg) (drop 5 body) mlen)
        (copied (cleared data_) (drop (5 + mlen) body) dlen)

length-acct_reply_body :
    (m d : Text) (status : ℕ) → length (acct_reply_body m d status) ≡ 5 + length m + length d
unfolding acct_reply_body
length-acct_reply_body m d status = omega (arith, length-append m d)

acct_reply_body-bytes :
    (m d : Text) (status : ℕ) → IsText m → IsText d → All IsByte (acct_reply_body m d status)
unfolding acct_reply_body
acct_reply_body-bytes m d status h k = (
  omega arith,
  (
    omega arith,
    (
      omega arith,
      (omega arith, (omega arith, All-append IsByte m d (IsText-bytes m h) (IsText-bytes d k))),
    ),
  ),
)

low_short : (n : ℕ) → n ≤ 499 → n % 256 + 256 * (n / 256 % 256) ≡ n
low_short n h = omega arith

-- The arrays that the client gets, when its own hold zeros.
module _ (m d : Text) (status : ℕ) (hm : IsText m) (hd : IsText d)
    (room : 5 + length m + length d ≤ 499) where
  abbrev body : List ℕ
  body = acct_reply_body m d status

  mlen : low_short_at body 0 ≡ length m
  unfolding low_short_at byte_at acct_reply_body
  mlen = low_short (length m) (omega arith)

  dlen : low_short_at body 2 ≡ length d
  unfolding low_short_at byte_at acct_reply_body
  dlen = low_short (length d) (omega arith)

  behind : drop (5 + length m) body ≡ d
  unfolding acct_reply_body
  behind =
      drop_behind (5 + length m) (length m)
        ((length m % 256)
          ∷ (length m / 256 % 256)
          ∷ (length d % 256)
          ∷ (length d / 256 % 256)
          ∷ (status % 256)
          ∷ [])
        (m ++ d) (omega arith)
      ∙ drop-length_append m d

  account_get_reply-acct_reply_body :
      (hdr : Hdr) (server_msg data_ : List ℕ)
      → hdr.type ≡ acct_type
      → hdr.seq_no ≡ 2
      → hdr.datalength ≡ 5 + length m + length d
      → status < 256
      → account_get_reply hdr body server_msg data_
        ≡ answered status
            (copied (cleared server_msg) (m ++ d) (length m))
            (copied (cleared data_) d (length d))
  unfolding account_get_reply
  account_get_reply-acct_reply_body hdr server_msg data_ type seq size small =
      let status' : byte_at body 4 ≡ status = unfold byte_at acct_reply_body in omega arith in
      let front : drop 5 body ≡ m ++ d = unfold acct_reply_body in refl in
      let known : (not (hdr.type == acct_type)) ≡ false = ground (arith, type) in
      let second : (not (hdr.seq_no == 2)) ≡ false = ground (arith, seq) in
      let right : (not (hdr.datalength == 5 + length m + length d)) ≡ false =
        ground (arith, size) in
      rw (mlen, dlen, known, second, right, behind, front, status') refl

-- A reply of accounting that the server sends after one packet, with two texts that fit its buffer
-- together, to a client with the same key that has sent one packet and gives arrays of zeros: the
-- client's call returns the status, and the two texts stand in the arrays. What follows on the wire
-- stays. The digest is bytes, and the number of the session has 32 bits.
pub receive-send_acct_reply :
    (md5 : List ℕ → List ℕ) (t s : TacacsPacket) (now later status : ℕ) (m d : Text)
    → (server_msg data_ rest : List ℕ) → GivesBytes md5
    → IsText m
    → IsText d
    → 5 + length m + length d ≤ 499
    → status < 256
    → IsZeros server_msg
    → IsZeros data_
    → t.session_id < 2 ^ 32
    → s.key ≡ t.key
    → t.seq_no ≡ 1
    → s.seq_no ≡ 1
    → (out : TacacsPacket × List ℕ) × ((got : List ℕ × List ℕ) × ((send_acct_reply md5 t now m d
              status
            ≡ some out)
          × (receive
                (λ hdr body. account_get_reply hdr body server_msg data_)
                md5
                s
                later
                (out.1 ++ rest)
              ≡ some (answered status got.0 got.1, rest))
          × (until_nul got.0 ≡ m)
          × (until_nul got.1 ≡ d)))
unfolding acct_reply_header send_acct_reply is_major
receive-send_acct_reply md5 t s now later status m d server_msg data_ rest g hm hd room small zs zd
      id key first waits =
    let hdr = acct_reply_header t m d in
    let body = acct_reply_body m d status in
    let long = length-acct_reply_body m d status in
    let fits : leb (length body) 499 ≡ true = ground (arith, long, room) in
    let whole : d ≡ d ++ [] = sym (append-nil d) in
    (
      write_packet md5 (record t { seq_no = t.seq_no + 1 }) now hdr body,
      (
        (copied (cleared server_msg) (m ++ d) (length m), copied (cleared data_) d (length d)),
        (
          rw fits refl,
          receive-write_packet (λ h b. account_get_reply h b server_msg data_) md5
                (record t { seq_no = t.seq_no + 1 }) s now later hdr body rest g
                (acct_reply_body-bytes m d status hm hd) long (omega arith) id refl key
                (omega arith)
              ∙ ap (λ a. some (a, rest))
                  (account_get_reply-acct_reply_body m d status hm hd room (sent_header t.key hdr)
                    server_msg data_ refl (omega arith) refl small),
          until_nul-copied (cleared server_msg) m d hm (cleared-IsZeros server_msg zs),
          ap (λ x. until_nul (copied (cleared data_) x (length d))) whole
              ∙ until_nul-copied (cleared data_) d [] hd (cleared-IsZeros data_ zd),
        ),
      ),
    )
