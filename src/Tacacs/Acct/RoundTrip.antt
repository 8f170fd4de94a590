-- ===== src/Tacacs/Acct/RoundTrip.antt =====
-- A request of accounting on its way to the server.
use tacppd.Common.{
  ◌≡◌, refl, ap, ◌∙◌, ℕ, ◌+◌, ◌<◌, ◌≤◌, ◌^◌, ◌%◌, List, ◌++◌, Text, length, arith, true, false, leb,
  some, none, ◌==◌, not, if◌then◌else◌,
}
use tacppd.Tacacs.Header.{Hdr}
use tacppd.Tacacs.Crypt.Involution.{GivesBytes}
use tacppd.Tacacs.Packet.{TacacsPacket, write_packet, receive, is_major}
use tacppd.Tacacs.Packet.RoundTrip.{sent_header, receive-write_packet}
use tacppd.Tacacs.Request.{Request, encode_author, runs_over}
use tacppd.Tacacs.Request.Reading.{
  IsSendable, length-encode_author, read_author-encode_author, expected_length-encode_author,
  runs_over-encode_author,
}
use tacppd.Tacacs.Request.RoundTrip.{from_address, clip_lem, encode_author-bytes}
use tacppd.Tacacs.Acct.{
  acct_type, encode_acct, acct_header, account_send_request, acct_runs_over, get_request, accounted,
}

acct_runs_over-runs_over :
    (fields : List ℕ) → runs_over fields ≡ false → acct_runs_over fields ≡ false
unfolding acct_runs_over runs_over
acct_runs_over-runs_over fields h = ground (arith, h)

pub get_request-encode_acct :
    (hdr : Hdr) (flags : ℕ) (q : Request)
    → IsSendable q
    → flags < 256
    → hdr.type ≡ acct_type
    → hdr.seq_no ≡ 1
    → hdr.datalength ≡ 1 + length (encode_author q)
    → length (encode_author q) < 10000
    → get_request hdr (encode_acct flags q) ≡ accounted flags q
unfolding get_request encode_acct
get_request-encode_acct hdr flags q h small type seq size short =
    let known : (not (hdr.type == acct_type)) ≡ false = ground (arith, type) in
    let first : (not (hdr.seq_no == 1)) ≡ false = ground (arith, seq) in
    let whole : (1 + length (encode_author q)) % 2 ^ 32 ≡ 1 + length (encode_author q) =
      omega arith in
    let right : (not (hdr.datalength == 1 + length (encode_author q))) ≡ false =
      ground (arith, size) in
    let same : flags % 256 ≡ flags = omega arith in
    rw
      (
        known,
        first,
        expected_length-encode_author q h (omega arith),
        whole,
        right,
        acct_runs_over-runs_over (encode_author q) (runs_over-encode_author q h),
        read_author-encode_author q h,
        same,
      )
      refl

-- What a device with these flags writes.
abbrev pub acct_packet : (List ℕ → List ℕ) → TacacsPacket → ℕ → ℕ → Request → TacacsPacket × List ℕ
acct_packet md5 t now flags q =
    write_packet md5 (record t { seq_no = t.seq_no + 1 }) now (acct_header t q)
      (encode_acct flags q)

-- A request of accounting with flags in one byte, written as the first packet of a session, is read by
-- a server with the same key as these flags and this request; what follows on the wire stays. The
-- request fits: numbers below 256, texts of at most 31 bytes, at most 99 pairs of at most 127 bytes
-- each, and less than 9988 bytes in all. The digest is bytes, and the number of the session
-- has 32 bits.
pub receive-acct_packet :
    (md5 : List ℕ → List ℕ) (t s : TacacsPacket) (sent now flags : ℕ) (q : Request) (rest : List ℕ)
    → GivesBytes md5
    → IsSendable q
    → flags < 256
    → length (encode_author q) < 9988
    → t.session_id < 2 ^ 32
    → s.key ≡ t.key
    → t.seq_no ≡ 0
    → s.seq_no ≡ 0
    → receive get_request md5 s now ((acct_packet md5 t sent flags q).1 ++ rest)
      ≡ some (accounted flags q, rest)
unfolding acct_header encode_acct is_major
receive-acct_packet md5 t s sent now flags q rest g h small size id key first fresh =
    let long = length-encode_author q in
    let hdr = acct_header t q in
    receive-write_packet get_request md5 (record t { seq_no = t.seq_no + 1 }) s sent now hdr
      (encode_acct flags q) rest g (omega arith, encode_author-bytes q h) (omega (arith, long))
      (omega (arith, long)) id refl key (omega arith)
    ∙ ap (λ a. some (a, rest))
        (get_request-encode_acct (sent_header t.key hdr) flags q h small refl (omega arith)
          (omega (arith, long)) (omega arith))

-- Whatever flags it is called with, `account_send_request` sends a request that the server reads with
-- the flags 0, which is the number that stands for a failure. The request fits, its pairs as short as
-- above and 499 bytes in all.
pub receive-account_send_request :
    (md5 : List ℕ → List ℕ) (t s : TacacsPacket) (sent now flag : ℕ) (our_addr : Text) (r : Request)
    → (rest : List ℕ) → GivesBytes md5
    → IsSendable (from_address our_addr r)
    → length (encode_author (from_address our_addr r)) ≤ 498
    → t.session_id < 2 ^ 32
    → s.key ≡ t.key
    → t.seq_no ≡ 0
    → s.seq_no ≡ 0
    → (out : TacacsPacket × List ℕ) × ((account_send_request md5 t sent our_addr flag r ≡ some out)
        × (receive get_request md5 s now (out.1 ++ rest)
            ≡ some (accounted 0 (from_address our_addr r), rest)))
unfolding account_send_request encode_acct
receive-account_send_request md5 t s sent now flag our_addr r rest g h size id key first fresh =
    let q = from_address our_addr r in
    let fits : leb (length (encode_acct 0 q)) 499 ≡ true =
      unfold encode_acct in ground (arith, size) in
    (
      acct_packet md5 t sent 0 q,
      (
        ap
              (λ c.
                if leb (length (encode_acct 0 c)) 499
                then some (acct_packet md5 t sent 0 c)
                else none)
              (clip_lem our_addr r h.7.0)
            ∙ rw fits refl,
        receive-acct_packet md5 t s sent now 0 q rest g h (omega arith) (omega arith) id key first
            fresh,
      ),
    )
