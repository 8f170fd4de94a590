-- ===== src/Tacacs/Request/RoundTrip.antt =====
-- An authorization request from the client to the server, through `write_packet`,
-- `read_packet_header`, `read_packet` and `get_request`.
use tacppd.Common.{
  ◌≡◌, refl, sym, ap, ◌∙◌, ℕ, ◌+◌, ◌<◌, ◌≤◌, ◌^◌, List, [], ◌∷◌, ◌++◌, Text, length, All, arith,
  map, take, take_all, leb, if◌then◌else◌, some, none, All-append,
}
use tacppd.Tacacs.Crypt.Bytes.{IsByte}
use tacppd.Tacacs.Crypt.Involution.{GivesBytes}
use tacppd.Tacacs.Packet.{TacacsPacket, write_packet, receive, is_major}
use tacppd.Tacacs.Packet.RoundTrip.{sent_header, receive-write_packet}
use tacppd.Tacacs.Wire.{concat, lengths}
use tacppd.Tacacs.Wire.Texts.{IsShort, IsText-bytes, lengths-bytes}
use tacppd.Tacacs.Request.{
  Request, asked, clip, author_header, encode_author, author_send_request, get_request,
}
use tacppd.Tacacs.Request.Reading.{IsSendable, length-encode_author, get_request-encode_author}

take-255 : (ss : List Text) → All IsShort ss → map (take 255) ss ≡ ss
take-255 [] h = refl
take-255 (s ∷ ss) h = rw (take_all 255 s (omega arith), take-255 ss h.1) refl

-- The request as it goes out.
abbrev pub from_address : Text → Request → Request
from_address our_addr r = record r { rem_addr = take 19 our_addr }

pub clip_lem :
    (our_addr : Text) (r : Request)
    → All IsShort r.avpair
    → clip our_addr r ≡ from_address our_addr r
unfolding clip
clip_lem our_addr r h =
    λ i. record r { rem_addr = take 19 our_addr; avpair = take-255 r.avpair h i }

pub concat-bytes : (ss : List Text) → All IsShort ss → All IsByte (concat ss)
unfolding concat
concat-bytes [] h = tt
concat-bytes (s ∷ ss) h =
    All-append IsByte s (concat ss) (IsText-bytes s h.0.0) (concat-bytes ss h.1)

pub encode_author-bytes : (q : Request) → IsSendable q → All IsByte (encode_author q)
unfolding encode_author
encode_author-bytes q h =
    let rest : All IsByte
        (lengths q.avpair ++ (q.user ++ (q.port ++ (q.rem_addr ++ concat q.avpair)))) =
      All-append IsByte (lengths q.avpair) (q.user ++ (q.port ++ (q.rem_addr ++ concat q.avpair)))
        (lengths-bytes q.avpair)
        (All-append IsByte q.user (q.port ++ (q.rem_addr ++ concat q.avpair))
          (IsText-bytes q.user h.4.0)
          (All-append IsByte q.port (q.rem_addr ++ concat q.avpair) (IsText-bytes q.port h.5.0) (
            All-append IsByte q.rem_addr (concat q.avpair) (IsText-bytes q.rem_addr h.6.0)
              (concat-bytes q.avpair h.7.0)))) in
    (
      omega arith,
      (
        omega arith,
        (
          omega arith,
          (omega arith, (omega arith, (omega arith, (omega arith, (omega arith, rest))))),
        ),
      ),
    )

receive_lem :
    (md5 : List ℕ → List ℕ) (t s : TacacsPacket) (sent now : ℕ) (q : Request) (rest : List ℕ)
    → GivesBytes md5
    → IsSendable q
    → length (encode_author q) ≤ 243
    → t.session_id < 2 ^ 32
    → s.key ≡ t.key
    → t.seq_no ≡ 0
    → s.seq_no ≡ 0
    → receive get_request md5 s now (
        (write_packet md5
          (record t { seq_no = t.seq_no + 1 })
          sent
          (author_header t q)
          (encode_author q)).1
        ++ rest)
      ≡ some (asked q, rest)
unfolding author_header is_major
receive_lem md5 t s sent now q rest g h size id key first fresh =
    let long = length-encode_author q in
    let next = record t { seq_no = t.seq_no + 1 } in
    let hdr = author_header t q in
    receive-write_packet get_request md5 next s sent now hdr (encode_author q) rest g
      (encode_author-bytes q h) long (omega arith) id refl key (omega arith)
    ∙ ap (λ a. some (a, rest))
        (get_request-encode_author (sent_header t.key hdr) q h refl (omega arith) (sym long)
          (omega arith))

author_send_request_lem :
    (md5 : List ℕ → List ℕ) (t : TacacsPacket) (sent : ℕ) (our_addr : Text) (r : Request)
    → All IsShort r.avpair
    → length (encode_author (from_address our_addr r)) ≤ 243
    → author_send_request md5 t sent our_addr r
      ≡ some (
          write_packet md5
            (record t { seq_no = t.seq_no + 1 })
            sent
            (author_header t (from_address our_addr r))
            (encode_author (from_address our_addr r)))
unfolding author_send_request
author_send_request_lem md5 t sent our_addr r h size =
    ap
      (λ q.
        if leb (length (encode_author q)) 243
        then some (
            write_packet md5 (record t { seq_no = t.seq_no + 1 }) sent (author_header t q)
              (encode_author q))
        else none)
      (clip_lem our_addr r h)
    ∙ ground (arith, size)

-- A request that the client sends, as the first packet of a session, to a server with the same key
-- is the request that the server reads, with the client's address in it; what follows on the wire
-- stays. The request fits: numbers below 256, user and port of at most 31 bytes, at most 99 pairs
-- of at most 127 bytes each, and 243 bytes in all. The digest
-- is bytes, and the number of the session has 32 bits.
pub receive-author_send_request :
    (md5 : List ℕ → List ℕ) (t s : TacacsPacket) (sent now : ℕ) (our_addr : Text) (r : Request)
    → (rest : List ℕ) → GivesBytes md5
    → IsSendable (from_address our_addr r)
    → length (encode_author (from_address our_addr r)) ≤ 243
    → t.session_id < 2 ^ 32
    → s.key ≡ t.key
    → t.seq_no ≡ 0
    → s.seq_no ≡ 0
    → (out : TacacsPacket × List ℕ) × (author_send_request md5 t sent our_addr r ≡ some out)
      × (receive get_request md5 s now (out.1 ++ rest)
          ≡ some (asked (from_address our_addr r), rest))
receive-author_send_request md5 t s sent now our_addr r rest g h size id key first fresh = (
  write_packet md5 (record t { seq_no = t.seq_no + 1 }) sent
      (author_header t (from_address our_addr r)) (encode_author (from_address our_addr r)),
  author_send_request_lem md5 t sent our_addr r h.7.0 size,
  receive_lem md5 t s sent now (from_address our_addr r) rest g h size id key first fresh,
)
