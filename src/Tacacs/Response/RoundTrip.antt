-- ===== src/Tacacs/Response/RoundTrip.antt =====
-- A reply of an authorization from the server to the client.
use tacppd.Common.{
  ◌≡◌, ◌≢◌, refl, ap, ◌∙◌, ℕ, ◌+◌, ◌<◌, ◌≤◌, ◌^◌, List, [], ◌∷◌, ◌++◌, Text, length, length-append,
  All, All-append, arith, true, leb, some,
}
use tacppd.Tacacs.Crypt.Bytes.{IsByte}
use tacppd.Tacacs.Crypt.Involution.{GivesBytes}
use tacppd.Tacacs.Packet.{TacacsPacket, write_packet, receive, is_major}
use tacppd.Tacacs.Packet.RoundTrip.{sent_header, receive-write_packet}
use tacppd.Tacacs.Wire.{concat, lengths}
use tacppd.Tacacs.Wire.Texts.{IsText, IsShort, IsText-bytes, lengths-bytes}
use tacppd.Tacacs.Request.{any_negative}
use tacppd.Tacacs.Response.{
  status_error, before_empty, response_body, response_header, send_response, author_get_response,
  response, status_only,
}
use tacppd.Tacacs.Response.Reading.{
  length-response_body, author_get_response-response_body, author_get_response_loses,
}

All-before_empty {κ} : (P : Text → Type κ) (ss : List Text) → All P ss → All P (before_empty ss)
unfolding before_empty
All-before_empty P [] h = tt
All-before_empty P ([] ∷ ss) h = tt
All-before_empty P ((c ∷ s) ∷ ss) h = (h.0, All-before_empty P ss h.1)

length-concat-before_empty :
    (ss : List Text) → length (concat (before_empty ss)) ≤ length (concat ss)
unfolding before_empty concat
length-concat-before_empty [] = omega arith
length-concat-before_empty ([] ∷ ss) = omega arith
length-concat-before_empty ((c ∷ s) ∷ ss) = omega (
  arith,
  length-concat-before_empty ss,
  length-append s (concat (before_empty ss)),
  length-append s (concat ss),
)

concat-texts : (ss : List Text) → All IsText ss → All IsByte (concat ss)
unfolding concat
concat-texts [] h = tt
concat-texts (s ∷ ss) h = All-append IsByte s (concat ss) (IsText-bytes s h.0) (concat-texts ss h.1)

response_body-bytes :
    (status : ℕ) (m d : Text) (ss : List Text)
    → IsText m
    → IsText d
    → All IsText ss
    → All IsByte (response_body status m d ss)
unfolding response_body
response_body-bytes status m d ss hm hd h =
    let rest : All IsByte (lengths ss ++ (m ++ (d ++ concat ss))) =
      All-append IsByte (lengths ss) (m ++ (d ++ concat ss)) (lengths-bytes ss) (
        All-append IsByte m (d ++ concat ss) (IsText-bytes m hm)
          (All-append IsByte d (concat ss) (IsText-bytes d hd) (concat-texts ss h))) in
    (omega arith, (omega arith, (omega arith, (omega arith, (omega arith, (omega arith, rest))))))

-- A reply that fits its buffer, from a server that has read one packet to a client with the same key
-- that has sent one.
module _ (md5 : List ℕ → List ℕ) (t s : TacacsPacket) (now later status : ℕ) (m d : Text)
    (avpair : List Text) (rest : List ℕ) (g : GivesBytes md5) (hm : IsText m) (hd : IsText d)
    (room : 6 + length (before_empty avpair) + length m + length d + length (concat avpair) ≤ 499)
    (few : length (before_empty avpair) < 256) (small : status < 256) (id : t.session_id < 2 ^ 32)
    (key : s.key ≡ t.key) (first : t.seq_no ≡ 1) (waits : s.seq_no ≡ 1) where
  abbrev out : TacacsPacket × List ℕ
  out =
      write_packet md5 (record t { seq_no = t.seq_no + 1 }) now
        (response_header t m d (before_empty avpair))
        (response_body status m d (before_empty avpair))

  send_response_lem : send_response md5 t now status m d avpair ≡ some out
  unfolding send_response
  send_response_lem =
      let fits : leb
            (6 + length (before_empty avpair) + length m + length d + length (concat avpair)) 499
          ≡ true =
        ground (arith, room) in
      rw fits refl

  receive_lem :
      All IsText avpair
      → receive author_get_response md5 s later (out.1 ++ rest)
        ≡ some (
          author_get_response
              (sent_header t.key (response_header t m d (before_empty avpair)))
              (response_body status m d (before_empty avpair)),
          rest,
        )
  unfolding response_header is_major
  receive_lem h =
      let ss = before_empty avpair in
      let long = length-response_body status m d ss in
      let shorter = length-concat-before_empty avpair in
      receive-write_packet author_get_response md5 (record t { seq_no = t.seq_no + 1 }) s now later
        (response_header t m d ss) (response_body status m d ss) rest g
        (response_body-bytes status m d ss hm hd (All-before_empty IsText avpair h)) long
        (omega (arith, shorter)) id refl key (omega arith)

  -- A server that has read one packet sends a reply that fits its buffer, to a client with the same
  -- key that has sent one: the client reads the status, which is not that of an error, the two texts,
  -- and the pairs before the first empty one, if these are fewer than 256 and have at most 127
  -- bytes each; what follows on the wire stays. The status is one byte, no text has a 0. The digest is bytes, and the number of the session has 32 bits.
  pub receive-send_response :
      All IsShort avpair
      → status ≢ status_error
      → (sent : TacacsPacket × List ℕ) × ((send_response md5 t now status m d avpair ≡ some sent)
          × (receive author_get_response md5 s later (sent.1 ++ rest)
              ≡ some (response status m d (before_empty avpair), rest)))
  unfolding response_header
  receive-send_response h other =
      let ss = before_empty avpair in
      let hdr = sent_header t.key (response_header t m d ss) in
      (
        out,
        (
          send_response_lem,
          receive_lem (texts avpair h)
              ∙ ap (λ a. some (a, rest))
                  (author_get_response-response_body status m d ss
                    (omega (arith, length-concat-before_empty avpair)) few hdr refl (omega arith)
                    refl small hm hd (All-before_empty IsShort avpair h) other),
        ),
      )
    where
      texts : (xs : List Text) → All IsShort xs → All IsText xs
      texts [] k = tt
      texts (x ∷ xs) k = (k.0.0, texts xs k.1)

  -- The same reply, with a pair of 128 to 255 bytes before the first empty one: the client gets the
  -- status, and neither the texts nor any pair.
  pub receive-send_response_loses :
      All IsText avpair
      → All (λ x. length x < 256) avpair
      → any_negative (lengths (before_empty avpair)) ≡ true
      → (sent : TacacsPacket × List ℕ) × ((send_response md5 t now status m d avpair ≡ some sent)
          × (receive author_get_response md5 s later (sent.1 ++ rest)
              ≡ some (status_only status, rest)))
  unfolding response_header
  receive-send_response_loses h k neg =
      let ss = before_empty avpair in
      let hdr = sent_header t.key (response_header t m d ss) in
      (
        out,
        (
          send_response_lem,
          receive_lem h
              ∙ ap (λ a. some (a, rest))
                  (author_get_response_loses status m d ss
                    (omega (arith, length-concat-before_empty avpair)) few hdr refl (omega arith)
                    refl small (All-before_empty (λ x. length x < 256) avpair k) neg),
        ),
      )
