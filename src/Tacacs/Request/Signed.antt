-- ===== src/Tacacs/Request/Signed.antt =====
-- The lengths of the pairs as signed bytes.
use tacppd.Common.{
  ◌≡◌, ◌≢◌, refl, sym, ℕ, suc, ◌+◌, ◌*◌, ◌-◌, ◌%◌, ◌<◌, ◌≤◌, ◌^◌, List, [], ◌∷◌, ◌++◌, Text, length,
  All, arith, map, true, ltb, if◌then◌else◌, length-append,
}
use tacppd.Tacacs.Header.{Hdr}
use tacppd.Tacacs.Wire.{byte_at, bytes_at, concat, lengths, sum}
use tacppd.Tacacs.Wire.Texts.{bytes_at-append, length-lengths}
use tacppd.Tacacs.Request.{
  Request, encode_author, signed, any_negative, expected_length, get_request, refused,
}
use tacppd.Tacacs.Request.Reading.{length-encode_author}

-- Every length fits a byte.
abbrev pub IsMeasured : Request → Type 0
IsMeasured q =
    (length q.user < 256)
    × (length q.port < 256)
    × (length q.rem_addr < 256)
    × (length q.avpair < 256)
    × All (λ s. length s < 256) q.avpair

-- How many lengths are negative.
unfoldable pub count_negative : List ℕ → ℕ
count_negative [] = 0
count_negative (b ∷ bs) = let n = count_negative bs in if ltb b 128 then n else suc n

pub sum-signed :
    (ss : List Text)
    → All (λ s. length s < 256) ss
    → sum (map signed (lengths ss))
      ≡ length (concat ss) + (2 ^ 32 - 256) * count_negative (lengths ss)
unfolding sum signed lengths concat count_negative
sum-signed [] h = refl
sum-signed (s ∷ ss) h = ground (arith, sum-signed ss h.1, length-append s (concat ss))

pub count_negative-length : (bs : List ℕ) → count_negative bs ≤ length bs
unfolding count_negative
count_negative-length [] = omega arith
count_negative-length (b ∷ bs) = ground (arith, count_negative-length bs)

pub count_negative_pos : (bs : List ℕ) → any_negative bs ≡ true → 0 < count_negative bs
unfolding count_negative any_negative
count_negative_pos [] h = absurd (ground (arith, h))
count_negative_pos (b ∷ bs) h = ground (arith, count_negative_pos bs)

expected_length-encode_author :
    (q : Request)
    → IsMeasured q
    → any_negative (lengths q.avpair) ≡ true
    → expected_length (encode_author q) ≢ length (encode_author q)
unfolding expected_length encode_author byte_at bytes_at
expected_length-encode_author q h neg =
    let n : length q.avpair % 256 ≡ length q.avpair = omega arith in
    rw
      (
        n,
        bytes_at-append (length q.avpair) (lengths q.avpair)
            (q.user ++ (q.port ++ (q.rem_addr ++ concat q.avpair))) (sym (length-lengths q.avpair)),
        sum-signed q.avpair h.4,
      )
      (omega (
        arith,
        length-encode_author q,
        length-lengths q.avpair,
        count_negative-length (lengths q.avpair),
        count_negative_pos (lengths q.avpair) neg,
      ))

-- A request is refused if some of its pairs is longer than 127 bytes, whose length counts as
-- negative, whatever the header that gives its length. Every length fits a byte.
pub get_request-refuses :
    (hdr : Hdr) (q : Request)
    → IsMeasured q
    → any_negative (lengths q.avpair) ≡ true
    → hdr.datalength ≡ length (encode_author q)
    → get_request hdr (encode_author q) ≡ refused
unfolding get_request
get_request-refuses hdr q h neg size = ground (arith, expected_length-encode_author q h neg)
