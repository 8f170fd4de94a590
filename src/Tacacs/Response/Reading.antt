-- ===== src/Tacacs/Response/Reading.antt =====
-- What the client reads in the body of an authorization reply.
use tacppd.Common.{
  ◌≡◌, ◌≢◌, refl, sym, ap, ◌∙◌, ℕ, ◌+◌, ◌*◌, ◌/◌, ◌%◌, ◌<◌, ◌≤◌, ◌^◌, List, [], ◌∷◌, ◌++◌, Text,
  length, All, arith, map, length-append, false, true, drop, not, ◌==◌,
}
use mathlib.Core.List.{append-nil}
use tacppd.Tacacs.Header.{Hdr}
use tacppd.Tacacs.Wire.{byte_at, bytes_at, text_at, concat, lengths, split_texts, sum}
use tacppd.Tacacs.Wire.Texts.{
  IsText, IsShort, bytes_at-append, split_texts-concat, length-lengths, sum-lengths,
}
use tacppd.Tacacs.Wire.Places.{text_at_first, text_at_second, drop_three}
use tacppd.Tacacs.Request.{author_type, signed, any_negative}
use tacppd.Tacacs.Request.Reading.{any_negative-lengths, signed-lengths}
use tacppd.Tacacs.Request.Signed.{sum-signed, count_negative-length, count_negative_pos}
use tacppd.Tacacs.Response.{
  status_error, response_body, response_length, low_short_at, author_get_response, response,
  status_only,
}

pub length-response_body :
    (status : ℕ) (m d : Text) (ss : List Text)
    → length (response_body status m d ss)
      ≡ 6 + length ss + length m + length d + length (concat ss)
unfolding response_body
length-response_body status m d ss = omega (
  arith,
  length-append (lengths ss) (m ++ (d ++ concat ss)),
  length-append m (d ++ concat ss),
  length-append d (concat ss),
  length-lengths ss,
)

low_short : (n : ℕ) → n ≤ 499 → n % 256 + 256 * (n / 256 % 256) ≡ n
low_short n h = omega arith

module _ (status : ℕ) (m d : Text) (ss : List Text)
    (room : 6 + length ss + length m + length d + length (concat ss) ≤ 499)
    (few : length ss < 256) where
  abbrev body : List ℕ
  body = response_body status m d ss

  n_arg : byte_at body 1 ≡ length ss
  unfolding byte_at response_body
  n_arg = omega arith

  n_msg : low_short_at body 2 ≡ length m
  unfolding low_short_at byte_at response_body
  n_msg = low_short (length m) (omega arith)

  n_data : low_short_at body 4 ≡ length d
  unfolding low_short_at byte_at response_body
  n_data = low_short (length d) (omega arith)

  numbers : bytes_at body 6 (length ss) ≡ lengths ss
  unfolding bytes_at response_body
  numbers =
      bytes_at-append (length ss) (lengths ss) (m ++ (d ++ concat ss)) (sym (length-lengths ss))

  response_length_lem :
      response_length body
      ≡ (6 + length ss + length m + length d + sum (map signed (lengths ss))) % 2 ^ 32
  unfolding response_length
  response_length_lem = rw (n_arg, n_msg, n_data, numbers) refl

  -- A length that counts as negative makes the sum another one.
  response_length_long :
      All (λ s. length s < 256) ss
      → any_negative (lengths ss) ≡ true
      → response_length body ≢ 6 + length ss + length m + length d + length (concat ss)
  response_length_long h neg =
      rw (response_length_lem, sum-signed ss h)
        (omega (
          arith,
          length-lengths ss,
          count_negative-length (lengths ss),
          count_negative_pos (lengths ss) neg,
        ))

  abbrev front : List ℕ
  front =
      (status % 256)
      ∷ (length ss % 256)
      ∷ (length m % 256)
      ∷ (length m / 256 % 256)
      ∷ (length d % 256)
      ∷ (length d / 256 % 256)
      ∷ lengths ss

  begins : 6 + length ss ≡ length front
  begins = omega (arith, length-lengths ss)

  message : IsText m → text_at body (6 + length ss) (length m) ≡ m
  unfolding response_body
  message h =
      text_at_first front m d [] (concat ss) (6 + length ss) (length m) (length d) 0 begins refl
        refl refl h

  data_lem : IsText d → text_at body (6 + length ss + length m) (length d) ≡ d
  unfolding response_body
  data_lem h =
      text_at_second front m d [] (concat ss) (6 + length ss) (length m) (length d) 0 begins refl
        refl refl h

  behind : drop (6 + length ss + length m + length d) body ≡ concat ss
  unfolding response_body
  behind =
      let same : 6 + length ss + length m + length d + 0 ≡ 6 + length ss + length m + length d =
        omega arith in
      ap (λ i. drop i body) (sym same)
      ∙ drop_three front m d [] (concat ss) (6 + length ss) (length m) (length d) 0 begins refl refl
          refl

  pairs : All IsShort ss → split_texts (lengths ss) (concat ss) ≡ ss
  pairs h =
      ap (split_texts (lengths ss)) (sym (append-nil (concat ss))) ∙ split_texts-concat ss [] h

  module _ (hdr : Hdr) (type : hdr.type ≡ author_type) (seq : hdr.seq_no ≡ 2)
      (size : hdr.datalength ≡ 6 + length ss + length m + length d + length (concat ss))
      (small : status < 256) where
    status_lem : byte_at body 0 ≡ status
    unfolding byte_at response_body
    status_lem = omega arith

    pub author_get_response-response_body :
        IsText m
        → IsText d
        → All IsShort ss
        → status ≢ status_error
        → author_get_response hdr body ≡ response status m d ss
    unfolding author_get_response
    author_get_response-response_body hm hd h other =
        let known : (not (hdr.type == author_type)) ≡ false = ground (arith, type) in
        let second : (not (hdr.seq_no == 2)) ≡ false = ground (arith, seq) in
        let fine : (status == status_error) ≡ false = ground (arith, other) in
        let whole : (6 + length ss + length m + length d + length (concat ss)) % 2 ^ 32
            ≡ 6 + length ss + length m + length d + length (concat ss) =
          omega arith in
        let right : (not
              (hdr.datalength == 6 + length ss + length m + length d + length (concat ss)))
            ≡ false =
          ground (arith, size) in
        rw
          (
            status_lem,
            n_arg,
            n_msg,
            n_data,
            numbers,
            signed-lengths ss h,
            sum-lengths ss h,
            whole,
            any_negative-lengths ss h,
            known,
            second,
            fine,
            right,
            message hm,
            data_lem hd,
            behind,
            pairs h,
          )
          refl

    pub author_get_response_loses :
        All (λ s. length s < 256) ss
        → any_negative (lengths ss) ≡ true
        → author_get_response hdr body ≡ status_only status
    unfolding author_get_response
    author_get_response_loses h neg =
        ground (arith, status_lem, response_length_long h neg, type, seq, size)
