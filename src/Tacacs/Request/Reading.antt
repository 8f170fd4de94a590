-- ===== src/Tacacs/Request/Reading.antt =====
-- What the server reads in the body of an authorization request.
use tacppd.Common.{
  ◌≡◌, refl, sym, ap, ◌∙◌, ℕ, ◌+◌, ◌%◌, ◌<◌, ◌^◌, List, [], ◌∷◌, ◌++◌, Text, length, All, arith,
  map, length-append, false,
}
use mathlib.Core.List.{append-nil}
use tacppd.Tacacs.Header.{Hdr}
use tacppd.Tacacs.Wire.{byte_at, bytes_at, concat, lengths, split_texts}
use tacppd.Tacacs.Wire.Texts.{
  IsText, IsShort, bytes_at-append, split_texts-concat, length-lengths, sum-lengths,
}
use tacppd.Tacacs.Wire.Places.{text_at_first, text_at_second, text_at_third, drop_three}
use tacppd.Tacacs.Request.{
  Request, author_type, encode_author, signed, any_negative, expected_length, runs_over,
  read_author, get_request, asked,
}

-- A request that fits: its numbers are bytes, its texts have no 0, each text fits its place, and
-- the length of each pair is positive as a signed `char`.
abbrev pub IsSendable : Request → Type 0
IsSendable r =
    (r.method < 256)
    × (r.priv_lvl < 256)
    × (r.authen_type < 256)
    × (r.authen_service < 256)
    × (IsText r.user × (length r.user < 32))
    × (IsText r.port × (length r.port < 32))
    × (IsText r.rem_addr × (length r.rem_addr < 32))
    × (All IsShort r.avpair × (length r.avpair < 100))

pub length-encode_author :
    (r : Request)
    → length (encode_author r)
      ≡ 8
        + length r.avpair
        + length r.user
        + length r.port
        + length r.rem_addr
        + length (concat r.avpair)
unfolding encode_author
length-encode_author r = omega (
  arith,
  length-append (lengths r.avpair) (r.user ++ (r.port ++ (r.rem_addr ++ concat r.avpair))),
  length-append r.user (r.port ++ (r.rem_addr ++ concat r.avpair)),
  length-append r.port (r.rem_addr ++ concat r.avpair),
  length-append r.rem_addr (concat r.avpair),
  length-lengths r.avpair,
)

pub any_negative-lengths : (ss : List Text) → All IsShort ss → any_negative (lengths ss) ≡ false
unfolding any_negative lengths
any_negative-lengths [] h = refl
any_negative-lengths (s ∷ ss) h = ground (arith, any_negative-lengths ss h.1)

pub signed-lengths : (ss : List Text) → All IsShort ss → map signed (lengths ss) ≡ lengths ss
unfolding signed lengths
signed-lengths [] h = refl
signed-lengths (s ∷ ss) h = rw (signed-lengths ss h.1) (ground arith)

-- Four texts behind eight bytes and a list.
module _ (b₀ b₁ b₂ b₃ u# p# r# n# : ℕ) (xs u p r z : List ℕ) (u_len : u# ≡ length u)
    (p_len : p# ≡ length p) (r_len : r# ≡ length r) (n_len : n# ≡ length xs) where
  abbrev placed : List ℕ
  placed = b₀ ∷ b₁ ∷ b₂ ∷ b₃ ∷ u# ∷ p# ∷ r# ∷ n# ∷ (xs ++ (u ++ (p ++ (r ++ z))))

  abbrev front : List ℕ
  front = b₀ ∷ b₁ ∷ b₂ ∷ b₃ ∷ u# ∷ p# ∷ r# ∷ n# ∷ xs

  numbers : bytes_at placed 8 n# ≡ xs
  unfolding bytes_at
  numbers = bytes_at-append n# xs (u ++ (p ++ (r ++ z))) n_len

  read_author_lem :
      IsText u
      → IsText p
      → IsText r
      → read_author placed ≡ record {
        method = b₀;
        priv_lvl = b₁;
        authen_type = b₂;
        authen_service = b₃;
        user = u;
        port = p;
        rem_addr = r;
        avpair = split_texts xs z;
      }
  unfolding read_author byte_at
  read_author_lem hu hp hr = λ i. record {
    method = b₀;
    priv_lvl = b₁;
    authen_type = b₂;
    authen_service = b₃;
    user = text_at_first front u p r z (8 + n#) u# p# r# (omega arith) u_len p_len r_len hu i;
    port = text_at_second front u p r z (8 + n#) u# p# r# (omega arith) u_len p_len r_len hp i;
    rem_addr = text_at_third front u p r z (8 + n#) u# p# r# (omega arith) u_len p_len r_len hr i;
    avpair =
        split_texts (numbers i)
          (drop_three front u p r z (8 + n#) u# p# r# (omega arith) u_len p_len r_len i);
  }

module _ (q : Request) (h : IsSendable q) where
  abbrev lens : List ℕ
  lens = lengths q.avpair

  lens_place : length q.avpair % 256 ≡ length lens
  lens_place = omega (arith, length-lengths q.avpair)

  lens_read : bytes_at (encode_author q) 8 (length q.avpair % 256) ≡ lens
  unfolding encode_author
  lens_read =
      numbers (q.method % 256) (q.priv_lvl % 256) (q.authen_type % 256) (q.authen_service % 256)
        (length q.user % 256) (length q.port % 256) (length q.rem_addr % 256)
        (length q.avpair % 256) lens q.user q.port q.rem_addr (concat q.avpair) (omega arith)
        (omega arith) (omega arith) lens_place

  pub read_author-encode_author : read_author (encode_author q) ≡ q
  unfolding encode_author
  read_author-encode_author =
      let same : (n : ℕ) → n < 256 → n % 256 ≡ n = λ n k. omega arith in
      let pairs : split_texts lens (concat q.avpair) ≡ q.avpair =
        ap (split_texts lens) (sym (append-nil (concat q.avpair)))
        ∙ split_texts-concat q.avpair [] h.7.0 in
      read_author_lem (q.method % 256) (q.priv_lvl % 256) (q.authen_type % 256)
        (q.authen_service % 256) (length q.user % 256) (length q.port % 256)
        (length q.rem_addr % 256) (length q.avpair % 256) lens q.user q.port q.rem_addr
        (concat q.avpair) (omega arith) (omega arith) (omega arith) lens_place h.4.0 h.5.0 h.6.0
      ∙ λ i. record {
        method = same q.method h.0 i;
        priv_lvl = same q.priv_lvl h.1 i;
        authen_type = same q.authen_type h.2 i;
        authen_service = same q.authen_service h.3 i;
        user = q.user;
        port = q.port;
        rem_addr = q.rem_addr;
        avpair = pairs i;
      }

  pub expected_length-encode_author :
      length (encode_author q) < 2 ^ 32
      → expected_length (encode_author q) ≡ length (encode_author q)
  unfolding expected_length encode_author byte_at
  expected_length-encode_author k =
      rw (lens_read, signed-lengths q.avpair h.7.0, sum-lengths q.avpair h.7.0)
        (omega (arith, length-encode_author q, length-lengths q.avpair))

  pub runs_over-encode_author : runs_over (encode_author q) ≡ false
  unfolding runs_over encode_author byte_at
  runs_over-encode_author = rw (lens_read, any_negative-lengths q.avpair h.7.0) (ground arith)

-- What the server reads in the body that the client makes is the request.
pub get_request-encode_author :
    (hdr : Hdr) (q : Request)
    → IsSendable q
    → hdr.type ≡ author_type
    → hdr.seq_no ≡ 1
    → hdr.datalength ≡ length (encode_author q)
    → hdr.datalength < 2 ^ 32
    → get_request hdr (encode_author q) ≡ asked q
unfolding get_request
get_request-encode_author hdr q h type seq size small = ground (
  arith,
  expected_length-encode_author q h (omega arith),
  runs_over-encode_author q h,
  read_author-encode_author q h,
)
