-- ===== src/Tacacs/Client/Body.antt =====
-- The body of a start packet, and what `get_start` reads in it.
use tacppd.Common.{
  ◌≡◌, refl, ap, ◌∙◌, ℕ, zero, suc, ◌+◌, ◌%◌, ◌<◌, ◌≤◌, List, ◌∷◌, ◌++◌, Text, length,
  length-append, All, All-append, arith, take, ◌==◌, true, false, ◌||◌, Bool-cases, inl, inr,
}
use tacppd.Tacacs.Header.{Hdr}
use tacppd.Tacacs.Crypt.Bytes.{IsByte}
use tacppd.Tacacs.Packet.{is_major}
use tacppd.Tacacs.Wire.{text_at, until_nul}
use tacppd.Tacacs.Wire.Texts.{IsText, IsText-bytes}
use tacppd.Tacacs.Intake.{Authen, get_start, enable_request, ascii_login, request_type}
use tacppd.Tacacs.Client.{start_version, start_fields, cut, zeros, start_data, start_body, too_wide}
use tacppd.Tacacs.Client.Starts.{
  IsSent, each_sent, seen, seen_lem, request_type-sent, get_start_lem,
}

-- Texts that fit: each of at most 31 bytes, 234 with the data at most.
abbrev pub IsStart : Text → Text → Text → Text → Type 0
IsStart addr username port data_ =
    (IsText addr × (length addr ≤ 31))
    × (IsText username × (length username ≤ 31))
    × (IsText port × (length port ≤ 31))
    × IsText data_
    × (9 + length username + length port + length addr + length data_ ≤ 243)

cut_lem : (s : Text) → length s ≤ 31 → cut s ≡ s
unfolding cut
cut_lem s h = ground (arith, h)

length-zeros : (n : ℕ) → length (zeros n) ≡ n
unfolding zeros
length-zeros zero = refl
length-zeros (suc n) = ap suc (length-zeros n)

zeros-bytes : (n : ℕ) → All IsByte (zeros n)
unfolding zeros
zeros-bytes zero = tt
zeros-bytes (suc n) = (omega arith, zeros-bytes n)

-- The fields are bytes, and so is the data; it is one longer than the text at most.
pub parts-bytes :
    (type : ℕ) (data_ : Text)
    → IsText data_
    → IsSent type
    → (((start_fields type).0 < 256)
        × ((start_fields type).1 < 256)
        × ((start_fields type).2 < 256))
      × All IsByte (start_data type data_)
      × (length (start_data type data_) ≤ 1 + length data_)
unfolding start_fields start_data
parts-bytes type data_ h =
    let b = IsText-bytes data_ h in
    let z = zeros-bytes (1 + length data_) in
    let n : length (zeros (1 + length data_)) ≤ 1 + length data_ =
      omega (arith, length-zeros (1 + length data_)) in
    each_sent
      (λ t.
        (((start_fields t).0 < 256) × ((start_fields t).1 < 256) × ((start_fields t).2 < 256))
        × All IsByte (start_data t data_)
        × (length (start_data t data_) ≤ 1 + length data_))
      ((omega arith, omega arith, omega arith), tt, omega arith)
      ((omega arith, omega arith, omega arith), tt, omega arith)
      ((omega arith, omega arith, omega arith), b, omega arith)
      ((omega arith, omega arith, omega arith), tt, omega arith)
      ((omega arith, omega arith, omega arith), (omega arith, b), omega arith)
      ((omega arith, omega arith, omega arith), tt, omega arith)
      ((omega arith, omega arith, omega arith), z, n)
      ((omega arith, omega arith, omega arith), tt, omega arith)
      ((omega arith, omega arith, omega arith), b, omega arith)
      ((omega arith, omega arith, omega arith), tt, omega arith) type

pub start_version-major : (type : ℕ) → is_major (start_version type) ≡ true
unfolding is_major start_version
start_version-major type = elim (Bool-cases ((type == enable_request) || (type == ascii_login))) [
  | inl e ↦ rw e refl
  | inr e ↦ rw e refl
]

pub narrow : (s : Text) → length s ≤ 31 → too_wide s ≡ false
narrow s h = let small : length s % 256 ≡ length s = omega arith in rw small (ground (arith, h))

module _ (addr : Text) (type : ℕ) (username port data_ : Text)
    (h : IsStart addr username port data_) (k : IsSent type) where
  -- The body without the cuts, which do nothing here.
  abbrev pub plain : List ℕ
  plain =
      (start_fields type).0
      ∷ 0
      ∷ (start_fields type).1
      ∷ (start_fields type).2
      ∷ (length username % 256)
      ∷ (length port % 256)
      ∷ (length addr % 256)
      ∷ (length data_ % 256)
      ∷ (username ++ (port ++ (addr ++ start_data type data_)))

  pub start_body_lem : start_body addr type username port data_ ≡ plain
  unfolding start_body
  start_body_lem = λ i.
      (start_fields type).0
      ∷ 0
      ∷ (start_fields type).1
      ∷ (start_fields type).2
      ∷ (length username % 256)
      ∷ (length port % 256)
      ∷ (length addr % 256)
      ∷ (length data_ % 256)
      ∷ (cut_lem username h.1.1 i
          ++ (cut_lem port h.2.1 i ++ (cut_lem addr h.0.1 i ++ start_data type data_)))

  pub length-plain :
      length plain
      ≡ 8 + length username + length port + length addr + length (start_data type data_)
  length-plain = omega (
    arith,
    length-append username (port ++ (addr ++ start_data type data_)),
    length-append port (addr ++ start_data type data_),
    length-append addr (start_data type data_),
  )

  pub plain-bytes : All IsByte plain
  plain-bytes =
      let (small, bytes, _) = parts-bytes type data_ h.3 k in
      let rest : All IsByte (username ++ (port ++ (addr ++ start_data type data_))) =
        All-append IsByte username (port ++ (addr ++ start_data type data_))
          (IsText-bytes username h.1.0)
          (All-append IsByte port (addr ++ start_data type data_) (IsText-bytes port h.2.0)
            (All-append IsByte addr (start_data type data_) (IsText-bytes addr h.0.0) bytes)) in
      (
        small.0,
        (
          omega arith,
          (small.1, (small.2, (omega arith, (omega arith, (omega arith, (omega arith, rest)))))),
        ),
      )

  pub get_start-plain :
      (hdr : Hdr) (a : Authen)
      → hdr.version ≡ start_version type
      → hdr.seq_no ≡ 1
      → get_start hdr plain a ≡ record {
        authen = record a { user = username; port = port; rem_addr = addr };
        res = type;
        data_ = seen type data_;
      }
  unfolding text_at
  get_start-plain hdr a v seq =
      let known = request_type-sent type k in
      let n : length data_ % 256 ≡ length data_ = omega arith in
      get_start_lem hdr a _ _ _ _ _ _ _ _ username port addr (start_data type data_) (omega arith)
        (omega arith) (omega arith) (rw v known.0) seq (omega arith) (omega arith) (omega arith)
        (omega arith) h.1.0 h.2.0 h.0.0
      ∙ λ i. record {
        authen = record a { user = username; port = port; rem_addr = addr };
        res =
            (ap
                  (λ w.
                    request_type w (start_fields type).0 (start_fields type).1
                      (start_fields type).2)
                  v
                ∙ known.1)
              i;
        data_ =
            (ap (λ m. until_nul (take m (start_data type data_))) n ∙ seen_lem type data_ h.3 k) i;
      }
