-- ===== src/Tacacs/Crypt/Involution.antt =====
-- Encrypting twice gives the data back.

use mathlib.Core.List.{append-nil}
use tacppd.Common.{
  ◌≡◌, refl, sym, ap, ◌∙◌, ℕ, zero, suc, ◌≤◌, true, false, leb, leb→le, drop_all, Option, none,
  some, List, [], ◌∷◌, ◌++◌, Text, take, drop, length, take_all, length-take, length-drop,
  length-append, take-append-drop, take-length_append, drop-length_append, All, arith, str_eq,
  codes, Bool-cases, inl, inr,
}
use tacppd.Tacacs.Header.{Hdr}
use tacppd.Tacacs.Crypt.Bytes.{IsByte, xor-IsByte}
use tacppd.Tacacs.Crypt.{xor_bytes, xor_blocks, create_md5_hash, md5_xor}

length-xor_bytes : (d h : List ℕ) → length (xor_bytes d h) ≡ length d
unfolding xor_bytes
length-xor_bytes [] h = refl
length-xor_bytes (x ∷ d) [] = refl
length-xor_bytes (x ∷ d) (y ∷ h) = ap suc (length-xor_bytes d h)

xor_bytes-xor_bytes : (d h : List ℕ) → All IsByte d → All IsByte h → xor_bytes (xor_bytes d h) h ≡ d
unfolding xor_bytes
xor_bytes-xor_bytes [] h bd bh = refl
xor_bytes-xor_bytes (x ∷ d) [] bd bh = refl
xor_bytes-xor_bytes (x ∷ d) (y ∷ h) bd bh =
    cc ((xor-IsByte x y bd.0 bh.0).0, xor_bytes-xor_bytes d h bd.1 bh.1)

xor_bytes-IsByte : (d h : List ℕ) → All IsByte d → All IsByte h → All IsByte (xor_bytes d h)
unfolding xor_bytes
xor_bytes-IsByte [] h bd bh = tt
xor_bytes-IsByte (x ∷ d) [] bd bh = bd
xor_bytes-IsByte (x ∷ d) (y ∷ h) bd bh =
    ((xor-IsByte x y bd.0 bh.0).1, xor_bytes-IsByte d h bd.1 bh.1)

All-take : (n : ℕ) (xs : List ℕ) → All IsByte xs → All IsByte (take n xs)
All-take zero xs h = tt
All-take (suc n) [] h = tt
All-take (suc n) (x ∷ xs) h = (h.0, All-take n xs h.1)

All-drop : (n : ℕ) (xs : List ℕ) → All IsByte xs → All IsByte (drop n xs)
All-drop zero xs h = h
All-drop (suc n) [] h = tt
All-drop (suc n) (x ∷ xs) h = All-drop n xs h.1

take_append :
    (n : ℕ) (xs ys : List ℕ) → length xs ≡ n → (take n (xs ++ ys) ≡ xs) × (drop n (xs ++ ys) ≡ ys)
take_append n xs ys e = rw (← e) (take-length_append xs ys, drop-length_append xs ys)

take_append_end :
    (n : ℕ) (xs : List ℕ) → length xs ≤ n → (take n (xs ++ []) ≡ xs) × (drop n (xs ++ []) ≡ [])
take_append_end n xs h = rw (append-nil xs) (take_all n xs h, drop_all n xs h)

module _ (next : Option (List ℕ) → List ℕ)
    (bytes : (p : Option (List ℕ)) → All IsByte (next p)) where
  xor_blocks_nil : (fuel : ℕ) (prev : Option (List ℕ)) → xor_blocks fuel next prev [] ≡ []
  unfolding xor_blocks
  xor_blocks_nil zero prev = refl
  xor_blocks_nil (suc fuel) prev = refl

  -- The first block of a result is the result of the first block, and so is what follows.
  split_block :
      (fuel : ℕ) (prev : Option (List ℕ)) (h data_ : List ℕ)
      → let a = xor_bytes (take 16 data_) h in
        let r = xor_blocks fuel next prev (drop 16 data_) in
        (take 16 (a ++ r) ≡ a) × (drop 16 (a ++ r) ≡ r)
  split_block fuel prev h data_ = elim (Bool-cases (leb 16 (length data_))) [
    | inl long ↦ take_append 16 _ _ (
        omega (
          arith,
          length-xor_bytes (take 16 data_) h,
          length-take 16 data_,
          leb→le 16 (length data_) long,
        ))
    | inr short ↦
        rw (drop_all 16 data_ (ground arith), xor_blocks_nil)
          (take_append_end 16 _
            (omega (arith, length-xor_bytes (take 16 data_) h, length-take 16 data_)))
  ]

  xor_blocks_cons :
      (fuel : ℕ) (prev : Option (List ℕ)) (data_ : List ℕ)
      → xor_blocks (suc fuel) next prev data_
        ≡ xor_bytes (take 16 data_) (next prev)
          ++ xor_blocks fuel next (some (next prev)) (drop 16 data_)
  unfolding xor_blocks
  xor_blocks_cons fuel prev [] = sym (xor_blocks_nil fuel (some (next prev)))
  xor_blocks_cons fuel prev (d ∷ data_) = refl

  length-xor_blocks :
      (fuel : ℕ) (prev : Option (List ℕ)) (data_ : List ℕ)
      → length (xor_blocks fuel next prev data_) ≡ length data_
  length-xor_blocks zero prev data_ = unfold xor_blocks in refl
  length-xor_blocks (suc fuel) prev data_ = rw (xor_blocks_cons fuel prev data_) (
      omega (
        arith,
        length-append (xor_bytes (take 16 data_) (next prev))
            (xor_blocks fuel next (some (next prev)) (drop 16 data_)),
        length-xor_blocks fuel (some (next prev)) (drop 16 data_),
        length-xor_bytes (take 16 data_) (next prev),
        length-take 16 data_,
        length-drop 16 data_,
      ))

  xor_blocks-xor_blocks :
      (fuel : ℕ) (prev : Option (List ℕ)) (data_ : List ℕ)
      → All IsByte data_
      → xor_blocks fuel next prev (xor_blocks fuel next prev data_) ≡ data_
  xor_blocks-xor_blocks zero prev data_ b = unfold xor_blocks in refl
  xor_blocks-xor_blocks (suc fuel) prev data_ b =
      let h = next prev in
      let (first, rest) = split_block fuel (some h) h data_ in
      rw
        (
          xor_blocks_cons fuel prev data_,
          xor_blocks_cons fuel prev
              (xor_bytes (take 16 data_) h ++ xor_blocks fuel next (some h) (drop 16 data_)),
          first,
          rest,
          xor_bytes-xor_bytes (take 16 data_) h (All-take 16 data_ b) (bytes prev),
          xor_blocks-xor_blocks fuel (some h) (drop 16 data_) (All-drop 16 data_ b),
        )
        (take-append-drop 16 data_)

-- What is asked of MD5: its results are bytes.
abbrev pub GivesBytes : (List ℕ → List ℕ) → Type 0
GivesBytes md5 = (s : List ℕ) → All IsByte (md5 s)

create_md5_hash-IsByte :
    (md5 : List ℕ → List ℕ) (key : Text) (sess v seq : ℕ)
    → GivesBytes md5
    → (p : Option (List ℕ)) → All IsByte (create_md5_hash md5 key sess v seq p)
unfolding create_md5_hash
create_md5_hash-IsByte md5 key sess v seq g none = g _
create_md5_hash-IsByte md5 key sess v seq g (some p) = g _

-- The body after encryption.
abbrev pub sealed : (List ℕ → List ℕ) → Text → Hdr → List ℕ → List ℕ
sealed md5 key hdr data_ = (md5_xor md5 key hdr data_).1

abbrev next_hash : (List ℕ → List ℕ) → Text → Hdr → Option (List ℕ) → List ℕ
next_hash md5 key hdr = create_md5_hash md5 key hdr.session_id hdr.version hdr.seq_no

sealed_plain :
    (md5 : List ℕ → List ℕ) (key : Text) (hdr : Hdr) (data_ : List ℕ)
    → str_eq key (codes "none") ≡ true
    → sealed md5 key hdr data_ ≡ data_
unfolding md5_xor
sealed_plain md5 key hdr data_ plain = ground arith

sealed_keyed :
    (md5 : List ℕ → List ℕ) (key : Text) (hdr : Hdr) (data_ : List ℕ)
    → str_eq key (codes "none") ≡ false
    → length data_ ≡ hdr.datalength
    → sealed md5 key hdr data_ ≡ xor_blocks (length data_) (next_hash md5 key hdr) none data_
unfolding md5_xor
sealed_keyed md5 key hdr data_ keyed size = ground (
  arith,
  take_all hdr.datalength data_,
  drop_all hdr.datalength data_,
  append-nil (xor_blocks (length data_) (next_hash md5 key hdr) none data_),
)

pub length-md5_xor :
    (md5 : List ℕ → List ℕ) (key : Text) (hdr : Hdr) (data_ : List ℕ)
    → GivesBytes md5
    → length data_ ≡ hdr.datalength
    → length (sealed md5 key hdr data_) ≡ hdr.datalength
length-md5_xor md5 key hdr data_ g size = elim (Bool-cases (str_eq key (codes "none"))) [
  | inl plain ↦ rw (sealed_plain md5 key hdr data_ plain) size
  | inr keyed ↦ rw (sealed_keyed md5 key hdr data_ keyed size) (
      length-xor_blocks (next_hash md5 key hdr)
        (create_md5_hash-IsByte md5 key hdr.session_id hdr.version hdr.seq_no g) (length data_) none
        data_
      ∙ size)
]

-- The body is opened by the call that sealed it, with any flag in the header.
pub md5_xor-md5_xor :
    (md5 : List ℕ → List ℕ) (key : Text) (hdr : Hdr) (flag : ℕ) (data_ : List ℕ)
    → GivesBytes md5
    → All IsByte data_
    → length data_ ≡ hdr.datalength
    → sealed md5 key (record hdr { encryption = flag }) (sealed md5 key hdr data_) ≡ data_
md5_xor-md5_xor md5 key hdr flag data_ g b size = elim (Bool-cases (str_eq key (codes "none"))) [
  | inl plain ↦
      sealed_plain md5 key (record hdr { encryption = flag }) (sealed md5 key hdr data_) plain
      ∙ sealed_plain md5 key hdr data_ plain
  | inr keyed ↦
      let next = next_hash md5 key hdr in
      let bytes = create_md5_hash-IsByte md5 key hdr.session_id hdr.version hdr.seq_no g in
      let kept = length-md5_xor md5 key hdr data_ g size in
      sealed_keyed md5 key (record hdr { encryption = flag }) (sealed md5 key hdr data_) keyed kept
      ∙ rw (kept ∙ sym size, sealed_keyed md5 key hdr data_ keyed size)
          (xor_blocks-xor_blocks next bytes (length data_) none data_ b)
]
