-- ===== src/Tacacs/Packet/Lengths.antt =====
-- What a header's length and sequence number let through.
use tacppd.Common.{
  ◌≡◌, ◌↔◌, refl, ℕ, ◌+◌, ◌≤◌, ◌<◌, ◌^◌, some, List, length, length-take, length-drop, arith, ltb,
  Bool-cases, Option-cases, ◌≢◌, inl, inr,
}
use tacppd.Tacacs.Header.{Hdr}
use tacppd.Tacacs.Crypt.Involution.{GivesBytes, length-md5_xor}
use tacppd.Tacacs.Packet.Sizes.{size_of-short, size_of-long, size_of-below, size_of-minus}
use tacppd.Tacacs.Packet.{
  TacacsPacket, sockread, packet, uncaught, Size, fits, too_long, huge, minus, size_of, open_body,
  read_packet, read_sized,
}

sockread-some :
    (n : ℕ) (input : List ℕ)
    → (data_ rest : List ℕ) → sockread n input ≡ some (data_, rest)
    → (length data_ ≡ n) × (length input ≡ n + length rest)
unfolding sockread
sockread-some n input data_ rest h = elim (Bool-cases (ltb (length input) n)) [
  | inl short ↦ absurd (ground arith)
  | inr enough ↦ ground (arith, length-take n input, length-drop n input)
]

size_of-fits : (n : ℕ) → size_of n ≡ fits → n ≤ 9988
size_of-fits n e = elim (Bool-cases (ltb 9988 n)) [
  | inr small ↦ ground (arith, small)
  | inl large ↦ elim (Bool-cases (ltb (n + 12) (2 ^ 31))) [
    | inl f ↦ absurd (ground (arith, size_of-long n (ground arith) (ground arith)))
    | inr f ↦ elim (Bool-cases (ltb (n + 15) (2 ^ 32))) [
      | inl g ↦ absurd (ground (arith, size_of-below n (ground arith) (ground arith)))
      | inr g ↦ absurd (ground (arith, size_of-minus n (ground arith)))
    ]
  ]
]

only : (n : ℕ) → size_of n ≡ huge → (2 ^ 31 ≤ n + 12) × (n + 15 < 2 ^ 32)
only n e = elim (Bool-cases (ltb 9988 n)) [
  | inr small ↦ absurd (ground (arith, size_of-short n (ground arith)))
  | inl large ↦ elim (Bool-cases (ltb (n + 12) (2 ^ 31))) [
    | inl f ↦ absurd (ground (arith, size_of-long n (ground arith) (ground arith)))
    | inr f ↦ elim (Bool-cases (ltb (n + 15) (2 ^ 32))) [
      | inl g ↦ ground (arith, f, g)
      | inr g ↦ absurd (ground (arith, size_of-minus n (ground arith)))
    ]
  ]
]

size_of_huge : (n : ℕ) → (size_of n ≡ huge) ↔ ((2 ^ 31 ≤ n + 12) × (n + 15 < 2 ^ 32))
size_of_huge n = (only n, λ h. size_of-below n h.0 h.1)

-- What a packet that was read tells of its header.
pub record IsRead (t : TacacsPacket) (h : Hdr) (input : List ℕ) (t' : TacacsPacket)
    (body rest : List ℕ) : Type 0 where
  pub short : h.datalength ≤ 9988
  pub whole : length body ≡ h.datalength
  pub taken : length input ≡ length body + length rest
  pub counted : t'.seq_no ≡ t.seq_no + 1
  pub in_order : t'.seq_no ≡ h.seq_no

module _ (md5 : List ℕ → List ℕ) (g : GivesBytes md5) (t : TacacsPacket) (now : ℕ) (h : Hdr)
    (input : List ℕ) where
  open_body-IsRead :
      (data_ rest0 : List ℕ) (t' : TacacsPacket) (body rest : List ℕ)
      → h.datalength ≤ 9988
      → length data_ ≡ h.datalength
      → length input ≡ h.datalength + length rest0
      → open_body md5 t now h data_ rest0 ≡ packet t' body rest
      → IsRead t h input t' body rest
  unfolding open_body
  open_body-IsRead data_ rest0 t' body rest short size took e =
      ground (arith, length-md5_xor md5 t.key h data_ g size)

  read_sized-IsRead :
      (z : Size) (t' : TacacsPacket) (body rest : List ℕ)
      → size_of h.datalength ≡ z
      → read_sized md5 t now h input z ≡ packet t' body rest
      → IsRead t h input t' body rest
  unfolding read_sized
  read_sized-IsRead fits t' body rest z e = elim (Option-cases (sockread h.datalength input)) [
    | inl failed ↦ absurd (ground arith)
    | inr ((data_, rest0), came) ↦
        let (size, took) = sockread-some h.datalength input data_ rest0 came in
        open_body-IsRead data_ rest0 t' body rest (size_of-fits h.datalength z) size took
          (ground arith)
  ]
  read_sized-IsRead too_long t' body rest z e = absurd (ground arith)
  read_sized-IsRead huge t' body rest z e = absurd (ground arith)
  read_sized-IsRead minus t' body rest z e = absurd (ground arith)

  open_body_caught : (data_ rest : List ℕ) → open_body md5 t now h data_ rest ≢ uncaught
  unfolding open_body
  open_body_caught data_ rest e = ground arith

  read_sized_uncaught : (z : Size) → read_sized md5 t now h input z ≡ uncaught → z ≡ huge
  unfolding read_sized
  read_sized_uncaught fits e = elim (Option-cases (sockread h.datalength input)) [
    | inl failed ↦ absurd (ground arith)
    | inr ((data_, rest), came) ↦ absurd (open_body_caught data_ rest (ground arith))
  ]
  read_sized_uncaught too_long e = absurd (ground arith)
  read_sized_uncaught huge e = refl
  read_sized_uncaught minus e = absurd (ground arith)

  -- A packet is read only with a length of at most 9988 bytes, all of which came in, and with the
  -- sequence number that follows the last one.
  pub read_packet-IsRead :
      (t' : TacacsPacket) (body rest : List ℕ)
      → read_packet md5 t now h input ≡ packet t' body rest
      → IsRead t h input t' body rest
  unfolding read_packet
  read_packet-IsRead t' body rest e = read_sized-IsRead (size_of h.datalength) t' body rest refl e

  -- A header alone makes `read_packet` throw, whatever the key and the bytes that follow: that is
  -- so exactly for the lengths from 2 ^ 31 - 12 to 2 ^ 32 - 16.
  pub read_packet_uncaught :
      (read_packet md5 t now h input ≡ uncaught)
      ↔ ((2 ^ 31 ≤ h.datalength + 12) × (h.datalength + 15 < 2 ^ 32))
  unfolding read_packet
  read_packet_uncaught = (
    λ e. (size_of_huge h.datalength).0 (read_sized_uncaught (size_of h.datalength) e),
    λ b. rw ((size_of_huge h.datalength).1 b) refl,
  )
