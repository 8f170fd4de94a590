-- ===== src/Tacacs/Packet/RoundTrip.antt =====
-- A packet that one side writes is read by the other.
use tacppd.Common.{
  ◌≡◌, refl, ap, ◌∙◌, ℕ, ◌+◌, ◌≤◌, ◌<◌, ◌^◌, true, some, List, [], ◌++◌, Text, length,
  take-length_append, drop-length_append, All, arith, length-append, str_eq, codes, if◌then◌else◌,
}
use mathlib.Core.List.{append-nil, append_assoc}
use tacppd.Tacacs.Packet.Sizes.{size_of-short}
use tacppd.Tacacs.Header.{Hdr, clear, encode, decode-encode}
use tacppd.Tacacs.Crypt.{md5_xor, flip_flag}
use tacppd.Tacacs.Crypt.Bytes.{IsByte}
use tacppd.Tacacs.Crypt.Involution.{GivesBytes, sealed, md5_xor-md5_xor, length-md5_xor}
use tacppd.Tacacs.Packet.{
  TacacsPacket, sockread, is_major, read_packet_header, packet, read_packet, write_packet, receive,
}

sockread-append :
    (n : ℕ) (xs rest : List ℕ) → length xs ≡ n → sockread n (xs ++ rest) ≡ some (xs, rest)
unfolding sockread
sockread-append n xs rest e =
    rw (← e, take-length_append xs rest, drop-length_append xs rest)
      (ground (arith, length-append xs rest))

length-encode : (h : Hdr) → length (encode h) ≡ 12
unfolding encode
length-encode h = refl

read_packet_header-encode :
    (h : Hdr) (rest : List ℕ)
    → h.session_id < 2 ^ 32
    → h.datalength < 2 ^ 32
    → is_major h.version ≡ true
    → read_packet_header (encode h ++ rest) ≡ some (h, rest)
unfolding read_packet_header
read_packet_header-encode h rest s n major = ground (
  arith,
  sockread-append 12 (encode h) rest (length-encode h),
  decode-encode h [] s n,
  append-nil (encode h),
)

-- The header that is sent: its flag says whether the body is encrypted.
abbrev pub sent_header : Text → Hdr → Hdr
sent_header key hdr = record hdr {
  encryption = if str_eq key (codes "none") then clear else flip_flag hdr.encryption;
}

md5_xor-header :
    (md5 : List ℕ → List ℕ) (key : Text) (hdr : Hdr) (data_ : List ℕ)
    → (md5_xor md5 key hdr data_).0 ≡ sent_header key hdr
unfolding md5_xor
md5_xor-header md5 key hdr data_ = ground arith

read_packet_lem :
    (md5 : List ℕ → List ℕ) (r : TacacsPacket) (now : ℕ) (h : Hdr) (body rest : List ℕ)
    → length body ≡ h.datalength
    → h.datalength ≤ 9988
    → h.seq_no ≡ r.seq_no + 1
    → read_packet md5 r now h (body ++ rest)
      ≡ packet
          (record r { seq_no = h.seq_no; last_exch = now; version = h.version })
          (md5_xor md5 r.key h body).1
          rest
unfolding read_packet
read_packet_lem md5 r now h body rest size short seq =
    rw (size_of-short h.datalength short)
      (ground (arith, sockread-append h.datalength body rest size))

-- A body that one side writes is what the other side reads, if both have the same key and the
-- reader waits for the header's sequence number: header and body come back whole, but for the flag
-- that the writer sets, and what follows them on the wire stays. The body is bytes, of the length
-- that the header says, up to 9988.
pub read_packet-write_packet :
    (md5 : List ℕ → List ℕ) (t r : TacacsPacket) (sent now : ℕ) (hdr : Hdr) (data_ rest : List ℕ)
    → GivesBytes md5
    → All IsByte data_
    → length data_ ≡ hdr.datalength
    → hdr.datalength ≤ 9988
    → hdr.session_id < 2 ^ 32
    → is_major hdr.version ≡ true
    → r.key ≡ t.key
    → hdr.seq_no ≡ r.seq_no + 1
    → (input : List ℕ) × (read_packet_header ((write_packet md5 t sent hdr data_).1 ++ rest)
        ≡ some (sent_header t.key hdr, input))
      × (read_packet md5 r now (sent_header t.key hdr) input
          ≡ packet
              (record r { seq_no = hdr.seq_no; last_exch = now; version = hdr.version })
              data_
              rest)
unfolding write_packet
read_packet-write_packet md5 t r sent now hdr data_ rest g b size short s major key seq = (
  sealed md5 t.key hdr data_ ++ rest,
  rw
      (
        md5_xor-header md5 t.key hdr data_,
        append_assoc (encode (sent_header t.key hdr)) (sealed md5 t.key hdr data_) rest,
      )
      (read_packet_header-encode (sent_header t.key hdr) (sealed md5 t.key hdr data_ ++ rest) s
        (omega arith) major),
  read_packet_lem md5 r now (sent_header t.key hdr) (sealed md5 t.key hdr data_) rest
        (length-md5_xor md5 t.key hdr data_ g size) short seq
      ∙ ap
          (λ d.
            packet (record r { seq_no = hdr.seq_no; last_exch = now; version = hdr.version }) d
              rest)
          (ap (λ k. sealed md5 k (sent_header t.key hdr) (sealed md5 t.key hdr data_)) key
            ∙ md5_xor-md5_xor md5 t.key hdr (sent_header t.key hdr).encryption data_ g b size),
)

receive-some {ℓ} :
    {A : Type ℓ} (read : Hdr → List ℕ → A) (md5 : List ℕ → List ℕ) (r r' : TacacsPacket) (now : ℕ)
    → (bytes input body rest : List ℕ) (hdr : Hdr) → read_packet_header bytes ≡ some (hdr, input)
    → read_packet md5 r now hdr input ≡ packet r' body rest
    → receive read md5 r now bytes ≡ some (read hdr body, rest)
unfolding receive
receive-some read md5 r r' now bytes input body rest hdr e f = ground (arith, e, f)

-- The same, with what the other side reads in header and body.
pub receive-write_packet {ℓ} :
    {A : Type ℓ} (read : Hdr → List ℕ → A)
    → (md5 : List ℕ → List ℕ) (t r : TacacsPacket) (sent now : ℕ) (hdr : Hdr) (data_ rest : List ℕ)
    → GivesBytes md5
    → All IsByte data_
    → length data_ ≡ hdr.datalength
    → hdr.datalength ≤ 9988
    → hdr.session_id < 2 ^ 32
    → is_major hdr.version ≡ true
    → r.key ≡ t.key
    → hdr.seq_no ≡ r.seq_no + 1
    → receive read md5 r now ((write_packet md5 t sent hdr data_).1 ++ rest)
      ≡ some (read (sent_header t.key hdr) data_, rest)
receive-write_packet read md5 t r sent now hdr data_ rest g b size short s major key seq =
    let known =
      read_packet-write_packet md5 t r sent now hdr data_ rest g b size short s major key seq in
    receive-some read md5 r _ now _ known.0 data_ rest (sent_header t.key hdr) known.1 known.2

-- Who reads on in what was read.
pub receive-map {ℓ κ} :
    {A : Type ℓ} {B : Type κ} (read : Hdr → List ℕ → A) (f : A → B) (md5 : List ℕ → List ℕ)
    → (r : TacacsPacket) (now : ℕ) (bytes rest : List ℕ) (a : A)
    → receive read md5 r now bytes ≡ some (a, rest)
    → receive (λ hdr body. f (read hdr body)) md5 r now bytes ≡ some (f a, rest)
unfolding receive
receive-map read f md5 r now bytes rest a h = ground (arith, h)
