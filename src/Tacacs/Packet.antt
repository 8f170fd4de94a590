-- ===== src/Tacacs/Packet.antt =====
-- Reading and writing whole packets: `TacacsPacket` and `TacacsPacketReader::read_packet_header`.
-- The socket is the list of bytes that still come in; a read of more than that many bytes fails, at
-- the end of the stream or by its timeout (`Packet::sockread`).
pub mod RoundTrip
pub mod Sizes
pub mod Lengths
use Prim.Native.Nat.{bit_and}
use tacppd.Common.{
  ℕ, ◌+◌, ◌-◌, ◌^◌, Bool, true, false, Option, none, some, List, [], ◌∷◌, ◌++◌, Text, take, drop,
  length, if◌then◌else◌, ◌==◌, ltb, leb,
}
use tacppd.Common.Int.{ℤ, pos, negsuc, int_lt}
use tacppd.Tacacs.Header.{Hdr, hdr_size, encode, decode}
use tacppd.Tacacs.Crypt.{md5_xor}

-- `class TacacsPacket`, its socket and peer left out.
pub record TacacsPacket : Type 0 where
  pub session_id : ℕ
  pub aborted : ℕ
  pub seq_no : ℕ
  pub key : Text
  pub last_exch : ℕ
  pub version : ℕ

-- The constructor.
abbrev pub new_packet : Text → ℕ → TacacsPacket
new_packet k d = record {
  session_id = d;
  aborted = 0;
  seq_no = 0;
  key = k;
  last_exch = 0;
  version = 0;
}

unfoldable pub sockread : ℕ → List ℕ → Option (List ℕ × List ℕ)
sockread n input = if ltb (length input) n then none else some (take n input, drop n input)

-- `(version & TAC_PLUS_MAJOR_VER_MASK) == TAC_PLUS_MAJOR_VER`.
unfoldable pub is_major : ℕ → Bool
is_major v = bit_and v 0xf0 == 0xc0

-- The next header, of the right major version, and what follows it.
unfoldable pub read_packet_header : List ℕ → Option (Hdr × List ℕ)
unfolding sockread is_major
read_packet_header input = elim (sockread hdr_size input) [
  | none ↦ none
  | some (front, rest) ↦ elim (decode front) [
    | none ↦ none
    | some (hdr, _) ↦ if is_major hdr.version then some (hdr, rest) else none
  ]
]

-- A body and what follows it; a refusal, for which the server drops the connection; or an exception
-- that `read_packet` does not catch.
pub data ReadResult : Type 0 where
  packet : TacacsPacket → List ℕ → List ℕ → ReadResult
  refused : TacacsPacket → ReadResult
  uncaught : ReadResult

-- What the 32 bits of `n` are as an `int`. (Of more bits nothing is meant.)
unfoldable pub to_int : ℕ → ℤ
to_int n = if ltb n (2 ^ 31) then pos n else negsuc (2 ^ 32 - 1 - n)

-- `k + i` for an `int` and a small `k`. Beyond 2 ^ 31 - 1, where C++ leaves the sum undefined, it goes
-- on from the least number, the way the usual hardware has it.
unfoldable pub plus_int : ℕ → ℤ → ℤ
unfolding to_int
plus_int k (pos n) = to_int (k + n)
plus_int k (negsuc n) = if ltb n k then pos (k - 1 - n) else negsuc (n - k)

-- What `read_packet` makes of the length: `len` is more than 10000; `new unsigned char[len + 3]`
-- throws for a number below zero; the read of a negative number of bytes fails; or it fits.
pub data Size : Type 0 where
  fits too_long huge minus : Size

unfoldable pub size_of : ℕ → Size
unfolding to_int plus_int
size_of datalength =
    let datalen = to_int datalength in
    let len = plus_int hdr_size datalen in
    if int_lt (pos 10000) len
    then too_long
    else if int_lt (plus_int 3 len) (pos 0)
    then huge
    else if int_lt datalen (pos 0)
    then minus
    else fits

-- The sequence number is counted up before it is compared, and stays so.
unfoldable pub open_body : (List ℕ → List ℕ) → TacacsPacket → ℕ → Hdr → List ℕ → List ℕ → ReadResult
open_body md5 t now hdr data_ rest =
    if t.seq_no + 1 == hdr.seq_no
    then packet (record t { seq_no = t.seq_no + 1; last_exch = now; version = hdr.version })
        (md5_xor md5 t.key hdr data_).1 rest
    else refused (record t { seq_no = t.seq_no + 1; last_exch = now })

unfoldable pub read_sized : (List ℕ → List ℕ) → TacacsPacket → ℕ → Hdr → List ℕ → Size → ReadResult
unfolding open_body sockread
read_sized md5 t now hdr input fits = elim (sockread hdr.datalength input) [
  | none ↦ refused t
  | some (data_, rest) ↦ open_body md5 t now hdr data_ rest
]
read_sized md5 t now hdr input too_long = refused t
read_sized md5 t now hdr input huge = uncaught
read_sized md5 t now hdr input minus = refused t

-- `read_packet(h)`, with the time of the call.
unfoldable pub read_packet : (List ℕ → List ℕ) → TacacsPacket → ℕ → Hdr → List ℕ → ReadResult
unfolding read_sized size_of
read_packet md5 t now hdr input = read_sized md5 t now hdr input (size_of hdr.datalength)

-- `write_packet`: the bytes that go to the socket, and the packet when the socket took them all.
unfoldable pub write_packet :
    (List ℕ → List ℕ) → TacacsPacket → ℕ → Hdr → List ℕ → TacacsPacket × List ℕ
write_packet md5 t now hdr data_ =
    let sent = md5_xor md5 t.key hdr data_ in
    (record t { last_exch = now; version = hdr.version }, encode sent.0 ++ sent.1)

-- The next packet of one session, read by what its type calls for, and the bytes that are left.
unfoldable pub receive {ℓ} :
    {A : Type ℓ}
    → (Hdr → List ℕ → A)
    → (List ℕ → List ℕ)
    → TacacsPacket
    → ℕ
    → List ℕ
    → Option (A × List ℕ)
unfolding read_packet_header read_packet
receive read md5 t now input = elim (read_packet_header input) [
  | none ↦ none
  | some (hdr, behind) ↦ elim (read_packet md5 t now hdr behind) [
    | packet _ body rest ↦ some (read hdr body, rest)
    | _ ↦ none
  ]
]
