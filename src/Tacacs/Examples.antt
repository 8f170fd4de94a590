-- ===== src/Tacacs/Examples.antt =====
-- Packets on the wire, and each theorem at an input that meets its hypotheses. The digest is 16
-- bytes of 7.
use tacppd.Common.{
  ◌≡◌, ◌↔◌, refl, ℕ, ◌+◌, ◌≤◌, ◌<◌, ◌^◌, some, List, [], ◌∷◌, ◌++◌, codes, All, arith, str_eq,
}
use tacppd.Tacacs.Header.{Hdr, encode, be32}
use tacppd.Tacacs.Crypt.{md5_xor, xor_blocks, xor_bytes, flip_flag, create_md5_hash}
use tacppd.Tacacs.Crypt.Bytes.{IsByte}
use tacppd.Tacacs.Crypt.Involution.{GivesBytes}
use tacppd.Tacacs.Packet.{
  TacacsPacket, new_packet, read_packet_header, read_packet, write_packet, packet, uncaught,
  is_major, sockread, size_of, read_sized, open_body,
}
use tacppd.Tacacs.Packet.RoundTrip.{sent_header, read_packet-write_packet}
use tacppd.Tacacs.Packet.Lengths.{IsRead, read_packet-IsRead, read_packet_uncaught}

abbrev pub sevens : List ℕ → List ℕ
sevens s = 7 ∷ 7 ∷ 7 ∷ 7 ∷ 7 ∷ 7 ∷ 7 ∷ 7 ∷ 7 ∷ 7 ∷ 7 ∷ 7 ∷ 7 ∷ 7 ∷ 7 ∷ 7 ∷ []

pub sevens-GivesBytes : GivesBytes sevens
sevens-GivesBytes s =
    let b : IsByte 7 = omega arith in
    (b, (b, (b, (b, (b, (b, (b, (b, (b, (b, (b, (b, (b, (b, (b, (b, tt))))))))))))))))

abbrev server : TacacsPacket
server = record (new_packet (codes "key") 5) { seq_no = 1 }

abbrev start : Hdr
start = record {
  version = 192;
  type = 1;
  seq_no = 2;
  encryption = 1;
  session_id = 77;
  datalength = 3;
}

abbrev body : List ℕ
body = 1 ∷ 2 ∷ 255 ∷ []

body-bytes : All IsByte body
body-bytes = (omega arith, (omega arith, (omega arith, tt)))

three_written :
    (write_packet sevens server 9 start body).1
    ≡ 192 ∷ 1 ∷ 2 ∷ 0 ∷ 0 ∷ 0 ∷ 0 ∷ 77 ∷ 0 ∷ 0 ∷ 0 ∷ 3 ∷ 6 ∷ 5 ∷ 248 ∷ []
unfolding write_packet md5_xor xor_blocks xor_bytes flip_flag create_md5_hash encode be32 str_eq
three_written = refl

read_packet-write_packet_example :
    (input : List ℕ) × (read_packet_header ((write_packet sevens server 9 start body).1 ++ 4 ∷ [])
      ≡ some (sent_header (codes "key") start, input))
    × (read_packet sevens server 10 (sent_header (codes "key") start) input
        ≡ packet (record server { seq_no = 2; last_exch = 10; version = 192 }) body (4 ∷ []))
unfolding is_major
read_packet-write_packet_example =
    read_packet-write_packet sevens server server 9 10 start body (4 ∷ []) sevens-GivesBytes
      body-bytes refl (omega arith) (omega arith) refl refl refl

three_read :
    read_packet sevens server 10 start (6 ∷ 5 ∷ 248 ∷ 4 ∷ [])
    ≡ packet (record server { seq_no = 2; last_exch = 10; version = 192 }) body (4 ∷ [])
unfolding read_packet md5_xor xor_blocks xor_bytes flip_flag create_md5_hash str_eq sockread size_of
    read_sized open_body
three_read = refl

read_packet-IsRead_example :
    IsRead server start
      (6 ∷ 5 ∷ 248 ∷ 4 ∷ [])
      (record server { seq_no = 2; last_exch = 10; version = 192 })
      body
      (4 ∷ [])
read_packet-IsRead_example =
    read_packet-IsRead sevens sevens-GivesBytes server 10 start (6 ∷ 5 ∷ 248 ∷ 4 ∷ [])
      (record server { seq_no = 2; last_exch = 10; version = 192 }) body (4 ∷ []) three_read

abbrev vast : Hdr
vast = record start { datalength = 4294967000 }

read_packet_uncaught_example :
    (read_packet sevens server 10 vast [] ≡ uncaught)
    ↔ ((2 ^ 31 ≤ 4294967000 + 12) × (4294967000 + 15 < 2 ^ 32))
read_packet_uncaught_example = read_packet_uncaught sevens sevens-GivesBytes server 10 vast []
