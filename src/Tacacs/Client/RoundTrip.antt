-- ===== src/Tacacs/Client/RoundTrip.antt =====
-- A start packet from the client to the server, through `write_packet`, `read_packet_header`,
-- `read_packet` and `get_start`.
use tacppd.Common.{
  ◌≡◌, refl, ap, ◌∙◌, ℕ, ◌+◌, ◌<◌, ◌^◌, List, ◌++◌, Text, length, arith, take_all, true, ◌||◌, leb,
  if◌then◌else◌, some,
}
use tacppd.Tacacs.Crypt.Involution.{GivesBytes}
use tacppd.Tacacs.Packet.{TacacsPacket, write_packet, receive}
use tacppd.Tacacs.Packet.RoundTrip.{sent_header, receive-write_packet}
use tacppd.Tacacs.Intake.{Authen, get_start}
use tacppd.Tacacs.Client.{
  start_data, start_body, start_header, too_wide, fits, Sent, sent, refused, overrun,
  authen_send_start,
}
use tacppd.Tacacs.Client.Starts.{IsSent, seen}
use tacppd.Tacacs.Client.Body.{
  IsStart, parts-bytes, start_version-major, narrow, plain, start_body_lem, length-plain,
  plain-bytes, get_start-plain,
}

module _ (addr : Text) (type : ℕ) (username port data_ : Text)
    (h : IsStart addr username port data_) (k : IsSent type) where
  receive_lem :
      (md5 : List ℕ → List ℕ) (t s : TacacsPacket) (a : Authen) (now later : ℕ) (rest : List ℕ)
      → GivesBytes md5
      → t.session_id < 2 ^ 32
      → s.key ≡ t.key
      → t.seq_no ≡ 0
      → s.seq_no ≡ 0
      → receive
          (λ hdr body. get_start hdr body a)
          md5
          s
          later
          ((write_packet md5
              (record t { seq_no = t.seq_no + 1 })
              now
              (start_header t addr type username port data_)
              (plain addr type username port data_ h k)).1
            ++ rest)
        ≡ some (
          record {
            authen = record a { user = username; port = port; rem_addr = addr };
            res = type;
            data_ = seen type data_;
          },
          rest,
        )
  unfolding start_header
  receive_lem md5 t s a now later rest g id key first fresh =
      let hdr = start_header t addr type username port data_ in
      let short = (parts-bytes type data_ h.3 k).2 in
      receive-write_packet (λ h' b. get_start h' b a) md5 (record t { seq_no = t.seq_no + 1 }) s now
        later hdr (plain addr type username port data_ h k) rest g
        (plain-bytes addr type username port data_ h k)
        (length-plain addr type username port data_ h k) (omega (arith, short)) id
        (start_version-major type) key (omega arith)
      ∙ ap (λ r. some (r, rest))
          ((get_start-plain addr type username port data_ h k) (sent_header t.key hdr) a refl
            (omega arith))

  fits_lem : fits addr type username port data_ ≡ true
  unfolding fits
  fits_lem =
      let short = (parts-bytes type data_ h.3 k).2 in
      let one : leb (8 + length username + 31) 244 ≡ true = ground (arith, h.1.1) in
      let two : leb (8 + length username + length port + 31) 244 ≡ true =
        ground (arith, h.1.1, h.2.1) in
      let all : leb
            (8 + length username + length port + length addr + length (start_data type data_)) 243
          ≡ true =
        ground (arith, h.4, short) in
      rw (one, two, all) (ground arith)

  authen_send_start_lem :
      (md5 : List ℕ → List ℕ) (t : TacacsPacket) (now : ℕ)
      → authen_send_start md5 t now addr port username type data_
        ≡ sent
            (write_packet md5
              (record t { seq_no = t.seq_no + 1 })
              now
              (start_header t addr type username port data_)
              (plain addr type username port data_ h k)).0
            (write_packet md5
              (record t { seq_no = t.seq_no + 1 })
              now
              (start_header t addr type username port data_)
              (plain addr type username port data_ h k)).1
  unfolding authen_send_start
  authen_send_start_lem md5 t now =
      let send : Text → List ℕ → Sent = λ ad b.
        let (t', bytes) =
          write_packet md5 (record t { seq_no = t.seq_no + 1 }) now
            (start_header t ad type username port data_) b in
        if too_wide username || (too_wide port || too_wide ad)
        then refused (record t { seq_no = t.seq_no + 1 })
        else if fits ad type username port data_
        then sent t' bytes
        else overrun in
      ap (λ ad. send ad (start_body ad type username port data_)) (take_all 56 addr (omega arith))
      ∙ ap (send addr) (start_body_lem addr type username port data_ h k)
      ∙ rw (narrow username h.1.1, narrow port h.2.1, narrow addr h.0.1, fits_lem) refl

-- A start packet that the client sends, as the first packet of a session, to a server with the same
-- key: the server reads the user, the port, the client's address and the type of the request, and
-- what follows on the wire stays. The data is read for a PAP or ARAP login, without its last byte
-- for a CHAP login, and not for the others. The texts have no 0 in them, each has at most 31 bytes,
-- and with the data they have at most 234. The digest is bytes, and
-- the number of the session has 32 bits.
pub receive-authen_send_start :
    (md5 : List ℕ → List ℕ) (t s : TacacsPacket) (a : Authen) (now later : ℕ)
    → (addr port username : Text) (type : ℕ) (data_ rest : Text) → GivesBytes md5
    → IsStart addr username port data_
    → IsSent type
    → t.session_id < 2 ^ 32
    → s.key ≡ t.key
    → t.seq_no ≡ 0
    → s.seq_no ≡ 0
    → (t' : TacacsPacket) × (bytes : List ℕ) × (authen_send_start md5 t now addr port username type
          data_
        ≡ sent t' bytes)
      × (receive (λ hdr body. get_start hdr body a) md5 s later (bytes ++ rest)
          ≡ some (
            record {
              authen = record a { user = username; port = port; rem_addr = addr };
              res = type;
              data_ = seen type data_;
            },
            rest,
          ))
receive-authen_send_start md5 t s a now later addr port username type data_ rest g h k id key first
      fresh =
    let out =
      write_packet md5 (record t { seq_no = t.seq_no + 1 }) now
        (start_header t addr type username port data_) (plain addr type username port data_ h k) in
    (
      out.0,
      out.1,
      authen_send_start_lem addr type username port data_ h k md5 t now,
      receive_lem addr type username port data_ h k md5 t s a now later rest g id key first fresh,
    )
