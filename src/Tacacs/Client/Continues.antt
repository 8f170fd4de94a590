-- ===== src/Tacacs/Client/Continues.antt =====
-- A CONTINUE packet from the client to the server's `get_cont`.
use tacppd.Common.{
  ◌≡◌, refl, ap, ◌∙◌, ℕ, ◌+◌, ◌*◌, ◌/◌, ◌%◌, ◌<◌, ◌≤◌, ◌^◌, List, [], ◌∷◌, ◌++◌, Text, length,
  length-append, All, All-append, arith, ◌==◌, true, false, leb, ltb, some,
}
use tacppd.Tacacs.Header.{Hdr}
use tacppd.Tacacs.Crypt.Bytes.{IsByte}
use tacppd.Tacacs.Crypt.Involution.{GivesBytes}
use tacppd.Tacacs.Packet.{TacacsPacket, write_packet, receive, is_major}
use tacppd.Tacacs.Packet.RoundTrip.{sent_header, receive-write_packet}
use tacppd.Tacacs.Wire.{byte_at, text_at}
use tacppd.Tacacs.Wire.Texts.{IsText, IsText-bytes, text_at_behind, text_at-append}
use tacppd.Tacacs.Intake.{get_cont}
use tacppd.Tacacs.Client.{cont_body, cont_header, authen_send_cont}

length-cont_body : (m d : Text) → length (cont_body m d) ≡ 5 + length m + length d
unfolding cont_body
length-cont_body m d = omega (arith, length-append m d)

cont_body-bytes : (m d : Text) → IsText m → IsText d → All IsByte (cont_body m d)
unfolding cont_body
cont_body-bytes m d h k = (
  omega arith,
  (
    omega arith,
    (
      omega arith,
      (omega arith, (omega arith, All-append IsByte m d (IsText-bytes m h) (IsText-bytes d k))),
    ),
  ),
)

get_cont-cont_body :
    (hdr : Hdr) (m d : Text) (maxlen : ℕ)
    → IsText m
    → length m ≤ maxlen
    → length d ≤ 254
    → length m < 65536
    → hdr.datalength ≡ 5 + length m + length d
    → get_cont hdr (cont_body m d) maxlen ≡ some (m, 0)
unfolding get_cont cont_body byte_at
get_cont-cont_body hdr m d maxlen h fits small wide size =
    let n_msg : length m / 256 % 256 * 256 + length m % 256 ≡ length m = omega arith in
    let n_data : length d / 256 % 256 * 256 + length d % 256 ≡ length d = omega arith in
    let text : text_at (cont_body m d) 5 (length m) ≡ m =
      text_at_behind 5 0 (length m)
        (length m / 256 % 256 ∷ length m % 256 ∷ length d / 256 % 256 ∷ length d % 256 ∷ 0 ∷ [])
        (m ++ d) (omega arith)
      ∙ text_at-append (length m) m d h refl in
    let same : (hdr.datalength == 5 + length m + length d) ≡ true = ground (arith, size) in
    let one : ltb maxlen (length m) ≡ false = ground (arith, fits) in
    let two : ltb 254 (length d) ≡ false = ground (arith, small) in
    rw (n_msg, n_data, same, one, two) (ap (λ x. some (x, 0)) text)

-- A CONTINUE packet that the client sends to a server with the same key that waits for its number:
-- the server reads the message, with the flags 0, and what follows on the wire stays. The message
-- has at most the length that the server allows, the data at most 254 bytes, and both together at
-- most 494, and the number of the packet fits its byte. The digest is bytes, and the number of the session has 32 bits.
pub receive-authen_send_cont :
    (md5 : List ℕ → List ℕ) (t s : TacacsPacket) (now later maxlen : ℕ) (user_msg data_ rest : Text)
    → GivesBytes md5
    → IsText user_msg
    → IsText data_
    → length user_msg ≤ maxlen
    → length data_ ≤ 254
    → length user_msg + length data_ ≤ 494
    → t.session_id < 2 ^ 32
    → s.key ≡ t.key
    → t.seq_no < 255
    → s.seq_no ≡ t.seq_no
    → (out : TacacsPacket × List ℕ) × (authen_send_cont md5 t now user_msg data_ ≡ some out)
      × (receive (λ hdr body. get_cont hdr body maxlen) md5 s later (out.1 ++ rest)
          ≡ some (some (user_msg, 0), rest))
unfolding cont_header authen_send_cont is_major
receive-authen_send_cont md5 t s now later maxlen user_msg data_ rest g hm hd fits small all id key
      low seq =
    let next = record t { seq_no = t.seq_no + 1 } in
    let hdr = cont_header t user_msg data_ in
    let body = cont_body user_msg data_ in
    let long = length-cont_body user_msg data_ in
    let room : leb (length body) 499 ≡ true = ground (arith, long, all) in
    (
      write_packet md5 next now hdr body,
      rw room refl,
      receive-write_packet (λ h b. get_cont h b maxlen) md5 next s now later hdr body rest g
            (cont_body-bytes user_msg data_ hm hd) long (omega arith) id refl key (omega arith)
          ∙ ap (λ r. some (r, rest))
              (get_cont-cont_body (sent_header t.key hdr) user_msg data_ maxlen hm fits small
                (omega arith) refl),
    )
