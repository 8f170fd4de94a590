-- ===== src/Tacacs/Request/Examples.antt =====
-- Requests on the wire, and each theorem at an input that meets its hypotheses.
use tacppd.Common.{◌≡◌, refl, ℕ, zero, suc, List, [], ◌∷◌, ◌++◌, Text, some, codes, arith}
use tacppd.Tacacs.Header.{Hdr}
use tacppd.Tacacs.Packet.{TacacsPacket, new_packet, receive}
use tacppd.Tacacs.Wire.{lengths, concat}
use tacppd.Tacacs.Wire.Texts.{no_nul-IsText}
use tacppd.Tacacs.Examples.{sevens, sevens-GivesBytes}
use tacppd.Tacacs.Request.{
  Request, asked, overrun, encode_author, get_request, author_send_request, expected_length,
  runs_over, signed,
}
use tacppd.Tacacs.Request.RoundTrip.{from_address, receive-author_send_request}

abbrev client : TacacsPacket
client = new_packet (codes "key") 5

abbrev shell : Request
shell = record {
  method = 6;
  priv_lvl = 1;
  authen_type = 1;
  authen_service = 1;
  user = codes "ann";
  port = codes "tty1";
  rem_addr = [];
  avpair = codes "cmd=" ∷ codes "a" ∷ [];
}

receive-author_send_request_example :
    (out : TacacsPacket × List ℕ) × (author_send_request sevens client 9 (codes "10.0.0.1") shell
      ≡ some out)
    × (receive get_request sevens client 10 (out.1 ++ (4 ∷ []))
        ≡ some (asked (from_address (codes "10.0.0.1") shell), 4 ∷ []))
unfolding encode_author lengths concat
receive-author_send_request_example =
    receive-author_send_request sevens client client 9 10 (codes "10.0.0.1") shell (4 ∷ [])
      sevens-GivesBytes
      (
        omega arith,
        omega arith,
        omega arith,
        omega arith,
        (no_nul-IsText (codes "ann") refl, omega arith),
        (no_nul-IsText (codes "tty1") refl, omega arith),
        (no_nul-IsText (codes "10.0.0.1") refl, omega arith),
        (
          (
            (no_nul-IsText (codes "cmd=") refl, omega arith),
            ((no_nul-IsText (codes "a") refl, omega arith), tt),
          ),
          omega arith,
        ),
      )
      (omega arith) (omega arith) refl refl refl

abbrev many : ℕ → Text
many zero = []
many (suc n) = 97 ∷ many n

abbrev long : Request
long = record shell { avpair = many 128 ∷ [] }

abbrev long_header : Hdr
long_header = record {
  version = 192;
  type = 2;
  seq_no = 1;
  encryption = 1;
  session_id = 5;
  datalength = 144;
}

-- A name of 32 bytes, which is refused nowhere.
abbrev wide : Request
wide = record shell { user = many 32; avpair = [] }

wide_overruns : get_request (record long_header { datalength = 44 }) (encode_author wide) ≡ overrun
unfolding get_request encode_author lengths concat expected_length runs_over signed
wide_overruns = refl
