-- ===== src/Tacacs/Acct/Examples.antt =====
-- Requests of accounting at concrete inputs.
use tacppd.Common.{◌≡◌, refl, ℕ, List, [], ◌∷◌, ◌++◌, Text, some, codes, arith}
use tacppd.Tacacs.Packet.{TacacsPacket, new_packet, receive}
use tacppd.Tacacs.Wire.{lengths, concat}
use tacppd.Tacacs.Wire.Texts.{no_nul-IsText}
use tacppd.Tacacs.Examples.{sevens, sevens-GivesBytes}
use tacppd.Tacacs.Request.{Request, encode_author}
use tacppd.Tacacs.Request.Reading.{IsSendable}
use tacppd.Tacacs.Acct.{flag_start, account_send_request}
use tacppd.Tacacs.Wire.{until_nul}
use tacppd.Tacacs.Acct.Reply.{account_get_reply, answered}
use tacppd.Tacacs.Acct.RoundTrip.{acct_packet}
use tacppd.Tacacs.Acct.Process.{
  silent, logs, status_success, counted, IsLogged, process_accounting,
  process_accounting-acct_packet, process_accounting-account_send_request,
}

abbrev client : TacacsPacket
client = new_packet (codes "key") 5

abbrev shell : Request
shell = record {
  method = 6;
  priv_lvl = 1;
  authen_type = 1;
  authen_service = 1;
  user = codes "ann";
  port = codes "tty1";
  rem_addr = codes "10.0.0.1";
  avpair = codes "task_id=2" ∷ [];
}

shell-IsSendable : IsSendable shell
shell-IsSendable = (
  omega arith,
  omega arith,
  omega arith,
  omega arith,
  (no_nul-IsText (codes "ann") refl, omega arith),
  (no_nul-IsText (codes "tty1") refl, omega arith),
  (no_nul-IsText (codes "10.0.0.1") refl, omega arith),
  (((no_nul-IsText (codes "task_id=2") refl, omega arith), tt), omega arith),
)

process_accounting-acct_packet_example :
    (out : TacacsPacket × List ℕ) × (pairs : List Text) × (got : List ℕ × List ℕ) × (receive
        (process_accounting sevens (counted client) 11 (codes "10.0.0.9") 1)
        sevens
        client
        10
        ((acct_packet sevens client 9 flag_start shell).1 ++ (4 ∷ []))
      ≡ some (logs out pairs, 4 ∷ []))
    × IsLogged (codes "10.0.0.9") flag_start shell pairs
    × (receive
          (λ hdr body. account_get_reply hdr body [] [])
          sevens
          (counted client)
          12
          (out.1 ++ (5 ∷ []))
        ≡ some (answered status_success got.0 got.1, 5 ∷ []))
    × (until_nul got.0 ≡ [])
    × (until_nul got.1 ≡ [])
unfolding encode_author lengths concat
process_accounting-acct_packet_example =
    process_accounting-acct_packet sevens client client 9 10 11 12 flag_start (codes "10.0.0.9")
      shell (4 ∷ []) (5 ∷ []) [] [] sevens-GivesBytes shell-IsSendable (omega arith)
      (λ e. omega arith) (omega arith) (omega arith) (omega arith) refl refl refl tt tt

process_accounting-account_send_request_example :
    (out : TacacsPacket × List ℕ) × ((account_send_request sevens client 9
          (codes "10.0.0.1")
          flag_start
          shell
        ≡ some out)
      × (receive
            (process_accounting sevens client 11 (codes "10.0.0.9") 1)
            sevens
            client
            10
            (out.1 ++ (4 ∷ []))
          ≡ some (silent, 4 ∷ [])))
unfolding encode_author lengths concat
process_accounting-account_send_request_example =
    process_accounting-account_send_request sevens client client 9 10 11 flag_start
      (codes "10.0.0.1") (codes "10.0.0.9") shell (4 ∷ []) sevens-GivesBytes shell-IsSendable
      (omega arith) (omega arith) refl refl refl
