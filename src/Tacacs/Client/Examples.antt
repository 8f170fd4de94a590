-- ===== src/Tacacs/Client/Examples.antt =====
-- Each theorem at an input that meets its hypotheses.
use tacppd.Common.{◌≡◌, refl, ℕ, inl, inr, List, [], ◌∷◌, ◌++◌, some, codes, arith}
use tacppd.Tacacs.Packet.{TacacsPacket, new_packet, receive}
use tacppd.Tacacs.Wire.Texts.{no_nul-IsText}
use tacppd.Tacacs.Intake.{new_authen, pap_login, get_start, get_cont}
use tacppd.Tacacs.Examples.{sevens, sevens-GivesBytes}
use tacppd.Tacacs.Client.{sent, authen_send_start, authen_send_cont}
use tacppd.Tacacs.Client.RoundTrip.{receive-authen_send_start}
use tacppd.Tacacs.Client.Continues.{receive-authen_send_cont}

abbrev client : TacacsPacket
client = new_packet (codes "key") 5

receive-authen_send_start_example :
    (t' : TacacsPacket) × (bytes : List ℕ) × (authen_send_start sevens client 9
        (codes "10.0.0.1")
        (codes "tty1")
        (codes "ann")
        pap_login
        (codes "pw")
      ≡ sent t' bytes)
    × (receive (λ hdr body. get_start hdr body new_authen) sevens client 10 (bytes ++ (4 ∷ []))
        ≡ some (
          record {
            authen = record new_authen {
              user = codes "ann";
              port = codes "tty1";
              rem_addr = codes "10.0.0.1";
            };
            res = pap_login;
            data_ = codes "pw";
          },
          4 ∷ [],
        ))
receive-authen_send_start_example =
    receive-authen_send_start sevens client client new_authen 9 10 (codes "10.0.0.1") (codes "tty1")
      (codes "ann") pap_login (codes "pw") (4 ∷ []) sevens-GivesBytes
      (
        (no_nul-IsText (codes "10.0.0.1") refl, omega arith),
        (no_nul-IsText (codes "ann") refl, omega arith),
        (no_nul-IsText (codes "tty1") refl, omega arith),
        no_nul-IsText (codes "pw") refl,
        omega arith,
      )
      (inr (inr (inl refl))) (omega arith) refl refl refl

receive-authen_send_cont_example :
    (out : TacacsPacket × List ℕ) × (authen_send_cont sevens client 9 (codes "pw") [] ≡ some out)
    × (receive (λ hdr body. get_cont hdr body 254) sevens client 10 (out.1 ++ (4 ∷ []))
        ≡ some (some (codes "pw", 0), 4 ∷ []))
receive-authen_send_cont_example =
    receive-authen_send_cont sevens client client 9 10 254 (codes "pw") [] (4 ∷ [])
      sevens-GivesBytes (no_nul-IsText (codes "pw") refl) tt (omega arith) (omega arith)
      (omega arith) (omega arith) refl (omega arith) refl
