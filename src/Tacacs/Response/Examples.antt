-- ===== src/Tacacs/Response/Examples.antt =====
-- A reply of an authorization at a concrete input.
use tacppd.Common.{◌≡◌, refl, ℕ, List, [], ◌∷◌, ◌++◌, Text, some, codes, arith}
use tacppd.Tacacs.Packet.{TacacsPacket, new_packet, receive}
use tacppd.Tacacs.Wire.{concat}
use tacppd.Tacacs.Wire.Texts.{no_nul-IsText}
use tacppd.Tacacs.Examples.{sevens, sevens-GivesBytes}
use tacppd.Tacacs.Response.{before_empty, response, send_response, author_get_response}
use tacppd.Tacacs.Response.RoundTrip.{receive-send_response}

abbrev side : TacacsPacket
side = record (new_packet (codes "key") 5) { seq_no = 1 }

abbrev pairs : List Text
pairs = codes "priv-lvl=15" ∷ [] ∷ codes "lost" ∷ []

receive-send_response_example :
    (sent : TacacsPacket × List ℕ) × ((send_response sevens side 9 1 (codes "hi") [] pairs
        ≡ some sent)
      × (receive author_get_response sevens side 10 (sent.1 ++ (4 ∷ []))
          ≡ some (response 1 (codes "hi") [] (codes "priv-lvl=15" ∷ []), 4 ∷ [])))
unfolding before_empty concat
receive-send_response_example =
    receive-send_response sevens side side 9 10 1 (codes "hi") [] pairs (4 ∷ []) sevens-GivesBytes
      (no_nul-IsText (codes "hi") refl) tt (omega arith) (omega arith) (omega arith) (omega arith)
      refl refl refl
      (
        (no_nul-IsText (codes "priv-lvl=15") refl, omega arith),
        ((tt, omega arith), ((no_nul-IsText (codes "lost") refl, omega arith), tt)),
      )
      (λ e. omega arith)
