-- ===== src/Tacacs/Replies/Examples.antt =====
-- A reply of an authentication at a concrete input.
use tacppd.Common.{◌≡◌, refl, ℕ, List, [], ◌∷◌, ◌++◌, some, codes, arith}
use tacppd.Tacacs.Packet.{TacacsPacket, new_packet, receive, is_major}
use tacppd.Tacacs.Wire.{until_nul}
use tacppd.Tacacs.Wire.Texts.{no_nul-IsText}
use tacppd.Tacacs.Examples.{sevens, sevens-GivesBytes}
use tacppd.Tacacs.Replies.{
  Answer, uncaught, send_reply, authen_get_reply, overwrite, cleared, copied,
}
use tacppd.Tacacs.Replies.RoundTrip.{receive-send_reply}

abbrev server : TacacsPacket
server = record (new_packet (codes "key") 5) { seq_no = 1 }

receive-send_reply_example :
    (out : TacacsPacket × List ℕ) × ((a : Answer) × ((send_reply sevens server 9 5
            (codes "Password:")
            []
            1
            192
          ≡ some out)
        × (receive
              (λ hdr body. authen_get_reply hdr body [] [])
              sevens
              server
              10
              (out.1 ++ (4 ∷ []))
            ≡ some (a, 4 ∷ []))
        × (a.outcome ≡ uncaught 5)
        × (until_nul a.server ≡ codes "Password:")
        × (until_nul a.datas ≡ [])))
unfolding is_major
receive-send_reply_example =
    receive-send_reply sevens server server 9 10 5 1 192 (codes "Password:") [] [] [] (4 ∷ [])
      sevens-GivesBytes (no_nul-IsText (codes "Password:") refl) tt (omega arith) (omega arith) refl
      tt tt (omega arith) refl (omega arith) refl

-- Of an array that holds more than eight bytes of another text, the rest stays behind the message.
left_over :
    until_nul (copied (cleared (codes "an older answer")) (codes "Password:") 9)
    ≡ codes "Password:answer"
unfolding until_nul copied cleared overwrite
left_over = refl
