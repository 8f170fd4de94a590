-- ===== src/Base64/Examples.antt =====
-- Texts in base 64.
use tacppd.Common.{◌≡◌, refl, codes, arith}
use tacppd.Tacacs.Wire.{until_nul}
use tacppd.Tacacs.Wire.Texts.{no_nul-IsText}
use tacppd.Base64.{tbl, groups, base64_encode, dtable, kept, ungroup, base64_decode}
use tacppd.Base64.RoundTrip.{base64_decode-base64_encode}

base64_decode-base64_encode_example :
    base64_decode (base64_encode (codes "ann:secret")) ≡ codes "ann:secret"
base64_decode-base64_encode_example =
    base64_decode-base64_encode (codes "ann:secret") (no_nul-IsText (codes "ann:secret") refl)
      (omega arith)

encoded : base64_encode (codes "ann:secret") ≡ codes "YW5uOnNlY3JldA=="
unfolding base64_encode groups tbl
encoded = refl

-- Of 48 bytes the last three are lost.
long_is_cut :
    base64_decode (base64_encode (codes "123456789012345678901234567890123456789012345678"))
    ≡ codes "123456789012345678901234567890123456789012345"
unfolding base64_encode groups tbl base64_decode kept dtable ungroup until_nul
long_is_cut = refl
