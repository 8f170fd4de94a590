-- ===== src/Tacacs/Header.antt =====
-- The header that all packets share, `struct tac_plus_pak_hdr`, and its 12 bytes on the wire.
-- `session_id` and `datalength` are the numbers that `ntohl` reads.
use tacppd.Common.{
  ℕ, ◌+◌, ◌*◌, ◌/◌, ◌%◌, ◌<◌, ◌^◌, ◌≡◌, Option, none, some, List, [], ◌∷◌, ◌++◌, arith,
}

pub record Hdr : Type 0 where
  pub version : ℕ
  pub type : ℕ
  pub seq_no : ℕ
  pub encryption : ℕ
  pub session_id : ℕ
  pub datalength : ℕ

abbrev pub hdr_size : ℕ
hdr_size = 12

-- TAC_PLUS_ENCRYPTED and TAC_PLUS_CLEAR.
abbrev pub encrypted : ℕ
encrypted = 0x0

abbrev pub clear : ℕ
clear = 0x1

-- `htonl`: four bytes, the highest first.
unfoldable pub be32 : ℕ → List ℕ
be32 n = (n / 2 ^ 24 % 256) ∷ (n / 2 ^ 16 % 256) ∷ (n / 2 ^ 8 % 256) ∷ (n % 256) ∷ []

unfoldable pub from_be32 : ℕ → ℕ → ℕ → ℕ → ℕ
from_be32 a b c d = a * 2 ^ 24 + b * 2 ^ 16 + c * 2 ^ 8 + d

unfoldable pub encode : Hdr → List ℕ
unfolding be32
encode h = h.version ∷ h.type ∷ h.seq_no ∷ h.encryption ∷ (be32 h.session_id ++ be32 h.datalength)

-- The twelve bytes read as a header, with what follows them.
unfoldable pub decode : List ℕ → Option (Hdr × List ℕ)
unfolding from_be32
decode (v ∷ t ∷ s ∷ e ∷ i₁ ∷ i₂ ∷ i₃ ∷ i₄ ∷ n₁ ∷ n₂ ∷ n₃ ∷ n₄ ∷ rest) = some (
  record {
    version = v;
    type = t;
    seq_no = s;
    encryption = e;
    session_id = from_be32 i₁ i₂ i₃ i₄;
    datalength = from_be32 n₁ n₂ n₃ n₄;
  },
  rest,
)
decode _ = none

from_be32-be32 :
    (n : ℕ)
    → n < 2 ^ 32
    → from_be32 (n / 2 ^ 24 % 256) (n / 2 ^ 16 % 256) (n / 2 ^ 8 % 256) (n % 256) ≡ n
unfolding from_be32
from_be32-be32 n h = omega arith

-- A header is read back from its bytes, whatever follows.
pub decode-encode :
    (h : Hdr) (rest : List ℕ)
    → h.session_id < 2 ^ 32
    → h.datalength < 2 ^ 32
    → decode (encode h ++ rest) ≡ some (h, rest)
unfolding decode encode
decode-encode h rest s n =
    ground (arith, from_be32-be32 h.session_id s, from_be32-be32 h.datalength n)
