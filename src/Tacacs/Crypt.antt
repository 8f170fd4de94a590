-- ===== src/Tacacs/Crypt.antt =====
-- The encryption of packet bodies: `TacacsPacket::create_md5_hash` and `TacacsPacket::md5_xor`.
-- MD5 is a parameter.
pub mod Bytes
pub mod Involution
use Prim.Native.Nat.{bit_xor}
use tacppd.Common.{
  ℕ, zero, suc, Option, none, some, List, [], ◌∷◌, ◌++◌, Text, codes, str_eq, take, drop, length,
  if◌then◌else◌, ◌==◌, Bool, is_empty,
}
use tacppd.Tacacs.Header.{Hdr, be32, encrypted, clear}

-- The session's number, the key cut to 30 bytes, the version, the sequence number, and the hash
-- before this one if there is one.
unfoldable pub create_md5_hash : (List ℕ → List ℕ) → Text → ℕ → ℕ → ℕ → Option (List ℕ) → List ℕ
unfolding be32
create_md5_hash md5 key sess_id v seq none = md5 (be32 sess_id ++ (take 30 key ++ (v ∷ seq ∷ [])))
create_md5_hash md5 key sess_id v seq (some prev) =
    md5 (be32 sess_id ++ (take 30 key ++ (v ∷ seq ∷ prev)))

-- `data[i + j] ^= hash[j]`.
unfoldable pub xor_bytes : List ℕ → List ℕ → List ℕ
xor_bytes [] hash = []
xor_bytes (d ∷ data_) [] = d ∷ data_
xor_bytes (d ∷ data_) (h ∷ hash) = bit_xor d h ∷ xor_bytes data_ hash

-- The loop over blocks of 16 bytes, each with the hash that follows from the one before. Each round
-- takes a byte at least, so `length data_` rounds are enough.
unfoldable pub xor_blocks : ℕ → (Option (List ℕ) → List ℕ) → Option (List ℕ) → List ℕ → List ℕ
unfolding xor_bytes
xor_blocks zero next prev data_ = data_
xor_blocks (suc fuel) next prev [] = []
xor_blocks (suc fuel) next prev (d ∷ data_) =
    xor_bytes (take 16 (d ∷ data_)) (next prev)
    ++ xor_blocks fuel next (some (next prev)) (drop 16 (d ∷ data_))

unfoldable pub flip_flag : ℕ → ℕ
flip_flag e = if e == clear then encrypted else clear

-- The header with its flag flipped, and the data with its first `datalength` bytes changed. With
-- the key "none" the data stays as it is.
unfoldable pub md5_xor : (List ℕ → List ℕ) → Text → Hdr → List ℕ → Hdr × List ℕ
unfolding flip_flag
md5_xor md5 key hdr data_ =
    if str_eq key (codes "none") then (record hdr { encryption = clear }, data_) else (
      record hdr { encryption = flip_flag hdr.encryption },
      xor_blocks (length data_) (create_md5_hash md5 key hdr.session_id hdr.version hdr.seq_no) none
            (take hdr.datalength data_)
          ++ drop hdr.datalength data_,
    )
