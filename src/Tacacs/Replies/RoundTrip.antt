-- ===== src/Tacacs/Replies/RoundTrip.antt =====
-- A reply of an authentication from the server to the client.
use tacppd.Common.{
  ◌≡◌, refl, sym, ap, ◌∙◌, ℕ, zero, suc, ◌+◌, ◌*◌, ◌/◌, ◌%◌, ◌<◌, ◌≤◌, ◌^◌, List, [], ◌∷◌, ◌++◌,
  Text, length, length-append, All, All-append, arith, ◌==◌, true, leb, some, take, drop,
  drop-length_append, take-length_append,
}
use mathlib.Core.List.{append-nil}
use tacppd.Tacacs.Header.{Hdr}
use tacppd.Tacacs.Crypt.Bytes.{IsByte}
use tacppd.Tacacs.Crypt.Involution.{GivesBytes}
use tacppd.Tacacs.Packet.{TacacsPacket, write_packet, receive, is_major}
use tacppd.Tacacs.Packet.RoundTrip.{sent_header, receive-write_packet}
use tacppd.Tacacs.Wire.{byte_at, short_at, until_nul, pad}
use tacppd.Tacacs.Wire.Texts.{IsText, IsText-bytes, until_nul_lem, pad-append, drop_behind}
use tacppd.Tacacs.Replies.{
  reply_body, reply_header, send_reply, overwrite, cleared, copied, uncaught, Answer,
  authen_get_reply,
}

length-reply_body :
    (status flag : ℕ) (m d : Text) → length (reply_body status m d flag) ≡ 6 + length m + length d
unfolding reply_body
length-reply_body status flag m d = omega (arith, length-append m d)

reply_body-bytes :
    (status flag : ℕ) (m d : Text) → IsText m → IsText d → All IsByte (reply_body status m d flag)
unfolding reply_body
reply_body-bytes status flag m d h k = (
  omega arith,
  (
    omega arith,
    (
      omega arith,
      (
        omega arith,
        (omega arith, (omega arith, All-append IsByte m d (IsText-bytes m h) (IsText-bytes d k))),
      ),
    ),
  ),
)

-- An array that holds zeros alone.
abbrev pub IsZeros : List ℕ → Type 0
IsZeros array = All (λ b. b ≡ 0) array

IsZeros-drop : (n : ℕ) (array : List ℕ) → IsZeros array → IsZeros (drop n array)
IsZeros-drop zero array h = h
IsZeros-drop (suc n) [] h = tt
IsZeros-drop (suc n) (b ∷ array) h = IsZeros-drop n array h.1

pub cleared-IsZeros : (array : List ℕ) → IsZeros array → IsZeros (cleared array)
unfolding cleared overwrite pad
cleared-IsZeros array h =
    (refl, (refl, (refl, (refl, (refl, (refl, (refl, (refl, IsZeros-drop 8 array h))))))))

until_nul-append : (s array : List ℕ) → IsText s → IsZeros array → until_nul (s ++ array) ≡ s
unfolding until_nul
until_nul-append [] [] h z = refl
until_nul-append [] (b ∷ array) h z = rw z.0 refl
until_nul-append (c ∷ s) array h z = ground (arith, until_nul-append s array h.1 z)

-- A text that is copied into an array of zeros stands there as a C string.
pub until_nul-copied :
    (array s rest : List ℕ)
    → IsText s
    → IsZeros array
    → until_nul (copied array (s ++ rest) (length s)) ≡ s
unfolding copied overwrite
until_nul-copied array s rest h z =
    let text : pad (length s) (until_nul (take (length s) (s ++ rest))) ≡ s =
      rw (take-length_append s rest, until_nul_lem s h)
        (ap (pad (length s)) (sym (append-nil s)) ∙ pad-append (length s) s [] refl) in
    rw text (until_nul-append s (drop (length s) array) h (IsZeros-drop (length s) array z))

short : (n : ℕ) → n ≤ 499 → n / 256 % 256 * 256 + n % 256 ≡ n
short n h = omega arith

module _ (status flag : ℕ) (m d : Text) (hm : IsText m) (hd : IsText d)
    (room : 6 + length m + length d ≤ 499) where
  abbrev body : List ℕ
  body = reply_body status m d flag

  mlen : short_at body 2 ≡ length m
  unfolding byte_at reply_body
  mlen = short (length m) (omega arith)

  dlen : short_at body 4 ≡ length d
  unfolding byte_at reply_body
  dlen = short (length d) (omega arith)

  -- The client's arrays hold zeros before the call.
  authen_get_reply-reply_body :
      (hdr : Hdr) (server datas : List ℕ)
      → IsZeros server
      → IsZeros datas
      → hdr.datalength ≡ 6 + length m + length d
      → status < 256
      → let a = authen_get_reply hdr body server datas in
        (a.outcome ≡ uncaught status) × (until_nul a.server ≡ m) × (until_nul a.datas ≡ d)
  unfolding authen_get_reply
  authen_get_reply-reply_body hdr server datas zs zd size small =
      let same : (hdr.datalength == 6 + length m + length d) ≡ true = ground (arith, size) in
      let status' : byte_at body 0 ≡ status = unfold byte_at reply_body in omega arith in
      let behind : drop (6 + length m) body ≡ d =
        unfold reply_body in
        drop_behind (6 + length m) (length m)
          ((status % 256)
            ∷ (flag % 256)
            ∷ (length m / 256 % 256)
            ∷ (length m % 256)
            ∷ (length d / 256 % 256)
            ∷ (length d % 256)
            ∷ [])
          (m ++ d) (omega arith)
        ∙ drop-length_append m d in
      let whole : d ≡ d ++ [] = sym (append-nil d) in
      let front : drop 6 body ≡ m ++ d = unfold reply_body in refl in
      rw (mlen, dlen, same, behind, front)
        (
          ap uncaught status',
          until_nul-copied (cleared server) m d hm (cleared-IsZeros server zs),
          ap (λ x. until_nul (copied (cleared datas) x (length d))) whole
              ∙ until_nul-copied (cleared datas) d [] hd (cleared-IsZeros datas zd),
        )

-- A reply that the server sends, with a status in one byte, a version with the major number of the
-- protocol, and the texts msg and data without 0 that fit its buffer together, is read by
-- a client with the same key that waits for its number, into arrays of zeros: the two texts stand
-- there, and the status leaves the call as an exception that no handler of it catches. What follows on
-- the wire stays. The number of the packet fits its byte, the digest is bytes, and the number of the
-- session has 32 bits.
pub receive-send_reply :
    (md5 : List ℕ → List ℕ) (t s : TacacsPacket) (now later status flag ver : ℕ) (m d : Text)
    → (server datas rest : List ℕ) → GivesBytes md5
    → IsText m
    → IsText d
    → 6 + length m + length d ≤ 499
    → status < 256
    → is_major ver ≡ true
    → IsZeros server
    → IsZeros datas
    → t.session_id < 2 ^ 32
    → s.key ≡ t.key
    → t.seq_no < 255
    → s.seq_no ≡ t.seq_no
    → (out : TacacsPacket × List ℕ) × ((a : Answer) × ((send_reply md5 t now status m d flag ver
            ≡ some out)
          × (receive
                (λ hdr body. authen_get_reply hdr body server datas)
                md5
                s
                later
                (out.1 ++ rest)
              ≡ some (a, rest))
          × (a.outcome ≡ uncaught status)
          × (until_nul a.server ≡ m)
          × (until_nul a.datas ≡ d)))
unfolding reply_header send_reply
receive-send_reply md5 t s now later status flag ver m d server datas rest g hm hd room small major
      zs zd id key low seq =
    let next = record t { seq_no = t.seq_no + 1 } in
    let hdr = reply_header t m d ver in
    let body = reply_body status m d flag in
    let long = length-reply_body status flag m d in
    let fits : leb (length body) 499 ≡ true = ground (arith, long, room) in
    let seen = sent_header t.key hdr in
    let read =
      authen_get_reply-reply_body status flag m d hm hd room seen server datas zs zd refl small in
    (
      write_packet md5 next now hdr body,
      (
        authen_get_reply seen body server datas,
        (
          rw fits refl,
          receive-write_packet (λ h b. authen_get_reply h b server datas) md5 next s now later hdr
              body rest g (reply_body-bytes status flag m d hm hd) long (omega arith) id major key
              (omega arith),
          read.0,
          read.1,
          read.2,
        ),
      ),
    )
