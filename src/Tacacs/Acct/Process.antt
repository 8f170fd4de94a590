-- ===== src/Tacacs/Acct/Process.antt =====
-- What `TacacsSessionContainer::process` does with a request of accounting: the reply, and the pairs
-- that it hands to `db_accounting`.
use tacppd.Common.{
  ◌≡◌, ◌≢◌, refl, ◌∙◌, ℕ, ◌<◌, ◌≤◌, ◌^◌, false, some, List, [], ◌∷◌, ◌++◌, Text, length, codes,
  take, if◌then◌else◌, ◌==◌, is_empty, arith, ◌+◌, ◌&&◌, not, any, str_eq, str_eq_iff, str_eq_refl,
  subst, Option, sym, ap, none, Bool-cases, inl, inr,
}
use tacppd.Common.Prefix.{scomp_n}
use tacppd.Tacacs.Header.{Hdr}
use tacppd.Tacacs.Crypt.Involution.{GivesBytes}
use tacppd.Tacacs.Packet.{TacacsPacket, receive}
use tacppd.Tacacs.Request.{Request, encode_author}
use tacppd.Tacacs.Request.Reading.{IsSendable}
use tacppd.Tacacs.Request.RoundTrip.{from_address}
use tacppd.Tacacs.Packet.RoundTrip.{receive-map}
use tacppd.Tacacs.Acct.{
  flag_start, flag_stop, account_send_request, get_request, Accounted, refused, overrun, accounted,
}
use tacppd.Tacacs.Wire.{until_nul}
use tacppd.Tacacs.Replies.RoundTrip.{IsZeros}
use tacppd.Tacacs.Acct.Reply.{send_acct_reply, account_get_reply, answered, receive-send_acct_reply}
use tacppd.Tacacs.Acct.RoundTrip.{acct_packet, receive-acct_packet, receive-account_send_request}

-- `typestr`.
unfoldable pub action_of : ℕ → Text
action_of flag =
    if flag == flag_start
    then codes "START"
    else if flag == flag_stop
    then codes "STOP"
    else codes "UPDATE"

-- The pairs of the device that go on.
unfoldable pub kept_pairs : List Text → List Text
kept_pairs [] = []
kept_pairs (s ∷ ss) =
    let rest = kept_pairs ss in
    if is_empty s
    then rest
    else if scomp_n s (codes "faxrelay-start-time=") 20
    then rest
    else s ∷ rest

-- `logavp`; `snprintf` cuts none of these texts, since a request's texts have 31 bytes at most.
unfoldable pub log_pairs : Text → ℕ → Request → List Text
unfolding action_of kept_pairs
log_pairs nas flag q =
    (codes "action=" ++ action_of flag)
    ∷ (codes "user=" ++ q.user)
    ∷ (codes "port=" ++ q.port)
    ∷ (codes "from=" ++ q.rem_addr)
    ∷ (codes "nas=" ++ nas)
    ∷ kept_pairs q.avpair

-- TAC_PLUS_ACCT_STATUS_SUCCESS.
abbrev pub status_success : ℕ
status_success = 1

-- Nothing is sent and nothing accounted; behaviour that C++ leaves undefined; or what `send_reply`
-- sends, and these pairs for the database.
pub data Processed : Type 0 where
  silent undefined : Processed
  logs : TacacsPacket × List ℕ → List Text → Processed

-- `t` is the server's side of the session, and `now` the time of the reply.
unfoldable pub process_accounted :
    (List ℕ → List ℕ) → TacacsPacket → ℕ → Text → Accounted → Processed
unfolding log_pairs send_acct_reply
process_accounted md5 t now nas refused = silent
process_accounted md5 t now nas overrun = undefined
process_accounted md5 t now nas (accounted flag q) =
    if flag == 0 then silent else elim (send_acct_reply md5 t now [] [] status_success) [
      | none ↦ undefined
      | some out ↦ logs out (log_pairs (take 16 nas) flag q)
    ]

-- `seq` is the number of the packet, and `nas` the peer's address.
unfoldable pub process_accounting :
    (List ℕ → List ℕ) → TacacsPacket → ℕ → Text → ℕ → Hdr → List ℕ → Processed
unfolding process_accounted get_request
process_accounting md5 t now nas seq hdr body =
    if seq == 1 then process_accounted md5 t now nas (get_request hdr body) else silent

-- A side of the session behind its first packet.
abbrev pub counted : TacacsPacket → TacacsPacket
counted t = record t { seq_no = t.seq_no + 1 }

-- The pairs that go to the database: five of the server, in this order, with the action of the flags,
-- and behind them those pairs of the request that are neither empty nor the start of a fax.
abbrev pub IsLogged : Text → ℕ → Request → List Text → Type 0
IsLogged nas flags q pairs =
    (action : Text) × (kept : List Text) × (pairs
      ≡ (codes "action=" ++ action)
        ∷ (codes "user=" ++ q.user)
        ∷ (codes "port=" ++ q.port)
        ∷ (codes "from=" ++ q.rem_addr)
        ∷ (codes "nas=" ++ nas)
        ∷ kept)
    × (str_eq action (codes "START") ≡ (flags == 2))
    × (str_eq action (codes "STOP") ≡ (flags == 4))
    × (str_eq action (codes "UPDATE") ≡ (not (flags == 2) && not (flags == 4)))
    × ((p : Text)
        → any (str_eq p) kept ≡ (
            any (str_eq p) q.avpair
            && (not (is_empty p) && not (scomp_n p (codes "faxrelay-start-time=") 20))))

any-kept_pairs_at :
    (ps : List Text) (p : Text)
    → any (str_eq p) (kept_pairs ps) ≡ (
        any (str_eq p) ps
        && (not (is_empty p) && not (scomp_n p (codes "faxrelay-start-time=") 20)))
    → any (str_eq p) (kept_pairs (p ∷ ps)) ≡ (
        any (str_eq p) (p ∷ ps)
        && (not (is_empty p) && not (scomp_n p (codes "faxrelay-start-time=") 20)))
unfolding any kept_pairs
any-kept_pairs_at ps p h = ground (arith, h, str_eq_refl p)

any-kept_pairs :
    (ps : List Text) (p : Text)
    → any (str_eq p) (kept_pairs ps) ≡ (
        any (str_eq p) ps
        && (not (is_empty p) && not (scomp_n p (codes "faxrelay-start-time=") 20)))
unfolding any kept_pairs
any-kept_pairs [] p = refl
any-kept_pairs (x ∷ ps) p = elim (Bool-cases (str_eq p x)) [
  | inl e ↦
      subst
        (λ y. any (str_eq p) (kept_pairs (y ∷ ps)) ≡ (
          any (str_eq p) (y ∷ ps)
          && (not (is_empty p) && not (scomp_n p (codes "faxrelay-start-time=") 20))))
        ((str_eq_iff p x).0 e) (any-kept_pairs_at ps p (any-kept_pairs ps p))
  | inr e ↦ ground (arith, e, any-kept_pairs ps p)
]

action_of_lem :
    (flag : ℕ)
    → (str_eq (action_of flag) (codes "START") ≡ (flag == 2))
      × (str_eq (action_of flag) (codes "STOP") ≡ (flag == 4))
      × (str_eq (action_of flag) (codes "UPDATE") ≡ (not (flag == 2) && not (flag == 4)))
unfolding action_of str_eq
action_of_lem flag = elim (Bool-cases (flag == 2)) [
  | inl e ↦
      let other : (flag == 4) ≡ false = ground (arith, e) in
      rw (action_of, e, other) (refl, refl, refl)
  | inr e ↦ elim (Bool-cases (flag == 4)) [
    | inl f ↦ rw (action_of, e, f) (refl, refl, refl)
    | inr f ↦ rw (action_of, e, f) (refl, refl, refl)
  ]
]

log_pairs-IsLogged :
    (nas : Text) (flags : ℕ) (q : Request) → IsLogged nas flags q (log_pairs nas flags q)
unfolding log_pairs
log_pairs-IsLogged nas flags q = (
  action_of flags,
  kept_pairs q.avpair,
  refl,
  (action_of_lem flags).0,
  (action_of_lem flags).1,
  (action_of_lem flags).2,
  any-kept_pairs q.avpair,
)

process_accounted-logs :
    (md5 : List ℕ → List ℕ) (t : TacacsPacket) (now : ℕ) (nas : Text) (flag : ℕ) (q : Request)
    → (out : TacacsPacket × List ℕ) → (flag == 0) ≡ false
    → send_acct_reply md5 t now [] [] status_success ≡ some out
    → process_accounted md5 t now nas (accounted flag q) ≡ logs out (log_pairs (take 16 nas) flag q)
unfolding process_accounted
process_accounted-logs md5 t now nas flag q out set went =
    rw (process_accounted, set)
      (ap
        (λ (o : Option (TacacsPacket × List ℕ)). elim o [
          | none ↦ undefined
          | some out ↦ logs out (log_pairs (take 16 nas) flag q)
        ])
        went)

-- A request of accounting that a device writes as the first packet of a session, with flags in one
-- byte that are not 0, to a server with the same key, is answered, and the device reads in the answer
-- the status of success and two empty texts, which stand in its arrays. The pairs that go to the
-- database are the action of the flags, the user, port and address of the request, its peer, and the
-- pairs that are not empty, less those of the start of a fax. The numbers of the request are below
-- 256, its texts have at most 31 bytes, its pairs, at most 99, at most 127 each, and its body has
-- less than 9988. The digest is bytes, the numbers of the session have 32 bits, and the arrays that
-- the device gives for the texts hold zeros.
pub process_accounting-acct_packet :
    (md5 : List ℕ → List ℕ) (t s : TacacsPacket) (sent now replied later flags : ℕ) (nas : Text)
    → (q : Request) (rest behind msg data_ : List ℕ) → GivesBytes md5
    → IsSendable q
    → flags < 256
    → flags ≢ 0
    → length (encode_author q) < 9988
    → t.session_id < 2 ^ 32
    → s.session_id < 2 ^ 32
    → s.key ≡ t.key
    → t.seq_no ≡ 0
    → s.seq_no ≡ 0
    → IsZeros msg
    → IsZeros data_
    → (out : TacacsPacket × List ℕ) × (pairs : List Text) × (got : List ℕ × List ℕ) × (receive
          (process_accounting md5 (counted s) replied nas 1)
          md5
          s
          now
          ((acct_packet md5 t sent flags q).1 ++ rest)
        ≡ some (logs out pairs, rest))
      × IsLogged (take 16 nas) flags q pairs
      × (receive
            (λ hdr body. account_get_reply hdr body msg data_)
            md5
            (counted t)
            later
            (out.1 ++ behind)
          ≡ some (answered status_success got.0 got.1, behind))
      × (until_nul got.0 ≡ [])
      × (until_nul got.1 ≡ [])
unfolding process_accounted process_accounting
process_accounting-acct_packet md5 t s sent now replied later flags nas q rest behind msg data_ g h
      small set size id id' key first fresh zm zd =
    let test : (flags == 0) ≡ false = ground (arith, set) in
    let (out, (got, (went, read, one, two))) =
      receive-send_acct_reply md5 (counted s) (counted t) replied later status_success [] [] msg
        data_ behind g tt tt (omega arith) (omega arith) zm zd id' (sym key) (omega arith)
        (omega arith) in
    (
      out,
      log_pairs (take 16 nas) flags q,
      got,
      receive-map get_request (process_accounted md5 (counted s) replied nas) md5 s now _ rest _
            (receive-acct_packet md5 t s sent now flags q rest g h small size id key first fresh)
          ∙ ap (λ p. some (p, rest))
              (process_accounted-logs md5 (counted s) replied nas flags q out test went),
      log_pairs-IsLogged (take 16 nas) flags q,
      read,
      one,
      two,
    )

-- What `account_send_request` sends, whatever flags it is called with, is neither answered nor
-- accounted for, by a server with the same key, as the first packet of a session. The numbers of
-- the request, with the client's address in place of its own, are below 256, its texts have at most
-- 31 bytes, its pairs, at most 99, at most 127 each, and its body has at most 498. The digest is
-- bytes, and the number of the session has 32 bits.
pub process_accounting-account_send_request :
    (md5 : List ℕ → List ℕ) (t s : TacacsPacket) (sent now replied flag : ℕ) (our_addr nas : Text)
    → (r : Request) (rest : List ℕ) → GivesBytes md5
    → IsSendable (from_address our_addr r)
    → length (encode_author (from_address our_addr r)) ≤ 498
    → t.session_id < 2 ^ 32
    → s.key ≡ t.key
    → t.seq_no ≡ 0
    → s.seq_no ≡ 0
    → (out : TacacsPacket × List ℕ) × ((account_send_request md5 t sent our_addr flag r ≡ some out)
        × (receive (process_accounting md5 s replied nas 1) md5 s now (out.1 ++ rest)
            ≡ some (silent, rest)))
unfolding process_accounted process_accounting
process_accounting-account_send_request md5 t s sent now replied flag our_addr nas r rest g h size
      id key first fresh =
    let (out, (went, read)) =
      receive-account_send_request md5 t s sent now flag our_addr r rest g h size id key first
        fresh in
    (
      out,
      (went, receive-map get_request (process_accounted md5 s replied nas) md5 s now _ rest _ read),
    )
