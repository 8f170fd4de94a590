-- ===== src/Accounting.antt =====
-- Accounting: `AAA::db_accounting` of src/AAA.cc, which lists and ends the sessions of users and frees
-- their addresses, and `utl::portConvert` of src/Utils.cc, by which it names a port.
pub mod Ports
pub mod Fields
pub mod Sessions
mod Examples
use tacppd.Common.{
  ℕ, ◌+◌, Bool, true, false, ◌||◌, ◌&&◌, not, Option, none, some, List, [], ◌∷◌, ◌++◌, Text, codes,
  map, str_eq, if◌then◌else◌, drop, is_empty, length,
}
use tacppd.Common.Prefix.{scomp_n}
use tacppd.User.{DbUser}
use tacppd.Pool.{PoolData}
use tacppd.Pool.Pools.{ret}
use tacppd.Track.{Tracking, add, del}
use tacppd.Accounting.Ports.{port_convert}

-- START, UPDATE and STOP; `unknown` is 0, the action of no packet.
pub data AcctAction : Type 0 where
  unknown start update stop : AcctAction

-- `log_user`: what the sessions need; the fields that only go to the database's log, as the name of
-- the pair with the text behind it.
pub record LogUser (Ip : Type 0) : Type 0 where
  pub action : AcctAction
  pub username : Text
  pub port : Text
  pub from_addr : Text
  pub nas : Ip
  pub ip : Ip
  pub others : List (Text × Text)

-- The names of these fields, in the order of their tests. Those with numbers and times are converted in the
-- source; the texts are kept here.
abbrev pub other_names : List Text
other_names =
    codes "bytes_in="
    ∷ codes "bytes_out="
    ∷ codes "elapsed_time="
    ∷ codes "disc-cause="
    ∷ codes "disc-cause-ext="
    ∷ codes "nas-rx-speed="
    ∷ codes "nas-tx-speed="
    ∷ codes "start_time="
    ∷ codes "task_id="
    ∷ codes "h323-call-origin="
    ∷ codes "h323-call-type="
    ∷ codes "h323-disconnect-cause="
    ∷ codes "h323-voice-quality="
    ∷ codes "h323-remote-address="
    ∷ codes "h323-connect-time="
    ∷ codes "h323-disconnect-time="
    ∷ []

unfoldable pub other_field : List Text → Text → List (Text × Text) → List (Text × Text)
other_field [] s fields = fields
other_field (name ∷ names) s fields =
    let rest = other_field names s fields in
    if scomp_n s name (length name) then fields ++ (name, drop (length name) s) ∷ [] else rest

unfoldable pub named_action : Text → AcctAction → AcctAction
named_action s old =
    if str_eq s (codes "START")
    then start
    else if str_eq s (codes "UPDATE")
    then update
    else if str_eq s (codes "STOP")
    then stop
    else old

module _ {Ip : Type 0} (fill : Text → Ip → Ip) where
  -- One turn of the loop over the pairs. `fill` is the method of `ipaddr`.
  unfoldable pub set_field : LogUser Ip → Text → LogUser Ip
  unfolding named_action other_field
  set_field l s =
      if scomp_n s (codes "action=") 7
      then record l { action = named_action (drop 7 s) l.action }
      else if scomp_n s (codes "user=") 5
      then record l { username = drop 5 s }
      else if scomp_n s (codes "port=") 5
      then record l { port = drop 5 s }
      else if scomp_n s (codes "from=") 5
      then record l { from_addr = drop 5 s }
      else if scomp_n s (codes "nas=") 4
      then record l { nas = fill (drop 4 s) l.nas }
      else if scomp_n s (codes "service=") 8
      then record l { others = l.others ++ (codes "service=", drop 8 s) ∷ [] }
      else if scomp_n s (codes "protocol=") 9
      then record l { others = l.others ++ (codes "protocol=", drop 9 s) ∷ [] }
      else if scomp_n s (codes "address=") 8
      then record l { ip = fill (drop 8 s) l.ip }
      else if scomp_n s (codes "addr=") 5
      then record l { ip = fill (drop 5 s) l.ip }
      else record l { others = other_field other_names s l.others }

  unfoldable pub set_fields : LogUser Ip → List Text → LogUser Ip
  unfolding set_field
  set_fields l [] = l
  set_fields l (s ∷ logavp) = set_fields (set_field l s) logavp

-- `log_user` as it is made, with `ipaddr` as its constructor leaves it; the action is set by the first
-- pair, before it is read.
abbrev pub no_log : {Ip : Type 0} → Ip → LogUser Ip
no_log zero_ip = record {
  action = unknown;
  username = [];
  port = [];
  from_addr = [];
  nas = zero_ip;
  ip = zero_ip;
  others = [];
}

-- The sessions, the pools, and what went to the log of the database.
pub record State (Ip : Type 0) : Type 0 where
  pub track : Tracking Ip
  pub pools : List (PoolData Ip)
  pub log : List (LogUser Ip)

module _ {Ip : Type 0} (eq : Ip → Ip → Bool) (unknown_ip zero_ip : Ip)
    (db : ℕ → Text → DbUser) where
  abbrev pub tracked : ℕ → LogUser Ip → Text → State Ip → State Ip
  tracked now l prt s = record s {
    track = (add eq unknown_ip zero_ip db now l.username l.nas prt l.from_addr l.ip s.track).0;
  }

  unfoldable pub act : ℕ → LogUser Ip → State Ip → State Ip
  unfolding port_convert ret
  act now l s =
      let prt = port_convert (port_convert l.port) in
      elim l.action [
        | unknown ↦ s
        | start ↦ tracked now l prt s
        | update ↦ tracked now l prt s
        | stop ↦ record s {
          track = (del eq unknown_ip zero_ip db l.nas prt s.track).0;
          pools = if eq l.ip unknown_ip then s.pools else ret eq l.ip s.pools;
          log = s.log ++ l ∷ [];
        }
      ]

  -- `db_accounting`, with the time of the call.
  unfoldable pub db_accounting : (Text → Ip → Ip) → ℕ → List Text → State Ip → State Ip
  unfolding set_fields act
  db_accounting fill now logavp s =
      let l = set_fields fill (no_log zero_ip) logavp in
      if is_empty l.username then s else act now l s
