-- ===== src/Peers.antt =====
-- The peers, which are known by address and port, with their settings: src/CorePeer.cc. The class
-- `ipaddr` is another library's: a type with a test for equal addresses, and `fill` its method.
pub mod Lookups
mod Examples
use tacppd.Common.{
  ℕ, ◌+◌, ◌-◌, ◌%◌, ◌^◌, Bool, true, false, ◌&&◌, Option, none, some, List, [], ◌∷◌, ◌++◌, Text,
  codes, str_eq, is_empty, if◌then◌else◌, ◌==◌, any, update_first, erase_first, get_elem?,
}
use tacppd.Common.Int.{ℤ, pos, negsuc, atoi, show_nat}
use tacppd.Common.Prefix.{before, after}
use tacppd.Access.Entry.{Regex}

-- `Peer_mask` is its text.
unfoldable pub mask_check : Regex → Text → Text → Bool
mask_check rx mask s =
    if is_empty mask then false else if rx.compiles mask then rx.matches mask s else false

pub record PeerData (Ip : Type 0) : Type 0 where
  pub peerhost : Ip
  pub port : ℕ
  pub descr : Text
  pub cryptokey : Text
  pub masks : List Text

-- `Peer_data::check_by_mask`, `add_mask` and `del_mask`.
unfoldable pub check_by_mask : {Ip : Type 0} → Regex → PeerData Ip → Text → Bool
unfolding mask_check
check_by_mask rx p s = any (λ mask. mask_check rx mask s) p.masks

unfoldable pub add_mask : {Ip : Type 0} → PeerData Ip → Text → PeerData Ip
add_mask p s =
    if any (λ mask. str_eq mask s) p.masks then p else record p { masks = p.masks ++ s ∷ [] }

unfoldable pub del_mask : {Ip : Type 0} → PeerData Ip → Text → PeerData Ip
del_mask p s = record p { masks = erase_first (λ mask. str_eq mask s) p.masks }

-- The constructor.
abbrev pub new_peer : {Ip : Type 0} → Ip → ℕ → PeerData Ip
new_peer ip port = record {
  peerhost = ip;
  port = port;
  descr = codes "none";
  cryptokey = codes "none";
  masks = [];
}

-- The texts of the configuration. `getn` is a method of `ipaddr`.
unfoldable pub mask_lines : List Text → Text
mask_lines [] = []
mask_lines (mask ∷ rest) = codes "  mask " ++ mask ++ (0x0a ∷ []) ++ mask_lines rest

unfoldable pub buildcfstr : {Ip : Type 0} → (Ip → Text) → PeerData Ip → Text
unfolding mask_lines
buildcfstr getn p =
    codes " peer "
    ++ getn p.peerhost
    ++ codes ":"
    ++ show_nat p.port
    ++ (0x0a ∷ [])
    ++ codes "  description '"
    ++ p.descr
    ++ codes "'"
    ++ (0x0a ∷ [])
    ++ codes "  cryptokey "
    ++ p.cryptokey
    ++ (0x0a ∷ [])
    ++ mask_lines p.masks
    ++ codes "  exit"

-- The peer at a place.
unfoldable pub build : {Ip : Type 0} → (Ip → Text) → List (PeerData Ip) → ℕ → Text
unfolding buildcfstr
build getn pd_ n = elim (get_elem? pd_ n) [ none ↦ [] | some p ↦ buildcfstr getn p ]

-- What is done to the peer of an address and a port, which is none where there is no such peer.
pub data Change : Type 0 where
  adds dels : Change
  adds_mask dels_mask describes keys : Text → Change

-- `add_mask`, `del_mask`, `modify_des` and `modify_key`, on the peer that was found.
unfoldable pub modify : {Ip : Type 0} → Change → PeerData Ip → PeerData Ip
unfolding add_mask del_mask
modify adds p = p
modify dels p = p
modify (adds_mask s) p = add_mask p s
modify (dels_mask s) p = del_mask p s
modify (describes s) p = record p { descr = s }
modify (keys s) p = record p { cryptokey = s }

module _ {Ip : Type 0} (eq : Ip → Ip → Bool) where
  abbrev pub is_peer : Ip → ℕ → PeerData Ip → Bool
  is_peer ip port p = eq p.peerhost ip && (p.port == port)

  -- The methods of `CorePeer`.
  unfoldable pub change : List (PeerData Ip) → Ip → ℕ → Change → List (PeerData Ip)
  unfolding modify
  change pd_ ip port adds = if any (is_peer ip port) pd_ then pd_ else pd_ ++ new_peer ip port ∷ []
  change pd_ ip port dels = erase_first (is_peer ip port) pd_
  change pd_ ip port (adds_mask s) = update_first (is_peer ip port) (modify (adds_mask s)) pd_
  change pd_ ip port (dels_mask s) = update_first (is_peer ip port) (modify (dels_mask s)) pd_
  change pd_ ip port (describes s) = update_first (is_peer ip port) (modify (describes s)) pd_
  change pd_ ip port (keys s) = update_first (is_peer ip port) (modify (keys s)) pd_

-- The host and the port of name@host:port or host:port: `utl::splitId` with 1 and with 2. Of texts of
-- 256 bytes and more nothing is meant.
unfoldable pub split_host : Text → Text
unfolding before after
split_host s =
    let t : Text = elim (after b'@' s) [ none ↦ s | some rest ↦ rest ] in
    elim (after b':' t) [ none ↦ [] | some _ ↦ before b':' t ]

unfoldable pub split_port : Text → Text
unfolding after
split_port s = elim (after b':' s) [ none ↦ [] | some rest ↦ rest ]

-- An `int` that becomes an `unsigned int`.
unfoldable pub unsigned : ℤ → ℕ
unsigned (pos n) = n % 2 ^ 32
unsigned (negsuc n) = 2 ^ 32 - 1 - n % 2 ^ 32

-- The change that a command stands for, and whether its own parameter names the peer, or that of the
-- node above.
unfoldable pub command_change : Text → Text → Option (Bool × Change)
command_change cmdname param =
    if str_eq cmdname (codes "confPeerNo")
    then some (true, dels)
    else if str_eq cmdname (codes "confPeerNode")
    then some (true, adds)
    else if str_eq cmdname (codes "confPeerDescr")
    then some (false, describes param)
    else if str_eq cmdname (codes "confPeerCrypto")
    then some (false, keys param)
    else if str_eq cmdname (codes "confPeerMask")
    then some (false, adds_mask param)
    else if str_eq cmdname (codes "confPeerNoMask")
    then some (false, dels_mask param)
    else none

-- `applycf`. `zero_ip` is the address before it is filled.
unfoldable pub applycf :
    {Ip : Type 0}
    → (Ip → Ip → Bool)
    → (Text → Ip → Ip)
    → Ip
    → Text
    → Text
    → Text
    → List (PeerData Ip)
    → List (PeerData Ip)
unfolding split_host split_port unsigned command_change change
applycf eq fill zero_ip cmdname param up_param pd_ = elim (command_change cmdname param) [
  | none ↦ pd_
  | some (own, c) ↦
      let id = if own then param else up_param in
      change eq pd_ (fill (split_host id) zero_ip) (unsigned (atoi (split_port id))) c
]
