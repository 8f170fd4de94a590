-- ===== src/Peers/Examples.antt =====
-- The peers on concrete commands.
use tacppd.Common.{
  ◌≡◌, refl, ℕ, some, none, List, [], ◌∷◌, Text, codes, find, length, str_eq, any, erase_first,
  update_first, ◌==◌, ==_iff,
}
use tacppd.Common.Int.{atoi, show_nat}
use tacppd.Peers.{
  Change, adds, dels, adds_mask, describes, keys, is_peer, applycf, split_host, split_port,
  new_peer, build, change,
}
use tacppd.Peers.Lookups.{change_all, step_all, AreDistinct, find-change_all}

-- Addresses are numbers here.
abbrev commands : List ((ℕ × ℕ) × Change)
commands =
    ((7, 49), adds)
    ∷ ((8, 49), adds)
    ∷ ((7, 49), adds)
    ∷ ((7, 49), adds_mask (codes "^70"))
    ∷ ((8, 49), keys (codes "k"))
    ∷ ((7, 50), describes (codes "x"))
    ∷ ((8, 49), dels)
    ∷ []

found :
    find (is_peer ◌==◌ 7 49) (change_all ◌==◌ [] commands)
    ≡ some (record {
      peerhost = 7;
      port = 49;
      descr = codes "none";
      cryptokey = codes "none";
      masks = codes "^70" ∷ [];
    })
unfolding find change_all change erase_first update_first any
found = refl

find-change_all_example :
    (find (is_peer ◌==◌ 7 49) (change_all ◌==◌ [] commands) ≡ step_all ◌==◌ 7 49 none commands)
    × AreDistinct ◌==◌ ==_iff (change_all ◌==◌ [] commands)
unfolding find
find-change_all_example = find-change_all ◌==◌ ==_iff [] commands 7 49 tt

host : split_host (codes "roam@example.net:49") ≡ codes "example.net"
unfolding split_host
host = refl

port_text : split_port (codes "roam@example.net:49") ≡ codes "49"
unfolding split_port
port_text = refl

abbrev office : Text
office =
    build (λ _. codes "h") (change ◌==◌ (change ◌==◌ [] 7 49 adds) 7 49 (adds_mask (codes "^70"))) 0

office_text :
    office ≡ codes " peer h:49\n  description 'none'\n  cryptokey none\n  mask ^70\n  exit"
unfolding build change any update_first show_nat
office_text = refl

-- A command below the node of a peer.
keyed :
    applycf ◌==◌
      (λ s _. length s)
      0
      (codes "confPeerCrypto")
      (codes "k")
      (codes "roam@h:49")
      (new_peer 1 49 ∷ new_peer 2 49 ∷ [])
    ≡ record (new_peer 1 49) { cryptokey = codes "k" } ∷ new_peer 2 49 ∷ []
unfolding applycf update_first str_eq atoi
keyed = refl
