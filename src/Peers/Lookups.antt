-- ===== src/Peers/Lookups.antt =====
-- What is known of one peer after any commands.
use tacppd.Common.{
  ◌≡◌, ◌↔◌, refl, sym, ap, ◌∙◌, ℕ, Bool, true, ◌&&◌, Option, none, some, List, [], ◌∷◌,
  if◌then◌else◌, ◌==◌, ==_iff, any, find, update_first, Bool-cases, inl, inr, arith,
}
use mathlib.Core.Path.{ap₂}
use tacppd.Common.Keyed.{
  at_key, Distinct, Distinct-push, Distinct-erase_first, Distinct-update_first, find-update_first,
  find-erase_first, find-add,
}
use tacppd.Peers.{
  PeerData, Change, adds, dels, adds_mask, dels_mask, describes, keys, modify, add_mask, del_mask,
  new_peer, is_peer, change,
}

-- A peer as a map has it: nothing, or its settings.
unfoldable pub step : {Ip : Type 0} → Ip → ℕ → Change → Option (PeerData Ip) → Option (PeerData Ip)
step ip port adds o = elim o [ none ↦ some (new_peer ip port) | some p ↦ some p ]
step ip port dels o = none
step ip port (adds_mask s) o = elim o [ none ↦ none | some p ↦ some (modify (adds_mask s) p) ]
step ip port (dels_mask s) o = elim o [ none ↦ none | some p ↦ some (modify (dels_mask s) p) ]
step ip port (describes s) o = elim o [ none ↦ none | some p ↦ some (modify (describes s) p) ]
step ip port (keys s) o = elim o [ none ↦ none | some p ↦ some (modify (keys s) p) ]

module _ {Ip : Type 0} (eq : Ip → Ip → Bool) (same : (a b : Ip) → (eq a b ≡ true) ↔ (a ≡ b)) where
  abbrev pub Key : Type 0
  Key = Ip × ℕ

  abbrev pub key_of : PeerData Ip → Key
  key_of p = (p.peerhost, p.port)

  abbrev pub key_eq : Key → Key → Bool
  key_eq a b = eq a.0 b.0 && (a.1 == b.1)

  and_true : (a b : Bool) → (a && b) ≡ true → (a ≡ true) × (b ≡ true)
  and_true a b e = ground arith

  key_eq_iff : (a b : Key) → (key_eq a b ≡ true) ↔ (a ≡ b)
  key_eq_iff a b = (
    (λ e.
        let e' = and_true (eq a.0 b.0) (a.1 == b.1) e in
        ap₂ (λ x y. (x, y)) ((same a.0 b.0).0 e'.0) ((==_iff a.1 b.1).0 e'.1)),
    (λ e. rw (sym e, (same a.0 a.0).1 refl, (==_iff a.1 a.1).1 refl) refl),
  )

  abbrev pub AreDistinct : List (PeerData Ip) → Type 0
  AreDistinct pd_ = Distinct key_of key_eq pd_

  abbrev peer_at : Key → List (PeerData Ip) → Option (PeerData Ip)
  peer_at k pd_ = find (at_key key_of key_eq k) pd_

  peer_at-same :
      (k j : Key) (pd_ : List (PeerData Ip)) → key_eq k j ≡ true → peer_at k pd_ ≡ peer_at j pd_
  peer_at-same k j pd_ e = ap (λ c. peer_at c pd_) ((key_eq_iff k j).0 e)

  -- A change of the settings, which leaves the keys alone.
  peer_at-update :
      (f : PeerData Ip → PeerData Ip) (keeps : (p : PeerData Ip) → key_of (f p) ≡ key_of p)
      (k j : Key) (pd_ : List (PeerData Ip))
      → peer_at j (update_first (at_key key_of key_eq k) f pd_) ≡ (
          if key_eq k j
          then elim (peer_at j pd_) [ none ↦ none | some p ↦ some (f p) ]
          else peer_at j pd_)
  peer_at-update f keeps k j pd_ = elim (Bool-cases (key_eq k j)) [
    | inl e ↦
        rw (find-update_first key_of key_eq key_eq_iff f keeps k j pd_, e, peer_at-same k j pd_ e)
          refl
    | inr e ↦ rw (find-update_first key_of key_eq key_eq_iff f keeps k j pd_, e) refl
  ]

  key-modify : (c : Change) (p : PeerData Ip) → key_of (modify c p) ≡ key_of p
  unfolding modify add_mask del_mask
  key-modify adds p = refl
  key-modify dels p = refl
  key-modify (adds_mask s) p = ground arith
  key-modify (dels_mask s) p = refl
  key-modify (describes s) p = refl
  key-modify (keys s) p = refl

  update-AreDistinct :
      (c : Change) (k : Key) (pd_ : List (PeerData Ip))
      → AreDistinct pd_
      → AreDistinct (update_first (at_key key_of key_eq k) (modify c) pd_)
  update-AreDistinct c k pd_ v =
      Distinct-update_first key_of key_eq key_eq_iff _ (modify c) (key-modify c) pd_ v

  -- What a command does to the settings at one key.
  peer_at-change :
      (pd_ : List (PeerData Ip)) (k : Key) (c : Change) (j : Key)
      → AreDistinct pd_
      → peer_at j (change eq pd_ k.0 k.1 c)
        ≡ (if key_eq k j then step k.0 k.1 c (peer_at j pd_) else peer_at j pd_)
  unfolding change step
  peer_at-change pd_ k adds j v = find-add key_of key_eq key_eq_iff k (new_peer k.0 k.1) refl j pd_
  peer_at-change pd_ k dels j v = find-erase_first key_of key_eq key_eq_iff k j pd_ v
  peer_at-change pd_ k (adds_mask s) j v =
      peer_at-update (modify (adds_mask s)) (key-modify (adds_mask s)) k j pd_
  peer_at-change pd_ k (dels_mask s) j v =
      peer_at-update (modify (dels_mask s)) (key-modify (dels_mask s)) k j pd_
  peer_at-change pd_ k (describes s) j v =
      peer_at-update (modify (describes s)) (key-modify (describes s)) k j pd_
  peer_at-change pd_ k (keys s) j v = peer_at-update (modify (keys s)) (key-modify (keys s)) k j pd_

  change-AreDistinct :
      (pd_ : List (PeerData Ip)) (k : Key) (c : Change)
      → AreDistinct pd_
      → AreDistinct (change eq pd_ k.0 k.1 c)
  unfolding change
  change-AreDistinct pd_ k adds v = elim (Bool-cases (any (is_peer eq k.0 k.1) pd_)) [
    | inl e ↦ rw e v
    | inr e ↦ rw e (Distinct-push key_of key_eq key_eq_iff pd_ (new_peer k.0 k.1) e v)
  ]
  change-AreDistinct pd_ k dels v = Distinct-erase_first key_of key_eq key_eq_iff _ pd_ v
  change-AreDistinct pd_ k (adds_mask s) v = update-AreDistinct (adds_mask s) k pd_ v
  change-AreDistinct pd_ k (dels_mask s) v = update-AreDistinct (dels_mask s) k pd_ v
  change-AreDistinct pd_ k (describes s) v = update-AreDistinct (describes s) k pd_ v
  change-AreDistinct pd_ k (keys s) v = update-AreDistinct (keys s) k pd_ v

module _ {Ip : Type 0} (eq : Ip → Ip → Bool) where
  -- The commands of a configuration, in their order.
  unfoldable pub change_all : List (PeerData Ip) → List ((Ip × ℕ) × Change) → List (PeerData Ip)
  unfolding change
  change_all pd_ [] = pd_
  change_all pd_ (x ∷ xs) = change_all (change eq pd_ x.0.0 x.0.1 x.1) xs

  -- One peer by its own commands alone.
  unfoldable pub step_all :
      Ip → ℕ → Option (PeerData Ip) → List ((Ip × ℕ) × Change) → Option (PeerData Ip)
  unfolding step
  step_all ip port o [] = o
  step_all ip port o (x ∷ xs) =
      if eq x.0.0 ip && (x.0.1 == port)
      then step_all ip port (step x.0.0 x.0.1 x.1 o) xs
      else step_all ip port o xs

  module _ (same : (a b : Ip) → (eq a b ≡ true) ↔ (a ≡ b)) where
    -- After any commands on peers of which no two have one address and port, the list has under an
    -- address and a port what the commands for these two alone make of what it had there, and still
    -- no two peers have one address and port.
    pub find-change_all :
        (pd_ : List (PeerData Ip)) (cs : List ((Ip × ℕ) × Change)) (ip : Ip) (port : ℕ)
        → AreDistinct eq same pd_
        → (find (is_peer eq ip port) (change_all pd_ cs)
            ≡ step_all ip port (find (is_peer eq ip port) pd_) cs)
          × AreDistinct eq same (change_all pd_ cs)
    unfolding change_all step_all
    find-change_all pd_ [] ip port v = (refl, v)
    find-change_all pd_ (x ∷ xs) ip port v =
        let rest =
          find-change_all (change eq pd_ x.0.0 x.0.1 x.1) xs ip port
            (change-AreDistinct eq same pd_ x.0 x.1 v) in
        let first = peer_at-change eq same pd_ x.0 x.1 (ip, port) v in
        elim (Bool-cases (eq x.0.0 ip && (x.0.1 == port))) [
          | inl e ↦ rw e (rest.0 ∙ ap (λ o. step_all ip port o xs) (first ∙ rw e refl), rest.1)
          | inr e ↦ rw e (rest.0 ∙ ap (λ o. step_all ip port o xs) (first ∙ rw e refl), rest.1)
        ]
