-- ===== src/Pool/Pools/Commands.antt =====
-- What the commands and the users of the pools do to them.
use tacppd.Common.{
  ◌≡◌, ◌↔◌, refl, sym, ap, ◌∙◌, ℕ, suc, ◌+◌, Bool, true, false, none, some, List, [], ◌∷◌, ◌++◌,
  Text, codes, str_eq, take, is_empty, if◌then◌else◌, any, find, arith, Bool-cases, inl, inr,
  Option,
}
use mathlib.Core.List.{append-nil}
use tacppd.Common.Int.{ℤ, int_eq, int_eq_iff, int_eq_refl, atoi}
use tacppd.Common.Keyed.{find-push, find-none, find-update_first, find-add}
use tacppd.Pool.{PoolData, PoolEntry, new_pool, new_entry, has_address, add}
use tacppd.Pool.Ranges.{get_addr}
use tacppd.Pool.Ranges.Lists.{IsPart, behind, get_addr_single}
use tacppd.Pool.Pools.{has_number, addresses, all_addresses, add_each, add_to, applycf}

module _ {Ip : Type 0} (eq : Ip → Ip → Bool) (eq_iff : (a b : Ip) → (eq a b ≡ true) ↔ (a ≡ b))
    (octet : Text → ℕ → ℕ) (is_ip : Text → Bool) (parse : Text → Ip) where
  take-empty : (s : Text) → is_empty s ≡ false → is_empty (take 15 s) ≡ false
  take-empty [] h = h
  take-empty (c ∷ s) h = refl

  addresses-cons :
      (fuel : ℕ) (a r next : Text) (i : ℕ) (ips : List Ip)
      → is_empty r ≡ false
      → get_addr octet is_ip a i ≡ some next
      → addresses eq octet is_ip parse fuel a (take 15 next) (i + 1) ≡ some ips
      → addresses eq octet is_ip parse (suc fuel) a r i ≡ some (parse r ∷ ips)
  unfolding addresses
  addresses-cons fuel a r next i ips h e f = rw (addresses, h, e, f) refl

  all_addresses-some :
      (fuel : ℕ) (a r : Text) (ips : List Ip)
      → get_addr octet is_ip a 0 ≡ some r
      → addresses eq octet is_ip parse fuel a (take 15 r) 0 ≡ some ips
      → all_addresses eq octet is_ip parse fuel a ≡ some ips
  unfolding all_addresses
  all_addresses-some fuel a r ips e f = rw (all_addresses, e, f) refl

  addresses_end :
      (fuel : ℕ) (a : Text) (i : ℕ) → addresses eq octet is_ip parse (suc fuel) a [] i ≡ some []
  unfolding addresses
  addresses_end fuel a i = refl

  all_addresses_single :
      (fuel : ℕ) (s : Text) (m : Option Text)
      → IsPart s
      → all_addresses eq octet is_ip parse (suc (suc (suc fuel))) (s ++ behind m)
        ≡ some (parse (take 15 s) ∷ parse (take 15 s) ∷ [])
  all_addresses_single fuel s m h =
      let a = s ++ behind m in
      let first = get_addr_single octet is_ip s m 0 h in
      let some_text = take-empty s h.0 in
      all_addresses-some (suc (suc (suc fuel))) a s _ first (
        addresses-cons (suc (suc fuel)) a (take 15 s) s 0 _ some_text first (
          addresses-cons (suc fuel) a (take 15 s) [] 1 _ some_text
            (get_addr_single octet is_ip s m 1 h) (addresses_end fuel a 2)))

  pub pool-add_each :
      (d : PoolData Ip) (ips : List Ip) → (add_each eq octet is_ip parse d ips).pool ≡ d.pool
  unfolding add_each add
  pool-add_each d [] = refl
  pool-add_each d (ip ∷ ips) = pool-add_each (add eq d ip) ips ∙ keeps
    where
      keeps : (add eq d ip).pool ≡ d.pool
      keeps = ground arith

  find-add_to :
      (p k : ℤ) (ips : List Ip) (ap_ : List (PoolData Ip))
      → int_eq p k ≡ false
      → find (has_number k) (add_to eq octet is_ip parse p ips ap_) ≡ find (has_number k) ap_
  unfolding add_to
  find-add_to p k ips ap_ h =
      let all = if any (has_number p) ap_ then ap_ else ap_ ++ new_pool p ∷ [] in
      find-update_first (λ (d : PoolData Ip). d.pool) int_eq int_eq_iff
        (λ d. add_each eq octet is_ip parse d ips) (λ d. pool-add_each d ips) p k all
      ∙ rw h (grown (any (has_number p) ap_))
    where
      pushed : find (has_number k) (ap_ ++ new_pool p ∷ []) ≡ find (has_number k) ap_
      pushed = elim (Bool-cases (any (has_number k) ap_)) [
        | inl e ↦ find-push (has_number k) ap_ (new_pool p) ∙ rw e refl
        | inr e ↦
            find-push (has_number k) ap_ (new_pool p)
            ∙ rw (e, h) (sym (find-none (has_number k) ap_ e))
      ]

      grown :
          (b : Bool)
          → find (has_number k) (if b then ap_ else ap_ ++ new_pool p ∷ [])
            ≡ find (has_number k) ap_
      grown true = refl
      grown false = pushed

  applycf_adds :
      (fuel : ℕ) (param up_param : Text) (ips : List Ip) (ap_ : List (PoolData Ip))
      → all_addresses eq octet is_ip parse fuel up_param ≡ some ips
      → applycf eq octet is_ip parse fuel (codes "confPoolAddr") param up_param ap_
        ≡ some (add_to eq octet is_ip parse (atoi param) ips ap_)
  unfolding applycf str_eq
  applycf_adds fuel param up_param ips ap_ e =
      ap
        (λ (o : Option (List Ip)). elim o [
          | none ↦ none
          | some x ↦ some (add_to eq octet is_ip parse (atoi param) x ap_)
        ])
        e

  any-address-new :
      (ip : Ip) (es : List (PoolEntry Ip))
      → any (has_address eq ip) (es ++ new_entry ip ∷ []) ≡ true
  unfolding any
  any-address-new ip [] = ground (arith, (eq_iff ip ip).1 refl)
  any-address-new ip (e ∷ es) = ground (arith, any-address-new ip es)

  any-address-add : (d : PoolData Ip) (ip : Ip) → any (has_address eq ip) (add eq d ip).ae ≡ true
  unfolding add
  any-address-add d ip = elim (Bool-cases (any (has_address eq ip) d.ae)) [
    | inl e ↦ rw (add, e) e
    | inr e ↦ rw (add, e) (any-address-new ip d.ae)
  ]

  -- An address that is there is not added again.
  add-there : (d : PoolData Ip) (ip : Ip) → any (has_address eq ip) d.ae ≡ true → add eq d ip ≡ d
  unfolding add
  add-there d ip e = rw (add, e) refl

  -- The first pool of a number, or a new one.
  abbrev pub pool_of : ℤ → List (PoolData Ip) → PoolData Ip
  pool_of p ap_ = elim (find (has_number p) ap_) [ none ↦ new_pool p | some d ↦ d ]

  find-add_to_here :
      (p : ℤ) (ips : List Ip) (ap_ : List (PoolData Ip))
      → find (has_number p) (add_to eq octet is_ip parse p ips ap_)
        ≡ some (add_each eq octet is_ip parse (pool_of p ap_) ips)
  unfolding add_to
  find-add_to_here p ips ap_ =
      let all = if any (has_number p) ap_ then ap_ else ap_ ++ new_pool p ∷ [] in
      let same = int_eq_refl p in
      find-update_first (λ (d : PoolData Ip). d.pool) int_eq int_eq_iff
        (λ d. add_each eq octet is_ip parse d ips) (λ d. pool-add_each d ips) p p all
      ∙ rw same refl
      ∙ ap added (
          find-add (λ (d : PoolData Ip). d.pool) int_eq int_eq_iff p (new_pool p) refl p ap_
          ∙ rw same refl)
      ∙ made (find (has_number p) ap_)
    where
      added : Option (PoolData Ip) → Option (PoolData Ip)
      added o = elim o [ none ↦ none | some d ↦ some (add_each eq octet is_ip parse d ips) ]

      made :
          (o : Option (PoolData Ip))
          → Path
              (Option (PoolData Ip))
              (added (elim o [ none ↦ some (new_pool p) | some d ↦ some d ]))
              (some (add_each eq octet is_ip parse (elim o [ none ↦ new_pool p | some d ↦ d ]) ips))
      made none = refl
      made (some d) = refl

  add_each_twice :
      (d : PoolData Ip) (ip : Ip) → add_each eq octet is_ip parse d (ip ∷ ip ∷ []) ≡ add eq d ip
  unfolding add_each
  add_each_twice d ip = add-there (add eq d ip) ip (any-address-add d ip)

  -- The command that adds an address, in the node of a pool's number, takes the number from the
  -- address and the address from the node: the pool of the number that the address begins with, or a
  -- new one, gets what the node's text is as an address, and every other pool is as it was. The text of
  -- the node is one address: not empty, without commas and minus signs. Three turns are enough.
  pub applycf_addr :
      (fuel : ℕ) (param up_param : Text) (k : ℤ) (ap_ : List (PoolData Ip))
      → IsPart up_param
      → int_eq (atoi param) k ≡ false
      → (ap' : List (PoolData Ip)) × ((applycf eq octet is_ip parse
              (suc (suc (suc fuel)))
              (codes "confPoolAddr")
              param
              up_param
              ap_
            ≡ some ap')
          × (find (has_number (atoi param)) ap'
              ≡ some (add eq (pool_of (atoi param) ap_) (parse (take 15 up_param))))
          × (find (has_number k) ap' ≡ find (has_number k) ap_))
  applycf_addr fuel param up_param k ap_ h other =
      let ip = parse (take 15 up_param) in
      let turns = suc (suc (suc fuel)) in
      (
        add_to eq octet is_ip parse (atoi param) (ip ∷ ip ∷ []) ap_,
        (
          applycf_adds turns param up_param (ip ∷ ip ∷ []) ap_ (
              ap (all_addresses eq octet is_ip parse turns) (sym (append-nil up_param))
              ∙ all_addresses_single fuel up_param none h),
          find-add_to_here (atoi param) (ip ∷ ip ∷ []) ap_
              ∙ ap some (add_each_twice (pool_of (atoi param) ap_) ip),
          find-add_to (atoi param) k (ip ∷ ip ∷ []) ap_ other,
        ),
      )
