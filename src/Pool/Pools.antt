-- ===== src/Pool/Pools.antt =====
-- All pools, and their commands: `CorePool`, src/CorePool.cc. `parse` is the constructor of `ipaddr`
-- from a text. The pool's number is an `int`.
pub mod Commands
pub mod Valid
mod Examples
use tacppd.Common.{
  ℕ, zero, suc, ◌+◌, Bool, true, false, Option, none, some, List, [], ◌∷◌, ◌++◌, Text, codes, take,
  is_empty, str_eq, if◌then◌else◌, any, find, update_first, erase_all,
}
use tacppd.Common.Int.{ℤ, int_eq, atoi}
use tacppd.Pool.{PoolData, new_pool, add, del, get, give_back}
use tacppd.Pool.Ranges.{get_addr}

abbrev pub has_number : {Ip : Type 0} → ℤ → PoolData Ip → Bool
has_number p d = int_eq d.pool p

module _ {Ip : Type 0} where
  -- `get`: of the first pool of the number.
  unfoldable pub get_from : ℤ → List (PoolData Ip) → List (PoolData Ip) × Option Ip
  unfolding get
  get_from p [] = ([], none)
  get_from p (d ∷ ap_) =
      let rest = get_from p ap_ in
      if has_number p d then ((get d).0 ∷ ap_, (get d).1) else (d ∷ rest.0, rest.1)

module _ {Ip : Type 0} (eq : Ip → Ip → Bool) where
  -- `ret`: to every pool.
  unfoldable pub ret : Ip → List (PoolData Ip) → List (PoolData Ip)
  unfolding give_back
  ret ip [] = []
  ret ip (d ∷ ap_) = give_back eq d ip ∷ ret ip ap_

module _ {Ip : Type 0} (eq : Ip → Ip → Bool) (octet : Text → ℕ → ℕ) (is_ip : Text → Bool)
    (parse : Text → Ip) where
  -- The addresses that the loops of `add` and `del` run over, from the one at hand on: the first one
  -- comes twice. The fuel bounds the turns.
  unfoldable pub addresses : ℕ → Text → Text → ℕ → Option (List Ip)
  unfolding get_addr
  addresses zero a r i = none
  addresses (suc fuel) a r i = if is_empty r then some [] else elim (get_addr octet is_ip a i) [
    | none ↦ none
    | some next ↦ elim (addresses fuel a (take 15 next) (i + 1)) [
      | none ↦ none
      | some rest ↦ some (parse r ∷ rest)
    ]
  ]

  unfoldable pub all_addresses : ℕ → Text → Option (List Ip)
  unfolding addresses get_addr
  all_addresses fuel a = elim (get_addr octet is_ip a 0) [
    | none ↦ none
    | some r ↦ addresses fuel a (take 15 r) 0
  ]

  unfoldable pub add_each : PoolData Ip → List Ip → PoolData Ip
  unfolding add
  add_each d [] = d
  add_each d (ip ∷ ips) = add_each (add eq d ip) ips

  unfoldable pub del_each : PoolData Ip → List Ip → PoolData Ip
  unfolding del
  del_each d [] = d
  del_each d (ip ∷ ips) = del_each (del eq d ip) ips

  -- `add`, with the addresses of its text: to the first pool of the number, or to a new one at the end.
  unfoldable pub add_to : ℤ → List Ip → List (PoolData Ip) → List (PoolData Ip)
  unfolding add_each
  add_to p ips ap_ =
      let all = if any (has_number p) ap_ then ap_ else ap_ ++ new_pool p ∷ [] in
      update_first (has_number p) (λ d. add_each d ips) all

  -- `del` of a whole pool.
  unfoldable pub del_pool : ℤ → List (PoolData Ip) → List (PoolData Ip)
  del_pool p ap_ = erase_all (has_number p) ap_

  -- `del` of addresses.
  unfoldable pub del_from : ℤ → List Ip → List (PoolData Ip) → List (PoolData Ip)
  unfolding del_each
  del_from p ips [] = []
  del_from p ips (d ∷ ap_) =
      let rest = del_from p ips ap_ in if has_number p d then del_each d ips ∷ rest else d ∷ rest

  -- `applycf`: the first parameter, and that of the node above. `none` stands for too little fuel.
  unfoldable pub applycf : ℕ → Text → Text → Text → List (PoolData Ip) → Option (List (PoolData Ip))
  unfolding del_pool all_addresses add_to del_from
  applycf fuel cmdname param up_param ap_ =
      if str_eq cmdname (codes "confPoolNo")
      then some (del_pool (atoi param) ap_)
      else if str_eq cmdname (codes "confPoolAddr")
      then elim (all_addresses fuel up_param) [
        | none ↦ none
        | some ips ↦ some (add_to (atoi param) ips ap_)
      ]
      else if str_eq cmdname (codes "confPoolNoAddr")
      then elim (all_addresses fuel param) [
        | none ↦ none
        | some ips ↦ some (del_from (atoi up_param) ips ap_)
      ]
      else some ap_
