-- ===== src/Pool.antt =====
-- One pool of addresses: `Addrpool_entry` and `Addrpool_data`, src/CorePool.cc. The class `ipaddr`
-- of the addresses is another library's: a type with a test for equal ones. `get` returns the text of
-- an address, for which the address stands here, or the empty text, which is `none`.
pub mod Held
pub mod Ranges
pub mod Pools
mod Examples
use tacppd.Common.{
  ℕ, Bool, true, false, Option, none, some, List, [], ◌∷◌, ◌++◌, if◌then◌else◌, ◌==◌, any,
  erase_first, update_first,
}
use tacppd.Common.Int.{ℤ}

-- `tag` says that the address is free.
pub record PoolEntry (Ip : Type 0) : Type 0 where
  pub address : Ip
  pub tag : Bool

pub record PoolData (Ip : Type 0) : Type 0 where
  pub pool : ℤ
  pub ae : List (PoolEntry Ip)

-- What is done to a pool, in order.
pub data Action (Ip : Type 0) : Type 0 where
  adds dels gives_back : Ip → Action Ip
  gets : Action Ip

module _ {Ip : Type 0} where
  -- The constructors.
  abbrev pub new_entry : Ip → PoolEntry Ip
  new_entry ip = record { address = ip; tag = true }

  abbrev pub new_pool : ℤ → PoolData Ip
  new_pool p = record { pool = p; ae = [] }

  -- The first free entry is occupied.
  unfoldable pub occupy : List (PoolEntry Ip) → List (PoolEntry Ip) × Option Ip
  occupy [] = ([], none)
  occupy (e ∷ es) =
      let rest = occupy es in
      if e.tag then (record e { tag = false } ∷ es, some e.address) else (e ∷ rest.0, rest.1)

  unfoldable pub get : PoolData Ip → PoolData Ip × Option Ip
  unfolding occupy
  get d = (record d { ae = (occupy d.ae).0 }, (occupy d.ae).1)

  abbrev pub set_free : PoolEntry Ip → PoolEntry Ip
  set_free e = record e { tag = true }

module _ {Ip : Type 0} (eq : Ip → Ip → Bool) where
  abbrev pub has_address : Ip → PoolEntry Ip → Bool
  has_address ip e = eq e.address ip

  unfoldable pub add : PoolData Ip → Ip → PoolData Ip
  add d ip = if any (has_address ip) d.ae then d else record d { ae = d.ae ++ new_entry ip ∷ [] }

  unfoldable pub del : PoolData Ip → Ip → PoolData Ip
  del d ip = record d { ae = erase_first (has_address ip) d.ae }

  unfoldable pub give_back : PoolData Ip → Ip → PoolData Ip
  give_back d ip = record d { ae = update_first (has_address ip) set_free d.ae }

  unfoldable pub step : PoolData Ip → Action Ip → PoolData Ip
  step d (adds ip) = add d ip
  step d (dels ip) = del d ip
  step d (gives_back ip) = give_back d ip
  step d gets = (get d).0

  unfoldable pub run : PoolData Ip → List (Action Ip) → PoolData Ip
  unfolding step
  run d [] = d
  run d (x ∷ xs) = run (step d x) xs
