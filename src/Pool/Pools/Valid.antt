-- ===== src/Pool/Pools/Valid.antt =====
-- No two pools of one number, and no address twice in a pool.
use tacppd.Common.{
  ◌≡◌, ◌↔◌, refl, sym, subst, ap, ◌∙◌, ℕ, Bool, true, List, [], ◌∷◌, ◌++◌, Text, if◌then◌else◌, any,
  erase_all, update_first, All, All-append, Bool-cases, inl, inr,
}
use tacppd.Common.Int.{ℤ, int_eq, int_eq_iff}
use tacppd.Common.Keyed.{Distinct, Distinct-push, Distinct-erase_all, Distinct-update_first}
use tacppd.Pool.{PoolData, new_pool, add, del, get, give_back}
use tacppd.Pool.Held.{IsValid, give_back-IsValid, add-IsValid, del-IsValid, get-IsValid}
use tacppd.Pool.Pools.Commands.{pool-add_each}
use tacppd.Pool.Pools.{has_number, add_each, del_each, add_to, del_pool, del_from, get_from, ret}

-- What is done to the pools: additions and deletions of addresses, which the commands read from
-- their texts, deletions of pools, and addresses that are handed out and given back.
pub data Change (Ip : Type 0) : Type 0 where
  adds dels : ℤ → List Ip → Change Ip
  dels_pool gets : ℤ → Change Ip
  returns : Ip → Change Ip

module _ {Ip : Type 0} (eq : Ip → Ip → Bool) (eq_iff : (a b : Ip) → (eq a b ≡ true) ↔ (a ≡ b))
    (octet : Text → ℕ → ℕ) (is_ip : Text → Bool) (parse : Text → Ip) where
  unfoldable pub change : List (PoolData Ip) → Change Ip → List (PoolData Ip)
  unfolding add_to del_pool del_from get_from ret
  change ap_ (adds p ips) = add_to eq octet is_ip parse p ips ap_
  change ap_ (dels p ips) = del_from eq octet is_ip parse p ips ap_
  change ap_ (dels_pool p) = del_pool eq octet is_ip parse p ap_
  change ap_ (gets p) = (get_from p ap_).0
  change ap_ (returns ip) = ret eq ip ap_

  unfoldable pub change_all : List (PoolData Ip) → List (Change Ip) → List (PoolData Ip)
  unfolding change
  change_all ap_ [] = ap_
  change_all ap_ (x ∷ xs) = change_all (change ap_ x) xs

  abbrev number_of : PoolData Ip → ℤ
  number_of d = d.pool

  abbrev pub AreValid : List (PoolData Ip) → Type 0
  AreValid ap_ = Distinct number_of int_eq ap_ × All (λ d. IsValid eq eq_iff d) ap_

  -- Changes pool by pool that keep the numbers.
  unfoldable each : (PoolData Ip → PoolData Ip) → List (PoolData Ip) → List (PoolData Ip)
  each f [] = []
  each f (d ∷ ap_) = f d ∷ each f ap_

  module _ (f : PoolData Ip → PoolData Ip) (keeps : (d : PoolData Ip) → (f d).pool ≡ d.pool)
      (valid : (d : PoolData Ip) → IsValid eq eq_iff d → IsValid eq eq_iff (f d)) where
    any-each :
        (p : ℤ) (ap_ : List (PoolData Ip))
        → any (has_number p) (each f ap_) ≡ any (has_number p) ap_
    unfolding each any
    any-each p [] = refl
    any-each p (d ∷ ap_) = rw (keeps d, any-each p ap_) refl

    each-AreValid : (ap_ : List (PoolData Ip)) → AreValid ap_ → AreValid (each f ap_)
    unfolding each
    each-AreValid [] v = (tt, tt)
    each-AreValid (d ∷ ap_) v =
        let rest = each-AreValid ap_ (v.0.1, v.1.1) in
        ((rw (keeps d) (any-each d.pool ap_ ∙ v.0.0), rest.0), (valid d v.1.0, rest.1))

  add_each-IsValid :
      (d : PoolData Ip) (ips : List Ip)
      → IsValid eq eq_iff d
      → IsValid eq eq_iff (add_each eq octet is_ip parse d ips)
  unfolding add_each
  add_each-IsValid d [] v = v
  add_each-IsValid d (ip ∷ ips) v =
      add_each-IsValid (add eq d ip) ips (add-IsValid eq eq_iff d ip v)

  del_each-IsValid :
      (d : PoolData Ip) (ips : List Ip)
      → IsValid eq eq_iff d
      → IsValid eq eq_iff (del_each eq octet is_ip parse d ips)
  unfolding del_each
  del_each-IsValid d [] v = v
  del_each-IsValid d (ip ∷ ips) v =
      del_each-IsValid (del eq d ip) ips (del-IsValid eq eq_iff d ip v)

  All-update_first :
      (p : PoolData Ip → Bool) (f : PoolData Ip → PoolData Ip)
      → ((d : PoolData Ip) → IsValid eq eq_iff d → IsValid eq eq_iff (f d))
      → (ap_ : List (PoolData Ip)) → All (λ d. IsValid eq eq_iff d) ap_
      → All (λ d. IsValid eq eq_iff d) (update_first p f ap_)
  unfolding update_first
  All-update_first p f k [] v = tt
  All-update_first p f k (d ∷ ap_) v = elim (Bool-cases (p d)) [
    | inl e ↦ rw (update_first, e) (k d v.0, v.1)
    | inr e ↦ rw (update_first, e) (v.0, All-update_first p f k ap_ v.1)
  ]

  All-erase_all :
      (p : PoolData Ip → Bool) (ap_ : List (PoolData Ip))
      → All (λ d. IsValid eq eq_iff d) ap_
      → All (λ d. IsValid eq eq_iff d) (erase_all p ap_)
  unfolding erase_all
  All-erase_all p [] v = tt
  All-erase_all p (d ∷ ap_) v = elim (Bool-cases (p d)) [
    | inl e ↦ rw (erase_all, e) (All-erase_all p ap_ v.1)
    | inr e ↦ rw (erase_all, e) (v.0, All-erase_all p ap_ v.1)
  ]

  update_first-AreValid :
      (p : ℤ) (f : PoolData Ip → PoolData Ip) (keeps : (d : PoolData Ip) → (f d).pool ≡ d.pool)
      → ((d : PoolData Ip) → IsValid eq eq_iff d → IsValid eq eq_iff (f d))
      → (ap_ : List (PoolData Ip)) → AreValid ap_
      → AreValid (update_first (has_number p) f ap_)
  update_first-AreValid p f keeps k ap_ v = (
    Distinct-update_first number_of int_eq int_eq_iff (has_number p) f keeps ap_ v.0,
    All-update_first (has_number p) f k ap_ v.1,
  )

  add_to-AreValid :
      (p : ℤ) (ips : List Ip) (ap_ : List (PoolData Ip))
      → AreValid ap_
      → AreValid (add_to eq octet is_ip parse p ips ap_)
  unfolding add_to
  add_to-AreValid p ips ap_ v = elim (Bool-cases (any (has_number p) ap_)) [
    | inl e ↦
        rw (add_to, e)
          (update_first-AreValid p (λ d. add_each eq octet is_ip parse d ips)
            (λ d. pool-add_each eq eq_iff octet is_ip parse d ips) (λ d. add_each-IsValid d ips) ap_
            v)
    | inr e ↦
        rw (add_to, e)
          (update_first-AreValid p (λ d. add_each eq octet is_ip parse d ips)
            (λ d. pool-add_each eq eq_iff octet is_ip parse d ips) (λ d. add_each-IsValid d ips)
            (ap_ ++ new_pool p ∷ [])
            (
              Distinct-push number_of int_eq int_eq_iff ap_ (new_pool p) e v.0,
              All-append (λ d. IsValid eq eq_iff d) ap_ (new_pool p ∷ []) v.1 (tt, tt),
            ))
  ]

  pool-del_each :
      (d : PoolData Ip) (ips : List Ip) → (del_each eq octet is_ip parse d ips).pool ≡ d.pool
  unfolding del_each del
  pool-del_each d [] = refl
  pool-del_each d (ip ∷ ips) = pool-del_each (del eq d ip) ips

  abbrev less : ℤ → List Ip → PoolData Ip → PoolData Ip
  less p ips d = if has_number p d then del_each eq octet is_ip parse d ips else d

  del_from-each :
      (p : ℤ) (ips : List Ip) (ap_ : List (PoolData Ip))
      → del_from eq octet is_ip parse p ips ap_ ≡ each (less p ips) ap_
  unfolding del_from each
  del_from-each p ips [] = refl
  del_from-each p ips (d ∷ ap_) = elim (Bool-cases (has_number p d)) [
    | inl e ↦ rw (e, del_from-each p ips ap_) refl
    | inr e ↦ rw (e, del_from-each p ips ap_) refl
  ]

  ret-each :
      (ip : Ip) (ap_ : List (PoolData Ip)) → ret eq ip ap_ ≡ each (λ d. give_back eq d ip) ap_
  unfolding ret each
  ret-each ip [] = refl
  ret-each ip (d ∷ ap_) = ap (◌∷◌ (give_back eq d ip)) (ret-each ip ap_)

  get_from-update_first :
      (p : ℤ) (ap_ : List (PoolData Ip))
      → (get_from p ap_).0 ≡ update_first (has_number p) (λ d. (get d).0) ap_
  unfolding get_from update_first
  get_from-update_first p [] = refl
  get_from-update_first p (d ∷ ap_) = elim (Bool-cases (has_number p d)) [
    | inl e ↦ rw e refl
    | inr e ↦ rw (e, get_from-update_first p ap_) refl
  ]

  less-IsValid :
      (p : ℤ) (ips : List Ip) (d : PoolData Ip)
      → IsValid eq eq_iff d
      → IsValid eq eq_iff (less p ips d)
  less-IsValid p ips d v = elim (Bool-cases (has_number p d)) [
    | inl e ↦ rw e (del_each-IsValid d ips v)
    | inr e ↦ rw e v
  ]

  pool-less : (p : ℤ) (ips : List Ip) (d : PoolData Ip) → (less p ips d).pool ≡ d.pool
  pool-less p ips d = elim (Bool-cases (has_number p d)) [
    | inl e ↦ rw e (pool-del_each d ips)
    | inr e ↦ rw e refl
  ]

  change-AreValid :
      (ap_ : List (PoolData Ip)) (x : Change Ip) → AreValid ap_ → AreValid (change ap_ x)
  unfolding change del_pool
  change-AreValid ap_ (adds p ips) v = add_to-AreValid p ips ap_ v
  change-AreValid ap_ (dels p ips) v =
      subst AreValid (sym (del_from-each p ips ap_))
        (each-AreValid (less p ips) (pool-less p ips) (less-IsValid p ips) ap_ v)
  change-AreValid ap_ (dels_pool p) v = (
    Distinct-erase_all number_of int_eq int_eq_iff (has_number p) ap_ v.0,
    All-erase_all (has_number p) ap_ v.1,
  )
  change-AreValid ap_ (gets p) v = subst AreValid (sym (get_from-update_first p ap_)) (
      update_first-AreValid p (λ d. (get d).0) (λ d. unfold get in refl) (get-IsValid eq eq_iff) ap_
        v)
  change-AreValid ap_ (returns ip) v = subst AreValid (sym (ret-each ip ap_)) (
      each-AreValid (λ d. give_back eq d ip) (λ d. unfold give_back in refl)
        (λ d. give_back-IsValid eq eq_iff d ip) ap_ v)

  -- From pools of which no two have one number, and none an address twice, no changes lead to two
  -- pools of one number, or to an address twice in a pool.
  pub change_all-AreValid :
      (ap_ : List (PoolData Ip)) (xs : List (Change Ip))
      → AreValid ap_
      → AreValid (change_all ap_ xs)
  unfolding change_all
  change_all-AreValid ap_ [] v = v
  change_all-AreValid ap_ (x ∷ xs) v =
      change_all-AreValid (change ap_ x) xs (change-AreValid ap_ x v)
