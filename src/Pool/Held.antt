-- ===== src/Pool/Held.antt =====
-- An address that was handed out is held until it is given back. `eq` is the test for equal
-- addresses, which decides their equality.
use tacppd.Common.{
  ◌≡◌, ◌≢◌, refl, ap, Bool, true, false, not, none, some, List, [], ◌∷◌, ◌++◌, any, erase_first,
  update_first, All, arith, Bool-cases, inl, inr, if◌then◌else◌, ◌↔◌,
}
use tacppd.Common.Keyed.{Distinct, Distinct-push, Distinct-erase_first, Distinct-update_first}
use tacppd.Pool.{
  PoolEntry, PoolData, new_entry, has_address, add, del, occupy, get, set_free, give_back, Action,
  adds, dels, gives_back, gets, step, run,
}

module _ {Ip : Type 0} (eq : Ip → Ip → Bool) (eq_iff : (a b : Ip) → (eq a b ≡ true) ↔ (a ≡ b)) where
  abbrev address_of : PoolEntry Ip → Ip
  address_of e = e.address

  -- No address stands in a pool twice.
  abbrev pub IsValid : PoolData Ip → Type 0
  IsValid d = Distinct address_of eq d.ae

  -- The first entry of the address is there and occupied.
  unfoldable pub is_held : Ip → List (PoolEntry Ip) → Bool
  is_held ip [] = false
  is_held ip (e ∷ es) = if eq e.address ip then not e.tag else is_held ip es

  occupy-any :
      (ip : Ip) (es : List (PoolEntry Ip))
      → any (has_address eq ip) (occupy es).0 ≡ any (has_address eq ip) es
  unfolding occupy any
  occupy-any ip [] = refl
  occupy-any ip (e ∷ es) = ground (arith, occupy-any ip es)

  occupy-Distinct :
      (es : List (PoolEntry Ip)) → Distinct address_of eq es → Distinct address_of eq (occupy es).0
  unfolding occupy
  occupy-Distinct [] v = tt
  occupy-Distinct (e ∷ es) v = ground (arith, occupy-any e.address es, occupy-Distinct es v.1)

  occupy-is_held :
      (ip : Ip) (es : List (PoolEntry Ip)) → is_held ip es ≡ true → is_held ip (occupy es).0 ≡ true
  unfolding occupy is_held
  occupy-is_held ip [] h = h
  occupy-is_held ip (e ∷ es) h = ground (arith, occupy-is_held ip es)

  push-is_held :
      (ip : Ip) (es : List (PoolEntry Ip)) (e : PoolEntry Ip)
      → is_held ip es ≡ true
      → is_held ip (es ++ e ∷ []) ≡ true
  unfolding is_held
  push-is_held ip [] e h = absurd (ground arith)
  push-is_held ip (x ∷ es) e h = ground (arith, push-is_held ip es e)

  erase-is_held :
      (ip other : Ip) (es : List (PoolEntry Ip))
      → other ≢ ip
      → is_held ip es ≡ true
      → is_held ip (erase_first (has_address eq other) es) ≡ true
  unfolding is_held erase_first
  erase-is_held ip other [] ne h = h
  erase-is_held ip other (x ∷ es) ne h =
      ground (arith, erase-is_held ip other es ne, eq_iff x.address other, eq_iff x.address ip)

  free-is_held :
      (ip other : Ip) (es : List (PoolEntry Ip))
      → other ≢ ip
      → is_held ip es ≡ true
      → is_held ip (update_first (has_address eq other) set_free es) ≡ true
  unfolding is_held update_first
  free-is_held ip other [] ne h = h
  free-is_held ip other (x ∷ es) ne h =
      ground (arith, free-is_held ip other es ne, eq_iff x.address other, eq_iff x.address ip)

  -- What is taken was free: with distinct addresses it was not held, and it is held then.
  absent_not_held :
      (ip : Ip) (es : List (PoolEntry Ip))
      → is_held ip es ≡ true
      → any (has_address eq ip) es ≡ true
  unfolding is_held any
  absent_not_held ip [] h = absurd (ground arith)
  absent_not_held ip (e ∷ es) h = ground (arith, absent_not_held ip es)

  occupy-some :
      (ip : Ip) (es : List (PoolEntry Ip))
      → (occupy es).1 ≡ some ip
      → any (has_address eq ip) es ≡ true
  unfolding occupy any
  occupy-some ip [] h = absurd (ground arith)
  occupy-some ip (e ∷ es) h = ground (arith, occupy-some ip es, eq_iff e.address ip)

  occupy_held :
      (ip : Ip) (es : List (PoolEntry Ip))
      → Distinct address_of eq es
      → (occupy es).1 ≡ some ip
      → is_held ip (occupy es).0 ≡ true
  unfolding occupy is_held
  occupy_held ip [] v h = absurd (ground arith)
  occupy_held ip (e ∷ es) v h =
      ground (arith, occupy_held ip es v.1, occupy-some ip es, eq_iff e.address ip)

  held_not_taken :
      (ip : Ip) (es : List (PoolEntry Ip))
      → Distinct address_of eq es
      → is_held ip es ≡ true
      → (occupy es).1 ≢ some ip
  unfolding occupy is_held
  held_not_taken ip [] v h e = absurd (ground arith)
  held_not_taken ip (x ∷ es) v h e =
      ground (arith, held_not_taken ip es v.1, occupy-some ip es, eq_iff x.address ip)

  pub give_back-IsValid : (d : PoolData Ip) (ip : Ip) → IsValid d → IsValid (give_back eq d ip)
  unfolding give_back
  give_back-IsValid d ip v =
      Distinct-update_first address_of eq eq_iff (has_address eq ip) set_free (λ e. refl) d.ae v

  pub add-IsValid : (d : PoolData Ip) (ip : Ip) → IsValid d → IsValid (add eq d ip)
  unfolding add
  add-IsValid d ip v = elim (Bool-cases (any (has_address eq ip) d.ae)) [
    | inl e ↦ rw (add, e) v
    | inr e ↦ rw (add, e) (Distinct-push address_of eq eq_iff d.ae (new_entry ip) e v)
  ]

  pub del-IsValid : (d : PoolData Ip) (ip : Ip) → IsValid d → IsValid (del eq d ip)
  unfolding del
  del-IsValid d ip v = Distinct-erase_first address_of eq eq_iff (has_address eq ip) d.ae v

  pub get-IsValid : (d : PoolData Ip) → IsValid d → IsValid (get d).0
  unfolding get
  get-IsValid d v = occupy-Distinct d.ae v

  step-IsValid : (d : PoolData Ip) (x : Action Ip) → IsValid d → IsValid (step eq d x)
  unfolding step
  step-IsValid d (adds ip) v = add-IsValid d ip v
  step-IsValid d (dels ip) v = del-IsValid d ip v
  step-IsValid d (gives_back ip) v = give_back-IsValid d ip v
  step-IsValid d gets v = get-IsValid d v

  -- From a pool without an address twice, no actions lead to one with an address twice.
  pub run-IsValid : (d : PoolData Ip) (xs : List (Action Ip)) → IsValid d → IsValid (run eq d xs)
  unfolding run
  run-IsValid d [] v = v
  run-IsValid d (x ∷ xs) v = run-IsValid (step eq d x) xs (step-IsValid d x v)

  -- The action neither gives the address back nor deletes it.
  unfoldable pub spares : Ip → Action Ip → Bool
  spares ip (adds other) = true
  spares ip (dels other) = not (eq other ip)
  spares ip (gives_back other) = not (eq other ip)
  spares ip gets = true

  step-is_held :
      (ip : Ip) (d : PoolData Ip) (x : Action Ip)
      → spares ip x ≡ true
      → is_held ip d.ae ≡ true
      → is_held ip (step eq d x).ae ≡ true
  unfolding step add del get give_back spares
  step-is_held ip d (adds other) s h = elim (Bool-cases (any (has_address eq other) d.ae)) [
    | inl e ↦ rw (step, add, e) h
    | inr e ↦ rw (step, add, e) (push-is_held ip d.ae (new_entry other) h)
  ]
  step-is_held ip d (dels other) s h =
      erase-is_held ip other d.ae (ground (arith, eq_iff other ip)) h
  step-is_held ip d (gives_back other) s h =
      free-is_held ip other d.ae (ground (arith, eq_iff other ip)) h
  step-is_held ip d gets s h = occupy-is_held ip d.ae h

  run-is_held :
      (ip : Ip) (d : PoolData Ip) (xs : List (Action Ip))
      → All (λ x. spares ip x ≡ true) xs
      → is_held ip d.ae ≡ true
      → is_held ip (run eq d xs).ae ≡ true
  unfolding run
  run-is_held ip d [] s h = h
  run-is_held ip d (x ∷ xs) s h = run-is_held ip (step eq d x) xs s.1 (step-is_held ip d x s.0 h)

  -- An address that a pool without an address twice has handed out is not handed out again, whatever
  -- is done to the pool in between, until it is given back or deleted.
  pub get-run-get :
      (d : PoolData Ip) (ip : Ip) (xs : List (Action Ip))
      → IsValid d
      → (get d).1 ≡ some ip
      → All (λ x. spares ip x ≡ true) xs
      → (get (run eq (get d).0 xs)).1 ≢ some ip
  unfolding get
  get-run-get d ip xs v h s =
      held_not_taken ip (run eq (get d).0 xs).ae (run-IsValid (get d).0 xs (occupy-Distinct d.ae v))
        (run-is_held ip (get d).0 xs s (occupy_held ip d.ae v h))

  -- The entry of a free address, occupied and freed again.
  occupy_free :
      (ip : Ip) (es : List (PoolEntry Ip))
      → Distinct address_of eq es
      → (occupy es).1 ≡ some ip
      → update_first (has_address eq ip) set_free (occupy es).0 ≡ es
  unfolding occupy update_first
  occupy_free ip [] v h = refl
  occupy_free ip (e ∷ es) v h =
      ground (arith, occupy_free ip es v.1, occupy-some ip es, eq_iff e.address ip)

  -- The address that was handed out last, given back at once, leaves a pool without an address twice
  -- as it was.
  pub give_back-get :
      (d : PoolData Ip) (ip : Ip) → IsValid d → (get d).1 ≡ some ip → give_back eq (get d).0 ip ≡ d
  unfolding get give_back
  give_back-get d ip v h = ap (λ es. record d { ae = es }) (occupy_free ip d.ae v h)

  occupy-none : (es : List (PoolEntry Ip)) → ((occupy es).1 ≡ none) ↔ (any (λ e. e.tag) es ≡ false)
  unfolding occupy any
  occupy-none [] = (λ _. refl, λ _. refl)
  occupy-none (e ∷ es) = ground (arith, occupy-none es)

  -- A pool has no address to hand out exactly when all of its entries are occupied.
  pub get-none : (d : PoolData Ip) → ((get d).1 ≡ none) ↔ (any (λ e. e.tag) d.ae ≡ false)
  unfolding get
  get-none d = occupy-none d.ae
