-- ===== src/Accounting/Sessions.antt =====
-- What accounting does to sessions and to pools.
use tacppd.Common.{
  ◌≡◌, ◌↔◌, ◌⊎◌, refl, ◌∙◌, ap, sym, subst, ℕ, Bool, true, false, List, [], ◌∷◌, ◌++◌, Text, All,
  arith, is_empty, if◌then◌else◌, Bool-cases, inl, inr,
}
use tacppd.User.{DbUser}
use tacppd.Pool.{PoolData, PoolEntry, has_address, set_free, give_back}
use tacppd.Common.{update_first}
use tacppd.Pool.Held.{is_held, IsValid, give_back-IsValid}
use tacppd.Track.{Tracking, Action, adds, dels, step, run}
use tacppd.Pool.Pools.{ret}
use tacppd.Accounting.{
  AcctAction, unknown, start, stop, update, LogUser, set_fields, no_log, State, act, db_accounting,
}
use tacppd.Accounting.Ports.{port_convert}

-- What a record of accounting does to the sessions.
unfoldable pub actions : {Ip : Type 0} → ℕ → LogUser Ip → List (Action Ip)
actions now l =
    let prt = port_convert (port_convert l.port) in
    let begins = adds now l.username l.nas prt l.from_addr l.ip ∷ [] in
    if is_empty l.username then [] else elim l.action [
      | unknown ↦ []
      | start ↦ begins
      | update ↦ begins
      | stop ↦ dels l.nas prt ∷ []
    ]

module _ {Ip : Type 0} (eq : Ip → Ip → Bool) (eq_iff : (a b : Ip) → (eq a b ≡ true) ↔ (a ≡ b))
    (fill : Text → Ip → Ip) (unknown_ip zero_ip : Ip) (db : ℕ → Text → DbUser) where
  -- No address stands twice in any of the pools.
  abbrev pub AreValid : List (PoolData Ip) → Type 0
  AreValid pools = All (λ d. IsValid eq eq_iff d) pools

  -- In no pool the address is held.
  abbrev pub IsFree : Ip → List (PoolData Ip) → Type 0
  IsFree ip pools = All (λ (d : PoolData Ip). is_held eq eq_iff ip d.ae ≡ false) pools

  track-act :
      (now : ℕ) (l : LogUser Ip) (s : State Ip)
      → is_empty l.username ≡ false
      → (act eq unknown_ip zero_ip db now l s).track
        ≡ run eq unknown_ip zero_ip db s.track (actions now l)
  unfolding act actions run step
  track-act now l s e = elim (AcctAction-cases l.action) [
    | inl k ↦ rw (e, k) refl
    | inr (inl k) ↦ rw (e, k) refl
    | inr (inr (inl k)) ↦ rw (e, k) refl
    | inr (inr (inr k)) ↦ rw (e, k) refl
  ]
    where
      AcctAction-cases :
          (a : AcctAction) → (a ≡ unknown) ⊎ ((a ≡ start) ⊎ ((a ≡ update) ⊎ (a ≡ stop)))
      AcctAction-cases unknown = inl refl
      AcctAction-cases start = inr (inl refl)
      AcctAction-cases update = inr (inr (inl refl))
      AcctAction-cases stop = inr (inr (inr refl))

  -- The sessions after requests of accounting, each with its time.
  unfoldable pub account_all : State Ip → List (ℕ × List Text) → State Ip
  account_all s [] = s
  account_all s ((now, logavp) ∷ rest) =
      account_all (db_accounting eq unknown_ip zero_ip db fill now logavp s) rest

  unfoldable pub all_actions : List (ℕ × List Text) → List (Action Ip)
  all_actions [] = []
  all_actions ((now, logavp) ∷ rest) =
      actions now (set_fields fill (no_log zero_ip) logavp) ++ all_actions rest

  no_actions : (now : ℕ) (l : LogUser Ip) → is_empty l.username ≡ true → actions now l ≡ []
  unfolding actions
  no_actions now l e = rw e refl

  run-append :
      (t : Tracking Ip) (xs ys : List (Action Ip))
      → run eq unknown_ip zero_ip db t (xs ++ ys)
        ≡ run eq unknown_ip zero_ip db (run eq unknown_ip zero_ip db t xs) ys
  unfolding run
  run-append t [] ys = refl
  run-append t (x ∷ xs) ys = run-append (step eq unknown_ip zero_ip db t x) xs ys

  track-db_accounting :
      (now : ℕ) (logavp : List Text) (s : State Ip)
      → (db_accounting eq unknown_ip zero_ip db fill now logavp s).track
        ≡ run eq unknown_ip zero_ip db s.track
            (actions now (set_fields fill (no_log zero_ip) logavp))
  unfolding db_accounting
  track-db_accounting now logavp s =
      let l = set_fields fill (no_log zero_ip) logavp in
      let after = λ (b : Bool). (if b then s else act eq unknown_ip zero_ip db now l s).track in
      elim (Bool-cases (is_empty l.username)) [
        | inl e ↦
            ap after e
            ∙ unfold run in
              refl ∙ ap (run eq unknown_ip zero_ip db s.track) (sym (no_actions now l e))
        | inr e ↦ ap after e ∙ track-act now l s e
      ]

  -- Whatever requests of accounting come in, the sessions go the way of the actions that their records
  -- stand for: the start and the update of a named user list a session, the stop ends that of the port,
  -- in its converted form.
  pub track-account_all :
      (s : State Ip) (requests : List (ℕ × List Text))
      → (account_all s requests).track ≡ run eq unknown_ip zero_ip db s.track (all_actions requests)
  unfolding account_all all_actions
  track-account_all s [] = unfold run in refl
  track-account_all s ((now, logavp) ∷ rest) =
      track-account_all (db_accounting eq unknown_ip zero_ip db fill now logavp s) rest
      ∙ ap (λ t. run eq unknown_ip zero_ip db t (all_actions rest))
          (track-db_accounting now logavp s)
      ∙ sym (
          run-append s.track (actions now (set_fields fill (no_log zero_ip) logavp))
            (all_actions rest))

  ret-AreValid :
      (ip : Ip) (pools : List (PoolData Ip)) → AreValid pools → AreValid (ret eq ip pools)
  unfolding ret
  ret-AreValid ip [] v = tt
  ret-AreValid ip (d ∷ pools) v = (give_back-IsValid eq eq_iff d ip v.0, ret-AreValid ip pools v.1)

  freed :
      (ip : Ip) (es : List (PoolEntry Ip))
      → is_held eq eq_iff ip (update_first (has_address eq ip) set_free es) ≡ false
  unfolding is_held update_first
  freed ip [] = refl
  freed ip (e ∷ es) = ground (arith, freed ip es)

  ret-IsFree : (ip : Ip) (pools : List (PoolData Ip)) → IsFree ip (ret eq ip pools)
  unfolding ret give_back
  ret-IsFree ip [] = tt
  ret-IsFree ip (d ∷ pools) = (freed ip d.ae, ret-IsFree ip pools)

  -- The record stands at the end of the log, its address is free, and no address stands twice.
  abbrev pub Stopped : LogUser Ip → State Ip → State Ip → Type 0
  Stopped l s s' = IsFree l.ip s'.pools × (s'.log ≡ s.log ++ l ∷ []) × AreValid s'.pools

  stop-act :
      (now : ℕ) (l : LogUser Ip) (s : State Ip)
      → l.action ≡ stop
      → eq l.ip unknown_ip ≡ false
      → AreValid s.pools
      → Stopped l s (act eq unknown_ip zero_ip db now l s)
  unfolding act
  stop-act now l s k a v =
      rw (act, k, a)
        (
          ret-IsFree l.ip s.pools,
          λ i. s.log ++ record l { action = k i } ∷ [],
          ret-AreValid l.ip s.pools v,
        )

  -- A record of a STOP, with a user's name and an address other than the unknown one: afterwards no
  -- pool holds the address, the record stands at the end of the log, and no address stands twice in a
  -- pool if none did before.
  pub db_accounting-Stopped :
      (now : ℕ) (logavp : List Text) (s : State Ip)
      → let l = set_fields fill (no_log zero_ip) logavp in
        is_empty l.username ≡ false
        → l.action ≡ stop
        → eq l.ip unknown_ip ≡ false
        → AreValid s.pools
        → Stopped l s (db_accounting eq unknown_ip zero_ip db fill now logavp s)
  unfolding db_accounting
  db_accounting-Stopped now logavp s e k a v =
      let l = set_fields fill (no_log zero_ip) logavp in
      subst (λ b. Stopped l s (if b then s else act eq unknown_ip zero_ip db now l s)) (sym e)
        (stop-act now l s k a v)
