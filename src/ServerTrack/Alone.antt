-- ===== src/ServerTrack/Alone.antt =====
-- A server that has started knows of no other. `eq` is the test for equal addresses, which decides
-- their equality.
use tacppd.Common.{
  ◌≡◌, ◌↔◌, refl, ℕ, Bool, true, List, [], ◌∷◌, any, update_first, erase_all, arith,
}
use tacppd.Common.Int.{ℤ}
use tacppd.ServerTrack.{
  TrackData, Event, checks, updates, send_start, check_ttl, update, active_ip, is_active, step, run,
}

module _ {Ip : Type 0} (eq : Ip → Ip → Bool) (eq_iff : (a b : Ip) → (eq a b ≡ true) ↔ (a ≡ b))
    (localip unknown_ip : Ip) where
  -- The list holds the server's own entry, and no other.
  abbrev pub IsAlone : List (TrackData Ip) → Type 0
  IsAlone csrv =
      (p : ℤ) × (t : ℕ) × (csrv ≡ record { ip = unknown_ip; priority = p; entry_time = t } ∷ [])

  unknown_refl : eq unknown_ip unknown_ip ≡ true
  unknown_refl = (eq_iff unknown_ip unknown_ip).1 refl

  localip_refl : eq localip localip ≡ true
  localip_refl = (eq_iff localip localip).1 refl

  check_ttl-IsAlone :
      (csrv : List (TrackData Ip)) (now : ℕ)
      → IsAlone csrv
      → IsAlone (check_ttl eq localip unknown_ip csrv now)
  unfolding check_ttl erase_all
  check_ttl-IsAlone csrv now (p, t, e) = (p, t, rw e (ground (arith, unknown_refl)))

  update-IsAlone :
      (csrv : List (TrackData Ip)) (ipa : Ip) (q : ℤ) (now : ℕ)
      → IsAlone csrv
      → IsAlone (update eq localip unknown_ip csrv ipa q now)
  unfolding update any update_first
  update-IsAlone csrv ipa q now (p, t, e) = (q, now, rw e (ground (arith, unknown_refl)))

  run-IsAlone :
      (csrv : List (TrackData Ip)) (xs : List (Event Ip))
      → IsAlone csrv
      → IsAlone (run eq localip unknown_ip csrv xs)
  unfolding run step
  run-IsAlone csrv [] h = h
  run-IsAlone csrv (checks now ∷ xs) h =
      run-IsAlone (check_ttl eq localip unknown_ip csrv now) xs (check_ttl-IsAlone csrv now h)
  run-IsAlone csrv (updates ipa p now ∷ xs) h =
      run-IsAlone (update eq localip unknown_ip csrv ipa p now) xs (update-IsAlone csrv ipa p now h)

  is_active-IsAlone :
      (csrv : List (TrackData Ip)) → IsAlone csrv → is_active eq localip unknown_ip csrv ≡ true
  unfolding is_active active_ip
  is_active-IsAlone csrv (p, t, e) = rw e (ground (arith, unknown_refl, localip_refl))

  -- Whatever updates come from other servers, and whenever the times are checked, a server that has
  -- started with an empty list has its own entry alone in the list, and counts as active.
  pub run-send_start :
      (pri : ℤ) (now : ℕ) (xs : List (Event Ip))
      → IsAlone (run eq localip unknown_ip (send_start eq localip unknown_ip [] pri now) xs)
        × (is_active eq localip unknown_ip
              (run eq localip unknown_ip (send_start eq localip unknown_ip [] pri now) xs)
            ≡ true)
  unfolding send_start
  run-send_start pri now xs =
      let alone = run-IsAlone (send_start eq localip unknown_ip [] pri now) xs (pri, now, refl) in
      (
        alone,
        is_active-IsAlone
            (run eq localip unknown_ip (send_start eq localip unknown_ip [] pri now) xs) alone,
      )
