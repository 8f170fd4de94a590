-- ===== src/Track/Backed.antt =====
-- The users' data are kept no longer than their sessions.
use tacppd.Common.{
  ◌≡◌, refl, ℕ, Bool, Bool-cases, true, ltb, ◌&&◌, inl, inr, List, [], ◌∷◌, ◌++◌, Text, str_eq_iff,
  find, arith,
}
use tacppd.User.{DbUser}
use tacppd.Track.Billing.{UserData, get_ud}
use tacppd.Track.Sessions.{usr_add, usr_del, usr_clear, usr_activate}
use tacppd.Track.Sessions.Backed.{
  count, usr_add-IsBacked, usr_del-IsBacked, usr_clear-IsBacked, usr_activate-IsBacked,
}
use tacppd.Track.Cache.{DbcEntry, present, dbc_get}
use tacppd.Track.{
  DeviceData, Tracking, Action, gets, adds, dels, expires, adds_device, dels_device, clears,
  add_device, look_up, get2add, activate, add, step, run, with_devices,
}
use tacppd.Track.Covered.{
  total, IsTracked, try_each-IsCovered, try_first-IsCovered, expire_all-IsCovered,
  del_device-IsCovered,
}

get_ud-name :
    (u : Text) (ud : List UserData) → (get_ud u ud).result ≡ true → (get_ud u ud).username ≡ u
unfolding get_ud find
get_ud-name u [] h = absurd (ground (arith, h))
get_ud-name u (e ∷ ud) h = ground (arith, get_ud-name u ud, str_eq_iff e.ddata.username u)

dbc_get-name :
    (u : Text) (dbec : List DbcEntry)
    → (dbc_get u dbec).result ≡ true
    → (dbc_get u dbec).username ≡ u
unfolding dbc_get find
dbc_get-name u [] h = absurd (ground (arith, h))
dbc_get-name u (e ∷ dbec) h = ground (arith, dbc_get-name u dbec, str_eq_iff e.entry.username u)

-- What the database gives for a name, if anything, is the data of that name.
abbrev pub IsNamed : (ℕ → Text → DbUser) → Type 0
IsNamed db = (now : ℕ) (u : Text) → (db now u).result ≡ true → (db now u).username ≡ u

module _ {Ip : Type 0} (eq : Ip → Ip → Bool) (unknown_ip zero_ip : Ip) (db : ℕ → Text → DbUser)
    (named : IsNamed db) where
  look_up-name :
      (now : ℕ) (u : Text) (dbec : List DbcEntry)
      → (look_up eq unknown_ip zero_ip db now u dbec).0.result ≡ true
      → (look_up eq unknown_ip zero_ip db now u dbec).0.username ≡ u
  unfolding look_up
  look_up-name now u dbec h = ground (arith, dbc_get-name u (present now u dbec).0, named now u)

  get2add-IsTracked :
      (now : ℕ) (u : Text) (n : Ip) (p t : Text) (s : Tracking Ip)
      → IsTracked s
      → IsTracked (get2add eq unknown_ip zero_ip db now u n p t s).0
  unfolding get2add
  get2add-IsTracked now u n p t s h =
      let known = get_ud u s.ud in
      let ret = (look_up eq unknown_ip zero_ip db now u s.dbec).0 in
      elim (Bool-cases known.result) [
        | inl e ↦ rw e (
            try_first-IsCovered eq unknown_ip zero_ip (usr_add now n u p t unknown_ip known)
              (usr_add-IsBacked now n u p t unknown_ip known (get_ud-name u s.ud e)) n (λ _. 0) s.ud
              s.nas h)
        | inr e ↦ elim (Bool-cases ret.result) [
          | inl f ↦
              rw (e, f)
                (try_first-IsCovered eq unknown_ip zero_ip (usr_add now n u p t unknown_ip ret)
                  (usr_add-IsBacked now n u p t unknown_ip ret (look_up-name now u s.dbec f)) n
                  (λ _. 0) _ _
                  (try_each-IsCovered eq unknown_ip zero_ip (usr_del p) (usr_del-IsBacked p) n
                    (λ _. 0) s.ud s.nas h))
          | inr f ↦ rw (e, f) h
        ]
      ]

  activate-IsTracked :
      (now : ℕ) (u : Text) (c : Ip) (p t : Text) (ua : Ip) (s : Tracking Ip)
      → IsTracked s
      → IsTracked (
          with_devices eq unknown_ip zero_ip s (activate eq unknown_ip zero_ip db now u c p t ua s))
  activate-IsTracked now u c p t ua s h =
      try_each-IsCovered eq unknown_ip zero_ip (usr_activate eq unknown_ip zero_ip now u p t ua)
        (usr_activate-IsBacked eq unknown_ip zero_ip now u p t ua) c (λ _. 0) s.ud s.nas h

  add-IsTracked :
      (now : ℕ) (u : Text) (c : Ip) (p t : Text) (ua : Ip) (s : Tracking Ip)
      → IsTracked s
      → IsTracked (add eq unknown_ip zero_ip db now u c p t ua s).0
  unfolding add
  add-IsTracked now u c p t ua s h =
      let first = activate eq unknown_ip zero_ip db now u c p t ua s in
      let s₁ = with_devices eq unknown_ip zero_ip s first in
      let h₁ = activate-IsTracked now u c p t ua s h in
      let (s₂, d) = get2add eq unknown_ip zero_ip db now u c p t s₁ in
      let h₂ = get2add-IsTracked now u c p t s₁ h₁ in
      elim (Bool-cases first.2) [
        | inl e ↦ rw e h₁
        | inr e ↦ elim (Bool-cases (d.result && ltb 0 d.opened)) [
          | inl f ↦ rw (e, f) (activate-IsTracked now u c p t ua s₂ h₂)
          | inr f ↦ rw (e, f) h₂
        ]
      ]

  total-push :
      (u : Text) (ip : Ip) (nas : List (DeviceData Ip))
      → total u (nas ++ record { hostaddr = ip; cusr = [] } ∷ []) ≡ total u nas
  unfolding total count
  total-push u ip [] = refl
  total-push u ip (d ∷ nas) = omega (arith, total-push u ip nas)

  add_device-total :
      (u : Text) (ip : Ip) (nas : List (DeviceData Ip))
      → total u (add_device eq unknown_ip zero_ip ip nas) ≡ total u nas
  unfolding add_device
  add_device-total u ip nas = ground (arith, total-push u ip nas)

  step-IsTracked :
      (s : Tracking Ip) (a : Action Ip)
      → IsTracked s
      → IsTracked (step eq unknown_ip zero_ip db s a)
  unfolding step
  step-IsTracked s (gets now u n p t) h = get2add-IsTracked now u n p t s h
  step-IsTracked s (adds now u n p t ua) h = add-IsTracked now u n p t ua s h
  step-IsTracked s (dels n p) h =
      try_each-IsCovered eq unknown_ip zero_ip (usr_del p) (usr_del-IsBacked p) n (λ _. 0) s.ud
        s.nas h
  step-IsTracked s (expires now) h =
      expire_all-IsCovered eq unknown_ip zero_ip now (λ _. 0) s.ud s.nas h
  step-IsTracked s (adds_device ip) h = (h.0, λ u. rw (add_device-total u ip s.nas) (h.1 u))
  step-IsTracked s (dels_device ip) h =
      del_device-IsCovered eq unknown_ip zero_ip ip (λ _. 0) s.ud s.nas h
  step-IsTracked s (clears ip) h =
      try_first-IsCovered eq unknown_ip zero_ip usr_clear usr_clear-IsBacked ip (λ _. 0) s.ud s.nas
        h

  -- From a state in which no data of a user counts more sessions than the user has, no history of
  -- lookups, beginnings, ends and expiries of sessions, and of devices that come and go or are
  -- cleared, leads to one with such data, so that the data of a user without a session is not kept.
  -- The database gives for a name the data of that name, or none. Listings of the sessions are not in
  -- these histories: the copies that they make change the counters without a session.
  pub run-IsTracked :
      (s : Tracking Ip) (acts : List (Action Ip))
      → IsTracked s
      → IsTracked (run eq unknown_ip zero_ip db s acts)
  unfolding run
  run-IsTracked s [] h = h
  run-IsTracked s (a ∷ acts) h =
      run-IsTracked (step eq unknown_ip zero_ip db s a) acts (step-IsTracked s a h)
