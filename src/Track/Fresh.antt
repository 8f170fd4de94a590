-- ===== src/Track/Fresh.antt =====
-- How old the data is that a session begins with.
use tacppd.Common.{
  ◌≡◌, refl, sym, ap, ◌∙◌, ℕ, ◌+◌, ◌≤◌, Bool, Bool-cases, true, false, ltb, ◌&&◌, inl, inr, List,
  [], ◌∷◌, Text, arith, All, All-append,
}
use tacppd.User.{DbUser, new_user}
use tacppd.Track.Billing.{get_ud}
use tacppd.Track.Billing.Counter.{get_ud-refs}
use tacppd.Track.Cache.{DbcEntry, present, dbc_get, dbc_add}
use tacppd.Track.Cache.Fresh.{IsRead, present-IsRead, dbc_get-present}
use tacppd.Track.{
  Tracking, Action, gets, adds, dels, expires, adds_device, dels_device, clears, no_tracking,
  look_up, get2add, activate, add, step, run, with_devices,
}
use tacppd.Track.Covered.{total, no_tracking-IsTracked}
use tacppd.Track.Backed.{IsNamed, run-IsTracked}

module _ {Ip : Type 0} (eq : Ip → Ip → Bool) (unknown_ip zero_ip : Ip)
    (db : ℕ → Text → DbUser) where
  look_up-IsRead :
      (now : ℕ) (u : Text) (dbec : List DbcEntry)
      → All (IsRead db) dbec
      → All (IsRead db) (look_up eq unknown_ip zero_ip db now u dbec).1
  unfolding look_up dbc_add
  look_up-IsRead now u dbec h = elim (Bool-cases (present now u dbec).1) [
    | inl e ↦ rw e (present-IsRead db now u dbec h)
    | inr e ↦ rw e (
        All-append (IsRead db) (present now u dbec).0 (record { entry = db now u; date = now } ∷ [])
          (present-IsRead db now u dbec h) ((u, refl), tt))
  ]

  get2add-IsRead :
      (now : ℕ) (u : Text) (n : Ip) (p t : Text) (s : Tracking Ip)
      → All (IsRead db) s.dbec
      → All (IsRead db) (get2add eq unknown_ip zero_ip db now u n p t s).0.dbec
  unfolding get2add
  get2add-IsRead now u n p t s h =
      let ret = (look_up eq unknown_ip zero_ip db now u s.dbec).0 in
      elim (Bool-cases (get_ud u s.ud).result) [
        | inl e ↦ rw e h
        | inr e ↦ elim (Bool-cases ret.result) [
          | inl f ↦ rw (e, f) (look_up-IsRead now u s.dbec h)
          | inr f ↦ rw (e, f) (look_up-IsRead now u s.dbec h)
        ]
      ]

  add-IsRead :
      (now : ℕ) (u : Text) (c : Ip) (p t : Text) (ua : Ip) (s : Tracking Ip)
      → All (IsRead db) s.dbec
      → All (IsRead db) (add eq unknown_ip zero_ip db now u c p t ua s).0.dbec
  unfolding add
  add-IsRead now u c p t ua s h =
      let first = activate eq unknown_ip zero_ip db now u c p t ua s in
      let s₁ = with_devices eq unknown_ip zero_ip s first in
      let (s₂, d) = get2add eq unknown_ip zero_ip db now u c p t s₁ in
      let h₂ = get2add-IsRead now u c p t s₁ h in
      elim (Bool-cases first.2) [
        | inl e ↦ rw e h
        | inr e ↦ elim (Bool-cases (d.result && ltb 0 d.opened)) [
          | inl f ↦ rw (e, f) h₂
          | inr f ↦ rw (e, f) h₂
        ]
      ]

  run-IsRead :
      (s : Tracking Ip) (acts : List (Action Ip))
      → All (IsRead db) s.dbec
      → All (IsRead db) (run eq unknown_ip zero_ip db s acts).dbec
  unfolding run step
  run-IsRead s [] h = h
  run-IsRead s (gets now u n p t ∷ acts) h =
      run-IsRead (get2add eq unknown_ip zero_ip db now u n p t s).0 acts
        (get2add-IsRead now u n p t s h)
  run-IsRead s (adds now u n p t ua ∷ acts) h =
      run-IsRead (add eq unknown_ip zero_ip db now u n p t ua s).0 acts
        (add-IsRead now u n p t ua s h)
  run-IsRead s (dels n p ∷ acts) h = run-IsRead (step eq unknown_ip zero_ip db s (dels n p)) acts h
  run-IsRead s (expires now ∷ acts) h =
      run-IsRead (step eq unknown_ip zero_ip db s (expires now)) acts h
  run-IsRead s (adds_device ip ∷ acts) h =
      run-IsRead (step eq unknown_ip zero_ip db s (adds_device ip)) acts h
  run-IsRead s (dels_device ip ∷ acts) h =
      run-IsRead (step eq unknown_ip zero_ip db s (dels_device ip)) acts h
  run-IsRead s (clears ip ∷ acts) h =
      run-IsRead (step eq unknown_ip zero_ip db s (clears ip)) acts h

  look_up-hit :
      (now : ℕ) (u : Text) (dbec : List DbcEntry)
      → (present now u dbec).1 ≡ true
      → (look_up eq unknown_ip zero_ip db now u dbec).0 ≡ dbc_get u (present now u dbec).0
  unfolding look_up
  look_up-hit now u dbec e = ground (arith, e)

  look_up-miss :
      (now : ℕ) (u : Text) (dbec : List DbcEntry)
      → (present now u dbec).1 ≡ false
      → (look_up eq unknown_ip zero_ip db now u dbec).0 ≡ db now u
  unfolding look_up
  look_up-miss now u dbec e = ground (arith, e)

  get2add-unknown :
      (now : ℕ) (u : Text) (n : Ip) (p t : Text) (s : Tracking Ip)
      → (get_ud u s.ud).result ≡ false
      → (get2add eq unknown_ip zero_ip db now u n p t s).1
        ≡ (look_up eq unknown_ip zero_ip db now u s.dbec).0
  unfolding get2add
  get2add-unknown now u n p t s e = ground (arith, e)

  look_up-fresh :
      IsNamed db
      → (now : ℕ) (u : Text) (dbec : List DbcEntry) → All (IsRead db) dbec
      → (look_up eq unknown_ip zero_ip db now u dbec).0.result ≡ true
      → (t : ℕ) × ((look_up eq unknown_ip zero_ip db now u dbec).0 ≡ db t u) × (now ≤ t + 31)
  look_up-fresh named now u dbec h r = elim (Bool-cases (present now u dbec).1) [
    | inl e ↦
        let same = look_up-hit now u dbec e in
        let (t, read, young) =
          dbc_get-present db named now u dbec h e (ap (λ d. d.result) (sym same) ∙ r) in
        (t, same ∙ read, young)
    | inr e ↦ (now, look_up-miss now u dbec e, omega arith)
  ]

  -- Whatever happened to sessions and devices since the start, a user that has no session and is
  -- looked up is, if it is a user at all, what the database gave for that name in the last 31
  -- seconds. The database gives for a name the data of that name, or none.
  pub get2add-run :
      IsNamed db
      → (acts : List (Action Ip)) (now : ℕ) (u : Text) (n : Ip) (p t : Text)
      → total u (run eq unknown_ip zero_ip db no_tracking acts).nas ≡ 0
      → (get2add eq unknown_ip zero_ip db now u n p t
          (run eq unknown_ip zero_ip db no_tracking acts)).1.result
        ≡ true
      → (read : ℕ) × ((get2add eq unknown_ip zero_ip db now u n p t
            (run eq unknown_ip zero_ip db no_tracking acts)).1
          ≡ db read u)
        × (now ≤ read + 31)
  get2add-run named acts now u n p t none_left r =
      let s = run eq unknown_ip zero_ip db no_tracking acts in
      let tracked =
        run-IsTracked eq unknown_ip zero_ip db named no_tracking acts (no_tracking-IsTracked Ip) in
      let unknown : get_ud u s.ud ≡ new_user = get_ud-refs u s.ud (omega (arith, tracked.1 u)) in
      let same = get2add-unknown now u n p t s (ap (λ d. d.result) unknown) in
      let (read, from, young) =
        look_up-fresh named now u s.dbec (run-IsRead no_tracking acts tt)
          (ap (λ d. d.result) (sym same) ∙ r) in
      (read, same ∙ from, young)
