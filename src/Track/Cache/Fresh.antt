-- ===== src/Track/Cache/Fresh.antt =====
-- How old the data is that the cache gives.
use tacppd.Common.{
  ◌≡◌, sym, ap, ◌∙◌, ℕ, ◌+◌, ◌-◌, ◌≤◌, Bool-cases, true, false, inl, inr, List, [], ◌∷◌, Text,
  str_eq_iff, find, ltb, arith, All,
}
use tacppd.User.{DbUser}
use tacppd.Track.Cache.{DbcEntry, has_name, present, dbc_get}

module _ (db : ℕ → Text → DbUser) where
  -- What the database gave for some name at the entry's time.
  abbrev pub IsRead : DbcEntry → Type 0
  IsRead e = (v : Text) × (e.entry ≡ db e.date v)

  pub present-IsRead :
      (now : ℕ) (u : Text) (dbec : List DbcEntry)
      → All IsRead dbec
      → All IsRead (present now u dbec).0
  unfolding present
  present-IsRead now u [] h = tt
  present-IsRead now u (e ∷ dbec) h = elim (Bool-cases (ltb 31 (now - e.date))) [
    | inl f ↦ rw f (present-IsRead now u dbec h.1)
    | inr f ↦ elim (Bool-cases (has_name u e)) [
      | inl g ↦ rw (f, g) h
      | inr g ↦ rw (f, g) (h.0, present-IsRead now u dbec h.1)
    ]
  ]

  dbc_get-miss :
      (u : Text) (x : DbcEntry) (dbec : List DbcEntry)
      → has_name u x ≡ false
      → dbc_get u (x ∷ dbec) ≡ dbc_get u dbec
  unfolding dbc_get find
  dbc_get-miss u x dbec h = ground (arith, h)

  dbc_get-hit :
      (u : Text) (x : DbcEntry) (dbec : List DbcEntry)
      → has_name u x ≡ true
      → dbc_get u (x ∷ dbec) ≡ x.entry
  unfolding dbc_get find
  dbc_get-hit u x dbec h = ground (arith, h)

  -- The entry that is found is a young one of that name.
  present-found :
      (now : ℕ) (u : Text) (dbec : List DbcEntry)
      → All IsRead dbec
      → (present now u dbec).1 ≡ true
      → (e : DbcEntry) × (dbc_get u (present now u dbec).0 ≡ e.entry)
        × IsRead e
        × (has_name u e ≡ true)
        × (now ≤ e.date + 31)
  unfolding present
  present-found now u [] h e = absurd (ground (arith, e))
  present-found now u (x ∷ dbec) h e = elim (Bool-cases (ltb 31 (now - x.date))) [
    | inl f ↦ rw f (present-found now u dbec h.1 (ground (arith, e, f)))
    | inr f ↦ elim (Bool-cases (has_name u x)) [
      | inl g ↦ rw (f, g) (x, dbc_get-hit u x dbec g, h.0, g, ground (arith, f))
      | inr g ↦
          let (y, same, read, name, young) =
            present-found now u dbec h.1 (ground (arith, e, f, g)) in
          rw (f, g) (y, dbc_get-miss u x (present now u dbec).0 g ∙ same, read, name, young)
    ]
  ]

  -- What the cache gives for a name it holds, if it is a user, is what the database gave for that
  -- name in the last 31 seconds.
  pub dbc_get-present :
      (named : (now : ℕ) (u : Text) → (db now u).result ≡ true → (db now u).username ≡ u)
      → (now : ℕ) (u : Text) (dbec : List DbcEntry) → All IsRead dbec
      → (present now u dbec).1 ≡ true
      → (dbc_get u (present now u dbec).0).result ≡ true
      → (t : ℕ) × (dbc_get u (present now u dbec).0 ≡ db t u) × (now ≤ t + 31)
  dbc_get-present named now u dbec h e r =
      let (y, same, (v, read), name, young) = present-found now u dbec h e in
      let found : (dbc_get u (present now u dbec).0) ≡ db y.date v = same ∙ read in
      let good : (db y.date v).result ≡ true = ap (λ d. d.result) (sym found) ∙ r in
      let its : v ≡ u =
        sym (named y.date v good)
        ∙ ap (λ d. d.username) (sym read)
        ∙ (str_eq_iff y.entry.username u).0 name in
      (y.date, found ∙ ap (db y.date) its, young)
