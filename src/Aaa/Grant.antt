-- ===== src/Aaa/Grant.antt =====
-- Who is authenticated.
use tacppd.Common.{
  ◌≡◌, ◌≢◌, ◌↔◌, ◌⊎◌, refl, ℕ, ◌≤◌, true, List, [], ◌∷◌, ◌++◌, Text, codes, arith, inl, inr,
}
use tacppd.Common.Int.{ℤ, pos, int_lt, int_eq_iff}
use tacppd.User.{DbUser, DbUserAcc}
use tacppd.Aaa.{
  Tools, Origin, check_password, check_rows, no_flags, sessions_left, is_open, db_authentication,
}
use tacppd.Aaa.Password.{Knows, check_password_db, check_password_cpwd}
use tacppd.Aaa.Sources.{covered, check_rows-covered}

-- All that an authentication asks for, the password apart.
pub record Admits (t : Tools) (d : DbUser) (numsess : ℤ) (now : ℕ) (o : Origin) : Type 0 where
  pub found : d.result ≡ true
  pub sessions : (d.maxsess ≡ pos 0) ⊎ (int_lt numsess d.maxsess ≡ true)
  pub began : d.opened ≤ now
  pub not_over : (d.closed ≤ 100) ⊎ (now ≤ d.closed)
  pub source : (d.accs ≡ []) ⊎ (covered t o d.accs ≡ true)

sessions_left_iff :
    (d : DbUser) (numsess : ℤ)
    → (sessions_left d numsess ≡ true) ↔ ((d.maxsess ≡ pos 0) ⊎ (int_lt numsess d.maxsess ≡ true))
unfolding sessions_left
sessions_left_iff d numsess = ground (arith, int_eq_iff d.maxsess (pos 0))

is_open_iff :
    (d : DbUser) (now : ℕ)
    → (is_open d now ≡ true) ↔ ((d.opened ≤ now) × ((d.closed ≤ 100) ⊎ (now ≤ d.closed)))
unfolding is_open
is_open_iff d now = ground arith

covers_iff :
    (t : Tools) (o : Origin) (rows : List DbUserAcc)
    → (check_rows t o true no_flags rows ≡ true) ↔ ((rows ≡ []) ⊎ (covered t o rows ≡ true))
covers_iff t o [] = rw (check_rows-covered t o []) ((λ _. inl refl), (λ _. refl))
covers_iff t o (a ∷ rows) = rw (check_rows-covered t o (a ∷ rows)) (inr, λ h. ground arith)

module _ (t : Tools) (d : DbUser) (numsess : ℤ) (now : ℕ) (o : Origin)
    (password enable : Text) where
  db_authentication-Admits :
      db_authentication t d numsess now o password enable ≡ true
      → Admits t d numsess now o × (check_password t d password enable ≡ true)
  unfolding db_authentication
  db_authentication-Admits h = (
    record {
      found = ground arith;
      sessions = (sessions_left_iff d numsess).0 (ground arith);
      began = ((is_open_iff d now).0 (ground arith)).0;
      not_over = ((is_open_iff d now).0 (ground arith)).1;
      source = (covers_iff t o d.accs).0 (ground arith);
    },
    ground arith,
  )

  db_authentication_of_Admits :
      Admits t d numsess now o
      → check_password t d password enable ≡ true
      → db_authentication t d numsess now o password enable ≡ true
  unfolding db_authentication
  db_authentication_of_Admits v p = ground (
    arith,
    (sessions_left_iff d numsess).1 v.sessions,
    (is_open_iff d now).1 (v.began, v.not_over),
    (covers_iff t o d.accs).1 v.source,
  )

  -- A user is authenticated exactly when the entry was found, a session is left, the account is
  -- open, the rows cover the request's source (each of the four tests succeeds on some row, or
  -- there is no row), and the password test passes.
  pub db_authentication_iff :
      (db_authentication t d numsess now o password enable ≡ true)
      ↔ (Admits t d numsess now o × (check_password t d password enable ≡ true))
  db_authentication_iff = (db_authentication-Admits, λ (v, p). db_authentication_of_Admits v p)

-- Whoever is authenticated as a user of source `db` knows the password or the enable password, and
-- was not let in by the trial without a password.
pub db_authentication-Knows :
    (t : Tools) (d : DbUser) (numsess : ℤ) (now : ℕ) (o : Origin) (rest password enable : Text)
    → d.authsrc ≡ codes "db" ++ rest
    → db_authentication t d numsess now o password enable ≡ true
    → (password ≢ codes "(null)") × (Knows t d.password password ⊎ Knows t d.enable enable)
db_authentication-Knows t d numsess now o rest password enable src h =
    check_password_db t d rest password enable src
      (db_authentication-Admits t d numsess now o password enable h).1

-- A user of source `cpwd` whose enable password in the database is empty is authenticated at a
-- login, which sends no enable password, with every password.
pub db_authentication_any :
    (t : Tools) (d : DbUser) (numsess : ℤ) (now : ℕ) (o : Origin) (rest password : Text)
    → d.authsrc ≡ codes "cpwd" ++ rest
    → d.enable ≡ []
    → Admits t d numsess now o
    → db_authentication t d numsess now o password [] ≡ true
db_authentication_any t d numsess now o rest password src none_set v =
    db_authentication_of_Admits t d numsess now o password [] v
      (check_password_cpwd t d rest password src none_set)
