-- ===== src/Tacacs/Authen/Passes.antt =====
-- What stands behind a reply of status PASS.
use tacppd.Common.{
  ◌≡◌, refl, ℕ, ◌⊎◌, inl, inr, true, false, Option, none, some, List, ◌++◌, Text, codes, is_empty,
  arith, Bool, ==_iff, if◌then◌else◌, ◌==◌, take, not, ◌||◌, ◌&&◌,
}
use tacppd.Aaa.Password.{Knows}
use tacppd.Aaa.Grant.{db_authentication-Knows}
use tacppd.Tacacs.Header.{Hdr}
use tacppd.Tacacs.Intake.{
  Authen, ascii_login, enable_request, pap_login, chap_login, chap_password, pap_password,
  get_start, get_cont, ver_0,
}
use tacppd.Tacacs.Authen.{
  Moment, pass, fail, getpass, Reply, answer, prompt, is_interactive, accepts, start_login, decide,
  start_request, start, take_user, take_password, read_password, read_user, process, cleared,
}

-- The database accepts the session's user, in the trial without a password or with the one that was
-- sent.
abbrev pub Accepted : Moment → Authen → Type 0
Accepted m a = (accepts m a (codes "(null)") ≡ true) ⊎ (accepts m a a.pwstring ≡ true)

-- A request for the password of a user, which is answered with PASS but without the password.
abbrev pub IsSendpass : Authen → Type 0
IsSendpass a = (a.request ≡ chap_password) ⊎ (a.request ≡ pap_password)

-- A step that replies with PASS only in states with that property.
abbrev Sound : (Authen → Type 0) → Authen × Option Reply → Type 0
Sound P x = (r : Reply) → x.1 ≡ some r → r.status ≡ pass → P x.0

Sound-if :
    (P : Authen → Type 0) (b : Bool) (x y : Authen × Option Reply)
    → (b ≡ true → Sound P x)
    → (b ≡ false → Sound P y)
    → Sound P (if b then x else y)
Sound-if P true x y h k = h refl
Sound-if P false x y h k = k refl

Sound-fail : (P : Authen → Type 0) (a : Authen) (v : ℕ) → Sound P (a, answer fail v)
Sound-fail P a v r e p = absurd (ground arith)

Sound-none : (P : Authen → Type 0) (a : Authen) → Sound P (a, none)
Sound-none P a r e p = absurd (ground arith)

Sound-prompt :
    (P : Authen → Type 0) (a : Authen) (text : Text) → Sound P (a, prompt getpass text false)
Sound-prompt P a text r e p = absurd (ground arith)

module _ (m : Moment) where
  abbrev Justified : Authen → Type 0
  Justified a = IsSendpass a ⊎ Accepted m a

  start_login-Sound : (a : Authen) → Sound Justified (a, start_login m a)
  unfolding start_login
  start_login-Sound a r e p = inr (inl (ground arith))

  decide-Sound : (a : Authen) → Sound (Accepted m) (a, decide m a)
  unfolding decide
  decide-Sound a r e p = inr (ground arith)

  start_request-Sound : (a : Authen) (data_ : Text) → Sound Justified (start_request m a data_)
  unfolding start_request
  start_request-Sound a data_ =
      let keyed : Authen = record a { pwstring = take 253 data_; chap = true } in
      let sendpass : Bool = (a.request == chap_password) || (a.request == pap_password) in
      let sendpass_IsSendpass : sendpass ≡ true → IsSendpass a = λ b. ground (arith, b) in
      let others : Authen × Option Reply =
        if sendpass then (a, answer pass ver_0) else (a, answer fail ver_0) in
      Sound-if Justified (a.request == ascii_login) (a, start_login m a) _
        (λ _. start_login-Sound a)
        (λ _.
          Sound-if Justified (a.request == enable_request) _ _ (λ _. start_login-Sound _)
            (λ _.
              Sound-if Justified
                (((a.request == pap_login) || (a.request == chap_login)) && not (is_empty data_))
                (keyed, decide m keyed) others (λ _ r e p. inr (decide-Sound keyed r e p))
                (λ _.
                  Sound-if Justified sendpass (a, answer pass ver_0) (a, answer fail ver_0)
                    (λ b r e p. inl (sendpass_IsSendpass b)) (λ _. Sound-fail Justified a ver_0))))

  start-Sound : (hdr : Hdr) (body : List ℕ) (a : Authen) → Sound Justified (start m hdr body a)
  unfolding start
  start-Sound hdr body a =
      let s = get_start hdr body (cleared a) in
      Sound-if Justified (s.res == 0) (s.authen, answer fail ver_0) _
        (λ _. Sound-fail Justified _ _)
        (λ _. start_request-Sound (record s.authen { request = s.res }) s.data_)

  take_user-Sound : (a : Authen) (o : Option (Text × ℕ)) → Sound (Accepted m) (take_user m a o)
  unfolding take_user
  take_user-Sound a none = Sound-fail (Accepted m) a ver_0
  take_user-Sound a (some (msg, flag)) =
      Sound-if (Accepted m) (flag == 1) (record a { user = msg }, answer fail ver_0) _
        (λ _. Sound-fail (Accepted m) _ _)
        (λ _. Sound-if (Accepted m) _ _ _ (λ b r e p. inl b) (λ _. Sound-prompt (Accepted m) _ _))

  take_password-Sound :
      (a : Authen) (o : Option (Text × ℕ)) → Sound (Accepted m) (take_password m a o)
  unfolding take_password
  take_password-Sound a none = Sound-fail (Accepted m) a ver_0
  take_password-Sound a (some (msg, flag)) =
      Sound-if (Accepted m) (flag == 1) (a, none) _ (λ _. Sound-none (Accepted m) a)
        (λ _. decide-Sound _)

  read_password-Sound :
      (hdr : Hdr) (body : List ℕ) (a : Authen) → Sound (Accepted m) (read_password m hdr body a)
  unfolding read_password
  read_password-Sound hdr body a =
      Sound-if (Accepted m) (is_interactive a) (take_password m a (get_cont hdr body 50)) _
        (λ _. take_password-Sound a (get_cont hdr body 50)) (λ _. Sound-none (Accepted m) a)

  read_user-Sound :
      (hdr : Hdr) (body : List ℕ) (a : Authen) → Sound (Accepted m) (read_user m hdr body a)
  unfolding read_user
  read_user-Sound hdr body a =
      Sound-if (Accepted m) (is_interactive a) _ (a, none)
        (λ _.
          Sound-if (Accepted m) (is_empty a.user) _ _
            (λ _. take_user-Sound a (get_cont hdr body 32)) (λ _. read_password-Sound hdr body a))
        (λ _. Sound-none (Accepted m) a)

  Accepted-Knows :
      (a : Authen) (rest : Text)
      → (m.lookup a.user).authsrc ≡ codes "db" ++ rest
      → Accepted m a
      → Knows m.tools (m.lookup a.user).password a.pwstring
        ⊎ Knows m.tools (m.lookup a.user).enable a.enable
  unfolding accepts
  Accepted-Knows a rest src (inl h) = absurd (
      (db_authentication-Knows m.tools (m.lookup a.user) (m.numsess a.user) m.now
          (record { rem_addr = a.rem_addr; nas = m.nas; port = a.port }) rest (codes "(null)")
          a.enable src h).0
        refl)
  Accepted-Knows a rest src (inr h) =
      (db_authentication-Knows m.tools (m.lookup a.user) (m.numsess a.user) m.now
        (record { rem_addr = a.rem_addr; nas = m.nas; port = a.port }) rest a.pwstring a.enable src
        h).1

  process-Sound :
      (seq : ℕ) (hdr : Hdr) (body : List ℕ) (a : Authen)
      → Sound (λ s. ((seq ≡ 1) × IsSendpass s) ⊎ Accepted m s) (process m seq hdr body a)
  unfolding process
  process-Sound seq hdr body a =
      let P : Authen → Type 0 = λ s. ((seq ≡ 1) × IsSendpass s) ⊎ Accepted m s in
      Sound-if P (seq == 1) (start m hdr body a) _
        (λ b r e p. elim (start-Sound hdr body a r e p) [
          | inl q ↦ inl ((==_iff seq 1).0 b, q)
          | inr q ↦ inr q
        ])
        (λ _.
          Sound-if P ((seq == 2) || ((seq == 3) || (seq == 4))) (read_user m hdr body a) _
            (λ _ r e p. inr (read_user-Sound hdr body a r e p))
            (λ _.
              Sound-if P ((seq == 5) || ((seq == 6) || (seq == 7))) (read_password m hdr body a)
                (a, none) (λ _ r e p. inr (read_password-Sound hdr body a r e p))
                (λ _. Sound-none P a)))

  -- A reply of status PASS to a packet of any number, in any state, means that the first packet was
  -- a request to send the user's password, or that the database accepts the session's user as it
  -- stands after the packet, with the stored password or in the trial without one.
  pub process_pass :
      (seq : ℕ) (hdr : Hdr) (body : List ℕ) (a : Authen) (r : Reply)
      → (process m seq hdr body a).1 ≡ some r
      → r.status ≡ pass
      → ((seq ≡ 1) × IsSendpass (process m seq hdr body a).0)
        ⊎ Accepted m (process m seq hdr body a).0
  process_pass seq hdr body a r e p = process-Sound seq hdr body a r e p

  -- If the session's user is then one of source `db`, and the packet was no request to send a
  -- password, the session holds the user's password or the enable password, in the clear or as a
  -- CHAP answer.
  pub process-Knows :
      (seq : ℕ) (hdr : Hdr) (body : List ℕ) (a : Authen) (r : Reply) (rest : Text)
      → (process m seq hdr body a).1 ≡ some r
      → r.status ≡ pass
      → (m.lookup (process m seq hdr body a).0.user).authsrc ≡ codes "db" ++ rest
      → ¬ IsSendpass (process m seq hdr body a).0
      → Knows m.tools
          (m.lookup (process m seq hdr body a).0.user).password
          (process m seq hdr body a).0.pwstring
        ⊎ Knows m.tools
            (m.lookup (process m seq hdr body a).0.user).enable
            (process m seq hdr body a).0.enable
  process-Knows seq hdr body a r rest e p src other =
      Accepted-Knows (process m seq hdr body a).0 rest src
        (elim (process_pass seq hdr body a r e p) [ inl (_, q) ↦ absurd (other q) | inr q ↦ q ])
