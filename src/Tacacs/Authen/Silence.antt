-- ===== src/Tacacs/Authen/Silence.antt =====
-- The packets that get no reply.
use tacppd.Common.{
  ◌≡◌, ◌≢◌, refl, ℕ, ◌≤◌, ◌⊎◌, inl, inr, true, false, Option, none, some, List, Text, is_empty,
  arith, Bool-cases, ◌==◌, Bool, if◌then◌else◌, take, not, ◌||◌, ◌&&◌,
}
use tacppd.Tacacs.Header.{Hdr}
use tacppd.Tacacs.Intake.{
  Authen, ascii_login, enable_request, pap_login, chap_login, chap_password, pap_password,
  get_start, get_cont, ver_0,
}
use tacppd.Tacacs.Authen.{
  Moment, pass, fail, Reply, answer, cleared, is_interactive, start_login, decide, start_request,
  start, take_user, take_password, read_password, read_user, process,
}

-- The device sent the abort flag.
abbrev pub IsAborted : Option (Text × ℕ) → Type 0
IsAborted o = (msg : Text) × (o ≡ some (msg, 1))

abbrev Replies : Authen × Option Reply → Type 0
Replies x = x.1 ≢ none

Replies-if :
    (b : Bool) (x y : Authen × Option Reply) → Replies x → Replies y → Replies (if b then x else y)
Replies-if true x y h k = h
Replies-if false x y h k = k

Replies-when :
    (b : Bool) (x y : Authen × Option Reply)
    → (b ≡ true → Replies x)
    → (b ≡ false → Replies y)
    → Replies (if b then x else y)
Replies-when true x y h k = h refl
Replies-when false x y h k = k refl

replied : {r : Reply} → some r ≢ none
replied {r} e = ground arith

-- The session with the password that was sent.
abbrev passworded : Authen → Text → Authen
passworded a msg =
    if a.en_req == enable_request
    then record a { enable = msg }
    else record a { pwstring = take 252 msg }

module _ (m : Moment) where
  start_login_replies : (a : Authen) → start_login m a ≢ none
  unfolding start_login
  start_login_replies a e = ground arith

  decide_replies : (a : Authen) → decide m a ≢ none
  unfolding decide
  decide_replies a e = ground arith

  start_request-Replies : (a : Authen) (data_ : Text) → Replies (start_request m a data_)
  unfolding start_request
  start_request-Replies a data_ =
      let keyed : Authen = record a { pwstring = take 253 data_; chap = true } in
      let sendpass : Bool = (a.request == chap_password) || (a.request == pap_password) in
      Replies-if (a.request == ascii_login) (a, start_login m a) _ (start_login_replies a)
        (Replies-if (a.request == enable_request) _ _ (start_login_replies _) (
          Replies-if
            (((a.request == pap_login) || (a.request == chap_login)) && not (is_empty data_))
            (keyed, decide m keyed)
            (if sendpass then (a, answer pass ver_0) else (a, answer fail ver_0))
            (decide_replies keyed)
            (Replies-if sendpass (a, answer pass ver_0) (a, answer fail ver_0) replied replied)))

  start-Replies : (hdr : Hdr) (body : List ℕ) (a : Authen) → Replies (start m hdr body a)
  unfolding start
  start-Replies hdr body a =
      let s = get_start hdr body (cleared a) in
      Replies-if (s.res == 0) (s.authen, answer fail ver_0) _ replied
        (start_request-Replies (record s.authen { request = s.res }) s.data_)

  take_user-Replies : (a : Authen) (o : Option (Text × ℕ)) → Replies (take_user m a o)
  unfolding take_user
  take_user-Replies a none e = ground arith
  take_user-Replies a (some (msg, flag)) e = ground arith

  take_password-Replies :
      (a : Authen) (o : Option (Text × ℕ)) → ¬ IsAborted o → Replies (take_password m a o)
  unfolding take_password
  take_password-Replies a none n e = ground arith
  take_password-Replies a (some (msg, flag)) n e = elim (Bool-cases (flag == 1)) [
    | inl b ↦ n (msg, ground (arith, b))
    | inr b ↦ decide_replies (passworded a msg) (ground (arith, b, e))
  ]

  read_password-Replies :
      (hdr : Hdr) (body : List ℕ) (a : Authen)
      → is_interactive a ≡ true
      → ¬ IsAborted (get_cont hdr body 50)
      → Replies (read_password m hdr body a)
  unfolding read_password
  read_password-Replies hdr body a i n = rw i (take_password-Replies a (get_cont hdr body 50) n)

  read_user-Replies :
      (hdr : Hdr) (body : List ℕ) (a : Authen)
      → is_interactive a ≡ true
      → ¬ IsAborted (get_cont hdr body 50)
      → Replies (read_user m hdr body a)
  unfolding read_user
  read_user-Replies hdr body a i n =
      Replies-when (is_interactive a) _ (a, none)
        (λ _.
          Replies-if (is_empty a.user) _ _ (take_user-Replies a (get_cont hdr body 32))
            (read_password-Replies hdr body a i n))
        (λ b. absurd (ground (arith, b, i)))

  -- Every start packet gets a reply, and so does every packet numbered 2 to 7 of a login or of an
  -- enable request that does not abort.
  pub process_replies :
      (seq : ℕ) (hdr : Hdr) (body : List ℕ) (a : Authen)
      → 1 ≤ seq
      → seq ≤ 7
      → (seq ≡ 1) ⊎ ((is_interactive a ≡ true) × (¬ IsAborted (get_cont hdr body 50)))
      → (process m seq hdr body a).1 ≢ none
  unfolding process
  process_replies seq hdr body a lo hi (inl first) = rw first (start-Replies hdr body a)
  process_replies seq hdr body a lo hi (inr (i, n)) =
      Replies-when (seq == 1) (start m hdr body a) _ (λ _. start-Replies hdr body a)
        (λ b₁.
          Replies-when ((seq == 2) || ((seq == 3) || (seq == 4))) (read_user m hdr body a) _
            (λ _. read_user-Replies hdr body a i n)
            (λ b₂.
              Replies-when ((seq == 5) || ((seq == 6) || (seq == 7))) (read_password m hdr body a)
                (a, none) (λ _. read_password-Replies hdr body a i n)
                (λ b₃. absurd (ground (arith, b₁, b₂, b₃)))))
