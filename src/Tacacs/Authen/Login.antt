-- ===== src/Tacacs/Authen/Login.antt =====
-- A login with a name and a password, packet by packet.
use tacppd.Common.{
  ◌≡◌, ◌≢◌, Bool, refl, ap, ◌∙◌, ℕ, false, some, List, [], ◌∷◌, Text, codes, is_empty, arith,
  if◌then◌else◌, take, ◌==◌,
}
use tacppd.Aaa.{db_authentication}
use tacppd.Tacacs.Header.{Hdr}
use tacppd.Tacacs.Intake.{Authen, ascii_login, enable_request, get_start, get_cont, ver_0, ver_1}
use tacppd.Tacacs.Authen.{
  Moment, pass, fail, getpass, answer, prompt, cleared, accepts, start_login, decide, start_request,
  start, take_password, read_password, read_user, process,
}

-- `get_start` sets the name, the port and the address of the session, and nothing else.
pub record Keeps (a a' : Authen) : Type 0 where
  pub enable : a'.enable ≡ a.enable
  pub en_req : a'.en_req ≡ a.en_req
  pub chap : a'.chap ≡ a.chap

nonempty_is_empty : (s : Text) → s ≢ [] → is_empty s ≡ false
nonempty_is_empty [] h = absurd (h refl)
nonempty_is_empty (c ∷ s) h = refl

get_start-Keeps : (hdr : Hdr) (body : List ℕ) (a : Authen) → Keeps a (get_start hdr body a).authen
unfolding get_start
get_start-Keeps hdr body a = record {
  enable = ground arith;
  en_req = ground arith;
  chap = ground arith;
}

start_started :
    (m : Moment) (hdr : Hdr) (body : List ℕ) (a : Authen)
    → (get_start hdr body (cleared a)).res ≡ ascii_login
    → start m hdr body a
      ≡ start_request m
          (record (get_start hdr body (cleared a)).authen { request = ascii_login })
          (get_start hdr body (cleared a)).data_
unfolding start
start_started m hdr body a res = rw (start, res) refl

start_login_prompts :
    (m : Moment) (a : Authen)
    → a.user ≢ []
    → accepts m a (codes "(null)") ≡ false
    → start_login m a ≡ prompt getpass m.pwdstring false
unfolding start_login
start_login_prompts m a named trial = rw (start_login, nonempty_is_empty a.user named, trial) refl

decide_on :
    (m : Moment) (a : Authen) (ok : Bool)
    → accepts m a a.pwstring ≡ ok
    → decide m a ≡ (if ok then answer pass (if a.chap then ver_1 else ver_0) else answer fail ver_0)
unfolding decide
decide_on m a ok e = rw (decide, e) refl

take_password_decides :
    (m : Moment) (a : Authen) (msg : Text) (flag : ℕ)
    → (a.en_req == enable_request) ≡ false
    → (flag == 1) ≡ false
    → take_password m a (some (msg, flag))
      ≡ (record a { pwstring = take 252 msg }, decide m (record a { pwstring = take 252 msg }))
unfolding take_password
take_password_decides m a msg flag en go = rw (take_password, go, en) refl

process_password :
    (m : Moment) (hdr : Hdr) (body : List ℕ) (a : Authen)
    → a.request ≡ ascii_login
    → a.user ≢ []
    → process m 3 hdr body a ≡ take_password m a (get_cont hdr body 50)
unfolding process read_user read_password
process_password m hdr body a req named =
    rw (process, read_user, read_password, req, nonempty_is_empty a.user named) refl

-- The session that waits for the password.
abbrev pub waiting : Hdr → List ℕ → Authen → Authen
waiting hdr body a = record (get_start hdr body (cleared a)).authen { request = ascii_login }

process_start :
    (m : Moment) (hdr : Hdr) (body : List ℕ) (a : Authen)
    → (get_start hdr body (cleared a)).res ≡ ascii_login
    → process m 1 hdr body a ≡ (waiting hdr body a, start_login m (waiting hdr body a))
unfolding process start_request
process_start m hdr body a res = start_started m hdr body a res

-- The database's answer for the session's user with that password and no enable password.
unfoldable pub verdict : Moment → Authen → Text → Bool
verdict m a password =
    db_authentication m.tools (m.lookup a.user) (m.numsess a.user) m.now
      (record { rem_addr = a.rem_addr; nas = m.nas; port = a.port }) password []

-- A start packet for a login that has the user's name, whom the trial without a password refuses,
-- is answered by the prompt for the password. Then a packet with a password that does not abort is
-- answered with PASS if the database accepts that user with that password and no enable password,
-- and with FAIL otherwise.
pub process_login :
    (m₁ m₂ : Moment) (h₁ h₂ : Hdr) (b₁ b₂ : List ℕ) (a : Authen) (msg : Text) (flag : ℕ)
    → (get_start h₁ b₁ (cleared a)).res ≡ ascii_login
    → (get_start h₁ b₁ (cleared a)).authen.user ≢ []
    → verdict m₁ (get_start h₁ b₁ (cleared a)).authen (codes "(null)") ≡ false
    → get_cont h₂ b₂ 50 ≡ some (msg, flag)
    → flag ≢ 1
    → ((process m₁ 1 h₁ b₁ a).1 ≡ prompt getpass m₁.pwdstring false)
      × ((process m₂ 3 h₂ b₂ (process m₁ 1 h₁ b₁ a).0).1 ≡ (
          if verdict m₂ (get_start h₁ b₁ (cleared a)).authen (take 252 msg)
          then answer pass (if a.chap then ver_1 else ver_0)
          else answer fail ver_0))
unfolding accepts verdict
process_login m₁ m₂ h₁ h₂ b₁ b₂ a msg flag res named trial came go =
    let begun = process_start m₁ h₁ b₁ a res in
    let w : Authen = waiting h₁ b₁ a in
    let kept = get_start-Keeps h₁ b₁ (cleared a) in
    (
      ap (λ x. x.1) begun ∙ start_login_prompts m₁ w named (rw kept.enable trial),
      ap (λ x. (process m₂ 3 h₂ b₂ x.0).1) begun
          ∙ ap (λ x. x.1)
              (process_password m₂ h₂ b₂ w refl named
                ∙ ap (take_password m₂ w) came
                ∙ take_password_decides m₂ w msg flag (rw kept.en_req refl) (ground arith))
          ∙ decide_on m₂ (record w { pwstring = take 252 msg })
              (verdict m₂ (get_start h₁ b₁ (cleared a)).authen (take 252 msg)) (rw kept.enable refl)
          ∙ rw kept.chap refl,
    )
