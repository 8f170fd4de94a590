-- ===== src/Track/Limit.antt =====
-- The limit of a user's sessions: the authentication of src/AAA.cc and the sessions of the devices.
use tacppd.Common.{
  ◌≡◌, ◌≢◌, ◌⊎◌, inl, inr, ◌<◌, sym, ap, ◌∙◌, ℕ, suc, ◌+◌, ◌≤◌, Bool, true, false, List, [], ◌∷◌,
  ◌++◌, Text, any, arith,
}
use tacppd.Common.Int.{pos, int_lt, int_eq_iff}
use tacppd.User.{DbUser}
use tacppd.Aaa.{Tools, Origin, db_authentication}
use tacppd.Aaa.Grant.{db_authentication_iff}
use tacppd.Track.{DeviceData, numsess_all}
use tacppd.Track.Billing.{UserData}
use tacppd.Track.Sessions.{at_port, numsess}
use tacppd.Track.Lifecycle.{begin_session, begin_session-numsess}

numsess_all-append :
    {Ip : Type 0} (u : Text) (ahead behind : List (DeviceData Ip)) (dev : DeviceData Ip)
    → numsess_all u (ahead ++ dev ∷ behind)
      ≡ numsess_all u ahead + (numsess u dev.cusr + numsess_all u behind)
unfolding numsess_all
numsess_all-append u [] behind dev = omega arith
numsess_all-append u (x ∷ ahead) behind dev = omega (arith, numsess_all-append u ahead behind dev)

zero_limit : (n : ℕ) → pos (suc n) ≢ pos 0
zero_limit n e = ground (arith, (int_eq_iff (pos (suc n)) (pos 0)).1 e)

below :
    (d : DbUser) (n limit : ℕ)
    → d.maxsess ≡ pos (suc limit)
    → (d.maxsess ≡ pos 0) ⊎ (int_lt (pos n) d.maxsess ≡ true)
    → n < suc limit
below d n limit e (inl f) = absurd (zero_limit limit (sym e ∙ f))
below d n limit e (inr f) = ground (arith, sym (ap (int_lt (pos n)) e) ∙ f)

-- A user with a limit of sessions who is authenticated while the sessions on the devices are
-- counted, and whose session then begins on a free port of one of them, has no more sessions that
-- count than the limit.
pub numsess_all-begin_session :
    {Ip : Type 0} (eq : Ip → Ip → Bool) (unknown_ip zero_ip : Ip)
    → (t : Tools) (d : DbUser) (time limit : ℕ) (o : Origin) (password enable : Text)
    → (ahead behind : List (DeviceData Ip)) (dev : DeviceData Ip)
    → (now : ℕ) (n : Ip) (u p phone : Text) (ua : Ip) (ud : List UserData)
    → d.maxsess ≡ pos (suc limit)
    → db_authentication t d (pos (numsess_all u (ahead ++ dev ∷ behind))) time o password enable
      ≡ true
    → any (at_port p) dev.cusr ≡ false
    → numsess_all u (
        ahead
        ++ record dev {
          cusr = (begin_session eq unknown_ip zero_ip now n u p phone ua d ud dev.cusr).1;
        }
          ∷ behind)
      ≤ suc limit
numsess_all-begin_session eq unknown_ip zero_ip t d time limit o password enable ahead behind dev
      now n u p phone ua ud max h free =
    let admits =
      (db_authentication_iff t d (pos (numsess_all u (ahead ++ dev ∷ behind))) time o password
          enable).0
        h in
    let few = below d (numsess_all u (ahead ++ dev ∷ behind)) limit max admits.0.sessions in
    let one =
      (begin_session-numsess eq unknown_ip zero_ip now n u p phone ua d ud dev.cusr u free).0 in
    let dev' = record dev {
      cusr = (begin_session eq unknown_ip zero_ip now n u p phone ua d ud dev.cusr).1;
    } in
    ground (
      arith,
      few,
      one,
      numsess_all-append u ahead behind dev,
      numsess_all-append u ahead behind dev',
    )
