-- ===== src/Track/Lifecycle.antt =====
-- A session from its beginning to its end, on a port that is free.
use tacppd.Common.{
  ◌≡◌, refl, ap, ◌∙◌, ℕ, ◌+◌, Bool, true, false, ◌&&◌, ◌||◌, List, [], ◌∷◌, ◌++◌, Text, codes,
  str_eq, str_eq_refl, if◌then◌else◌, any, update_first, arith,
}
use tacppd.Common.Keyed.{find-push, erase_first-push}
use tacppd.Common.Prefix.{scomp_n}
use tacppd.User.{DbUser}
use tacppd.Track.Billing.{UserData, add_ud}
use tacppd.Track.Sessions.{
  DeviceUser, at_port, at_place, new_session, update, is_counted, numsess, usr_add, usr_del,
  usr_activate,
}

-- A port whose sessions are counted.
abbrev pub is_line : Text → Bool
is_line p = scomp_n p (codes "As") 2 || scomp_n p (codes "Se") 2

module _ {Ip : Type 0} where
  any-at_place :
      (u p : Text) (cusr : List (DeviceUser Ip))
      → any (at_port p) cusr ≡ false
      → any (at_place u p) cusr ≡ false
  unfolding any
  any-at_place u p [] h = refl
  any-at_place u p (e ∷ cusr) h = ground (arith, any-at_place u p cusr)

  update_first-push :
      (q : DeviceUser Ip → Bool) (f : DeviceUser Ip → DeviceUser Ip) (cusr : List (DeviceUser Ip))
      (e : DeviceUser Ip)
      → any q cusr ≡ false
      → q e ≡ true
      → update_first q f (cusr ++ e ∷ []) ≡ cusr ++ f e ∷ []
  unfolding any update_first
  update_first-push q f [] e h k = ground (arith, k)
  update_first-push q f (x ∷ cusr) e h k = ground (arith, update_first-push q f cusr e)

  numsess-push :
      (u : Text) (cusr : List (DeviceUser Ip)) (e : DeviceUser Ip)
      → numsess u (cusr ++ e ∷ []) ≡ (if is_counted u e then numsess u cusr + 1 else numsess u cusr)
  unfolding numsess
  numsess-push u [] e = ground arith
  numsess-push u (x ∷ cusr) e = ground (arith, numsess-push u cusr e)

  usr_add_free :
      (now : ℕ) (n : Ip) (u p t : Text) (a : Ip) (d : DbUser) (ud : List UserData)
      (cusr : List (DeviceUser Ip))
      → any (at_port p) cusr ≡ false
      → usr_add now n u p t a d ud cusr
        ≡ (add_ud d ud, cusr ++ new_session now n u p t a ∷ [], true)
  unfolding usr_add
  usr_add_free now n u p t a d ud cusr h = rw (any-at_place u p cusr h) refl

  module _ (eq : Ip → Ip → Bool) (unknown_ip zero_ip : Ip) where
    -- The user is authenticated, and the accounting packet of the start comes in.
    unfoldable pub begin_session :
        ℕ
        → Ip
        → Text
        → Text
        → Text
        → Ip
        → DbUser
        → List UserData
        → List (DeviceUser Ip)
        → List UserData × List (DeviceUser Ip) × Bool
    unfolding usr_add usr_activate
    begin_session now n u p t ua d ud cusr =
        let (ud₁, cusr₁, _) = usr_add now n u p t unknown_ip d ud cusr in
        usr_activate eq unknown_ip zero_ip now u p t ua ud₁ cusr₁

    usr_activate_last :
        (now : ℕ) (u p t : Text) (ua : Ip) (ud : List UserData) (cusr : List (DeviceUser Ip))
        (e : DeviceUser Ip)
        → any (at_port p) cusr ≡ false
        → str_eq e.port p ≡ true
        → str_eq e.username u ≡ true
        → usr_activate eq unknown_ip zero_ip now u p t ua ud (cusr ++ e ∷ [])
          ≡ (ud, cusr ++ update eq unknown_ip zero_ip now p t ua e ∷ [], true)
    unfolding usr_activate
    usr_activate_last now u p t ua ud cusr e h k l =
        rw
          (
            usr_activate,
            find-push (at_port p) cusr e,
            h,
            k,
            l,
            update_first-push (at_port p) (update eq unknown_ip zero_ip now p t ua) cusr e h k,
          )
          refl

    begin_session_lem :
        (now : ℕ) (n : Ip) (u p t : Text) (ua : Ip) (d : DbUser) (ud : List UserData)
        (cusr : List (DeviceUser Ip))
        → any (at_port p) cusr ≡ false
        → begin_session now n u p t ua d ud cusr ≡ (
          add_ud d ud,
          cusr ++ update eq unknown_ip zero_ip now p t ua (new_session now n u p t unknown_ip) ∷ [],
          true,
        )
    unfolding begin_session
    begin_session_lem now n u p t ua d ud cusr h =
        ap (λ r. usr_activate eq unknown_ip zero_ip now u p t ua r.0 r.1)
          (usr_add_free now n u p t unknown_ip d ud cusr h)
        ∙ usr_activate_last now u p t ua (add_ud d ud) cusr (new_session now n u p t unknown_ip) h
            (str_eq_refl p) (str_eq_refl u)

    -- A session that begins on a free port makes the user's count of sessions one greater, if the
    -- port is counted, and no other count changes; its end gives the sessions of the device back.
    pub begin_session-numsess :
        (now : ℕ) (n : Ip) (u p t : Text) (ua : Ip) (d : DbUser) (ud : List UserData)
        (cusr : List (DeviceUser Ip)) (v : Text)
        → any (at_port p) cusr ≡ false
        → (numsess v (begin_session now n u p t ua d ud cusr).1
            ≡ (if str_eq u v && is_line p then numsess v cusr + 1 else numsess v cusr))
          × ((usr_del p
                (begin_session now n u p t ua d ud cusr).0
                (begin_session now n u p t ua d ud cusr).1).1
              ≡ cusr)
    unfolding usr_del
    begin_session-numsess now n u p t ua d ud cusr v h =
        let e = update eq unknown_ip zero_ip now p t ua (new_session now n u p t unknown_ip) in
        rw (begin_session_lem now n u p t ua d ud cusr h) (
          numsess-push v cusr e,
          rw (usr_del, find-push (at_port p) cusr e, h, str_eq_refl p)
              (erase_first-push (at_port p) cusr e h (str_eq_refl p)),
        )
