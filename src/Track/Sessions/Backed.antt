-- ===== src/Track/Sessions/Backed.antt =====
-- What is done to the sessions of a device, and the counters of the users' data.
use tacppd.Common.{
  ◌≡◌, refl, ℕ, ◌+◌, ◌≤◌, Bool, Bool-cases, Option-cases, inl, inr, some, List, [], ◌∷◌, ◌++◌, Text,
  str_eq, if◌then◌else◌, any, find, update_first, erase_first, arith,
}
use tacppd.User.{DbUser}
use tacppd.Track.Billing.{UserData, del_ud}
use tacppd.Track.Billing.Counter.{
  IsSingle, refs, add_ud-IsSingle, del_ud-IsSingle, refs-add_ud, refs-del_ud,
}
use tacppd.Track.Sessions.{
  DeviceUser, at_port, at_place, is_expired, new_session, update, usr_add, usr_del, usr_activate,
  usr_expire, release, usr_clear,
}

module _ {Ip : Type 0} where
  -- The sessions of a user.
  unfoldable pub count : Text → List (DeviceUser Ip) → ℕ
  count u [] = 0
  count u (e ∷ cusr) = let n = count u cusr in if str_eq e.username u then n + 1 else n

  -- No data counts more sessions than there are, with those of other devices.
  abbrev pub IsBacked : (Text → ℕ) → List UserData → List (DeviceUser Ip) → Type 0
  IsBacked k ud cusr = IsSingle ud × ((u : Text) → refs u ud ≤ count u cusr + k u)

  count-push :
      (u : Text) (cusr : List (DeviceUser Ip)) (e : DeviceUser Ip)
      → count u (cusr ++ e ∷ []) ≡ (if str_eq e.username u then count u cusr + 1 else count u cusr)
  unfolding count
  count-push u [] e = ground arith
  count-push u (x ∷ cusr) e = ground (arith, count-push u cusr e)

  count-erase_first :
      (u p : Text) (cusr : List (DeviceUser Ip)) (e : DeviceUser Ip)
      → find (at_port p) cusr ≡ some e
      → count u cusr ≡ (
          if str_eq e.username u
          then count u (erase_first (at_port p) cusr) + 1
          else count u (erase_first (at_port p) cusr))
  unfolding count find erase_first
  count-erase_first u p [] e h = absurd (ground (arith, h))
  count-erase_first u p (x ∷ cusr) e h = ground (arith, count-erase_first u p cusr e)

  count-update_first :
      (u : Text) (q : DeviceUser Ip → Bool) (f : DeviceUser Ip → DeviceUser Ip)
      (keeps : (e : DeviceUser Ip) → (f e).username ≡ e.username) (cusr : List (DeviceUser Ip))
      → count u (update_first q f cusr) ≡ count u cusr
  unfolding count update_first
  count-update_first u q f keeps [] = refl
  count-update_first u q f keeps (x ∷ cusr) =
      ground (arith, count-update_first u q f keeps cusr, keeps x)

  -- A session ends.
  del_ud-IsBacked :
      (k : Text → ℕ) (ud : List UserData) (cusr rest : List (DeviceUser Ip)) (v : Text)
      → ((u : Text) → count u cusr ≡ (if str_eq v u then count u rest + 1 else count u rest))
      → IsBacked k ud cusr
      → IsBacked k (del_ud v ud) rest
  del_ud-IsBacked k ud cusr rest v e h =
      (del_ud-IsSingle v ud h.0, λ u. ground (arith, refs-del_ud u v ud h.0, h.1 u, e u))

  pub usr_add-IsBacked :
      (now : ℕ) (n : Ip) (u p t : Text) (a : Ip) (d : DbUser)
      → (d.username ≡ u)
      → (k : Text → ℕ) (ud : List UserData) (cusr : List (DeviceUser Ip)) → IsBacked k ud cusr
      → IsBacked k (usr_add now n u p t a d ud cusr).0 (usr_add now n u p t a d ud cusr).1
  unfolding usr_add
  usr_add-IsBacked now n u p t a d e k ud cusr h = elim (Bool-cases (any (at_place u p) cusr)) [
    | inl f ↦ rw f h
    | inr f ↦ rw f (
      add_ud-IsSingle d ud h.0,
      λ v. ground (arith, refs-add_ud v d ud, h.1 v, count-push v cusr (new_session now n u p t a)),
    )
  ]

  pub usr_del-IsBacked :
      (p : Text) (k : Text → ℕ) (ud : List UserData) (cusr : List (DeviceUser Ip))
      → IsBacked k ud cusr
      → IsBacked k (usr_del p ud cusr).0 (usr_del p ud cusr).1
  unfolding usr_del
  usr_del-IsBacked p k ud cusr h = elim (Option-cases (find (at_port p) cusr)) [
    | inl f ↦ rw (usr_del, f) h
    | inr (e, f) ↦
        rw (usr_del, f)
          (del_ud-IsBacked k ud cusr (erase_first (at_port p) cusr) e.username
            (λ u. count-erase_first u p cusr e f) h)
  ]

  pub usr_expire-IsBacked :
      (now : ℕ) (k : Text → ℕ) (ud : List UserData) (cusr : List (DeviceUser Ip))
      → IsBacked k ud cusr
      → IsBacked k (usr_expire now ud cusr).0 (usr_expire now ud cusr).1
  unfolding usr_expire count
  usr_expire-IsBacked now k ud [] h = h
  usr_expire-IsBacked now k ud (e ∷ cusr) h = elim (Bool-cases (is_expired now e)) [
    | inl f ↦ rw f (
        usr_expire-IsBacked now k (del_ud e.username ud) cusr
          (del_ud-IsBacked k ud (e ∷ cusr) cusr e.username (λ u. refl) h))
    | inr f ↦
        let rest =
          usr_expire-IsBacked now (λ u. if str_eq e.username u then k u + 1 else k u) ud cusr
            (h.0, λ u. ground (arith, h.1 u)) in
        rw f (rest.0, λ u. ground (arith, rest.1 u))
  ]

  pub release-IsBacked :
      (k : Text → ℕ) (ud : List UserData) (cusr : List (DeviceUser Ip))
      → IsBacked k ud cusr
      → IsBacked k (release ud cusr) []
  unfolding release count
  release-IsBacked k ud [] h = h
  release-IsBacked k ud (e ∷ cusr) h =
      release-IsBacked k (del_ud e.username ud) cusr
        (del_ud-IsBacked k ud (e ∷ cusr) cusr e.username (λ u. refl) h)

  pub usr_clear-IsBacked :
      (k : Text → ℕ) (ud : List UserData) (cusr : List (DeviceUser Ip))
      → IsBacked k ud cusr
      → IsBacked k (usr_clear ud cusr).0 (usr_clear ud cusr).1
  unfolding usr_clear
  usr_clear-IsBacked k ud cusr h = release-IsBacked k ud cusr h

  module _ (eq : Ip → Ip → Bool) (unknown_ip zero_ip : Ip) where
    pub usr_activate-IsBacked :
        (now : ℕ) (u p t : Text) (ua : Ip) (k : Text → ℕ) (ud : List UserData)
        (cusr : List (DeviceUser Ip))
        → IsBacked k ud cusr
        → IsBacked k
            (usr_activate eq unknown_ip zero_ip now u p t ua ud cusr).0
            (usr_activate eq unknown_ip zero_ip now u p t ua ud cusr).1
    unfolding usr_activate
    usr_activate-IsBacked now u p t ua k ud cusr h = elim (Option-cases (find (at_port p) cusr)) [
      | inl f ↦ rw (usr_activate, f) h
      | inr (e, f) ↦ elim (Bool-cases (str_eq e.username u)) [
        | inl g ↦
            rw (usr_activate, f, g)
              (
                h.0,
                λ v. ground (
                  arith,
                  h.1 v,
                  count-update_first v (at_port p) (update eq unknown_ip zero_ip now p t ua)
                      (λ _. refl) cusr,
                ),
              )
        | inr g ↦
            rw (usr_activate, f, g)
              (del_ud-IsBacked k ud cusr (erase_first (at_port p) cusr) e.username
                (λ v. count-erase_first v p cusr e f) h)
      ]
    ]
