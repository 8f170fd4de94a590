-- ===== src/Track/Covered.antt =====
-- Walks over the devices, and the counters of the users' data.
use tacppd.Common.{ℕ, ◌+◌, ◌≤◌, Bool, Bool-cases, inl, inr, List, [], ◌∷◌, Text, arith}
use tacppd.Track.Billing.{UserData}
use tacppd.Track.Billing.Counter.{IsSingle, refs}
use tacppd.Track.Sessions.{DeviceUser, usr_expire, release}
use tacppd.Track.Sessions.Backed.{count, IsBacked, usr_expire-IsBacked, release-IsBacked}
use tacppd.Track.{
  DeviceData, Tracking, Change, no_tracking, try_each, try_first, expire_all, del_device,
}

module _ {Ip : Type 0} where
  -- The sessions of a user on all devices.
  unfoldable pub total : Text → List (DeviceData Ip) → ℕ
  total u [] = 0
  total u (d ∷ nas) = count u d.cusr + total u nas

  -- No data counts more sessions than there are, with `k` more.
  abbrev pub IsCovered : (Text → ℕ) → List UserData → List (DeviceData Ip) → Type 0
  IsCovered k ud nas = IsSingle ud × ((u : Text) → refs u ud ≤ total u nas + k u)

  abbrev pub IsTracked : Tracking Ip → Type 0
  IsTracked s = IsCovered (λ _. 0) s.ud s.nas

  abbrev pub Keeps : (List UserData → List (DeviceUser Ip) → Change Ip) → Type 0
  Keeps op =
      (k : Text → ℕ) (ud : List UserData) (cusr : List (DeviceUser Ip))
      → IsBacked k ud cusr
      → IsBacked k (op ud cusr).0 (op ud cusr).1

  -- One device apart from the others.
  split_cover :
      (k : Text → ℕ) (ud : List UserData) (d : DeviceData Ip) (ds : List (DeviceData Ip))
      → IsCovered k ud (d ∷ ds)
      → IsBacked (λ u. total u ds + k u) ud d.cusr
  unfolding total
  split_cover k ud d ds h = (h.0, λ u. omega (arith, h.1 u))

  join_cover :
      (k : Text → ℕ) (ud : List UserData) (d : DeviceData Ip) (ds : List (DeviceData Ip))
      → IsBacked (λ u. total u ds + k u) ud d.cusr
      → IsCovered k ud (d ∷ ds)
  unfolding total
  join_cover k ud d ds h = (h.0, λ u. omega (arith, h.1 u))

  -- The same, seen from the others.
  turn_cover :
      (k : Text → ℕ) (ud : List UserData) (cusr : List (DeviceUser Ip)) (ds : List (DeviceData Ip))
      → IsBacked (λ u. total u ds + k u) ud cusr
      → IsCovered (λ u. count u cusr + k u) ud ds
  turn_cover k ud cusr ds h = (h.0, λ u. omega (arith, h.1 u))

  back_cover :
      (k : Text → ℕ) (ud : List UserData) (d : DeviceData Ip) (ds : List (DeviceData Ip))
      → IsCovered (λ u. count u d.cusr + k u) ud ds
      → IsCovered k ud (d ∷ ds)
  unfolding total
  back_cover k ud d ds h = (h.0, λ u. omega (arith, h.1 u))

  module _ (eq : Ip → Ip → Bool) (unknown_ip zero_ip : Ip) where
    pub try_each-IsCovered :
        (op : List UserData → List (DeviceUser Ip) → Change Ip)
        → Keeps op
        → (n : Ip) (k : Text → ℕ) (ud : List UserData) (nas : List (DeviceData Ip))
        → IsCovered k ud nas
        → IsCovered k
            (try_each eq unknown_ip zero_ip op n ud nas).0
            (try_each eq unknown_ip zero_ip op n ud nas).1
    unfolding try_each
    try_each-IsCovered op keeps n k ud [] h = h
    try_each-IsCovered op keeps n k ud (d ∷ ds) h =
        let (ud₁, cusr₁, done) = op ud d.cusr in
        let d₁ = record d { cusr = cusr₁ } in
        let now = keeps (λ u. total u ds + k u) ud d.cusr (split_cover k ud d ds h) in
        elim (Bool-cases (eq d.hostaddr n)) [
          | inl e ↦ elim (Bool-cases done) [
            | inl f ↦ rw (e, f) (join_cover k ud₁ d₁ ds now)
            | inr f ↦
                rw (e, f)
                  (back_cover k _ d₁ _ (
                    try_each-IsCovered op keeps n (λ u. count u cusr₁ + k u) ud₁ ds
                      (turn_cover k ud₁ cusr₁ ds now)))
          ]
          | inr e ↦ rw e (
              back_cover k _ d _ (
                try_each-IsCovered op keeps n (λ u. count u d.cusr + k u) ud ds
                  (turn_cover k ud d.cusr ds (split_cover k ud d ds h))))
        ]

    pub try_first-IsCovered :
        (op : List UserData → List (DeviceUser Ip) → Change Ip)
        → Keeps op
        → (n : Ip) (k : Text → ℕ) (ud : List UserData) (nas : List (DeviceData Ip))
        → IsCovered k ud nas
        → IsCovered k
            (try_first eq unknown_ip zero_ip op n ud nas).0
            (try_first eq unknown_ip zero_ip op n ud nas).1
    unfolding try_first
    try_first-IsCovered op keeps n k ud [] h = h
    try_first-IsCovered op keeps n k ud (d ∷ ds) h =
        let (ud₁, cusr₁, done) = op ud d.cusr in
        elim (Bool-cases (eq d.hostaddr n)) [
          | inl e ↦ rw e (
              join_cover k ud₁ (record d { cusr = cusr₁ }) ds
                (keeps (λ u. total u ds + k u) ud d.cusr (split_cover k ud d ds h)))
          | inr e ↦ rw e (
              back_cover k _ d _ (
                try_first-IsCovered op keeps n (λ u. count u d.cusr + k u) ud ds
                  (turn_cover k ud d.cusr ds (split_cover k ud d ds h))))
        ]

    pub expire_all-IsCovered :
        (now : ℕ) (k : Text → ℕ) (ud : List UserData) (nas : List (DeviceData Ip))
        → IsCovered k ud nas
        → IsCovered k
            (expire_all eq unknown_ip zero_ip now ud nas).0
            (expire_all eq unknown_ip zero_ip now ud nas).1
    unfolding expire_all
    expire_all-IsCovered now k ud [] h = h
    expire_all-IsCovered now k ud (d ∷ ds) h =
        let (ud₁, cusr₁) = usr_expire now ud d.cusr in
        back_cover k _ (record d { cusr = cusr₁ }) _
          (expire_all-IsCovered now (λ u. count u cusr₁ + k u) ud₁ ds
            (turn_cover k ud₁ cusr₁ ds (
              usr_expire-IsBacked now (λ u. total u ds + k u) ud d.cusr (split_cover k ud d ds h))))

    pub del_device-IsCovered :
        (ip : Ip) (k : Text → ℕ) (ud : List UserData) (nas : List (DeviceData Ip))
        → IsCovered k ud nas
        → IsCovered k
            (del_device eq unknown_ip zero_ip ip ud nas).0
            (del_device eq unknown_ip zero_ip ip ud nas).1
    unfolding del_device count
    del_device-IsCovered ip k ud [] h = h
    del_device-IsCovered ip k ud (d ∷ ds) h = elim (Bool-cases (eq d.hostaddr ip)) [
      | inl e ↦ rw e (
          del_device-IsCovered ip k (release ud d.cusr) ds (
            let r = release-IsBacked (λ u. total u ds + k u) ud d.cusr (split_cover k ud d ds h) in
            (r.0, λ u. omega (arith, r.1 u))))
      | inr e ↦ rw e (
          back_cover k _ d _ (
            del_device-IsCovered ip (λ u. count u d.cusr + k u) ud ds
              (turn_cover k ud d.cusr ds (split_cover k ud d ds h))))
    ]

pub no_tracking-IsTracked : (Ip : Type 0) → IsTracked {Ip = Ip} no_tracking
unfolding refs total
no_tracking-IsTracked Ip = (tt, λ u. omega arith)
