-- ===== src/Track.antt =====
-- The sessions of users on the devices: `UserTrack` and the cache of src/UserTrack.cc, the sessions
-- of src/CoreDevice.cc, and the data of users with a session in src/CoreBilling.cc.
-- The class `ipaddr` is another library's: a type with a test for equal addresses. The database is
-- a parameter: what it gives for a name at a time. A method that changes sessions holds the lock
-- of its list for its whole body.
pub mod Billing
pub mod Sessions
pub mod Cache
pub mod Covered
pub mod Backed
pub mod Fresh
pub mod Lifecycle
pub mod Limit
mod Examples
use tacppd.Common.{
  ℕ, ◌+◌, ◌-◌, Bool, true, false, ◌||◌, ◌&&◌, not, Option, none, some, List, [], ◌∷◌, ◌++◌, Text,
  str_eq, if◌then◌else◌, any, find, update_first, erase_first, erase_all, ltb, leb, length,
}
use tacppd.User.{DbUser, new_user}
use tacppd.Track.Billing.{UserData, get_ud, add_ud, del_ud}
use tacppd.Track.Sessions.{
  DeviceUser, usr_add, usr_del, usr_activate, usr_expire, release, usr_clear, numsess,
}
use tacppd.Track.Cache.{DbcEntry, present, dbc_get, dbc_add}

-- A device, its settings left out.
pub record DeviceData (Ip : Type 0) : Type 0 where
  pub hostaddr : Ip
  pub cusr : List (DeviceUser Ip)

-- `ud_` of `CoreBilling`, `nas` of `CoreDevice`, and `dbec_` of the cache.
pub record Tracking (Ip : Type 0) : Type 0 where
  pub ud : List UserData
  pub nas : List (DeviceData Ip)
  pub dbec : List DbcEntry

-- What is done to sessions and devices, with the time of the call. Listings, which count the data of
-- a user by the copies that they make, are left out.
pub data Action (Ip : Type 0) : Type 0 where
  gets : ℕ → Text → Ip → Text → Text → Action Ip
  adds : ℕ → Text → Ip → Text → Text → Ip → Action Ip
  dels : Ip → Text → Action Ip
  expires : ℕ → Action Ip
  adds_device dels_device clears : Ip → Action Ip

abbrev pub no_tracking : {Ip : Type 0} → Tracking Ip
no_tracking = record { ud = []; nas = []; dbec = [] }

abbrev pub Change : Type 0 → Type 0
Change Ip = List UserData × List (DeviceUser Ip) × Bool

-- `CoreDevice::numsess`: the sessions of a user that count, on all devices.
unfoldable pub numsess_all : {Ip : Type 0} → Text → List (DeviceData Ip) → ℕ
unfolding numsess
numsess_all u [] = 0
numsess_all u (d ∷ nas) = numsess u d.cusr + numsess_all u nas

module _ {Ip : Type 0} (eq : Ip → Ip → Bool) (unknown_ip zero_ip : Ip) where
  -- The loops of `CoreDevice` over the devices of that address: up to the first success, or up to
  -- the first such device.
  unfoldable pub try_each :
      (List UserData → List (DeviceUser Ip) → Change Ip)
      → Ip
      → List UserData
      → List (DeviceData Ip)
      → List UserData × List (DeviceData Ip) × Bool
  try_each op n ud [] = (ud, [], false)
  try_each op n ud (d ∷ ds) =
      let (ud₁, cusr₁, done) = op ud d.cusr in
      let (ud₂, ds₂, done₂) = try_each op n ud₁ ds in
      let (ud₃, ds₃, done₃) = try_each op n ud ds in
      if eq d.hostaddr n
      then (if done
          then (ud₁, record d { cusr = cusr₁ } ∷ ds, true)
          else (ud₂, record d { cusr = cusr₁ } ∷ ds₂, done₂))
      else (ud₃, d ∷ ds₃, done₃)

  unfoldable pub try_first :
      (List UserData → List (DeviceUser Ip) → Change Ip)
      → Ip
      → List UserData
      → List (DeviceData Ip)
      → List UserData × List (DeviceData Ip) × Bool
  try_first op n ud [] = (ud, [], false)
  try_first op n ud (d ∷ ds) =
      let (ud₁, cusr₁, done) = op ud d.cusr in
      let (ud₂, ds₂, done₂) = try_first op n ud ds in
      if eq d.hostaddr n then (ud₁, record d { cusr = cusr₁ } ∷ ds, done) else (ud₂, d ∷ ds₂, done₂)

  unfoldable pub expire_all :
      ℕ → List UserData → List (DeviceData Ip) → List UserData × List (DeviceData Ip)
  unfolding usr_expire
  expire_all now ud [] = (ud, [])
  expire_all now ud (d ∷ ds) =
      let (ud₁, cusr₁) = usr_expire now ud d.cusr in
      let (ud₂, ds₂) = expire_all now ud₁ ds in (ud₂, record d { cusr = cusr₁ } ∷ ds₂)

  -- `CoreDevice::add` and `CoreDevice::del`.
  unfoldable pub add_device : Ip → List (DeviceData Ip) → List (DeviceData Ip)
  add_device ip nas =
      if any (λ d. eq d.hostaddr ip) nas
      then nas
      else nas ++ record { hostaddr = ip; cusr = [] } ∷ []

  unfoldable pub del_device :
      Ip → List UserData → List (DeviceData Ip) → List UserData × List (DeviceData Ip)
  unfolding release
  del_device ip ud [] = (ud, [])
  del_device ip ud (d ∷ ds) =
      let (ud₁, ds₁) = del_device ip (release ud d.cusr) ds in
      let (ud₂, ds₂) = del_device ip ud ds in
      if eq d.hostaddr ip then (ud₁, ds₁) else (ud₂, d ∷ ds₂)

  abbrev pub with_devices : Tracking Ip → List UserData × List (DeviceData Ip) × Bool → Tracking Ip
  with_devices s r = record s { ud = r.0; nas = r.1 }

  module _ (db : ℕ → Text → DbUser) where
    -- The data of a name: that of the cache, or the database's, which the cache then keeps.
    unfoldable pub look_up : ℕ → Text → List DbcEntry → DbUser × List DbcEntry
    unfolding present dbc_get dbc_add
    look_up now u dbec =
        let (dbec₁, upresent) = present now u dbec in
        if upresent then (dbc_get u dbec₁, dbec₁) else (db now u, dbc_add now (db now u) dbec₁)

    unfoldable pub get2add : ℕ → Text → Ip → Text → Text → Tracking Ip → Tracking Ip × DbUser
    unfolding try_each try_first get_ud usr_add usr_del look_up
    get2add now u nas p t s =
        let known = get_ud u s.ud in
        let (ret, dbec₁) = look_up now u s.dbec in
        let (ud₂, nas₂, _) = try_each (usr_del p) nas s.ud s.nas in
        if known.result
        then (
          with_devices s (try_first (usr_add now nas u p t unknown_ip known) nas s.ud s.nas),
          known,
        )
        else if not ret.result
        then (record s { dbec = dbec₁ }, ret)
        else (
          with_devices (record s { dbec = dbec₁ })
              (try_first (usr_add now nas u p t unknown_ip ret) nas ud₂ nas₂),
          ret,
        )

    abbrev pub activate :
        ℕ → Text → Ip → Text → Text → Ip → Tracking Ip → List UserData × List (DeviceData Ip) × Bool
    activate now u c p t ua s =
        try_each (usr_activate eq unknown_ip zero_ip now u p t ua) c s.ud s.nas

    -- `UserTrack::add`.
    unfoldable pub add : ℕ → Text → Ip → Text → Text → Ip → Tracking Ip → Tracking Ip × Bool
    unfolding get2add usr_activate
    add now u c p t ua s =
        let first = activate now u c p t ua s in
        let s₁ = with_devices s first in
        let (s₂, d) = get2add now u c p t s₁ in
        if first.2
        then (s₁, true)
        else if d.result && ltb 0 d.opened
        then (with_devices s₂ (activate now u c p t ua s₂), true)
        else (s₂, false)

    -- `UserTrack::del`.
    unfoldable pub del : Ip → Text → Tracking Ip → Tracking Ip × Bool
    unfolding try_each usr_del
    del c p s = let r = try_each (usr_del p) c s.ud s.nas in (with_devices s r, r.2)

    unfoldable pub step : Tracking Ip → Action Ip → Tracking Ip
    unfolding get2add add del expire_all add_device del_device try_first usr_clear
    step s (gets now u n p t) = (get2add now u n p t s).0
    step s (adds now u n p t ua) = (add now u n p t ua s).0
    step s (dels n p) = (del n p s).0
    step s (expires now) =
        let (ud₁, nas₁) = expire_all now s.ud s.nas in record s { ud = ud₁; nas = nas₁ }
    step s (adds_device ip) = record s { nas = add_device ip s.nas }
    step s (dels_device ip) =
        let (ud₁, nas₁) = del_device ip s.ud s.nas in record s { ud = ud₁; nas = nas₁ }
    step s (clears ip) = with_devices s (try_first usr_clear ip s.ud s.nas)

    unfoldable pub run : Tracking Ip → List (Action Ip) → Tracking Ip
    unfolding step
    run s [] = s
    run s (a ∷ acts) = run (step s a) acts
