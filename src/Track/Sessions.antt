-- ===== src/Track/Sessions.antt =====
-- The sessions on one device: `DeviceUser_data`, and the methods `usr_*` and `numsess` of
-- `Device_data`. A session's constructor and destructor count the user's data up and down.
pub mod Backed
use tacppd.Common.{
  ℕ, ◌+◌, ◌-◌, Bool, true, false, ◌||◌, ◌&&◌, not, none, some, List, [], ◌∷◌, ◌++◌, Text, codes,
  str_eq, if◌then◌else◌, any, find, update_first, erase_first, ltb, length,
}
use tacppd.Common.Prefix.{scomp_n}
use tacppd.User.{DbUser}
use tacppd.Track.Billing.{UserData, add_ud, del_ud}

-- `class DeviceUser_data`. Times are `time_t`.
pub record DeviceUser (Ip : Type 0) : Type 0 where
  pub username : Text
  pub port : Text
  pub phone : Text
  pub useraddr : Ip
  pub active : Bool
  pub lastdatatime : ℕ
  pub nasaddr : Ip

module _ {Ip : Type 0} where
  abbrev pub at_port : Text → DeviceUser Ip → Bool
  at_port p e = str_eq e.port p

  abbrev pub at_place : Text → Text → DeviceUser Ip → Bool
  at_place u p e = str_eq e.port p && str_eq e.username u

  -- The constructor.
  abbrev pub new_session : ℕ → Ip → Text → Text → Text → Ip → DeviceUser Ip
  new_session now n u p t a = record {
    username = u;
    port = p;
    phone = t;
    useraddr = a;
    active = false;
    lastdatatime = now;
    nasaddr = n;
  }

  unfoldable pub usr_add :
      ℕ
      → Ip
      → Text
      → Text
      → Text
      → Ip
      → DbUser
      → List UserData
      → List (DeviceUser Ip)
      → List UserData × List (DeviceUser Ip) × Bool
  unfolding add_ud
  usr_add now n u p t a d ud cusr =
      if any (at_place u p) cusr
      then (ud, cusr, false)
      else (add_ud d ud, cusr ++ new_session now n u p t a ∷ [], true)

  unfoldable pub usr_del :
      Text → List UserData → List (DeviceUser Ip) → List UserData × List (DeviceUser Ip) × Bool
  unfolding del_ud
  usr_del p ud cusr = elim (find (at_port p) cusr) [
    | none ↦ (ud, cusr, false)
    | some e ↦ (del_ud e.username ud, erase_first (at_port p) cusr, true)
  ]

  -- An inactive session of more than 61 seconds.
  abbrev pub is_expired : ℕ → DeviceUser Ip → Bool
  is_expired now e = not e.active && ltb 61 (now - e.lastdatatime)

  unfoldable pub usr_expire :
      ℕ → List UserData → List (DeviceUser Ip) → List UserData × List (DeviceUser Ip)
  unfolding del_ud
  usr_expire now ud [] = (ud, [])
  usr_expire now ud (e ∷ cusr) =
      let (ud₁, cusr₁) = usr_expire now (del_ud e.username ud) cusr in
      let (ud₂, cusr₂) = usr_expire now ud cusr in
      if is_expired now e then (ud₁, cusr₁) else (ud₂, e ∷ cusr₂)

  -- The destructor of a device: all its sessions go.
  unfoldable pub release : List UserData → List (DeviceUser Ip) → List UserData
  unfolding del_ud
  release ud [] = ud
  release ud (e ∷ cusr) = release (del_ud e.username ud) cusr

  -- `Device_data::usr_del` without a port: all its sessions go, and the device stays.
  unfoldable pub usr_clear :
      List UserData → List (DeviceUser Ip) → List UserData × List (DeviceUser Ip) × Bool
  unfolding release
  usr_clear ud cusr = (release ud cusr, [], true)

  -- The sessions of a user that count: active ones on a port `As` or `Se`.
  abbrev pub is_counted : Text → DeviceUser Ip → Bool
  is_counted u e =
      str_eq e.username u
      && (e.active && (scomp_n e.port (codes "As") 2 || scomp_n e.port (codes "Se") 2))

  unfoldable pub numsess : Text → List (DeviceUser Ip) → ℕ
  numsess u [] = 0
  numsess u (e ∷ cusr) = let n = numsess u cusr in if is_counted u e then n + 1 else n

  module _ (eq : Ip → Ip → Bool) (unknown_ip zero_ip : Ip) where
    -- `update` of a session, then `setActive`.
    abbrev pub update : ℕ → Text → Text → Ip → DeviceUser Ip → DeviceUser Ip
    update now p t ua e = record e {
      port = p;
      phone = if ltb (length e.phone) (length t) then t else e.phone;
      useraddr = if not (eq ua unknown_ip) && not (eq ua zero_ip) then ua else e.useraddr;
      lastdatatime = now;
      active = true;
    }

    unfoldable pub usr_activate :
        ℕ
        → Text
        → Text
        → Text
        → Ip
        → List UserData
        → List (DeviceUser Ip)
        → List UserData × List (DeviceUser Ip) × Bool
    unfolding del_ud
    usr_activate now u p t ua ud cusr = elim (find (at_port p) cusr) [
      | none ↦ (ud, cusr, false)
      | some e ↦
          if str_eq e.username u
          then (ud, update_first (at_port p) (update now p t ua) cusr, true)
          else (del_ud e.username ud, erase_first (at_port p) cusr, false)
    ]
