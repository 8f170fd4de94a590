-- ===== src/ServerTrack.antt =====
-- The servers of a bundle, and which of them is active: src/ServerTrack.cc. The class `ipaddr` is
-- another library's: a type with a test for equal addresses; `localip` is its default value. The
-- messages that `sendStart` and the bundle send are left out.
pub mod Alone
mod Examples
use tacppd.Common.{
  ℕ, ◌-◌, Bool, true, false, ◌||◌, ◌&&◌, not, List, [], ◌∷◌, ◌++◌, if◌then◌else◌, any, update_first,
  erase_all, ltb,
}
use tacppd.Common.Int.{ℤ, pos, int_lt}

-- `class ServerTrack_data`. Times are `time_t`.
pub record TrackData (Ip : Type 0) : Type 0 where
  pub ip : Ip
  pub priority : ℤ
  pub entry_time : ℕ

-- What is done to the list of servers, with the time of the call.
pub data Event (Ip : Type 0) : Type 0 where
  checks : ℕ → Event Ip
  updates : Ip → ℤ → ℕ → Event Ip

module _ {Ip : Type 0} (eq : Ip → Ip → Bool) (localip unknown_ip : Ip) where
  unfoldable pub send_start : List (TrackData Ip) → ℤ → ℕ → List (TrackData Ip)
  send_start csrv pri now =
      csrv ++ record { ip = unknown_ip; priority = pri; entry_time = now } ∷ []

  abbrev pub is_here : Ip → Bool
  is_here ip = eq ip localip || eq ip unknown_ip

  -- Three keepalive intervals and a second without an update.
  abbrev pub is_over : ℕ → TrackData Ip → Bool
  is_over now e = not (is_here e.ip) && ltb 31 (now - e.entry_time)

  unfoldable pub check_ttl : List (TrackData Ip) → ℕ → List (TrackData Ip)
  check_ttl csrv now = erase_all (is_over now) csrv

  abbrev pub is_meant : Ip → TrackData Ip → Bool
  is_meant ipa e = eq e.ip ipa || eq e.ip unknown_ip

  abbrev pub touch : ℤ → ℕ → TrackData Ip → TrackData Ip
  touch p now e = record e { priority = p; entry_time = now }

  unfoldable pub update : List (TrackData Ip) → Ip → ℤ → ℕ → List (TrackData Ip)
  update csrv ipa p now =
      if any (is_meant ipa) csrv
      then update_first (is_meant ipa) (touch p now) csrv
      else csrv ++ record { ip = ipa; priority = p; entry_time = now } ∷ []

  -- The address of the first of the highest priorities above `activepri`.
  unfoldable pub active_ip : ℤ → Ip → List (TrackData Ip) → Ip
  active_ip activepri activeip [] = activeip
  active_ip activepri activeip (e ∷ csrv) =
      if int_lt activepri e.priority
      then active_ip e.priority e.ip csrv
      else active_ip activepri activeip csrv

  unfoldable pub is_active : List (TrackData Ip) → Bool
  unfolding active_ip
  is_active csrv = is_here (active_ip (pos 0) localip csrv)

  unfoldable pub step : List (TrackData Ip) → Event Ip → List (TrackData Ip)
  step csrv (checks now) = check_ttl csrv now
  step csrv (updates ipa p now) = update csrv ipa p now

  unfoldable pub run : List (TrackData Ip) → List (Event Ip) → List (TrackData Ip)
  unfolding step
  run csrv [] = csrv
  run csrv (x ∷ xs) = run (step csrv x) xs
