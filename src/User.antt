-- ===== src/User.antt =====
-- A user as the database gives it: `db_user` and its parts, src/TacDb.h and src/TacDb.cc.
-- Their mutexes guard single reads and writes, and are left out.
use tacppd.Common.{
  ℕ, Bool, List, [], ◌∷◌, ◌++◌, none, some, Text, str_eq, get_elem?, zero, suc, false,
}
use tacppd.Common.Int.{ℤ, pos}

-- An attribute-value pair with the service and the protocol it is for.
pub record UserAvp : Type 0 where
  pub service : Text
  pub protocol : Text
  pub avp : Text

-- Patterns for commands and their arguments.
pub record CmdAvp : Type 0 where
  pub cmdperm : Text
  pub cmddeny : Text
  pub argperm : Text
  pub argdeny : Text

-- A row of the `checkfrom` table: from where and when a user may come.
pub record DbUserAcc : Type 0 where
  pub phone : Text
  pub nas : Text
  pub port : Text
  pub time : Text

-- The fields that authentication and authorization read. Times are `time_t`.
pub record DbUser : Type 0 where
  pub username : Text
  pub authsrc : Text
  pub password : Text
  pub enable : Text
  pub opened : ℕ
  pub closed : ℕ
  pub avps : List UserAvp
  pub cmds : List CmdAvp
  pub accs : List DbUserAcc
  pub result : Bool
  pub maxsess : ℤ

-- `db_user()`.
abbrev pub new_user : DbUser
new_user = record {
  username = [];
  authsrc = [];
  password = [];
  enable = [];
  opened = 0;
  closed = 0;
  avps = [];
  cmds = [];
  accs = [];
  result = false;
  maxsess = pos 0;
}

abbrev pub compare_service : UserAvp → Text → Bool
compare_service a s = str_eq a.service s

abbrev pub compare_protocol : UserAvp → Text → Bool
compare_protocol a s = str_eq a.protocol s

-- Out of range the value is `user_avp()`.
unfoldable pub avp_get : DbUser → ℕ → UserAvp
avp_get d s = elim (get_elem? d.avps s) [
  | none ↦ record { service = []; protocol = []; avp = [] }
  | some a ↦ a
]

unfoldable pub erase_at {ℓ} : {A : Type ℓ} → ℕ → List A → List A
erase_at n [] = []
erase_at zero (x ∷ xs) = xs
erase_at (suc n) (x ∷ xs) = x ∷ erase_at n xs

-- The pair at that place is erased, and the new one put at the end.
unfoldable pub avp_set : DbUser → ℕ → UserAvp → DbUser
unfolding erase_at
avp_set d s a = record d { avps = erase_at s d.avps ++ a ∷ [] }
