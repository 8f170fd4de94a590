-- ===== src/Aaa.antt =====
-- Authentication against the database: `AAA::cpass` and `AAA::db_authentication`, src/AAA.cc.
-- The user's entry (`userTrack.get2add`), the number of its open sessions (`numsess`), the time and
-- the device's address as text are arguments; the time test of a row (`utl::check_time`), the MD5
-- digest and the regular expressions are parameters.
pub mod Password
pub mod Sources
pub mod Grant
mod Examples
use tacppd.Common.{
  ℕ, ◌-◌, ◌+◌, Bool, true, false, not, List, [], ◌∷◌, ◌++◌, Text, codes, is_empty, str_eq,
  if◌then◌else◌, leb, ltb, ◌==◌, take, drop, length, ◌&&◌, ◌||◌,
}
use tacppd.Common.Int.{ℤ, pos, int_eq, int_lt}
use tacppd.Common.Prefix.{scomp_n}
use tacppd.Access.Entry.{Regex}
use tacppd.User.{DbUser, DbUserAcc}

-- The regular expressions, MD5, and the clock behind `utl::check_time`.
pub record Tools : Type 0 where
  pub regex : Regex
  pub md5 : List ℕ → List ℕ
  pub check_time : Text → Bool

-- A copy into a buffer of DB_PASSWORD_LEN bytes.
abbrev pub clip : Text → Text
clip s = take 49 s

-- `md5(id + secret + challenge)` against the last 16 bytes. `first` is the answer's first byte.
unfoldable pub chap : Tools → Text → Text → Bool
chap t pwduser [] = false
chap t pwduser (first ∷ rest) =
    if ltb (length rest) 16
    then false
    else let n = length rest - 16 in str_eq (t.md5 (first ∷ pwduser ++ take n rest)) (drop n rest)

unfoldable pub cpass : Tools → Text → Text → Bool
unfolding chap
cpass t pwdu pwdn =
    if is_empty pwdu
    then false
    else if is_empty pwdn
    then false
    else if str_eq pwdu pwdn
    then true
    else chap t (clip pwdu) (clip pwdn)

-- The test of a password by the user's `authsrc`.
unfoldable pub check_password : Tools → DbUser → Text → Text → Bool
check_password t d password enable =
    if scomp_n d.authsrc (codes "db") 2
    then (if str_eq password (codes "(null)")
        then false
        else if cpass t d.password password
        then true
        else cpass t d.enable enable)
    else if scomp_n d.authsrc (codes "cpwd") 4
    then (if str_eq d.password password then true else str_eq d.enable enable)
    else if scomp_n d.authsrc (codes "ccf") 3
    then true
    else if scomp_n d.authsrc (codes "ccd") 3
    then true
    else scomp_n d.authsrc (codes "nopwd") 5

-- Where a request comes from.
pub record Origin : Type 0 where
  pub rem_addr : Text
  pub nas : Text
  pub port : Text

unfoldable pub hits : Regex → Text → Text → Bool
hits rx p s = if rx.compiles p then rx.matches p s else false

-- flag1 .. flag4, which keep their values from row to row.
pub record Flags : Type 0 where
  pub flag1 : Bool
  pub flag2 : Bool
  pub flag3 : Bool
  pub flag4 : Bool

unfoldable pub row_phone : Tools → Origin → DbUserAcc → Bool
row_phone t o a = hits t.regex a.phone o.rem_addr

unfoldable pub row_nas : Tools → Origin → DbUserAcc → Bool
row_nas t o a = hits t.regex a.nas o.nas

unfoldable pub row_port : Tools → Origin → DbUserAcc → Bool
row_port t o a = if is_empty o.port then true else hits t.regex a.port o.port

unfoldable pub row_time : Tools → Origin → DbUserAcc → Bool
row_time t o a = if is_empty a.time then true else t.check_time a.time

unfoldable pub raise : Tools → Origin → DbUserAcc → Flags → Flags
raise t o a f = record {
  flag1 = row_phone t o a || f.flag1;
  flag2 = row_nas t o a || f.flag2;
  flag3 = row_port t o a || f.flag3;
  flag4 = row_time t o a || f.flag4;
}

abbrev pub all_up : Flags → Bool
all_up f = f.flag1 && (f.flag2 && (f.flag3 && f.flag4))

-- The loop over the rows; `flag` is what it was before the row.
unfoldable pub check_rows : Tools → Origin → Bool → Flags → List DbUserAcc → Bool
check_rows t o flag f [] = flag
check_rows t o flag f (a ∷ rest) =
    let f' = raise t o a f in if all_up f' then true else check_rows t o false f' rest

abbrev no_flags : Flags
no_flags = record { flag1 = false; flag2 = false; flag3 = false; flag4 = false }

unfoldable pub sessions_left : DbUser → ℤ → Bool
sessions_left d numsess = if int_eq d.maxsess (pos 0) then true else int_lt numsess d.maxsess

-- A closing time of 100 or less counts as none.
unfoldable pub is_open : DbUser → ℕ → Bool
is_open d now =
    if ltb now d.opened then false else if ltb d.closed now then not (ltb 100 d.closed) else true

unfoldable pub db_authentication : Tools → DbUser → ℤ → ℕ → Origin → Text → Text → Bool
db_authentication t d numsess now o password enable =
    if not d.result
    then false
    else if not (sessions_left d numsess)
    then false
    else if not (is_open d now)
    then false
    else if not (check_password t d password enable)
    then false
    else check_rows t o true no_flags d.accs
