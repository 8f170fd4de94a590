-- ===== src/Access/Entry.antt =====
-- One rule of an access list: `Acl_entry` in src/CoreAccess.cc.
use tacppd.Common.{Bool, false, not, Text, is_empty, if◌then◌else◌, take}

-- `regcomp` and `regexec` of the C library, with `REG_EXTENDED`: whether a pattern compiles, and
-- whether the compiled pattern matches a text.
pub record Regex : Type 0 where
  pub compiles : Text → Bool
  pub matches : Text → Text → Bool

pub record AclEntry : Type 0 where
  pub permit : Text
  pub deny : Text

-- `snprintf(s,sizeof(s)-1,"%s",..)` into a buffer of 300 bytes keeps 298 of them.
abbrev pub clip : Text → Text
clip s = take 298 s

-- `strlen(p) > 0`, the pattern compiles, and it matches.
unfoldable pub fires : Regex → Text → Text → Bool
fires rx p s =
    if is_empty (clip p)
    then false
    else if rx.compiles (clip p)
    then rx.matches (clip p) (clip s)
    else false

unfoldable pub check_permit : Regex → AclEntry → Text → Bool
check_permit rx e st = fires rx e.permit st

-- False where the rule denies.
unfoldable pub check_deny : Regex → AclEntry → Text → Bool
check_deny rx e st = not (fires rx e.deny st)
