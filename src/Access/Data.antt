-- ===== src/Access/Data.antt =====
-- One access list and its operations: `Acl_data` in src/CoreAccess.cc.
use tacppd.Common.{
  Bool, true, false, none, some, List, [], ◌∷◌, ◌++◌, Text, CString, codes, str_eq, if◌then◌else◌,
  any, erase_first,
}
use tacppd.Common.Int.{ℤ, show_int}
use tacppd.Access.Entry.{Regex, AclEntry, check_permit, check_deny}

-- `class Acl_data`.
pub record AclData : Type 0 where
  pub number : ℤ
  pub acl : List AclEntry

abbrev pub new : ℤ → AclData
new num = record { number = num; acl = [] }

unfoldable pub check_entries : Regex → List AclEntry → Text → Bool
check_entries rx [] s = false
check_entries rx (e ∷ es) s =
    if check_deny rx e s
    then (if check_permit rx e s then true else check_entries rx es s)
    else false

unfoldable pub check : Regex → AclData → Text → Bool
unfolding check_entries
check rx d s = check_entries rx d.acl s

unfoldable pub add_permit : AclData → CString → AclData × Bool
add_permit d none = (d, false)
add_permit d (some []) = (d, false)
add_permit d (some (c ∷ p)) =
    (record d { acl = d.acl ++ record { permit = c ∷ p; deny = [] } ∷ [] }, true)

unfoldable pub add_deny : AclData → CString → AclData × Bool
add_deny d none = (d, false)
add_deny d (some []) = (d, false)
add_deny d (some (c ∷ p)) =
    (record d { acl = d.acl ++ record { permit = []; deny = c ∷ p } ∷ [] }, true)

abbrev pub has_permit : Text → AclEntry → Bool
has_permit p e = str_eq e.permit p

abbrev pub has_deny : Text → AclEntry → Bool
has_deny p e = str_eq e.deny p

unfoldable pub del_permit : AclData → CString → AclData × Bool
del_permit d none = (d, false)
del_permit d (some []) = (d, false)
del_permit d (some (c ∷ p)) =
    (record d { acl = erase_first (has_permit (c ∷ p)) d.acl }, any (has_permit (c ∷ p)) d.acl)

unfoldable pub del_deny : AclData → CString → AclData × Bool
del_deny d none = (d, false)
del_deny d (some []) = (d, false)
del_deny d (some (c ∷ p)) =
    (record d { acl = erase_first (has_deny (c ∷ p)) d.acl }, any (has_deny (c ∷ p)) d.acl)

unfoldable pub line : Text → Text → Text
line word [] = []
line word (c ∷ s) = codes "  " ++ word ++ codes " " ++ (c ∷ s) ++ (0x0a ∷ [])

unfoldable pub entry_lines : List AclEntry → Text
unfolding line
entry_lines [] = []
entry_lines (e ∷ es) =
    line (codes "permit") e.permit ++ line (codes "deny") e.deny ++ entry_lines es

unfoldable pub buildcfstr : AclData → Text
unfolding entry_lines show_int
buildcfstr d =
    codes " access " ++ show_int d.number ++ (0x0a ∷ []) ++ entry_lines d.acl ++ codes "  exit"
