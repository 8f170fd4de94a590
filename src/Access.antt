-- ===== src/Access.antt =====
-- Access lists: src/CoreAccess.cc and src/CoreAccess.h.
-- An entry permits or denies by an extended regular expression; a list is walked in order. The
-- mutexes are left out: each public method runs whole under the lock of its object.
pub mod Entry
pub mod Data
pub mod Numbers
pub mod Decisions
pub mod Rules
pub mod Edits
pub mod Config
mod Examples
use tacppd.Common.{
  ℕ, Bool, true, false, none, some, List, [], ◌∷◌, ◌++◌, Text, CString, if◌then◌else◌, any,
  update_first, erase_all, get_elem?,
}
use tacppd.Common.Int.{ℤ, int_eq}
use Entry.{Regex}
use Data.{AclData}
use Data

-- `class CoreAccess`.
pub record CoreAccess : Type 0 where
  pub acls : List AclData

abbrev pub has_number : ℤ → AclData → Bool
has_number p d = int_eq d.number p

unfoldable pub add : CoreAccess → ℤ → CoreAccess
add c n = if any (has_number n) c.acls then c else record { acls = c.acls ++ Data.new n ∷ [] }

-- The change is made in the first list of that number; where there is none, a new list is made,
-- changed, and put at the end.
unfoldable pub touch_or_make : CoreAccess → ℤ → (AclData → AclData) → CoreAccess
touch_or_make c p f =
    if any (has_number p) c.acls
    then record { acls = update_first (has_number p) f c.acls }
    else record { acls = c.acls ++ f (Data.new p) ∷ [] }

-- The result of the call on the list is dropped, and `true` is returned.
unfoldable pub add_permit : CoreAccess → ℤ → CString → CoreAccess × Bool
add_permit c p r = (touch_or_make c p (λ d. (Data.add_permit d r).0), true)

unfoldable pub add_deny : CoreAccess → ℤ → CString → CoreAccess × Bool
add_deny c p r = (touch_or_make c p (λ d. (Data.add_deny d r).0), true)

unfoldable pub del : CoreAccess → ℤ → CoreAccess × Bool
del c p = (record { acls = erase_all (has_number p) c.acls }, any (has_number p) c.acls)

unfoldable pub del_permit : CoreAccess → ℤ → CString → CoreAccess × Bool
del_permit c p r = (
  record { acls = update_first (has_number p) (λ d. (Data.del_permit d r).0) c.acls },
  any (has_number p) c.acls,
)

unfoldable pub del_deny : CoreAccess → ℤ → CString → CoreAccess × Bool
del_deny c p r = (
  record { acls = update_first (has_number p) (λ d. (Data.del_deny d r).0) c.acls },
  any (has_number p) c.acls,
)

-- The walk goes on past a list of that number which does not permit.
unfoldable pub check_lists : Regex → List AclData → ℤ → Text → Bool
check_lists rx [] p r = false
check_lists rx (d ∷ ds) p r =
    if int_eq d.number p
    then (if Data.check rx d r then true else check_lists rx ds p r)
    else check_lists rx ds p r

unfoldable pub check : Regex → CoreAccess → ℤ → Text → Bool
unfolding check_lists
check rx c p r = check_lists rx c.acls p r

unfoldable pub buildcfstr : CoreAccess → ℕ → Text
buildcfstr c n = elim (get_elem? c.acls n) [ none ↦ [] | some d ↦ Data.buildcfstr d ]
