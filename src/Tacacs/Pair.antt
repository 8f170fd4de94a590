-- ===== src/Tacacs/Pair.antt =====
-- Attribute-value pairs as text: `attr=value` is mandatory, `attr*value` optional. The helpers of
-- `TacacsServerAuthorization`.
use tacppd.Common.{ℕ, Bool, true, false, ◌||◌, ◌&&◌, [], ◌∷◌, Text, str_eq, if◌then◌else◌, ◌==◌}

unfoldable pub optional : Text → Bool
optional [] = false
optional (c ∷ s) = if c == b'*' then true else optional s

unfoldable pub mandatory : Text → Bool
mandatory [] = false
mandatory (c ∷ s) = if c == b'=' then true else mandatory s

abbrev pub is_sep : ℕ → Bool
is_sep c = (c == b'=') || (c == b'*')

-- The attributes agree up to a separator on both sides.
unfoldable pub match_attr : Text → Text → Bool
match_attr [] s2 = false
match_attr (a ∷ s1) [] = false
match_attr (a ∷ s1) (b ∷ s2) =
    if is_sep a && is_sep b then true else if a == b then match_attr s1 s2 else false

-- What stands from the separator on.
unfoldable pub from_sep : Text → Text
from_sep [] = []
from_sep (c ∷ s) = if is_sep c then c ∷ s else from_sep s

unfoldable pub match_value : Text → Text → Bool
unfolding from_sep
match_value s1 s2 = str_eq (from_sep s1) (from_sep s2)

-- What stands behind the separator.
unfoldable pub get_value : Text → Text
get_value [] = []
get_value (c ∷ s) = if is_sep c then s else get_value s
