-- ===== src/Access/Examples.antt =====
-- Runs of the access lists, and each theorem at an input that meets its hypotheses. The patterns are
-- plain texts, which match themselves.
use tacppd.Common.{◌≡◌, refl, ◌↔◌, true, false, [], ◌∷◌, codes, str_eq, any}
use tacppd.Common.Int.{pos}
use tacppd.Access.Entry.{Regex, AclEntry, fires, check_permit, check_deny}
use tacppd.Access.Data.{AclData}
use tacppd.Access.Data
use tacppd.Access.Rules.{IsPermitted, check_iff}
use tacppd.Access.Numbers.{IsDistinct}
use tacppd.Access.Config.{Request, no_deny, verb}
use tacppd.Access.{CoreAccess, check, buildcfstr}

abbrev exact : Regex
exact = record { compiles = λ p. true; matches = λ p s. str_eq p s }

abbrev guest : AclEntry
guest = record { permit = []; deny = codes "guest" }

abbrev admin : AclEntry
admin = record { permit = codes "admin"; deny = [] }

abbrev office : AclData
office = record { number = pos 5; acl = guest ∷ admin ∷ [] }

abbrev lists : CoreAccess
lists = record { acls = office ∷ Data.new (pos 7) ∷ [] }

lists-IsDistinct : IsDistinct lists
unfolding any
lists-IsDistinct = (refl, (refl, tt))

admin_passes : check exact lists (pos 5) (codes "admin") ≡ true
unfolding check Data.check check_deny check_permit fires str_eq
admin_passes = refl

office_text : buildcfstr lists 0 ≡ codes " access 5\n  deny guest\n  permit admin\n  exit"
unfolding buildcfstr Data.buildcfstr
office_text = refl

check_iff_example :
    (Data.check exact office (codes "admin") ≡ true) ↔ IsPermitted exact (codes "admin") office.acl
check_iff_example = check_iff exact (codes "admin") office

root_is_new : any (Data.has_permit (codes "root")) office.acl ≡ false
unfolding any str_eq
root_is_new = refl

abbrev forget : Request
forget = record {
  cmdname = codes "confAccessIntNoDeny";
  param = codes "nobody";
  up_param = codes "5";
  cmd_param = codes "nobody";
}

forget_verb : verb forget.cmdname ≡ no_deny
unfolding verb str_eq
forget_verb = refl
