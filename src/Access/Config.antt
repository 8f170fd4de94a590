-- ===== src/Access/Config.antt =====
-- `CoreAccess::applycf`: the configuration commands on access lists.
use tacppd.Common.{
  ◌≡◌, Bool, false, List, [], ◌∷◌, ◌++◌, some, Text, codes, str_eq, arith, if◌then◌else◌, ◌⊎◌, ◌↔◌,
  any, is_empty,
}
use tacppd.Common.Int.{atoi}
use tacppd.Access.Numbers.{
  adds, adds_permit, adds_deny, dels, dels_permit, dels_deny, step, IsDistinct, step-IsDistinct,
}
use tacppd.Access.{CoreAccess, has_number, add, add_permit, add_deny, del, del_permit, del_deny}

-- The command's name, the first of its parameters, of those of the node above (`cmd->upNode`), and
-- of those of `cmd` itself.
pub record Request : Type 0 where
  pub cmdname : Text
  pub param : Text
  pub up_param : Text
  pub cmd_param : Text

abbrev reply : Text → CoreAccess × Bool → CoreAccess × Text
reply err (c, done) = (c, if done then [] else err)

-- `"% can not <what> "` with the rule's two parameters.
abbrev complain : Text → Request → Text
complain what r = codes "% can not " ++ (what ++ (r.up_param ++ (codes "in acl # " ++ r.cmd_param)))

pub data Verb : Type 0 where
  no_list node no_deny no_permit deny permit other : Verb

unfoldable pub verb : Text → Verb
verb cmdname =
    if str_eq cmdname (codes "confAccessNo")
    then no_list
    else if str_eq cmdname (codes "confAccessNode")
    then node
    else if str_eq cmdname (codes "confAccessIntNoDeny")
    then no_deny
    else if str_eq cmdname (codes "confAccessIntNoPermit")
    then no_permit
    else if str_eq cmdname (codes "confAccessDeny")
    then deny
    else if str_eq cmdname (codes "confAccessPermit")
    then permit
    else other

unfoldable pub perform : CoreAccess → Verb → Request → CoreAccess × Text
perform c no_list r = reply (codes "% can not delete acl # " ++ r.param) (del c (atoi r.param))
perform c node r = (add c (atoi r.param), [])
perform c no_deny r =
    reply (complain (codes "delete deny rule ") r) (del_deny c (atoi r.up_param) (some r.param))
perform c no_permit r =
    reply (complain (codes "delete permit rule ") r) (del_permit c (atoi r.up_param) (some r.param))
perform c deny r =
    reply (complain (codes "add deny rule ") r) (add_deny c (atoi r.up_param) (some r.param))
perform c permit r =
    reply (complain (codes "add permit rule ") r) (add_permit c (atoi r.up_param) (some r.param))
perform c other r = (c, [])

unfoldable pub applycf : CoreAccess → Request → CoreAccess × Text
applycf c r = perform c (verb r.cmdname) r

unfoldable pub configure : CoreAccess → List Request → CoreAccess
configure c [] = c
configure c (r ∷ rs) = configure (applycf c r).0 rs

perform-IsDistinct :
    (c : CoreAccess) (v : Verb) (r : Request) → IsDistinct c → IsDistinct (perform c v r).0
unfolding perform step
perform-IsDistinct c no_list r h = step-IsDistinct c (dels (atoi r.param)) h
perform-IsDistinct c node r h = step-IsDistinct c (adds (atoi r.param)) h
perform-IsDistinct c no_deny r h = step-IsDistinct c (dels_deny (atoi r.up_param) (some r.param)) h
perform-IsDistinct c no_permit r h =
    step-IsDistinct c (dels_permit (atoi r.up_param) (some r.param)) h
perform-IsDistinct c deny r h = step-IsDistinct c (adds_deny (atoi r.up_param) (some r.param)) h
perform-IsDistinct c permit r h = step-IsDistinct c (adds_permit (atoi r.up_param) (some r.param)) h
perform-IsDistinct c other r h = h

-- No sequence of configuration commands makes two lists of one number.
pub configure-IsDistinct :
    (c : CoreAccess) (rs : List Request) → IsDistinct c → IsDistinct (configure c rs)
unfolding configure applycf
configure-IsDistinct c [] h = h
configure-IsDistinct c (r ∷ rs) h =
    configure-IsDistinct (applycf c r).0 rs (perform-IsDistinct c (verb r.cmdname) r h)

-- A command replies with an error exactly when it deletes a list, or a rule, under a number that has
-- no list. So the deletion of a rule that a list does not hold gets no error, and no addition does.
pub perform_refused :
    (c : CoreAccess) (v : Verb) (r : Request)
    → (is_empty (perform c v r).1 ≡ false) ↔ (
        ((v ≡ no_list) × (any (has_number (atoi r.param)) c.acls ≡ false))
        ⊎ (((v ≡ no_deny) ⊎ (v ≡ no_permit)) × (any (has_number (atoi r.up_param)) c.acls ≡ false)))
unfolding perform del add_permit add_deny del_permit del_deny
perform_refused c no_list r = ground arith
perform_refused c node r = ground arith
perform_refused c no_deny r = ground arith
perform_refused c no_permit r = ground arith
perform_refused c deny r = ground arith
perform_refused c permit r = ground arith
perform_refused c other r = ground arith
