-- ===== src/Tacacs/Author.antt =====
-- Authorization: what `TacacsSessionContainer::process` answers to a request that was read whole.
-- `authoriz` is the device's default authorization, and the user's entry is what `db_authorization`
-- gave. The counters stand at 0 and the reply is empty, as for the first request of a session. The
-- reply's array has room for 100 pairs in the source; here it is a list without that bound.
pub mod Commands
pub mod Backed
pub mod Replies
pub mod Cover
pub mod Lost
mod Examples
use tacppd.Common.{
  ℕ, zero, suc, ◌+◌, Bool, true, false, not, ◌||◌, ◌&&◌, Option, none, some, List, [], ◌∷◌, ◌++◌,
  Text, codes, is_empty, str_eq, if◌then◌else◌, any, find, drop, take, length,
}
use tacppd.Common.Prefix.{scomp_n}
use tacppd.Access.Entry.{Regex}
use tacppd.User.{UserAvp, CmdAvp, DbUser, compare_service, compare_protocol}
use tacppd.Tacacs.Pair.{optional, mandatory, match_attr, match_value, get_value}

-- A pattern that is there, compiles and matches.
unfoldable pub hit : Regex → Text → Text → Bool
hit rx pattern_ value =
    if is_empty pattern_
    then false
    else if rx.compiles pattern_
    then rx.matches pattern_ value
    else false

-- flag1 and flag2: some `cmdperm` matches, and no `cmddeny`.
unfoldable pub cmd_allowed : Regex → List CmdAvp → Text → Bool
cmd_allowed rx cmds value =
    if any (λ c. hit rx c.cmddeny value) cmds then false else any (λ c. hit rx c.cmdperm value) cmds

-- flag3 and flag4, for an argument of a command.
unfoldable pub arg_allowed : Regex → List CmdAvp → Text → Bool
arg_allowed rx cmds value =
    if any (λ c. hit rx c.argdeny value) cmds then false else any (λ c. hit rx c.argperm value) cmds

-- `bavpair`, `added` and `replaced`.
pub record Review : Type 0 where
  pub bavpair : List Text
  pub added : ℕ
  pub replaced : ℕ

abbrev pub keep : Text → Review → Review
keep p r = record r { bavpair = r.bavpair ++ p ∷ [] }

abbrev pub replace : Text → Review → Review
replace p r = record r { bavpair = r.bavpair ++ p ∷ []; replaced = r.replaced + 1 }

-- Cases a) to d): the device's pair is mandatory.
unfoldable pub allows_mandatory : Text → UserAvp → Bool
allows_mandatory nas_avp a = str_eq a.avp nas_avp || (match_attr a.avp nas_avp && optional a.avp)

unfoldable pub review_mandatory : Bool → List UserAvp → Text → Review → Option Review
review_mandatory authoriz avps nas_avp r =
    if any (allows_mandatory nas_avp) avps
    then some (keep nas_avp r)
    else if authoriz
    then some (keep nas_avp r)
    else none

-- Cases e) to j): it is optional.
abbrev pub case_f : Text → UserAvp → Bool
case_f nas_avp a = mandatory a.avp && match_attr nas_avp a.avp

abbrev pub case_g : Text → UserAvp → Bool
case_g nas_avp a = not (mandatory a.avp) && (match_attr nas_avp a.avp && match_value nas_avp a.avp)

abbrev pub case_h : Text → UserAvp → Bool
case_h nas_avp a = not (mandatory a.avp) && match_attr nas_avp a.avp

unfoldable pub review_default : Bool → Text → Review → Review
review_default authoriz nas_avp r =
    if authoriz then replace nas_avp r else record r { replaced = r.replaced + 1 }

unfoldable pub from_db : Option UserAvp → Review → Review → Review
from_db none other r = other
from_db (some a) other r = replace a.avp r

unfoldable pub review_optional : Bool → List UserAvp → Text → Review → Review
unfolding from_db review_default
review_optional authoriz avps nas_avp r =
    if any (λ a. str_eq nas_avp a.avp) avps
    then keep nas_avp r
    else from_db (find (case_f nas_avp) avps)
        (from_db (find (case_g nas_avp) avps)
          (from_db (find (case_h nas_avp) avps) (review_default authoriz nas_avp r) r) r)
        r

-- One pair that the device sent. `none` refuses the whole request.
unfoldable pub review_arg : Regex → Bool → DbUser → Text → Review → Option Review
review_arg rx authoriz d nas_avp r =
    if is_empty nas_avp
    then some r
    else if match_attr nas_avp (codes "cmd=")
    then (if cmd_allowed rx d.cmds (get_value nas_avp) then some r else none)
    else if match_attr nas_avp (codes "cmd-arg=")
    then (if str_eq (codes "cmd-arg=<cr>") nas_avp
        then some r
        else if arg_allowed rx d.cmds (get_value nas_avp)
        then some r
        else none)
    else if mandatory nas_avp
    then review_mandatory authoriz d.avps nas_avp r
    else some (review_optional authoriz d.avps nas_avp r)

unfoldable pub review_args : Regex → Bool → DbUser → List Text → Review → Option Review
review_args rx authoriz d [] r = some r
review_args rx authoriz d (p ∷ ps) r = elim (review_arg rx authoriz d p r) [
  | none ↦ none
  | some r' ↦ review_args rx authoriz d ps r'
]

-- Case k): what the database asks for and the reply does not have yet.
unfoldable pub is_missing : Text → Text → List Text → UserAvp → Bool
is_missing service protocol bavpair a =
    if not (compare_service a service)
    then false
    else if not (compare_protocol a protocol)
    then false
    else if optional a.avp
    then false
    else if any (match_attr a.avp) bavpair
    then false
    else not (is_empty a.avp)

unfoldable pub add_missing : Text → Text → List UserAvp → Review → Review
add_missing service protocol [] r = r
add_missing service protocol (a ∷ avps) r = add_missing service protocol avps (
    if is_missing service protocol r.bavpair a
    then record r { bavpair = r.bavpair ++ a.avp ∷ []; added = r.added + 1 }
    else r)

-- TAC_PLUS_AUTHOR_STATUS_FAIL, PASS_ADD and PASS_REPL.
pub data Response : Type 0 where
  fail : Response
  pass_add pass_repl : List Text → Response

unfoldable pub nonempty : List Text → List Text
nonempty [] = []
nonempty ([] ∷ ps) = nonempty ps
nonempty ((c ∷ s) ∷ ps) = (c ∷ s) ∷ nonempty ps

-- `num_in` counts the device's pairs: so many of the reply's are left out of a PASS_ADD.
unfoldable pub respond : ℕ → Review → Response
unfolding nonempty
respond num_in r = elim r.replaced [
  | suc n ↦ pass_repl r.bavpair
  | zero ↦ elim r.added [ suc m ↦ pass_add (nonempty (drop num_in r.bavpair)) | zero ↦ pass_add [] ]
]

unfoldable pub finish : DbUser → Text → Text → ℕ → Option Review → Response
unfolding add_missing is_missing respond
finish d service protocol num_in none = fail
finish d service protocol num_in (some r) = respond num_in (add_missing service protocol d.avps r)

-- With the service known: the user has a pair for it, whatever the protocol, or is refused.
unfoldable pub review_service :
    Regex → Bool → DbUser → Text → Text → ℕ → List Text → List Text → Response
unfolding finish
review_service rx authoriz d service protocol num_in copied args =
    if any (λ a. compare_service a service) d.avps
    then finish d service protocol num_in
        (review_args rx authoriz d args (record { bavpair = copied; added = 0; replaced = 0 }))
    else fail

-- A `protocol=` pair may follow the `service=` pair.
unfoldable pub review_request : Regex → Bool → DbUser → Text → List Text → Response
unfolding review_service
review_request rx authoriz d first [] =
    review_service rx authoriz d (drop 8 first) [] 1 (first ∷ []) []
review_request rx authoriz d first (second ∷ args) =
    if scomp_n second (codes "protocol=") 9
    then review_service rx authoriz d (drop 8 first) (drop 9 second) (2 + length args)
        (first ∷ second ∷ []) args
    else review_service rx authoriz d (drop 8 first) [] (2 + length args) (first ∷ [])
        (second ∷ args)

abbrev avp_texts : List UserAvp → List Text
avp_texts [] = []
avp_texts (a ∷ avps) = a.avp ∷ avp_texts avps

-- The whole answer. A request with no pair at all gets the user's pairs, at most 100.
unfoldable pub authorize : Regex → Bool → DbUser → List Text → Response
unfolding review_request
authorize rx authoriz d [] =
    if d.result then pass_add (take 100 (nonempty (avp_texts d.avps))) else fail
authorize rx authoriz d (first ∷ args) =
    if not d.result
    then fail
    else if scomp_n first (codes "service=") 8
    then review_request rx authoriz d first args
    else fail
