-- ===== src/Tacacs/Author/Examples.antt =====
-- Runs of the authorization, and each theorem at an input that meets its hypotheses. Patterns are
-- plain texts that match themselves.
use tacppd.Common.{
  ◌≡◌, ◌≢◌, refl, true, false, List, [], ◌∷◌, Text, codes, any, str_eq, All, drop, find, arith,
}
use tacppd.Common.Prefix.{scomp_n}
use tacppd.Access.Entry.{Regex}
use tacppd.User.{UserAvp, DbUser, new_user}
use tacppd.Tacacs.Pair.{match_attr, match_value, from_sep, get_value, optional, mandatory}
use tacppd.Tacacs.Author.{
  fail, pass_add, pass_repl, hit, authorize, nonempty, review_request, review_service, review_args,
  review_arg, review_optional, review_default, from_db, cmd_allowed, arg_allowed, add_missing,
  is_missing, respond, finish,
}
use tacppd.Tacacs.Author.Commands.{authorize-cmd}
use tacppd.Tacacs.Author.Replies.{authorize_backed}
use tacppd.Tacacs.Author.Backed.{pairs, named_pairs, is_backed}
use tacppd.Tacacs.Author.Cover.{covers, is_required, protocol_of, authorize-covers}
use tacppd.Tacacs.Author.Lost.{missing, is_command, authorize_loses}

abbrev rx : Regex
rx = record { compiles = λ p. true; matches = λ p s. str_eq p s }

abbrev privilege : UserAvp
privilege = record { service = codes "shell"; protocol = []; avp = codes "priv-lvl=15" }

abbrev idle : UserAvp
idle = record { service = codes "shell"; protocol = []; avp = codes "idletime=5" }

abbrev address : UserAvp
address = record { service = codes "ppp"; protocol = codes "ip"; avp = codes "addr=5" }

abbrev operator : DbUser
operator = record new_user {
  result = true;
  avps = privilege ∷ idle ∷ address ∷ [];
  cmds =
      record {
        cmdperm = codes "show";
        cmddeny = codes "reload";
        argperm = codes "version";
        argdeny = [];
      }
      ∷ [];
}

abbrev show_version : List Text
show_version = codes "cmd=show" ∷ codes "cmd-arg=version" ∷ []

abbrev addr_args : List Text
addr_args = codes "protocol=ip" ∷ codes "addr*1" ∷ []

-- A command request whose two added pairs are both lost.
show_is_bare : authorize rx false operator (codes "service=shell" ∷ show_version) ≡ pass_add []
unfolding authorize review_request review_service review_args review_arg cmd_allowed arg_allowed hit
    match_attr get_value scomp_n str_eq add_missing is_missing respond finish optional nonempty any
show_is_bare = refl

show_passes : authorize rx false operator (codes "service=shell" ∷ show_version) ≢ fail
show_passes e = absurd (ground (arith, show_is_bare))

reload_fails : authorize rx true operator (codes "service=shell" ∷ codes "cmd=reload" ∷ []) ≡ fail
unfolding authorize review_request review_service review_args review_arg cmd_allowed arg_allowed hit
    match_attr get_value scomp_n str_eq finish any
reload_fails = refl

address_is_set :
    authorize rx false operator (codes "service=ppp" ∷ addr_args)
    ≡ pass_repl (codes "service=ppp" ∷ codes "protocol=ip" ∷ codes "addr=5" ∷ [])
unfolding authorize review_request review_service review_args review_arg review_optional from_db
    match_attr scomp_n str_eq add_missing is_missing respond finish optional mandatory any find
    review_default match_value from_sep
address_is_set = refl

authorize-cmd_example :
    (any (λ c. hit rx c.cmdperm (get_value (codes "cmd=show"))) operator.cmds ≡ true)
    × (any (λ c. hit rx c.cmddeny (get_value (codes "cmd=show"))) operator.cmds ≡ false)
unfolding match_attr
authorize-cmd_example =
    authorize-cmd rx false operator (codes "service=shell") [] (codes "cmd=show")
      (codes "cmd-arg=version" ∷ []) refl show_passes

version_differs : codes "cmd-arg=version" ≢ codes "cmd-arg=<cr>"
version_differs e = absurd (ground arith)

authorize_backed_example :
    All
      (λ p. is_backed (named_pairs (codes "service=ppp" ∷ addr_args)) operator.avps p ≡ true)
      (pairs (authorize rx false operator (codes "service=ppp" ∷ addr_args)))
authorize_backed_example = authorize_backed rx operator (codes "service=ppp" ∷ addr_args)

authorize-covers_example :
    any (covers address) (codes "service=ppp" ∷ codes "protocol=ip" ∷ codes "addr=5" ∷ []) ≡ true
unfolding is_required protocol_of scomp_n str_eq optional
authorize-covers_example =
    authorize-covers rx false operator (codes "service=ppp") addr_args
      (codes "service=ppp" ∷ codes "protocol=ip" ∷ codes "addr=5" ∷ []) (privilege ∷ idle ∷ [])
      address [] refl refl address_is_set

authorize_loses_example :
    authorize rx false operator (codes "service=shell" ∷ show_version)
    ≡ pass_add
        (nonempty (drop 2 (missing (codes "shell") [] (codes "service=shell" ∷ []) operator.avps)))
unfolding is_command match_attr
authorize_loses_example =
    authorize_loses rx false operator (codes "service=shell") show_version (refl, (refl, tt))
      show_passes
