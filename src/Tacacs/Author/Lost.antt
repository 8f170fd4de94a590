-- ===== src/Tacacs/Author/Lost.antt =====
-- What a reply of status PASS_ADD leaves out.
use tacppd.Common.{
  ◌≡◌, ◌≢◌, refl, sym, ◌∙◌, ℕ, zero, suc, ◌+◌, Bool, true, false, ◌||◌, none, some, List, [], ◌∷◌,
  ◌++◌, Text, codes, any, arith, if◌then◌else◌, Bool-cases, inl, inr, ◌⊎◌, drop, length, All,
  str_eq,
}
use mathlib.Core.List.{append-nil, append_assoc}
use tacppd.Common.Prefix.{scomp_n}
use tacppd.Access.Entry.{Regex}
use tacppd.User.{UserAvp, DbUser, compare_service}
use tacppd.Tacacs.Pair.{match_attr}
use tacppd.Tacacs.Author.{
  Review, fail, pass_add, review_arg, review_args, review_service, review_request, authorize,
  finish, add_missing, is_missing, respond, nonempty,
}

-- The user's pairs that a reply is still to get, behind those that it has.
unfoldable pub missing : Text → Text → List Text → List UserAvp → List Text
missing service protocol have [] = []
missing service protocol have (a ∷ avps) =
    let later = missing service protocol (have ++ a.avp ∷ []) avps in
    let others = missing service protocol have avps in
    if is_missing service protocol have a then a.avp ∷ later else others

-- A command, or an argument of one.
unfoldable pub is_command : Text → Bool
is_command p = match_attr p (codes "cmd=") || match_attr p (codes "cmd-arg=")

drop-nil : (n : ℕ) → drop {A = Text} n [] ≡ []
drop-nil zero = refl
drop-nil (suc n) = refl

add_missing-bavpair :
    (service protocol : Text) (avps : List UserAvp) (r : Review)
    → (add_missing service protocol avps r).bavpair
      ≡ r.bavpair ++ missing service protocol r.bavpair avps
unfolding add_missing missing
add_missing-bavpair service protocol [] r = sym (append-nil r.bavpair)
add_missing-bavpair service protocol (a ∷ avps) r =
    elim (Bool-cases (is_missing service protocol r.bavpair a)) [
      | inl e ↦
          rw (add_missing, missing, e)
            (add_missing-bavpair service protocol avps _
              ∙ append_assoc r.bavpair (a.avp ∷ [])
                  (missing service protocol (r.bavpair ++ a.avp ∷ []) avps))
      | inr e ↦ rw (add_missing, missing, e) (add_missing-bavpair service protocol avps r)
    ]

add_missing-counts :
    (service protocol : Text) (avps : List UserAvp) (r : Review)
    → ((add_missing service protocol avps r).added
        ≡ r.added + length (missing service protocol r.bavpair avps))
      × ((add_missing service protocol avps r).replaced ≡ r.replaced)
unfolding add_missing missing
add_missing-counts service protocol [] r = (omega arith, refl)
add_missing-counts service protocol (a ∷ avps) r =
    elim (Bool-cases (is_missing service protocol r.bavpair a)) [
      | inl e ↦
          let more : Review = record r { bavpair = r.bavpair ++ a.avp ∷ []; added = r.added + 1 } in
          let (count, same) = add_missing-counts service protocol avps more in
          rw (add_missing, missing, e) (omega (arith, count), same)
      | inr e ↦ rw (add_missing, missing, e) (add_missing-counts service protocol avps r)
    ]

-- Without replacements the reply leaves `num_in` of the pairs away.
respond-drop :
    (num_in n : ℕ) (first : Text) (m : List Text) (r : Review)
    → num_in ≡ suc n
    → r.bavpair ≡ first ∷ m
    → r.added ≡ length m
    → r.replaced ≡ 0
    → respond num_in r ≡ pass_add (nonempty (drop n m))
unfolding respond nonempty
respond-drop num_in n first [] r e b a k = rw (respond, k, a, drop-nil n) refl
respond-drop num_in n first (x ∷ m) r e b a k = rw (respond, k, a, b, e) refl

module _ (rx : Regex) (authoriz : Bool) (d : DbUser) where
  review_arg_command :
      (p : Text) (r : Review)
      → is_command p ≡ true
      → (review_arg rx authoriz d p r ≡ none) ⊎ (review_arg rx authoriz d p r ≡ some r)
  unfolding review_arg is_command
  review_arg_command p r h = ground arith

  review_args_commands :
      (ps : List Text) (r : Review)
      → All (λ p. is_command p ≡ true) ps
      → (review_args rx authoriz d ps r ≡ none) ⊎ (review_args rx authoriz d ps r ≡ some r)
  unfolding review_args
  review_args_commands [] r h = inr refl
  review_args_commands (p ∷ ps) r h =
      ground (arith, review_arg_command p r h.0, review_args_commands ps r h.1)

  -- The protocol is empty in what follows.
  review_service_commands :
      (service first : Text) (args : List Text)
      → All (λ p. is_command p ≡ true) args
      → review_service rx authoriz d service [] (1 + length args) (first ∷ []) args ≢ fail
      → review_service rx authoriz d service [] (1 + length args) (first ∷ []) args
        ≡ pass_add (nonempty (drop (length args) (missing service [] (first ∷ []) d.avps)))
  unfolding review_service finish
  review_service_commands service first args cmds h =
      let start : Review = record { bavpair = first ∷ []; added = 0; replaced = 0 } in
      elim (Bool-cases (any (λ a. compare_service a service) d.avps)) [
        | inr s ↦ absurd (ground (arith, s))
        | inl s ↦ elim (review_args_commands args start cmds) [
          | inl e ↦ absurd (ground (arith, s, e))
          | inr e ↦
              rw (review_service, s, e)
                (respond-drop (1 + length args) (length args) first
                  (missing service [] (first ∷ []) d.avps) (add_missing service [] d.avps start)
                  (omega arith) (add_missing-bavpair service [] d.avps start)
                  (omega (arith, (add_missing-counts service [] d.avps start).0))
                  (add_missing-counts service [] d.avps start).1)
        ]
      ]

  command_no_protocol : (p : Text) → is_command p ≡ true → scomp_n p (codes "protocol=") 9 ≡ false
  unfolding is_command match_attr scomp_n str_eq
  command_no_protocol [] h = refl
  command_no_protocol (c ∷ p) h = ground arith

  -- A request of a `service=` pair and `n` command pairs behind it, if it is not refused, is
  -- answered with the missing pairs of the user without the first `n` of them.
  pub authorize_loses :
      (first : Text) (args : List Text)
      → All (λ p. is_command p ≡ true) args
      → authorize rx authoriz d (first ∷ args) ≢ fail
      → authorize rx authoriz d (first ∷ args)
        ≡ pass_add (nonempty (drop (length args) (missing (drop 8 first) [] (first ∷ []) d.avps)))
  unfolding authorize review_request
  authorize_loses first [] cmds h =
      ground (arith, review_service_commands (drop 8 first) first [] cmds)
  authorize_loses first (p ∷ args) cmds h = ground (
    arith,
    command_no_protocol p cmds.0,
    review_service_commands (drop 8 first) first (p ∷ args) cmds,
  )
