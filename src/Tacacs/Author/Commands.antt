-- ===== src/Tacacs/Author/Commands.antt =====
-- What stands behind a command that is let through.
use tacppd.Common.{
  ◌≡◌, ◌≢◌, refl, ℕ, Bool, true, false, some, List, [], ◌∷◌, ◌++◌, Text, codes, any, arith,
  Bool-cases, str_eq, inl, inr, Option-cases, is_empty, str_eq_iff, drop, length, ◌+◌,
}
use tacppd.Common.Prefix.{scomp_n}
use tacppd.Access.Entry.{Regex}
use tacppd.User.{DbUser}
use tacppd.Tacacs.Pair.{match_attr, get_value}
use tacppd.Tacacs.Author.{
  Review, fail, hit, cmd_allowed, arg_allowed, review_arg, review_args, review_service,
  review_request, authorize, finish,
}

-- A `cmd` pair is not a `protocol=` pair.
protocol_of_cmd :
    (p : Text) → match_attr p (codes "cmd=") ≡ true → scomp_n p (codes "protocol=") 9 ≡ false
unfolding match_attr scomp_n str_eq
protocol_of_cmd [] h = refl
protocol_of_cmd (c ∷ p) h = ground arith

protocol_of_arg :
    (p : Text) → match_attr p (codes "cmd-arg=") ≡ true → scomp_n p (codes "protocol=") 9 ≡ false
unfolding match_attr scomp_n str_eq
protocol_of_arg [] h = refl
protocol_of_arg (c ∷ p) h = ground arith

arg_not_cmd :
    (p : Text) → match_attr p (codes "cmd-arg=") ≡ true → match_attr p (codes "cmd=") ≡ false
unfolding match_attr
arg_not_cmd [] h = refl
arg_not_cmd (a ∷ []) h = ground arith
arg_not_cmd (a ∷ b ∷ []) h = ground arith
arg_not_cmd (a ∷ b ∷ c ∷ []) h = ground arith
arg_not_cmd (a ∷ b ∷ c ∷ e ∷ p) h = ground arith

empty_no_match : (p q : Text) → match_attr p q ≡ true → is_empty p ≡ false
unfolding match_attr
empty_no_match [] q h = absurd (ground arith)
empty_no_match (c ∷ p) q h = refl

module _ (rx : Regex) (authoriz : Bool) (d : DbUser) where
  -- A pair that some review does not refuse.
  abbrev Accepts : Text → Type 0
  Accepts p = (r : Review) × (r' : Review) × (review_arg rx authoriz d p r ≡ some r')

  review_args-Accepts :
      (before : List Text) (p : Text) (after : List Text) (r r' : Review)
      → review_args rx authoriz d (before ++ p ∷ after) r ≡ some r'
      → Accepts p
  unfolding review_args
  review_args-Accepts [] p after r r' h = elim (Option-cases (review_arg rx authoriz d p r)) [
    | inl e ↦ absurd (ground (arith, e))
    | inr (q, e) ↦ (r, q, e)
  ]
  review_args-Accepts (x ∷ before) p after r r' h =
      elim (Option-cases (review_arg rx authoriz d x r)) [
        | inl e ↦ absurd (ground (arith, e))
        | inr (q, e) ↦ review_args-Accepts before p after q r' (ground (arith, e))
      ]

  review_service-Accepts :
      (service protocol : Text) (n : ℕ) (copied before : List Text) (p : Text) (after : List Text)
      → review_service rx authoriz d service protocol n copied (before ++ p ∷ after) ≢ fail
      → Accepts p
  unfolding review_service finish
  review_service-Accepts service protocol n copied before p after h =
      let start : Review = record { bavpair = copied; added = 0; replaced = 0 } in
      elim (Option-cases (review_args rx authoriz d (before ++ p ∷ after) start)) [
        | inl e ↦ absurd (ground (arith, e))
        | inr (q, e) ↦ review_args-Accepts before p after start q e
      ]

  review_request-Accepts :
      (first : Text) (before : List Text) (p : Text) (after : List Text)
      → scomp_n p (codes "protocol=") 9 ≡ false
      → review_request rx authoriz d first (before ++ p ∷ after) ≢ fail
      → Accepts p
  unfolding review_request
  review_request-Accepts first [] p after np h =
      review_service-Accepts (drop 8 first) [] (2 + length after) (first ∷ []) [] p after
        (ground (arith, np))
  review_request-Accepts first (x ∷ before) p after np h =
      let n = 2 + length (before ++ p ∷ after) in
      elim (Bool-cases (scomp_n x (codes "protocol=") 9)) [
        | inl e ↦
            review_service-Accepts (drop 8 first) (drop 9 x) n (first ∷ x ∷ []) before p after
              (ground (arith, e))
        | inr e ↦
            review_service-Accepts (drop 8 first) [] n (first ∷ []) (x ∷ before) p after
              (ground (arith, e))
      ]

  authorize-Accepts :
      (first : Text) (before : List Text) (p : Text) (after : List Text)
      → scomp_n p (codes "protocol=") 9 ≡ false
      → authorize rx authoriz d (first ∷ before ++ p ∷ after) ≢ fail
      → Accepts p
  unfolding authorize
  authorize-Accepts first before p after np h =
      review_request-Accepts first before p after np (ground arith)

  review_arg-cmd :
      (p : Text) (r r' : Review)
      → match_attr p (codes "cmd=") ≡ true
      → review_arg rx authoriz d p r ≡ some r'
      → cmd_allowed rx d.cmds (get_value p) ≡ true
  unfolding review_arg
  review_arg-cmd p r r' m h = ground (arith, empty_no_match p (codes "cmd="))

  review_arg-cmd_arg :
      (p : Text) (r r' : Review)
      → match_attr p (codes "cmd-arg=") ≡ true
      → p ≢ codes "cmd-arg=<cr>"
      → review_arg rx authoriz d p r ≡ some r'
      → arg_allowed rx d.cmds (get_value p) ≡ true
  unfolding review_arg
  review_arg-cmd_arg p r r' m ne h = ground (
    arith,
    empty_no_match p (codes "cmd-arg="),
    arg_not_cmd p m,
    str_eq_iff (codes "cmd-arg=<cr>") p,
  )

  -- Whenever a request with a `cmd` pair is not refused, some permit pattern of the user's commands
  -- matches the command, and no deny pattern does.
  pub authorize-cmd :
      (first : Text) (before : List Text) (p : Text) (after : List Text)
      → match_attr p (codes "cmd=") ≡ true
      → authorize rx authoriz d (first ∷ before ++ p ∷ after) ≢ fail
      → (any (λ c. hit rx c.cmdperm (get_value p)) d.cmds ≡ true)
        × (any (λ c. hit rx c.cmddeny (get_value p)) d.cmds ≡ false)
  unfolding cmd_allowed
  authorize-cmd first before p after m h =
      let (r, r', e) = authorize-Accepts first before p after (protocol_of_cmd p m) h in
      let ok = review_arg-cmd p r r' m e in (ground arith, ground arith)

  -- Whenever a request with a `cmd-arg` pair other than `cmd-arg=<cr>` is not refused, some permit
  -- pattern for arguments matches it, and no deny pattern for arguments does.
  pub authorize-cmd_arg :
      (first : Text) (before : List Text) (p : Text) (after : List Text)
      → match_attr p (codes "cmd-arg=") ≡ true
      → p ≢ codes "cmd-arg=<cr>"
      → authorize rx authoriz d (first ∷ before ++ p ∷ after) ≢ fail
      → (any (λ c. hit rx c.argperm (get_value p)) d.cmds ≡ true)
        × (any (λ c. hit rx c.argdeny (get_value p)) d.cmds ≡ false)
  unfolding arg_allowed
  authorize-cmd_arg first before p after m ne h =
      let (r, r', e) = authorize-Accepts first before p after (protocol_of_arg p m) h in
      let ok = review_arg-cmd_arg p r r' m ne e in (ground arith, ground arith)
