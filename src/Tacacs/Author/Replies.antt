-- ===== src/Tacacs/Author/Replies.antt =====
-- Where the pairs of a reply come from, for a device whose default is to deny.
use tacppd.Common.{
  ◌≡◌, ℕ, ◌+◌, true, false, not, some, List, [], ◌∷◌, Text, codes, any, subst, arith, Bool-cases,
  Option-cases, inl, inr, ◌⊎◌, drop, length, All,
}
use tacppd.Common.Prefix.{scomp_n}
use tacppd.Access.Entry.{Regex}
use tacppd.User.{DbUser, compare_service}
use tacppd.Tacacs.Author.{
  Review, review_mandatory, review_optional, review_arg, review_args, review_service,
  review_request, authorize, finish,
}
use tacppd.Tacacs.Author.Backed.{
  pairs, named_pairs, is_backed, named_first, named_second, AllBacked, AllBacked-nonempty,
  AllBacked-take, AllBacked-review_optional, AllBacked-review_mandatory, AllBacked-add_missing,
  AllBacked-avp_texts, AllBacked-respond, AllBacked-if,
}

module _ (rx : Regex) (d : DbUser) where
  -- A pair that is not refused leaves the reply alone, or goes through one of the two reviews.
  review_arg-cases :
      (p : Text) (r r' : Review)
      → review_arg rx false d p r ≡ some r'
      → (some r ≡ some r')
        ⊎ ((review_mandatory false d.avps p r ≡ some r')
            ⊎ (some (review_optional false d.avps p r) ≡ some r'))
  unfolding review_arg
  review_arg-cases p r r' e = ground arith

  module _ (named : List Text) where
    AllBacked-same :
        (q r' : Review)
        → AllBacked named d.avps q.bavpair
        → some q ≡ some r'
        → AllBacked named d.avps r'.bavpair
    AllBacked-same q r' h e =
        let same : q ≡ r' = ground arith in subst (λ x. AllBacked named d.avps x.bavpair) same h

    AllBacked-review_arg :
        (p : Text) (r r' : Review)
        → AllBacked named d.avps r.bavpair
        → review_arg rx false d p r ≡ some r'
        → AllBacked named d.avps r'.bavpair
    AllBacked-review_arg p r r' h e = elim (review_arg-cases p r r' e) [
      | inl same ↦ AllBacked-same r r' h same
      | inr (inl m) ↦ AllBacked-review_mandatory named d.avps p r r' h m
      | inr (inr o) ↦
          AllBacked-same (review_optional false d.avps p r) r'
            (AllBacked-review_optional named d.avps p r h) o
    ]

    AllBacked-review_args :
        (ps : List Text) (r r' : Review)
        → AllBacked named d.avps r.bavpair
        → review_args rx false d ps r ≡ some r'
        → AllBacked named d.avps r'.bavpair
    unfolding review_args
    AllBacked-review_args [] r r' h e =
        let same : r ≡ r' = ground arith in subst (λ q. AllBacked named d.avps q.bavpair) same h
    AllBacked-review_args (p ∷ ps) r r' h e = elim (Option-cases (review_arg rx false d p r)) [
      | inl k ↦ absurd (ground (arith, k))
      | inr (q, k) ↦
          AllBacked-review_args ps q r' (AllBacked-review_arg p r q h k) (ground (arith, k))
    ]

    AllBacked-review_service :
        (service protocol : Text) (n : ℕ) (copied ps : List Text)
        → AllBacked named d.avps copied
        → AllBacked named d.avps (pairs (review_service rx false d service protocol n copied ps))
    unfolding review_service finish pairs
    AllBacked-review_service service protocol n copied ps h =
        let start : Review = record { bavpair = copied; added = 0; replaced = 0 } in
        elim (Bool-cases (any (λ a. compare_service a service) d.avps)) [
          | inl s ↦ elim (Option-cases (review_args rx false d ps start)) [
            | inl e ↦ rw (s, e) tt
            | inr (q, e) ↦
                rw (s, e)
                  (AllBacked-respond named d.avps n _ (
                    AllBacked-add_missing named d.avps service protocol d.avps q (λ p k. k)
                      (AllBacked-review_args ps start q h e)))
          ]
          | inr s ↦ rw s tt
        ]

  AllBacked-review_request :
      (first : Text) (args : List Text)
      → AllBacked (named_pairs (first ∷ args)) d.avps (pairs (review_request rx false d first args))
  unfolding review_request named_pairs
  AllBacked-review_request first [] =
      AllBacked-review_service (first ∷ []) (drop 8 first) [] 1 (first ∷ []) []
        (named_first d.avps first [], tt)
  AllBacked-review_request first (second ∷ args) =
      elim (Bool-cases (scomp_n second (codes "protocol=") 9)) [
        | inl e ↦
            let both = first ∷ second ∷ [] in
            rw e (
              AllBacked-review_service both (drop 8 first) (drop 9 second) (2 + length args) both
                args
                (named_first d.avps first (second ∷ []), (named_second d.avps first second, tt)))
        | inr e ↦ rw e (
            AllBacked-review_service (first ∷ []) (drop 8 first) [] (2 + length args) (first ∷ [])
              (second ∷ args) (named_first d.avps first [], tt))
      ]

  -- To a device whose default is to deny, every pair of a reply is the request's own first pair, which
  -- names the service, or its second, if that names the protocol, or is allowed by a pair of the user
  -- in the database, which is the same pair or an optional one of the same attribute.
  pub authorize_backed :
      (args : List Text)
      → All (λ p. is_backed (named_pairs args) d.avps p ≡ true) (pairs (authorize rx false d args))
  unfolding authorize pairs
  authorize_backed [] =
      AllBacked-if (named_pairs []) d.avps d.result _ _
        (λ e. AllBacked-take (named_pairs []) d.avps 100 _ (
          AllBacked-nonempty (named_pairs []) d.avps _
            (AllBacked-avp_texts (named_pairs []) d.avps d.avps (λ p k. k))))
        (λ e. tt)
  authorize_backed (first ∷ args) =
      let named = named_pairs (first ∷ args) in
      AllBacked-if named d.avps (not d.result) _ _ (λ e. tt)
        (λ e.
          AllBacked-if named d.avps (scomp_n first (codes "service=") 8) _ _
            (λ k. AllBacked-review_request first args) (λ k. tt))
