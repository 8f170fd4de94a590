-- ===== src/Tacacs/Author/Cover.antt =====
-- What a reply of status PASS_REPL covers.
use tacppd.Common.{
  ◌≡◌, sym, ap, ◌∙◌, ℕ, ◌+◌, Bool, true, not, ◌&&◌, ◌||◌, List, [], ◌∷◌, ◌++◌, Text, codes, any,
  arith, if◌then◌else◌, Bool-cases, Option-cases, str_eq, str_eq_refl, inl, inr, drop, length,
  is_empty,
}
use tacppd.Common.Prefix.{scomp_n}
use tacppd.Access.Entry.{Regex}
use tacppd.User.{UserAvp, DbUser, compare_service, compare_protocol}
use tacppd.Tacacs.Pair.{optional, match_attr}
use tacppd.Tacacs.Author.{
  Review, pass_repl, review_args, review_service, review_request, authorize, finish, add_missing,
  is_missing, respond,
}

-- A pair that the user's entry demands for this service and protocol.
unfoldable pub is_required : Text → Text → UserAvp → Bool
is_required service protocol a =
    compare_service a service
    && (compare_protocol a protocol && (not (optional a.avp) && not (is_empty a.avp)))

-- It is the pair itself, or one of the same attribute.
unfoldable pub covers : UserAvp → Text → Bool
covers a p = str_eq a.avp p || match_attr a.avp p

-- The protocol that a request names behind its service.
unfoldable pub protocol_of : List Text → Text
protocol_of [] = []
protocol_of (second ∷ args) = if scomp_n second (codes "protocol=") 9 then drop 9 second else []

any-snoc :
    (a : UserAvp) (ps : List Text) (p : Text)
    → any (covers a) (ps ++ p ∷ []) ≡ (any (covers a) ps || covers a p)
unfolding any
any-snoc a [] p = ground arith
any-snoc a (x ∷ ps) p = ground (arith, any-snoc a ps p)

any_match :
    (a : UserAvp) (ps : List Text) → any (match_attr a.avp) ps ≡ true → any (covers a) ps ≡ true
unfolding any covers
any_match a [] h = absurd (ground arith)
any_match a (p ∷ ps) h = ground (arith, any_match a ps)

module _ (service protocol : Text) where
  -- A step of the walk over the user's pairs.
  abbrev step : UserAvp → Review → Review
  step a r =
      if is_missing service protocol r.bavpair a
      then record r { bavpair = r.bavpair ++ a.avp ∷ []; added = r.added + 1 }
      else r

  step_keeps :
      (a b : UserAvp) (r : Review)
      → any (covers b) r.bavpair ≡ true
      → any (covers b) (step a r).bavpair ≡ true
  step_keeps a b r h = ground (arith, any-snoc b r.bavpair a.avp)

  add_missing_keeps :
      (avps : List UserAvp) (b : UserAvp) (r : Review)
      → any (covers b) r.bavpair ≡ true
      → any (covers b) (add_missing service protocol avps r).bavpair ≡ true
  unfolding add_missing
  add_missing_keeps [] b r h = h
  add_missing_keeps (a ∷ avps) b r h = add_missing_keeps avps b (step a r) (step_keeps a b r h)

  step-covers :
      (a : UserAvp) (r : Review)
      → is_required service protocol a ≡ true
      → any (covers a) (step a r).bavpair ≡ true
  unfolding is_missing is_required covers
  step-covers a r h =
      ground (arith, any-snoc a r.bavpair a.avp, any_match a r.bavpair, str_eq_refl a.avp)

  add_missing-covers :
      (front : List UserAvp) (a : UserAvp) (back : List UserAvp) (r : Review)
      → is_required service protocol a ≡ true
      → any (covers a) (add_missing service protocol (front ++ a ∷ back) r).bavpair ≡ true
  unfolding add_missing
  add_missing-covers [] a back r h = add_missing_keeps back a (step a r) (step-covers a r h)
  add_missing-covers (x ∷ front) a back r h = add_missing-covers front a back (step x r) h

respond_repl : (n : ℕ) (r : Review) (ps : List Text) → respond n r ≡ pass_repl ps → r.bavpair ≡ ps
unfolding respond
respond_repl n r ps h = ground arith

module _ (rx : Regex) (authoriz : Bool) (d : DbUser) where
  review_service_repl :
      (service protocol : Text) (n : ℕ) (copied args ps : List Text)
      → review_service rx authoriz d service protocol n copied args ≡ pass_repl ps
      → (r : Review) × ((add_missing service protocol d.avps r).bavpair ≡ ps)
  unfolding review_service finish
  review_service_repl service protocol n copied args ps h =
      let start : Review = record { bavpair = copied; added = 0; replaced = 0 } in
      elim (Option-cases (review_args rx authoriz d args start)) [
        | inl e ↦ absurd (ground (arith, e))
        | inr (r, e) ↦
            (r, respond_repl n (add_missing service protocol d.avps r) ps (ground (arith, e)))
      ]

  review_request_repl :
      (first : Text) (args ps : List Text)
      → review_request rx authoriz d first args ≡ pass_repl ps
      → (r : Review) × ((add_missing (drop 8 first) (protocol_of args) d.avps r).bavpair ≡ ps)
  unfolding review_request protocol_of
  review_request_repl first [] ps h = review_service_repl (drop 8 first) [] 1 (first ∷ []) [] ps h
  review_request_repl first (x ∷ args) ps h =
      let n = 2 + length args in
      elim (Bool-cases (scomp_n x (codes "protocol=") 9)) [
        | inl e ↦ rw e (
            review_service_repl (drop 8 first) (drop 9 x) n (first ∷ x ∷ []) args ps
              (ground (arith, e)))
        | inr e ↦
            rw e (
              review_service_repl (drop 8 first) [] n (first ∷ []) (x ∷ args) ps
                (ground (arith, e)))
      ]

  -- A reply of status PASS_REPL has, for every mandatory pair of the user for the requested service
  -- and protocol, this pair or one of the same attribute.
  pub authorize-covers :
      (first : Text) (args ps : List Text) (front : List UserAvp) (a : UserAvp)
      (back : List UserAvp)
      → d.avps ≡ front ++ a ∷ back
      → is_required (drop 8 first) (protocol_of args) a ≡ true
      → authorize rx authoriz d (first ∷ args) ≡ pass_repl ps
      → any (covers a) ps ≡ true
  unfolding authorize
  authorize-covers first args ps front a back eq req h =
      let (r, e) = review_request_repl first args ps (ground arith) in
      let service = drop 8 first in
      let protocol = protocol_of args in
      let all = ap (λ avps. (add_missing service protocol avps r).bavpair) (sym eq) ∙ e in
      ap (any (covers a)) (sym all) ∙ add_missing-covers service protocol front a back r req
