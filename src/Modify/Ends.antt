-- ===== src/Modify/Ends.antt =====
-- The loop over the pairs ends, and leaves no call behind the first pair.
use tacppd.Common.{
  ◌≡◌, refl, sym, ap, ◌∙◌, subst, ℕ, zero, suc, ◌+◌, ◌-◌, ◌*◌, ◌≤◌, ◌<◌, Bool, true, false, Option,
  none, some, List, [], ◌∷◌, ◌++◌, Text, codes, length, length-append, length-drop, take, drop,
  take_all, get_elem?, ◌⊎◌, if◌then◌else◌, ltb, All, arith, Bool-cases, Option-cases, inl, inr,
}
use tacppd.User.{UserAvp, avp_get, avp_set, erase_at}
use tacppd.Common.Prefix.{before, after}
use tacppd.Modify.{
  get_avp_name, get_avp_value, Vars, Kind, kind_of, call, replace, Modified, modify_loop, modifyer,
  setvars, command, text_of,
}

-- The value of the pair is a call.
abbrev pub is_call : UserAvp → Bool
is_call a = elim (kind_of (get_avp_value a.avp)) [ none ↦ false | some _ ↦ true ]

-- How many pairs are calls.
unfoldable pub calls : List UserAvp → ℕ
calls [] = 0
calls (a ∷ avps) = let n = calls avps in if is_call a then suc n else n

-- Turns that are enough for so many calls among so many pairs.
unfoldable pub turns : ℕ → ℕ → ℕ
turns zero size = size + 1
turns (suc c) size = turns c size + size + 1

calls-push :
    (avps : List UserAvp) (a : UserAvp) → calls (avps ++ a ∷ []) ≡ calls avps + calls (a ∷ [])
unfolding calls
calls-push [] a = omega arith
calls-push (b ∷ avps) a = ground (arith, calls-push avps a)

calls_single : (a : UserAvp) (b : Bool) → is_call a ≡ b → calls (a ∷ []) ≡ (if b then 1 else 0)
unfolding calls
calls_single a b e = ap (λ x. if x then 1 else 0) e

-- The pair at a place.
abbrev at_place : List UserAvp → ℕ → UserAvp
at_place avps i = elim (get_elem? avps i) [
  | none ↦ record { service = []; protocol = []; avp = [] }
  | some a ↦ a
]

calls-erase_at :
    (i : ℕ) (avps : List UserAvp)
    → i < length avps
    → calls avps ≡ calls (erase_at i avps) + calls (at_place avps i ∷ [])
unfolding calls erase_at
calls-erase_at i [] h = absurd (omega arith)
calls-erase_at zero (a ∷ avps) h = ground arith
calls-erase_at (suc i) (a ∷ avps) h = ground (arith, calls-erase_at i avps (omega arith))

length-erase_at :
    {A : Type 0} (i : ℕ) (xs : List A) → i < length xs → length (erase_at i xs) + 1 ≡ length xs
unfolding erase_at
length-erase_at i [] h = absurd (omega arith)
length-erase_at zero (x ∷ xs) h = omega arith
length-erase_at (suc i) (x ∷ xs) h = omega (arith, length-erase_at i xs (omega arith))

after-before : (c : ℕ) (s out : Text) → after c (before c s ++ c ∷ out) ≡ some out
unfolding after before
after-before c [] out = ground arith
after-before c (d ∷ s) out = ground (arith, after-before c s out)

get_avp_value-some : (av s : Text) → after b'=' av ≡ some s → get_avp_value av ≡ take 300 s
unfolding get_avp_value
get_avp_value-some av s e = ap (λ (o : Option Text). elim o [ none ↦ [] | some x ↦ take 300 x ]) e

get_avp_name_cases : (av : Text) → (get_avp_name av ≡ []) ⊎ (get_avp_name av ≡ before b'=' av)
unfolding get_avp_name
get_avp_name_cases av = elim (Option-cases (after b'=' av)) [
  | inl e ↦ inl (rw (get_avp_name, e) refl)
  | inr (rest, e) ↦ elim (Bool-cases (ltb 200 (length (before b'=' av)))) [
    | inl f ↦ inl (rw (get_avp_name, e, f) refl)
    | inr f ↦ inr (rw (get_avp_name, e, f) refl)
  ]
]

-- The value of a pair that was put together.
get_avp_value-append :
    (av out : Text) → get_avp_value (get_avp_name av ++ (codes "=" ++ out)) ≡ take 300 out
unfolding before
get_avp_value-append av out = elim (get_avp_name_cases av) [
  | inl e ↦ rw e (get_avp_value-some (b'=' ∷ out) out (after-before b'=' [] out))
  | inr e ↦ rw e (get_avp_value-some (before b'=' av ++ b'=' ∷ out) out (after-before b'=' av out))
]

-- Pairs that are no calls.
abbrev pub AreSettled : List UserAvp → Type 0
AreSettled avps = All (λ a. is_call a ≡ false) avps

take-settled :
    (j : ℕ) (avps : List UserAvp)
    → AreSettled (take j avps)
    → is_call (at_place avps j) ≡ false
    → AreSettled (take (suc j) avps)
take-settled zero [] h k = tt
take-settled zero (a ∷ avps) h k = (k, tt)
take-settled (suc j) [] h k = tt
take-settled (suc j) (a ∷ avps) h k = (h.0, take-settled j avps h.1 k)

next-settled :
    (i : ℕ) (avps : List UserAvp)
    → AreSettled (take (i - 1) (drop 1 avps))
    → is_call (at_place avps i) ≡ false
    → AreSettled (take (i + 1 - 1) (drop 1 avps))
next-settled zero avps s k = tt
next-settled (suc j) avps s k =
    let one : suc j - 1 ≡ j = omega arith in
    let two : suc j + 1 - 1 ≡ suc j = omega arith in
    subst (λ n. AreSettled (take n (drop 1 avps))) (sym two)
      (take-settled j (drop 1 avps) (subst (λ n. AreSettled (take n (drop 1 avps))) one s)
        (behind avps k))
  where
    behind :
        (xs : List UserAvp)
        → is_call (at_place xs (suc j)) ≡ false
        → is_call (at_place (drop 1 xs) j) ≡ false
    behind [] e = e
    behind (x ∷ xs) e = e

turns_pos : (c size : ℕ) → size + 1 ≤ turns c size
unfolding turns
turns_pos zero size = omega arith
turns_pos (suc c) size = omega arith

turns-suc : (c c' size : ℕ) → c' + 1 ≡ c → turns c size ≡ turns c' size + size + 1
unfolding turns
turns-suc zero c' size e = absurd (omega arith)
turns-suc (suc c) c' size e =
    let same : c ≡ c' = omega arith in ap (λ n. turns n size + size + 1) same

turns-mul : (c size : ℕ) → turns c size ≡ (c + 1) * (size + 1)
unfolding turns
turns-mul zero size = omega arith
turns-mul (suc c) size = omega (arith, turns-mul c size)

ltb-lt : (a b : ℕ) → ltb a b ≡ true → a < b
ltb-lt a b h = ground arith

module _ {Ip W : Type 0} (show : Ip → Text) (sql ext : Text → W → Text × W) (maindir : Text) where
  -- No call answers with the text of a call.
  abbrev pub IsQuiet : Type 0
  IsQuiet =
      (kind : Kind) (s : Text) (m : Modified show sql ext maindir)
      → kind_of (take 300 (call show sql ext maindir kind s m.pools m.outside).0) ≡ none

  module _ (quiet : IsQuiet) (v : Vars) where
    replace-calls :
        (kind : Kind) (i : ℕ) (m : Modified show sql ext maindir)
        → i < length m.user.avps
        → is_call (avp_get m.user i) ≡ true
        → (calls (replace show sql ext maindir v kind i m).user.avps + 1 ≡ calls m.user.avps)
          × (length (replace show sql ext maindir v kind i m).user.avps ≡ length m.user.avps)
    unfolding replace avp_set avp_get
    replace-calls kind i m h c =
        let av = (avp_get m.user i).avp in
        let s =
          take 249 (text_of (setvars v (command show sql ext maindir kind (get_avp_value av)))) in
        let out = (call show sql ext maindir kind s m.pools m.outside).0 in
        let a : UserAvp = record (avp_get m.user i) {
          avp = get_avp_name av ++ (codes "=" ++ out);
        } in
        let none_more : kind_of (get_avp_value (get_avp_name av ++ (codes "=" ++ out))) ≡ none =
          ap kind_of (get_avp_value-append av out) ∙ quiet kind s m in
        let no_calls : calls (a ∷ []) ≡ 0 =
          calls_single a false
            (ap (λ (o : Option Kind). elim o [ none ↦ false | some _ ↦ true ]) none_more) in
        let one : calls (at_place m.user.avps i ∷ []) ≡ 1 =
          calls_single (at_place m.user.avps i) true c in
        (
          omega (
            arith,
            calls-push (erase_at i m.user.avps) a,
            calls-erase_at i m.user.avps h,
            no_calls,
            one,
          ),
          omega (
            arith,
            length-append (erase_at i m.user.avps) (a ∷ []),
            length-erase_at i m.user.avps h,
          ),
        )

    -- What the loop comes to, from a place with settled pairs before it, the first one left aside.
    abbrev Settles : ℕ → ℕ → Modified show sql ext maindir → Type 0
    Settles fuel i m =
        (m' : Modified show sql ext maindir) × ((modify_loop show sql ext maindir fuel v i m
            ≡ some m')
          × AreSettled (drop 1 m'.user.avps)
          × (length m'.user.avps ≡ length m.user.avps))

    loop_on :
        (fuel i : ℕ) (m : Modified show sql ext maindir)
        → ltb i (length m.user.avps) ≡ true
        → kind_of (get_avp_value (avp_get m.user i).avp) ≡ none
        → modify_loop show sql ext maindir (suc fuel) v i m
          ≡ modify_loop show sql ext maindir fuel v (i + 1) m
    unfolding modify_loop
    loop_on fuel i m e f = rw (modify_loop, e, f) refl

    loop_call :
        (fuel i : ℕ) (m : Modified show sql ext maindir) (kind : Kind)
        → ltb i (length m.user.avps) ≡ true
        → kind_of (get_avp_value (avp_get m.user i).avp) ≡ some kind
        → modify_loop show sql ext maindir (suc fuel) v i m
          ≡ modify_loop show sql ext maindir fuel v 1 (replace show sql ext maindir v kind i m)
    unfolding modify_loop
    loop_call fuel i m kind e f = rw (modify_loop, e, f) refl

    modify_loop-some :
        (fuel i : ℕ) (m : Modified show sql ext maindir)
        → i ≤ length m.user.avps
        → turns (calls m.user.avps) (length m.user.avps) ≤ fuel + i
        → AreSettled (take (i - 1) (drop 1 m.user.avps))
        → Settles fuel i m
    unfolding modify_loop avp_get
    modify_loop-some zero i m h t s =
        absurd (omega (arith, turns_pos (calls m.user.avps) (length m.user.avps)))
    modify_loop-some (suc fuel) i m h t s = elim (Bool-cases (ltb i (length m.user.avps))) [
      | inr e ↦ (
        m,
        (
          rw (modify_loop, e) refl,
          subst AreSettled
              (take_all (i - 1) (drop 1 m.user.avps)
                (ground (arith, length-drop 1 m.user.avps, e, h)))
              s,
          refl,
        ),
      )
      | inl e ↦ elim (Option-cases (kind_of (get_avp_value (avp_get m.user i).avp))) [
        | inl f ↦
            let (m', (go, settled, size)) =
              modify_loop-some fuel (i + 1) m (ground (arith, e)) (omega arith) (
                next-settled i m.user.avps s
                  (ap (λ (o : Option Kind). elim o [ none ↦ false | some _ ↦ true ]) f)) in
            (m', (loop_on fuel i m e f ∙ go, settled, size))
        | inr (kind, f) ↦
            let now = replace show sql ext maindir v kind i m in
            let (fewer, same) =
              replace-calls kind i m (ground (arith, e))
                (ap (λ (o : Option Kind). elim o [ none ↦ false | some _ ↦ true ]) f) in
            let less =
              turns-suc (calls m.user.avps) (calls now.user.avps) (length m.user.avps) fewer in
            let enough : turns (calls now.user.avps) (length now.user.avps) ≤ fuel + 1 =
              rw same (omega (arith, less, ltb-lt i (length m.user.avps) e)) in
            let (m', (go, settled, size)) =
              modify_loop-some fuel 1 now (omega (arith, same, ltb-lt i (length m.user.avps) e))
                enough tt in
            (m', (loop_call fuel i m kind e f ∙ go, settled, size ∙ same))
      ]
    ]

    -- Where no call answers with the text of a call, the loop over the pairs ends: as many turns are
    -- enough as the pairs and one, times the calls and one. Then no pair but the first one is a call,
    -- and there are as many pairs as before.
    pub modifyer-some :
        (fuel : ℕ) (m : Modified show sql ext maindir)
        → (calls m.user.avps + 1) * (length m.user.avps + 1) ≤ fuel
        → (m' : Modified show sql ext maindir) × ((modifyer show sql ext maindir fuel v m ≡ some m')
            × AreSettled (drop 1 m'.user.avps)
            × (length m'.user.avps ≡ length m.user.avps))
    unfolding modifyer
    modifyer-some fuel m h =
        modify_loop-some fuel 0 m (omega arith)
          (omega (arith, turns-mul (calls m.user.avps) (length m.user.avps))) tt
