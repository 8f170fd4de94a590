-- ===== src/Accounting/Ports.antt =====
-- The short and the long names of ports: `utl::portConvert`.
use tacppd.Common.{
  ◌≡◌, refl, ◌∙◌, ap, sym, ◌+◌, ◌≤◌, Bool, true, false, ◌&&◌, not, [], ◌∷◌, ◌++◌, Text, length,
  codes, take, take_all, length-drop, drop, if◌then◌else◌, is_empty, subst, arith, Bool-cases, inl,
  inr,
}
use tacppd.Common.Prefix.{scomp_n, begins, scomp_n-begins}

-- `snprintf` into 99 bytes.
abbrev pub fit : Text → Text
fit s = take 98 s

-- The two chains of tests, on the copy: the second one, which comes first here, overwrites what the
-- first one sets.
unfoldable pub convert_copy : Text → Text
convert_copy p =
    if scomp_n p (codes "Se") 2 && not (scomp_n p (codes "Seri") 4)
    then fit (codes "Serial" ++ drop 2 p)
    else if scomp_n p (codes "As") 2 && not (scomp_n p (codes "Asyn") 4)
    then fit (codes "Async" ++ drop 2 p)
    else if scomp_n p (codes "Serial") 6
    then fit (codes "Se" ++ drop 6 p)
    else if scomp_n p (codes "Async") 5
    then fit (codes "As" ++ drop 5 p)
    else p

unfoldable pub port_convert : Text → Text
unfolding convert_copy
port_convert s = if is_empty s then [] else convert_copy (fit s)

begins-append : (p s : Text) → begins p s ≡ true → s ≡ p ++ drop (length p) s
unfolding begins
begins-append [] s h = refl
begins-append (c ∷ p) [] h = absurd (ground (arith, h))
begins-append (c ∷ p) (d ∷ s) h = ground (arith, begins-append p s)

begins_shorter : (p q s : Text) → begins p s ≡ false → begins (p ++ q) s ≡ false
unfolding begins
begins_shorter [] q s h = absurd (ground (arith, h))
begins_shorter (c ∷ p) q [] h = refl
begins_shorter (c ∷ p) q (d ∷ s) h = ground (arith, begins_shorter p q s)

-- The conversion of a text that fits its buffers.
unfoldable pub swap : Text → Text
unfolding begins
swap s =
    if begins (codes "Se") s && not (begins (codes "Seri") s)
    then codes "Serial" ++ drop 2 s
    else if begins (codes "As") s && not (begins (codes "Asyn") s)
    then codes "Async" ++ drop 2 s
    else if begins (codes "Serial") s
    then codes "Se" ++ drop 6 s
    else if begins (codes "Async") s
    then codes "As" ++ drop 5 s
    else s

serial_short :
    (r : Text) → begins (codes "ri") r ≡ false → swap (codes "Se" ++ r) ≡ codes "Serial" ++ r
unfolding swap
serial_short r h = rw h refl

serial_middle :
    (r : Text) → begins (codes "al") r ≡ false → swap (codes "Seri" ++ r) ≡ codes "Seri" ++ r
unfolding swap
serial_middle r h = rw h refl

-- Twice, from any name that begins so.
swap-swap_serial :
    (r : Text)
    → begins (codes "Serialri") (codes "Se" ++ r) ≡ false
    → swap (swap (codes "Se" ++ r)) ≡ codes "Se" ++ r
unfolding swap
swap-swap_serial r h = elim (Bool-cases (begins (codes "ri") r)) [
  | inr e ↦ ap swap (serial_short r e)
  | inl e ↦
      subst
        (λ x.
          begins (codes "Serialri") (codes "Se" ++ x) ≡ false
          → swap (swap (codes "Se" ++ x)) ≡ codes "Se" ++ x)
        (sym (begins-append (codes "ri") r e)) (middle (drop 2 r)) h
]
  where
    middle :
        (x : Text)
        → begins (codes "Serialri") (codes "Seri" ++ x) ≡ false
        → swap (swap (codes "Seri" ++ x)) ≡ codes "Seri" ++ x
    middle x k = elim (Bool-cases (begins (codes "al") x)) [
      | inr e ↦ ap swap (serial_middle x e) ∙ serial_middle x e
      | inl e ↦
          subst
            (λ y.
              begins (codes "Serialri") (codes "Seri" ++ y) ≡ false
              → swap (swap (codes "Seri" ++ y)) ≡ codes "Seri" ++ y)
            (sym (begins-append (codes "al") x e)) (serial_short (drop 2 x)) k
    ]

async_short :
    (r : Text) → begins (codes "yn") r ≡ false → swap (codes "As" ++ r) ≡ codes "Async" ++ r
unfolding swap
async_short r h = rw h refl

async_middle :
    (r : Text) → begins (codes "c") r ≡ false → swap (codes "Asyn" ++ r) ≡ codes "Asyn" ++ r
unfolding swap
async_middle r h = rw h refl

-- Twice, from any name that begins so.
swap-swap_async :
    (r : Text)
    → begins (codes "Asyncyn") (codes "As" ++ r) ≡ false
    → swap (swap (codes "As" ++ r)) ≡ codes "As" ++ r
unfolding swap
swap-swap_async r h = elim (Bool-cases (begins (codes "yn") r)) [
  | inr e ↦ ap swap (async_short r e)
  | inl e ↦
      subst
        (λ x.
          begins (codes "Asyncyn") (codes "As" ++ x) ≡ false
          → swap (swap (codes "As" ++ x)) ≡ codes "As" ++ x)
        (sym (begins-append (codes "yn") r e)) (middle (drop 2 r)) h
]
  where
    middle :
        (x : Text)
        → begins (codes "Asyncyn") (codes "Asyn" ++ x) ≡ false
        → swap (swap (codes "Asyn" ++ x)) ≡ codes "Asyn" ++ x
    middle x k = elim (Bool-cases (begins (codes "c") x)) [
      | inr e ↦ ap swap (async_middle x e) ∙ async_middle x e
      | inl e ↦
          subst
            (λ y.
              begins (codes "Asyncyn") (codes "Asyn" ++ y) ≡ false
              → swap (swap (codes "Asyn" ++ y)) ≡ codes "Asyn" ++ y)
            (sym (begins-append (codes "c") x e)) (async_short (drop 1 x)) k
    ]

-- A name that begins neither way stays.
swap_other : (s : Text) → begins (codes "Se") s ≡ false → begins (codes "As") s ≡ false → swap s ≡ s
unfolding swap
swap_other s h k =
    rw
      (
        swap,
        h,
        k,
        begins_shorter (codes "Se") (codes "rial") s h,
        begins_shorter (codes "As") (codes "ync") s k,
      )
      refl

swap-swap :
    (s : Text)
    → begins (codes "Serialri") s ≡ false
    → begins (codes "Asyncyn") s ≡ false
    → swap (swap s) ≡ s
swap-swap s h k = elim (Bool-cases (begins (codes "Se") s)) [
  | inl e ↦
      let cut = begins-append (codes "Se") s e in
      subst (λ x. begins (codes "Serialri") x ≡ false → swap (swap x) ≡ x) (sym cut)
        (swap-swap_serial (drop 2 s)) h
  | inr e ↦ elim (Bool-cases (begins (codes "As") s)) [
    | inl e' ↦
        let cut = begins-append (codes "As") s e' in
        subst (λ x. begins (codes "Asyncyn") x ≡ false → swap (swap x) ≡ x) (sym cut)
          (swap-swap_async (drop 2 s)) k
    | inr e' ↦ ap swap (swap_other s e e') ∙ swap_other s e e'
  ]
]

fit-if :
    (b : Bool) (x y y' : Text) → y ≡ fit y' → (if b then fit x else y) ≡ fit (if b then x else y')
fit-if true x y y' e = refl
fit-if false x y y' e = e

convert_copy-swap : (s : Text) → length s ≤ 98 → convert_copy s ≡ fit (swap s)
unfolding convert_copy swap
convert_copy-swap s h =
    rw
      (
        scomp_n-begins s (codes "Se"),
        scomp_n-begins s (codes "Seri"),
        scomp_n-begins s (codes "As"),
        scomp_n-begins s (codes "Asyn"),
        scomp_n-begins s (codes "Serial"),
        scomp_n-begins s (codes "Async"),
      )
      (fit-if (begins (codes "Se") s && not (begins (codes "Seri") s)) (codes "Serial" ++ drop 2 s)
        _ _
        (fit-if (begins (codes "As") s && not (begins (codes "Asyn") s)) (codes "Async" ++ drop 2 s)
          _ _
          (fit-if (begins (codes "Serial") s) (codes "Se" ++ drop 6 s) _ _ (
            fit-if (begins (codes "Async") s) (codes "As" ++ drop 5 s) s s
              (sym (take_all 98 s h))))))

port_convert-swap : (s : Text) → length s ≤ 98 → port_convert s ≡ fit (swap s)
unfolding port_convert
port_convert-swap [] h = unfold swap in refl
port_convert-swap (c ∷ s) h = ap convert_copy (take_all 98 (c ∷ s) h) ∙ convert_copy-swap (c ∷ s) h

length-swap : (s : Text) → length (swap s) ≤ length s + 6
unfolding swap
length-swap s = ground (arith, length-drop 2 s, length-drop 5 s, length-drop 6 s)

-- Two conversions of a port's name of at most 92 bytes give the name back, unless it begins with
-- Serialri or Asyncyn: so neither a short nor a long name is changed.
pub port_convert-port_convert :
    (s : Text)
    → length s ≤ 92
    → scomp_n s (codes "Serialri") 8 ≡ false
    → scomp_n s (codes "Asyncyn") 7 ≡ false
    → port_convert (port_convert s) ≡ s
port_convert-port_convert s h k l =
    let long = length-swap s in
    let b : begins (codes "Serialri") s ≡ false = sym (scomp_n-begins s (codes "Serialri")) ∙ k in
    let c : begins (codes "Asyncyn") s ≡ false = sym (scomp_n-begins s (codes "Asyncyn")) ∙ l in
    let once : port_convert s ≡ swap s =
      port_convert-swap s (omega arith) ∙ take_all 98 (swap s) (omega (arith, long)) in
    ap port_convert once
    ∙ port_convert-swap (swap s) (omega (arith, long))
    ∙ ap fit (swap-swap s b c)
    ∙ take_all 98 s (omega arith)
