-- ===== src/Pool/Ranges/Lists.antt =====
-- Which addresses a text stands for: those of its first item.
use tacppd.Common.{
  ◌≡◌, refl, ◌∙◌, ℕ, zero, suc, ◌+◌, ◌-◌, ◌<◌, ◌≤◌, Bool, true, false, Option, none, some, [], ◌∷◌,
  ◌++◌, Text, length, is_empty, if◌then◌else◌, ◌==◌, leb, ltb, All, arith, Bool-cases, inl, inr,
}
use tacppd.Pool.Ranges.Loop.{range_loop_lem}
use tacppd.Pool.Ranges.{
  is_part, part, host, checked, width, found, onward, range_turn, turn_at, turn, addr_loop,
  get_addr,
}

-- A text without comma and minus sign, of one byte at least.
abbrev pub IsPart : Text → Type 0
IsPart s = (is_empty s ≡ false) × All (λ c. is_part c ≡ true) s

-- What stands behind an item: nothing, or a comma and some text.
abbrev pub behind : Option Text → Text
behind none = []
behind (some more) = b',' ∷ more

part-behind :
    (s : Text) (m : Option Text)
    → All (λ c. is_part c ≡ true) s
    → part (s ++ behind m) ≡ (s, behind m)
unfolding part
part-behind [] none h = refl
part-behind [] (some more) h = unfold is_part in refl
part-behind (c ∷ s) m h = rw (part-behind s m h.1, h.0) refl

part-minus :
    (s rest : Text) → All (λ c. is_part c ≡ true) s → part (s ++ b'-' ∷ rest) ≡ (s, b'-' ∷ rest)
unfolding part
part-minus [] rest h = unfold is_part in refl
part-minus (c ∷ s) rest h = rw (part-minus s rest h.1, h.0) refl

module _ (octet : Text → ℕ → ℕ) (is_ip : Text → Bool) where
  turn_comma :
      (more : Text) (k n : ℕ)
      → turn octet is_ip (b',' ∷ more) k n
        ≡ (if k + 1 == n then found [] else onward (b',' ∷ more) (k + 1))
  unfolding turn turn_at part is_part
  turn_comma more k n = refl

  -- Behind an item the loop only counts.
  addr_loop-behind :
      (fuel : ℕ) (m : Option Text) (k n : ℕ)
      → k < n
      → n - k ≤ fuel
      → addr_loop octet is_ip fuel (behind m) k n ≡ some []
  unfolding addr_loop
  addr_loop-behind zero m k n h f = absurd (omega arith)
  addr_loop-behind (suc fuel) none k n h f = unfold turn in refl
  addr_loop-behind (suc fuel) (some more) k n h f = elim (Bool-cases (k + 1 == n)) [
    | inl e ↦ rw (addr_loop, turn_comma more k n, e) refl
    | inr e ↦
        rw (addr_loop, turn_comma more k n, e)
          (addr_loop-behind fuel (some more) (k + 1) n (ground (arith, e)) (omega arith))
  ]

  turn-part :
      (s : Text) (m : Option Text) (k n : ℕ)
      → IsPart s
      → turn octet is_ip (s ++ behind m) k n
        ≡ (if k + 1 == n then found s else onward (behind m) (k + 1))
  unfolding turn
  turn-part [] m k n h = absurd (ground (arith, h.0))
  turn-part (c ∷ s) none k n h = rw (turn, part-behind (c ∷ s) none h.1) (unfold turn_at in refl)
  turn-part (c ∷ s) (some more) k n h =
      rw (turn, part-behind (c ∷ s) (some more) h.1) (unfold turn_at in refl)

  addr_loop-found :
      (fuel : ℕ) (str a : Text) (k n : ℕ)
      → 0 < fuel
      → turn octet is_ip str k n ≡ found a
      → addr_loop octet is_ip fuel str k n ≡ some a
  unfolding addr_loop
  addr_loop-found zero str a k n h e = absurd (omega arith)
  addr_loop-found (suc fuel) str a k n h e = rw (addr_loop, e) refl

  -- A turn that goes on to what stands behind the item.
  addr_loop-onward :
      (fuel : ℕ) (str : Text) (m : Option Text) (k k' n : ℕ)
      → turn octet is_ip str k n ≡ onward (behind m) k'
      → k' < n
      → n - k' < fuel
      → addr_loop octet is_ip fuel str k n ≡ some []
  unfolding addr_loop
  addr_loop-onward zero str m k k' n e h f = absurd (omega arith)
  addr_loop-onward (suc fuel) str m k k' n e h f =
      rw (addr_loop, e) (addr_loop-behind fuel m k' n h (omega arith))

  -- A text that begins with a single address stands for this address alone, whatever follows a comma
  -- behind it.
  pub get_addr_single :
      (s : Text) (m : Option Text) (n : ℕ)
      → IsPart s
      → get_addr octet is_ip (s ++ behind m) n ≡ some (if n == 0 then s else [])
  unfolding get_addr
  get_addr_single s m n h = elim (Bool-cases (n == 0)) [
    | inl e ↦
        let e' : (0 + 1 == n + 1) ≡ true = ground (arith, e) in
        rw e (
          addr_loop-found (length (s ++ behind m) + n + 2) (s ++ behind m) s 0 (n + 1) (omega arith)
            (turn-part s m 0 (n + 1) h ∙ rw e' refl))
    | inr e ↦
        let e' : (0 + 1 == n + 1) ≡ false = ground (arith, e) in
        rw e (
          addr_loop-onward (length (s ++ behind m) + n + 2) (s ++ behind m) m 0 1 (n + 1)
            (turn-part s m 0 (n + 1) h ∙ rw e' refl) (ground (arith, e)) (omega arith))
  ]

  turn-range :
      (a b : Text) (m : Option Text) (k n : ℕ)
      → IsPart a
      → IsPart b
      → k < n
      → turn octet is_ip (a ++ b'-' ∷ (b ++ behind m)) k n ≡ (
          if leb n (k + width octet is_ip a b)
          then found (checked octet is_ip (host octet is_ip a (octet a 3 + (n - k - 1))))
          else onward (behind m) (k + width octet is_ip a b))
  unfolding turn
  turn-range [] b m k n h g lo = absurd (ground (arith, h.0))
  turn-range (c ∷ a) b m k n h g lo =
      rw (turn, part-minus (c ∷ a) (b ++ behind m) h.1)
        (rw (turn_at, part-behind b m g.1)
          (rw (range_turn, g.0)
            (range_loop_lem octet is_ip (c ∷ a) (behind m) (octet b 3) n
              (width octet is_ip (c ∷ a) b) (octet (c ∷ a) 3) k refl lo)))

  -- A text that begins with a range a-b stands for as many addresses as the last numbers of a and b
  -- are apart, and one: those in the net of a with the last numbers from that of a on, each if it is
  -- an address for hosts; whatever follows a comma behind the range. Neither a nor b is empty, or has
  -- a comma or a minus sign.
  pub get_addr_range :
      (a b : Text) (m : Option Text) (n : ℕ)
      → IsPart a
      → IsPart b
      → get_addr octet is_ip (a ++ b'-' ∷ (b ++ behind m)) n
        ≡ some (
            if ltb n (octet b 3 + 1 - octet a 3)
            then checked octet is_ip (host octet is_ip a (octet a 3 + n))
            else [])
  unfolding get_addr
  get_addr_range a b m n h g =
      let str = a ++ b'-' ∷ (b ++ behind m) in
      elim (Bool-cases (ltb n (width octet is_ip a b))) [
        | inl e ↦
            let e' : leb (n + 1) (0 + width octet is_ip a b) ≡ true = ground (arith, e) in
            let last : n + 1 - 0 - 1 ≡ n = omega arith in
            rw e (
              addr_loop-found (length str + n + 2) str _ 0 (n + 1) (omega arith)
                (turn-range a b m 0 (n + 1) h g (omega arith) ∙ rw (e', last) refl))
        | inr e ↦
            let e' : leb (n + 1) (0 + width octet is_ip a b) ≡ false = ground (arith, e) in
            rw e (
              addr_loop-onward (length str + n + 2) str m 0 (0 + width octet is_ip a b) (n + 1)
                (turn-range a b m 0 (n + 1) h g (omega arith) ∙ rw e' refl) (ground (arith, e))
                (omega arith))
      ]
