-- ===== src/Pool/Ranges.antt =====
-- The single addresses of a text such as 192.168.10.1-192.168.10.11: `CorePool::getAddr`. `octet` is
-- `ipaddr(s).get(i)`, and `is_ip` is `utl::isIp`. Of a part of 100 bytes or more, which C++ leaves
-- undefined, nothing is meant.
pub mod Loop
pub mod Ends
pub mod Lists
use tacppd.Common.{
  ℕ, zero, suc, ◌+◌, ◌-◌, Bool, true, false, ◌||◌, ◌&&◌, not, Option, none, some, List, [], ◌∷◌,
  ◌++◌, Text, codes, length, is_empty, if◌then◌else◌, ◌==◌, leb,
}
use tacppd.Common.Int.{show_nat}

-- `str[i]!=',' && str[i]!='-'`
unfoldable pub is_part : ℕ → Bool
is_part c = not (c == b',') && not (c == b'-')

-- The bytes before the next comma or minus sign, and the text from there on.
unfoldable pub part : Text → Text × Text
unfolding is_part
part [] = ([], [])
part (c ∷ s) = let (front, rest) = part s in if is_part c then (c ∷ front, rest) else ([], c ∷ s)

-- What a turn of the loop ends with: the return, or the rest of the text and the count.
pub data Turn : Type 0 where
  found : Text → Turn
  onward : Text → ℕ → Turn

module _ (octet : Text → ℕ → ℕ) (is_ip : Text → Bool) where
  -- The text of the address with the last number p in the net of s1.
  unfoldable pub host : Text → ℕ → Text
  unfolding show_nat
  host s1 p =
      show_nat (octet s1 0)
      ++ (codes "."
          ++ (show_nat (octet s1 1)
              ++ (codes "." ++ (show_nat (octet s1 2) ++ (codes "." ++ show_nat p)))))

  abbrev pub checked : Text → Text
  checked s = if is_ip s then s else []

  -- How many addresses a range has.
  abbrev pub width : Text → Text → ℕ
  width s1 s2 = octet s2 3 + 1 - octet s1 3

  -- `for(int p = left; p <= right; p++)`, with the turns that are left as its fuel.
  unfoldable pub range_loop : ℕ → Text → Text → ℕ → ℕ → ℕ → ℕ → Turn
  unfolding host
  range_loop zero s1 rest p right k n = onward rest k
  range_loop (suc fuel) s1 rest p right k n =
      let more = range_loop fuel s1 rest (p + 1) right (k + 1) n in
      if leb p right
      then (if k + 1 == n then found (checked (host s1 p)) else more)
      else onward rest k

  unfoldable pub range_turn : Text → Text → Text → ℕ → ℕ → Turn
  unfolding range_loop
  range_turn s1 s2 rest k n =
      if is_empty s1 || is_empty s2
      then (if k + 1 == n then found (checked s1) else onward rest (k + 1))
      else range_loop (width s1 s2) s1 rest (octet s1 3) (octet s2 3) k n

  -- One turn of the loop, where the rest of the text is not empty.
  unfoldable pub turn_at : Text → Text → ℕ → ℕ → Turn
  unfolding part range_turn
  turn_at s1 [] k n = if k + 1 == n then found s1 else onward [] (k + 1)
  turn_at s1 (d ∷ behind) k n =
      if d == b','
      then (if k + 1 == n then found s1 else onward (d ∷ behind) (k + 1))
      else range_turn s1 (part behind).0 (part behind).1 k n

  unfoldable pub turn : Text → ℕ → ℕ → Turn
  unfolding part turn_at
  turn [] k n = found []
  turn (c ∷ str) k n = turn_at (part (c ∷ str)).0 (part (c ∷ str)).1 k n

  -- The loop, from the rest of the text and the count `k` on, while `k` is below `n`. The fuel bounds
  -- its turns.
  unfoldable pub addr_loop : ℕ → Text → ℕ → ℕ → Option Text
  unfolding turn
  addr_loop zero str k n = none
  addr_loop (suc fuel) str k n = elim (turn str k n) [
    | found ret ↦ some ret
    | onward rest k' ↦ addr_loop fuel rest k' n
  ]

  unfoldable pub get_addr : Text → ℕ → Option Text
  unfolding addr_loop
  get_addr str n = addr_loop (length str + n + 2) str 0 (n + 1)
