-- ===== src/Pool/Pools/Examples.antt =====
-- Pools and their commands at concrete inputs. Addresses are numbers: the length of their text.
use tacppd.Common.{
  ◌≡◌, refl, ℕ, ◌-◌, ◌==◌, if◌then◌else◌, ==_iff, Bool, true, some, List, [], ◌∷◌, Text, codes,
  length, find, any,
}
use tacppd.Common.Int.{
  pos, atoi, read_digits, is_digit, read_sign, is_space, signed, show_nat, digits,
}
use tacppd.Pool.{PoolData, new_pool, add}
use tacppd.Pool.Ranges.{is_part, host, get_addr}
use tacppd.Pool.Ranges.Lists.{get_addr_range}
use tacppd.Pool.Pools.{has_number, applycf}
use tacppd.Pool.Pools.Commands.{applycf_addr}
use tacppd.Pool.Pools.Valid.{
  AreValid, adds, dels, dels_pool, gets, returns, Change, change_all, change_all-AreValid,
}

-- The last digit of a text.
abbrev last_digit : Text → ℕ
last_digit [] = 0
last_digit (c ∷ []) = c - b'0'
last_digit (c ∷ d ∷ s) = last_digit (d ∷ s)

-- Numbers of addresses such as 10.10.10.3.
abbrev octet : Text → ℕ → ℕ
octet s i = if i == 3 then last_digit s else 10

abbrev fine : Text → Bool
fine s = true

get_addr_range_example :
    get_addr octet fine (codes "10.10.10.3-10.10.10.5,10.10.10.8") 2 ≡ some (codes "10.10.10.5")
unfolding is_part host show_nat digits
get_addr_range_example =
    get_addr_range octet fine (codes "10.10.10.3") (codes "10.10.10.5") (some (codes "10.10.10.8"))
      2 (refl, (refl, (refl, (refl, (refl, (refl, (refl, (refl, (refl, (refl, (refl, tt)))))))))))
      (refl, (refl, (refl, (refl, (refl, (refl, (refl, (refl, (refl, (refl, (refl, tt)))))))))))

abbrev one : List (PoolData ℕ)
one = new_pool (pos 1) ∷ []

-- In the node of pool 1: the address goes to a pool 10.
applycf_addr_example :
    (ap' : List (PoolData ℕ)) × ((applycf
          (◌==◌)
          octet
          fine
          length
          3
          (codes "confPoolAddr")
          (codes "10.10.10.3")
          (codes "1")
          one
        ≡ some ap')
      × (find (has_number (pos 10)) ap' ≡ some (add ◌==◌ (new_pool (pos 10)) 1))
      × (find (has_number (pos 1)) ap' ≡ find (has_number (pos 1)) one))
unfolding is_part find atoi read_sign read_digits signed is_digit is_space
applycf_addr_example =
    applycf_addr (◌==◌) ==_iff octet fine length 0 (codes "10.10.10.3") (codes "1") (pos 1) one
      (refl, (refl, tt)) refl

abbrev busy : List (Change ℕ)
busy =
    adds (pos 2) (7 ∷ 7 ∷ 8 ∷ [])
    ∷ gets (pos 2)
    ∷ returns 7
    ∷ dels (pos 2) (8 ∷ [])
    ∷ dels_pool (pos 1)
    ∷ []

change_all-AreValid_example :
    AreValid (◌==◌) ==_iff octet fine length (change_all (◌==◌) ==_iff octet fine length one busy)
unfolding any
change_all-AreValid_example =
    change_all-AreValid (◌==◌) ==_iff octet fine length one busy ((refl, tt), (tt, tt))
