-- ===== src/Pool/Examples.antt =====
-- A pool of two addresses, which are numbers here, and each theorem at an input that meets its hypotheses.
use tacppd.Common.{◌≡◌, ℕ, ◌==◌, ==_iff, ◌≢◌, refl, some, List, [], ◌∷◌, any}
use tacppd.Common.Int.{pos}
use tacppd.Pool.{
  PoolData, new_pool, new_entry, add, get, occupy, Action, adds, dels, gives_back, gets, run,
}
use tacppd.Pool.Held.{IsValid, spares, get-run-get}

abbrev two : PoolData ℕ
two = record { pool = pos 1; ae = new_entry 10 ∷ new_entry 11 ∷ [] }

two_added : add (◌==◌) (add (◌==◌) (new_pool (pos 1)) 10) 11 ≡ two
unfolding add any
two_added = refl

two-IsValid : IsValid (◌==◌) ==_iff two
unfolding any
two-IsValid = (refl, (refl, tt))

ten_first : (get two).1 ≡ some 10
unfolding get occupy
ten_first = refl

abbrev busy : List (Action ℕ)
busy = gets ∷ gives_back 11 ∷ dels 11 ∷ adds 10 ∷ []

get-run-get_example : (get (run (◌==◌) (get two).0 busy)).1 ≢ some 10
unfolding spares
get-run-get_example =
    get-run-get (◌==◌) ==_iff two 10 busy two-IsValid ten_first (refl, (refl, (refl, (refl, tt))))
