-- ===== src/ServerTrack/Examples.antt =====
-- A server that another one, of a higher priority, sends an update. Addresses are numbers here: 0
-- is the default one, and 1 the unknown one.
use tacppd.Common.{◌≡◌, ℕ, ◌==◌, ==_iff, true, List, [], ◌∷◌}
use tacppd.Common.Int.{pos}
use tacppd.ServerTrack.{Event, checks, updates, send_start, is_active, run}
use tacppd.ServerTrack.Alone.{IsAlone, run-send_start}

abbrev peer_speaks : List (Event ℕ)
peer_speaks = updates 77 (pos 200) 11 ∷ checks 60 ∷ []

run-send_start_example :
    IsAlone (◌==◌) ==_iff 0 1 (run (◌==◌) 0 1 (send_start (◌==◌) 0 1 [] (pos 100) 10) peer_speaks)
    × (is_active (◌==◌) 0 1 (run (◌==◌) 0 1 (send_start (◌==◌) 0 1 [] (pos 100) 10) peer_speaks)
        ≡ true)
run-send_start_example = run-send_start (◌==◌) ==_iff 0 1 (pos 100) 10 peer_speaks
