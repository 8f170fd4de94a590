-- ===== src/Devices/Examples.antt =====
-- The devices on concrete commands.
use tacppd.Common.{
  ◌≡◌, refl, ℕ, true, false, some, none, List, [], ◌∷◌, codes, str_eq, find, any, update_first,
  erase_all, if◌then◌else◌, ◌==◌, ==_iff,
}
use tacppd.Devices.{
  Linker, Change, adds, dels, sets, loads, describes, shuts, is_device, new_device, opened, change,
  vmatch, applycf,
}
use tacppd.Devices.Lookups.{change_all, step_all, device-change_all}

-- One module of the directory opens, and has both functions. Addresses are numbers here.
abbrev linker : Linker
linker = record {
  dlopen = λ path. if str_eq path (codes "snmp/as.so") then none else some (codes "no file");
  dlsym = λ path name. true;
}

abbrev commands : List (ℕ × Change)
commands =
    (7, adds)
    ∷ (8, adds)
    ∷ (7, loads (codes "as.so"))
    ∷ (7, loads (codes "gone.so"))
    ∷ (8, sets (shuts false))
    ∷ (8, dels)
    ∷ (7, sets (describes (codes "x")))
    ∷ []

device-change_all_example :
    find (is_device ◌==◌ 7) (change_all ◌==◌ linker (codes "snmp") [] commands)
    ≡ step_all ◌==◌ linker (codes "snmp") 7 none commands
unfolding find
device-change_all_example = device-change_all ◌==◌ linker (codes "snmp") ==_iff [] commands 7

-- The module that is not there leaves the other one loaded.
kept :
    find (is_device ◌==◌ 7) (change_all ◌==◌ linker (codes "snmp") [] commands)
    ≡ some (record (new_device 7) {
      modname = codes "as.so";
      descr = codes "x";
      functions = some (true, true);
    })
unfolding change_all change find update_first erase_all any opened str_eq
kept = refl

yes_text : vmatch (codes "Y") (codes "No|Yes") ≡ codes "yes"
unfolding vmatch
yes_text = refl

longer_text : vmatch (codes "yesterday") (codes "No|Yes") ≡ codes "yes"
unfolding vmatch
longer_text = refl

other_text : vmatch (codes "maybe") (codes "No|Yes") ≡ []
unfolding vmatch
other_text = refl

opened_up :
    (applycf ◌==◌ linker
      (codes "snmp")
      (λ s. 7)
      (codes "confDeviceShut")
      (codes "no")
      []
      (new_device 7 ∷ [])).1
    ≡ record (new_device 7) { shutdown = false } ∷ []
unfolding applycf str_eq find update_first
opened_up = refl
