-- ===== src/Devices.antt =====
-- The devices with their settings: `CoreDevice` of src/CoreDevice.cc without the sessions, which are
-- in Track/Sessions, the loader of src/DLoad.cc, and `vmatch` of src/Utils.cc on a choice of words.
-- The class `ipaddr` is another library's, and so are dlopen and dlsym.
pub mod Lookups
mod Examples
use tacppd.Common.{
  ℕ, ◌+◌, Bool, true, false, ◌&&◌, Option, none, some, List, [], ◌∷◌, ◌++◌, Text, codes, str_eq,
  is_empty, take, if◌then◌else◌, ◌==◌, leb, any, find, update_first, erase_all,
}
use tacppd.Common.Int.{ℤ, pos, atoi, show_int}

-- What dlopen says of a file, which is nothing where it opens it, and whether dlsym finds a name in
-- an open file.
pub record Linker : Type 0 where
  pub dlopen : Text → Option Text
  pub dlsym : Text → Text → Bool

-- `functions` is whether getnas and dropnas were found: nothing before the first load, where neither
-- pointer is set.
pub record DeviceData (Ip : Type 0) : Type 0 where
  pub hostaddr : Ip
  pub community : Text
  pub descr : Text
  pub modname : Text
  pub tac_key : Text
  pub loginstring : Text
  pub pwdstring : Text
  pub counter : Bool
  pub delay : ℤ
  pub shutdown : Bool
  pub snmppolling : Bool
  pub icmppolling : Bool
  pub def_author : Bool
  pub functions : Option (Bool × Bool)

abbrev pub new_device : {Ip : Type 0} → Ip → DeviceData Ip
new_device h = record {
  hostaddr = h;
  community = codes "public";
  descr = codes "unknown";
  modname = codes "none.so";
  tac_key = codes "tacacs";
  loginstring = codes "login:";
  pwdstring = codes "password:";
  counter = false;
  delay = pos 60;
  shutdown = true;
  snmppolling = false;
  icmppolling = false;
  def_author = false;
  functions = none;
}

-- `DLoad::snmpload` of a module in `dir`, and the search for its functions: what went wrong, and
-- which were found.
unfoldable pub opened : Linker → Text → Text → Text × (Bool × Bool)
opened l dir modname =
    let path = dir ++ codes "/" ++ modname in
    let found : Bool × Bool = (l.dlsym path (codes "getnas"), l.dlsym path (codes "dropnas")) in
    elim (l.dlopen path) [
      | some error ↦ (codes "DSO: " ++ error, (false, false))
      | none ↦ (
        if found.0 && found.1
            then []
            else codes "Unknown snmp module " ++ modname ++ codes " format",
        found,
      )
    ]

-- `Device_data::load`.
abbrev pub load : {Ip : Type 0} → Linker → Text → DeviceData Ip → Text × DeviceData Ip
load l dir d =
    ((opened l dir d.modname).0, record d { functions = some (opened l dir d.modname).1 })

-- The settings that the commands change.
pub data Setting : Type 0 where
  describes keys communities logins pwds : Text → Setting
  authors counts snmps icmps shuts : Bool → Setting
  delays : ℤ → Setting

unfoldable pub set : {Ip : Type 0} → Setting → DeviceData Ip → DeviceData Ip
set (describes s) d = record d { descr = s }
set (keys s) d = record d { tac_key = s }
set (communities s) d = record d { community = s }
set (logins s) d = record d { loginstring = s }
set (pwds s) d = record d { pwdstring = s }
set (authors b) d = record d { def_author = b }
set (counts b) d = record d { counter = b }
set (snmps b) d = record d { snmppolling = b }
set (icmps b) d = record d { icmppolling = b }
set (shuts b) d = record d { shutdown = b }
set (delays n) d = record d { delay = n }

abbrev yes_no : Bool → Text
yes_no true = codes "yes"
yes_no false = codes "no"

abbrev field : Text → Text → Text
field word s = codes "  " ++ word ++ s ++ (0x0a ∷ [])

abbrev quoted : Text → Text
quoted s = codes " '" ++ s ++ codes "'"

-- `Device_data::buildcfstr`. `getn` is a method of `ipaddr`.
unfoldable pub buildcfstr : {Ip : Type 0} → (Ip → Text) → DeviceData Ip → Text
buildcfstr getn d =
    codes " device "
    ++ getn d.hostaddr
    ++ (0x0a ∷ [])
    ++ field (codes "description") (quoted d.descr)
    ++ field (codes "tacacskey") (quoted d.tac_key)
    ++ field (codes "snmpcommunity") (quoted d.community)
    ++ field (codes "loginstring") (quoted d.loginstring)
    ++ field (codes "pwdstring") (quoted d.pwdstring)
    ++ field (codes "defauthorization ") (yes_no d.def_author)
    ++ field (codes "module ") d.modname
    ++ field (codes "polldelay ") (show_int d.delay)
    ++ field (codes "inttrfcount ") (yes_no d.counter)
    ++ field (codes "snmppolling ") (yes_no d.snmppolling)
    ++ field (codes "icmppolling ") (yes_no d.icmppolling)
    ++ field (codes "shutdown ") (yes_no d.shutdown)
    ++ codes "  exit"

-- What is done to the device of an address.
pub data Change : Type 0 where
  adds dels : Change
  sets : Setting → Change
  loads : Text → Change

abbrev pub is_device : {Ip : Type 0} → (Ip → Ip → Bool) → Ip → DeviceData Ip → Bool
is_device eq ip d = eq d.hostaddr ip

module _ {Ip : Type 0} (eq : Ip → Ip → Bool) (l : Linker) (dir : Text) where
  -- `CoreDevice::load` and `modifyModule`.
  unfoldable pub load_at : Ip → List (DeviceData Ip) → Text × List (DeviceData Ip)
  load_at ip nas = elim (find (is_device eq ip) nas) [
    | none ↦ ([], nas)
    | some d ↦ ((load l dir d).0, update_first (is_device eq ip) (λ d. (load l dir d).1) nas)
  ]

  abbrev pub modify_module : Ip → Text → List (DeviceData Ip) → List (DeviceData Ip)
  modify_module ip m nas = update_first (is_device eq ip) (λ d. record d { modname = m }) nas

  abbrev pub getmodulename : Ip → List (DeviceData Ip) → Text
  getmodulename ip nas = elim (find (is_device eq ip) nas) [
    | none ↦ codes "none.so"
    | some d ↦ d.modname
  ]

  -- The command for the module: where the new one does not load, the old one is loaded again.
  unfoldable pub load_module : Ip → Text → List (DeviceData Ip) → Text × List (DeviceData Ip)
  unfolding load_at
  load_module ip m nas =
      let old = getmodulename ip nas in
      let new = load_at ip (modify_module ip m nas) in
      if is_empty new.0 then new else (new.0, (load_at ip (modify_module ip old new.1)).1)

  unfoldable pub change : List (DeviceData Ip) → Ip → Change → Text × List (DeviceData Ip)
  unfolding load_module set
  change nas ip adds = ([], if any (is_device eq ip) nas then nas else nas ++ new_device ip ∷ [])
  change nas ip dels = ([], erase_all (is_device eq ip) nas)
  change nas ip (sets s) = ([], update_first (is_device eq ip) (set s) nas)
  change nas ip (loads m) = load_module ip m nas

-- One word of the mask against the text: the capitals at its start have to be there, and behind
-- them the text and the word agree as far as the shorter of them goes.
unfoldable pub is_upper : ℕ → Bool
is_upper c = leb b'A' c && leb c b'Z'

unfoldable pub tolower : ℕ → ℕ
unfolding is_upper
tolower c = if is_upper c then c + 32 else c

unfoldable pub agrees_behind : Text → Text → Bool
unfolding tolower
agrees_behind [] b = true
agrees_behind (c ∷ s) [] = true
agrees_behind (c ∷ s) (d ∷ b) = let rest = agrees_behind s b in (c == tolower d) && rest

unfoldable pub agrees : Text → Text → Bool
unfolding is_upper tolower agrees_behind
agrees [] b = agrees_behind [] b
agrees (c ∷ s) [] = if is_upper c then false else agrees_behind (c ∷ s) []
agrees (c ∷ s) (d ∷ b) =
    let rest = agrees s b in
    if is_upper c then (tolower c == tolower d) && rest else agrees_behind (c ∷ s) (d ∷ b)

unfoldable lowered : Text → Text
unfolding tolower
lowered [] = []
lowered (c ∷ s) = tolower c ∷ lowered s

unfoldable split_bar : Text → Text → List Text
split_bar word [] = word ∷ []
split_bar word (c ∷ s) =
    let here = split_bar [] s in
    let on = split_bar (word ++ c ∷ []) s in if c == b'|' then word ∷ here else on

unfoldable first_word : List Text → Text → Text
unfolding agrees lowered
first_word [] b = []
first_word (s ∷ words) b = if agrees s b then lowered s else first_word words b

-- `vmatch` with a mask that is a choice of at most ten words of fewer than 100 bytes.
unfoldable pub vmatch : Text → Text → Text
unfolding split_bar first_word
vmatch s mask = if is_empty s then [] else first_word (split_bar [] mask) (take 199 s)

-- The change that a command stands for, and whether its own parameter names the device, or that of
-- the node above.
unfoldable yes : Text → Bool
unfolding vmatch
yes s = if is_empty (vmatch s (codes "Yes")) then false else true

abbrev settings : List (Text × (Text → Change))
settings =
    (codes "confDeviceDescr", λ s. sets (describes s))
    ∷ (codes "confDeviceTKey", λ s. sets (keys s))
    ∷ (codes "confDeviceSnmpComm", λ s. sets (communities s))
    ∷ (codes "confDeviceLogin", λ s. sets (logins s))
    ∷ (codes "confDevicePwd", λ s. sets (pwds s))
    ∷ (codes "confDeviceDauth", λ s. sets (authors (yes s)))
    ∷ (codes "confDeviceModule", λ s. loads s)
    ∷ (codes "confDevicePollDelay", λ s. sets (delays (atoi s)))
    ∷ (codes "confDeviceIntrfCount", λ s. sets (counts (yes s)))
    ∷ (codes "confDeviceSnmpPolling", λ s. sets (snmps (yes s)))
    ∷ (codes "confDeviceIcmpPolling", λ s. sets (icmps (yes s)))
    ∷ (codes "confDeviceShut", λ s. sets (shuts (yes s)))
    ∷ []

unfoldable pub command_change : Text → Text → Option (Bool × Change)
unfolding yes
command_change cmdname param =
    if str_eq cmdname (codes "confDeviceNo")
    then some (true, dels)
    else if str_eq cmdname (codes "confDeviceNode")
    then some (true, adds)
    else elim (find (λ x. str_eq cmdname x.0) settings) [
      | none ↦ none
      | some x ↦ some (false, x.1 param)
    ]

-- `CoreDevice::applycf`: the reply, and the devices. `address` is the constructor of `ipaddr`.
unfoldable pub applycf :
    {Ip : Type 0}
    → (Ip → Ip → Bool)
    → Linker
    → Text
    → (Text → Ip)
    → Text
    → Text
    → Text
    → List (DeviceData Ip)
    → Text × List (DeviceData Ip)
unfolding command_change change
applycf eq l dir address cmdname param up_param nas = elim (command_change cmdname param) [
  | none ↦ ([], nas)
  | some (own, c) ↦ change eq l dir nas (address (if own then param else up_param)) c
]
