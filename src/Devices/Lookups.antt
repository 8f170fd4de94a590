-- ===== src/Devices/Lookups.antt =====
-- What is known of one device after any commands.
use tacppd.Common.{
  ◌≡◌, ◌↔◌, refl, sym, ap, subst, ◌∙◌, Bool, true, false, Option, none, some, List, [], ◌∷◌, Text,
  codes, if◌then◌else◌, is_empty, find, update_first, Bool-cases, Option-cases, inl, inr,
}
use tacppd.Common.Keyed.{find-update_first, find-erase_all, find-add}
use tacppd.Devices.{
  DeviceData, Linker, Change, adds, dels, sets, loads, Setting, describes, keys, communities,
  logins, pwds, authors, counts, snmps, icmps, shuts, delays, set, load, new_device, is_device,
  load_at, modify_module, getmodulename, load_module, change,
}

-- A device after the command for its module: with the new module if that loads, and else as after a
-- load of the module that it had.
unfoldable pub reload : {Ip : Type 0} → Linker → Text → Text → DeviceData Ip → DeviceData Ip
reload l dir m d =
    let new = load l dir (record d { modname = m }) in
    if is_empty new.0 then new.1 else (load l dir d).1

-- A device as a map has it: nothing, or its settings.
unfoldable pub step :
    {Ip : Type 0} → Linker → Text → Ip → Change → Option (DeviceData Ip) → Option (DeviceData Ip)
unfolding reload set
step l dir ip adds o = elim o [ none ↦ some (new_device ip) | some d ↦ some d ]
step l dir ip dels o = none
step l dir ip (sets s) o = elim o [ none ↦ none | some d ↦ some (set s d) ]
step l dir ip (loads m) o = elim o [ none ↦ none | some d ↦ some (reload l dir m d) ]

module _ {Ip : Type 0} (eq : Ip → Ip → Bool) (same : (a b : Ip) → (eq a b ≡ true) ↔ (a ≡ b))
    (l : Linker) (dir : Text) where
  abbrev at : Ip → List (DeviceData Ip) → Option (DeviceData Ip)
  at ip nas = find (is_device eq ip) nas

  -- A change of the device of an address, which keeps the address.
  at-update :
      (f : DeviceData Ip → DeviceData Ip)
      (keeps : (d : DeviceData Ip) → (f d).hostaddr ≡ d.hostaddr) (ip j : Ip)
      (nas : List (DeviceData Ip))
      → at j (update_first (is_device eq ip) f nas)
        ≡ (if eq ip j then elim (at j nas) [ none ↦ none | some d ↦ some (f d) ] else at j nas)
  at-update f keeps ip j nas = elim (Bool-cases (eq ip j)) [
    | inl e ↦
        rw
          (
            find-update_first (λ d. d.hostaddr) eq same f keeps ip j nas,
            e,
            ap (λ c. at c nas) ((same ip j).0 e),
          )
          refl
    | inr e ↦ rw (find-update_first (λ d. d.hostaddr) eq same f keeps ip j nas, e) refl
  ]

  host-set : (s : Setting) (d : DeviceData Ip) → (set s d).hostaddr ≡ d.hostaddr
  unfolding set
  host-set (describes x) d = refl
  host-set (keys x) d = refl
  host-set (communities x) d = refl
  host-set (logins x) d = refl
  host-set (pwds x) d = refl
  host-set (authors x) d = refl
  host-set (counts x) d = refl
  host-set (snmps x) d = refl
  host-set (icmps x) d = refl
  host-set (shuts x) d = refl
  host-set (delays x) d = refl

  abbrev after_load :
      Ip → List (DeviceData Ip) → Option (DeviceData Ip) → Text × List (DeviceData Ip)
  after_load ip nas o = elim o [
    | none ↦ ([], nas)
    | some d ↦ ((load l dir d).0, update_first (is_device eq ip) (λ d. (load l dir d).1) nas)
  ]

  -- `CoreDevice::load`.
  load_at-none :
      (ip : Ip) (nas : List (DeviceData Ip))
      → at ip nas ≡ none
      → load_at eq l dir ip nas ≡ ([], nas)
  unfolding load_at
  load_at-none ip nas e = ap (λ o. after_load ip nas o) e

  load_at-some :
      (ip : Ip) (nas : List (DeviceData Ip)) (d : DeviceData Ip)
      → at ip nas ≡ some d
      → load_at eq l dir ip nas
        ≡ ((load l dir d).0, update_first (is_device eq ip) (λ d. (load l dir d).1) nas)
  unfolding load_at
  load_at-some ip nas d e = ap (λ o. after_load ip nas o) e

  at-load_at :
      (ip j : Ip) (nas : List (DeviceData Ip))
      → at j (load_at eq l dir ip nas).1 ≡ (
          if eq ip j
          then elim (at j nas) [ none ↦ none | some d ↦ some (load l dir d).1 ]
          else at j nas)
  at-load_at ip j nas = elim (Option-cases (at ip nas)) [
    | inr (d, e) ↦
        rw (load_at-some ip nas d e) (at-update (λ d. (load l dir d).1) (λ _. refl) ip j nas)
    | inl e ↦ elim (Bool-cases (eq ip j)) [
      | inl e' ↦ rw (load_at-none ip nas e, e', sym (ap (λ c. at c nas) ((same ip j).0 e')), e) refl
      | inr e' ↦ rw (load_at-none ip nas e, e') refl
    ]
  ]

  load_at-text :
      (ip : Ip) (nas : List (DeviceData Ip))
      → (load_at eq l dir ip nas).0 ≡ elim (at ip nas) [ none ↦ [] | some d ↦ (load l dir d).0 ]
  load_at-text ip nas = elim (Option-cases (at ip nas)) [
    | inl e ↦ rw (load_at-none ip nas e, e) refl
    | inr (d, e) ↦ rw (load_at-some ip nas d e, e) refl
  ]

  update-here :
      (f : DeviceData Ip → DeviceData Ip)
      (keeps : (d : DeviceData Ip) → (f d).hostaddr ≡ d.hostaddr) (ip : Ip)
      (nas : List (DeviceData Ip))
      → at ip (update_first (is_device eq ip) f nas)
        ≡ elim (at ip nas) [ none ↦ none | some d ↦ some (f d) ]
  update-here f keeps ip nas = at-update f keeps ip ip nas ∙ rw ((same ip ip).1 refl) refl

  load_at-here :
      (ip : Ip) (nas : List (DeviceData Ip))
      → at ip (load_at eq l dir ip nas).1
        ≡ elim (at ip nas) [ none ↦ none | some d ↦ some (load l dir d).1 ]
  load_at-here ip nas = at-load_at ip ip nas ∙ rw ((same ip ip).1 refl) refl

  -- The device of the address after the command for its module.
  load_module-here :
      (ip : Ip) (m : Text) (nas : List (DeviceData Ip))
      → at ip (load_module eq l dir ip m nas).1
        ≡ elim (at ip nas) [ none ↦ none | some d ↦ some (reload l dir m d) ]
  unfolding load_module reload
  load_module-here ip m nas =
      let modified = modify_module eq l dir ip m nas in
      let new = load_at eq l dir ip modified in
      elim (Option-cases (at ip nas)) [
        | inl e ↦
            let gone : at ip modified ≡ none =
              update-here (λ d. record d { modname = m }) (λ _. refl) ip nas ∙ rw e refl in
            rw (load_at-none ip modified gone, e) gone
        | inr (d, e) ↦
            let named : at ip modified ≡ some (record d { modname = m }) =
              update-here (λ d. record d { modname = m }) (λ _. refl) ip nas ∙ rw e refl in
            let text : new.0 ≡ (load l dir (record d { modname = m })).0 =
              load_at-text ip modified ∙ rw named refl in
            let loaded : at ip new.1 ≡ some (load l dir (record d { modname = m })).1 =
              load_at-here ip modified ∙ rw named refl in
            elim (Bool-cases (is_empty (load l dir (record d { modname = m })).0)) [
              | inl f ↦ rw (ap is_empty text ∙ f, e, f) loaded
              | inr f ↦
                  let old = getmodulename eq l dir ip nas in
                  let same_name : old ≡ d.modname =
                    ap
                      (λ (o : Option (DeviceData Ip)). elim o [
                        | none ↦ codes "none.so"
                        | some d ↦ d.modname
                      ])
                      e in
                  let named_again : Text → DeviceData Ip =
                    λ n. record (load l dir (record d { modname = m })).1 { modname = n } in
                  let undone : at ip (modify_module eq l dir ip old new.1)
                      ≡ some (named_again old) =
                    update-here (λ a. record a { modname = old }) (λ _. refl) ip new.1
                    ∙ rw loaded refl in
                  rw (ap is_empty text ∙ f, e, f)
                    (load_at-here ip (modify_module eq l dir ip old new.1)
                      ∙ rw undone (ap (λ n. some (load l dir (named_again n)).1) same_name))
            ]
      ]

  -- The device of any other address.
  load_module-there :
      (ip j : Ip) (m : Text) (nas : List (DeviceData Ip))
      → eq ip j ≡ false
      → at j (load_module eq l dir ip m nas).1 ≡ at j nas
  unfolding load_module
  load_module-there ip j m nas e =
      let old = getmodulename eq l dir ip nas in
      let modified = at-update (λ d. record d { modname = m }) (λ _. refl) ip j nas ∙ rw e refl in
      let new = load_at eq l dir ip (modify_module eq l dir ip m nas) in
      let loaded : at j new.1 ≡ at j nas = at-load_at ip j _ ∙ rw e modified in
      let undone : at j (modify_module eq l dir ip old new.1) ≡ at j nas =
        at-update (λ d. record d { modname = old }) (λ _. refl) ip j new.1 ∙ rw e loaded in
      elim (Bool-cases (is_empty new.0)) [
        | inl f ↦ rw f loaded
        | inr f ↦ rw f (at-load_at ip j (modify_module eq l dir ip old new.1) ∙ rw e undone)
      ]

  -- What a command does to the device at an address.
  at-change :
      (nas : List (DeviceData Ip)) (ip : Ip) (c : Change) (j : Ip)
      → at j (change eq l dir nas ip c).1
        ≡ (if eq ip j then step l dir ip c (at j nas) else at j nas)
  unfolding change step
  at-change nas ip adds j = find-add (λ d. d.hostaddr) eq same ip (new_device ip) refl j nas
  at-change nas ip dels j = find-erase_all (λ d. d.hostaddr) eq same ip j nas
  at-change nas ip (sets s) j = at-update (set s) (host-set s) ip j nas
  at-change nas ip (loads m) j = elim (Bool-cases (eq ip j)) [
    | inl e ↦ rw e (
        subst
          (λ a.
            at a (load_module eq l dir ip m nas).1
            ≡ elim (at a nas) [ none ↦ none | some d ↦ some (reload l dir m d) ])
          ((same ip j).0 e) (load_module-here ip m nas))
    | inr e ↦ rw e (load_module-there ip j m nas e)
  ]

module _ {Ip : Type 0} (eq : Ip → Ip → Bool) (l : Linker) (dir : Text) where
  -- The commands of a configuration, in their order.
  unfoldable pub change_all : List (DeviceData Ip) → List (Ip × Change) → List (DeviceData Ip)
  unfolding change
  change_all nas [] = nas
  change_all nas (x ∷ xs) = change_all (change eq l dir nas x.0 x.1).1 xs

  -- One device by its own commands alone.
  unfoldable pub step_all :
      Ip → Option (DeviceData Ip) → List (Ip × Change) → Option (DeviceData Ip)
  unfolding step
  step_all ip o [] = o
  step_all ip o (x ∷ xs) =
      if eq x.0 ip then step_all ip (step l dir x.0 x.1 o) xs else step_all ip o xs

  module _ (same : (a b : Ip) → (eq a b ≡ true) ↔ (a ≡ b)) where
    -- After any commands the list has under an address what the commands for it alone make of what
    -- it had there, where a command for a module that does not load leaves the device as a load of
    -- the module that it had does. The test of addresses decides equality.
    pub device-change_all :
        (nas : List (DeviceData Ip)) (cs : List (Ip × Change)) (ip : Ip)
        → find (is_device eq ip) (change_all nas cs) ≡ step_all ip (find (is_device eq ip) nas) cs
    unfolding change_all step_all
    device-change_all nas [] ip = refl
    device-change_all nas (x ∷ xs) ip =
        let rest = device-change_all (change eq l dir nas x.0 x.1).1 xs ip in
        let first = at-change eq same l dir nas x.0 x.1 ip in
        elim (Bool-cases (eq x.0 ip)) [
          | inl e ↦ rw e (rest ∙ ap (λ o. step_all ip o xs) (first ∙ rw e refl))
          | inr e ↦ rw e (rest ∙ ap (λ o. step_all ip o xs) (first ∙ rw e refl))
        ]
