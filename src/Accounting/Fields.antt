-- ===== src/Accounting/Fields.antt =====
-- What the fields of a record of accounting become, from the pairs that `process` makes of a request.
use tacppd.Common.{
  ◌≡◌, refl, sym, subst, ◌∙◌, ap, ℕ, suc, Bool, false, ◌||◌, List, [], ◌∷◌, ◌++◌, Text, codes, All,
  arith, if◌then◌else◌, ◌==◌, str_eq,
}
use tacppd.Common.Prefix.{scomp_n, scomp_n-append}
use tacppd.Tacacs.Request.{Request}
use tacppd.Tacacs.Acct.{flag_start, flag_stop}
use tacppd.Tacacs.Acct.Process.{action_of, kept_pairs, log_pairs}
use tacppd.Accounting.{
  AcctAction, start, stop, update, LogUser, named_action, set_field, set_fields,
}

-- The pair names what the packet itself says.
unfoldable pub claims : Text → Bool
claims s =
    scomp_n s (codes "action=") 7
    || (scomp_n s (codes "user=") 5
        || (scomp_n s (codes "port=") 5
            || (scomp_n s (codes "from=") 5 || scomp_n s (codes "nas=") 4)))

-- The action of a request with these flags.
abbrev pub action_for : ℕ → AcctAction
action_for flag = if flag == flag_start then start else if flag == flag_stop then stop else update

module _ {Ip : Type 0} (fill : Text → Ip → Ip) where
  -- Action, user, port, address and device of a record.
  abbrev pub Says : AcctAction → Text → Text → Text → Ip → LogUser Ip → Type 0
  Says a u p f n l =
      (l.action ≡ a) × (l.username ≡ u) × (l.port ≡ p) × (l.from_addr ≡ f) × (l.nas ≡ n)

  set_field-Says :
      (a : AcctAction) (u p f : Text) (n : Ip) (l : LogUser Ip) (s : Text)
      → claims s ≡ false
      → Says a u p f n l
      → Says a u p f n (set_field fill l s)
  unfolding claims set_field
  set_field-Says a u p f n l s h k = ground (arith, h, k)

  set_fields-Says :
      (a : AcctAction) (u p f : Text) (n : Ip) (l : LogUser Ip) (ss : List Text)
      → All (λ s. claims s ≡ false) ss
      → Says a u p f n l
      → Says a u p f n (set_fields fill l ss)
  unfolding set_fields
  set_fields-Says a u p f n l [] h k = k
  set_fields-Says a u p f n l (s ∷ ss) h k =
      set_fields-Says a u p f n (set_field fill l s) ss h.1 (set_field-Says a u p f n l s h.0 k)

  kept_pairs-All :
      (ss : List Text)
      → All (λ s. claims s ≡ false) ss
      → All (λ s. claims s ≡ false) (kept_pairs ss)
  unfolding kept_pairs
  kept_pairs-All [] h = tt
  kept_pairs-All (s ∷ ss) h = ground (arith, kept_pairs-All ss h.1, h.0)

  -- Texts that differ at their first byte.
  scomp_n-ne :
      (c d : ℕ) (s p : Text) (n : ℕ) → (c == d) ≡ false → scomp_n (c ∷ s) (d ∷ p) (suc n) ≡ false
  unfolding scomp_n str_eq
  scomp_n-ne c d s p n h = ground (arith, h)

  set_field-action :
      (l : LogUser Ip) (s : Text)
      → set_field fill l (codes "action=" ++ s) ≡ record l { action = named_action s l.action }
  unfolding set_field
  set_field-action l s = rw (scomp_n-append (codes "action=") s) refl

  set_field-user :
      (l : LogUser Ip) (s : Text)
      → set_field fill l (codes "user=" ++ s) ≡ record l { username = s }
  unfolding set_field
  set_field-user l s =
      rw
        (
          scomp_n-ne 117 97 (codes "ser=" ++ s) (codes "ction=") 6 refl,
          scomp_n-append (codes "user=") s,
        )
        refl

  set_field-port :
      (l : LogUser Ip) (s : Text) → set_field fill l (codes "port=" ++ s) ≡ record l { port = s }
  unfolding set_field
  set_field-port l s =
      rw
        (
          scomp_n-ne 112 97 (codes "ort=" ++ s) (codes "ction=") 6 refl,
          scomp_n-ne 112 117 (codes "ort=" ++ s) (codes "ser=") 4 refl,
          scomp_n-append (codes "port=") s,
        )
        refl

  set_field-from :
      (l : LogUser Ip) (s : Text)
      → set_field fill l (codes "from=" ++ s) ≡ record l { from_addr = s }
  unfolding set_field
  set_field-from l s =
      rw
        (
          scomp_n-ne 102 97 (codes "rom=" ++ s) (codes "ction=") 6 refl,
          scomp_n-ne 102 117 (codes "rom=" ++ s) (codes "ser=") 4 refl,
          scomp_n-ne 102 112 (codes "rom=" ++ s) (codes "ort=") 4 refl,
          scomp_n-append (codes "from=") s,
        )
        refl

  set_field-nas :
      (l : LogUser Ip) (s : Text)
      → set_field fill l (codes "nas=" ++ s) ≡ record l { nas = fill s l.nas }
  unfolding set_field
  set_field-nas l s =
      rw
        (
          scomp_n-ne 110 97 (codes "as=" ++ s) (codes "ction=") 6 refl,
          scomp_n-ne 110 117 (codes "as=" ++ s) (codes "ser=") 4 refl,
          scomp_n-ne 110 112 (codes "as=" ++ s) (codes "ort=") 4 refl,
          scomp_n-ne 110 102 (codes "as=" ++ s) (codes "rom=") 4 refl,
          scomp_n-append (codes "nas=") s,
        )
        refl

  named_action-action_of :
      (flag : ℕ) (a : AcctAction) → named_action (action_of flag) a ≡ action_for flag
  unfolding named_action action_of str_eq
  named_action-action_of flag a = ground arith

  -- The record of a request of accounting has the action of its flags, its user, port and address, and
  -- the device that the packet came from, unless a pair of the request begins with the name of one of
  -- these fields.
  pub set_fields-log_pairs :
      (l : LogUser Ip) (nas : Text) (flag : ℕ) (q : Request)
      → All (λ s. claims s ≡ false) q.avpair
      → Says
          (action_for flag)
          q.user
          q.port
          q.rem_addr
          (fill nas l.nas)
          (set_fields fill l (log_pairs nas flag q))
  unfolding log_pairs set_fields
  set_fields-log_pairs l nas flag q h =
      let l₁ = record l { action = action_for flag } in
      let l₂ = record l₁ { username = q.user } in
      let l₃ = record l₂ { port = q.port } in
      let l₄ = record l₃ { from_addr = q.rem_addr } in
      let l₅ = record l₄ { nas = fill nas l.nas } in
      let r4 : List Text = kept_pairs q.avpair in
      let r3 : List Text = (codes "nas=" ++ nas) ∷ r4 in
      let r2 : List Text = (codes "from=" ++ q.rem_addr) ∷ r3 in
      let r1 : List Text = (codes "port=" ++ q.port) ∷ r2 in
      let r0 : List Text = (codes "user=" ++ q.user) ∷ r1 in
      let first : set_field fill l (codes "action=" ++ action_of flag) ≡ l₁ =
        set_field-action l (action_of flag)
        ∙ ap (λ a. record l { action = a }) (named_action-action_of flag l.action) in
      subst (λ x. Says (action_for flag) q.user q.port q.rem_addr (fill nas l.nas) x)
        (sym (
          next l l₁ (codes "action=" ++ action_of flag) r0 first
          ∙ next l₁ l₂ (codes "user=" ++ q.user) r1 (set_field-user l₁ q.user)
          ∙ next l₂ l₃ (codes "port=" ++ q.port) r2 (set_field-port l₂ q.port)
          ∙ next l₃ l₄ (codes "from=" ++ q.rem_addr) r3 (set_field-from l₃ q.rem_addr)
          ∙ next l₄ l₅ (codes "nas=" ++ nas) r4 (set_field-nas l₄ nas)))
        (set_fields-Says (action_for flag) q.user q.port q.rem_addr (fill nas l.nas) l₅
          (kept_pairs q.avpair) (kept_pairs-All q.avpair h) (refl, refl, refl, refl, refl))
    where
      next :
          (x y : LogUser Ip) (s : Text) (ss : List Text)
          → set_field fill x s ≡ y
          → set_fields fill x (s ∷ ss) ≡ set_fields fill y ss
      next x y s ss e = ap (λ z. set_fields fill z ss) e
