-- ===== src/Modify/Templates.antt =====
-- The variables of a command, replaced by their values.
use tacppd.Common.{
  ◌≡◌, refl, ap, ◌∙◌, ℕ, zero, suc, ◌≤◌, Bool, false, true, some, ◌+◌, ◌<◌, leb, List, [], ◌∷◌,
  ◌++◌, Text, codes, length, length-append, take_all, drop, if◌then◌else◌, ◌==◌, All, arith,
}
use tacppd.Common.Prefix.{begins, scomp_n-begins}
use tacppd.Modify.{Vars, set_var, set_vars, vars_loop, setvars}

pub data Variable : Type 0 where
  username device line caller : Variable

abbrev pub spelling : Variable → Text
spelling username = codes "$name"
spelling device = codes "$nas"
spelling line = codes "$port"
spelling caller = codes "$phone"

abbrev pub value_of : Vars → Variable → Text
value_of v username = v.name
value_of v device = v.nas
value_of v line = v.port
value_of v caller = v.phone

-- A byte, or a variable with the byte behind it.
pub data Piece : Type 0 where
  plain : ℕ → Piece
  variable : Variable → ℕ → Piece

abbrev pub last_byte : Piece → ℕ
last_byte (plain c) = c
last_byte (variable x c) = c

-- The command that is written so, and what it should become.
unfoldable pub written : List Piece → Text
written [] = []
written (plain c ∷ ps) = c ∷ written ps
written (variable x c ∷ ps) = spelling x ++ c ∷ written ps

unfoldable pub meant : Vars → List Piece → Text
meant v [] = []
meant v (plain c ∷ ps) = c ∷ meant v ps
meant v (variable x c ∷ ps) = value_of v x ++ c ∷ meant v ps

set_var-begins :
    (var value out c : Text)
    → set_var var value (out, c)
      ≡ (if begins var c then (out ++ value, drop (length var) c) else (out, c))
unfolding set_var
set_var-begins var value out c =
    ap (λ (b : Bool). if b then (out ++ value, drop (length var) c) else (out, c))
      (scomp_n-begins c var)

-- No variable begins at another byte than $.
set_var-other :
    (var value out rest : Text) (c : ℕ)
    → (c == b'$') ≡ false
    → set_var (b'$' ∷ var) value (out, c ∷ rest) ≡ (out, c ∷ rest)
unfolding begins
set_var-other var value out rest c h =
    set_var-begins (b'$' ∷ var) value out (c ∷ rest) ∙ rw (begins, h) refl

-- The four tests, each from what the one before it left.
four :
    (v : Vars) (c : Text) {a b d e : Text × Text}
    → set_var (codes "$name") v.name ([], c) ≡ a
    → set_var (codes "$nas") v.nas a ≡ b
    → set_var (codes "$port") v.port b ≡ d
    → set_var (codes "$phone") v.phone d ≡ e
    → set_vars v c ≡ e
unfolding set_vars
four v c p q r s = rw (p, q, r, s) refl

set_vars_lem :
    (v : Vars) (x : Variable) (c : ℕ) (rest : Text)
    → (c == b'$') ≡ false
    → set_vars v (spelling x ++ c ∷ rest) ≡ (value_of v x, c ∷ rest)
unfolding begins
set_vars_lem v username c rest h =
    four v (codes "$name" ++ c ∷ rest)
      (set_var-begins (codes "$name") v.name [] (codes "$name" ++ c ∷ rest))
      (set_var-other (codes "nas") v.nas v.name rest c h)
      (set_var-other (codes "port") v.port v.name rest c h)
      (set_var-other (codes "phone") v.phone v.name rest c h)
set_vars_lem v device c rest h =
    four v (codes "$nas" ++ c ∷ rest)
      (set_var-begins (codes "$name") v.name [] (codes "$nas" ++ c ∷ rest))
      (set_var-begins (codes "$nas") v.nas [] (codes "$nas" ++ c ∷ rest))
      (set_var-other (codes "port") v.port v.nas rest c h)
      (set_var-other (codes "phone") v.phone v.nas rest c h)
set_vars_lem v line c rest h =
    four v (codes "$port" ++ c ∷ rest)
      (set_var-begins (codes "$name") v.name [] (codes "$port" ++ c ∷ rest))
      (set_var-begins (codes "$nas") v.nas [] (codes "$port" ++ c ∷ rest))
      (set_var-begins (codes "$port") v.port [] (codes "$port" ++ c ∷ rest))
      (set_var-other (codes "phone") v.phone v.port rest c h)
set_vars_lem v caller c rest h =
    four v (codes "$phone" ++ c ∷ rest)
      (set_var-begins (codes "$name") v.name [] (codes "$phone" ++ c ∷ rest))
      (set_var-begins (codes "$nas") v.nas [] (codes "$phone" ++ c ∷ rest))
      (set_var-begins (codes "$port") v.port [] (codes "$phone" ++ c ∷ rest))
      (set_var-begins (codes "$phone") v.phone [] (codes "$phone" ++ c ∷ rest))

-- Each piece has a byte at its end that begins no variable.
abbrev pub AreSeparate : List Piece → Type 0
AreSeparate ps = All (λ p. (last_byte p == b'$') ≡ false) ps

vars_loop-turn :
    (fuel k : ℕ) (v : Vars) (d e : ℕ) (c out behind : Text)
    → k < 250
    → (if d == b'$' then set_vars v (d ∷ c) else ([], d ∷ c)) ≡ (out, e ∷ behind)
    → vars_loop (suc fuel) k v (d ∷ c) ≡ out ++ e ∷ vars_loop fuel (k + length out + 1) v behind
unfolding vars_loop
vars_loop-turn fuel k v d e c out behind room h =
    let more : leb 250 k ≡ false = ground (arith, room) in
    rw (vars_loop, more)
      (ap
        (λ (r : Text × Text). elim (r.1) [
          | [] ↦ r.0
          | x ∷ more ↦ r.0 ++ x ∷ vars_loop fuel (k + length r.0 + 1) v more
        ])
        h)

-- A turn at a variable.
vars_loop-variable :
    (fuel k : ℕ) (v : Vars) (x : Variable) (c : ℕ) (rest : Text)
    → k < 250
    → (c == b'$') ≡ false
    → vars_loop (suc fuel) k v (spelling x ++ c ∷ rest)
      ≡ value_of v x ++ c ∷ vars_loop fuel (k + length (value_of v x) + 1) v rest
vars_loop-variable fuel k v username c rest room h =
    vars_loop-turn fuel k v b'$' c (codes "name" ++ c ∷ rest) v.name rest room
      (set_vars_lem v username c rest h)
vars_loop-variable fuel k v device c rest room h =
    vars_loop-turn fuel k v b'$' c (codes "nas" ++ c ∷ rest) v.nas rest room
      (set_vars_lem v device c rest h)
vars_loop-variable fuel k v line c rest room h =
    vars_loop-turn fuel k v b'$' c (codes "port" ++ c ∷ rest) v.port rest room
      (set_vars_lem v line c rest h)
vars_loop-variable fuel k v caller c rest room h =
    vars_loop-turn fuel k v b'$' c (codes "phone" ++ c ∷ rest) v.phone rest room
      (set_vars_lem v caller c rest h)

vars_loop_lem :
    (fuel k : ℕ) (v : Vars) (ps : List Piece)
    → AreSeparate ps
    → length (written ps) ≤ fuel
    → k + length (meant v ps) ≤ 250
    → vars_loop fuel k v (written ps) ≡ meant v ps
unfolding vars_loop written meant
vars_loop_lem zero k v [] h f room = refl
vars_loop_lem (suc fuel) k v [] h f room = refl
vars_loop_lem zero k v (plain c ∷ ps) h f room = absurd (omega arith)
vars_loop_lem (suc fuel) k v (plain c ∷ ps) h f room =
    vars_loop-turn fuel k v c c (written ps) [] (written ps) (omega arith)
      (ap (λ b. if b then set_vars v (c ∷ written ps) else ([], c ∷ written ps)) h.0)
    ∙ ap (◌∷◌ c) (vars_loop_lem fuel (k + 0 + 1) v ps h.1 (omega arith) (omega arith))
vars_loop_lem zero k v (variable x c ∷ ps) h f room =
    absurd (omega (arith, length-append (spelling x) (c ∷ written ps)))
vars_loop_lem (suc fuel) k v (variable x c ∷ ps) h f room =
    vars_loop-variable fuel k v x c (written ps)
      (omega (arith, length-append (value_of v x) (c ∷ meant v ps))) h.0
    ∙ ap (λ s. value_of v x ++ c ∷ s)
        (vars_loop_lem fuel (k + length (value_of v x) + 1) v ps h.1
          (omega (arith, length-append (spelling x) (c ∷ written ps)))
          (omega (arith, length-append (value_of v x) (c ∷ meant v ps))))

-- A command in which no variable is followed by a dollar sign, of at most 298 bytes, becomes the
-- command with the values of its variables, if that has at most 249 bytes; of more bytes than these
-- the buffer has no room. The command ends with another byte than a variable.
pub setvars-written :
    (v : Vars) (ps : List Piece)
    → AreSeparate ps
    → length (written ps) ≤ 298
    → length (meant v ps) ≤ 249
    → setvars v (written ps) ≡ some (meant v ps)
unfolding setvars
setvars-written v ps h f room =
    let out = vars_loop_lem (length (written ps)) 0 v ps h (omega arith) (omega arith) in
    let fits : leb (length (meant v ps)) 249 ≡ true = ground (arith, room) in
    rw (take_all 298 (written ps) f, out, fits) refl
