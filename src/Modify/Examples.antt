-- ===== src/Modify/Examples.antt =====
-- Pairs with calls at concrete inputs. The database answers every query with the same text, and the
-- programs with nothing.
use tacppd.Common.{
  ◌≡◌, refl, ℕ, ◌+◌, List, [], ◌∷◌, ◌++◌, Text, codes, length, drop, some, arith, str_eq, take,
  none, Bool-cases, Option-cases, inl, inr,
}
use tacppd.Common.Int.{pos, int_lt, atoi}
use tacppd.Common.Prefix.{scomp_n, before, after}
use tacppd.User.{UserAvp, new_user, avp_get, avp_set, erase_at}
use tacppd.Pool.{PoolData, new_entry}
use tacppd.Pool.Pools.{get_from}
use tacppd.Modify.{
  Vars, Modified, modifyer, modify_loop, replace, call, modify_int, command, kind_of, get_avp_name,
  get_avp_value, get_avp_mod, setvars, vars_loop, set_vars, set_var, internal, query, external,
}
use tacppd.Modify.Ends.{AreSettled, IsQuiet, calls, modifyer-some}
use tacppd.Modify.Templates.{plain, variable, username, written, meant, setvars-written}

abbrev show : ℕ → Text
show ip = codes "10.0.0." ++ (b'0' + ip) ∷ []

abbrev sql : Text → ℕ → Text × ℕ
sql s w = (codes "60", w + 1)

abbrev ext : Text → ℕ → Text × ℕ
ext s w = ([], w)

abbrev vars : Vars
vars = record {
  name = codes "ann";
  nas = codes "10.0.0.9";
  port = codes "As1";
  phone = codes "5551";
}

abbrev pair : Text → UserAvp
pair s = record { service = codes "ppp"; protocol = codes "ip"; avp = s }

abbrev state : Modified show sql ext (codes "/etc/tacppd")
state = record {
  user = record new_user {
    avps =
        pair (codes "inacl=1")
        ∷ pair (codes "addr=INT:addrpool=1")
        ∷ pair (codes "timeout=SQL:f('$name')")
        ∷ [];
  };
  pools = record { pool = pos 1; ae = new_entry 3 ∷ [] } ∷ [];
  outside = 0;
}

setvars-written_example : setvars vars (codes "f('$name')") ≡ some (codes "f('ann')")
unfolding written meant
setvars-written_example =
    setvars-written vars
      (plain b'f' ∷ plain b'(' ∷ plain 39 ∷ variable username 39 ∷ plain b')' ∷ [])
      (refl, (refl, (refl, (refl, (refl, tt))))) (omega arith) (omega arith)

-- Two variables in a row are not replaced both, if the second one is tested before the first.
neighbours : setvars vars (codes "$nas$name") ≡ some (codes "10.0.0.9$name")
unfolding setvars vars_loop set_vars set_var scomp_n str_eq
neighbours = refl

int-IsQuiet :
    (s : Text) (pools : List (PoolData ℕ))
    → kind_of (take 300 (modify_int show sql ext (codes "/etc/tacppd") s pools).0) ≡ none
unfolding modify_int kind_of scomp_n str_eq
int-IsQuiet s pools = elim (Bool-cases (scomp_n s (codes "addrpool=") 9)) [
  | inr e ↦ rw (modify_int, e) refl
  | inl e ↦ elim (Bool-cases (int_lt (pos 0) (atoi (get_avp_value s)))) [
    | inr f ↦ rw (modify_int, e, f) refl
    | inl f ↦ elim (Option-cases (get_from (atoi (get_avp_value s)) pools).1) [
      | inl g ↦ rw (modify_int, e, f, g) refl
      | inr (ip, g) ↦ rw (modify_int, e, f, g) refl
    ]
  ]
]

quiet : IsQuiet show sql ext (codes "/etc/tacppd")
unfolding call kind_of scomp_n str_eq
quiet internal s m = int-IsQuiet s m.pools
quiet query s m = refl
quiet external s m = refl

modifyer-some_example :
    (m' : Modified show sql ext (codes "/etc/tacppd")) × ((modifyer show sql ext
          (codes "/etc/tacppd")
          12
          vars
          state
        ≡ some m')
      × AreSettled (drop 1 m'.user.avps)
      × (length m'.user.avps ≡ 3))
unfolding calls kind_of get_avp_value after scomp_n str_eq
modifyer-some_example =
    modifyer-some show sql ext (codes "/etc/tacppd") quiet vars 12 state (omega arith)

-- Of two calls in front, the second one moves to the first place, where the loop does not come back to.
abbrev two_calls : Modified show sql ext (codes "/etc/tacppd")
two_calls = record state {
  user = record new_user { avps = pair (codes "a=SQL:x") ∷ pair (codes "b=SQL:y") ∷ [] };
}

second_is_left :
    modifyer show sql ext (codes "/etc/tacppd") 12 vars two_calls
    ≡ some (record two_calls {
      user = record new_user { avps = pair (codes "b=SQL:y") ∷ pair (codes "a=60") ∷ [] };
      outside = 1;
    })
unfolding modifyer modify_loop replace call command kind_of get_avp_name get_avp_value get_avp_mod
    before after setvars vars_loop set_vars set_var scomp_n str_eq avp_get avp_set erase_at
second_is_left = refl
