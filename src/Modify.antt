-- ===== src/Modify.antt =====
-- The pairs of a user whose values are calls, such as addr=INT:addrpool=1: `AModify` of
-- src/AModify.cc, and `utl::getAvpName`, `getAvpValue` and `getAvpMod` of src/Utils.cc, by which it
-- reads a pair. Of texts that run over its buffers, which C++ leaves undefined, nothing is meant.
pub mod Ends
pub mod Templates
mod Examples
use tacppd.Common.{
  ℕ, zero, suc, ◌+◌, Bool, true, false, ◌||◌, Option, none, some, List, [], ◌∷◌, ◌++◌, Text, codes,
  length, take, drop, is_empty, if◌then◌else◌, ◌==◌, ltb, leb,
}
use tacppd.Common.Int.{ℤ, pos, int_lt, atoi}
use tacppd.Common.Prefix.{scomp_n, before, after}
use tacppd.User.{UserAvp, DbUser, avp_get, avp_set}
use tacppd.Pool.{PoolData}
use tacppd.Pool.Pools.{get_from}

-- `getAvpName`: the empty text if there is no =, or behind 200 bytes only.
unfoldable pub get_avp_name : Text → Text
unfolding before after
get_avp_name av = elim (after b'=' av) [
  | none ↦ []
  | some _ ↦ (if ltb 200 (length (before b'=' av)) then [] else before b'=' av)
]

-- `getAvpValue` and `getAvpMod`.
unfoldable pub get_avp_value : Text → Text
unfolding after
get_avp_value av = elim (after b'=' av) [ none ↦ [] | some s ↦ take 300 s ]

unfoldable pub get_avp_mod : Text → Text
unfolding after
get_avp_mod av = elim (after b':' av) [ none ↦ [] | some s ↦ take 300 s ]

-- What the variables of a command stand for.
pub record Vars : Type 0 where
  pub name : Text
  pub nas : Text
  pub port : Text
  pub phone : Text

-- One of the tests of `setvars`: what was written, and the rest of the text.
unfoldable pub set_var : Text → Text → Text × Text → Text × Text
set_var var value (out, c) =
    if scomp_n c var (length var) then (out ++ value, drop (length var) c) else (out, c)

-- The four tests at a $, one behind the other.
unfoldable pub set_vars : Vars → Text → Text × Text
unfolding set_var
set_vars v c = set_var (codes "$phone") v.phone (
    set_var (codes "$port") v.port
      (set_var (codes "$nas") v.nas (set_var (codes "$name") v.name ([], c))))

-- The loop of `setvars`, where `str` holds `k` bytes: `c[i]!=0 && k<(int)sizeof(str)`. Each turn takes a
-- byte at least, and the fuel is the length of the text. Behind a variable at the end of the text the 0
-- is copied, which ends what is read from `str`.
unfoldable pub vars_loop : ℕ → ℕ → Vars → Text → Text
unfolding set_vars
vars_loop zero k v c = []
vars_loop (suc fuel) k v [] = []
vars_loop (suc fuel) k v (d ∷ c) = elim (leb 250 k) [
  | true ↦ []
  | false ↦
      let (out, rest) = if d == b'$' then set_vars v (d ∷ c) else ([], d ∷ c) in
      elim rest [ [] ↦ out | e ∷ behind ↦ out ++ e ∷ vars_loop fuel (k + length out + 1) v behind ]
]

-- Of 250 bytes or more, which leave `str` without its 0 or run over it, nothing is said (`none`).
unfoldable pub setvars : Vars → Text → Option Text
unfolding vars_loop
setvars v sc =
    let c = take 298 sc in
    let out = vars_loop (length c) 0 v c in if leb (length out) 249 then some out else none

-- Where `setvars` runs over its buffer, nothing is meant.
abbrev pub text_of : Option Text → Text
text_of none = []
text_of (some s) = s

-- The three kinds of calls.
pub data Kind : Type 0 where
  internal query external : Kind

unfoldable pub kind_of : Text → Option Kind
kind_of value =
    if scomp_n value (codes "EXT:") 4
    then some external
    else if scomp_n value (codes "SQL:") 4
    then some query
    else if scomp_n value (codes "INT:") 4
    then some internal
    else none

-- `sql` and `ext` are the database and the programs in the directory, which change what is outside;
-- `show` is `ipaddr::get`.
module _ {Ip W : Type 0} (show : Ip → Text) (sql ext : Text → W → Text × W) (maindir : Text) where
  -- `AModify_INT::modifyer`.
  unfoldable pub modify_int : Text → List (PoolData Ip) → Text × List (PoolData Ip)
  unfolding get_avp_value get_from
  modify_int s pools =
      let poolnum = atoi (get_avp_value s) in
      let got = get_from poolnum pools in
      if scomp_n s (codes "addrpool=") 9
      then (if int_lt (pos 0) poolnum
          then (elim (got.1) [ none ↦ [] | some ip ↦ show ip ], got.0)
          else (codes "0.0.0.0", pools))
      else ([], pools)

  -- The call, its command and what it changes.
  unfoldable pub call : Kind → Text → List (PoolData Ip) → W → Text × List (PoolData Ip) × W
  unfolding modify_int
  call internal s pools w = let (out, pools') = modify_int s pools in (out, pools', w)
  call query s pools w = let (out, w') = sql s w in (out, pools, w')
  call external s pools w = let (out, w') = ext s w in (out, pools, w')

  unfoldable pub command : Kind → Text → Text
  unfolding get_avp_mod
  command internal value = get_avp_mod value
  command query value = get_avp_mod value
  command external value = maindir ++ (codes "/ext/" ++ get_avp_mod value)

  -- The user, the pools, and what is outside.
  pub record Modified : Type 0 where
    pub user : DbUser
    pub pools : List (PoolData Ip)
    pub outside : W

  -- The pair at that place, whose value is a call, is replaced.
  unfoldable pub replace : Vars → Kind → ℕ → Modified → Modified
  unfolding get_avp_name get_avp_value avp_get avp_set command call setvars
  replace v kind i m =
      let avp = avp_get m.user i in
      let (out, pools', w') =
        call kind (take 249 (text_of (setvars v (command kind (get_avp_value avp.avp))))) m.pools
          m.outside in
      record {
        user = avp_set m.user i (record avp { avp = get_avp_name avp.avp ++ (codes "=" ++ out) });
        pools = pools';
        outside = w';
      }

  -- The loop of `AModify::modifyer`, from the place `i` on. After a replacement `i = 0; i++` goes on
  -- at the second pair. The fuel bounds the turns.
  unfoldable pub modify_loop : ℕ → Vars → ℕ → Modified → Option Modified
  unfolding kind_of get_avp_value avp_get replace
  modify_loop zero v i m = none
  modify_loop (suc fuel) v i m = elim (ltb i (length m.user.avps)) [
    | false ↦ some m
    | true ↦ elim (kind_of (get_avp_value (avp_get m.user i).avp)) [
      | none ↦ modify_loop fuel v (i + 1) m
      | some kind ↦ modify_loop fuel v 1 (replace v kind i m)
    ]
  ]

  unfoldable pub modifyer : ℕ → Vars → Modified → Option Modified
  unfolding modify_loop
  modifyer fuel v m = modify_loop fuel v 0 m
