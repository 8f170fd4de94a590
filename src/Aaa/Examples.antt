-- ===== src/Aaa/Examples.antt =====
-- Runs of the authentication, and each theorem at an input that meets its hypotheses. Patterns are
-- plain texts that match themselves, and the digest is 16 bytes of 7.
use tacppd.Common.{◌≡◌, ◌↔◌, refl, inl, true, List, [], ◌∷◌, Text, codes, str_eq, arith}
use tacppd.Common.Int.{pos}
use tacppd.Common.Prefix.{scomp_n}
use tacppd.User.{DbUser, DbUserAcc, new_user}
use tacppd.Aaa.{
  Tools, Origin, no_flags, check_rows, check_password, cpass, db_authentication, sessions_left,
  is_open, raise, row_phone, row_nas, row_port, row_time, hits,
}
use tacppd.Aaa.Grant.{Admits, db_authentication_iff, db_authentication_any}

abbrev sevens : Text
sevens = 7 ∷ 7 ∷ 7 ∷ 7 ∷ 7 ∷ 7 ∷ 7 ∷ 7 ∷ 7 ∷ 7 ∷ 7 ∷ 7 ∷ 7 ∷ 7 ∷ 7 ∷ 7 ∷ []

abbrev tools : Tools
tools = record {
  regex = record { compiles = λ p. true; matches = λ p s. str_eq p s };
  md5 = λ s. sevens;
  check_time = λ s. true;
}

abbrev here : Origin
here = record { rem_addr = codes "555"; nas = codes "10.0.0.1"; port = codes "tty1" }

-- The first row has the right telephone, the second the right device and port.
abbrev rows : List DbUserAcc
rows =
    record { phone = codes "555"; nas = codes "10.9.9.9"; port = codes "tty9"; time = [] }
    ∷ record { phone = codes "666"; nas = codes "10.0.0.1"; port = codes "tty1"; time = [] }
    ∷ []

abbrev db_user : DbUser
db_user = record new_user {
  authsrc = codes "db";
  password = codes "secret";
  result = true;
  accs = rows;
}

abbrev clear_user : DbUser
clear_user = record new_user { authsrc = codes "cpwd"; password = codes "secret"; result = true }

rows_mixed : check_rows tools here true no_flags rows ≡ true
unfolding check_rows row_phone row_nas row_port row_time hits raise str_eq
rows_mixed = refl

db_user_enters : db_authentication tools db_user (pos 0) 5 here (codes "secret") [] ≡ true
unfolding db_authentication sessions_left is_open check_password cpass scomp_n check_rows row_phone
    row_nas row_port row_time hits raise str_eq
db_user_enters = refl

db_authentication_iff_example :
    (db_authentication tools db_user (pos 0) 5 here (codes "secret") [] ≡ true) ↔ (
      Admits tools db_user (pos 0) 5 here
      × (check_password tools db_user (codes "secret") [] ≡ true))
db_authentication_iff_example =
    db_authentication_iff tools db_user (pos 0) 5 here (codes "secret") []

clear_user-Admits : Admits tools clear_user (pos 0) 5 here
clear_user-Admits = record {
  found = refl;
  sessions = inl refl;
  began = omega arith;
  not_over = inl (omega arith);
  source = inl refl;
}

db_authentication_any_example :
    db_authentication tools clear_user (pos 0) 5 here (codes "guess") [] ≡ true
db_authentication_any_example =
    db_authentication_any tools clear_user (pos 0) 5 here [] (codes "guess") refl refl
      clear_user-Admits
