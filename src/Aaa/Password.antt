-- ===== src/Aaa/Password.antt =====
-- What a password test proves, and where it proves nothing.
use tacppd.Common.{
  ℕ, ◌≡◌, ◌≢◌, ◌⊎◌, inl, inr, true, false, [], ◌∷◌, ◌++◌, Text, codes, str_eq, str_eq_iff, arith,
  length, take, drop, Bool-cases, ltb, ◌-◌, take-append-drop, length-drop, ◌≤◌,
}
use tacppd.Common.Prefix.{scomp_n, scomp_n-append}
use tacppd.User.{DbUser}
use tacppd.Aaa.{Tools, clip, chap, cpass, check_password}

-- A CHAP answer: an identifier, a challenge, and the digest of both round the secret.
abbrev pub Answers : Tools → Text → Text → Type 0
Answers t secret given =
    (id : ℕ) × (challenge : Text) × (digest : Text) × (given ≡ id ∷ challenge ++ digest)
    × (length digest ≡ 16)
    × (t.md5 (id ∷ secret ++ challenge) ≡ digest)

-- Whoever gave this text knows the secret: it is the secret, or a CHAP answer made with it. Both
-- are cut to 49 bytes for the answer.
abbrev pub Knows : Tools → Text → Text → Type 0
Knows t secret given =
    (secret ≢ []) × (given ≢ []) × ((secret ≡ given) ⊎ Answers t (clip secret) (clip given))

chap-Answers :
    (t : Tools) (secret given : Text) → chap t secret given ≡ true → Answers t secret given
unfolding chap
chap-Answers t secret [] h = absurd (ground arith)
chap-Answers t secret (id ∷ rest) h = elim (Bool-cases (ltb (length rest) 16)) [
  | inl short ↦ absurd (ground arith)
  | inr long ↦
      let n : ℕ = length rest - 16 in
      let size : 16 ≤ length rest = ground arith in
      (
        id,
        take n rest,
        drop n rest,
        ground (arith, take-append-drop n rest),
        omega (arith, length-drop n rest),
        (str_eq_iff _ _).0 (ground arith),
      )
]

cpass-Knows : (t : Tools) (secret given : Text) → cpass t secret given ≡ true → Knows t secret given
unfolding cpass
cpass-Knows t [] given h = absurd (ground arith)
cpass-Knows t (c ∷ secret) [] h = absurd (ground arith)
cpass-Knows t (c ∷ secret) (d ∷ given) h = elim (Bool-cases (str_eq (c ∷ secret) (d ∷ given))) [
  | inl same ↦ ((λ e. cc), (λ e. cc), inl ((str_eq_iff _ _).0 same))
  | inr other ↦ (
    (λ e. cc),
    (λ e. cc),
    inr (chap-Answers t (clip (c ∷ secret)) (clip (d ∷ given)) (rw other at h)),
  )
]

str_ne : {s u : Text} → str_eq s u ≡ false → s ≢ u
str_ne {s} {u} h e = ground (arith, str_eq_iff s u)

-- A user of source `db` passes only with knowledge of the password or of the enable password, and
-- never by the trial without a password, which sends "(null)".
pub check_password_db :
    (t : Tools) (d : DbUser) (rest password enable : Text)
    → d.authsrc ≡ codes "db" ++ rest
    → check_password t d password enable ≡ true
    → (password ≢ codes "(null)") × (Knows t d.password password ⊎ Knows t d.enable enable)
unfolding check_password
check_password_db t d rest password enable src h =
    elim (Bool-cases (str_eq password (codes "(null)"))) [
      | inl null ↦ absurd (ground (arith, is_db))
      | inr given ↦ elim (Bool-cases (cpass t d.password password)) [
        | inl p ↦ (str_ne given, inl (cpass-Knows t d.password password p))
        | inr n ↦ (str_ne given, inr (cpass-Knows t d.enable enable (ground (arith, is_db))))
      ]
    ]
  where
    is_db : scomp_n d.authsrc (codes "db") 2 ≡ true
    is_db = rw src (scomp_n-append (codes "db") rest)

-- With source `cpwd` and an empty enable password in the database the password is not read.
pub check_password_cpwd :
    (t : Tools) (d : DbUser) (rest password : Text)
    → d.authsrc ≡ codes "cpwd" ++ rest
    → d.enable ≡ []
    → check_password t d password [] ≡ true
unfolding check_password str_eq scomp_n
check_password_cpwd t d rest password src none_set = rw (src, none_set) (ground arith)
