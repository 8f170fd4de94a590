-- ===== src/Tacacs/Client/Starts.antt =====
-- A start packet from the client to the server's `get_start`.
use tacppd.Common.{
  ◌≡◌, refl, sym, ◌∙◌, ℕ, zero, suc, ◌+◌, ◌≤◌, ◌⊎◌, subst, inl, inr, List, [], ◌∷◌, ◌++◌, Text,
  length, arith, take, take_all, ◌==◌, true, false, ◌||◌, ltb, if◌then◌else◌,
}
use tacppd.Tacacs.Header.{Hdr}
use tacppd.Tacacs.Wire.{byte_at, until_nul, text_at}
use tacppd.Tacacs.Wire.Texts.{IsText, take-IsText, until_nul_lem}
use tacppd.Tacacs.Wire.Places.{text_at_first, text_at_second, text_at_third, text_at_fourth}
use tacppd.Tacacs.Intake.{
  Authen, request_type, get_start, ver_0, ver_1, enable_request, ascii_login, pap_login, chap_login,
  arap_login, pap_out, chap_out, ascii_chpass, mschap_login, mschap_out,
}
use tacppd.Tacacs.Client.{start_version, start_fields, zeros, start_data}

-- Four texts behind eight bytes, of which the last four give their lengths.
module _ (hdr : Hdr) (a : Authen) (b₀ b₁ b₂ b₃ u# p# r# d# : ℕ) (u p r z : List ℕ)
    (u_len : u# ≡ length u) (p_len : p# ≡ length p) (r_len : r# ≡ length r) where
  abbrev pub placed : List ℕ
  placed = b₀ ∷ b₁ ∷ b₂ ∷ b₃ ∷ u# ∷ p# ∷ r# ∷ d# ∷ (u ++ (p ++ (r ++ z)))

  abbrev front : List ℕ
  front = b₀ ∷ b₁ ∷ b₂ ∷ b₃ ∷ u# ∷ p# ∷ r# ∷ d# ∷ []

  pub get_start_lem :
      ((hdr.version == ver_0) || (hdr.version == ver_1)) ≡ true
      → hdr.seq_no ≡ 1
      → u# ≤ 32
      → p# ≤ 32
      → r# ≤ 32
      → d# ≤ 254
      → IsText u
      → IsText p
      → IsText r
      → get_start hdr placed a ≡ record {
        authen = record a { user = u; port = p; rem_addr = r };
        res = request_type hdr.version b₀ b₂ b₃;
        data_ = text_at z 0 d#;
      }
  unfolding get_start byte_at
  get_start_lem v seq hu hp hr hd tu tp tr =
      let seq' : (hdr.seq_no == 1) ≡ true = ground (arith, seq) in
      let hu' : ltb 32 u# ≡ false = ground (arith, hu) in
      let hp' : ltb 32 p# ≡ false = ground (arith, hp) in
      let hr' : ltb 32 r# ≡ false = ground (arith, hr) in
      let hd' : ltb 254 d# ≡ false = ground (arith, hd) in
      rw (v, seq', hu', hp', hr', hd')
        (λ i. record {
          authen = record a {
            user = text_at_first front u p r z 8 u# p# r# (omega arith) u_len p_len r_len tu i;
            port = text_at_second front u p r z 8 u# p# r# (omega arith) u_len p_len r_len tp i;
            rem_addr = text_at_third front u p r z 8 u# p# r# (omega arith) u_len p_len r_len tr i;
          };
          res = request_type hdr.version b₀ b₂ b₃;
          data_ = text_at_fourth front u p r z 8 u# p# r# (omega arith) u_len p_len r_len d# i;
        })

-- The requests of the client's `switch`.
abbrev pub IsSent : ℕ → Type 0
IsSent type =
    (type ≡ enable_request)
    ⊎ ((type ≡ ascii_login)
        ⊎ ((type ≡ pap_login)
            ⊎ ((type ≡ pap_out)
                ⊎ ((type ≡ chap_login)
                    ⊎ ((type ≡ chap_out)
                        ⊎ ((type ≡ mschap_login)
                            ⊎ ((type ≡ mschap_out)
                                ⊎ ((type ≡ arap_login) ⊎ (type ≡ ascii_chpass)))))))))

-- What holds of each of them holds of a request that is sent.
pub each_sent :
    (P : ℕ → Type 0)
    → P enable_request
    → P ascii_login
    → P pap_login
    → P pap_out
    → P chap_login
    → P chap_out
    → P mschap_login
    → P mschap_out
    → P arap_login
    → P ascii_chpass
    → (type : ℕ) → IsSent type
    → P type
each_sent P p₁ p₂ p₃ p₄ p₅ p₆ p₇ p₈ p₉ p type (inl e) = subst P (sym e) p₁
each_sent P p₁ p₂ p₃ p₄ p₅ p₆ p₇ p₈ p₉ p type (inr (inl e)) = subst P (sym e) p₂
each_sent P p₁ p₂ p₃ p₄ p₅ p₆ p₇ p₈ p₉ p type (inr (inr (inl e))) = subst P (sym e) p₃
each_sent P p₁ p₂ p₃ p₄ p₅ p₆ p₇ p₈ p₉ p type (inr (inr (inr (inl e)))) = subst P (sym e) p₄
each_sent P p₁ p₂ p₃ p₄ p₅ p₆ p₇ p₈ p₉ p type (inr (inr (inr (inr (inl e))))) = subst P (sym e) p₅
each_sent P p₁ p₂ p₃ p₄ p₅ p₆ p₇ p₈ p₉ p type (inr (inr (inr (inr (inr (inl e)))))) =
    subst P (sym e) p₆
each_sent P p₁ p₂ p₃ p₄ p₅ p₆ p₇ p₈ p₉ p type (inr (inr (inr (inr (inr (inr (inl e))))))) =
    subst P (sym e) p₇
each_sent P p₁ p₂ p₃ p₄ p₅ p₆ p₇ p₈ p₉ p type (inr (inr (inr (inr (inr (inr (inr (inl e)))))))) =
    subst P (sym e) p₈
each_sent P p₁ p₂ p₃ p₄ p₅ p₆ p₇ p₈ p₉ p type
      (inr (inr (inr (inr (inr (inr (inr (inr (inl e))))))))) =
    subst P (sym e) p₉
each_sent P p₁ p₂ p₃ p₄ p₅ p₆ p₇ p₈ p₉ p type
      (inr (inr (inr (inr (inr (inr (inr (inr (inr e))))))))) =
    subst P (sym e) p

pub request_type-sent :
    (type : ℕ)
    → IsSent type
    → (((start_version type == ver_0) || (start_version type == ver_1)) ≡ true)
      × (request_type
            (start_version type)
            (start_fields type).0
            (start_fields type).1
            (start_fields type).2
          ≡ type)
unfolding start_version start_fields request_type
request_type-sent =
    each_sent
      (λ t.
        (((start_version t == ver_0) || (start_version t == ver_1)) ≡ true)
        × (request_type (start_version t) (start_fields t).0 (start_fields t).1 (start_fields t).2
            ≡ t))
      (refl, refl) (refl, refl) (refl, refl) (refl, refl) (refl, refl) (refl, refl) (refl, refl)
      (refl, refl) (refl, refl) (refl, refl)

-- The data that the server finds: that of a PAP or ARAP login; of a CHAP login its last byte is
-- lost; of the others there is none.
abbrev pub seen : ℕ → Text → Text
seen type data_ =
    if type == chap_login
    then take (length data_) (1 ∷ data_)
    else if (type == pap_login) || (type == arap_login)
    then data_
    else []

until_nul-zeros : (m n : ℕ) → until_nul (take m (zeros n)) ≡ []
unfolding until_nul zeros
until_nul-zeros zero n = refl
until_nul-zeros (suc m) zero = refl
until_nul-zeros (suc m) (suc n) = refl

pub seen_lem :
    (type : ℕ) (data_ : Text)
    → IsText data_
    → IsSent type
    → until_nul (take (length data_) (start_data type data_)) ≡ seen type data_
unfolding start_data until_nul
seen_lem type data_ h =
    let whole : until_nul (take (length data_) data_) ≡ data_ =
      rw (take_all (length data_) data_ (omega arith)) (until_nul_lem data_ h) in
    let nothing : until_nul (take (length data_) []) ≡ [] =
      until_nul_lem (take (length data_) []) (take-IsText (length data_) [] tt)
      ∙ take_all (length data_) [] (omega arith) in
    each_sent (λ t. until_nul (take (length data_) (start_data t data_)) ≡ seen t data_) nothing
      nothing whole nothing
      (until_nul_lem (take (length data_) (1 ∷ data_))
        (take-IsText (length data_) (1 ∷ data_) ((omega arith, omega arith), h)))
      nothing (until_nul-zeros (length data_) (1 + length data_)) nothing whole nothing type
