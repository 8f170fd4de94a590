-- ===== src/Tacacs/Wire/Places.antt =====
-- The user, the port and the address of a packet, which stand one behind the other.
use tacppd.Common.{◌≡◌, ◌∙◌, ap, ℕ, ◌+◌, List, ◌++◌, length, take, drop, arith}
use tacppd.Tacacs.Wire.{until_nul, text_at}
use tacppd.Tacacs.Wire.Texts.{IsText, drop_behind, text_at_behind, text_at-append}

-- `i` is where the first of them begins, and the numbers are their lengths.
module _ (front u p r z : List ℕ) (i u# p# r# : ℕ) (begins : i ≡ length front)
    (u_len : u# ≡ length u) (p_len : p# ≡ length p) (r_len : r# ≡ length r) where
  abbrev pub placed : List ℕ
  placed = front ++ (u ++ (p ++ (r ++ z)))

  pub text_at_first : IsText u → text_at placed i u# ≡ u
  text_at_first h =
      text_at_behind i 0 u# front (u ++ (p ++ (r ++ z))) (omega arith)
      ∙ text_at-append u# u (p ++ (r ++ z)) h u_len

  pub text_at_second : IsText p → text_at placed (i + u#) p# ≡ p
  text_at_second h =
      text_at_behind (i + u#) u# p# front (u ++ (p ++ (r ++ z))) (omega arith)
      ∙ text_at_behind u# 0 p# u (p ++ (r ++ z)) (omega arith)
      ∙ text_at-append p# p (r ++ z) h p_len

  pub text_at_third : IsText r → text_at placed (i + u# + p#) r# ≡ r
  text_at_third h =
      text_at_behind (i + u# + p#) (u# + p#) r# front (u ++ (p ++ (r ++ z))) (omega arith)
      ∙ text_at_behind (u# + p#) p# r# u (p ++ (r ++ z)) (omega arith)
      ∙ text_at_behind p# 0 r# p (r ++ z) (omega arith)
      ∙ text_at-append r# r z h r_len

  -- What stands behind the three.
  pub drop_three : drop (i + u# + p# + r#) placed ≡ z
  drop_three =
      drop_behind (i + u# + p# + r#) (u# + p# + r#) front (u ++ (p ++ (r ++ z))) (omega arith)
      ∙ drop_behind (u# + p# + r#) (p# + r#) u (p ++ (r ++ z)) (omega arith)
      ∙ drop_behind (p# + r#) r# p (r ++ z) (omega arith)
      ∙ drop_behind r# 0 r z (omega arith)

  pub text_at_fourth : (n : ℕ) → text_at placed (i + u# + p# + r#) n ≡ text_at z 0 n
  unfolding text_at
  text_at_fourth n = ap (λ s. until_nul (take n s)) drop_three
