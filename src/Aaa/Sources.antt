-- ===== src/Aaa/Sources.antt =====
-- The rows of `checkfrom`: what the loop over them decides.
use tacppd.Common.{
  ◌≡◌, refl, Bool, true, false, ◌&&◌, ◌||◌, List, [], ◌∷◌, arith, any, if◌then◌else◌, is_empty, ◌∙◌,
}
use tacppd.User.{DbUserAcc}
use tacppd.Aaa.{
  Tools, Origin, Flags, raise, all_up, check_rows, no_flags, row_phone, row_nas, row_port, row_time,
}

module _ (t : Tools) (o : Origin) where
  -- Each of the four tests succeeds on some row, not all of them on the same one.
  abbrev pub covered : List DbUserAcc → Bool
  covered rows =
      any (row_phone t o) rows
      && (any (row_nas t o) rows && (any (row_port t o) rows && any (row_time t o) rows))

  covered_by : Flags → List DbUserAcc → Bool
  covered_by f rows =
      (any (row_phone t o) rows || f.flag1)
      && ((any (row_nas t o) rows || f.flag2)
          && ((any (row_port t o) rows || f.flag3) && (any (row_time t o) rows || f.flag4)))

  any-cons :
      (p : DbUserAcc → Bool) (a : DbUserAcc) (rows : List DbUserAcc) (b : Bool)
      → (any p (a ∷ rows) || b) ≡ (any p rows || (p a || b))
  unfolding any
  any-cons p a rows b = ground arith

  covered_by-raise :
      (f : Flags) (a : DbUserAcc) (rows : List DbUserAcc)
      → covered_by f (a ∷ rows) ≡ covered_by (raise t o a f) rows
  unfolding covered_by raise
  covered_by-raise f a rows = rw (
    any-cons (row_phone t o) a rows f.flag1,
    any-cons (row_nas t o) a rows f.flag2,
    any-cons (row_port t o) a rows f.flag3,
    any-cons (row_time t o) a rows f.flag4,
  )

  covered_by_up : (f : Flags) (rows : List DbUserAcc) → all_up f ≡ true → covered_by f rows ≡ true
  unfolding covered_by
  covered_by_up f rows h = ground arith

  check_rows_lem :
      (f : Flags) (rows : List DbUserAcc)
      → all_up f ≡ false
      → check_rows t o false f rows ≡ covered_by f rows
  unfolding check_rows
  check_rows_lem f [] h = unfold covered_by any in ground arith
  check_rows_lem f (a ∷ rows) h = ground (
    arith,
    covered_by-raise f a rows,
    covered_by_up (raise t o a f) rows,
    check_rows_lem (raise t o a f) rows,
  )

  covered_by_none : (rows : List DbUserAcc) → covered_by no_flags rows ≡ covered rows
  unfolding covered_by
  covered_by_none rows = ground arith

  check_rows_first :
      (a : DbUserAcc) (rows : List DbUserAcc)
      → check_rows t o true no_flags (a ∷ rows) ≡ check_rows t o false no_flags (a ∷ rows)
  unfolding check_rows
  check_rows_first a rows = refl

  -- The rows let a request through exactly when there are none, or each of the four tests succeeds
  -- on some row. The tests need not succeed on one row: the flags are kept from row to row.
  pub check_rows-covered :
      (rows : List DbUserAcc)
      → check_rows t o true no_flags rows ≡ (if is_empty rows then true else covered rows)
  check_rows-covered [] = unfold check_rows in refl
  check_rows-covered (a ∷ rows) =
      check_rows_first a rows
      ∙ (check_rows_lem no_flags (a ∷ rows) refl ∙ covered_by_none (a ∷ rows))
