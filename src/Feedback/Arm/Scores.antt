-- ===== src/Feedback/Arm/Scores.antt =====
-- Scores and scales.
use ast_sqlite_test.Common.{◌≡◌, refl, false, ◌==◌, Bool-cases, inl, inr, ==_refl, arith}
use ast_sqlite_test.Feedback.Floats.{Floats}
use ast_sqlite_test.Feedback.Arm.{
  Constants, MabBody, MabArm, normalize, calculate_score, exploitation, exploration,
}

module _ (F : Floats) (k : Constants F) (b : MabBody F) (arm : MabArm F) where
  -- An arm that is brought to its body's scale is at its body's count of rescalings, and doing
  -- it again changes nothing: no total is divided twice.
  pub normalize-normalize :
      ((normalize F k b arm).local_epoch ≡ b.normalization_epoch)
      × (normalize F k b (normalize F k b arm) ≡ normalize F k b arm)
  unfolding normalize
  normalize-normalize = elim (Bool-cases (b.normalization_epoch == arm.local_epoch)) [
    | inl e ↦
        let same : arm.local_epoch ≡ b.normalization_epoch = ground arith in rw e (same, rw e refl)
    | inr ne ↦ rw ne (refl, rw (==_refl b.normalization_epoch) refl)
  ]

  -- Whatever the counts and the settings are, even where the formula gives no number, a score
  -- is between the least and the greatest weight, and asking again gives the same one.
  pub calculate_score_bounds :
      F.below k.max_weight k.min_weight ≡ false
      → (F.below (calculate_score F k b arm).1 k.min_weight ≡ false)
        × (F.below k.max_weight (calculate_score F k b arm).1 ≡ false)
        × (calculate_score F k b (calculate_score F k b arm).0 ≡ calculate_score F k b arm)
  unfolding calculate_score
  calculate_score_bounds ordered =
      let a = normalize F k b arm in
      let again = normalize-normalize.1 in
      let score = F.add (exploitation F k b a) (exploration F k b a) in
      elim (Bool-cases (F.below a.attempts (F.of_nat 1))) [
        | inl few ↦ rw few (ordered, F.below_self k.max_weight, rw (again, few) refl)
        | inr many ↦ elim (Bool-cases (F.is_nan score)) [
          | inl nan ↦
              rw (many, nan) (F.below_self k.min_weight, ordered, rw (again, many, nan) refl)
          | inr number ↦
              rw (many, number)
                (
                  F.clamp_low k.min_weight k.max_weight score ordered number,
                  F.clamp_high k.min_weight k.max_weight score ordered number,
                  rw (again, many, number) refl,
                )
        ]
      ]
