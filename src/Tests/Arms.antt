-- ===== src/Tests/Arms.antt =====
-- Whole numbers in place of `f64`, where no operation is not a number.
use ast_sqlite_test.Common.{
  suc, zero, ℕ, ◌+◌, ◌-◌, ◌*◌, ◌/◌, ◌^◌, min, max, ◌≡◌, refl, true, false, List, [], ◌∷◌, ltb, leb,
  get_elem?, option_map, arith,
}
use ast_sqlite_test.Core.Entry.{Meta}
use ast_sqlite_test.Feedback.Floats.{Floats}
use ast_sqlite_test.Feedback.Outcome.{accepted, cov_increase, TestableEntry}
use ast_sqlite_test.Feedback.Arm.{
  MabConfig, Constants, MabBody, MabArm, calculate_score, on_exec, fire_rule_hooks,
}
use ast_sqlite_test.Feedback.Arm.Scores.{calculate_score_bounds}
use ast_sqlite_test.Feedback.Arm.Hooks.{count, times, fire_rule_hooks_reports}

abbrev pub whole : Floats
whole = record {
  F64 = ℕ;
  of_nat = λ n. n;
  add = λ a b. a + b;
  sub = λ a b. a - b;
  mul = λ a b. a * b;
  div = λ a b. a / b;
  ln = λ a. a;
  ln_1p = λ a. a;
  sqrt = λ a. a;
  max = λ a b. max a b;
  is_nan = λ a. false;
  below = ltb;
  at_least = λ a b. leb b a;
  clamp = λ low high a. min (max a low) high;
  powi_diff = λ a n m. a ^ (n - m);
  below_self = λ a. ground arith;
  clamp_low = λ low high a h n. ground (arith, h);
  clamp_high = λ low high a h n. ground (arith, h);
}

abbrev settings : MabConfig whole
settings = record {
  exploration_constant = 4;
  max_accepted_syntax_err = 1;
  weight_accepted = 1;
  weight_cov_inc = 9;
  weight_timeout = 3;
  weight_syntax_penalty = 3;
  weight_size_penalty = 1;
  weight_time_penalty = 1;
  scale_size = 100;
}

abbrev limits : Constants whole
limits = record {
  decay_powi = λ by. 1;
  rescale_factor = 1000;
  min_weight = 1;
  max_weight = 200;
  half = 1;
  least_cons = 1;
}

abbrev rescaled_once : MabBody whole
rescaled_once = record {
  total_attempts = 40;
  current_inflation = 2;
  epoch = 90;
  normalization_epoch = 1;
  config = settings;
}

abbrev before_rescaling : MabArm whole
before_rescaling = record {
  attempts = 8000;
  accepted_weight = 3000;
  cov_increases = 4000;
  syntax_err = 0;
  crash = 0;
  child_timeout = 0;
  total_exec_ns = 5000;
  total_query_size = 90000;
  local_epoch = 0;
}

calculate_score_bounds_example :
    (ltb (calculate_score whole limits rescaled_once before_rescaling).1 1 ≡ false)
    × (ltb 200 (calculate_score whole limits rescaled_once before_rescaling).1 ≡ false)
    × (calculate_score whole limits rescaled_once
          (calculate_score whole limits rescaled_once before_rescaling).0
        ≡ calculate_score whole limits rescaled_once before_rescaling)
calculate_score_bounds_example =
    calculate_score_bounds whole limits rescaled_once before_rescaling refl

abbrev measured : Meta
measured = record {
  triggers_bug = false;
  is_valid_syntax = true;
  exec_time = 10;
  new_cov_nodes = 1;
  query_size = 2;
}

abbrev two_hooks : TestableEntry ℕ
two_hooks = record { entry = 5; applied_rule_stats = 1 ∷ 0 ∷ 1 ∷ []; parent_stats = [] }

abbrev three_arms : List (MabArm whole)
three_arms = before_rescaling ∷ before_rescaling ∷ before_rescaling ∷ []

-- The first arm has a body of its own.
abbrev two_bodies : ℕ → MabBody whole
two_bodies zero = record rescaled_once { current_inflation = 7 }
two_bodies (suc n) = rescaled_once

fire_rule_hooks_reports_example :
    ((j : ℕ)
      → get_elem?
          (fire_rule_hooks whole limits two_bodies
            (accepted (cov_increase 3))
            measured
            two_hooks
            three_arms).1
          j
        ≡ option_map
            (times
              (count j (1 ∷ 0 ∷ 1 ∷ []))
              (on_exec whole limits (two_bodies j) (accepted (cov_increase 3)) measured))
            (get_elem? three_arms j))
    × (fire_rule_hooks whole limits two_bodies
          (accepted (cov_increase 3))
          measured
          (fire_rule_hooks whole limits two_bodies
            (accepted (cov_increase 3))
            measured
            two_hooks
            three_arms).0
          (fire_rule_hooks whole limits two_bodies
            (accepted (cov_increase 3))
            measured
            two_hooks
            three_arms).1
        ≡ fire_rule_hooks whole limits two_bodies
            (accepted (cov_increase 3))
            measured
            two_hooks
            three_arms)
fire_rule_hooks_reports_example =
    fire_rule_hooks_reports whole limits two_bodies (accepted (cov_increase 3)) measured two_hooks
      three_arms
