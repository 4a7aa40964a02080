-- ===== src/Feedback/Arm.antt =====
-- crates/lsf-feedback/src/mab.rs: the arms of a bandit and the bodies that they share. An `Arc` is
-- the value that it points to where there is one arm, and a handle into a list of arms in the
-- hooks of crates/lsf-feedback/src/lib.rs.
pub mod Scores
pub mod Hooks
use ast_sqlite_test.Common.{
  ℕ, zero, suc, ◌+◌, ◌%◌, Bool, true, false, not, List, [], ◌∷◌, Option, none, some, ◌==◌,
  if◌then◌else◌, get_elem?, set,
}
use ast_sqlite_test.Core.Entry.{Meta, u32_mod}
use ast_sqlite_test.Feedback.Floats.{Floats}
use ast_sqlite_test.Feedback.Outcome.{
  TestOutcome, rejected, accepted, mutated, noop, RejectionReason, syntax_error, triggers_crash,
  time_out, bad, AcceptanceReason, cov_increase, is_diverse, unspecified, TestableEntry, Handle,
}

module _ (F : Floats) where
  pub record MabConfig : Type 0 where
    pub exploration_constant : F.F64
    pub max_accepted_syntax_err : F.F64
    pub weight_accepted : F.F64
    pub weight_cov_inc : F.F64
    pub weight_timeout : F.F64
    pub weight_syntax_penalty : F.F64
    pub weight_size_penalty : F.F64
    pub weight_time_penalty : F.F64
    pub scale_size : F.F64

  -- The constants of the file that are not whole numbers.
  pub record Constants : Type 0 where
    -- `1. / DECAY_RATE`, to the power of the ticks
    pub decay_powi : ℕ → F.F64
    pub rescale_factor : F.F64
    pub min_weight : F.F64
    pub max_weight : F.F64
    pub half : F.F64
    pub least_cons : F.F64

  pub record MabBody : Type 0 where
    pub total_attempts : F.F64
    pub current_inflation : F.F64
    pub epoch : ℕ
    pub normalization_epoch : ℕ
    pub config : MabConfig

  pub record MabArm : Type 0 where
    pub attempts : F.F64
    pub accepted_weight : F.F64
    pub cov_increases : F.F64
    pub syntax_err : F.F64
    pub crash : F.F64
    pub child_timeout : F.F64
    pub total_exec_ns : F.F64
    pub total_query_size : F.F64
    pub local_epoch : ℕ

  unfoldable pub new_body : MabConfig → MabBody
  new_body config = record {
    total_attempts = F.of_nat 0;
    current_inflation = F.of_nat 1;
    epoch = 0;
    normalization_epoch = 0;
    config = config;
  }

  module _ (k : Constants) where
    unfoldable pub normalize_body : MabBody → MabBody
    normalize_body b =
        if F.at_least b.current_inflation k.rescale_factor
        then record b {
          total_attempts = F.div b.total_attempts k.rescale_factor;
          current_inflation = F.div b.current_inflation k.rescale_factor;
          normalization_epoch = (b.normalization_epoch + 1) % u32_mod;
        }
        else b

    unfoldable pub tick_by : ℕ → MabBody → MabBody
    unfolding normalize_body
    tick_by by b = normalize_body (record b {
      epoch = (b.epoch + by) % u32_mod;
      current_inflation = F.mul b.current_inflation (k.decay_powi by);
    })

    -- The arm of a body, brought to the body's scale.
    unfoldable pub normalize : MabBody → MabArm → MabArm
    normalize b a =
        if b.normalization_epoch == a.local_epoch
        then a
        else (let scale = F.powi_diff k.rescale_factor b.normalization_epoch a.local_epoch in
            record {
              attempts = F.div a.attempts scale;
              cov_increases = F.div a.cov_increases scale;
              accepted_weight = F.div a.accepted_weight scale;
              syntax_err = F.div a.syntax_err scale;
              crash = F.div a.crash scale;
              total_exec_ns = F.div a.total_exec_ns scale;
              child_timeout = F.div a.child_timeout scale;
              total_query_size = F.div a.total_query_size scale;
              local_epoch = b.normalization_epoch;
            })

    unfoldable pub exploitation : MabBody → MabArm → F.F64
    exploitation b a =
        let config = b.config in
        let rate : F.F64 → F.F64 = λ total. F.div total a.attempts in
        let pros =
          F.add (F.mul (rate a.accepted_weight) config.weight_accepted)
            (F.mul (rate a.cov_increases) config.weight_cov_inc) in
        let syntax_err_rate = rate a.syntax_err in
        let syntax_penalty =
          if F.below config.max_accepted_syntax_err syntax_err_rate
          then F.sub syntax_err_rate config.max_accepted_syntax_err
          else F.of_nat 0 in
        let time_penalty_ratio = F.ln_1p (F.div (rate a.total_exec_ns) (F.of_nat 1000000)) in
        let size_penalty_ratio = F.ln_1p (F.div (rate a.total_query_size) config.scale_size) in
        let penalty =
          F.add
            (F.add
              (F.add (F.mul (rate a.child_timeout) config.weight_timeout)
                (F.mul syntax_penalty config.weight_syntax_penalty))
              (F.mul size_penalty_ratio config.weight_syntax_penalty))
            (F.mul time_penalty_ratio config.weight_time_penalty) in
        F.mul pros (F.max (F.sub (F.of_nat 1) penalty) k.least_cons)

    unfoldable pub exploration : MabBody → MabArm → F.F64
    exploration b a =
        let effective_attempts = F.div a.attempts b.current_inflation in
        let effective_total_attempts =
          F.max (F.div b.total_attempts b.current_inflation) (F.of_nat 1) in
        F.sqrt (
          F.div (F.mul b.config.exploration_constant (F.ln effective_total_attempts))
            effective_attempts)

    unfoldable pub calculate_score : MabBody → MabArm → MabArm × F.F64
    calculate_score b arm =
        let a = normalize b arm in
        if F.below a.attempts (F.of_nat 1)
        then (a, k.max_weight)
        else (let final_score = F.add (exploitation b a) (exploration b a) in
            (
              a,
              if F.is_nan final_score
                  then k.min_weight
                  else F.clamp k.min_weight k.max_weight final_score,
            ))

    unfoldable pub on_exec : MabBody → TestOutcome → Meta → MabArm → MabArm
    on_exec b outcome meta arm =
        let inflation = b.current_inflation in
        let plus : F.F64 → F.F64 → F.F64 = λ total weight. F.add total (F.mul weight inflation) in
        let a : MabArm = record arm {
          total_exec_ns = plus arm.total_exec_ns (F.of_nat meta.exec_time);
          total_query_size = plus arm.total_query_size (F.of_nat meta.query_size);
        } in
        elim outcome [
          | rejected syntax_error ↦ record a { syntax_err = plus a.syntax_err (F.of_nat 1) }
          | rejected triggers_crash ↦ record a {
            crash = plus a.crash (F.of_nat 1);
            accepted_weight = plus a.accepted_weight (F.of_nat 1);
          }
          | rejected time_out ↦ record a {
            accepted_weight = plus a.accepted_weight k.half;
            child_timeout = plus a.child_timeout (F.of_nat 1);
          }
          | rejected bad ↦ a
          | accepted (cov_increase n_found) ↦ record a {
            accepted_weight = plus a.accepted_weight (F.of_nat 1);
            cov_increases = plus a.cov_increases (F.of_nat n_found);
          }
          | accepted is_diverse ↦ record a { accepted_weight = plus a.accepted_weight (F.of_nat 1) }
          | accepted unspecified ↦ record a {
            accepted_weight = plus a.accepted_weight (F.of_nat 1);
          }
          | mutated ↦ a
          | noop ↦ a
        ]

    unfoldable pub on_mutate : TestOutcome → MabBody → MabArm → MabBody × MabArm
    on_mutate outcome b a =
        let one = F.mul (F.of_nat 1) b.current_inflation in
        let counted : MabBody × MabArm = (
          record b { total_attempts = F.add b.total_attempts one },
          record a { attempts = F.add a.attempts one },
        ) in
        elim outcome [
          | mutated ↦ counted
          | noop ↦ counted
          | rejected r ↦ (b, a)
          | accepted r ↦ (b, a)
        ]

    unfoldable pub reset_body : MabBody → MabBody
    reset_body b = record b {
      total_attempts = F.of_nat 0;
      epoch = 0;
      normalization_epoch = 0;
      current_inflation = F.of_nat 1;
    }

    unfoldable pub new : MabBody → MabArm
    new b = record {
      attempts = F.of_nat 0;
      accepted_weight = F.of_nat 0;
      cov_increases = F.of_nat 0;
      syntax_err = F.of_nat 0;
      crash = F.of_nat 0;
      child_timeout = F.of_nat 0;
      total_exec_ns = F.of_nat 0;
      total_query_size = F.of_nat 0;
      local_epoch = b.normalization_epoch;
    }

    unfoldable pub new_with_prior : MabBody → Meta → MabBody × MabArm
    new_with_prior b meta =
        let inflation = b.current_inflation in
        let one = F.mul (F.of_nat 1) inflation in
        (
          record b { total_attempts = F.add b.total_attempts one },
          record {
            attempts = one;
            cov_increases = F.mul (F.of_nat meta.new_cov_nodes) inflation;
            accepted_weight = if meta.is_valid_syntax then one else F.of_nat 0;
            syntax_err = if meta.is_valid_syntax then F.of_nat 0 else one;
            crash = if meta.triggers_bug then one else F.of_nat 0;
            total_exec_ns = F.mul (F.of_nat meta.exec_time) inflation;
            total_query_size = F.mul (F.of_nat meta.query_size) inflation;
            local_epoch = b.normalization_epoch;
            child_timeout = F.of_nat 0;
          },
        )

    unfoldable pub reset : MabArm → MabArm
    reset a = record {
      attempts = F.of_nat 0;
      accepted_weight = F.of_nat 0;
      cov_increases = F.of_nat 0;
      syntax_err = F.of_nat 0;
      crash = F.of_nat 0;
      child_timeout = F.of_nat 0;
      total_exec_ns = F.of_nat 0;
      total_query_size = F.of_nat 0;
      local_epoch = 0;
    }

    -- Arms by handle; `ctx` is the body of each.
    unfoldable pub on_exec_at :
        (Handle → MabBody) → TestOutcome → Meta → Handle → List MabArm → List MabArm
    on_exec_at ctx outcome meta hook arms = elim (get_elem? arms hook) [
      | none ↦ arms
      | some a ↦ set arms hook (on_exec (ctx hook) outcome meta a)
    ]

    unfoldable pub on_exec_all :
        (Handle → MabBody) → TestOutcome → Meta → List Handle → List MabArm → List MabArm
    on_exec_all ctx outcome meta [] arms = arms
    on_exec_all ctx outcome meta (hook ∷ hooks) arms =
        on_exec_all ctx outcome meta hooks (on_exec_at ctx outcome meta hook arms)

    -- `drain(..)` empties the entry's list of hooks.
    unfoldable pub fire_rule_hooks :
        {T : Type 0}
        → (Handle → MabBody)
        → TestOutcome
        → Meta
        → TestableEntry T
        → List MabArm
        → TestableEntry T × List MabArm
    fire_rule_hooks ctx outcome meta e arms = (
      record e { applied_rule_stats = [] },
      on_exec_all ctx outcome meta e.applied_rule_stats arms,
    )
