-- ===== src/Feedback/Outcome.antt =====
-- crates/lsf-feedback/src/lib.rs: outcomes, and entries with the statistics that they report to.
-- An `Arc<MABArm>` is a handle into a store of arms.
use ast_sqlite_test.Common.{ℕ, Bool, true, false, List, [], ◌∷◌, ◌++◌}

pub data RejectionReason : Type 0 where
  syntax_error triggers_crash time_out bad : RejectionReason

pub data AcceptanceReason : Type 0 where
  cov_increase : ℕ → AcceptanceReason
  is_diverse unspecified : AcceptanceReason

pub data TestOutcome : Type 0 where
  rejected : RejectionReason → TestOutcome
  accepted : AcceptanceReason → TestOutcome
  mutated noop : TestOutcome

abbrev pub is_accepted : TestOutcome → Bool
is_accepted (accepted a) = true
is_accepted (rejected r) = false
is_accepted mutated = false
is_accepted noop = false

abbrev pub Handle : Type 0
Handle = ℕ

pub record TestableEntry (T : Type 0) : Type 0 where
  pub entry : T
  pub applied_rule_stats : List Handle
  pub parent_stats : List Handle

module _ {T : Type 0} where
  -- `TestableEntry::new`, and `From<T>`
  unfoldable pub new : T → TestableEntry T
  new entry = record { entry = entry; applied_rule_stats = []; parent_stats = [] }

  unfoldable pub attach_hook : Handle → TestableEntry T → TestableEntry T
  attach_hook hook t = record t { applied_rule_stats = t.applied_rule_stats ++ hook ∷ [] }

  unfoldable pub attach_build_hook : Handle → TestableEntry T → TestableEntry T
  attach_build_hook hook t = record t { parent_stats = t.parent_stats ++ hook ∷ [] }
