-- ===== src/Feedback/Floats.antt =====
-- `f64` as the bandit uses it: the operations of the language, and what the scores rest on.
use ast_sqlite_test.Common.{ℕ, ◌≡◌, Bool, false}

pub record Floats : Type 1 where
  pub F64 : Type 0
  pub of_nat : ℕ → F64
  pub add : F64 → F64 → F64
  pub sub : F64 → F64 → F64
  pub mul : F64 → F64 → F64
  pub div : F64 → F64 → F64
  pub ln : F64 → F64
  pub ln_1p : F64 → F64
  pub sqrt : F64 → F64
  pub max : F64 → F64 → F64
  pub is_nan : F64 → Bool
  -- `<`
  pub below : F64 → F64 → Bool
  -- `>=`, which a NaN is not either
  pub at_least : F64 → F64 → Bool
  -- `x.clamp(lo, hi)`
  pub clamp : F64 → F64 → F64 → F64
  -- `x.powi(n as i32 - m as i32)`
  pub powi_diff : F64 → ℕ → ℕ → F64
  pub below_self : (x : F64) → below x x ≡ false
  pub clamp_low :
      (lo hi x : F64) → below hi lo ≡ false → is_nan x ≡ false → below (clamp lo hi x) lo ≡ false
  pub clamp_high :
      (lo hi x : F64) → below hi lo ≡ false → is_nan x ≡ false → below hi (clamp lo hi x) ≡ false
