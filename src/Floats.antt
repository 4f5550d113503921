-- ===== src/Floats.antt =====
-- The f64 operations that the code uses, as a parameter: the machine implements them.
--
-- No law is assumed here; a theorem that needs one names it as a hypothesis.
pub mod Sample
use trading_platform.Prelude.{ℕ, Bool}
use trading_platform.Prelude.Int.{ℤ}

pub record Floats : Type 1 where
  pub F : Type 0
  -- a literal that is a whole number, such as 1e8
  pub literal : ℕ → F
  pub epsilon : F
  pub add : F → F → F
  pub sub : F → F → F
  pub mul : F → F → F
  pub div : F → F → F
  pub neg : F → F
  pub abs : F → F
  pub signum : F → F
  pub fmax : F → F → F
  pub fmin : F → F → F
  pub lt : F → F → Bool
  pub le : F → F → Bool
  pub eq : F → F → Bool
  -- `x as i64` and `n as f64`
  pub as_i64 : F → ℤ
  pub of_i64 : ℤ → F
