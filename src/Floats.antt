-- ===== src/Floats.antt =====
-- Float arithmetic, as the indexes and the rankings use it: a type with its operations, of which a
-- theorem assumes only what it says, such as that comparison is a strict weak order.
use alvis.Base.{ℕ, Bool}

pub record Floats (F : Type 0) : Type 0 where
  pub zero : F
  pub one : F
  pub minus_one : F
  pub add : F → F → F
  pub mul : F → F → F
  pub div : F → F → F
  pub sqrt : F → F
  pub of_nat : ℕ → F
  pub lt : F → F → Bool
  pub eq : F → F → Bool
