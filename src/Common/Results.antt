-- ===== src/Common/Results.antt =====
-- The outcome of code that may return an error, and that may panic.
pub data Outcome {ℓ} (A : Type ℓ) : Type ℓ where
  ok : A → Outcome A
  error : Outcome A
  panic : Outcome A
