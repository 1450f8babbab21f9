-- ===== src/Base/Errors.antt =====
-- C++ exceptions: what a call returns, or the class of what it throws.
pub data Exn : Type 0 where
  invalid_argument runtime_error out_of_range length_error : Exn

pub data Outcome {ℓ} (A : Type ℓ) : Type ℓ where
  returns : A → Outcome A
  throws : Exn → Outcome A
