-- ===== src/Server/Audit/Retry.antt =====
-- audit.rs, `retry_io`: an operation that is tried again after a transient error, on the state that the
-- failed attempt left. `attempts` counts those that are left.
use at_pc.Common.{ℕ, zero, suc, ◌+◌, max, Bool, true, false, Option, none, some}
use at_pc.Server.Audit.{Files, rotate_log_files}

-- The result of one attempt; a transient error is one that `is_transient` names.
pub data Attempt (A : Type 0) : Type 0 where
  ok : A → Attempt A
  transient permanent : Attempt A

module _ {S A : Type 0} where
  abbrev pub tried : (ℕ → S → S × Option A) → ℕ → S × Attempt A → S × Option A
  tried again n (s, ok a) = (s, some a)
  tried again n (s, permanent) = (s, none)
  tried again zero (s, transient) = (s, none)
  tried again (suc n) (s, transient) = again (suc n) s

  unfoldable pub retry : (ℕ → S → S × Attempt A) → ℕ → ℕ → S → S × Option A
  retry attempt number zero s = (s, none)
  retry attempt number (suc n) s =
      tried (λ k s'. retry attempt (number + 1) n s') n (attempt number s)

  unfoldable pub retry_io : ℕ → (ℕ → S → S × Attempt A) → S → S × Option A
  unfolding retry
  retry_io max_attempts attempt s = retry attempt 1 (max max_attempts 1) s

-- `()`
pub data Done : Type 0 where
  done : Done

-- Whether the error of a rename that fails is a transient one is the second argument.
abbrev pub attempt_of : Files × Bool → Bool → Files × Attempt Done
attempt_of (files, true) is_transient = (files, ok done)
attempt_of (files, false) true = (files, transient)
attempt_of (files, false) false = (files, permanent)

-- The files after `rotate_active_writer`: which renames each attempt is granted, and whether the error
-- that ends the attempt is transient.
unfoldable pub rotate_retrying : ℕ → ℕ → (ℕ → ℕ → Bool) → (ℕ → Bool) → Files → Files × Option Done
unfolding retry_io
rotate_retrying max_attempts retain_files renames is_transient files =
    retry_io max_attempts
      (λ number fs.
        attempt_of (rotate_log_files fs retain_files true (renames number)) (is_transient number))
      files
