-- ===== src/Prelude/Float.antt =====
-- The part of `f64` and `Duration` that the token bucket computes with. Floating-point numbers are not
-- modelled: the type and its operations are a parameter, with two facts of IEEE 754 and of
-- `Duration::from_secs_f64` on whole numbers that a double holds exactly.
use probes.Prelude.{ℕ, ◌*◌, ◌^◌, ◌<◌, ◌≡◌, Option, some}

pub record Float : Type 1 where
  pub F64 : Type 0
  -- `n as f64`
  pub of_u64 : ℕ → F64
  pub div : F64 → F64 → F64
  -- `Duration::from_secs_f64`, in nanoseconds; `none` is its panic on what is no duration.
  pub from_secs_f64 : F64 → Option ℕ
  pub div_exact : (m q : ℕ) → 0 < q → m * q < 2 ^ 53 → div (of_u64 (m * q)) (of_u64 q) ≡ of_u64 m
  pub secs_exact : (m : ℕ) → m < 2 ^ 53 → from_secs_f64 (of_u64 m) ≡ some (m * 10 ^ 9)
