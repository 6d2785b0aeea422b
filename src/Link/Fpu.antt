-- ===== src/Link/Fpu.antt =====
-- The double arithmetic that src/zfgw_channel_manager.cpp and src/zfgw_datastream.cpp use. It is
-- the hardware's: a value is its bit pattern, and the operations are a parameter.
use libfgw.Prelude.{ℕ, Bool}

pub record Fpu : Type 0 where
  -- (double)n
  pub of_uint : ℕ → ℕ
  -- A decimal literal, in hundredths: `hundredths 99` is 0.99.
  pub hundredths : ℕ → ℕ
  pub add : ℕ → ℕ → ℕ
  pub mul : ℕ → ℕ → ℕ
  pub div : ℕ → ℕ → ℕ
  pub lt : ℕ → ℕ → Bool
  pub eq : ℕ → ℕ → Bool
  -- The literal -1.0.
  pub minus_one : ℕ
