-- ===== src/Overlay/Floats.antt =====
-- The floating-point numbers that core/src/overlay computes with: `f32`, `f64` and the operations of
-- the standard library on them, as a parameter. The theorems hold for any arithmetic.
use open_broadcast_network.Prelude.{ℕ, Bool}

pub record Floats : Type 1 where
  pub F32 : Type 0
  pub F64 : Type 0
  -- `literal32 n d` is the literal whose value is n / d.
  pub literal32 : ℕ → ℕ → F32
  pub literal64 : ℕ → ℕ → F64
  pub neg_infinity32 : F32
  pub add32 : F32 → F32 → F32
  pub sub32 : F32 → F32 → F32
  pub mul32 : F32 → F32 → F32
  pub div32 : F32 → F32 → F32
  pub min32 : F32 → F32 → F32
  -- `a < b` and `a <= b`
  pub lt32 : F32 → F32 → Bool
  pub le32 : F32 → F32 → Bool
  -- `n as f32` and the saturating `x as usize`
  pub from_nat32 : ℕ → F32
  pub to_usize : F32 → ℕ
  pub from_nat64 : ℕ → F64
  pub to_f32 : F64 → F32
  pub add64 : F64 → F64 → F64
  pub sub64 : F64 → F64 → F64
  pub mul64 : F64 → F64 → F64
  pub div64 : F64 → F64 → F64
  pub min64 : F64 → F64 → F64
  pub max64 : F64 → F64 → F64
  pub log10 : F64 → F64
  pub to_radians : F64 → F64
  pub sin : F64 → F64
  pub cos : F64 → F64
  pub sqrt : F64 → F64
  pub atan2 : F64 → F64 → F64
