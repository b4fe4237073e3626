-- ===== src/Overlay/Topology/Health.antt =====
-- core/src/overlay/topology/health.rs: how healthy the connection to a peer is.
use open_broadcast_network.Prelude.{
  ℕ, ◌-◌, Bool, false, ◌||◌, List, [], ◌∷◌, ◌++◌, length, drop, add64, ltb, if◌then◌else◌,
}
use open_broadcast_network.Overlay.Floats.{Floats}

pub record ConnectionHealth (F : Floats) : Type 0 where
  pub quality : F.F32
  pub success_rate : F.F32
  pub last_success : ℕ
  pub consecutive_failures : ℕ
  pub history : List (ℕ × F.F32)
  pub last_checked : ℕ
  pub is_degraded : Bool

abbrev pub history_size : ℕ
history_size = 10

module _ (F : Floats) where
  unfoldable pub default_health : ℕ → ConnectionHealth F
  default_health now = record {
    quality = F.literal32 1 1;
    success_rate = F.literal32 1 1;
    last_success = now;
    consecutive_failures = 0;
    history = [];
    last_checked = now;
    is_degraded = false;
  }

  unfoldable pub add_to_history : ℕ → F.F32 → ConnectionHealth F → ConnectionHealth F
  add_to_history now quality h =
      let longer = h.history ++ (now, quality) ∷ [] in
      record h { history = if ltb history_size (length longer) then drop 1 longer else longer }

  -- `sum::<f32>()`, from a start.
  unfoldable pub sum32 : F.F32 → List (ℕ × F.F32) → F.F32
  sum32 total [] = total
  sum32 total ((time, quality) ∷ rest) = sum32 (F.add32 total quality) rest

  unfoldable pub mean_quality : List (ℕ × F.F32) → F.F32 → F.F32
  unfolding sum32
  mean_quality [] success_rate = success_rate
  mean_quality (q ∷ qs) success_rate =
      F.div32 (sum32 (F.literal32 0 1) (q ∷ qs)) (F.from_nat32 (length (q ∷ qs)))

  unfoldable pub recalculate_quality : ConnectionHealth F → ConnectionHealth F
  unfolding mean_quality
  recalculate_quality h = record h { quality = mean_quality h.history h.success_rate }

  unfoldable pub record_success : ℕ → ConnectionHealth F → ConnectionHealth F
  unfolding add_to_history recalculate_quality
  record_success now h = recalculate_quality (
      add_to_history now (F.literal32 1 1) (record h {
        last_success = now;
        consecutive_failures = 0;
        success_rate = F.add32 (F.mul32 h.success_rate (F.literal32 9 10)) (F.literal32 1 10);
      }))

  unfoldable pub record_failure : ℕ → ConnectionHealth F → ConnectionHealth F
  unfolding add_to_history recalculate_quality add64
  record_failure now h = recalculate_quality (
      add_to_history now (F.literal32 0 1) (record h {
        consecutive_failures = add64 h.consecutive_failures 1;
        success_rate = F.mul32 h.success_rate (F.literal32 9 10);
      }))

  unfoldable pub update_degraded_status :
      F.F32 → ℕ → F.F32 → ℕ → ConnectionHealth F → ConnectionHealth F
  update_degraded_status quality_threshold max_failures min_success_rate now h = record h {
    last_checked = now;
    is_degraded =
        ltb max_failures h.consecutive_failures
        || (F.lt32 h.quality quality_threshold || F.lt32 h.success_rate min_success_rate);
  }

  unfoldable pub is_expired : ℕ → ℕ → ConnectionHealth F → Bool
  is_expired max_age now h = ltb max_age (now - h.last_checked)
