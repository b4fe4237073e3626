-- ===== src/Overlay/Topology/Failures.antt =====
-- Connections that fail again and again in core/src/overlay/topology/manager.rs.
use open_broadcast_network.Prelude.{
  ℕ, ◌+◌, ◌^◌, ◌<◌, ◌≤◌, ◌≡◌, refl, Bool, true, false, none, some, List, [], ◌∷◌, length, Eq, leb,
  add64_small, arith, if◌then◌else◌, inl, inr, Bool-cases, Option-cases,
}
use open_broadcast_network.Prelude.Maps.{get, get-insert}
use open_broadcast_network.Overlay.Floats.{Floats}
use open_broadcast_network.Overlay.Topology.{TopologyManager, health_of, record_connection_failure}
use open_broadcast_network.Overlay.Topology.Health.{
  ConnectionHealth, record_failure, recalculate_quality, add_to_history, default_health,
}

module _ (F : Floats) {P Q : Type 0} ⦃e : Eq P⦄ where
  -- The failures in a row that the manager knows of.
  unfoldable pub failures : P → TopologyManager F P Q → ℕ
  failures peer m = elim (get peer m.connection_health) [
    | none ↦ 0
    | some h ↦ h.consecutive_failures
  ]

  unfoldable pub is_marked : P → TopologyManager F P Q → Bool
  is_marked peer m = elim (get peer m.connection_health) [ none ↦ false | some h ↦ h.is_degraded ]

  unfoldable pub fail_all : P → List ℕ → TopologyManager F P Q → TopologyManager F P Q
  unfolding record_connection_failure
  fail_all peer [] m = m
  fail_all peer (now ∷ times) m = fail_all peer times (record_connection_failure F peer now m)

  failures_known :
      (peer : P) (now : ℕ) (m : TopologyManager F P Q)
      → (health_of F peer now m).consecutive_failures ≡ failures peer m
  unfolding health_of failures default_health
  failures_known peer now m = elim (Option-cases (get peer m.connection_health)) [
    | inl q ↦ rw (q, health_of, failures) refl
    | inr (h, q) ↦ rw (q, health_of, failures) refl
  ]

  -- A failure more: one is added to the count, and the peer is marked where that is enough.
  unfoldable counted : P → ℕ → TopologyManager F P Q → ConnectionHealth F
  unfolding health_of record_failure
  counted peer now m = record_failure F now (health_of F peer now m)

  failure_found :
      (peer : P) (now : ℕ) (m : TopologyManager F P Q)
      → get peer (record_connection_failure F peer now m).connection_health
        ≡ some (
            if leb m.config.max_consecutive_failures (counted peer now m).consecutive_failures
            then record (counted peer now m) { is_degraded = true }
            else counted peer now m)
  unfolding record_connection_failure counted
  failure_found peer now m = rw (get-insert peer peer, (e.beq_iff peer peer).1 refl) refl

  counted_one_more :
      (peer : P) (now : ℕ) (m : TopologyManager F P Q)
      → failures peer m + 1 < 2 ^ 64
      → (counted peer now m).consecutive_failures ≡ failures peer m + 1
  unfolding counted record_failure recalculate_quality add_to_history
  counted_one_more peer now m h = rw (failures_known peer now m) (add64_small (failures peer m) 1 h)

  failures_counted :
      (peer : P) (now : ℕ) (m : TopologyManager F P Q)
      → failures peer m + 1 < 2 ^ 64
      → failures peer (record_connection_failure F peer now m) ≡ failures peer m + 1
  unfolding failures
  failures_counted peer now m h =
      elim (Bool-cases
        (leb m.config.max_consecutive_failures (counted peer now m).consecutive_failures)) [
          | inl y ↦ rw (failure_found peer now m, failures, y) (counted_one_more peer now m h)
          | inr n ↦ rw (failure_found peer now m, failures, n) (counted_one_more peer now m h)
        ]

  failure_marks :
      (peer : P) (now : ℕ) (m : TopologyManager F P Q)
      → failures peer m + 1 < 2 ^ 64
      → m.config.max_consecutive_failures ≤ failures peer m + 1
      → is_marked peer (record_connection_failure F peer now m) ≡ true
  unfolding is_marked
  failure_marks peer now m h k =
      let enough : leb m.config.max_consecutive_failures (counted peer now m).consecutive_failures
          ≡ true =
        rw (counted_one_more peer now m h) (ground (arith, k)) in
      rw (failure_found peer now m, is_marked, enough) refl

  -- Whatever the manager knew of a peer and under any floating-point arithmetic: after failures in a
  -- row, one at least, that bring its count to the limit and not to 2^64, the peer is marked as
  -- degraded, and the count is that of before and the new failures.
  pub failures_degrade :
      (peer : P) (now : ℕ) (times : List ℕ) (m : TopologyManager F P Q)
      → failures peer m + length (now ∷ times) < 2 ^ 64
      → m.config.max_consecutive_failures ≤ failures peer m + length (now ∷ times)
      → (is_marked peer (fail_all peer (now ∷ times) m) ≡ true)
        × (failures peer (fail_all peer (now ∷ times) m) ≡ failures peer m + length (now ∷ times))
  unfolding fail_all record_connection_failure
  failures_degrade peer now [] m h k = (
    failure_marks peer now m (omega arith) (omega arith),
    failures_counted peer now m (omega arith),
  )
  failures_degrade peer now (next ∷ times) m h k =
      let s = failures_counted peer now m (omega arith) in
      let r =
        failures_degrade peer next times (record_connection_failure F peer now m)
          (rw s (omega arith)) (omega (arith, s, k)) in
      (r.0, omega (arith, r.1, s))
