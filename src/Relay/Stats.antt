-- ===== src/Relay/Stats.antt =====
-- core/src/overlay/relay/stats.rs: the counters of a relay. A counter wraps at 2^64, as in a
-- release build. An `Instant` is a number; the clock's reading is an argument.
use open_broadcast_network.Prelude.{
  ℕ, zero, suc, ◌+◌, ◌*◌, ◌/◌, ◌%◌, ◌^◌, ◌≤◌, ◌<◌, ◌≡◌, refl, String, Option, none, some, List, [],
  ◌∷◌, length, add64, if◌then◌else◌, nat_beq, Eq, string_eq,
}
use open_broadcast_network.Prelude.Maps.{get, insert}
pub mod Laws

pub record RelayStats : Type 0 where
  pub chunks_relayed : ℕ
  pub bytes_relayed : ℕ
  pub avg_chunk_size : ℕ
  pub active_streams : ℕ
  pub connected_peers : ℕ
  pub incoming_bandwidth : ℕ
  pub outgoing_bandwidth : ℕ
  pub period_start : ℕ
  pub per_stream_chunks : List (String × ℕ)

-- `RelayStats::new`, which is `default` with the clock read.
unfoldable pub new : ℕ → RelayStats
new now = record {
  chunks_relayed = 0;
  bytes_relayed = 0;
  avg_chunk_size = 0;
  active_streams = 0;
  connected_peers = 0;
  incoming_bandwidth = 0;
  outgoing_bandwidth = 0;
  period_start = now;
  per_stream_chunks = [];
}

unfoldable pub reset_period : ℕ → RelayStats → RelayStats
reset_period now s = record s { period_start = now; incoming_bandwidth = 0; outgoing_bandwidth = 0 }

-- `checked_div`
unfoldable pub checked_div : ℕ → ℕ → Option ℕ
checked_div a b = if nat_beq b 0 then none else some (a / b)

unfoldable pub record_chunk : ℕ → RelayStats → RelayStats
unfolding checked_div add64
record_chunk chunk_size s =
    let chunks = add64 s.chunks_relayed 1 in
    let bytes = add64 s.bytes_relayed chunk_size in
    record s {
      chunks_relayed = chunks;
      bytes_relayed = bytes;
      avg_chunk_size = elim (checked_div bytes chunks) [ some avg ↦ avg | none ↦ s.avg_chunk_size ];
    }

-- `entry(k).or_insert(0)`
abbrev pub count_of : String → List (String × ℕ) → ℕ
count_of k m = elim (get k m) [ some n ↦ n | none ↦ 0 ]

unfoldable pub record_chunk_for_stream : ℕ → String → RelayStats → RelayStats
unfolding record_chunk
record_chunk_for_stream chunk_size stream_id s =
    let t = record_chunk chunk_size s in
    record t {
      per_stream_chunks =
          insert stream_id (add64 (count_of stream_id t.per_stream_chunks) 1) t.per_stream_chunks;
    }
