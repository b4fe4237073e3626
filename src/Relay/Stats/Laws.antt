-- ===== src/Relay/Stats/Laws.antt =====
-- What the counters of core/src/overlay/relay/stats.rs say after any run of chunks.
use open_broadcast_network.Prelude.{
  ℕ, ◌+◌, ◌/◌, ◌^◌, ◌≤◌, ◌<◌, ◌≡◌, refl, ap, ◌∙◌, String, List, [], ◌∷◌, length, add64, add64_small,
  if◌then◌else◌, ◌==◌, string_eq, arith,
}
use native.Mathlib.Nat.{add-zero, add_assoc}
use open_broadcast_network.Prelude.Maps.{get-insert}
use open_broadcast_network.Relay.Stats.{RelayStats, record_chunk, record_chunk_for_stream, count_of}

-- The chunks of a run: the stream's name and the size.
unfoldable pub record_all : List (String × ℕ) → RelayStats → RelayStats
record_all [] s = s
record_all ((stream, size) ∷ run) s = record_all run (record_chunk_for_stream size stream s)

abbrev pub total_size : List (String × ℕ) → ℕ
total_size [] = 0
total_size ((stream, size) ∷ run) = size + total_size run

abbrev pub chunks_of : String → List (String × ℕ) → ℕ
chunks_of k [] = 0
chunks_of k ((stream, size) ∷ run) = (if stream == k then 1 else 0) + chunks_of k run

-- One chunk, with no counter at its limit.
record_step :
    (size : ℕ) (stream : String) (s : RelayStats)
    → s.chunks_relayed + 1 < 2 ^ 64
    → s.bytes_relayed + size < 2 ^ 64
    → ((record_chunk_for_stream size stream s).chunks_relayed ≡ s.chunks_relayed + 1)
      × ((record_chunk_for_stream size stream s).bytes_relayed ≡ s.bytes_relayed + size)
      × ((record_chunk_for_stream size stream s).avg_chunk_size
          ≡ (s.bytes_relayed + size) / (s.chunks_relayed + 1))
unfolding record_chunk_for_stream
record_step size stream s h k = ground (arith)

per_stream_chunks-record_chunk :
    (size : ℕ) (s : RelayStats) → (record_chunk size s).per_stream_chunks ≡ s.per_stream_chunks
unfolding record_chunk
per_stream_chunks-record_chunk size s = refl

count_step :
    (size : ℕ) (stream k : String) (s : RelayStats)
    → count_of stream s.per_stream_chunks + 1 < 2 ^ 64
    → count_of k (record_chunk_for_stream size stream s).per_stream_chunks
      ≡ (if stream == k then 1 else 0) + count_of k s.per_stream_chunks
unfolding record_chunk_for_stream
count_step size stream k s h =
    let m : List (String × ℕ) = s.per_stream_chunks in
    let n : ℕ = add64 (count_of stream m) 1 in
    ground (
      arith,
      per_stream_chunks-record_chunk size s,
      get-insert stream k n m,
      add64_small (count_of stream m) 1,
      string_eq.beq_iff stream k,
    )

-- A run of chunks that leaves every counter below 2^64, from new counters: the totals are the number
-- of chunks and the sum of their sizes, the average is their quotient once a chunk has come, and
-- each stream's counter is the number of its own chunks.
pub record_all_counts :
    (run : List (String × ℕ)) (s : RelayStats)
    → s.chunks_relayed + length run < 2 ^ 64
    → s.bytes_relayed + total_size run < 2 ^ 64
    → ((k : String) → count_of k s.per_stream_chunks ≤ s.chunks_relayed)
    → s.avg_chunk_size ≡ s.bytes_relayed / s.chunks_relayed
    → ((record_all run s).chunks_relayed ≡ s.chunks_relayed + length run)
      × ((record_all run s).bytes_relayed ≡ s.bytes_relayed + total_size run)
      × ((record_all run s).avg_chunk_size
          ≡ (s.bytes_relayed + total_size run) / (s.chunks_relayed + length run))
      × ((k : String)
          → count_of k (record_all run s).per_stream_chunks
            ≡ count_of k s.per_stream_chunks + chunks_of k run)
unfolding record_all
record_all_counts [] s h b c a =
    (omega arith, omega arith, rw (add-zero, add-zero) a, λ k. omega arith)
record_all_counts ((stream, size) ∷ run) s h b c a =
    let t : RelayStats = record_chunk_for_stream size stream s in
    let (n, m, q) = record_step size stream s (omega arith) (omega arith) in
    let counted = λ (k : String). count_step size stream k s (omega (arith, c stream)) in
    let rest =
      record_all_counts run t (omega arith) (omega arith) (λ k. ground (arith, counted k, c k))
        (rw (n, m) q) in
    (
      omega arith,
      omega arith,
      rest.2
          ∙ rw (n, m, add_assoc)
              (ap (λ (d : ℕ). (s.bytes_relayed + (size + total_size run)) / d) (omega arith)),
      λ k. omega (arith, rest.3 k, counted k),
    )
