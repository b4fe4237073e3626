-- ===== src/Relay/Node/Tasks/Invariant.antt =====
-- What holds of the relay node of core/src/overlay/relay/node.rs in every reachable state.
use mathlib.Core.Path.{subst}
use open_broadcast_network.Prelude.{
  ℕ, ◌≤◌, ◌≡◌, ◌⊎◌, inl, inr, refl, sym, ap, String, false, List, [], ◌∷◌, length, length-append,
  Eq, arith,
}
use open_broadcast_network.Relay.Chunk.{StreamId, StreamChunk, RelayConfig, RelayMessage}
use open_broadcast_network.Relay.Stats
use open_broadcast_network.Relay.Node.{
  Shared, process_chunk_internal, process_message, report_stats, cleanup,
}
use open_broadcast_network.Relay.Node.Limits.{
  SharedFits, process_chunk_internal-SharedFits, process_message-SharedFits,
  report_stats-SharedFits, cleanup-SharedFits,
}
use open_broadcast_network.Relay.Node.Tasks.{
  Channel, RelayNode, channel_capacity, new, spawn, abort, end_task, start, stop, set_chunk_handler,
  publish_chunk, send_message, receive_chunk, receive_message, Step, set_handler, starts, stops,
  publish, send, take_chunk, take_message, report, clean, cancel_chunks, cancel_messages,
  reporter_ends, cleaner_ends, Reach, here, next,
}

length-abort : {M : Type 0} (c : Channel M) → length (abort c).queue ≡ length c.queue
unfolding abort
length-abort c = ground arith

length-end_task-le : {M : Type 0} (c : Channel M) → length (end_task c).queue ≤ length c.queue
unfolding end_task
length-end_task-le c = ground arith

length-spawn : {M : Type 0} (c : Channel M) → length (spawn c).queue ≡ length c.queue
unfolding spawn
length-spawn c = ground arith

module _ {P : Type 0} where
  -- The chunk queue is within the channel's capacity, and the shared state within the limits of the
  -- configuration that the node was made with.
  pub record NodeFits (config : RelayConfig) (n : RelayNode P) : Type 0 where
    pub same_config : n.setup.config ≡ config
    pub queue_fits : length n.chunks.queue ≤ channel_capacity
    pub shared_fits : SharedFits config.max_buffer_size n.shared

  new-NodeFits : (p : P) (config : RelayConfig) (now : ℕ) → NodeFits config (new p config now)
  unfolding new Stats.new
  new-NodeFits p config now = record {
    same_config = refl;
    queue_fits = omega arith;
    shared_fits = record { streams_fit = tt; active_counted = refl };
  }

  -- The shared state stays, or becomes another one that is within the limits.
  change-NodeFits :
      {config : RelayConfig} {n : RelayNode P} (m : RelayNode P) (s : Shared P)
      → SharedFits config.max_buffer_size s
      → m.setup ≡ n.setup
      → (m.shared ≡ n.shared) ⊎ (m.shared ≡ s)
      → length m.chunks.queue ≤ channel_capacity
      → NodeFits config n
      → NodeFits config m
  change-NodeFits m s fits same (inl q) room h = record {
    same_config = rw same h.same_config;
    queue_fits = room;
    shared_fits = rw q h.shared_fits;
  }
  change-NodeFits m s fits same (inr q) room h = record {
    same_config = rw same h.same_config;
    queue_fits = room;
    shared_fits = rw q fits;
  }

module _ {P : Type 0} ⦃e : Eq P⦄ (display : StreamId → String) {config : RelayConfig} where
  process_chunk_fits :
      (now : ℕ) (c : StreamChunk P) (n : RelayNode P)
      → NodeFits config n
      → SharedFits config.max_buffer_size
          (process_chunk_internal display n.setup n.chunk_handler now c n.shared).0
  process_chunk_fits now c n h =
      subst
        (λ (k : RelayConfig).
          SharedFits k.max_buffer_size
            (process_chunk_internal display n.setup n.chunk_handler now c n.shared).0)
        h.same_config
        (process_chunk_internal-SharedFits display n.setup n.chunk_handler now c n.shared (
          subst (λ (k : RelayConfig). SharedFits k.max_buffer_size n.shared) (sym h.same_config)
            h.shared_fits))

  process_message_fits :
      (now : ℕ) (m : RelayMessage P) (n : RelayNode P)
      → NodeFits config n
      → SharedFits config.max_buffer_size
          (process_message display n.setup n.chunk_handler now m n.shared)
  process_message_fits now m n h =
      subst
        (λ (k : RelayConfig).
          SharedFits k.max_buffer_size
            (process_message display n.setup n.chunk_handler now m n.shared))
        h.same_config
        (process_message-SharedFits display n.setup n.chunk_handler now m n.shared (
          subst (λ (k : RelayConfig). SharedFits k.max_buffer_size n.shared) (sym h.same_config)
            h.shared_fits))

  receive_chunk-NodeFits :
      (now : ℕ) (c : StreamChunk P) (rest : List (StreamChunk P)) (n : RelayNode P)
      → n.chunks.queue ≡ c ∷ rest
      → NodeFits config n
      → NodeFits config (receive_chunk display now c rest n)
  unfolding receive_chunk
  receive_chunk-NodeFits now c rest n q h =
      change-NodeFits (receive_chunk display now c rest n)
        (process_chunk_internal display n.setup n.chunk_handler now c n.shared).0
        (process_chunk_fits now c n h) (ground arith) (ground arith)
        (ground (arith, length-end_task-le n.chunks, ap length q)) h

  receive_message-NodeFits :
      (now : ℕ) (m : RelayMessage P) (rest : List (RelayMessage P)) (n : RelayNode P)
      → NodeFits config n
      → NodeFits config (receive_message display now m rest n)
  unfolding receive_message
  receive_message-NodeFits now m rest n h =
      change-NodeFits (receive_message display now m rest n)
        (process_message display n.setup n.chunk_handler now m n.shared)
        (process_message_fits now m n h) (ground arith) (ground arith) (ground arith) h

  Step-NodeFits : {n m : RelayNode P} → Step display n m → NodeFits config n → NodeFits config m
  unfolding set_chunk_handler start stop publish_chunk send_message
  Step-NodeFits {n} (set_handler x) h =
      change-NodeFits (set_chunk_handler x n).0 n.shared h.shared_fits (ground arith) (ground arith)
        (ground arith) h
  Step-NodeFits {n} starts h =
      change-NodeFits (start n).0 n.shared h.shared_fits (ground arith) (ground arith)
        (ground (arith, length-spawn n.chunks)) h
  Step-NodeFits {n} stops h =
      change-NodeFits (stop n).0 n.shared h.shared_fits (ground arith) (ground arith)
        (ground (arith, length-abort n.chunks)) h
  Step-NodeFits {n} (publish c room) h =
      change-NodeFits (publish_chunk c n).0 n.shared h.shared_fits (ground arith) (ground arith)
        (ground (arith, length-append n.chunks.queue (c ∷ []))) h
  Step-NodeFits {n} (send m room) h =
      change-NodeFits (send_message m n).0 n.shared h.shared_fits (ground arith) (ground arith)
        (ground arith) h
  Step-NodeFits {n} (take_chunk now c rest alive q) h = receive_chunk-NodeFits now c rest n q h
  Step-NodeFits {n} (take_message now m rest alive q) h = receive_message-NodeFits now m rest n h
  Step-NodeFits {n} (report now on) h =
      change-NodeFits (record n { shared = report_stats now n.shared }) (report_stats now n.shared)
        (report_stats-SharedFits config.max_buffer_size now n.shared h.shared_fits) refl (inr refl)
        h.queue_fits h
  Step-NodeFits {n} (clean now on) h =
      change-NodeFits (record n { shared = cleanup n.setup.config now n.shared })
        (cleanup n.setup.config now n.shared)
        (cleanup-SharedFits config.max_buffer_size n.setup.config now n.shared h.shared_fits) refl
        (inr refl) h.queue_fits h
  Step-NodeFits {n} (cancel_chunks marked) h =
      change-NodeFits (record n { chunks = end_task n.chunks }) n.shared h.shared_fits refl
        (inl refl) (omega (arith, length-end_task-le n.chunks, h.queue_fits)) h
  Step-NodeFits {n} (cancel_messages marked) h =
      change-NodeFits (record n { messages = end_task n.messages }) n.shared h.shared_fits refl
        (inl refl) h.queue_fits h
  Step-NodeFits {n} reporter_ends h =
      change-NodeFits (record n { stats_reporter = false }) n.shared h.shared_fits refl (inl refl)
        h.queue_fits h
  Step-NodeFits {n} cleaner_ends h =
      change-NodeFits (record n { stream_cleanup = false }) n.shared h.shared_fits refl (inl refl)
        h.queue_fits h

  Reach-NodeFits : {n m : RelayNode P} → NodeFits config n → Reach display n m → NodeFits config m
  Reach-NodeFits h here = h
  Reach-NodeFits h (next r step) = Step-NodeFits step (Reach-NodeFits h r)

  -- Whatever clients and tasks do, in any order, to a new node: its configuration stays, its chunk
  -- queue holds at most the channel's 100 chunks, every stream is kept under its own id with at most
  -- `max_buffer_size` buffered chunks and at most three keyframes, and the number of active streams
  -- that the statistics show is the number of streams.
  pub node_stays_within_limits :
      (p : P) (now : ℕ) {m : RelayNode P} → Reach display (new p config now) m → NodeFits config m
  node_stays_within_limits p now r = Reach-NodeFits (new-NodeFits p config now) r
