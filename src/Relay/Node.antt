-- ===== src/Relay/Node.antt =====
-- core/src/overlay/relay/node.rs: the relay node, its two processor tasks and its two periodic
-- tasks. A lock guards each shared part, and every handler here runs under them to its end; the
-- tasks' interleaving is the relation `Step` of Relay/Node/Tasks. `display` is the `Display` of a
-- stream id, which decodes UTF-8 by the standard library. A duration is in milliseconds.
use open_broadcast_network.Prelude.{
  ℕ, zero, suc, ◌+◌, ◌-◌, ◌/◌, ◌<◌, String, Bool, true, false, not, ◌&&◌, Option, none, some, List,
  [], ◌∷◌, ◌++◌, length, map, add64, keep, Eq, ◌==◌, nat_eq, list_beq, list_beq_iff, ltb,
  if◌then◌else◌,
}
use open_broadcast_network.Prelude.Maps.{
  get, insert, remove, modify, contains_key, contains, set_insert,
}
use open_broadcast_network.Relay.Chunk.{
  StreamId, StreamChunk, RelayConfig, RelayMessage, OverlayError, Outcome, ok, err, relay_error,
  not_running, already_running, stream_not_found, stream_already_exists, no_chunk_handler,
  peer_not_found,
}
use open_broadcast_network.Relay.Stats
use open_broadcast_network.Relay.Stats.{RelayStats, record_chunk_for_stream, reset_period}
use open_broadcast_network.Relay.Stream
use open_broadcast_network.Relay.Stream.{StreamRelay, add_chunk, get_chunks_since, is_inactive}
pub mod Tasks
pub mod Delivery
pub mod Limits

instance abbrev pub stream_id_eq : Eq StreamId
stream_id_eq = record { beq = list_beq; beq_iff = list_beq_iff }

-- A call of the chunk handler: the receiver and the chunk.
abbrev pub Call : Type 0 → Type 0
Call P = P × StreamChunk P

-- The handler is the client's: its answer to a call, given the calls before.
abbrev pub Handler : Type 0 → Type 0
Handler P = List (Call P) → P → StreamChunk P → Outcome P

-- What the tasks share, with the calls of the handler made so far.
pub record Shared (P : Type 0) : Type 0 where
  pub streams : List (StreamId × StreamRelay P)
  pub stats : RelayStats
  pub calls : List (Call P)

-- The part of the node that a task captures when it is spawned.
pub record Setup (P : Type 0) : Type 0 where
  pub local_peer_id : P
  pub config : RelayConfig

module _ {P : Type 0} where
  -- `for subscriber in subscribers`: an error of the handler is only logged.
  unfoldable pub send_to_all : StreamChunk P → List P → List (Call P) → List (Call P)
  send_to_all chunk [] calls = calls
  send_to_all chunk (p ∷ ps) calls = send_to_all chunk ps (calls ++ (p, chunk) ∷ [])

  -- `for chunk in chunks`: the first error of the handler ends the loop.
  unfoldable pub send_chunks :
      Handler P → P → List (StreamChunk P) → List (Call P) → List (Call P) × Outcome P
  send_chunks handler peer [] calls = (calls, ok)
  send_chunks handler peer (c ∷ cs) calls =
      let rest = send_chunks handler peer cs (calls ++ (peer, c) ∷ []) in
      elim (handler calls peer c) [ ok ↦ rest | err x ↦ (calls ++ (peer, c) ∷ [], err x) ]

  -- Hop removal: the relay's own id in place of the source.
  unfoldable pub relay_chunk : Setup P → StreamChunk P → StreamChunk P
  relay_chunk n chunk =
      if n.config.enable_hop_removal then record chunk { source = some n.local_peer_id } else chunk

module _ {P : Type 0} ⦃e : Eq P⦄ (display : StreamId → String) where
  unfoldable pub process_chunk_internal :
      Setup P → Option (Handler P) → ℕ → StreamChunk P → Shared P → Shared P × Outcome P
  process_chunk_internal n handler now chunk s =
      let counted = record s {
        stats = record_chunk_for_stream (length chunk.payload) (display chunk.stream_id) s.stats;
      } in
      elim (get chunk.stream_id s.streams) [
        | none ↦ (counted, err (stream_not_found chunk.stream_id))
        | some stream ↦
            let added = record counted {
              streams =
                  modify chunk.stream_id (add_chunk chunk n.config.max_buffer_size now) s.streams;
            } in
            elim handler [
              | none ↦ (added, err no_chunk_handler)
              | some h ↦ (
                record added {
                  calls = send_to_all (relay_chunk n chunk) stream.subscribers s.calls;
                },
                ok,
              )
            ]
      ]

module _ {P : Type 0} where
  unfoldable pub add_stream_internal : ℕ → StreamId → P → Shared P → Shared P × Outcome P
  add_stream_internal now stream_id publisher s =
      if contains_key stream_id s.streams
      then (s, err (stream_already_exists stream_id))
      else (let streams = insert stream_id (Stream.new stream_id publisher now) s.streams in
          let stats = s.stats in
          (
            record s {
              streams = streams;
              stats = record stats { active_streams = length streams };
            },
            ok,
          ))

  unfoldable pub remove_stream_internal : StreamId → Shared P → Shared P × Outcome P
  remove_stream_internal stream_id s =
      if contains_key stream_id s.streams
      then (let streams = remove stream_id s.streams in
          let stats = s.stats in
          (
            record s {
              streams = streams;
              stats = record stats { active_streams = length streams };
            },
            ok,
          ))
      else (s, err (stream_not_found stream_id))

  unfoldable pub handle_request_chunks_internal :
      Option (Handler P) → StreamId → P → ℕ → Shared P → Shared P × Outcome P
  handle_request_chunks_internal handler stream_id peer sequence s =
      elim (get stream_id s.streams) [
        | none ↦ (s, err (stream_not_found stream_id))
        | some stream ↦ elim handler [
          | none ↦ (s, err no_chunk_handler)
          | some h ↦
              let (calls, outcome) =
                send_chunks h peer (get_chunks_since sequence stream) s.calls in
              (record s { calls = calls }, outcome)
        ]
      ]

module _ {P : Type 0} ⦃e : Eq P⦄ where
  unfoldable pub add_subscriber_internal : StreamId → P → Shared P → Shared P × Outcome P
  add_subscriber_internal stream_id peer s = elim (get stream_id s.streams) [
    | none ↦ (s, err (stream_not_found stream_id))
    | some stream ↦
        let stats = s.stats in
        (
          record s {
            streams = modify stream_id (λ r. (Stream.add_subscriber peer r).0) s.streams;
            stats = record stats { connected_peers = add64 s.stats.connected_peers 1 };
          },
          ok,
        )
  ]

  unfoldable pub remove_subscriber_internal : StreamId → P → Shared P → Shared P × Outcome P
  remove_subscriber_internal stream_id peer s = elim (get stream_id s.streams) [
    | none ↦ (s, err (stream_not_found stream_id))
    | some stream ↦
        let left = record s {
          streams = modify stream_id (λ r. (Stream.remove_subscriber peer r).0) s.streams;
        } in
        let stats = s.stats in
        if (Stream.remove_subscriber peer stream).1
        then (
          record left { stats = record stats { connected_peers = s.stats.connected_peers - 1 } },
          ok,
        )
        else (left, err (peer_not_found peer))
  ]

  unfoldable pub insert_peers : List P → List P → List P
  insert_peers [] seen = seen
  insert_peers (p ∷ ps) seen = insert_peers ps (set_insert p seen)

  -- The publishers and the subscribers of all streams, each once.
  unfoldable pub unique_peers : List (StreamId × StreamRelay P) → List P → List P
  unfolding insert_peers
  unique_peers [] seen = seen
  unique_peers ((_, stream) ∷ rest) seen =
      unique_peers rest (insert_peers stream.subscribers (set_insert stream.publisher seen))

  -- One round of the stats reporter.
  unfoldable pub report_stats : ℕ → Shared P → Shared P
  unfolding unique_peers
  report_stats now s =
      let stats = s.stats in
      let elapsed = (now - stats.period_start) / 1000 in
      let measured = record stats {
        active_streams = length s.streams;
        connected_peers = length (unique_peers s.streams []);
        outgoing_bandwidth =
            if ltb 0 elapsed then stats.bytes_relayed / elapsed else stats.outgoing_bandwidth;
      } in
      record s { stats = reset_period now measured }

module _ {P : Type 0} where
  -- The ids of the streams that were inactive for longer than the timeout.
  unfoldable pub inactive_streams : ℕ → ℕ → List (StreamId × StreamRelay P) → List StreamId
  inactive_streams timeout now [] = []
  inactive_streams timeout now ((id, stream) ∷ rest) =
      let others = inactive_streams timeout now rest in
      if is_inactive timeout now stream then id ∷ others else others

  unfoldable pub remove_streams : List StreamId → Shared P → Shared P
  unfolding remove_stream_internal
  remove_streams [] s = s
  remove_streams (id ∷ ids) s = remove_streams ids (remove_stream_internal id s).0

  -- One round of the stream cleanup.
  unfoldable pub cleanup : RelayConfig → ℕ → Shared P → Shared P
  unfolding inactive_streams remove_streams
  cleanup config now s = remove_streams (inactive_streams config.inactivity_timeout now s.streams) s

module _ {P : Type 0} ⦃e : Eq P⦄ (display : StreamId → String) where
  -- The `match` of the message processor; `stop` ends the task and changes nothing here.
  unfoldable pub process_message :
      Setup P → Option (Handler P) → ℕ → RelayMessage P → Shared P → Shared P
  process_message n handler now (RelayMessage.chunk c) s =
      (process_chunk_internal display n handler now c s).0
  process_message n handler now (RelayMessage.add_stream id publisher) s =
      (add_stream_internal now id publisher s).0
  process_message n handler now (RelayMessage.remove_stream id) s = (remove_stream_internal id s).0
  process_message n handler now (RelayMessage.add_subscriber id peer) s =
      (add_subscriber_internal id peer s).0
  process_message n handler now (RelayMessage.remove_subscriber id peer) s =
      (remove_subscriber_internal id peer s).0
  process_message n handler now (RelayMessage.request_chunks id peer sequence) s =
      (handle_request_chunks_internal handler id peer sequence s).0
  process_message n handler now RelayMessage.stop s = s
