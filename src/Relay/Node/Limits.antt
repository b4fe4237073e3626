-- ===== src/Relay/Node/Limits.antt =====
-- The handlers of core/src/overlay/relay/node.rs keep every stream within its limits.
use open_broadcast_network.Prelude.{
  ℕ, ◌≤◌, ◌≡◌, ◌⊎◌, refl, String, Option, List, [], ◌∷◌, ◌++◌, length, Eq, Bool-cases, inl, inr,
  arith,
}
use open_broadcast_network.Prelude.Maps.{modify, contains_key}
use open_broadcast_network.Prelude.Maps.Keys.{
  Entries, Entries-insert, Entries-remove, Entries-modify, length-modify,
}
use open_broadcast_network.Relay.Chunk.{StreamId, StreamChunk, RelayConfig, RelayMessage}
use open_broadcast_network.Relay.Stats
use open_broadcast_network.Relay.Stats.{RelayStats, record_chunk_for_stream}
use open_broadcast_network.Relay.Stream
use open_broadcast_network.Relay.Stream.{
  StreamRelay, add_chunk, default_keyframe_buffer_size, pop_to,
}
use open_broadcast_network.Relay.Stream.Buffer.{length-pop_to-le}
use open_broadcast_network.Relay.Node.{
  Handler, Shared, Setup, stream_id_eq, process_chunk_internal, add_stream_internal,
  remove_stream_internal, add_subscriber_internal, remove_subscriber_internal,
  handle_request_chunks_internal, process_message, report_stats, remove_streams, inactive_streams,
  cleanup,
}

-- A stream is kept under its own id, and its buffers within their limits.
pub record StreamFits {P : Type 0} (limit : ℕ) (id : StreamId) (r : StreamRelay P) : Type 0 where
  pub own_id : r.stream_id ≡ id
  pub buffer_fits : length r.buffer ≤ limit
  pub three_keyframes : r.max_keyframes ≡ default_keyframe_buffer_size
  pub keyframes_fit : length r.keyframe_buffer ≤ default_keyframe_buffer_size

pub record SharedFits {P : Type 0} (limit : ℕ) (s : Shared P) : Type 0 where
  pub streams_fit : Entries (StreamFits limit) s.streams
  pub active_counted : s.stats.active_streams ≡ length s.streams

module _ {P : Type 0} (limit : ℕ) where
  add_chunk-StreamFits :
      (c : StreamChunk P) (now : ℕ) (id : StreamId) (r : StreamRelay P)
      → StreamFits limit id r
      → StreamFits limit id (add_chunk c limit now r)
  unfolding add_chunk
  add_chunk-StreamFits c now id r h = record {
    own_id = h.own_id;
    buffer_fits = length-pop_to-le limit _;
    three_keyframes = h.three_keyframes;
    keyframes_fit = ground (arith, length-pop_to-le r.max_keyframes (r.keyframe_buffer ++ c ∷ []));
  }

  new-StreamFits : (id : StreamId) (p : P) (now : ℕ) → StreamFits limit id (Stream.new id p now)
  unfolding Stream.new
  new-StreamFits id p now = record {
    own_id = refl;
    buffer_fits = omega arith;
    three_keyframes = refl;
    keyframes_fit = omega arith;
  }

  add_stream_internal-SharedFits :
      (now : ℕ) (id : StreamId) (p : P) (s : Shared P)
      → SharedFits limit s
      → SharedFits limit (add_stream_internal now id p s).0
  unfolding add_stream_internal
  add_stream_internal-SharedFits now id p s h = elim (Bool-cases (contains_key id s.streams)) [
    | inl there ↦ rw (there, add_stream_internal) h
    | inr fresh ↦
        rw (fresh, add_stream_internal)
          (record {
            streams_fit =
                Entries-insert (StreamFits limit) id _ s.streams (new-StreamFits id p now)
                  h.streams_fit;
            active_counted = refl;
          })
  ]

  remove_stream_internal-SharedFits :
      (id : StreamId) (s : Shared P)
      → SharedFits limit s
      → SharedFits limit (remove_stream_internal id s).0
  unfolding remove_stream_internal
  remove_stream_internal-SharedFits id s h = elim (Bool-cases (contains_key id s.streams)) [
    | inl there ↦
        rw (there, remove_stream_internal)
          (record {
            streams_fit = Entries-remove (StreamFits limit) id s.streams h.streams_fit;
            active_counted = refl;
          })
    | inr missing ↦ rw (missing, remove_stream_internal) h
  ]

  -- The streams stay, or one of them changes in a way that keeps it in its limits.
  update-SharedFits :
      (id : StreamId) (f : StreamRelay P → StreamRelay P) {s t : Shared P}
      → ((j : StreamId) (r : StreamRelay P) → StreamFits limit j r → StreamFits limit j (f r))
      → (t.streams ≡ s.streams) ⊎ (t.streams ≡ modify id f s.streams)
      → t.stats.active_streams ≡ s.stats.active_streams
      → SharedFits limit s
      → SharedFits limit t
  update-SharedFits id f g (inl same) a h = record {
    streams_fit = rw same h.streams_fit;
    active_counted = rw (same, a) h.active_counted;
  }
  update-SharedFits id f {s} g (inr changed) a h = record {
    streams_fit = rw changed (Entries-modify (StreamFits limit) id f s.streams g h.streams_fit);
    active_counted = rw (changed, a, length-modify id f s.streams) h.active_counted;
  }

  handle_request_chunks_internal-SharedFits :
      (handler : Option (Handler P)) (id : StreamId) (p : P) (sequence : ℕ) (s : Shared P)
      → SharedFits limit s
      → SharedFits limit (handle_request_chunks_internal handler id p sequence s).0
  unfolding handle_request_chunks_internal
  handle_request_chunks_internal-SharedFits handler id p sequence s h =
      update-SharedFits id (λ r. r) (λ j r k. k) (inl (ground arith)) (ground arith) h

module _ {P : Type 0} ⦃e : Eq P⦄ (limit : ℕ) where
  add_subscriber-StreamFits :
      (p : P) (id : StreamId) (r : StreamRelay P)
      → StreamFits limit id r
      → StreamFits limit id (Stream.add_subscriber p r).0
  unfolding Stream.add_subscriber
  add_subscriber-StreamFits p id r h = ground arith

  remove_subscriber-StreamFits :
      (p : P) (id : StreamId) (r : StreamRelay P)
      → StreamFits limit id r
      → StreamFits limit id (Stream.remove_subscriber p r).0
  unfolding Stream.remove_subscriber
  remove_subscriber-StreamFits p id r h = ground arith

  add_subscriber_internal-SharedFits :
      (id : StreamId) (p : P) (s : Shared P)
      → SharedFits limit s
      → SharedFits limit (add_subscriber_internal id p s).0
  unfolding add_subscriber_internal
  add_subscriber_internal-SharedFits id p s h =
      update-SharedFits limit id (λ r. (Stream.add_subscriber p r).0) (add_subscriber-StreamFits p)
        (ground arith) (ground arith) h

  remove_subscriber_internal-SharedFits :
      (id : StreamId) (p : P) (s : Shared P)
      → SharedFits limit s
      → SharedFits limit (remove_subscriber_internal id p s).0
  unfolding remove_subscriber_internal
  remove_subscriber_internal-SharedFits id p s h =
      update-SharedFits limit id (λ r. (Stream.remove_subscriber p r).0)
        (remove_subscriber-StreamFits p) (ground arith) (ground arith) h

  pub report_stats-SharedFits :
      (now : ℕ) (s : Shared P) → SharedFits limit s → SharedFits limit (report_stats now s)
  unfolding report_stats Stats.reset_period
  report_stats-SharedFits now s h = record { streams_fit = h.streams_fit; active_counted = refl }

module _ {P : Type 0} (limit : ℕ) where
  remove_streams-SharedFits :
      (ids : List StreamId) (s : Shared P)
      → SharedFits limit s
      → SharedFits limit (remove_streams ids s)
  unfolding remove_streams
  remove_streams-SharedFits [] s h = h
  remove_streams-SharedFits (id ∷ ids) s h =
      remove_streams-SharedFits ids (remove_stream_internal id s).0
        (remove_stream_internal-SharedFits limit id s h)

  pub cleanup-SharedFits :
      (c : RelayConfig) (now : ℕ) (s : Shared P)
      → SharedFits limit s
      → SharedFits limit (cleanup c now s)
  unfolding cleanup
  cleanup-SharedFits c now s h =
      remove_streams-SharedFits (inactive_streams c.inactivity_timeout now s.streams) s h

active_streams-record :
    (size : ℕ) (stream : String) (s : RelayStats)
    → (record_chunk_for_stream size stream s).active_streams ≡ s.active_streams
unfolding record_chunk_for_stream
active_streams-record size stream s = refl

module _ {P : Type 0} ⦃e : Eq P⦄ (display : StreamId → String) where
  pub process_chunk_internal-SharedFits :
      (n : Setup P) (handler : Option (Handler P)) (now : ℕ) (c : StreamChunk P) (s : Shared P)
      → SharedFits n.config.max_buffer_size s
      → SharedFits n.config.max_buffer_size (process_chunk_internal display n handler now c s).0
  unfolding process_chunk_internal
  process_chunk_internal-SharedFits n handler now c s h =
      let limit = n.config.max_buffer_size in
      update-SharedFits limit c.stream_id (add_chunk c limit now) (add_chunk-StreamFits limit c now)
        (ground arith)
        (ground (arith, active_streams-record (length c.payload) (display c.stream_id) s.stats)) h

  pub process_message-SharedFits :
      (n : Setup P) (handler : Option (Handler P)) (now : ℕ) (m : RelayMessage P) (s : Shared P)
      → SharedFits n.config.max_buffer_size s
      → SharedFits n.config.max_buffer_size (process_message display n handler now m s)
  unfolding process_message
  process_message-SharedFits n handler now (RelayMessage.chunk c) s h =
      process_chunk_internal-SharedFits n handler now c s h
  process_message-SharedFits n handler now (RelayMessage.add_stream id p) s h =
      add_stream_internal-SharedFits n.config.max_buffer_size now id p s h
  process_message-SharedFits n handler now (RelayMessage.remove_stream id) s h =
      remove_stream_internal-SharedFits n.config.max_buffer_size id s h
  process_message-SharedFits n handler now (RelayMessage.add_subscriber id p) s h =
      add_subscriber_internal-SharedFits n.config.max_buffer_size id p s h
  process_message-SharedFits n handler now (RelayMessage.remove_subscriber id p) s h =
      remove_subscriber_internal-SharedFits n.config.max_buffer_size id p s h
  process_message-SharedFits n handler now (RelayMessage.request_chunks id p q) s h =
      handle_request_chunks_internal-SharedFits n.config.max_buffer_size handler id p q s h
  process_message-SharedFits n handler now RelayMessage.stop s h = h
