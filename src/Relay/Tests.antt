-- ===== src/Relay/Tests.antt =====
-- Runs of core/src/overlay/relay on small inputs.
use open_broadcast_network.Prelude.{
  ℕ, ◌+◌, ◌-◌, ◌≡◌, refl, String, true, false, none, some, [], ◌∷◌, ◌++◌, length, drop, last?, map,
  nat_eq, ◌==◌, arith, if◌then◌else◌, All,
}
use open_broadcast_network.Prelude.Maps.{get}
use open_broadcast_network.Relay.Chunk.{
  StreamId, StreamChunk, RelayMessage, ok, err, relay_error, default_config,
}
use open_broadcast_network.Relay.Stats
use open_broadcast_network.Relay.Stats.{RelayStats, count_of}
use open_broadcast_network.Relay.Stats.Laws.{record_all, chunks_of, record_all_counts}
use open_broadcast_network.Relay.Stream
use open_broadcast_network.Relay.Stream.{
  StreamRelay, add_chunk, with_keyframe_buffer_size, is_init_chunk, is_video_keyframe,
  get_catchup_chunks,
}
use open_broadcast_network.Relay.Stream.Buffer.{
  add_chunks, keyframes, last_init, highest, add_chunks_window,
}
use open_broadcast_network.Relay.Stream.Catchup.{get_catchup_chunks_complete}
use open_broadcast_network.Relay.Node.{
  Handler, Shared, Setup, stream_id_eq, relay_chunk, process_chunk_internal,
  handle_request_chunks_internal, process_message,
}
use open_broadcast_network.Relay.Node.Delivery.{
  IsHidden, process_chunk_internal_delivers, process_message-IsHidden, request_shows_source,
}
use open_broadcast_network.Relay.Node.Tasks
use open_broadcast_network.Relay.Node.Tasks.{
  RelayNode, new_channel, spawn, start, start_tasks, stop, publish_chunk, send_message,
  set_chunk_handler, Reach, here, next, starts, publish, set_handler, abort, end_task, is_open,
  receive_chunk, take_chunk, cancel_chunks, cancel_messages,
}
use open_broadcast_network.Relay.Node.Tasks.Invariant.{NodeFits, node_stays_within_limits}
use open_broadcast_network.Relay.Node.Tasks.Restart.{
  stop_is_final, stop_can_finish, stopped_is_quiet,
}

abbrev display : StreamId → String
display _ = "stream"

abbrev handler : Handler ℕ
handler _ _ _ = ok

abbrev keyframe : StreamChunk ℕ
keyframe = record {
  id = 1;
  stream_id = 7 ∷ [];
  payload = 1 ∷ 2 ∷ [];
  timestamp = 0;
  sequence = 4;
  content_type = "video";
  is_keyframe = true;
  source = some 9;
}

abbrev frame : StreamChunk ℕ
frame = record keyframe { sequence = 5; is_keyframe = false }

abbrev frame_before : StreamChunk ℕ
frame_before = record keyframe { sequence = 3; is_keyframe = false }

abbrev stream : StreamRelay ℕ
stream = record {
  stream_id = 7 ∷ [];
  publisher = 9;
  subscribers = 2 ∷ 3 ∷ [];
  buffer = [];
  last_activity = 0;
  last_sequence = 0;
  init_segment = none;
  keyframe_buffer = [];
  max_keyframes = 3;
}

abbrev shared : Shared ℕ
shared = record { streams = (7 ∷ [], stream) ∷ []; stats = Stats.new 0; calls = [] }

abbrev setup : Setup ℕ
setup = record { local_peer_id = 1; config = default_config }

stream_is_there : get (7 ∷ []) shared.streams ≡ some stream
unfolding get
stream_is_there = refl

abbrev node : RelayNode ℕ
node = Tasks.new 1 default_config 0

node_stays_within_limits_example :
    NodeFits default_config (publish_chunk keyframe (start (set_chunk_handler handler node).0).0).0
unfolding Tasks.new new_channel
node_stays_within_limits_example = node_stays_within_limits display 1 0 (
    next (next (next here (set_handler handler)) starts) (
      publish keyframe
        (unfold start start_tasks spawn set_chunk_handler Tasks.new new_channel in omega arith)))

abbrev started : RelayNode ℕ
started = (start node).0

-- A node that was stopped while a chunk was waiting.
abbrev waiting : RelayNode ℕ
waiting = (stop (publish_chunk keyframe started).0).0

abbrev ended : RelayNode ℕ
ended =
    let n = (stop started).0 in
    record n { chunks = end_task n.chunks; messages = end_task n.messages }

stop_is_final_example :
    ((start ended).0.shared.calls ≡ ended.shared.calls)
    × ((c : StreamChunk ℕ) → (publish_chunk c (start ended).0).1 ≡ err relay_error)
    × ((msg : RelayMessage ℕ) → (send_message msg (start ended).0).1 ≡ err relay_error)
unfolding start start_tasks spawn stop abort end_task Tasks.new new_channel
stop_is_final_example =
    stop_is_final display started refl refl refl
      (next (next here (cancel_chunks refl)) (cancel_messages refl)) refl refl (next here starts)

stop_can_finish_example :
    (k : RelayNode ℕ) × Reach display (start (stop started).0).0 k
    × (k.chunks.task_alive ≡ false)
    × (k.messages.task_alive ≡ false)
    × (k.shared ≡ (start (stop started).0).0.shared)
unfolding start start_tasks spawn Tasks.new new_channel
stop_can_finish_example = stop_can_finish display started refl refl refl (next here starts)

stopped_is_quiet_example :
    (receive_chunk display 5 keyframe [] waiting).shared.calls ≡ waiting.shared.calls
unfolding publish_chunk start start_tasks spawn stop abort Tasks.new new_channel is_open
stopped_is_quiet_example =
    stopped_is_quiet display {n = waiting} refl (take_chunk 5 keyframe [] refl refl)

process_chunk_internal_delivers_example :
    ((process_chunk_internal display setup (some handler) 5 keyframe shared).1 ≡ ok)
    × ((process_chunk_internal display setup (some handler) 5 keyframe shared).0.calls
        ≡ [] ++ map (λ p. (p, relay_chunk setup keyframe)) (2 ∷ 3 ∷ []))
    × ((id : StreamId)
        → get id (process_chunk_internal display setup (some handler) 5 keyframe shared).0.streams
          ≡ (if (7 ∷ []) == id
              then some (add_chunk keyframe 100 5 stream)
              else get id shared.streams))
process_chunk_internal_delivers_example =
    process_chunk_internal_delivers display setup handler 5 keyframe shared stream_is_there

process_message-IsHidden_example :
    All
      (IsHidden 1)
      (process_message display setup (some handler) 5 (RelayMessage.chunk keyframe) shared).calls
process_message-IsHidden_example =
    process_message-IsHidden display setup (some handler) 5 (RelayMessage.chunk keyframe) shared
      refl (λ h. h) tt

request_shows_source_example :
    last?
      (handle_request_chunks_internal
        (some handler)
        (7 ∷ [])
        6
        3
        (process_chunk_internal display setup (some handler) 5 keyframe shared).0).0.calls
    ≡ some (6, keyframe)
request_shows_source_example =
    request_shows_source display setup handler 5 keyframe shared 6 3 (λ _ _ _. refl) stream_is_there
      (omega arith) (omega arith)

add_chunks_window_example :
    ((add_chunks (keyframe ∷ frame ∷ []) 1 5 stream).buffer
      ≡ drop
          (length (stream.buffer ++ keyframe ∷ frame ∷ []) - 1)
          (stream.buffer ++ keyframe ∷ frame ∷ []))
    × ((add_chunks (keyframe ∷ frame ∷ []) 1 5 stream).keyframe_buffer
        ≡ drop
            (length (stream.keyframe_buffer ++ keyframes (keyframe ∷ frame ∷ [])) - 3)
            (stream.keyframe_buffer ++ keyframes (keyframe ∷ frame ∷ [])))
    × ((add_chunks (keyframe ∷ frame ∷ []) 1 5 stream).init_segment
        ≡ last_init none (keyframe ∷ frame ∷ []))
    × ((add_chunks (keyframe ∷ frame ∷ []) 1 5 stream).last_sequence
        ≡ highest 0 (keyframe ∷ frame ∷ []))
add_chunks_window_example =
    add_chunks_window (keyframe ∷ frame ∷ []) 1 5 stream (omega arith) (omega arith)

get_catchup_chunks_complete_example :
    get_catchup_chunks
      (add_chunks (frame_before ∷ keyframe ∷ frame ∷ []) 2 5 (Stream.new (7 ∷ []) 9 5))
    ≡ keyframe ∷ frame ∷ []
unfolding is_init_chunk is_video_keyframe last_init
get_catchup_chunks_complete_example =
    get_catchup_chunks_complete (frame_before ∷ []) (frame ∷ []) keyframe (7 ∷ []) 9 2 5 refl refl
      refl (omega arith, tt) (omega arith, tt) (omega arith)

record_all_counts_example :
    ((record_all (("a", 10) ∷ ("b", 20) ∷ []) (Stats.new 0)).chunks_relayed ≡ 2)
    × ((record_all (("a", 10) ∷ ("b", 20) ∷ []) (Stats.new 0)).bytes_relayed ≡ 30)
    × ((record_all (("a", 10) ∷ ("b", 20) ∷ []) (Stats.new 0)).avg_chunk_size ≡ 15)
    × ((k : String)
        → count_of k (record_all (("a", 10) ∷ ("b", 20) ∷ []) (Stats.new 0)).per_stream_chunks
          ≡ 0 + chunks_of k (("a", 10) ∷ ("b", 20) ∷ []))
unfolding Stats.new get
record_all_counts_example =
    record_all_counts (("a", 10) ∷ ("b", 20) ∷ []) (Stats.new 0) (omega arith) (omega arith)
      (λ k. omega arith) refl
