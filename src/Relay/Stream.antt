-- ===== src/Relay/Stream.antt =====
-- core/src/overlay/relay/stream.rs: the state of one relayed stream, with its bounded buffer and
-- what is kept for viewers that join late. An `Instant` is a number of milliseconds, and the
-- clock's reading is an argument.
use text.Mathlib.Text.{starts_with}
use open_broadcast_network.Prelude.{
  ℕ, zero, suc, ◌-◌, String, Bool, true, false, ◌&&◌, ◌||◌, Option, none, some, List, [], ◌∷◌, ◌++◌,
  length, keep, last?, Eq, ◌==◌, string_eq, ltb, not, if◌then◌else◌,
}
use open_broadcast_network.Prelude.Maps.{contains, set_insert, set_remove}
use open_broadcast_network.Relay.Chunk.{StreamId, StreamChunk}
pub mod Buffer
pub mod Catchup

abbrev pub default_keyframe_buffer_size : ℕ
default_keyframe_buffer_size = 3

pub record StreamRelay (P : Type 0) : Type 0 where
  pub stream_id : StreamId
  pub publisher : P
  pub subscribers : List P
  pub buffer : List (StreamChunk P)
  pub last_activity : ℕ
  pub last_sequence : ℕ
  pub init_segment : Option (StreamChunk P)
  pub keyframe_buffer : List (StreamChunk P)
  pub max_keyframes : ℕ

-- `while buffer.len() > limit { buffer.pop_front(); }`
unfoldable pub pop_to {ℓ} : {A : Type ℓ} → ℕ → List A → List A
pop_to limit [] = []
pop_to limit (x ∷ xs) = if ltb limit (length (x ∷ xs)) then pop_to limit xs else x ∷ xs

module _ {P : Type 0} where
  unfoldable pub with_keyframe_buffer_size : StreamId → P → ℕ → ℕ → StreamRelay P
  with_keyframe_buffer_size stream_id publisher max_keyframes now = record {
    stream_id = stream_id;
    publisher = publisher;
    subscribers = [];
    buffer = [];
    last_activity = now;
    last_sequence = 0;
    init_segment = none;
    keyframe_buffer = [];
    max_keyframes = max_keyframes;
  }

  unfoldable pub new : StreamId → P → ℕ → StreamRelay P
  unfolding with_keyframe_buffer_size
  new stream_id publisher now =
      with_keyframe_buffer_size stream_id publisher default_keyframe_buffer_size now

  unfoldable pub is_init_chunk : StreamChunk P → Bool
  is_init_chunk c = c.content_type == "init" || c.content_type == "initialization"

  unfoldable pub is_video_keyframe : StreamChunk P → Bool
  is_video_keyframe c =
      c.is_keyframe && (c.content_type == "video" || starts_with c.content_type "video/")

  unfoldable pub add_chunk : StreamChunk P → ℕ → ℕ → StreamRelay P → StreamRelay P
  add_chunk chunk max_buffer_size now r = record r {
    last_activity = now;
    last_sequence = if ltb r.last_sequence chunk.sequence then chunk.sequence else r.last_sequence;
    init_segment = if is_init_chunk chunk then some chunk else r.init_segment;
    keyframe_buffer =
        if is_init_chunk chunk
        then r.keyframe_buffer
        else if is_video_keyframe chunk
        then pop_to r.max_keyframes (r.keyframe_buffer ++ chunk ∷ [])
        else r.keyframe_buffer;
    buffer = pop_to max_buffer_size (r.buffer ++ chunk ∷ []);
  }

  unfoldable pub set_init_segment : StreamChunk P → StreamRelay P → StreamRelay P
  set_init_segment chunk r = record r { init_segment = some chunk }

  unfoldable pub has_init_segment : StreamRelay P → Bool
  has_init_segment r = elim r.init_segment [ none ↦ false | some _ ↦ true ]

  unfoldable pub keyframe_count : StreamRelay P → ℕ
  keyframe_count r = length r.keyframe_buffer

  unfoldable pub get_chunks_since : ℕ → StreamRelay P → List (StreamChunk P)
  get_chunks_since sequence r = keep (λ c. ltb sequence c.sequence) r.buffer

  -- From the last keyframe on: the keyframe, then the buffered chunks after it.
  unfoldable pub from_keyframe : Option (StreamChunk P) → StreamRelay P → List (StreamChunk P)
  unfolding get_chunks_since
  from_keyframe none r = []
  from_keyframe (some keyframe) r = keyframe ∷ get_chunks_since keyframe.sequence r

  unfoldable pub get_catchup_chunks : StreamRelay P → List (StreamChunk P)
  unfolding from_keyframe
  get_catchup_chunks r =
      elim r.init_segment [ none ↦ [] | some init ↦ init ∷ [] ]
      ++ from_keyframe (last? r.keyframe_buffer) r

  unfoldable pub is_inactive : ℕ → ℕ → StreamRelay P → Bool
  is_inactive timeout now r = ltb timeout (now - r.last_activity)

module _ {P : Type 0} ⦃e : Eq P⦄ where
  -- The new state, and whether the peer was not there before.
  unfoldable pub add_subscriber : P → StreamRelay P → StreamRelay P × Bool
  add_subscriber peer r =
      (record r { subscribers = set_insert peer r.subscribers }, not (contains peer r.subscribers))

  unfoldable pub remove_subscriber : P → StreamRelay P → StreamRelay P × Bool
  remove_subscriber peer r =
      (record r { subscribers = set_remove peer r.subscribers }, contains peer r.subscribers)
