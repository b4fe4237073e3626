-- ===== src/Relay/Chunk.antt =====
-- core/src/overlay/relay/types.rs, config.rs and the error type of core/src/overlay/interface.rs:
-- the data that the relay moves. A peer id is an abstract type `P` (it is libp2p's); bytes are
-- numbers. Of `RelayConfig` the fields that the relay's code reads are kept.
use open_broadcast_network.Prelude.{ℕ, ◌*◌, String, Bool, true, Option, List}

-- overlay/interface.rs: an identifier is its bytes.
abbrev pub StreamId : Type 0
StreamId = List ℕ

pub record StreamChunk (P : Type 0) : Type 0 where
  pub id : ℕ
  pub stream_id : StreamId
  pub payload : List ℕ
  pub timestamp : ℕ
  pub sequence : ℕ
  pub content_type : String
  pub is_keyframe : Bool
  pub source : Option P

-- The errors that the relay returns. A text carried by an error is left out.
pub data OverlayError (P : Type 0) : Type 0 where
  relay_error : OverlayError P
  not_running : OverlayError P
  already_running : OverlayError P
  stream_not_found : StreamId → OverlayError P
  stream_already_exists : StreamId → OverlayError P
  no_chunk_handler : OverlayError P
  peer_not_found : P → OverlayError P

-- `Result<(), OverlayError>`
pub data Outcome (P : Type 0) : Type 0 where
  ok : Outcome P
  err : OverlayError P → Outcome P

pub data RelayMessage (P : Type 0) : Type 0 where
  chunk : StreamChunk P → RelayMessage P
  add_stream : StreamId → P → RelayMessage P
  remove_stream : StreamId → RelayMessage P
  add_subscriber : StreamId → P → RelayMessage P
  remove_subscriber : StreamId → P → RelayMessage P
  request_chunks : StreamId → P → ℕ → RelayMessage P
  stop : RelayMessage P

pub record RelayConfig : Type 0 where
  pub max_buffer_size : ℕ
  pub max_chunk_size : ℕ
  pub inactivity_timeout : ℕ
  pub enable_hop_removal : Bool

-- `RelayConfig::default`; durations are in milliseconds.
abbrev pub default_config : RelayConfig
default_config = record {
  max_buffer_size = 100;
  max_chunk_size = 64 * 1024;
  inactivity_timeout = 60_000;
  enable_hop_removal = true;
}
