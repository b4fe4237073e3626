-- ===== src/Media/Mp4.antt =====
-- core/src/media/mp4_parser.rs: the data of an MP4 file that the parsers and the writer share. A
-- box type, a brand and a handler type are the UTF-8 bytes of their strings; a codec's name is a
-- text.
use open_broadcast_network.Prelude.{ℕ, ◌-◌, ◌^◌, String, Bool, Option, List, ltb, if◌then◌else◌}
pub mod Tables
pub mod Samples
pub mod Tracks
pub mod Columns
pub mod Places
pub mod Resolve
pub mod Entries
pub mod Bounds
mod Tests

-- A signed number: `pos n` is n, and `negsuc n` is -(n + 1).
pub data ℤ : Type 0 where
  pos : ℕ → ℤ
  negsuc : ℕ → ℤ

-- A u32's bits read as an i32.
unfoldable pub to_i32 : ℕ → ℤ
to_i32 n = if ltb n (2 ^ 31) then pos n else negsuc (2 ^ 32 - 1 - n)

pub record BoxHeader : Type 0 where
  pub box_type : List ℕ
  pub size : ℕ
  pub content_start : ℕ

pub data BoxContent : Type 0 where
  file_type : List ℕ → ℕ → List (List ℕ) → BoxContent
  movie_header : ℕ → ℕ → ℕ → ℕ → BoxContent
  track_content : ℕ → ℕ → List ℕ → BoxContent
  raw : List ℕ → BoxContent

pub record SampleTable : Type 0 where
  pub sample_sizes : List ℕ
  pub time_to_sample : List (ℕ × ℕ)
  pub sample_to_chunk : List (ℕ × ℕ × ℕ)
  pub chunk_offsets : List ℕ
  pub sync_samples : List ℕ
  pub composition_offsets : List (ℕ × ℤ)

pub record SampleEntry : Type 0 where
  pub offset : ℕ
  pub size : ℕ
  pub duration : ℕ
  pub is_keyframe : Bool
  pub composition_offset : ℤ

pub record Mp4Track : Type 0 where
  pub track_id : ℕ
  pub media_type : List ℕ
  pub timescale : ℕ
  pub duration : ℕ
  pub codec : String
  pub codec_mime_type : String
  pub codec_params : Option String
  pub sample_table : Option SampleTable

pub record MseSegment : Type 0 where
  pub segment_type : String
  pub data_bytes : List ℕ
  pub timestamp : Option ℕ
  pub duration : Option ℕ
  pub is_keyframe : Bool
  pub track_id : ℕ
