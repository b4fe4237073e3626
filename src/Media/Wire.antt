-- ===== src/Media/Wire.antt =====
-- core/src/media/wire_format.rs: segments as they are sent. bincode and blake3 are parameters; an
-- error of bincode is `none`.
use open_broadcast_network.Prelude.{
  ℕ, Bool, Option, none, some, List, take, map, leb, nat_eq, list_beq,
}
use open_broadcast_network.Media.Segment.{
  MediaType, video, to_u8, from_u8, from_vec, to_vec, StreamSegment,
}

abbrev pub wire_format_version : ℕ
wire_format_version = 2

pub record WireSegment : Type 0 where
  pub version : ℕ
  pub stream_id : List ℕ
  pub sequence : ℕ
  pub pts_us : ℕ
  pub duration_us : ℕ
  pub media_type : ℕ
  pub track_id : ℕ
  pub is_keyframe : Bool
  pub content_hash : List ℕ
  pub data_bytes : List ℕ

pub record WireSegmentBatch : Type 0 where
  pub version : ℕ
  pub segments : List WireSegment

-- bincode on a type, and blake3.
pub record Bincode (A : Type 0) : Type 0 where
  pub serialize : A → Option (List ℕ)
  pub deserialize : List ℕ → Option A

unfoldable pub is_compatible : WireSegment → Bool
is_compatible w = leb w.version wire_format_version

unfoldable pub media_type_enum : WireSegment → Option MediaType
unfolding from_u8
media_type_enum w = from_u8 w.media_type

-- `StreamSegment::from(wire)`
unfoldable pub segment_from_wire : WireSegment → StreamSegment
unfolding from_u8 from_vec
segment_from_wire w = record {
  stream_id = from_vec w.stream_id;
  sequence = w.sequence;
  pts_us = w.pts_us;
  duration_us = w.duration_us;
  media_type = elim (from_u8 w.media_type) [ some t ↦ t | none ↦ video ];
  data_bytes = w.data_bytes;
  is_keyframe = w.is_keyframe;
  track_id = w.track_id;
}

unfoldable pub new_batch : List WireSegment → WireSegmentBatch
new_batch segments = record { version = wire_format_version; segments = segments }

unfoldable pub into_segments : WireSegmentBatch → List StreamSegment
unfolding segment_from_wire
into_segments b = map segment_from_wire b.segments

module _ (blake3 : List ℕ → List ℕ) where
  unfoldable pub compute_content_hash : List ℕ → List ℕ
  compute_content_hash bytes = take 16 (blake3 bytes)

  unfoldable pub new_wire : List ℕ → ℕ → ℕ → ℕ → ℕ → ℕ → Bool → List ℕ → WireSegment
  unfolding compute_content_hash
  new_wire stream_id sequence pts_us duration_us media_type track_id is_keyframe bytes = record {
    version = wire_format_version;
    stream_id = stream_id;
    sequence = sequence;
    pts_us = pts_us;
    duration_us = duration_us;
    media_type = media_type;
    track_id = track_id;
    is_keyframe = is_keyframe;
    content_hash = compute_content_hash bytes;
    data_bytes = bytes;
  }

  unfoldable pub verify_integrity : WireSegment → Bool
  unfolding compute_content_hash
  verify_integrity w = list_beq w.content_hash (compute_content_hash w.data_bytes)

  -- `WireSegment::from(segment)`
  unfoldable pub wire_from_segment : StreamSegment → WireSegment
  unfolding compute_content_hash to_u8 to_vec
  wire_from_segment s = record {
    version = wire_format_version;
    stream_id = to_vec s.stream_id;
    sequence = s.sequence;
    pts_us = s.pts_us;
    duration_us = s.duration_us;
    media_type = to_u8 s.media_type;
    track_id = s.track_id;
    is_keyframe = s.is_keyframe;
    content_hash = compute_content_hash s.data_bytes;
    data_bytes = s.data_bytes;
  }

  unfoldable pub from_segments : List StreamSegment → WireSegmentBatch
  unfolding new_batch wire_from_segment
  from_segments segments = new_batch (map wire_from_segment segments)

  unfoldable pub to_wire_bytes : Bincode WireSegment → StreamSegment → Option (List ℕ)
  unfolding wire_from_segment
  to_wire_bytes bincode s = bincode.serialize (wire_from_segment s)
