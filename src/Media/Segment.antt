-- ===== src/Media/Segment.antt =====
-- core/src/media/segment.rs: segments of a stream and the builder that numbers them. Bytes are
-- numbers, and a `Bytes` is the list of its bytes. The clock's reading is an argument.
use open_broadcast_network.Prelude.{
  ℕ, ◌*◌, ◌/◌, Bool, true, false, Option, none, some, List, add64, if◌then◌else◌, ltb, ◌==◌,
  string_eq, nat_eq,
}

pub data MediaType : Type 0 where
  video : MediaType
  audio : MediaType
  metadata : MediaType
  initialization : MediaType

unfoldable pub to_u8 : MediaType → ℕ
to_u8 video = 0
to_u8 audio = 1
to_u8 metadata = 2
to_u8 initialization = 3

unfoldable pub from_u8 : ℕ → Option MediaType
from_u8 value =
    if value == 0
    then some video
    else (if value == 1
        then some audio
        else (if value == 2
            then some metadata
            else (if value == 3 then some initialization else none)))

-- A stream id is its bytes; `from_vec` and `to_vec` wrap and unwrap them.
pub record StreamId : Type 0 where
  pub bytes : List ℕ

unfoldable pub from_vec : List ℕ → StreamId
from_vec v = record { bytes = v }

unfoldable pub to_vec : StreamId → List ℕ
to_vec s = s.bytes

pub record StreamSegment : Type 0 where
  pub stream_id : StreamId
  pub sequence : ℕ
  pub pts_us : ℕ
  pub duration_us : ℕ
  pub media_type : MediaType
  pub data_bytes : List ℕ
  pub is_keyframe : Bool
  pub track_id : ℕ

unfoldable pub new : StreamId → ℕ → ℕ → ℕ → MediaType → List ℕ → Bool → ℕ → StreamSegment
new stream_id sequence pts_us duration_us media_type bytes is_keyframe track_id = record {
  stream_id = stream_id;
  sequence = sequence;
  pts_us = pts_us;
  duration_us = duration_us;
  media_type = media_type;
  data_bytes = bytes;
  is_keyframe = is_keyframe;
  track_id = track_id;
}

unfoldable pub new_video : StreamId → ℕ → ℕ → ℕ → List ℕ → Bool → StreamSegment
unfolding new
new_video stream_id sequence pts_us duration_us bytes is_keyframe =
    new stream_id sequence pts_us duration_us video bytes is_keyframe 1

unfoldable pub new_audio : StreamId → ℕ → ℕ → ℕ → List ℕ → StreamSegment
unfolding new
new_audio stream_id sequence pts_us duration_us bytes =
    new stream_id sequence pts_us duration_us audio bytes false 2

unfoldable pub new_metadata : ℕ → StreamId → ℕ → List ℕ → StreamSegment
unfolding new
new_metadata now stream_id sequence bytes = new stream_id sequence now 0 metadata bytes false 0

unfoldable pub new_initialization : StreamId → List ℕ → StreamSegment
unfolding new
new_initialization stream_id bytes = new stream_id 0 0 0 initialization bytes true 0

-- `StreamSegment::from_sample`, on the fields of the sample that it reads. Its product is of a u32
-- and a million, and wraps nowhere.
unfoldable pub from_sample : ℕ → List ℕ → Bool → StreamId → ℕ → ℕ → ℕ → MediaType → StreamSegment
from_sample duration bytes is_keyframe stream_id sequence pts_us timescale media_type = record {
  stream_id = stream_id;
  sequence = sequence;
  pts_us = pts_us;
  duration_us = if ltb 0 timescale then duration * 1_000_000 / timescale else duration * 1000;
  media_type = media_type;
  data_bytes = bytes;
  is_keyframe = is_keyframe;
  track_id = elim media_type [ video ↦ 1 | audio ↦ 2 | _ ↦ 0 ];
}

pub record SegmentBuilder : Type 0 where
  pub stream_id : StreamId
  pub video_sequence : ℕ
  pub audio_sequence : ℕ
  pub meta_sequence : ℕ

unfoldable pub new_builder : StreamId → SegmentBuilder
new_builder stream_id = record {
  stream_id = stream_id;
  video_sequence = 0;
  audio_sequence = 0;
  meta_sequence = 0;
}

unfoldable pub next_video : ℕ → ℕ → List ℕ → Bool → SegmentBuilder → StreamSegment × SegmentBuilder
unfolding new_video add64
next_video pts_us duration_us bytes is_keyframe b =
    let seq = b.video_sequence in
    (
      new_video b.stream_id seq pts_us duration_us bytes is_keyframe,
      record b { video_sequence = add64 seq 1 },
    )

unfoldable pub next_audio : ℕ → ℕ → List ℕ → SegmentBuilder → StreamSegment × SegmentBuilder
unfolding new_audio add64
next_audio pts_us duration_us bytes b =
    let seq = b.audio_sequence in
    (new_audio b.stream_id seq pts_us duration_us bytes, record b { audio_sequence = add64 seq 1 })

unfoldable pub next_metadata : ℕ → List ℕ → SegmentBuilder → StreamSegment × SegmentBuilder
unfolding new_metadata add64
next_metadata now bytes b =
    let seq = b.meta_sequence in
    (new_metadata now b.stream_id seq bytes, record b { meta_sequence = add64 seq 1 })

unfoldable pub next_initialization : List ℕ → SegmentBuilder → StreamSegment
unfolding new_initialization
next_initialization bytes b = new_initialization b.stream_id bytes
