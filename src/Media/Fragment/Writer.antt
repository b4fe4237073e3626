-- ===== src/Media/Fragment/Writer.antt =====
-- core/src/media/fragment_writer.rs: segments for a player, cut from the boxes of a file. The u32
-- sizes wrap, and the subtraction that gives a segment's index wraps on usize, as a release build
-- computes them. No operation fails, so the results stand without `Result`.
use open_broadcast_network.Prelude.{
  ℕ, zero, suc, ◌+◌, ◌-◌, ◌*◌, ◌%◌, ◌^◌, Bool, true, false, ◌&&◌, ◌||◌, Option, none, some, List,
  [], ◌∷◌, ◌++◌, length, take, drop, ◌==◌, nat_eq, ltb, if◌then◌else◌,
}
use open_broadcast_network.Prelude.Bytes.{be32, read_be32}
use open_broadcast_network.Media.Mp4.{
  BoxContent, file_type, movie_header, track_content, raw, Mp4Track, MseSegment,
}
use open_broadcast_network.Media.Fragment.{BoxInfo, is_type, ftyp, moov, moof, mdat}

pub record FragmentWriter : Type 0 where
  pub tracks : List Mp4Track
  pub sequence_number : ℕ

unfoldable pub new : FragmentWriter
new = record { tracks = []; sequence_number = 1 }

unfoldable pub add_track : Mp4Track → FragmentWriter → FragmentWriter
add_track t w = record w { tracks = w.tracks ++ t ∷ [] }

-- The content, where it is raw (`if let BoxContent::Raw(content)`), or another list.
unfoldable pub raw_or : List ℕ → BoxContent → List ℕ
raw_or other (raw content) = content
raw_or other (file_type major_brand minor_version compatible_brands) = other
raw_or other (movie_header creation modification timescale duration) = other
raw_or other (track_content track_id duration media_type) = other

-- The bytes of a box: the low 32 bits of its size, its type, and its content where that is raw.
unfoldable pub serialize_box : BoxInfo → List ℕ
unfolding raw_or
serialize_box b = be32 (b.header.size % 2 ^ 32) ++ (b.header.box_type ++ raw_or [] b.content)

unfoldable pub init_segment : List ℕ → MseSegment
init_segment init_data = record {
  segment_type = "initialization";
  data_bytes = init_data;
  timestamp = none;
  duration = none;
  is_keyframe = true;
  track_id = 0;
}

-- The initialization segment, where there is data for it.
unfoldable pub init_segments : List ℕ → List MseSegment
unfolding init_segment
init_segments [] = []
init_segments (b ∷ bs) = init_segment (b ∷ bs) ∷ []

-- Does a window of four bytes hold a start code and an SPS or PPS?
unfoldable pub has_parameter_set : List ℕ → Bool
has_parameter_set (a ∷ b ∷ c ∷ d ∷ rest) =
    (a == 0 && (b == 0 && (c == 1 && (d % 32 == 7 || d % 32 == 8))))
    || has_parameter_set (b ∷ c ∷ d ∷ rest)
has_parameter_set bytes = false

unfoldable pub is_likely_keyframe : List ℕ → ℕ → Bool
unfolding has_parameter_set
is_likely_keyframe bytes segment_index =
    if segment_index % 5 == 0 then true else ltb 4 (length bytes) && has_parameter_set bytes

-- A serialized box that says its own length goes into the initialization data.
unfoldable pub checked_init_box : BoxInfo → List ℕ
unfolding serialize_box read_be32
checked_init_box b =
    let box_data = serialize_box b in
    if ltb (length box_data) 8
    then []
    else (if read_be32 0 box_data == length box_data then box_data else [])

unfoldable pub fragmented_init_data : List BoxInfo → List ℕ
unfolding checked_init_box
fragmented_init_data [] = []
fragmented_init_data (b ∷ bs) =
    (if is_type ftyp b || is_type moov b then checked_init_box b else []) ++ fragmented_init_data bs

-- The media segment of a pair of boxes, after `count` segments.
unfoldable pub pair_segment : ℕ → BoxInfo → BoxInfo → MseSegment
unfolding serialize_box is_likely_keyframe
pair_segment count fragment media =
    let media_data = serialize_box fragment ++ serialize_box media in
    let segment_index = (count + (2 ^ 64 - 1)) % 2 ^ 64 in
    record {
      segment_type = "media";
      data_bytes = media_data;
      timestamp = if ltb 0 segment_index then some (segment_index * 1000 % 2 ^ 64) else some 0;
      duration = some 1000;
      is_keyframe = is_likely_keyframe media_data segment_index;
      track_id = 1;
    }

-- The loop over moof and mdat pairs, with the segments so far.
unfoldable pub extract_pairs : List BoxInfo → List MseSegment → List MseSegment
unfolding pair_segment
extract_pairs [] segments = segments
extract_pairs (b ∷ []) segments = segments
extract_pairs (b ∷ c ∷ rest) segments = elim (is_type moof b && is_type mdat c) [
  | true ↦ extract_pairs rest (segments ++ pair_segment (length segments) b c ∷ [])
  | false ↦ extract_pairs (c ∷ rest) segments
]

unfoldable pub extract_fragmented_segments : List BoxInfo → List MseSegment
unfolding fragmented_init_data init_segments extract_pairs
extract_fragmented_segments boxes = extract_pairs boxes (init_segments (fragmented_init_data boxes))

-- A box of a u32 size, a type and a content.
unfoldable pub boxed : List ℕ → List ℕ → List ℕ
boxed box_type content = be32 ((8 + length content % 2 ^ 32) % 2 ^ 32) ++ (box_type ++ content)

abbrev mfhd : List ℕ
mfhd = b'm' ∷ b'f' ∷ b'h' ∷ b'd' ∷ []

abbrev traf : List ℕ
traf = b't' ∷ b'r' ∷ b'a' ∷ b'f' ∷ []

abbrev tfhd : List ℕ
tfhd = b't' ∷ b'f' ∷ b'h' ∷ b'd' ∷ []

abbrev trun : List ℕ
trun = b't' ∷ b'r' ∷ b'u' ∷ b'n' ∷ []

-- `create_minimal_traf`, which does not read the data's size.
unfoldable pub create_minimal_traf : ℕ → List ℕ
unfolding boxed
create_minimal_traf data_size =
    let tfhd_box = boxed tfhd (0 ∷ 0 ∷ 0 ∷ 0 ∷ 0 ∷ 0 ∷ 0 ∷ 1 ∷ []) in
    let run = 0 ∷ 0 ∷ 0 ∷ 1 ∷ 0 ∷ 0 ∷ 0 ∷ 1 ∷ be32 (8 + length tfhd_box + 16) in
    boxed traf (tfhd_box ++ boxed trun run)

-- `moof_content` in `create_minimal_moof`
unfoldable pub moof_content : FragmentWriter → ℕ → List ℕ
unfolding create_minimal_traf boxed
moof_content w data_size =
    boxed mfhd (0 ∷ 0 ∷ 0 ∷ 0 ∷ be32 w.sequence_number) ++ create_minimal_traf data_size

unfoldable pub create_minimal_moof : FragmentWriter → ℕ → List ℕ
unfolding moof_content boxed
create_minimal_moof w data_size = boxed moof (moof_content w data_size)

unfoldable pub create_simple_media_segment_with_timing :
    FragmentWriter → List ℕ → Option ℕ → Bool → MseSegment
unfolding create_minimal_moof boxed
create_simple_media_segment_with_timing w mdat_content timestamp is_keyframe = record {
  segment_type = "media";
  data_bytes = create_minimal_moof w (length mdat_content % 2 ^ 32) ++ boxed mdat mdat_content;
  timestamp = timestamp;
  duration = some 1000;
  is_keyframe = is_keyframe;
  track_id = 1;
}

unfoldable pub regular_init_data : List BoxInfo → List ℕ
unfolding serialize_box
regular_init_data [] = []
regular_init_data (b ∷ bs) =
    (if is_type ftyp b || is_type moov b then serialize_box b else []) ++ regular_init_data bs

-- The content of the last mdat box that is raw, from what an earlier one gave.
unfoldable pub last_mdat : List BoxInfo → List ℕ → List ℕ
unfolding raw_or
last_mdat [] mdat_data = mdat_data
last_mdat (b ∷ bs) mdat_data =
    last_mdat bs (if is_type mdat b then raw_or mdat_data b.content else mdat_data)

abbrev pub chunk_size : ℕ
chunk_size = 65_536

-- `bytes.chunks(size)`, on fuel for the number of chunks.
unfoldable pub chunks : ℕ → ℕ → List ℕ → List (List ℕ)
chunks size zero bytes = []
chunks size (suc fuel) [] = []
chunks size (suc fuel) (b ∷ bs) = take size (b ∷ bs) ∷ chunks size fuel (drop size (b ∷ bs))

-- The chunks' segments, from an index.
unfoldable pub chunk_segments : FragmentWriter → ℕ → List (List ℕ) → List MseSegment
unfolding create_simple_media_segment_with_timing is_likely_keyframe
chunk_segments w chunk_index [] = []
chunk_segments w chunk_index (chunk ∷ rest) =
    create_simple_media_segment_with_timing w chunk (some (chunk_index * 1000 % 2 ^ 64))
      (chunk_index == 0 || is_likely_keyframe chunk chunk_index)
    ∷ chunk_segments w (chunk_index + 1) rest

-- There are fewer chunks than bytes.
unfoldable pub create_fragments_from_regular_mp4 : FragmentWriter → List BoxInfo → List MseSegment
unfolding regular_init_data init_segments last_mdat chunks chunk_segments
create_fragments_from_regular_mp4 w boxes =
    let mdat_data = last_mdat boxes [] in
    init_segments (regular_init_data boxes)
    ++ chunk_segments w 0 (chunks chunk_size (length mdat_data) mdat_data)

unfoldable pub generate_mse_segments : FragmentWriter → List BoxInfo → Bool → List MseSegment
unfolding extract_fragmented_segments create_fragments_from_regular_mp4
generate_mse_segments w boxes true = extract_fragmented_segments boxes
generate_mse_segments w boxes false = create_fragments_from_regular_mp4 w boxes
