-- ===== src/Media/Fragment/Tests.antt =====
-- core/src/media/fragment_parser.rs and fragment_writer.rs: tests, and the theorems at concrete files.
use open_broadcast_network.Prelude.{
  list_beq_iff, nat_eq, ℕ, ◌≤◌, ◌≡◌, refl, some, none, List, [], ◌∷◌, ◌++◌, length, keep, map,
  arith,
}
use open_broadcast_network.Prelude.Bytes.{be32}
use open_broadcast_network.Media.Mp4.{MseSegment}
use open_broadcast_network.Media.Fragment.{
  ok, err, invalid_box_size, BoxInfo, ftyp, moov, moof, mdat, parse_boxes,
}
use open_broadcast_network.Media.Fragment.Writer
use open_broadcast_network.Media.Fragment.Writer.{
  init_segments, fragmented_init_data, regular_init_data, last_mdat,
  create_fragments_from_regular_mp4, extract_fragmented_segments, chunk_size,
}
use open_broadcast_network.Media.Fragment.Boxes.{Covers, parse_finds_boxes}
use open_broadcast_network.Media.Fragment.RoundTrip.{
  IsPlain, AllPlain, placed, serialize_boxes, parse_boxes-serialize_box,
}
use open_broadcast_network.Media.Fragment.Chunks.{
  box_at, IsOther, Cut, Carries, concat, regular_file_segments,
}
use open_broadcast_network.Media.Fragment.Pairs.{
  is_init, init_data_kept, stream, flatten, Stamped, fragmented_file_streams,
}

abbrev type_box : BoxInfo
type_box = box_at 0 ftyp (1 ∷ 2 ∷ [])

abbrev movie_box : BoxInfo
movie_box = box_at 10 moov (3 ∷ [])

abbrev media_box : BoxInfo
media_box = box_at 19 mdat (9 ∷ 8 ∷ 7 ∷ [])

abbrev moof_box : BoxInfo
moof_box = box_at 19 moof (4 ∷ 4 ∷ [])

abbrev small_file : List BoxInfo
small_file = type_box ∷ movie_box ∷ media_box ∷ []

type_box-IsPlain : IsPlain type_box
type_box-IsPlain = record {
  payload = 1 ∷ 2 ∷ [];
  content_raw = refl;
  size_says = refl;
  size_fits = omega arith;
  four_characters = refl;
  ascii = omega arith;
}

movie_box-IsPlain : IsPlain movie_box
movie_box-IsPlain = record {
  payload = 3 ∷ [];
  content_raw = refl;
  size_says = refl;
  size_fits = omega arith;
  four_characters = refl;
  ascii = omega arith;
}

media_box-IsPlain : IsPlain media_box
media_box-IsPlain = record {
  payload = 9 ∷ 8 ∷ 7 ∷ [];
  content_raw = refl;
  size_says = refl;
  size_fits = omega arith;
  four_characters = refl;
  ascii = omega arith;
}

small_file-AllPlain : AllPlain small_file
small_file-AllPlain = (type_box-IsPlain, (movie_box-IsPlain, (media_box-IsPlain, tt)))

-- A size below eight fails, and keeps the box before it.
bad_size :
    parse_boxes (serialize_boxes (type_box ∷ []) ++ be32 7 ++ mdat) []
    ≡ some (type_box ∷ [], err (invalid_box_size 7))
unfolding parse_boxes Writer.serialize_box
bad_size = refl

-- Where no initialization segment comes first, the first media segment's index wraps.
wrapped_index :
    map MseSegment.timestamp (extract_fragmented_segments (moof_box ∷ media_box ∷ []))
    ≡ some 18_446_744_073_709_550_616 ∷ []
unfolding extract_fragmented_segments
wrapped_index = refl

parse_finds_boxes_example :
    (fin : ℕ) × (fin ≤ length (serialize_boxes small_file))
    × Covers (serialize_boxes small_file) fin
parse_finds_boxes_example = parse_finds_boxes (serialize_boxes small_file)

parse_boxes-serialize_box_example :
    parse_boxes (serialize_boxes small_file ++ 0 ∷ 0 ∷ []) [] ≡ some (placed 0 small_file, ok tt)
parse_boxes-serialize_box_example =
    parse_boxes-serialize_box small_file (0 ∷ 0 ∷ []) small_file-AllPlain (omega arith)

type_box-IsOther : IsOther type_box
type_box-IsOther q = ground (arith, (list_beq_iff ftyp mdat).1 q)

regular_file_segments_example :
    let boxes = (media_box ∷ []) ++ media_box ∷ type_box ∷ [] in
    (pieces : List (List ℕ)) × (media : List MseSegment) × (create_fragments_from_regular_mp4
        Writer.new boxes
      ≡ init_segments (regular_init_data boxes) ++ media)
    × (concat pieces ≡ 9 ∷ 8 ∷ 7 ∷ [])
    × Cut chunk_size pieces
    × Carries Writer.new 0 pieces media
regular_file_segments_example =
    regular_file_segments Writer.new (media_box ∷ []) media_box (type_box ∷ []) (9 ∷ 8 ∷ 7 ∷ [])
      refl refl (type_box-IsOther, tt)

init_data_kept_example :
    (fragmented_init_data small_file ≡ serialize_boxes (keep is_init small_file))
    × (regular_init_data small_file ≡ serialize_boxes (keep is_init small_file))
init_data_kept_example = init_data_kept small_file small_file-AllPlain

abbrev one_pair : List (BoxInfo × BoxInfo)
one_pair = (moof_box, media_box) ∷ []

fragmented_file_streams_example :
    (init : MseSegment) × (media : List MseSegment) × (extract_fragmented_segments
        ((type_box ∷ movie_box ∷ []) ++ flatten one_pair)
      ≡ init ∷ media)
    × (init.timestamp ≡ none)
    × (length media ≡ length one_pair)
    × Stamped 0 media
    × (stream (init ∷ media) ≡ serialize_boxes ((type_box ∷ movie_box ∷ []) ++ flatten one_pair))
fragmented_file_streams_example =
    fragmented_file_streams type_box (movie_box ∷ []) one_pair
      (type_box-IsPlain, (movie_box-IsPlain, tt)) (refl, (refl, tt)) ((refl, refl), tt)
      (omega arith)
