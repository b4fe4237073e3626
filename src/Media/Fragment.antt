-- ===== src/Media/Fragment.antt =====
-- core/src/media/fragment_parser.rs: the boxes of a file. The loop of `parse_boxes` runs on fuel;
-- the boxes that it pushed stay where it fails.
use open_broadcast_network.Prelude.{
  ℕ, zero, suc, ◌+◌, ◌-◌, String, Bool, true, false, ◌||◌, Option, none, some, List, [], ◌∷◌, ◌++◌,
  length, take, drop, keep, any, nat_eq, list_beq, ltb, if◌then◌else◌,
}
use open_broadcast_network.Prelude.Bytes.{read_be32, from_utf8_lossy}
use open_broadcast_network.Media.Mp4.{BoxHeader, BoxContent, raw, Mp4Track}
pub mod Boxes
pub mod Writer
pub mod RoundTrip
pub mod Chunks
pub mod Pairs
mod Tests

pub data Mp4ParseError : Type 0 where
  invalid_data : String → Mp4ParseError
  invalid_box_size : ℕ → Mp4ParseError
  io_error : String → Mp4ParseError

-- `Result<A, Mp4ParseError>`
pub data Parsed (A : Type 0) : Type 0 where
  ok : A → Parsed A
  err : Mp4ParseError → Parsed A

pub record BoxInfo : Type 0 where
  pub header : BoxHeader
  pub content : BoxContent
  pub offset : ℕ

pub record FragmentParser : Type 0 where
  pub boxes : List BoxInfo
  pub tracks : List Mp4Track
  pub is_fragmented : Bool
  pub file_size : ℕ

abbrev pub ftyp : List ℕ
ftyp = b'f' ∷ b't' ∷ b'y' ∷ b'p' ∷ []

abbrev pub moov : List ℕ
moov = b'm' ∷ b'o' ∷ b'o' ∷ b'v' ∷ []

abbrev pub moof : List ℕ
moof = b'm' ∷ b'o' ∷ b'o' ∷ b'f' ∷ []

abbrev pub mvex : List ℕ
mvex = b'm' ∷ b'v' ∷ b'e' ∷ b'x' ∷ []

abbrev pub mdat : List ℕ
mdat = b'm' ∷ b'd' ∷ b'a' ∷ b't' ∷ []

abbrev pub vide : List ℕ
vide = b'v' ∷ b'i' ∷ b'd' ∷ b'e' ∷ []

abbrev pub is_type : List ℕ → BoxInfo → Bool
is_type box_type b = list_beq b.header.box_type box_type

unfoldable pub new : FragmentParser
new = record { boxes = []; tracks = []; is_fragmented = false; file_size = 0 }

unfoldable pub parse_box_header : List ℕ → Parsed BoxHeader
unfolding read_be32 from_utf8_lossy
parse_box_header bytes =
    if ltb (length bytes) 8
    then err (invalid_data "Insufficient data for box header")
    else ok (record {
      box_type = from_utf8_lossy (take 4 (drop 4 bytes));
      size = read_be32 0 bytes;
      content_start = 8;
    })

-- What one round of the loop does: it leaves the loop, fails, or pushes a box.
pub data Round : Type 0 where
  leave : Round
  fail : Mp4ParseError → Round
  push : BoxInfo → Round

-- A round that has read the header of the box at an offset. Where the source tests the end of the
-- content again, it has passed that test.
unfoldable pub check_box : List ℕ → ℕ → BoxHeader → Round
check_box bytes offset header =
    if ltb header.size 8
    then fail (invalid_box_size header.size)
    else (if ltb (length bytes) (offset + header.size)
        then leave
        else push (record {
          header = header;
          content = raw (take (header.size - 8) (drop (offset + 8) bytes));
          offset = offset;
        }))

unfoldable pub next_box : List ℕ → ℕ → Round
unfolding parse_box_header check_box
next_box bytes offset =
    if ltb offset (length bytes)
    then (if ltb (length bytes) (offset + 8)
        then leave
        else elim (parse_box_header (drop offset bytes)) [
          | ok header ↦ check_box bytes offset header
          | err e ↦ fail e
        ])
    else leave

-- The boxes, and how the loop ended; nothing where the fuel did not last.
unfoldable pub parse_loop :
    ℕ → List ℕ → ℕ → List BoxInfo → Option (List BoxInfo × Parsed (Unit {0}))
unfolding next_box
parse_loop zero bytes offset boxes = none
parse_loop (suc fuel) bytes offset boxes = elim (next_box bytes offset) [
  | leave ↦ some (boxes, ok tt)
  | fail e ↦ some (boxes, err e)
  | push b ↦ parse_loop fuel bytes (offset + b.header.size) (boxes ++ b ∷ [])
]

-- Each round takes eight bytes at least, so a round for each byte and one more are enough.
unfoldable pub parse_boxes : List ℕ → List BoxInfo → Option (List BoxInfo × Parsed (Unit {0}))
unfolding parse_loop
parse_boxes bytes boxes = parse_loop (suc (length bytes)) bytes 0 boxes

unfoldable pub has_box : List ℕ → FragmentParser → Bool
has_box box_type p = any (is_type box_type) p.boxes

unfoldable pub get_boxes : List ℕ → FragmentParser → List BoxInfo
get_boxes box_type p = keep (is_type box_type) p.boxes

abbrev placeholder_track : Mp4Track
placeholder_track = record {
  track_id = 1;
  media_type = vide;
  timescale = 30_000;
  duration = 1_800_000;
  codec = "H.264";
  codec_mime_type = "video/mp4; codecs=\"avc1.42E01E\"";
  codec_params = some "avc1.42E01E";
  sample_table = none;
}

unfoldable pub extract_track_info : FragmentParser → FragmentParser
unfolding has_box
extract_track_info p =
    if has_box moov p then record p { tracks = p.tracks ++ placeholder_track ∷ [] } else p

unfoldable pub check_fragmentation : FragmentParser → FragmentParser
unfolding has_box
check_fragmentation p = record p { is_fragmented = has_box moof p || has_box mvex p }

unfoldable pub parse : List ℕ → FragmentParser → Option (FragmentParser × Parsed (Unit {0}))
unfolding parse_boxes extract_track_info check_fragmentation
parse bytes p = elim (parse_boxes bytes p.boxes) [
  | some (boxes, ok u) ↦ some (
    check_fragmentation (extract_track_info (record p { boxes = boxes; file_size = length bytes })),
    ok tt,
  )
  | some (boxes, err e) ↦ some (record p { boxes = boxes; file_size = length bytes }, err e)
  | none ↦ none
]
