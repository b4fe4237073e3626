-- ===== src/Media/Mp4/Tracks.antt =====
-- core/src/media/mp4_parser.rs: the walk over the boxes inside a moov, trak, mdia or mvex box, and
-- the filters that keep the tracks of one kind. The loops of these functions move in the same way
-- and stop in the same way; `children` is that way, on fuel, and each function passes over it.
use open_broadcast_network.Prelude.{
  ℕ, zero, suc, ◌+◌, ◌%◌, ◌^◌, Bool, true, false, ◌&&◌, ◌||◌, Option, none, some, List, [], ◌∷◌,
  ◌++◌, length, take, drop, any, ltb, leb, nat_eq, ◌==◌, list_beq, if◌then◌else◌,
}
use open_broadcast_network.Prelude.Bytes.{be32, be64, read_be32, from_utf8_lossy}
pub mod Filters
pub mod Video
pub mod Handlers
mod Tests

-- Where a box begins, and its size.
abbrev pub Span : Type 0
Span = ℕ × ℕ

abbrev pub slice : ℕ → ℕ → List ℕ → List ℕ
slice start size bytes = take size (drop start bytes)

-- The boxes from a cursor to an end.
unfoldable pub walk : ℕ → List ℕ → ℕ → ℕ → List Span
unfolding read_be32
walk zero bytes cursor end = []
walk (suc fuel) bytes cursor end =
    let size = read_be32 cursor bytes in
    elim (ltb end (cursor + 8) || (ltb size 8 || ltb end (cursor + size))) [
      | true ↦ []
      | false ↦ (cursor, size) ∷ walk fuel bytes (cursor + size) end
    ]

-- A box takes eight bytes at least, so a round for each byte is enough.
unfoldable pub children : List ℕ → ℕ → ℕ → List Span
unfolding walk
children bytes cursor end = walk (suc end) bytes cursor end

unfoldable pub type_at : List ℕ → ℕ → List ℕ
unfolding from_utf8_lossy
type_at bytes cursor = from_utf8_lossy (slice (cursor + 4) 4 bytes)

abbrev pub trak : List ℕ
trak = b't' ∷ b'r' ∷ b'a' ∷ b'k' ∷ []

abbrev pub mdia : List ℕ
mdia = b'm' ∷ b'd' ∷ b'i' ∷ b'a' ∷ []

abbrev pub hdlr : List ℕ
hdlr = b'h' ∷ b'd' ∷ b'l' ∷ b'r' ∷ []

abbrev pub tkhd : List ℕ
tkhd = b't' ∷ b'k' ∷ b'h' ∷ b'd' ∷ []

abbrev pub trex : List ℕ
trex = b't' ∷ b'r' ∷ b'e' ∷ b'x' ∷ []

abbrev pub mvex : List ℕ
mvex = b'm' ∷ b'v' ∷ b'e' ∷ b'x' ∷ []

abbrev pub moov : List ℕ
moov = b'm' ∷ b'o' ∷ b'o' ∷ b'v' ∷ []

abbrev pub vide : List ℕ
vide = b'v' ∷ b'i' ∷ b'd' ∷ b'e' ∷ []

-- What a search for the handler type gives: no handler box, four bytes, or a panic, where the four
-- bytes lie beyond the data.
pub data Handler : Type 0 where
  absent : Handler
  handler : List ℕ → Handler
  panics : Handler

-- The four bytes at a place in the first handler box of an mdia box.
unfoldable pub handler_in : ℕ → List ℕ → ℕ → List Span → Handler
unfolding type_at
handler_in place bytes mdia_end [] = absent
handler_in place bytes mdia_end ((c, size) ∷ rest) =
    let onward = handler_in place bytes mdia_end rest in
    if list_beq (type_at bytes c) hdlr && leb (c + 16) mdia_end
    then (if leb (c + (place + 4)) (length bytes)
        then handler (from_utf8_lossy (slice (c + place) 4 bytes))
        else panics)
    else onward

-- The first such box in the mdia boxes of a trak box.
unfoldable pub handler_of : ℕ → List ℕ → List Span → Handler
unfolding type_at children handler_in
handler_of place bytes [] = absent
handler_of place bytes ((c, size) ∷ rest) =
    let onward = handler_of place bytes rest in
    if list_beq (type_at bytes c) mdia
    then elim (handler_in place bytes (c + size) (children bytes (c + 8) (c + size))) [
      | absent ↦ onward
      | handler h ↦ handler h
      | panics ↦ panics
    ]
    else onward

-- Whether a handler type is the wanted one; nothing where the search panics.
unfoldable pub is_handler : List ℕ → Handler → Option Bool
is_handler wanted absent = some false
is_handler wanted (handler h) = some (list_beq h wanted)
is_handler wanted panics = none

-- The search reads at byte 12 of the handler box.
unfoldable pub is_video_track : List ℕ → Option Bool
unfolding children handler_of is_handler
is_video_track trak_data =
    is_handler vide (handler_of 12 trak_data (children trak_data 8 (length trak_data)))

-- The search reads at byte 16 of the handler box.
unfoldable pub track_has_handler_type : List ℕ → List ℕ → Option Bool
unfolding children handler_of is_handler
track_has_handler_type trak_data handler_type =
    is_handler handler_type (handler_of 16 trak_data (children trak_data 8 (length trak_data)))

unfoldable pub find_track_id : List ℕ → List Span → Option ℕ
unfolding type_at read_be32
find_track_id bytes [] = none
find_track_id bytes ((c, size) ∷ rest) =
    let onward = find_track_id bytes rest in
    if list_beq (type_at bytes c) tkhd && leb (c + 24) (length bytes)
    then some (read_be32 (c + 20) bytes)
    else onward

unfoldable pub extract_track_id_from_trak : List ℕ → Option ℕ
unfolding children find_track_id
extract_track_id_from_trak trak_data =
    find_track_id trak_data (children trak_data 8 (length trak_data))

-- Whether a box of a type is kept: a track where it is video, and any other box.
unfoldable pub is_kept : List ℕ → List ℕ → Option Bool
unfolding is_video_track
is_kept box_type box = if list_beq box_type trak then is_video_track box else some true

-- The box before the others, where it is kept; nothing where the question panics.
unfoldable pub put_if : Option Bool → List ℕ → Option (List ℕ) → Option (List ℕ)
put_if none box onward = none
put_if (some false) box onward = onward
put_if (some true) box none = none
put_if (some true) box (some out) = some (box ++ out)

unfoldable pub keep_video : List ℕ → List Span → Option (List ℕ)
unfolding type_at is_kept put_if
keep_video moov_content [] = some []
keep_video moov_content ((c, size) ∷ rest) =
    put_if (is_kept (type_at moov_content c) (slice c size moov_content))
      (slice c size moov_content) (keep_video moov_content rest)

unfoldable pub create_video_only_moov : List ℕ → Option (List ℕ)
unfolding children keep_video
create_video_only_moov moov_content =
    keep_video moov_content (children moov_content 0 (length moov_content))

unfoldable pub keep_trex : List ℕ → List ℕ → List Span → List ℕ
unfolding type_at read_be32
keep_trex mvex_data kept_track_ids [] = []
keep_trex mvex_data kept_track_ids ((c, size) ∷ rest) =
    let onward = keep_trex mvex_data kept_track_ids rest in
    let box = slice c size mvex_data in
    if list_beq (type_at mvex_data c) trex
    then (if leb (c + 16) (length mvex_data)
          && any (λ (id : ℕ). id == read_be32 (c + 12) mvex_data) kept_track_ids
        then box ++ onward
        else onward)
    else box ++ onward

-- A box of a u32 size, a type and a content.
unfoldable pub build_box : List ℕ → List ℕ → List ℕ
build_box box_type content = be32 ((8 + length content % 2 ^ 32) % 2 ^ 32) ++ (box_type ++ content)

-- No box where there is no content.
unfoldable pub nonempty_box : List ℕ → List ℕ → List ℕ
unfolding build_box
nonempty_box box_type [] = []
nonempty_box box_type (b ∷ bs) = build_box box_type (b ∷ bs)

unfoldable pub filter_mvex_for_tracks : List ℕ → List ℕ → List ℕ
unfolding children keep_trex nonempty_box
filter_mvex_for_tracks mvex_data kept_track_ids =
    if ltb (length mvex_data) 8
    then []
    else nonempty_box mvex
        (keep_trex mvex_data kept_track_ids (children mvex_data 8 (length mvex_data)))

unfoldable pub build_moov_box : List ℕ → List ℕ
unfolding build_box
build_moov_box content = build_box moov content

-- What the first pass of `filter_moov_for_track_type` gathers.
pub record Pass : Type 0 where
  pub output : List ℕ
  pub kept_track_ids : List ℕ
  pub mvex_data : Option Span

abbrev pub push_id : Option ℕ → List ℕ → List ℕ
push_id none ids = ids
push_id (some id) ids = ids ++ id ∷ []

-- A round of the first pass.
unfoldable pub pass_box : List ℕ → List ℕ → Span → Pass → Option Pass
unfolding type_at track_has_handler_type extract_track_id_from_trak
pass_box moov_content keep_type (c, size) p =
    let box = slice c size moov_content in
    if list_beq (type_at moov_content c) trak
    then elim (track_has_handler_type box keep_type) [
      | none ↦ none
      | some wanted ↦
          if wanted
          then some (record p {
            output = p.output ++ box;
            kept_track_ids = push_id (extract_track_id_from_trak box) p.kept_track_ids;
          })
          else some p
    ]
    else (if list_beq (type_at moov_content c) mvex
        then some (record p { mvex_data = some (c, size) })
        else some (record p { output = p.output ++ box }))

unfoldable pub first_pass : List ℕ → List ℕ → List Span → Pass → Option Pass
unfolding pass_box
first_pass moov_content keep_type [] p = some p
first_pass moov_content keep_type (span ∷ rest) p = elim (pass_box moov_content keep_type span p) [
  | none ↦ none
  | some q ↦ first_pass moov_content keep_type rest q
]

unfoldable pub filter_moov_for_track_type : List ℕ → List ℕ → Option (List ℕ)
unfolding children first_pass filter_mvex_for_tracks
filter_moov_for_track_type moov_content keep_type =
    elim (first_pass moov_content keep_type (children moov_content 0 (length moov_content))
      (record { output = []; kept_track_ids = []; mvex_data = none })) [
        | none ↦ none
        | some p ↦ elim p.mvex_data [
          | none ↦ some p.output
          | some (start, size) ↦
              some (
                p.output ++ filter_mvex_for_tracks (slice start size moov_content) p.kept_track_ids)
        ]
      ]

-- `create_tfdt_box`: version 1, and the decode time in eight bytes.
unfoldable pub create_tfdt_box : ℕ → List ℕ
create_tfdt_box base_media_decode_time =
    be32 20 ++ (b't' ∷ b'f' ∷ b'd' ∷ b't' ∷ 1 ∷ 0 ∷ 0 ∷ 0 ∷ be64 base_media_decode_time)
