-- ===== src/Media/Mp4/Tracks/Tests.antt =====
-- core/src/media/mp4_parser.rs: the theorems about tracks at a concrete track.
use open_broadcast_network.Prelude.{
  ℕ, ◌+◌, ◌<◌, ◌^◌, ◌≡◌, All, refl, false, none, ◌⊎◌, some, List, [], ◌∷◌, ◌++◌, length, list_beq,
  nat_eq, arith,
}
use open_broadcast_network.Prelude.Bytes.{IsAscii}
use open_broadcast_network.Media.Mp4.Tracks.{
  trak, mdia, hdlr, tkhd, vide, is_video_track, track_has_handler_type, extract_track_id_from_trak,
  create_video_only_moov,
}
use open_broadcast_network.Media.Mp4.Tracks.Video.{Keeps, Panics, create_video_only_moov-Keeps}
use open_broadcast_network.Media.Mp4.Tracks.Handlers.{IsTrack, standard_track_read}
use open_broadcast_network.Media.Fragment.{BoxInfo}
use open_broadcast_network.Media.Fragment.Writer.{serialize_box}
use open_broadcast_network.Media.Fragment.RoundTrip.{IsPlain, serialize_boxes}
use open_broadcast_network.Media.Fragment.Chunks.{box_at}

abbrev handler_box : BoxInfo
handler_box = box_at 0 hdlr (0 ∷ 0 ∷ 0 ∷ 0 ∷ 0 ∷ 0 ∷ 0 ∷ 0 ∷ (vide ++ (9 ∷ [])))

abbrev media_box : BoxInfo
media_box = box_at 0 mdia (serialize_boxes (handler_box ∷ []))

abbrev header_box : BoxInfo
header_box = box_at 0 tkhd (0 ∷ 0 ∷ 0 ∷ 3 ∷ 0 ∷ 0 ∷ 0 ∷ 1 ∷ 0 ∷ 0 ∷ 0 ∷ 2 ∷ 0 ∷ 0 ∷ 0 ∷ 5 ∷ [])

abbrev track_box : BoxInfo
track_box = box_at 0 trak (serialize_boxes (header_box ∷ media_box ∷ []))

plain_box :
    (t c : List ℕ) → 8 + length c < 2 ^ 32 → length t ≡ 4 → All IsAscii t → IsPlain (box_at 0 t c)
plain_box t c fits four ascii = record {
  payload = c;
  content_raw = refl;
  size_says = refl;
  size_fits = fits;
  four_characters = four;
  ascii = ascii;
}

media_plain_box : IsPlain media_box
unfolding serialize_box
media_plain_box =
    plain_box mdia (serialize_boxes (handler_box ∷ [])) (omega arith) refl (omega arith)

track_plain : IsPlain track_box
unfolding serialize_box
track_plain =
    plain_box trak (serialize_boxes (header_box ∷ media_box ∷ [])) (omega arith) refl (omega arith)

header_plain_box : IsPlain header_box
header_plain_box =
    plain_box tkhd (0 ∷ 0 ∷ 0 ∷ 3 ∷ 0 ∷ 0 ∷ 0 ∷ 1 ∷ 0 ∷ 0 ∷ 0 ∷ 2 ∷ 0 ∷ 0 ∷ 0 ∷ 5 ∷ [])
      (omega arith) refl (omega arith)

handler_plain : IsPlain handler_box
handler_plain =
    plain_box hdlr (0 ∷ 0 ∷ 0 ∷ 0 ∷ 0 ∷ 0 ∷ 0 ∷ 0 ∷ (vide ++ (9 ∷ []))) (omega arith) refl
      (omega arith)

track_box-IsTrack : IsTrack track_box vide
unfolding serialize_box track_plain plain_box media_plain_box handler_plain
track_box-IsTrack = record {
  plain = track_plain;
  before = header_box ∷ [];
  media = media_box;
  after = [];
  before_plain = (header_plain_box, tt);
  media_plain = media_plain_box;
  after_plain = tt;
  holds = refl;
  first_mdia = (refl, tt);
  media_named = refl;
  front = [];
  header = handler_box;
  back = [];
  front_plain = tt;
  header_plain = handler_plain;
  back_plain = tt;
  media_holds = refl;
  first_hdlr = tt;
  header_named = refl;
  version = 0;
  flags = (0, 0, 0);
  others = 9 ∷ [];
  header_holds = refl;
  four = refl;
  ascii = omega arith;
}

track_id_read : extract_track_id_from_trak (serialize_box track_box) ≡ some 5
unfolding extract_track_id_from_trak serialize_box
track_id_read = refl

standard_track_read_example :
    (track_has_handler_type (serialize_box track_box) vide ≡ some (list_beq vide vide))
    × (is_video_track (serialize_box track_box) ≡ some false)
standard_track_read_example = standard_track_read track_box vide track_box-IsTrack vide

create_video_only_moov-Keeps_example :
    let boxes = header_box ∷ track_box ∷ [] in
    ((kept : List BoxInfo) × Keeps boxes kept
      × (create_video_only_moov (serialize_boxes boxes ++ 0 ∷ []) ≡ some (serialize_boxes kept)))
    ⊎ (Panics boxes × (create_video_only_moov (serialize_boxes boxes ++ 0 ∷ []) ≡ none))
create_video_only_moov-Keeps_example =
    create_video_only_moov-Keeps (header_box ∷ track_box ∷ []) (0 ∷ [])
      (header_plain_box, (track_plain, tt)) (omega arith)
