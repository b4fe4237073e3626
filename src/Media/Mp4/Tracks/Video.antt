-- ===== src/Media/Mp4/Tracks/Video.antt =====
-- core/src/media/mp4_parser.rs: what the filter for video keeps of plain boxes.
use open_broadcast_network.Prelude.{
  list_beq, list_beq_iff, ◌≢◌, ◌⊎◌, inl, inr, Bool-cases, Option-cases, ℕ, ◌+◌, ◌<◌, ◌≡◌, refl,
  true, false, Option, none, some, List, [], ◌∷◌, ◌++◌, length, nat_eq, arith, length-append,
}
use open_broadcast_network.Media.Mp4.Tracks.{
  Span, slice, type_at, trak, is_video_track, is_kept, put_if, keep_video, create_video_only_moov,
}
use open_broadcast_network.Media.Fragment.{BoxInfo}
use open_broadcast_network.Media.Fragment.Writer.{serialize_box}
use open_broadcast_network.Media.Fragment.RoundTrip.{AllPlain, serialize_boxes}
use open_broadcast_network.Media.Mp4.Tracks.Filters.{
  At, spans, At-next, slice-At, type_at-At, children-spans,
}

-- What is left of boxes when of the tracks only those stay that are taken for video.
pub data Keeps : List BoxInfo → List BoxInfo → Type 0 where
  nothing_left : Keeps [] []
  other :
      {b : BoxInfo} {bs kept : List BoxInfo}
      → b.header.box_type ≢ trak
      → Keeps bs kept
      → Keeps (b ∷ bs) (b ∷ kept)
  video :
      {b : BoxInfo} {bs kept : List BoxInfo}
      → b.header.box_type ≡ trak
      → is_video_track (serialize_box b) ≡ some true
      → Keeps bs kept
      → Keeps (b ∷ bs) (b ∷ kept)
  no_video :
      {b : BoxInfo} {bs kept : List BoxInfo}
      → b.header.box_type ≡ trak
      → is_video_track (serialize_box b) ≡ some false
      → Keeps bs kept
      → Keeps (b ∷ bs) kept

-- Boxes with a track in which the search for the handler type panics.
pub data Panics : List BoxInfo → Type 0 where
  here :
      {b : BoxInfo} {bs : List BoxInfo}
      → b.header.box_type ≡ trak
      → is_video_track (serialize_box b) ≡ none
      → Panics (b ∷ bs)
  later : {b : BoxInfo} {bs : List BoxInfo} → Panics bs → Panics (b ∷ bs)

-- What a filter gives: the boxes that stay, or nothing, where the search in a track panics.
abbrev pub Filtered : List BoxInfo → Option (List ℕ) → Type 0
Filtered boxes result =
    ((kept : List BoxInfo) × Keeps boxes kept × (result ≡ some (serialize_boxes kept)))
    ⊎ (Panics boxes × (result ≡ none))

keep_video-step :
    (bytes : List ℕ) (c size : ℕ) (rest : List Span)
    → keep_video bytes ((c, size) ∷ rest)
      ≡ put_if
          (is_kept (type_at bytes c) (slice c size bytes))
          (slice c size bytes)
          (keep_video bytes rest)
unfolding keep_video
keep_video-step bytes c size rest = refl

-- A track, which the filter keeps where it takes it for video.
put_if-track :
    (b : BoxInfo) (bs : List BoxInfo) (onward : Option (List ℕ))
    → b.header.box_type ≡ trak
    → Filtered bs onward
    → Filtered (b ∷ bs) (put_if (is_video_track (serialize_box b)) (serialize_box b) onward)
unfolding put_if
put_if-track b bs onward track h = elim (Option-cases (is_video_track (serialize_box b))) [
  | inl lost ↦ inr (here track lost, rw (lost, put_if) refl)
  | inr (true, approved) ↦ elim h [
    | inl (kept, k, q) ↦ inl (b ∷ kept, video track approved k, rw (approved, q, put_if) refl)
    | inr (p, q) ↦ inr (later p, rw (approved, q, put_if) refl)
  ]
  | inr (false, denied) ↦ elim h [
    | inl (kept, k, q) ↦ inl (kept, no_video track denied k, rw (denied, q, put_if) refl)
    | inr (p, q) ↦ inr (later p, rw (denied, q, put_if) refl)
  ]
]

put_if-other :
    (b : BoxInfo) (bs : List BoxInfo) (onward : Option (List ℕ))
    → b.header.box_type ≢ trak
    → Filtered bs onward
    → Filtered (b ∷ bs) (put_if (some true) (serialize_box b) onward)
unfolding put_if
put_if-other b bs onward differs h = elim h [
  | inl (kept, k, q) ↦ inl (b ∷ kept, other differs k, rw (q, put_if) refl)
  | inr (p, q) ↦ inr (later p, rw (q, put_if) refl)
]

put_if-Filtered :
    (b : BoxInfo) (bs : List BoxInfo) (onward : Option (List ℕ))
    → Filtered bs onward
    → Filtered
        (b ∷ bs)
        (put_if (is_kept b.header.box_type (serialize_box b)) (serialize_box b) onward)
unfolding is_kept
put_if-Filtered b bs onward h = elim (Bool-cases (list_beq b.header.box_type trak)) [
  | inl same ↦
      rw (same, is_kept) (put_if-track b bs onward ((list_beq_iff b.header.box_type trak).0 same) h)
  | inr differs ↦
      rw (differs, is_kept)
        (put_if-other b bs onward
          (λ q. ground (arith, (list_beq_iff b.header.box_type trak).1 q, differs)) h)
]

-- The loop of the filter, over the spans of boxes.
keep_video-spans :
    (boxes : List BoxInfo) (bytes rest : List ℕ) (o : ℕ)
    → AllPlain boxes
    → At bytes o boxes rest
    → Filtered boxes (keep_video bytes (spans o boxes))
keep_video-spans [] bytes rest o plain at = inl ([], nothing_left, unfold keep_video in refl)
keep_video-spans (b ∷ bs) bytes rest o (p, ps) at =
    let size = b.header.size in
    let others = spans (o + size) bs in
    let ih = keep_video-spans bs bytes rest (o + size) ps (At-next bytes o b bs rest p at) in
    rw
      (
        keep_video-step bytes o size others,
        type_at-At bytes o b bs rest p at,
        slice-At bytes o b bs rest p at,
      )
      (put_if-Filtered b bs (keep_video bytes others) ih)

-- From plain boxes, followed by fewer than eight bytes, the filter for video gives these boxes in
-- order and as they are, but without the tracks that the search for a handler type denies to be
-- video; or it panics, and then that search panics in one of the tracks.
pub create_video_only_moov-Keeps :
    (boxes : List BoxInfo) (tail : List ℕ)
    → AllPlain boxes
    → length tail < 8
    → ((kept : List BoxInfo) × Keeps boxes kept
        × (create_video_only_moov (serialize_boxes boxes ++ tail) ≡ some (serialize_boxes kept)))
      ⊎ (Panics boxes × (create_video_only_moov (serialize_boxes boxes ++ tail) ≡ none))
unfolding create_video_only_moov
create_video_only_moov-Keeps boxes tail plain short =
    let bytes = serialize_boxes boxes ++ tail in
    let found =
      children-spans boxes bytes tail 0 (length bytes) (length tail) plain refl
        (omega (arith, length-append (serialize_boxes boxes) tail)) short in
    rw found (keep_video-spans boxes bytes tail 0 plain refl)
