-- ===== src/Media/Fragment/Chunks.antt =====
-- core/src/media/fragment_writer.rs: the segments made of a file without fragments.
use open_broadcast_network.Prelude.{
  list_beq, list_beq_iff, ◌≢◌, ℕ, zero, suc, ◌+◌, ◌*◌, ◌%◌, ◌^◌, ◌≤◌, ◌<◌, ◌≡◌, refl, ◌∙◌, ap, sym,
  ◌⊎◌, inl, inr, Bool, ◌||◌, ◌==◌, nat_eq, leb, Bool-cases, Option, some, List, [], ◌∷◌, ◌++◌,
  length, take, drop, All, length-take, length-drop, take-append-drop, arith,
}
use open_broadcast_network.Prelude.Bytes.{IsAscii}
use open_broadcast_network.Media.Mp4.{raw, MseSegment}
use open_broadcast_network.Media.Fragment.{ok, BoxInfo, moof, mdat, parse_boxes}
use open_broadcast_network.Media.Fragment.Writer.{
  FragmentWriter, serialize_box, raw_or, boxed, create_minimal_traf, moof_content,
  create_minimal_moof, create_simple_media_segment_with_timing, init_segments, regular_init_data,
  last_mdat, chunk_size, chunks, chunk_segments, is_likely_keyframe,
  create_fragments_from_regular_mp4,
}
use open_broadcast_network.Media.Fragment.RoundTrip.{
  IsPlain, placed, serialize_boxes, parse_boxes-serialize_box,
}
use mathlib.Core.List.{append-nil}

-- A box as the parser finds it.
abbrev pub box_at : ℕ → List ℕ → List ℕ → BoxInfo
box_at o box_type content = record {
  header = record { box_type = box_type; size = 8 + length content; content_start = 8 };
  content = raw content;
  offset = o;
}

box_at-IsPlain :
    (o : ℕ) (t c : List ℕ)
    → 8 + length c < 2 ^ 32
    → length t ≡ 4
    → All IsAscii t
    → IsPlain (box_at o t c)
box_at-IsPlain o t c fits four ascii = record {
  payload = c;
  content_raw = refl;
  size_says = refl;
  size_fits = fits;
  four_characters = four;
  ascii = ascii;
}

boxed-serialize_box :
    (o : ℕ) (t c : List ℕ) → 8 + length c < 2 ^ 32 → boxed t c ≡ serialize_box (box_at o t c)
unfolding boxed serialize_box raw_or
boxed-serialize_box o t c fits =
    let small : (8 + length c % 2 ^ 32) % 2 ^ 32 ≡ (8 + length c) % 2 ^ 32 = omega arith in
    rw small refl

length-moof_content : (w : FragmentWriter) (n : ℕ) → length (moof_content w n) ≡ 60
unfolding moof_content create_minimal_traf boxed
length-moof_content w n = refl

-- A segment holds a chunk: its bytes are a moof box of 68 bytes and an mdat box of the chunk.
abbrev pub Holds : FragmentWriter → MseSegment → List ℕ → Type 0
Holds w s chunk =
    parse_boxes s.data_bytes []
    ≡ some (box_at 0 moof (moof_content w (length chunk)) ∷ box_at 68 mdat chunk ∷ [], ok tt)

module _ (w : FragmentWriter) (chunk : List ℕ) (timestamp : Option ℕ) (key : Bool) where
  segment_bytes :
      (create_simple_media_segment_with_timing w chunk timestamp key).data_bytes
      ≡ boxed moof (moof_content w (length chunk % 2 ^ 32)) ++ boxed mdat chunk
  unfolding create_simple_media_segment_with_timing create_minimal_moof
  segment_bytes = refl

  create_simple_media_segment_with_timing-Holds :
      length chunk ≤ chunk_size
      → Holds w (create_simple_media_segment_with_timing w chunk timestamp key) chunk
  create_simple_media_segment_with_timing-Holds h =
      let small : length chunk % 2 ^ 32 ≡ length chunk = omega arith in
      let m = moof_content w (length chunk) in
      let size : length m ≡ 60 = length-moof_content w (length chunk) in
      let first = box_at-IsPlain 0 moof m (omega arith) refl (omega arith) in
      let second = box_at-IsPlain 68 mdat chunk (omega arith) refl (omega arith) in
      let found = box_at 0 moof m ∷ box_at 68 mdat chunk ∷ [] in
      let written : serialize_boxes found ++ [] ≡ boxed moof m ++ boxed mdat chunk =
        rw
          (
            append-nil (serialize_boxes found),
            append-nil (serialize_box (box_at 68 mdat chunk)),
            boxed-serialize_box 0 moof m (omega arith),
            boxed-serialize_box 68 mdat chunk (omega arith),
          )
          refl in
      let read : parse_boxes (serialize_boxes found ++ []) [] ≡ some (placed 0 found, ok tt) =
        parse_boxes-serialize_box found [] (first, (second, tt)) (omega arith) in
      let there : placed 0 found ≡ found =
        ap (λ (o : ℕ). box_at 0 moof m ∷ box_at o mdat chunk ∷ []) (omega arith) in
      rw (segment_bytes, small, sym written, read, there) refl

-- Chunks are one after another in the list, and each but the last is full.
abbrev pub Cut : ℕ → List (List ℕ) → Type 0
Cut size [] = Unit {0}
Cut size (c ∷ cs) =
    (0 < length c) × (length c ≤ size) × ((cs ≡ []) ⊎ (length c ≡ size)) × Cut size cs

abbrev pub concat : List (List ℕ) → List ℕ
concat [] = []
concat (c ∷ cs) = c ++ concat cs

chunks_done : (size fuel : ℕ) (bytes : List ℕ) → length bytes ≡ 0 → chunks size fuel bytes ≡ []
unfolding chunks
chunks_done size zero bytes h = refl
chunks_done size (suc fuel) [] h = refl
chunks_done size (suc fuel) (b ∷ bs) h = absurd (omega arith)

chunks-Cut :
    (size fuel : ℕ) (bytes : List ℕ)
    → 0 < size
    → length bytes ≤ fuel
    → (concat (chunks size fuel bytes) ≡ bytes) × Cut size (chunks size fuel bytes)
unfolding chunks
chunks-Cut size zero [] pos h = (refl, tt)
chunks-Cut size zero (b ∷ bs) pos h = absurd (omega arith)
chunks-Cut size (suc fuel) [] pos h = (refl, tt)
chunks-Cut size (suc fuel) (b ∷ bs) pos h =
    let taken = length-take size (b ∷ bs) in
    let left = length-drop size (b ∷ bs) in
    let (same, cut) = chunks-Cut size fuel (drop size (b ∷ bs)) pos (omega arith) in
    (
      ap (λ (xs : List ℕ). take size (b ∷ bs) ++ xs) same ∙ take-append-drop size (b ∷ bs),
      (
        omega arith,
        omega arith,
        elim (Bool-cases (leb size (suc (length bs)))) [
          | inl full ↦ inr (ground arith)
          | inr short ↦ inl (chunks_done size fuel (drop size (b ∷ bs)) (ground arith))
        ],
        cut,
      ),
    )

-- The segments hold the chunks, and are stamped a second apart from an index on.
abbrev pub Carries : FragmentWriter → ℕ → List (List ℕ) → List MseSegment → Type 0
Carries w i [] [] = Unit {0}
Carries w i [] (s ∷ ss) = ⊥
Carries w i (c ∷ cs) [] = ⊥
Carries w i (c ∷ cs) (s ∷ ss) =
    Holds w s c × (s.timestamp ≡ some (i * 1000 % 2 ^ 64)) × Carries w (i + 1) cs ss

chunk_segments-Carries :
    (w : FragmentWriter) (i : ℕ) (pieces : List (List ℕ))
    → Cut chunk_size pieces
    → Carries w i pieces (chunk_segments w i pieces)
unfolding chunk_segments
chunk_segments-Carries w i [] h = tt
chunk_segments-Carries w i (c ∷ cs) (nonempty, fits, full, cut) = (
  create_simple_media_segment_with_timing-Holds w c (some (i * 1000 % 2 ^ 64))
      (i == 0 || is_likely_keyframe c i) fits,
  (unfold create_simple_media_segment_with_timing in refl),
  chunk_segments-Carries w (i + 1) cs cut,
)

-- A box that is no mdat box.
abbrev pub IsOther : BoxInfo → Type 0
IsOther b = b.header.box_type ≢ mdat

last_mdat_skips :
    (boxes : List BoxInfo) (found : List ℕ) → All IsOther boxes → last_mdat boxes found ≡ found
unfolding last_mdat
last_mdat_skips [] found h = refl
last_mdat_skips (b ∷ bs) found (other, h) = elim (Bool-cases (list_beq b.header.box_type mdat)) [
  | inl same ↦ absurd (other ((list_beq_iff b.header.box_type mdat).0 same))
  | inr differs ↦ rw differs (last_mdat_skips bs found h)
]

last_mdat_lem :
    (before : List BoxInfo) (b : BoxInfo) (after : List BoxInfo) (content found : List ℕ)
    → b.header.box_type ≡ mdat
    → b.content ≡ raw content
    → All IsOther after
    → last_mdat (before ++ b ∷ after) found ≡ content
unfolding last_mdat raw_or
last_mdat_lem [] b after content found typed holds h =
    rw (last_mdat, (list_beq_iff b.header.box_type mdat).1 typed, holds)
      (last_mdat_skips after content h)
last_mdat_lem (a ∷ before) b after content found typed holds h =
    last_mdat_lem before b after content _ typed holds h

-- A file without fragments whose last mdat box has a raw content becomes the initialization segment,
-- if there is data for it, and then a media segment for each of the pieces that the content is cut
-- into: they are of 65,536 bytes, but for the last, none is empty, and together they are the content.
-- The box parser reads the bytes of each segment as a moof box of 68 bytes and an mdat box of the
-- piece; the timestamps count seconds from 0, modulo 2^64 milliseconds.
pub regular_file_segments :
    (w : FragmentWriter) (before : List BoxInfo) (b : BoxInfo) (after : List BoxInfo)
    (content : List ℕ)
    → b.header.box_type ≡ mdat
    → b.content ≡ raw content
    → All IsOther after
    → (pieces : List (List ℕ)) × (media : List MseSegment) × (create_fragments_from_regular_mp4 w
          (before ++ b ∷ after)
        ≡ init_segments (regular_init_data (before ++ b ∷ after)) ++ media)
      × (concat pieces ≡ content)
      × Cut chunk_size pieces
      × Carries w 0 pieces media
unfolding create_fragments_from_regular_mp4
regular_file_segments w before b after content typed holds others =
    let mdat_data = last_mdat (before ++ b ∷ after) [] in
    let pieces = chunks chunk_size (length mdat_data) mdat_data in
    let (same, cut) =
      chunks-Cut chunk_size (length mdat_data) mdat_data (omega arith) (omega arith) in
    (
      pieces,
      chunk_segments w 0 pieces,
      refl,
      same ∙ last_mdat_lem before b after content [] typed holds others,
      cut,
      chunk_segments-Carries w 0 pieces cut,
    )
