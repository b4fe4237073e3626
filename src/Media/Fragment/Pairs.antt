-- ===== src/Media/Fragment/Pairs.antt =====
-- core/src/media/fragment_writer.rs: the segments of a file that is already in fragments.
use open_broadcast_network.Prelude.{
  ℕ, suc, ◌+◌, ◌-◌, ◌*◌, ◌%◌, ◌^◌, ◌<◌, ◌≡◌, refl, ◌∙◌, ap, sym, inl, inr, Bool, true, false, ◌||◌,
  some, none, List, [], ◌∷◌, ◌++◌, length, keep, All, length-append, beq_refl, nat_eq, ltb, arith,
  le→ltb_false, Bool-cases, list_beq_iff,
}
use open_broadcast_network.Prelude.Bytes.{read_be32, read_be32-be32}
use open_broadcast_network.Media.Mp4.{MseSegment}
use open_broadcast_network.Media.Fragment.{BoxInfo, is_type, ftyp, moov, moof, mdat}
use open_broadcast_network.Media.Fragment.Writer.{
  serialize_box, init_segments, init_segment, regular_init_data, fragmented_init_data,
  checked_init_box, pair_segment, extract_pairs, extract_fragmented_segments,
}
use open_broadcast_network.Media.Fragment.RoundTrip.{
  IsPlain, AllPlain, serialize_boxes, serialize_box-IsPlain, length-serialize_box,
}
use mathlib.Core.List.{append_assoc, append-nil}

abbrev pub is_init : BoxInfo → Bool
is_init b = is_type ftyp b || is_type moov b

read_be32-serialize_box : (b : BoxInfo) → IsPlain b → read_be32 0 (serialize_box b) ≡ b.header.size
read_be32-serialize_box b p =
    let says : b.header.size ≡ 8 + length p.payload = p.size_says in
    let fits : 8 + length p.payload < 2 ^ 32 = p.size_fits in
    ap (read_be32 0) (serialize_box-IsPlain b p)
    ∙ read_be32-be32 b.header.size (b.header.box_type ++ p.payload) (omega arith)

-- The size check passes for every plain box.
checked_init_box-IsPlain : (b : BoxInfo) → IsPlain b → checked_init_box b ≡ serialize_box b
unfolding checked_init_box
checked_init_box-IsPlain b p =
    let says : b.header.size ≡ 8 + length p.payload = p.size_says in
    let fits : 8 + length p.payload < 2 ^ 32 = p.size_fits in
    let size = length-serialize_box b p in
    rw
      (
        size,
        le→ltb_false b.header.size 8 (omega arith),
        read_be32-serialize_box b p,
        beq_refl b.header.size,
      )
      refl

-- From plain boxes, both kinds of file get the same initialization data: what the ftyp and moov
-- boxes are written as, in order.
pub init_data_kept :
    (boxes : List BoxInfo)
    → AllPlain boxes
    → (fragmented_init_data boxes ≡ serialize_boxes (keep is_init boxes))
      × (regular_init_data boxes ≡ serialize_boxes (keep is_init boxes))
unfolding fragmented_init_data regular_init_data
init_data_kept [] plain = (refl, refl)
init_data_kept (b ∷ bs) (p, ps) =
    let (fragmented, regular) = init_data_kept bs ps in
    elim (Bool-cases (is_init b)) [
      | inl kept ↦ rw (kept, checked_init_box-IsPlain b p, fragmented, regular) (refl, refl)
      | inr dropped ↦ rw (dropped, fragmented, regular) (refl, refl)
    ]

-- What a player is sent, if it is sent everything.
abbrev pub stream : List MseSegment → List ℕ
stream [] = []
stream (s ∷ ss) = s.data_bytes ++ stream ss

abbrev pub IsInit : BoxInfo → Type 0
IsInit b = is_init b ≡ true

-- A moof box and an mdat box.
abbrev pub IsPair : BoxInfo × BoxInfo → Type 0
IsPair (b, c) = (b.header.box_type ≡ moof) × (c.header.box_type ≡ mdat)

abbrev pub flatten : List (BoxInfo × BoxInfo) → List BoxInfo
flatten [] = []
flatten ((b, c) ∷ ps) = b ∷ c ∷ flatten ps

-- The segments of pairs, after a number of segments.
abbrev pair_segments : ℕ → List (BoxInfo × BoxInfo) → List MseSegment
pair_segments n [] = []
pair_segments n ((b, c) ∷ ps) = pair_segment n b c ∷ pair_segments (n + 1) ps

is_type_refl : (t : List ℕ) (b : BoxInfo) → b.header.box_type ≡ t → is_type t b ≡ true
is_type_refl t b h = (list_beq_iff b.header.box_type t).1 h

-- The four types differ.
not_moof : (b : BoxInfo) → IsInit b → is_type moof b ≡ false
not_moof b h = elim (Bool-cases (is_type ftyp b)) [
  | inl f ↦ rw ((list_beq_iff b.header.box_type ftyp).0 f) refl
  | inr g ↦
      let m : is_type moov b ≡ true = ground arith in
      rw ((list_beq_iff b.header.box_type moov).0 m) refl
]

module _ (b c : BoxInfo) (rest : List BoxInfo) (segments : List MseSegment) where
  extract_pairs-pair :
      is_type moof b ≡ true
      → is_type mdat c ≡ true
      → extract_pairs (b ∷ c ∷ rest) segments
        ≡ extract_pairs rest (segments ++ pair_segment (length segments) b c ∷ [])
  unfolding extract_pairs
  extract_pairs-pair h k = rw (h, k, extract_pairs) refl

  extract_pairs-pass :
      is_type moof b ≡ false
      → extract_pairs (b ∷ c ∷ rest) segments ≡ extract_pairs (c ∷ rest) segments
  unfolding extract_pairs
  extract_pairs-pass h = rw (h, extract_pairs) refl

extract_pairs-flatten :
    (pairs : List (BoxInfo × BoxInfo)) (segments : List MseSegment)
    → All IsPair pairs
    → extract_pairs (flatten pairs) segments ≡ segments ++ pair_segments (length segments) pairs
extract_pairs-flatten [] segments h = unfold extract_pairs in sym (append-nil segments)
extract_pairs-flatten ((b, c) ∷ ps) segments (h, hs) =
    let made = pair_segment (length segments) b c in
    let count : length (segments ++ made ∷ []) ≡ length segments + 1 =
      length-append segments (made ∷ []) in
    extract_pairs-pair b c (flatten ps) segments (is_type_refl moof b h.0) (is_type_refl mdat c h.1)
    ∙ extract_pairs-flatten ps (segments ++ made ∷ []) hs
    ∙ (rw (count, append_assoc segments (made ∷ []) (pair_segments (length segments + 1) ps)) refl)

extract_pairs-skip :
    (front back : List BoxInfo) (segments : List MseSegment)
    → All IsInit front
    → extract_pairs (front ++ back) segments ≡ extract_pairs back segments
extract_pairs-skip [] back segments h = refl
extract_pairs-skip (b ∷ bs) back segments (h, hs) =
    skip (bs ++ back) ∙ extract_pairs-skip bs back segments hs
  where
    skip : (rest : List BoxInfo) → extract_pairs (b ∷ rest) segments ≡ extract_pairs rest segments
    skip [] = unfold extract_pairs in refl
    skip (c ∷ rest) = extract_pairs-pass b c rest segments (not_moof b h)

-- The initialization data of a file of initialization boxes and then pairs.
fragmented_init_data-flatten :
    (front : List BoxInfo) (pairs : List (BoxInfo × BoxInfo))
    → AllPlain front
    → All IsInit front
    → All IsPair pairs
    → fragmented_init_data (front ++ flatten pairs) ≡ serialize_boxes front
unfolding fragmented_init_data
fragmented_init_data-flatten [] [] p h k = refl
fragmented_init_data-flatten [] ((b, c) ∷ ps) p h (k, ks) =
    rw (k.0, k.1) (fragmented_init_data-flatten [] ps p h ks)
fragmented_init_data-flatten (b ∷ bs) pairs (p, ps) (h, hs) k =
    rw (h, checked_init_box-IsPlain b p, fragmented_init_data-flatten bs pairs ps hs k) refl

data_bytes-pair_segment :
    (n : ℕ) (b c : BoxInfo) → (pair_segment n b c).data_bytes ≡ serialize_box b ++ serialize_box c
unfolding pair_segment
data_bytes-pair_segment n b c = refl

timestamp-pair_segment :
    (n : ℕ) (b c : BoxInfo)
    → n < 2 ^ 64 - 1
    → (pair_segment (n + 1) b c).timestamp ≡ some (n * 1000 % 2 ^ 64)
unfolding pair_segment
timestamp-pair_segment n b c h =
    let index : (n + 1 + (2 ^ 64 - 1)) % 2 ^ 64 ≡ n = omega arith in
    rw index (elim (Bool-cases (ltb 0 n)) [
      | inl more ↦ rw more refl
      | inr first ↦ let start : n ≡ 0 = ground arith in rw start refl
    ])

stream-pair_segments :
    (n : ℕ) (pairs : List (BoxInfo × BoxInfo))
    → stream (pair_segments n pairs) ≡ serialize_boxes (flatten pairs)
stream-pair_segments n [] = refl
stream-pair_segments n ((b, c) ∷ ps) =
    rw
      (
        data_bytes-pair_segment n b c,
        append_assoc (serialize_box b) (serialize_box c) (stream (pair_segments (n + 1) ps)),
        stream-pair_segments (n + 1) ps,
      )
      refl

serialize_boxes-append :
    (xs ys : List BoxInfo) → serialize_boxes (xs ++ ys) ≡ serialize_boxes xs ++ serialize_boxes ys
serialize_boxes-append [] ys = refl
serialize_boxes-append (x ∷ xs) ys =
    rw
      (
        serialize_boxes-append xs ys,
        append_assoc (serialize_box x) (serialize_boxes xs) (serialize_boxes ys),
      )
      refl

-- Segments stamped a second apart, from an index on.
abbrev pub Stamped : ℕ → List MseSegment → Type 0
Stamped i [] = Unit {0}
Stamped i (s ∷ ss) = (s.timestamp ≡ some (i * 1000 % 2 ^ 64)) × Stamped (i + 1) ss

Stamped-pair_segments :
    (n : ℕ) (pairs : List (BoxInfo × BoxInfo))
    → n + length pairs < 2 ^ 64 - 1
    → Stamped n (pair_segments (n + 1) pairs)
Stamped-pair_segments n [] h = tt
Stamped-pair_segments n ((b, c) ∷ ps) h =
    (timestamp-pair_segment n b c (omega arith), Stamped-pair_segments (n + 1) ps (omega arith))

length-pair_segments :
    (n : ℕ) (pairs : List (BoxInfo × BoxInfo)) → length (pair_segments n pairs) ≡ length pairs
length-pair_segments n [] = refl
length-pair_segments n ((b, c) ∷ ps) = ap suc (length-pair_segments (n + 1) ps)

init_segments-serialize_box :
    (b : BoxInfo) (rest : List ℕ)
    → IsPlain b
    → init_segments (serialize_box b ++ rest) ≡ init_segment (serialize_box b ++ rest) ∷ []
unfolding init_segments
init_segments-serialize_box b rest p = rw (serialize_box-IsPlain b p) refl

-- A file of plain ftyp and moov boxes, one at least, and then pairs of a moof and an mdat box,
-- becomes an initialization segment and a media segment for each pair, the media segments stamped a
-- second apart from 0 on; and the segments' bytes, one after another, are the file's.
pub fragmented_file_streams :
    (b : BoxInfo) (bs : List BoxInfo) (pairs : List (BoxInfo × BoxInfo))
    → AllPlain (b ∷ bs)
    → All IsInit (b ∷ bs)
    → All IsPair pairs
    → length pairs < 2 ^ 64 - 1
    → (init : MseSegment) × (media : List MseSegment) × (extract_fragmented_segments
          ((b ∷ bs) ++ flatten pairs)
        ≡ init ∷ media)
      × (init.timestamp ≡ none)
      × (length media ≡ length pairs)
      × Stamped 0 media
      × (stream (init ∷ media) ≡ serialize_boxes ((b ∷ bs) ++ flatten pairs))
unfolding extract_fragmented_segments init_segment
fragmented_file_streams b bs pairs plain h k few =
    let front = b ∷ bs in
    let init_data = fragmented_init_data-flatten front pairs plain h k in
    let whole = init_segment (serialize_boxes front) in
    let cut : extract_pairs (front ++ flatten pairs) (whole ∷ []) ≡ whole ∷ pair_segments 1 pairs =
      extract_pairs-skip front (flatten pairs) (whole ∷ []) h
      ∙ extract_pairs-flatten pairs (whole ∷ []) k in
    (
      whole,
      pair_segments 1 pairs,
      rw (init_data, init_segments-serialize_box b (serialize_boxes bs) plain.0) cut,
      refl,
      length-pair_segments 1 pairs,
      Stamped-pair_segments 0 pairs (omega arith),
      rw (stream-pair_segments 1 pairs) (sym (serialize_boxes-append front (flatten pairs))),
    )
