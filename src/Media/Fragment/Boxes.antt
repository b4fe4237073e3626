-- ===== src/Media/Fragment/Boxes.antt =====
-- core/src/media/fragment_parser.rs: the boxes found lie one after another in the file.
use open_broadcast_network.Prelude.{
  ℕ, zero, suc, ◌+◌, ◌-◌, ◌≤◌, ◌<◌, ◌≡◌, refl, sym, ◌⊎◌, inl, inr, some, List, [], ◌∷◌, ◌++◌,
  length, take, drop, ltb, Bool-cases, arith, ltb→lt, length-drop, ltb_false→le, le→ltb_false,
}
use open_broadcast_network.Prelude.Bytes.{read_be32, from_utf8_lossy, read_be32-drop, drop-drop}
use open_broadcast_network.Media.Mp4.{BoxHeader, raw}
use open_broadcast_network.Media.Fragment.{
  invalid_box_size, Parsed, ok, err, BoxInfo, FragmentParser, moov, new, parse_box_header,
  check_box, Round, leave, fail, push, next_box, parse_loop, parse_boxes, has_box,
  extract_track_info, check_fragmentation, parse,
}
use mathlib.Core.Path.{subst}
use mathlib.Core.List.{append_assoc, append-nil}

-- A box is what the bytes from an offset say: a size of eight bytes at least, a type and a content
-- that all lie in the file.
pub record IsBoxAt (bytes : List ℕ) (o : ℕ) (b : BoxInfo) : Type 0 where
  pub at : b.offset ≡ o
  pub header_fits : 8 ≤ b.header.size
  pub in_file : o + b.header.size ≤ length bytes
  pub size_read : b.header.size ≡ read_be32 o bytes
  pub type_read : b.header.box_type ≡ from_utf8_lossy (take 4 (drop (o + 4) bytes))
  pub content_read : b.content ≡ raw (take (b.header.size - 8) (drop (o + 8) bytes))

-- The boxes lie one after another, from an offset to another, with no gap.
abbrev pub Tiles : List ℕ → ℕ → List BoxInfo → ℕ → Type 0
Tiles bytes o [] fin = fin ≡ o
Tiles bytes o (b ∷ bs) fin = IsBoxAt bytes o b × Tiles bytes (o + b.header.size) bs fin

-- Parsing ends where no header is left, or where the next box would leave the file; and it fails
-- where the next box says a size below eight.
abbrev pub EndsAt : List ℕ → ℕ → Parsed (Unit {0}) → Type 0
EndsAt bytes fin (ok _) =
    (length bytes < fin + 8)
    ⊎ ((fin + 8 ≤ length bytes)
        × (8 ≤ read_be32 fin bytes)
        × (length bytes < fin + read_be32 fin bytes))
EndsAt bytes fin (err e) =
    (fin + 8 ≤ length bytes)
    × (read_be32 fin bytes < 8)
    × (e ≡ invalid_box_size (read_be32 fin bytes))

-- What a round does, by what it reads.
abbrev RoundAt : List ℕ → ℕ → Round → Type 0
RoundAt bytes o leave = EndsAt bytes o (ok tt)
RoundAt bytes o (fail e) = EndsAt bytes o (err e)
RoundAt bytes o (push b) = IsBoxAt bytes o b

unfoldable header_at : List ℕ → ℕ → BoxHeader
header_at bytes o = record {
  box_type = from_utf8_lossy (take 4 (drop (o + 4) bytes));
  size = read_be32 o bytes;
  content_start = 8;
}

check_box-RoundAt :
    (bytes : List ℕ) (o : ℕ)
    → o + 8 ≤ length bytes
    → RoundAt bytes o (check_box bytes o (header_at bytes o))
unfolding check_box header_at
check_box-RoundAt bytes o h =
    let size = read_be32 o bytes in
    elim (Bool-cases (ltb size 8)) [
      | inl small ↦ rw small (h, ltb→lt size 8 small, refl)
      | inr large ↦ rw large (elim (Bool-cases (ltb (length bytes) (o + size))) [
        | inl out ↦
            rw out (inr (h, ltb_false→le size 8 large, ltb→lt (length bytes) (o + size) out))
        | inr inside ↦ rw inside (record {
          at = refl;
          header_fits = ltb_false→le size 8 large;
          in_file = ltb_false→le (length bytes) (o + size) inside;
          size_read = refl;
          type_read = refl;
          content_read = refl;
        })
      ])
    ]

parse_box_header-drop :
    (bytes : List ℕ) (o : ℕ)
    → o + 8 ≤ length bytes
    → parse_box_header (drop o bytes) ≡ ok (header_at bytes o)
unfolding parse_box_header header_at
parse_box_header-drop bytes o h =
    rw
      (
        le→ltb_false (length (drop o bytes)) 8 (omega (arith, length-drop o bytes)),
        read_be32-drop o bytes,
        drop-drop o 4 bytes,
      )
      refl

next_box-RoundAt : (bytes : List ℕ) (o : ℕ) → o ≤ length bytes → RoundAt bytes o (next_box bytes o)
unfolding next_box
next_box-RoundAt bytes o h = elim (Bool-cases (ltb o (length bytes))) [
  | inr done ↦ rw done (inl (omega (arith, ltb_false→le o (length bytes) done)))
  | inl more ↦ rw more (elim (Bool-cases (ltb (length bytes) (o + 8))) [
    | inl short ↦ rw short (inl (ltb→lt (length bytes) (o + 8) short))
    | inr full ↦
        let fits = ltb_false→le (length bytes) (o + 8) full in
        rw (full, parse_box_header-drop bytes o fits) (check_box-RoundAt bytes o fits)
  ])
]

-- The loop, from any offset in the file.
abbrev LoopEnds : ℕ → List ℕ → ℕ → List BoxInfo → Type 0
LoopEnds fuel bytes o boxes =
    (found : List BoxInfo) × (fin : ℕ) × (r : Parsed (Unit {0})) × (parse_loop fuel bytes o boxes
      ≡ some (boxes ++ found, r))
    × Tiles bytes o found fin
    × EndsAt bytes fin r
    × (fin ≤ length bytes)

parse_loop-LoopEnds :
    (fuel : ℕ) (bytes : List ℕ) (o : ℕ) (boxes : List BoxInfo)
    → o ≤ length bytes
    → length bytes < o + fuel
    → LoopEnds fuel bytes o boxes
unfolding parse_loop
parse_loop-LoopEnds zero bytes o boxes h enough = absurd (omega arith)
parse_loop-LoopEnds (suc fuel) bytes o boxes h enough =
    go (next_box bytes o) refl (next_box-RoundAt bytes o h)
      (λ (b : BoxInfo) (at : IsBoxAt bytes o b).
        parse_loop-LoopEnds fuel bytes (o + b.header.size) (boxes ++ b ∷ []) at.in_file
          (let size : 8 ≤ b.header.size = at.header_fits in omega arith))
  where
    go :
        (n : Round)
        → next_box bytes o ≡ n
        → RoundAt bytes o n
        → ((b : BoxInfo)
            → IsBoxAt bytes o b
            → LoopEnds fuel bytes (o + b.header.size) (boxes ++ b ∷ []))
        → LoopEnds (suc fuel) bytes o boxes
    go leave e at rest = ([], o, ok tt, rw (e, parse_loop, append-nil boxes) refl, refl, at, h)
    go (fail p) e at rest = ([], o, err p, rw (e, parse_loop, append-nil boxes) refl, refl, at, h)
    go (push b) e at rest =
        let (found, fin, r, eq, tiles, ends, inside) = rest b at in
        (
          b ∷ found,
          fin,
          r,
          rw (e, parse_loop, eq, append_assoc boxes (b ∷ []) found) refl,
          (at, tiles),
          ends,
          inside,
        )

abbrev parsed : List BoxInfo → ℕ → FragmentParser
parsed found n = record new { boxes = found; file_size = n }

check_fragmentation-extract_track_info :
    (p : FragmentParser)
    → ((check_fragmentation (extract_track_info p)).boxes ≡ p.boxes)
      × ((check_fragmentation (extract_track_info p)).file_size ≡ p.file_size)
unfolding check_fragmentation extract_track_info
check_fragmentation-extract_track_info p = elim (Bool-cases (has_box moov p)) [
  | inl there ↦ rw there (refl, refl)
  | inr not_there ↦ rw not_there (refl, refl)
]

-- Where parsing fails, no track is known.
abbrev pub Tracks : Parsed (Unit {0}) → FragmentParser → Type 0
Tracks (ok _) p = Unit {0}
Tracks (err _) p = p.tracks ≡ []

abbrev pub Covers : List ℕ → ℕ → Type 0
Covers bytes fin =
    (p : FragmentParser) × (r : Parsed (Unit {0})) × (parse bytes new ≡ some (p, r))
    × Tiles bytes 0 p.boxes fin
    × EndsAt bytes fin r
    × (p.file_size ≡ length bytes)
    × Tracks r p

parse_boxes-Covers :
    (bytes : List ℕ) (found : List BoxInfo) (fin : ℕ) (r : Parsed (Unit {0}))
    → parse_boxes bytes [] ≡ some (found, r)
    → Tiles bytes 0 found fin
    → EndsAt bytes fin r
    → Covers bytes fin
unfolding parse new
parse_boxes-Covers bytes found fin (ok u) eq tiles ends =
    let (same, size) = check_fragmentation-extract_track_info (parsed found (length bytes)) in
    (
      check_fragmentation (extract_track_info (parsed found (length bytes))),
      ok tt,
      rw (eq, parse) refl,
      subst (λ (found' : List BoxInfo). Tiles bytes 0 found' fin) (sym same) tiles,
      ends,
      size,
      tt,
    )
parse_boxes-Covers bytes found fin (err e) eq tiles ends =
    (parsed found (length bytes), err e, rw (eq, parse) refl, tiles, ends, refl, refl)

-- Parsing any file with a new parser ends. The boxes that the parser then holds lie one after
-- another from the file's first byte, each as its bytes say, to a place in the file where fewer
-- than eight bytes are left, or the next box would leave the file, or, exactly where parsing fails,
-- the next box says a size below eight. The file's size is known, and where parsing fails no track
-- is.
pub parse_finds_boxes : (bytes : List ℕ) → (fin : ℕ) × (fin ≤ length bytes) × Covers bytes fin
parse_finds_boxes bytes =
    let (found, fin, r, eq, tiles, ends, inside) =
      parse_loop-LoopEnds (suc (length bytes)) bytes 0 [] (omega arith) (omega arith) in
    (fin, inside, parse_boxes-Covers bytes found fin r (unfold parse_boxes in eq) tiles ends)
