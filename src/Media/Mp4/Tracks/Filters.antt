-- ===== src/Media/Mp4/Tracks/Filters.antt =====
-- core/src/media/mp4_parser.rs: what the walk finds in plain boxes.
use mathlib.Core.Path.{subst}
use mathlib.Core.List.{append_assoc}
use open_broadcast_network.Prelude.{
  ℕ, zero, suc, ◌+◌, ◌≤◌, ◌<◌, ◌^◌, ◌≡◌, refl, ◌∙◌, ap, sym, List, [], ◌∷◌, ◌++◌, length, take,
  drop, nat_eq, arith, lt→ltb, le→ltb_false, length-append, take-append, drop-append,
}
use open_broadcast_network.Prelude.Bytes.{
  be32, read_be32, drop-drop, from_utf8_lossy, from_utf8_lossy-IsAscii,
}
use open_broadcast_network.Media.Mp4.Entries.{read_be32_lem}
use open_broadcast_network.Media.Mp4.Tracks.{Span, slice, walk, children, type_at}
use open_broadcast_network.Media.Fragment.{BoxInfo}
use open_broadcast_network.Media.Fragment.Writer.{serialize_box}
use open_broadcast_network.Media.Fragment.RoundTrip.{
  IsPlain, AllPlain, serialize_boxes, serialize_box-IsPlain, length-serialize_box,
  length-serialize_boxes,
}

-- The bytes from a place on are boxes and then others.
abbrev pub At : List ℕ → ℕ → List BoxInfo → List ℕ → Type 0
At bytes o boxes rest = drop o bytes ≡ serialize_boxes boxes ++ rest

-- Where boxes that begin at a place stand.
abbrev pub spans : ℕ → List BoxInfo → List Span
spans o [] = []
spans o (b ∷ bs) = (o, b.header.size) ∷ spans (o + b.header.size) bs

-- What the bytes say at the first of the boxes.
module _ (bytes : List ℕ) (o : ℕ) (b : BoxInfo) (bs : List BoxInfo) (rest : List ℕ) (p : IsPlain b)
    (here : At bytes o (b ∷ bs) rest) where
  here_box : drop o bytes ≡ serialize_box b ++ (serialize_boxes bs ++ rest)
  here_box = here ∙ append_assoc (serialize_box b) (serialize_boxes bs) rest

  pub At-next : At bytes (o + b.header.size) bs rest
  At-next =
      let after = serialize_boxes bs ++ rest in
      sym (drop-drop o b.header.size bytes)
      ∙ ap (drop b.header.size) here_box
      ∙ subst (λ (k : ℕ). drop k (serialize_box b ++ after) ≡ after) (length-serialize_box b p)
          (drop-append (serialize_box b) after)

  pub slice-At : slice o b.header.size bytes ≡ serialize_box b
  slice-At =
      let after = serialize_boxes bs ++ rest in
      ap (take b.header.size) here_box
      ∙ subst (λ (k : ℕ). take k (serialize_box b ++ after) ≡ serialize_box b)
          (length-serialize_box b p) (take-append (serialize_box b) after)

  header_bytes :
      drop o bytes
      ≡ be32 b.header.size ++ (b.header.box_type ++ (p.payload ++ (serialize_boxes bs ++ rest)))
  header_bytes =
      here_box
      ∙ ap (λ (xs : List ℕ). xs ++ (serialize_boxes bs ++ rest)) (serialize_box-IsPlain b p)
      ∙ ap (λ (xs : List ℕ). be32 b.header.size ++ xs)
          (append_assoc b.header.box_type p.payload (serialize_boxes bs ++ rest))

  pub read_be32-At : read_be32 o bytes ≡ b.header.size
  read_be32-At =
      let says = p.size_says in
      let fits = p.size_fits in
      (read_be32_lem b.header.size o bytes
        (b.header.box_type ++ (p.payload ++ (serialize_boxes bs ++ rest)))
        (subst (λ (k : ℕ). k < 2 ^ 32) (sym says) fits) header_bytes).0

  -- From the type on.
  type_bytes : drop (o + 4) bytes ≡ b.header.box_type ++ (p.payload ++ (serialize_boxes bs ++ rest))
  type_bytes = sym (drop-drop o 4 bytes) ∙ ap (drop 4) header_bytes

  pub type_at-At : type_at bytes o ≡ b.header.box_type
  unfolding type_at
  type_at-At =
      let after = p.payload ++ (serialize_boxes bs ++ rest) in
      ap from_utf8_lossy (
        ap (take 4) type_bytes
        ∙ subst (λ (k : ℕ). take k (b.header.box_type ++ after) ≡ b.header.box_type)
            p.four_characters (take-append b.header.box_type after))
      ∙ from_utf8_lossy-IsAscii b.header.box_type p.ascii

  -- And from the content on.
  pub content_bytes : drop (o + 8) bytes ≡ p.payload ++ (serialize_boxes bs ++ rest)
  content_bytes =
      let after = p.payload ++ (serialize_boxes bs ++ rest) in
      ap (λ (k : ℕ). drop k bytes) {x = o + 8} {y = o + 4 + 4} (omega arith)
      ∙ sym (drop-drop (o + 4) 4 bytes)
      ∙ ap (drop 4) type_bytes
      ∙ subst (λ (k : ℕ). drop k (b.header.box_type ++ after) ≡ after) p.four_characters
          (drop-append b.header.box_type after)

module _ (bytes : List ℕ) (cursor end fuel : ℕ) where
  walk_stops : end < cursor + 8 → walk (suc fuel) bytes cursor end ≡ []
  unfolding walk
  walk_stops h = rw (lt→ltb end (cursor + 8) h, walk) refl

  walk_steps :
      8 ≤ read_be32 cursor bytes
      → cursor + read_be32 cursor bytes ≤ end
      → walk (suc fuel) bytes cursor end
        ≡ (cursor, read_be32 cursor bytes) ∷ walk fuel bytes (cursor + read_be32 cursor bytes) end
  unfolding walk
  walk_steps h k =
      let size = read_be32 cursor bytes in
      rw
        (
          le→ltb_false end (cursor + 8) (omega arith),
          walk,
          le→ltb_false size 8 h,
          le→ltb_false end (cursor + size) k,
        )
        refl

  walk_steps_by :
      (size : ℕ)
      → read_be32 cursor bytes ≡ size
      → 8 ≤ size
      → cursor + size ≤ end
      → walk (suc fuel) bytes cursor end ≡ (cursor, size) ∷ walk fuel bytes (cursor + size) end
  walk_steps_by size e =
      subst
        (λ (k : ℕ).
          8 ≤ k
          → cursor + k ≤ end
          → walk (suc fuel) bytes cursor end ≡ (cursor, k) ∷ walk fuel bytes (cursor + k) end)
        e walk_steps

-- The walk finds plain boxes that are followed by fewer than eight bytes up to the end.
walk-spans :
    (boxes : List BoxInfo) (bytes rest : List ℕ) (o end left fuel : ℕ)
    → AllPlain boxes
    → At bytes o boxes rest
    → o + length (serialize_boxes boxes) + left ≡ end
    → left < 8
    → length boxes < fuel
    → walk fuel bytes o end ≡ spans o boxes
walk-spans boxes bytes rest o end left zero plain at total short enough = absurd (omega arith)
walk-spans [] bytes rest o end left (suc fuel) plain at total short enough =
    walk_stops bytes o end fuel (omega arith)
walk-spans (b ∷ bs) bytes rest o end left (suc fuel) (p, ps) at total short enough =
    let size = b.header.size in
    let says : size ≡ 8 + length p.payload = p.size_says in
    let whole : length (serialize_boxes (b ∷ bs)) ≡ size + length (serialize_boxes bs) =
      length-append (serialize_box b) (serialize_boxes bs)
      ∙ ap (λ (k : ℕ). k + length (serialize_boxes bs)) (length-serialize_box b p) in
    walk_steps_by bytes o end fuel size (read_be32-At bytes o b bs rest p at) (omega arith)
      (omega arith)
    ∙ ap (◌∷◌ (o, size)) (
        walk-spans bs bytes rest (o + size) end left fuel ps (At-next bytes o b bs rest p at)
          (omega arith) short (omega arith))

pub children-spans :
    (boxes : List BoxInfo) (bytes rest : List ℕ) (o end left : ℕ)
    → AllPlain boxes
    → At bytes o boxes rest
    → o + length (serialize_boxes boxes) + left ≡ end
    → left < 8
    → children bytes o end ≡ spans o boxes
unfolding children
children-spans boxes bytes rest o end left plain at total short =
    walk-spans boxes bytes rest o end left (suc end) plain at total short
      (omega (arith, length-serialize_boxes boxes plain))
