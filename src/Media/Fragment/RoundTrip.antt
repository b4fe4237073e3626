-- ===== src/Media/Fragment/RoundTrip.antt =====
-- core/src/media/fragment_writer.rs and fragment_parser.rs: what the writer writes, the parser reads.
use open_broadcast_network.Prelude.{
  ℕ, zero, suc, ◌+◌, ◌-◌, ◌%◌, ◌^◌, ◌≤◌, ◌<◌, ◌≡◌, refl, ◌∙◌, ap, sym, some, List, [], ◌∷◌, ◌++◌,
  length, take, drop, All, length-append, take-append, drop-append, arith, lt→ltb, le→ltb_false,
}
use open_broadcast_network.Prelude.Bytes.{
  be32, read_be32-be32, IsAscii, from_utf8_lossy-IsAscii, drop-drop,
}
use open_broadcast_network.Media.Mp4.{raw}
use open_broadcast_network.Media.Fragment.{
  ok, leave, BoxInfo, parse_box_header, check_box, push, next_box, parse_loop, parse_boxes,
}
use open_broadcast_network.Media.Fragment.Writer.{serialize_box}
use mathlib.Core.Path.{subst}
use mathlib.Core.List.{append_assoc, append-nil}

-- A box whose content is raw, whose size is eight more than the content's and fits in a u32, and
-- whose type is four ASCII characters.
pub record IsPlain (b : BoxInfo) : Type 0 where
  pub payload : List ℕ
  pub content_raw : b.content ≡ raw payload
  pub size_says : b.header.size ≡ 8 + length payload
  pub size_fits : 8 + length payload < 2 ^ 32
  pub four_characters : length b.header.box_type ≡ 4
  pub ascii : All IsAscii b.header.box_type

-- A box as the parser finds it at an offset, and a list of boxes one after another.
abbrev pub placed_box : ℕ → BoxInfo → BoxInfo
placed_box o b = record {
  header = record { box_type = b.header.box_type; size = b.header.size; content_start = 8 };
  content = b.content;
  offset = o;
}

abbrev pub placed : ℕ → List BoxInfo → List BoxInfo
placed o [] = []
placed o (b ∷ bs) = placed_box o b ∷ placed (o + b.header.size) bs

abbrev pub serialize_boxes : List BoxInfo → List ℕ
serialize_boxes [] = []
serialize_boxes (b ∷ bs) = serialize_box b ++ serialize_boxes bs

abbrev pub AllPlain : List BoxInfo → Type 0
AllPlain boxes = All IsPlain boxes

pub serialize_box-IsPlain :
    (b : BoxInfo) (p : IsPlain b)
    → serialize_box b ≡ be32 b.header.size ++ (b.header.box_type ++ p.payload)
unfolding serialize_box
serialize_box-IsPlain b p =
    let small : b.header.size % 2 ^ 32 ≡ b.header.size =
      let s = p.size_says in let f = p.size_fits in omega arith in
    rw (p.content_raw, serialize_box, small) refl

pub length-serialize_box : (b : BoxInfo) → IsPlain b → length (serialize_box b) ≡ b.header.size
length-serialize_box b p =
    rw (serialize_box-IsPlain b p)
      (omega (arith, length-append b.header.box_type p.payload, p.four_characters, p.size_says))

-- Where a plain box stands after some bytes, a round pushes it.
module _ (s : ℕ) (t c tail : List ℕ) (four : length t ≡ 4) (says : s ≡ 8 + length c) where
  parse_box_header_lem :
      s < 2 ^ 32
      → All IsAscii t
      → parse_box_header (be32 s ++ (t ++ (c ++ tail)))
        ≡ ok (record { box_type = t; size = s; content_start = 8 })
  unfolding parse_box_header
  parse_box_header_lem fits ascii =
      let count : length (t ++ (c ++ tail)) ≡ 4 + length (c ++ tail) =
        omega (arith, length-append t (c ++ tail)) in
      let type_bytes : take 4 (t ++ (c ++ tail)) ≡ t =
        subst (λ (k : ℕ). take k (t ++ (c ++ tail)) ≡ t) four (take-append t (c ++ tail)) in
      rw
        (
          le→ltb_false (suc (suc (suc (suc (length (t ++ (c ++ tail))))))) 8 (omega (arith, count)),
          parse_box_header,
          type_bytes,
          from_utf8_lossy-IsAscii t ascii,
          read_be32-be32 s (t ++ (c ++ tail)) fits,
        )
        refl

  next_box_lem :
      s < 2 ^ 32
      → All IsAscii t
      → (before : List ℕ)
      → next_box (before ++ (be32 s ++ (t ++ (c ++ tail)))) (length before)
        ≡ push (record {
          header = record { box_type = t; size = s; content_start = 8 };
          content = raw c;
          offset = length before;
        })
  unfolding next_box check_box
  next_box_lem fits ascii before =
      let body = be32 s ++ (t ++ (c ++ tail)) in
      let rest = t ++ (c ++ tail) in
      let o = length before in
      let all : length (before ++ body) ≡ o + s + length tail =
        omega
          (arith, length-append before body, length-append t (c ++ tail), length-append c tail) in
      let here : drop o (before ++ body) ≡ body = drop-append before body in
      let after_type : drop 4 rest ≡ c ++ tail =
        subst (λ (k : ℕ). drop k rest ≡ c ++ tail) four (drop-append t (c ++ tail)) in
      let content_bytes : drop (o + 8) (before ++ body) ≡ c ++ tail =
        sym (drop-drop o 8 (before ++ body)) ∙ (rw here after_type) in
      let taken : take (s - 8) (c ++ tail) ≡ c =
        subst (λ (k : ℕ). take k (c ++ tail) ≡ c) (omega arith) (take-append c tail) in
      rw
        (
          lt→ltb o (length (before ++ body)) (omega (arith, all)),
          le→ltb_false (length (before ++ body)) (o + 8) (omega (arith, all)),
          here,
          parse_box_header_lem fits ascii,
          le→ltb_false s 8 (omega arith),
          le→ltb_false (length (before ++ body)) (o + s) (omega (arith, all)),
          content_bytes,
          taken,
        )
        refl

pub next_box-serialize_box :
    (b : BoxInfo)
    → IsPlain b
    → (before tail : List ℕ)
    → next_box (before ++ (serialize_box b ++ tail)) (length before)
      ≡ push (placed_box (length before) b)
next_box-serialize_box b p before tail =
    let step =
      next_box_lem b.header.size b.header.box_type p.payload tail p.four_characters p.size_says
        (subst (λ (k : ℕ). k < 2 ^ 32) (sym p.size_says) p.size_fits) p.ascii before in
    rw (serialize_box-IsPlain b p, p.content_raw, append_assoc (b.header.box_type) p.payload tail)
      step

next_box_short :
    (tail before : List ℕ) → length tail < 8 → next_box (before ++ tail) (length before) ≡ leave
unfolding next_box
next_box_short [] before short =
    rw (append-nil before, le→ltb_false (length before) (length before) (omega arith)) refl
next_box_short (b ∷ bs) before short =
    let o = length before in
    let all : length (before ++ b ∷ bs) ≡ o + suc (length bs) =
      omega (arith, length-append before (b ∷ bs)) in
    rw
      (
        lt→ltb o (length (before ++ b ∷ bs)) (omega (arith, all)),
        lt→ltb (length (before ++ b ∷ bs)) (o + 8) (omega (arith, all)),
      )
      refl

module _ (bytes : List ℕ) (o fuel : ℕ) (acc : List BoxInfo) where
  parse_loop-push :
      (b : BoxInfo)
      → next_box bytes o ≡ push b
      → parse_loop (suc fuel) bytes o acc
        ≡ parse_loop fuel bytes (o + b.header.size) (acc ++ b ∷ [])
  unfolding parse_loop
  parse_loop-push b e = rw (e, parse_loop) refl

  parse_loop-leave :
      next_box bytes o ≡ leave → parse_loop (suc fuel) bytes o acc ≡ some (acc, ok tt)
  unfolding parse_loop
  parse_loop-leave e = rw (e, parse_loop) refl

parse_loop-serialize_boxes :
    (boxes : List BoxInfo) (tail before : List ℕ) (acc : List BoxInfo) (fuel : ℕ)
    → AllPlain boxes
    → length tail < 8
    → length boxes < fuel
    → parse_loop fuel (before ++ (serialize_boxes boxes ++ tail)) (length before) acc
      ≡ some (acc ++ placed (length before) boxes, ok tt)
parse_loop-serialize_boxes boxes tail before acc zero plain short enough = absurd (omega arith)
parse_loop-serialize_boxes [] tail before acc (suc fuel) plain short enough =
    rw (append-nil acc) (
      parse_loop-leave (before ++ tail) (length before) fuel acc (next_box_short tail before short))
parse_loop-serialize_boxes (b ∷ bs) tail before acc (suc fuel) (p, ps) short enough =
    let here = placed_box (length before) b in
    let after : length (before ++ serialize_box b) ≡ length before + b.header.size =
      length-append before (serialize_box b)
      ∙ ap (λ (k : ℕ). length before + k) (length-serialize_box b p) in
    let ih =
      parse_loop-serialize_boxes bs tail (before ++ serialize_box b) (acc ++ here ∷ []) fuel ps
        short (omega arith) in
    let rest = serialize_boxes bs ++ tail in
    let onward =
      rw
        (
          append_assoc before (serialize_box b) rest,
          after,
          append_assoc acc (here ∷ []) (placed (length before + b.header.size) bs),
        )
        at ih in
    rw (append_assoc (serialize_box b) (serialize_boxes bs) tail) (
      parse_loop-push (before ++ (serialize_box b ++ rest)) (length before) fuel acc here
        (next_box-serialize_box b p before rest)
      ∙ onward)

-- A box is eight bytes at least.
pub length-serialize_boxes :
    (boxes : List BoxInfo) → AllPlain boxes → length boxes ≤ length (serialize_boxes boxes)
length-serialize_boxes [] plain = omega arith
length-serialize_boxes (b ∷ bs) (p, ps) =
    let says : b.header.size ≡ 8 + length p.payload = p.size_says in
    omega (
      arith,
      length-append (serialize_box b) (serialize_boxes bs),
      length-serialize_box b p,
      length-serialize_boxes bs ps,
    )

-- Parsing what plain boxes are written as, followed by fewer than eight bytes, ends without error
-- and finds these boxes, in order, each where it was written.
pub parse_boxes-serialize_box :
    (boxes : List BoxInfo) (tail : List ℕ)
    → AllPlain boxes
    → length tail < 8
    → parse_boxes (serialize_boxes boxes ++ tail) [] ≡ some (placed 0 boxes, ok tt)
unfolding parse_boxes
parse_boxes-serialize_box boxes tail plain short =
    parse_loop-serialize_boxes boxes tail [] [] (suc (length (serialize_boxes boxes ++ tail))) plain
      short
      (omega
        (arith, length-append (serialize_boxes boxes) tail, length-serialize_boxes boxes plain))
