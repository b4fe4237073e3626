-- ===== src/Media/Mp4/Tracks/Handlers.antt =====
-- core/src/media/mp4_parser.rs: how the two searches read the handler type of a standard track.
use mathlib.Core.Path.{subst}
use mathlib.Core.List.{append_assoc, append-nil}
use open_broadcast_network.Prelude.{
  ℕ, ◌+◌, ◌≤◌, ◌≡◌, refl, ◌∙◌, ap, sym, true, false, some, List, [], ◌∷◌, ◌++◌, length, take, drop,
  All, All-append, leb, nat_eq, list_beq, list_beq_iff, arith, length-append, length-drop,
  take-append,
}
use open_broadcast_network.Prelude.Bytes.{
  drop-drop, from_utf8_lossy, from_utf8_lossy-IsAscii, IsAscii,
}
use open_broadcast_network.Media.Mp4.Tracks.{
  Span, slice, children, type_at, mdia, hdlr, vide, handler, handler_in, handler_of, is_handler,
  is_video_track, track_has_handler_type,
}
use open_broadcast_network.Media.Mp4.Tracks.Filters.{
  At, spans, At-next, type_at-At, content_bytes, children-spans,
}
use open_broadcast_network.Media.Fragment.{BoxInfo, is_type}
use open_broadcast_network.Media.Fragment.Writer.{serialize_box}
use open_broadcast_network.Media.Fragment.RoundTrip.{
  IsPlain, AllPlain, serialize_boxes, length-serialize_box,
}

abbrev pub IsNot : List ℕ → BoxInfo → Type 0
IsNot t b = is_type t b ≡ false

-- The loops on a box that they pass by, and on one that they stop at.
module _ (place : ℕ) (bytes : List ℕ) (c size : ℕ) (rest : List Span) where
  handler_in-pass :
      (mdia_end : ℕ)
      → list_beq (type_at bytes c) hdlr ≡ false
      → handler_in place bytes mdia_end ((c, size) ∷ rest) ≡ handler_in place bytes mdia_end rest
  unfolding handler_in
  handler_in-pass mdia_end h = rw (h, handler_in) refl

  handler_in-stop :
      (mdia_end : ℕ)
      → list_beq (type_at bytes c) hdlr ≡ true
      → leb (c + 16) mdia_end ≡ true
      → leb (c + (place + 4)) (length bytes) ≡ true
      → handler_in place bytes mdia_end ((c, size) ∷ rest)
        ≡ handler (from_utf8_lossy (slice (c + place) 4 bytes))
  unfolding handler_in
  handler_in-stop mdia_end h k l = rw (h, k, l, handler_in) refl

  handler_of-pass :
      list_beq (type_at bytes c) mdia ≡ false
      → handler_of place bytes ((c, size) ∷ rest) ≡ handler_of place bytes rest
  unfolding handler_of
  handler_of-pass h = rw (h, handler_of) refl

  handler_of-stop :
      (x : List ℕ)
      → list_beq (type_at bytes c) mdia ≡ true
      → handler_in place bytes (c + size) (children bytes (c + 8) (c + size)) ≡ handler x
      → handler_of place bytes ((c, size) ∷ rest) ≡ handler x
  unfolding handler_of
  handler_of-stop x h k = rw (h, handler_of, k) refl

-- The first mdia box, after others, gives the handler.
handler_of-mdia :
    (place : ℕ) (bytes x : List ℕ) (media : BoxInfo) (after before : List BoxInfo) (o : ℕ)
    (rest : List ℕ)
    → AllPlain before
    → All (IsNot mdia) before
    → IsPlain media
    → media.header.box_type ≡ mdia
    → At bytes o (before ++ media ∷ after) rest
    → ((c : ℕ)
        → At bytes c (media ∷ after) rest
        → handler_in place bytes
            (c + media.header.size)
            (children bytes (c + 8) (c + media.header.size))
          ≡ handler x)
    → handler_of place bytes (spans o (before ++ media ∷ after)) ≡ handler x
handler_of-mdia place bytes x media after [] o rest plain others p named at inner =
    handler_of-stop place bytes o media.header.size (spans (o + media.header.size) after) x
      ((list_beq_iff (type_at bytes o) mdia).1 (type_at-At bytes o media after rest p at ∙ named))
      (inner o at)
handler_of-mdia place bytes x media after (b ∷ bs) o rest (q, qs) (n, ns) p named at inner =
    let more = bs ++ media ∷ after in
    handler_of-pass place bytes o b.header.size (spans (o + b.header.size) more)
      (ap (λ (t : List ℕ). list_beq t mdia) (type_at-At bytes o b more rest q at) ∙ n)
    ∙ handler_of-mdia place bytes x media after bs (o + b.header.size) rest qs ns p named
        (At-next bytes o b more rest q at) inner

-- The first hdlr box, after others, gives its bytes.
handler_in-hdlr :
    (place : ℕ) (bytes x : List ℕ) (h : BoxInfo) (back front : List BoxInfo) (o mdia_end : ℕ)
    (rest : List ℕ)
    → AllPlain front
    → All (IsNot hdlr) front
    → IsPlain h
    → h.header.box_type ≡ hdlr
    → At bytes o (front ++ h ∷ back) rest
    → o + length (serialize_boxes (front ++ h ∷ back)) ≡ mdia_end
    → ((c : ℕ)
        → At bytes c (h ∷ back) rest
        → c + length (serialize_boxes (h ∷ back)) ≡ mdia_end
        → (leb (c + 16) mdia_end ≡ true)
          × (leb (c + (place + 4)) (length bytes) ≡ true)
          × (from_utf8_lossy (slice (c + place) 4 bytes) ≡ x))
    → handler_in place bytes mdia_end (spans o (front ++ h ∷ back)) ≡ handler x
handler_in-hdlr place bytes x h back [] o mdia_end rest plain others p named at total inner =
    let (inside, there, read) = inner o at total in
    handler_in-stop place bytes o h.header.size (spans (o + h.header.size) back) mdia_end
      ((list_beq_iff (type_at bytes o) hdlr).1 (type_at-At bytes o h back rest p at ∙ named)) inside
      there
    ∙ ap handler read
handler_in-hdlr place bytes x h back (b ∷ bs) o mdia_end rest (q, qs) (n, ns) p named at total
      inner =
    let more = bs ++ h ∷ back in
    handler_in-pass place bytes o b.header.size (spans (o + b.header.size) more) mdia_end
      (ap (λ (t : List ℕ). list_beq t hdlr) (type_at-At bytes o b more rest q at) ∙ n)
    ∙ handler_in-hdlr place bytes x h back bs (o + b.header.size) mdia_end rest qs ns p named
        (At-next bytes o b more rest q at)
        (omega
          (arith, length-append (serialize_box b) (serialize_boxes more), length-serialize_box b q))
        inner

take_four : (xs others more : List ℕ) → length xs ≡ 4 → take 4 ((xs ++ others) ++ more) ≡ xs
take_four xs others more four =
    ap (take 4) (append_assoc xs others more)
    ∙ subst (λ (k : ℕ). take k (xs ++ (others ++ more)) ≡ xs) four (take-append xs (others ++ more))

-- A track as the standard has it: in the first mdia box of the trak box is a handler box that holds
-- four bytes of version and flags, four bytes that are zero, and the handler type.
pub record IsTrack (t : BoxInfo) (handler_type : List ℕ) : Type 0 where
  pub plain : IsPlain t
  pub before : List BoxInfo
  pub media : BoxInfo
  pub after : List BoxInfo
  pub before_plain : AllPlain before
  pub media_plain : IsPlain media
  pub after_plain : AllPlain after
  pub holds : plain.payload ≡ serialize_boxes (before ++ media ∷ after)
  pub first_mdia : All (IsNot mdia) before
  pub media_named : media.header.box_type ≡ mdia
  pub front : List BoxInfo
  pub header : BoxInfo
  pub back : List BoxInfo
  pub front_plain : AllPlain front
  pub header_plain : IsPlain header
  pub back_plain : AllPlain back
  pub media_holds : media_plain.payload ≡ serialize_boxes (front ++ header ∷ back)
  pub first_hdlr : All (IsNot hdlr) front
  pub header_named : header.header.box_type ≡ hdlr
  pub version : ℕ
  pub flags : ℕ × ℕ × ℕ
  pub others : List ℕ
  pub header_holds :
      header_plain.payload
      ≡ version ∷ flags.0 ∷ flags.1 ∷ flags.2 ∷ 0 ∷ 0 ∷ 0 ∷ 0 ∷ (handler_type ++ others)
  pub four : length handler_type ≡ 4
  pub ascii : All IsAscii handler_type

-- Four bytes of the handler box's content, read in the track.
module _ (bytes x : List ℕ) (h : BoxInfo) (back : List BoxInfo) (rest : List ℕ) (p : IsPlain h)
    (k : ℕ) (few : k ≤ 8) (long : 12 ≤ length p.payload)
    (reads : (more : List ℕ) → from_utf8_lossy (take 4 (drop k (p.payload ++ more))) ≡ x) where
  four_bytes :
      (c mdia_end : ℕ)
      → At bytes c (h ∷ back) rest
      → c + length (serialize_boxes (h ∷ back)) ≡ mdia_end
      → (leb (c + 16) mdia_end ≡ true)
        × (leb (c + (8 + k + 4)) (length bytes) ≡ true)
        × (from_utf8_lossy (slice (c + (8 + k)) 4 bytes) ≡ x)
  four_bytes c mdia_end at total =
      let says = p.size_says in
      let size = length-append (serialize_box h) (serialize_boxes back) in
      let own = length-serialize_box h p in
      let more = serialize_boxes back ++ rest in
      let content = content_bytes bytes c h back rest p at in
      let long_enough = ap length content in
      let place : c + (8 + k) ≡ c + 8 + k = omega arith in
      (
        (ground (arith, size, own)),
        (ground (arith, long_enough, length-append p.payload more, length-drop (c + 8) bytes)),
        ap (λ (o : ℕ). from_utf8_lossy (take 4 (drop o bytes))) place
            ∙ ap (λ (xs : List ℕ). from_utf8_lossy (take 4 xs))
                (sym (drop-drop (c + 8) k bytes) ∙ ap (drop k) content)
            ∙ reads more,
      )

module _ (t : BoxInfo) (handler_type : List ℕ) (s : IsTrack t handler_type) where
  abbrev kids : List BoxInfo
  kids = s.before ++ s.media ∷ s.after

  abbrev media_kids : List BoxInfo
  media_kids = s.front ++ s.header ∷ s.back

  kids_plain : AllPlain kids
  kids_plain =
      All-append IsPlain s.before (s.media ∷ s.after) s.before_plain (s.media_plain, s.after_plain)

  media_kids_plain : AllPlain media_kids
  media_kids_plain =
      All-append IsPlain s.front (s.header ∷ s.back) s.front_plain (s.header_plain, s.back_plain)

  kids-At : At (serialize_box t) 8 kids []
  kids-At =
      content_bytes (serialize_box t) 0 t [] [] s.plain
        (sym (append-nil (serialize_boxes (t ∷ [])) ∙ append-nil (serialize_box t)))
      ∙ ap (λ (xs : List ℕ). xs ++ []) s.holds

  kids_found : children (serialize_box t) 8 (length (serialize_box t)) ≡ spans 8 kids
  kids_found =
      let whole = length-serialize_box t s.plain in
      let says = s.plain.size_says in
      let held = ap length s.holds in
      children-spans kids (serialize_box t) [] 8 (length (serialize_box t)) 0 kids_plain kids-At
        (omega (arith, whole, says, held)) (omega arith)

  module _ (k : ℕ) (x : List ℕ) (few : k ≤ 8)
      (reads : (more : List ℕ)
        → from_utf8_lossy (take 4 (drop k (s.header_plain.payload ++ more))) ≡ x) where
    in_media :
        (c : ℕ)
        → At (serialize_box t) c (s.media ∷ s.after) []
        → handler_in
            (8 + k)
            (serialize_box t)
            (c + s.media.header.size)
            (children (serialize_box t) (c + 8) (c + s.media.header.size))
          ≡ handler x
    in_media c at =
        let bytes = serialize_box t in
        let says = s.media_plain.size_says in
        let held = ap length s.media_holds in
        let rest = serialize_boxes s.after ++ [] in
        let inner_at : At bytes (c + 8) media_kids rest =
          content_bytes bytes c s.media s.after [] s.media_plain at
          ∙ ap (λ (xs : List ℕ). xs ++ rest) s.media_holds in
        let total : c + 8 + length (serialize_boxes media_kids) ≡ c + s.media.header.size =
          omega (arith, says, held) in
        let long : 12 ≤ length s.header_plain.payload =
          let whole = ap length s.header_holds in
          omega (arith, whole, length-append handler_type s.others, s.four) in
        ap (handler_in (8 + k) bytes (c + s.media.header.size)) (
          children-spans media_kids bytes rest (c + 8) (c + s.media.header.size) 0 media_kids_plain
            inner_at (omega (arith, total)) (omega arith))
        ∙ handler_in-hdlr (8 + k) bytes x s.header s.back s.front (c + 8) (c + s.media.header.size)
            rest s.front_plain s.first_hdlr s.header_plain s.header_named inner_at total
            (λ c' at' total'.
              four_bytes bytes x s.header s.back rest s.header_plain k few long reads c'
                (c + s.media.header.size) at' total')

    handler_found :
        handler_of
          (8 + k)
          (serialize_box t)
          (children (serialize_box t) 8 (length (serialize_box t)))
        ≡ handler x
    handler_found =
        ap (handler_of (8 + k) (serialize_box t)) kids_found
        ∙ handler_of-mdia (8 + k) (serialize_box t) x s.media s.after s.before 8 [] s.before_plain
            s.first_mdia s.media_plain s.media_named kids-At in_media

  type_read :
      (more : List ℕ)
      → from_utf8_lossy (take 4 (drop 8 (s.header_plain.payload ++ more))) ≡ handler_type
  type_read more =
      ap (λ (xs : List ℕ). from_utf8_lossy (take 4 (drop 8 (xs ++ more)))) s.header_holds
      ∙ ap from_utf8_lossy (take_four handler_type s.others more s.four)
      ∙ from_utf8_lossy-IsAscii handler_type s.ascii

  zeros_read :
      (more : List ℕ)
      → from_utf8_lossy (take 4 (drop 4 (s.header_plain.payload ++ more))) ≡ 0 ∷ 0 ∷ 0 ∷ 0 ∷ []
  zeros_read more =
      ap (λ (xs : List ℕ). from_utf8_lossy (take 4 (drop 4 (xs ++ more)))) s.header_holds
      ∙ from_utf8_lossy-IsAscii (0 ∷ 0 ∷ 0 ∷ 0 ∷ []) (omega arith)

  -- Of a standard track of any handler type, the search for a given handler type reads the type
  -- that the track has, and the search for video reads the zero bytes before it and denies that the
  -- track is video.
  pub standard_track_read :
      (wanted : List ℕ)
      → (track_has_handler_type (serialize_box t) wanted ≡ some (list_beq handler_type wanted))
        × (is_video_track (serialize_box t) ≡ some false)
  unfolding track_has_handler_type is_video_track is_handler
  standard_track_read wanted = (
    ap (is_handler wanted) (handler_found 8 handler_type (omega arith) type_read),
    ap (is_handler vide) (handler_found 4 (0 ∷ 0 ∷ 0 ∷ 0 ∷ []) (omega arith) zeros_read),
  )
