-- ===== src/Media/Mp4/Entries.antt =====
-- core/src/media/mp4_parser.rs: the sample table boxes, read back as they were written.
use open_broadcast_network.Prelude.{
  ℕ, ◌+◌, ◌-◌, ◌*◌, ◌/◌, ◌%◌, ◌^◌, ◌≤◌, ◌<◌, ◌≡◌, refl, ◌∙◌, ap, sym, List, [], ◌∷◌, ◌++◌, length,
  drop, All, arith, le→ltb_false, length-append, length-drop, drop-append, lt→ltb,
}
use open_broadcast_network.Prelude.Bytes.{
  be32, be64, read_be32, read_be32-be32, read_be32-drop, drop-drop,
}
use open_broadcast_network.Media.Mp4.{ℤ, pos, negsuc, to_i32}
use open_broadcast_network.Media.Mp4.Tables.{
  entries, counted, decode_pair, parse_stts, decode_triple, parse_stsc, parse_stco, read_be64,
  parse_co64, parse_stss, decode_shift, parse_ctts,
}
use mathlib.Core.Path.{subst}
use mathlib.Core.List.{append_assoc}

abbrev pub encode_all {ℓ} : {A : Type ℓ} → (A → List ℕ) → List A → List ℕ
encode_all encode [] = []
encode_all encode (x ∷ xs) = encode x ++ encode_all encode xs

-- A decoder that reads what an encoder writes, wherever it stands.
abbrev Reads {ℓ} : {A : Type ℓ} → (A → Type 0) → (A → List ℕ) → (ℕ → List ℕ → A) → Type ℓ
Reads {A} P encode decode =
    (a : A)
    → P a
    → (o : ℕ) (bytes tail : List ℕ) → drop o bytes ≡ encode a ++ tail
    → decode o bytes ≡ a

module _ {ℓ} {A : Type ℓ} (P : A → Type 0) (encode : A → List ℕ) (decode : ℕ → List ℕ → A) (w : ℕ)
    (width : (a : A) → length (encode a) ≡ w) (positive : 0 < w)
    (reads : Reads P encode decode) where
  entries-encode :
      (xs : List A) (o : ℕ) (bytes tail : List ℕ)
      → All P xs
      → drop o bytes ≡ encode_all encode xs ++ tail
      → entries w decode (length xs) o bytes ≡ xs
  unfolding entries
  entries-encode [] o bytes tail h e = refl
  entries-encode (x ∷ xs) o bytes tail (h, hs) e =
      let rest = encode_all encode xs ++ tail in
      let here : drop o bytes ≡ encode x ++ rest =
        e ∙ append_assoc (encode x) (encode_all encode xs) tail in
      let room : o + w ≤ length bytes =
        let size = ap length here in
        omega (arith, size, length-drop o bytes, length-append (encode x) rest, width x) in
      let next : drop (o + w) bytes ≡ rest =
        sym (drop-drop o w bytes)
        ∙ ap (drop w) here
        ∙ subst (λ (k : ℕ). drop k (encode x ++ rest) ≡ rest) (width x)
            (drop-append (encode x) rest) in
      rw (le→ltb_false (length bytes) (o + w) room, entries, reads x h o bytes rest here)
        (ap (◌∷◌ x) (entries-encode xs (o + w) bytes tail hs next))

  -- A counted box that has a version, flags, the entries' number and the entries.
  counted-encode :
      (version : ℕ) (xs : List A) (tail : List ℕ)
      → length xs < 2 ^ 32
      → All P xs
      → counted w decode (be32 version ++ (be32 (length xs) ++ (encode_all encode xs ++ tail))) ≡ xs
  unfolding counted
  counted-encode version xs tail few h =
      let bytes = be32 version ++ (be32 (length xs) ++ (encode_all encode xs ++ tail)) in
      let count : read_be32 4 bytes ≡ length xs =
        sym (read_be32-drop 4 bytes)
        ∙ read_be32-be32 (length xs) (encode_all encode xs ++ tail) few in
      rw (le→ltb_false (length bytes) 8 (omega arith), count)
        (entries-encode xs 8 bytes tail h refl)

-- What follows a big-endian u32.
pub read_be32_lem :
    (n o : ℕ) (bytes rest : List ℕ)
    → n < 2 ^ 32
    → drop o bytes ≡ be32 n ++ rest
    → (read_be32 o bytes ≡ n) × (drop (o + 4) bytes ≡ rest)
read_be32_lem n o bytes rest h e = (
  sym (read_be32-drop o bytes) ∙ ap (read_be32 0) e ∙ read_be32-be32 n rest h,
  sym (drop-drop o 4 bytes) ∙ ap (drop 4) e,
)

abbrev pub Fits32 : ℕ → Type 0
Fits32 n = n < 2 ^ 32

read_be32-Reads : Reads Fits32 be32 read_be32
read_be32-Reads n h o bytes tail e = (read_be32_lem n o bytes tail h e).0

abbrev pub FitsPair : ℕ × ℕ → Type 0
FitsPair (a, b) = Fits32 a × Fits32 b

abbrev pub encode_pair : ℕ × ℕ → List ℕ
encode_pair (a, b) = be32 a ++ be32 b

decode_pair-Reads : Reads FitsPair encode_pair decode_pair
unfolding decode_pair
decode_pair-Reads (a, b) (h, k) o bytes tail e =
    let (first, rest) = read_be32_lem a o bytes (be32 b ++ tail) h e in
    let (second, done) = read_be32_lem b (o + 4) bytes tail k rest in λ i. (first i, second i)

abbrev pub FitsTriple : ℕ × ℕ × ℕ → Type 0
FitsTriple (a, b, c) = Fits32 a × Fits32 b × Fits32 c

abbrev pub encode_triple : ℕ × ℕ × ℕ → List ℕ
encode_triple (a, b, c) = be32 a ++ (be32 b ++ be32 c)

decode_triple-Reads : Reads FitsTriple encode_triple decode_triple
unfolding decode_triple
decode_triple-Reads (a, b, c) (h, k, l) o bytes tail e =
    let (first, rest) = read_be32_lem a o bytes (be32 b ++ (be32 c ++ tail)) h e in
    let (second, left) = read_be32_lem b (o + 4) bytes (be32 c ++ tail) k rest in
    let shift : o + 4 + 4 ≡ o + 8 = omega arith in
    let third =
      (read_be32_lem c (o + 8) bytes tail l (ap (λ (n : ℕ). drop n bytes) (sym shift) ∙ left)).0 in
    λ i. (first i, second i, third i)

abbrev pub Fits64 : ℕ → Type 0
Fits64 n = n < 2 ^ 64

read_be64-Reads : Reads Fits64 be64 read_be64
unfolding read_be64
read_be64-Reads n h o bytes tail e =
    let (first, rest) =
      read_be32_lem (n / 2 ^ 32) o bytes (be32 (n % 2 ^ 32) ++ tail) (omega arith) e in
    let (second, done) = read_be32_lem (n % 2 ^ 32) (o + 4) bytes tail (omega arith) rest in
    ap (λ (x : ℕ). x * 4_294_967_296 + read_be32 (o + 4) bytes) first
    ∙ ap (λ (x : ℕ). n / 2 ^ 32 * 4_294_967_296 + x) second
    ∙ omega arith

-- An i32's bits.
abbrev pub from_i32 : ℤ → ℕ
from_i32 (pos n) = n
from_i32 (negsuc n) = 2 ^ 32 - 1 - n

abbrev pub FitsShift : ℕ × ℤ → Type 0
FitsShift (a, pos n) = Fits32 a × (n < 2 ^ 31)
FitsShift (a, negsuc n) = Fits32 a × (n < 2 ^ 31)

abbrev pub encode_shift : ℕ × ℤ → List ℕ
encode_shift (a, z) = be32 a ++ be32 (from_i32 z)

to_i32-pos : (n : ℕ) → n < 2 ^ 31 → to_i32 n ≡ pos n
unfolding to_i32
to_i32-pos n h = rw (lt→ltb n (2 ^ 31) h) refl

to_i32-negsuc : (n : ℕ) → n < 2 ^ 31 → to_i32 (2 ^ 32 - 1 - n) ≡ negsuc n
unfolding to_i32
to_i32-negsuc n h =
    let back : 2 ^ 32 - 1 - (2 ^ 32 - 1 - n) ≡ n = omega arith in
    rw (le→ltb_false (2 ^ 32 - 1 - n) (2 ^ 31) (omega arith), back) refl

decode_shift-Reads : Reads FitsShift encode_shift decode_shift
unfolding decode_shift
decode_shift-Reads (a, pos n) (h, k) o bytes tail e =
    let (first, rest) = read_be32_lem a o bytes (be32 n ++ tail) h e in
    let second =
      ap to_i32 (read_be32_lem n (o + 4) bytes tail (omega arith) rest).0 ∙ to_i32-pos n k in
    λ i. (first i, second i)
decode_shift-Reads (a, negsuc n) (h, k) o bytes tail e =
    let (first, rest) = read_be32_lem a o bytes (be32 (2 ^ 32 - 1 - n) ++ tail) h e in
    let second =
      ap to_i32 (read_be32_lem (2 ^ 32 - 1 - n) (o + 4) bytes tail (omega arith) rest).0
      ∙ to_i32-negsuc n k in
    λ i. (first i, second i)

-- A sample table box as the standard has it: a version and flags, the number of entries, and the
-- entries.
abbrev pub table_box {ℓ} : {A : Type ℓ} → (A → List ℕ) → ℕ → List A → List ℕ → List ℕ
table_box encode version xs tail =
    be32 version ++ (be32 (length xs) ++ (encode_all encode xs ++ tail))

-- Six of the sample table boxes are read back as they were written, whatever follows the entries:
-- runs of durations, chunk entries, chunk offsets of four and of eight bytes, sync samples, and runs
-- of composition offsets, which are signed.
pub tables_read_back :
    (version : ℕ) (tail : List ℕ) (durations : List (ℕ × ℕ)) (chunk_entries : List (ℕ × ℕ × ℕ))
    (words long_words : List ℕ) (shifts : List (ℕ × ℤ))
    → (length durations < 2 ^ 32 × All FitsPair durations)
    → (length chunk_entries < 2 ^ 32 × All FitsTriple chunk_entries)
    → (length words < 2 ^ 32 × All Fits32 words)
    → (length long_words < 2 ^ 32 × All Fits64 long_words)
    → (length shifts < 2 ^ 32 × All FitsShift shifts)
    → (parse_stts (table_box encode_pair version durations tail) ≡ durations)
      × (parse_stsc (table_box encode_triple version chunk_entries tail) ≡ chunk_entries)
      × (parse_stco (table_box be32 version words tail) ≡ words)
      × (parse_co64 (table_box be64 version long_words tail) ≡ long_words)
      × (parse_stss (table_box be32 version words tail) ≡ words)
      × (parse_ctts (table_box encode_shift version shifts tail) ≡ shifts)
unfolding parse_stts parse_stsc parse_stco parse_co64 parse_stss parse_ctts
tables_read_back version tail ds cs ws ls ss hd hc hw hl hs =
    let words =
      counted-encode Fits32 be32 read_be32 4 (λ n. refl) (omega arith) read_be32-Reads version ws
        tail hw.0 hw.1 in
    (
      counted-encode FitsPair encode_pair decode_pair 8 (λ p. refl) (omega arith) decode_pair-Reads
          version ds tail hd.0 hd.1,
      counted-encode FitsTriple encode_triple decode_triple 12 (λ p. refl) (omega arith)
          decode_triple-Reads version cs tail hc.0 hc.1,
      words,
      counted-encode Fits64 be64 read_be64 8 (λ n. refl) (omega arith) read_be64-Reads version ls
          tail hl.0 hl.1,
      words,
      counted-encode FitsShift encode_shift decode_shift 8 (λ p. refl) (omega arith)
          decode_shift-Reads version ss tail hs.0 hs.1,
    )
