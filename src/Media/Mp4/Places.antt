-- ===== src/Media/Mp4/Places.antt =====
-- core/src/media/mp4_parser.rs: where `resolve_sample_offsets` puts the samples.
use open_broadcast_network.Prelude.{
  ℕ, zero, suc, ◌+◌, ◌-◌, ◌%◌, ◌^◌, ◌≤◌, ◌<◌, min, ◌≡◌, refl, ◌∙◌, ap, false, some, List, [], ◌∷◌,
  ◌++◌, map, length, take, drop, arith, le→ltb_false, length-append,
}
use open_broadcast_network.Media.Mp4.{pos, SampleEntry}
use open_broadcast_network.Media.Mp4.Tables.{replicate}
use open_broadcast_network.Media.Mp4.Samples.{
  before32, place_samples, place_chunks, set_range, range_end, expand_chunks,
}
use open_broadcast_network.Media.Mp4.Columns.{map-append}
use mathlib.Core.Path.{subst}
use mathlib.Core.List.{append_assoc}

-- Samples of these sizes lie one after another from a place on.
abbrev pub positions : ℕ → List ℕ → List ℕ
positions place [] = []
positions place (size ∷ sizes) = place % 2 ^ 64 ∷ positions (place + size) sizes

-- Chunk by chunk: each chunk's samples lie one after another from the chunk's offset on.
abbrev pub layout : List ℕ → List ℕ → List ℕ → List ℕ
layout [] spcs sizes = []
layout (offset ∷ offsets) [] sizes = []
layout (offset ∷ offsets) (spc ∷ spcs) sizes =
    positions offset (take spc sizes) ++ layout offsets spcs (drop spc sizes)

abbrev pub sum : List ℕ → ℕ
sum [] = 0
sum (n ∷ ns) = n + sum ns

place_samples_left :
    (spc o i : ℕ) (sizes : List ℕ) → (place_samples spc o i sizes).1 ≡ drop spc sizes
unfolding place_samples
place_samples_left zero o i sizes = refl
place_samples_left (suc spc) o i [] = refl
place_samples_left (suc spc) o i (x ∷ xs) = place_samples_left spc o ((i + x) % 2 ^ 64) xs

place_samples_sizes :
    (spc o i : ℕ) (sizes : List ℕ)
    → map SampleEntry.size (place_samples spc o i sizes).0 ≡ take spc sizes
unfolding place_samples
place_samples_sizes zero o i sizes = refl
place_samples_sizes (suc spc) o i [] = refl
place_samples_sizes (suc spc) o i (x ∷ xs) =
    ap (◌∷◌ x) (place_samples_sizes spc o ((i + x) % 2 ^ 64) xs)

positions_mod :
    (a b : ℕ) (sizes : List ℕ) → a % 2 ^ 64 ≡ b % 2 ^ 64 → positions a sizes ≡ positions b sizes
positions_mod a b [] h = refl
positions_mod a b (x ∷ xs) h =
    rw h (ap (◌∷◌ (b % 2 ^ 64)) (positions_mod (a + x) (b + x) xs (omega arith)))

place_samples_offsets :
    (spc o i : ℕ) (sizes : List ℕ)
    → map SampleEntry.offset (place_samples spc o i sizes).0 ≡ positions (o + i) (take spc sizes)
unfolding place_samples
place_samples_offsets zero o i sizes = refl
place_samples_offsets (suc spc) o i [] = refl
place_samples_offsets (suc spc) o i (x ∷ xs) = ap (◌∷◌ ((o + i) % 2 ^ 64)) (
    place_samples_offsets spc o ((i + x) % 2 ^ 64) xs
    ∙ positions_mod (o + (i + x) % 2 ^ 64) (o + i + x) (take spc xs) (omega arith))

module _ {κ} {W : Type κ} (get : SampleEntry → W) (default : W)
    (new_entry : (o s : ℕ)
      → get (record {
        offset = o;
        size = s;
        duration = 0;
        is_keyframe = false;
        composition_offset = pos 0;
      })
        ≡ default) where
  place_samples_default :
      (spc o i : ℕ) (sizes : List ℕ)
      → map get (place_samples spc o i sizes).0 ≡ replicate (length (take spc sizes)) default
  unfolding place_samples
  place_samples_default zero o i sizes = refl
  place_samples_default (suc spc) o i [] = refl
  place_samples_default (suc spc) o i (x ∷ xs) =
      rw (new_entry ((o + i) % 2 ^ 64) x)
        (ap (◌∷◌ default) (place_samples_default spc o ((i + x) % 2 ^ 64) xs))

take_sum : (m n : ℕ) (xs : List ℕ) → take (m + n) xs ≡ take m xs ++ take n (drop m xs)
take_sum zero n xs = ap (λ (k : ℕ). take k xs) (omega arith)
take_sum (suc m) zero [] = ap (λ (k : ℕ). take k []) {x = suc m + 0} {y = suc m} (omega arith)
take_sum (suc m) (suc n) [] =
    ap (λ (k : ℕ). take k []) {x = suc m + suc n} {y = suc (m + suc n)} (omega arith)
take_sum (suc m) n (x ∷ xs) =
    ap (λ (k : ℕ). take k (x ∷ xs)) {x = suc m + n} {y = suc (m + n)} (omega arith)
    ∙ ap (◌∷◌ x) (take_sum m n xs)

replicate-append {ℓ} :
    {V : Type ℓ} (m n : ℕ) (v : V) → replicate m v ++ replicate n v ≡ replicate (m + n) v
replicate-append zero n v = ap (λ (k : ℕ). replicate k v) (omega arith)
replicate-append (suc m) n v =
    ap (◌∷◌ v) (replicate-append m n v)
    ∙ ap (λ (k : ℕ). replicate k v) {x = suc (m + n)} {y = suc m + n} (omega arith)

-- The columns of the placed entries, where there is a count for each chunk.
pub size_column :
    (offsets spcs sizes : List ℕ)
    → length spcs ≡ length offsets
    → map SampleEntry.size (place_chunks offsets spcs sizes) ≡ take (sum spcs) sizes
unfolding place_chunks
size_column [] [] sizes h = refl
size_column [] (c ∷ cs) sizes h = absurd (omega arith)
size_column (o ∷ os) [] sizes h = absurd (omega arith)
size_column (o ∷ os) (c ∷ cs) sizes h =
    map-append SampleEntry.size (place_samples c o 0 sizes).0
      (place_chunks os cs (place_samples c o 0 sizes).1)
    ∙ (rw
        (
          place_samples_sizes c o 0 sizes,
          place_samples_left c o 0 sizes,
          size_column os cs (drop c sizes) (omega arith),
          take_sum c (sum cs) sizes,
        )
        refl)

pub offset_column :
    (offsets spcs sizes : List ℕ)
    → map SampleEntry.offset (place_chunks offsets spcs sizes) ≡ layout offsets spcs sizes
unfolding place_chunks
offset_column [] spcs sizes = refl
offset_column (o ∷ os) [] sizes = refl
offset_column (o ∷ os) (c ∷ cs) sizes =
    let start : o + 0 ≡ o = omega arith in
    map-append SampleEntry.offset (place_samples c o 0 sizes).0
      (place_chunks os cs (place_samples c o 0 sizes).1)
    ∙ (rw
        (
          place_samples_offsets c o 0 sizes,
          start,
          place_samples_left c o 0 sizes,
          offset_column os cs (drop c sizes),
        )
        refl)

module _ {κ} {W : Type κ} (get : SampleEntry → W) (default : W)
    (new_entry : (o s : ℕ)
      → get (record {
        offset = o;
        size = s;
        duration = 0;
        is_keyframe = false;
        composition_offset = pos 0;
      })
        ≡ default) where
  pub default_column :
      (offsets spcs sizes : List ℕ)
      → length spcs ≡ length offsets
      → map get (place_chunks offsets spcs sizes)
        ≡ replicate (length (take (sum spcs) sizes)) default
  unfolding place_chunks
  default_column [] [] sizes h = refl
  default_column [] (c ∷ cs) sizes h = absurd (omega arith)
  default_column (o ∷ os) [] sizes h = absurd (omega arith)
  default_column (o ∷ os) (c ∷ cs) sizes h =
      map-append get (place_samples c o 0 sizes).0
        (place_chunks os cs (place_samples c o 0 sizes).1)
      ∙ (rw
          (
            place_samples_default get default new_entry c o 0 sizes,
            place_samples_left c o 0 sizes,
            default_column os cs (drop c sizes) (omega arith),
            replicate-append (length (take c sizes)) (length (take (sum cs) (drop c sizes)))
                default,
            take_sum c (sum cs) sizes,
            length-append (take c sizes) (take (sum cs) (drop c sizes)),
          )
          refl)

-- A sample-to-chunk table from a chunk on: the entries' first chunks rise from it, to at most one
-- more than there are chunks.
abbrev pub Rises : ℕ → ℕ → List (ℕ × ℕ × ℕ) → Type 0
Rises num_chunks from [] = from ≤ num_chunks + 1
Rises num_chunks from ((first_chunk, spc, desc_idx) ∷ rest) =
    (from ≤ first_chunk) × Rises num_chunks first_chunk rest

-- The first chunk of the next entry, or what follows the last chunk.
abbrev pub next_first : ℕ → List (ℕ × ℕ × ℕ) → ℕ
next_first num_chunks [] = num_chunks + 1
next_first num_chunks ((first_chunk, spc, desc_idx) ∷ rest) = first_chunk

-- How many samples each chunk has, by the table: an entry holds up to the next entry's first chunk.
abbrev pub chunk_counts : ℕ → List (ℕ × ℕ × ℕ) → List ℕ
chunk_counts num_chunks [] = []
chunk_counts num_chunks ((first_chunk, spc, desc_idx) ∷ rest) =
    replicate (next_first num_chunks rest - first_chunk) spc ++ chunk_counts num_chunks rest

set_range_start :
    (end v : ℕ) (back : List ℕ)
    → end ≤ length back
    → set_range 0 end v back ≡ replicate end v ++ drop end back
unfolding set_range
set_range_start zero v [] k = refl
set_range_start (suc end) v [] k = absurd (omega arith)
set_range_start zero v (x ∷ xs) k = refl
set_range_start (suc end) v (x ∷ xs) k = ap (◌∷◌ v) (set_range_start end v xs (omega arith))

-- A range that begins where a first part ends.
set_range_parts :
    (front back : List ℕ) (n v : ℕ)
    → n ≤ length back
    → set_range (length front) (length front + n) v (front ++ back)
      ≡ front ++ (replicate n v ++ drop n back)
unfolding set_range
set_range_parts [] back n v k =
    ap (λ (m : ℕ). set_range 0 m v back) {x = 0 + n} {y = n} (omega arith)
    ∙ set_range_start n v back k
set_range_parts (x ∷ xs) back n v k =
    ap (λ (m : ℕ). set_range (suc (length xs)) m v (x ∷ xs ++ back)) {x = suc (length xs) + n}
      {y = suc (length xs + n)} (omega arith)
    ∙ ap (◌∷◌ x) (set_range_parts xs back n v k)

drop-replicate : (n k : ℕ) → drop n (replicate {A = ℕ} k 0) ≡ replicate (k - n) 0
drop-replicate zero k = ap (λ (m : ℕ). replicate m 0) (omega arith)
drop-replicate (suc n) zero = ap (λ (m : ℕ). replicate m 0) {x = 0} {y = 0 - suc n} (omega arith)
drop-replicate (suc n) (suc k) =
    drop-replicate n k ∙ ap (λ (m : ℕ). replicate m 0) {x = k - n} {y = suc k - suc n} (omega arith)

length-replicate : (n v : ℕ) → length (replicate n v) ≡ n
length-replicate zero v = refl
length-replicate (suc n) v = ap suc (length-replicate n v)

-- Where the entries rise to.
within_chunks :
    (num_chunks from : ℕ) (rest : List (ℕ × ℕ × ℕ))
    → Rises num_chunks from rest
    → from ≤ num_chunks + 1
within_chunks n from [] r = r
within_chunks n from ((f, spc, d) ∷ rest) r = omega (arith, r.0, within_chunks n f rest r.1)

range_end-next_first :
    (num_chunks from : ℕ) (rest : List (ℕ × ℕ × ℕ))
    → 1 ≤ from
    → num_chunks < 2 ^ 32 - 1
    → Rises num_chunks from rest
    → (range_end num_chunks rest + 1 ≡ next_first num_chunks rest)
      × (from ≤ next_first num_chunks rest)
      × (next_first num_chunks rest ≤ num_chunks + 1)
unfolding range_end
range_end-next_first n from [] h k r = (refl, r, omega arith)
range_end-next_first n from ((f, spc, d) ∷ rest) h k r =
    let above = within_chunks n f rest r.1 in (omega (arith, r.0), r.0, above)

Rises-le :
    (num_chunks a : ℕ) (rest : List (ℕ × ℕ × ℕ))
    → Rises num_chunks a rest
    → a ≤ next_first num_chunks rest
Rises-le n a [] r = r
Rises-le n a ((f, spc, d) ∷ rest) r = r.0

Rises-next_first :
    (num_chunks a b : ℕ) (rest : List (ℕ × ℕ × ℕ))
    → Rises num_chunks a rest
    → next_first num_chunks rest ≡ b
    → Rises num_chunks b rest
Rises-next_first n a b [] r h = omega arith
Rises-next_first n a b ((f, spc, d) ∷ rest) r h = (omega arith, r.1)

pub length-chunk_counts :
    (num_chunks a : ℕ) (table : List (ℕ × ℕ × ℕ))
    → Rises num_chunks a table
    → next_first num_chunks table ≡ a
    → length (chunk_counts num_chunks table) + a ≡ num_chunks + 1
length-chunk_counts n a [] r h = omega arith
length-chunk_counts n a ((f, spc, d) ∷ rest) r h =
    let next = next_first n rest in
    let onward = length-chunk_counts n next rest (Rises-next_first n f next rest r.1 refl) refl in
    let low : f ≤ next = Rises-le n f rest r.1 in
    omega (
      arith,
      length-append (replicate (next - f) spc) (chunk_counts n rest),
      length-replicate (next - f) spc,
    )

-- Expanding the table gives each chunk its count.
pub expand_chunks-chunk_counts :
    (table : List (ℕ × ℕ × ℕ)) (front : List ℕ) (k : ℕ)
    → length front + k < 2 ^ 32 - 1
    → Rises (length front + k) (length front + 1) table
    → next_first (length front + k) table ≡ length front + 1
    → expand_chunks (length front + k) table (front ++ replicate k 0)
      ≡ some (front ++ chunk_counts (length front + k) table)
unfolding expand_chunks
expand_chunks-chunk_counts [] front k few r first =
    let none_left : k ≡ 0 = omega arith in rw none_left refl
expand_chunks-chunk_counts ((f, spc, d) ∷ rest) front k few r first =
    let n = length front + k in
    let (end, low, high) = range_end-next_first n f rest (omega arith) few r.1 in
    let start : before32 f ≡ length front = omega arith in
    let m = next_first n rest - f in
    let stop : min (range_end n rest) n ≡ length front + m = omega arith in
    let grown = front ++ replicate m spc in
    let size : length grown ≡ length front + m =
      omega (arith, length-append front (replicate m spc), length-replicate m spc) in
    let filled : set_range (length front) (length front + m) spc (front ++ replicate k 0)
        ≡ grown ++ replicate (k - m) 0 =
      set_range_parts front (replicate k 0) m spc (omega (arith, length-replicate k 0))
      ∙ (rw (drop-replicate m k, append_assoc front (replicate m spc) (replicate (k - m) 0))
          refl) in
    let same : length grown + (k - m) ≡ n = omega arith in
    let onward : expand_chunks n rest (grown ++ replicate (k - m) 0)
        ≡ some (grown ++ chunk_counts n rest) =
      subst
        (λ (n' : ℕ).
          n' < 2 ^ 32 - 1
          → Rises n' (length grown + 1) rest
          → next_first n' rest ≡ length grown + 1
          → expand_chunks n' rest (grown ++ replicate (k - m) 0)
            ≡ some (grown ++ chunk_counts n' rest))
        same (expand_chunks-chunk_counts rest grown (k - m)) few
        (Rises-next_first n f (length grown + 1) rest r.1 (omega arith)) (omega arith) in
    rw
      (
        start,
        stop,
        le→ltb_false (length front + m) (length front) (omega arith),
        filled,
        onward,
        append_assoc front (replicate m spc) (chunk_counts n rest),
      )
      refl
