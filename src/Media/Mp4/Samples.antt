-- ===== src/Media/Mp4/Samples.antt =====
-- core/src/media/mp4_parser.rs: `SampleTable::resolve_sample_offsets`. A slice whose start lies
-- beyond its end panics: `none`. The subtractions wrap on u32 as a release build computes them. An
-- index that runs over a list is here the rest of that list.
use open_broadcast_network.Prelude.{
  ℕ, zero, suc, ◌+◌, ◌-◌, ◌%◌, ◌^◌, min, true, false, Option, none, some, List, [], ◌∷◌, ◌++◌,
  length, map, ltb, if◌then◌else◌,
}
use open_broadcast_network.Media.Mp4.{ℤ, pos, SampleTable, SampleEntry}
use open_broadcast_network.Media.Mp4.Tables.{replicate}

-- `for item in &mut items[start..end] { *item = value }`, where the range is in the list.
unfoldable pub set_range : ℕ → ℕ → ℕ → List ℕ → List ℕ
set_range start end value [] = []
set_range zero zero value (x ∷ xs) = x ∷ xs
set_range zero (suc end) value (x ∷ xs) = value ∷ set_range zero end value xs
set_range (suc start) zero value (x ∷ xs) = x ∷ xs
set_range (suc start) (suc end) value (x ∷ xs) = x ∷ set_range start end value xs

-- `n - 1` on u32
abbrev pub before32 : ℕ → ℕ
before32 n = (n + (2 ^ 32 - 1)) % 2 ^ 32

-- The end of an entry's range: where the next entry begins.
unfoldable pub range_end : ℕ → List (ℕ × ℕ × ℕ) → ℕ
range_end num_chunks [] = num_chunks
range_end num_chunks ((first_chunk, spc, desc_idx) ∷ rest) = before32 first_chunk

unfoldable pub expand_chunks : ℕ → List (ℕ × ℕ × ℕ) → List ℕ → Option (List ℕ)
unfolding set_range range_end
expand_chunks num_chunks [] samples_per_chunk = some samples_per_chunk
expand_chunks num_chunks ((first_chunk, spc, desc_idx) ∷ rest) samples_per_chunk =
    let start = before32 first_chunk in
    let end = min (range_end num_chunks rest) num_chunks in
    let onward = expand_chunks num_chunks rest (set_range start end spc samples_per_chunk) in
    if ltb end start then none else onward

-- The entries of a chunk, and the sizes that are left.
unfoldable pub place_samples : ℕ → ℕ → ℕ → List ℕ → List SampleEntry × List ℕ
place_samples zero chunk_offset offset_in_chunk sizes = ([], sizes)
place_samples (suc spc) chunk_offset offset_in_chunk [] = ([], [])
place_samples (suc spc) chunk_offset offset_in_chunk (size ∷ sizes) =
    let (placed, left) = place_samples spc chunk_offset ((offset_in_chunk + size) % 2 ^ 64) sizes in
    (
      record {
        offset = (chunk_offset + offset_in_chunk) % 2 ^ 64;
        size = size;
        duration = 0;
        is_keyframe = false;
        composition_offset = pos 0;
      }
          ∷ placed,
      left,
    )

-- Over the chunks: their offsets, and how many samples each has.
unfoldable pub place_chunks : List ℕ → List ℕ → List ℕ → List SampleEntry
unfolding place_samples
place_chunks [] spcs sizes = []
place_chunks (chunk_offset ∷ offsets) [] sizes = []
place_chunks (chunk_offset ∷ offsets) (spc ∷ spcs) sizes =
    let (placed, left) = place_samples spc chunk_offset 0 sizes in
    placed ++ place_chunks offsets spcs left

-- A run of `count` equal values: the entries that it sets, and those left.
unfoldable pub set_run {ℓ} :
    {V : Type ℓ}
    → (V → SampleEntry → SampleEntry)
    → ℕ
    → V
    → List SampleEntry
    → List SampleEntry × List SampleEntry
set_run set zero value entries = ([], entries)
set_run set (suc count) value [] = ([], [])
set_run set (suc count) value (e ∷ es) =
    let (done, left) = set_run set count value es in (set value e ∷ done, left)

unfoldable pub set_runs {ℓ} :
    {V : Type ℓ}
    → (V → SampleEntry → SampleEntry)
    → List (ℕ × V)
    → List SampleEntry
    → List SampleEntry
unfolding set_run
set_runs set [] entries = entries
set_runs set ((count, value) ∷ runs) entries =
    let (done, left) = set_run set count value entries in done ++ set_runs set runs left

abbrev pub with_duration : ℕ → SampleEntry → SampleEntry
with_duration delta e = record e { duration = delta }

abbrev pub with_composition : ℤ → SampleEntry → SampleEntry
with_composition shift e = record e { composition_offset = shift }

abbrev pub as_keyframe : SampleEntry → SampleEntry
as_keyframe e = record e { is_keyframe = true }

-- The entry at an index becomes a keyframe, where there is one.
unfoldable pub mark_at : ℕ → List SampleEntry → List SampleEntry
mark_at index [] = []
mark_at zero (e ∷ es) = as_keyframe e ∷ es
mark_at (suc index) (e ∷ es) = e ∷ mark_at index es

unfoldable pub mark_all : List ℕ → List SampleEntry → List SampleEntry
unfolding mark_at
mark_all [] entries = entries
mark_all (sync_sample ∷ rest) entries = mark_all rest (mark_at (before32 sync_sample) entries)

unfoldable pub mark_keyframes : List ℕ → List SampleEntry → List SampleEntry
unfolding mark_all
mark_keyframes [] entries = map as_keyframe entries
mark_keyframes (s ∷ ss) entries = mark_all (s ∷ ss) entries

unfoldable pub resolve_sample_offsets : SampleTable → Option (List SampleEntry)
unfolding expand_chunks place_chunks set_runs mark_keyframes
resolve_sample_offsets t = elim t.sample_sizes [
  | [] ↦ some []
  | ◌∷◌ size sizes ↦
      elim (expand_chunks (length t.chunk_offsets) t.sample_to_chunk
        (replicate (length t.chunk_offsets) 0)) [
          | none ↦ none
          | some spcs ↦
              let placed = place_chunks t.chunk_offsets spcs (size ∷ sizes) in
              let timed = set_runs with_duration t.time_to_sample placed in
              let marked = mark_keyframes t.sync_samples timed in
              some (set_runs with_composition t.composition_offsets marked)
        ]
]
