-- ===== src/Media/Mp4/Resolve.antt =====
-- core/src/media/mp4_parser.rs: `resolve_sample_offsets` against a reference description, column by
-- column.
use open_broadcast_network.Prelude.{
  ℕ, zero, suc, ◌+◌, ◌-◌, ◌^◌, ◌<◌, ◌≡◌, refl, ◌∙◌, ap, sym, false, some, List, [], ◌∷◌, map,
  length, take, All, arith,
}
use mathlib.Core.Path.{subst}
use open_broadcast_network.Media.Mp4.{pos, SampleTable, SampleEntry}
use open_broadcast_network.Media.Mp4.Tables.{replicate}
use open_broadcast_network.Media.Mp4.Samples.{
  expand_chunks, place_chunks, set_runs, with_duration, with_composition, mark_keyframes,
  resolve_sample_offsets,
}
use open_broadcast_network.Media.Mp4.Columns.{
  spread, overlay, IsSync, keyframe_flags, set_runs-overlay, set_runs_same,
  key_column-mark_keyframes, mark_keyframes_same,
}
use open_broadcast_network.Media.Mp4.Places.{
  layout, sum, Rises, next_first, chunk_counts, size_column, offset_column, default_column,
  expand_chunks-chunk_counts, length-chunk_counts,
}

-- A table that a well-formed file has: its sample-to-chunk entries begin at chunk 1 and their first
-- chunks rise, to the last chunk at most, unless there is no chunk and no entry; there are fewer than
-- 2^32 - 1 chunks; and the sync samples are numbers from 1 to 2^32 - 1.
pub record IsWellFormed (t : SampleTable) : Type 0 where
  pub few_chunks : length t.chunk_offsets < 2 ^ 32 - 1
  pub first_chunk : next_first (length t.chunk_offsets) t.sample_to_chunk ≡ 1
  pub rises : Rises (length t.chunk_offsets) 1 t.sample_to_chunk
  pub sync : All IsSync t.sync_samples

-- How many samples each chunk has, and how many samples are placed.
abbrev pub counts : SampleTable → List ℕ
counts t = chunk_counts (length t.chunk_offsets) t.sample_to_chunk

abbrev pub placed_sizes : SampleTable → List ℕ
placed_sizes t = take (sum (counts t)) t.sample_sizes

-- What the entries are, column by column.
pub record Describes (t : SampleTable) (es : List SampleEntry) : Type 0 where
  pub sizes : map SampleEntry.size es ≡ placed_sizes t
  pub offsets : map SampleEntry.offset es ≡ layout t.chunk_offsets (counts t) t.sample_sizes
  pub durations :
      map SampleEntry.duration es
      ≡ overlay (spread t.time_to_sample) (replicate (length (placed_sizes t)) 0)
  pub keyframes :
      map SampleEntry.is_keyframe es ≡ keyframe_flags (length (placed_sizes t)) t.sync_samples
  pub compositions :
      map SampleEntry.composition_offset es
      ≡ overlay (spread t.composition_offsets) (replicate (length (placed_sizes t)) (pos 0))

-- The last three steps, on the placed entries.
abbrev finish : SampleTable → List SampleEntry → List SampleEntry
finish t placed =
    set_runs with_composition t.composition_offsets
      (mark_keyframes t.sync_samples (set_runs with_duration t.time_to_sample placed))

finish-Describes :
    (t : SampleTable)
    → IsWellFormed t
    → length (counts t) ≡ length t.chunk_offsets
    → Describes t (finish t (place_chunks t.chunk_offsets (counts t) t.sample_sizes))
finish-Describes t w same =
    let placed = place_chunks t.chunk_offsets (counts t) t.sample_sizes in
    let timed = set_runs with_duration t.time_to_sample placed in
    let marked = mark_keyframes t.sync_samples timed in
    let n = length (placed_sizes t) in
    record {
      sizes =
          set_runs_same with_composition SampleEntry.size (λ v e. refl) t.composition_offsets marked
          ∙ mark_keyframes_same SampleEntry.size (λ e. refl) t.sync_samples timed
          ∙ set_runs_same with_duration SampleEntry.size (λ v e. refl) t.time_to_sample placed
          ∙ size_column t.chunk_offsets (counts t) t.sample_sizes same;
      offsets =
          set_runs_same with_composition SampleEntry.offset (λ v e. refl) t.composition_offsets
            marked
          ∙ mark_keyframes_same SampleEntry.offset (λ e. refl) t.sync_samples timed
          ∙ set_runs_same with_duration SampleEntry.offset (λ v e. refl) t.time_to_sample placed
          ∙ offset_column t.chunk_offsets (counts t) t.sample_sizes;
      durations =
          set_runs_same with_composition SampleEntry.duration (λ v e. refl) t.composition_offsets
            marked
          ∙ mark_keyframes_same SampleEntry.duration (λ e. refl) t.sync_samples timed
          ∙ set_runs-overlay with_duration SampleEntry.duration (λ v e. refl) t.time_to_sample
              placed
          ∙ ap (overlay (spread t.time_to_sample)) (
              default_column SampleEntry.duration 0 (λ o s. refl) t.chunk_offsets (counts t)
                t.sample_sizes same);
      keyframes =
          set_runs_same with_composition SampleEntry.is_keyframe (λ v e. refl) t.composition_offsets
            marked
          ∙ key_column-mark_keyframes t.sync_samples timed n w.sync (
              set_runs_same with_duration SampleEntry.is_keyframe (λ v e. refl) t.time_to_sample
                placed
              ∙ default_column SampleEntry.is_keyframe false (λ o s. refl) t.chunk_offsets
                  (counts t) t.sample_sizes same);
      compositions =
          set_runs-overlay with_composition SampleEntry.composition_offset (λ v e. refl)
            t.composition_offsets marked
          ∙ ap (overlay (spread t.composition_offsets)) (
              mark_keyframes_same SampleEntry.composition_offset (λ e. refl) t.sync_samples timed
              ∙ set_runs_same with_duration SampleEntry.composition_offset (λ v e. refl)
                  t.time_to_sample placed
              ∙ default_column SampleEntry.composition_offset (pos 0) (λ o s. refl) t.chunk_offsets
                  (counts t) t.sample_sizes same);
    }

no_entries : (n : ℕ) (es : List SampleEntry) → map SampleEntry.size es ≡ take n [] → es ≡ []
no_entries n [] h = refl
no_entries zero (e ∷ es) h = absurd (cc)
no_entries (suc n) (e ∷ es) h = absurd (cc)

no_samples : (t : SampleTable) → t.sample_sizes ≡ [] → resolve_sample_offsets t ≡ some []
unfolding resolve_sample_offsets
no_samples t h = rw (h, resolve_sample_offsets) refl

some_samples :
    (t : SampleTable) (x : ℕ) (xs : List ℕ)
    → t.sample_sizes ≡ x ∷ xs
    → expand_chunks
        (length t.chunk_offsets)
        t.sample_to_chunk
        (replicate (length t.chunk_offsets) 0)
      ≡ some (counts t)
    → resolve_sample_offsets t ≡ some (finish t (place_chunks t.chunk_offsets (counts t) (x ∷ xs)))
unfolding resolve_sample_offsets
some_samples t x xs h e = rw (h, resolve_sample_offsets, e) refl

resolve_sample_offsets-finish :
    (t : SampleTable)
    → Describes t (finish t (place_chunks t.chunk_offsets (counts t) t.sample_sizes))
    → expand_chunks
        (length t.chunk_offsets)
        t.sample_to_chunk
        (replicate (length t.chunk_offsets) 0)
      ≡ some (counts t)
    → resolve_sample_offsets t
      ≡ some (finish t (place_chunks t.chunk_offsets (counts t) t.sample_sizes))
unfolding resolve_sample_offsets
resolve_sample_offsets-finish t d e = go t.sample_sizes refl
  where
    go :
        (sizes : List ℕ)
        → t.sample_sizes ≡ sizes
        → resolve_sample_offsets t
          ≡ some (finish t (place_chunks t.chunk_offsets (counts t) t.sample_sizes))
    go [] h =
        let none_placed =
          no_entries (sum (counts t))
            (finish t (place_chunks t.chunk_offsets (counts t) t.sample_sizes))
            (d.sizes ∙ ap (take (sum (counts t))) h) in
        no_samples t h ∙ ap some (sym none_placed)
    go (x ∷ xs) h =
        some_samples t x xs h e
        ∙ ap (λ (sizes : List ℕ). some (finish t (place_chunks t.chunk_offsets (counts t) sizes)))
            (sym h)

-- Resolving a well-formed sample table does not panic, and gives an entry for each sample that the
-- chunks have room for. The sizes are the table's; the samples of a chunk lie one after another
-- from the chunk's offset on, on u64; durations and composition offsets are the runs written out,
-- and zero beyond them; and the keyframes are the listed samples, or all where none is listed.
pub resolve_sample_offsets-Describes :
    (t : SampleTable)
    → IsWellFormed t
    → (es : List SampleEntry) × (resolve_sample_offsets t ≡ some es) × Describes t es
resolve_sample_offsets-Describes t w =
    let n = length t.chunk_offsets in
    let same : length (counts t) ≡ n =
      let total = length-chunk_counts n 1 t.sample_to_chunk w.rises w.first_chunk in omega arith in
    let described = finish-Describes t w same in
    let expanded =
      subst
        (λ (k : ℕ).
          k < 2 ^ 32 - 1
          → Rises k 1 t.sample_to_chunk
          → next_first k t.sample_to_chunk ≡ 1
          → expand_chunks k t.sample_to_chunk (replicate n 0)
            ≡ some (chunk_counts k t.sample_to_chunk))
        {x = 0 + n} {y = n} (omega arith) (expand_chunks-chunk_counts t.sample_to_chunk [] n)
        w.few_chunks w.rises w.first_chunk in
    (
      finish t (place_chunks t.chunk_offsets (counts t) t.sample_sizes),
      resolve_sample_offsets-finish t described expanded,
      described,
    )
