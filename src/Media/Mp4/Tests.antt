-- ===== src/Media/Mp4/Tests.antt =====
-- core/src/media/mp4_parser.rs: tests, and the theorems at concrete tables.
use open_broadcast_network.Prelude.{
  ℕ, ◌*◌, ◌≤◌, ◌≡◌, ◌≢◌, ◌⊎◌, refl, true, false, some, none, List, [], ◌∷◌, ◌++◌, length, arith,
}
use open_broadcast_network.Prelude.Bytes.{be32, be64, read_be32}
use open_broadcast_network.Media.Mp4.{ℤ, pos, negsuc, SampleTable, SampleEntry}
use open_broadcast_network.Media.Mp4.Tables.{
  replicate, parse_stsz, parse_stts, parse_stsc, parse_stco, parse_co64, parse_stss, parse_ctts,
}
use open_broadcast_network.Media.Mp4.Samples.{resolve_sample_offsets}
use open_broadcast_network.Media.Mp4.Resolve.{
  IsWellFormed, Describes, resolve_sample_offsets-Describes,
}
use open_broadcast_network.Media.Mp4.Bounds.{tables_fit}
use open_broadcast_network.Media.Mp4.Entries.{
  table_box, encode_pair, encode_triple, encode_shift, tables_read_back,
}

-- Three samples in two chunks; the first sample is a keyframe.
abbrev three_samples : SampleTable
three_samples = record {
  sample_sizes = 5 ∷ 6 ∷ 7 ∷ [];
  time_to_sample = (2, 10) ∷ (5, 11) ∷ [];
  sample_to_chunk = (1, 2, 1) ∷ (2, 1, 1) ∷ [];
  chunk_offsets = 100 ∷ 200 ∷ [];
  sync_samples = 1 ∷ [];
  composition_offsets = (1, negsuc 2) ∷ [];
}

three_samples-IsWellFormed : IsWellFormed three_samples
three_samples-IsWellFormed = record {
  few_chunks = omega arith;
  first_chunk = refl;
  rises = omega arith;
  sync = omega arith;
}

three_samples_resolved :
    resolve_sample_offsets three_samples
    ≡ some (
        record {
          offset = 100;
          size = 5;
          duration = 10;
          is_keyframe = true;
          composition_offset = negsuc 2;
        }
        ∷ record {
          offset = 105;
          size = 6;
          duration = 10;
          is_keyframe = false;
          composition_offset = pos 0;
        }
        ∷ record {
          offset = 200;
          size = 7;
          duration = 11;
          is_keyframe = false;
          composition_offset = pos 0;
        }
        ∷ [])
unfolding resolve_sample_offsets
three_samples_resolved = refl

-- A first chunk of zero makes the slice panic.
first_chunk_zero :
    resolve_sample_offsets (record three_samples { sample_to_chunk = (0, 2, 1) ∷ [] }) ≡ none
unfolding resolve_sample_offsets
first_chunk_zero = refl

-- Twelve bytes are enough to state any number of samples.
few_bytes_many_sizes : parse_stsz (be32 0 ++ (be32 9 ++ be32 5)) ≡ 9 ∷ 9 ∷ 9 ∷ 9 ∷ 9 ∷ []
unfolding parse_stsz
few_bytes_many_sizes = refl

resolve_sample_offsets-Describes_example :
    (es : List SampleEntry) × (resolve_sample_offsets three_samples ≡ some es)
    × Describes three_samples es
resolve_sample_offsets-Describes_example =
    resolve_sample_offsets-Describes three_samples three_samples-IsWellFormed

abbrev three_sizes : List ℕ
three_sizes = be32 0 ++ (be32 0 ++ (be32 3 ++ (be32 7 ++ be32 8)))

tables_fit_example :
    (length (parse_stts three_sizes) * 8 ≤ length three_sizes)
    × (length (parse_stsc three_sizes) * 12 ≤ length three_sizes)
    × (length (parse_stco three_sizes) * 4 ≤ length three_sizes)
    × (length (parse_co64 three_sizes) * 8 ≤ length three_sizes)
    × (length (parse_stss three_sizes) * 4 ≤ length three_sizes)
    × (length (parse_ctts three_sizes) * 8 ≤ length three_sizes)
    × ((length (parse_stsz three_sizes) * 4 ≤ length three_sizes)
        ⊎ ((read_be32 4 three_sizes ≢ 0)
            × (parse_stsz three_sizes
                ≡ replicate (read_be32 8 three_sizes) (read_be32 4 three_sizes))))
tables_fit_example = tables_fit three_sizes

abbrev two_words : List ℕ
two_words = 48 ∷ 4_000_000_000 ∷ []

abbrev two_shifts : List (ℕ × ℤ)
two_shifts = (1, negsuc 511) ∷ (2, pos 1024) ∷ []

tables_read_back_example :
    (parse_stts (table_box encode_pair 0 ((3, 1001) ∷ []) (7 ∷ [])) ≡ (3, 1001) ∷ [])
    × (parse_stsc (table_box encode_triple 0 ((1, 2, 1) ∷ []) (7 ∷ [])) ≡ (1, 2, 1) ∷ [])
    × (parse_stco (table_box be32 0 two_words (7 ∷ [])) ≡ two_words)
    × (parse_co64 (table_box be64 0 (5_000_000_000 ∷ []) (7 ∷ [])) ≡ 5_000_000_000 ∷ [])
    × (parse_stss (table_box be32 0 two_words (7 ∷ [])) ≡ two_words)
    × (parse_ctts (table_box encode_shift 0 two_shifts (7 ∷ [])) ≡ two_shifts)
tables_read_back_example =
    tables_read_back 0 (7 ∷ []) ((3, 1001) ∷ []) ((1, 2, 1) ∷ []) two_words (5_000_000_000 ∷ [])
      two_shifts (omega arith) (omega arith) (omega arith) (omega arith) (omega arith)
