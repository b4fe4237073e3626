-- ===== src/Media/Mp4/Tables.antt =====
-- core/src/media/mp4_parser.rs: the sample table boxes. A loop over the entries of a box ends where
-- the box is too short for the next entry; all six loops are `entries`, with the width of an entry
-- and how it is read.
use open_broadcast_network.Prelude.{
  ℕ, zero, suc, ◌+◌, ◌*◌, true, false, List, [], ◌∷◌, length, ltb, nat_beq, if◌then◌else◌,
}
use open_broadcast_network.Prelude.Bytes.{read_be32}
use open_broadcast_network.Media.Mp4.{ℤ, to_i32}

unfoldable pub entries {ℓ} : {A : Type ℓ} → ℕ → (ℕ → List ℕ → A) → ℕ → ℕ → List ℕ → List A
entries width decode zero offset bytes = []
entries width decode (suc count) offset bytes = elim (ltb (length bytes) (offset + width)) [
  | true ↦ []
  | false ↦ decode offset bytes ∷ entries width decode count (offset + width) bytes
]

-- `vec![value; count]`
abbrev pub replicate {ℓ} : {A : Type ℓ} → ℕ → A → List A
replicate zero value = []
replicate (suc count) value = value ∷ replicate count value

unfoldable pub parse_stsz : List ℕ → List ℕ
unfolding entries read_be32
parse_stsz bytes =
    if ltb (length bytes) 12
    then []
    else (if nat_beq (read_be32 4 bytes) 0
        then entries 4 read_be32 (read_be32 8 bytes) 12 bytes
        else replicate (read_be32 8 bytes) (read_be32 4 bytes))

-- A box of version, flags, an entry count and the entries.
unfoldable pub counted {ℓ} : {A : Type ℓ} → ℕ → (ℕ → List ℕ → A) → List ℕ → List A
unfolding entries read_be32
counted width decode bytes =
    if ltb (length bytes) 8 then [] else entries width decode (read_be32 4 bytes) 8 bytes

unfoldable pub decode_pair : ℕ → List ℕ → ℕ × ℕ
unfolding read_be32
decode_pair o bytes = (read_be32 o bytes, read_be32 (o + 4) bytes)

unfoldable pub parse_stts : List ℕ → List (ℕ × ℕ)
unfolding counted decode_pair
parse_stts bytes = counted 8 decode_pair bytes

unfoldable pub decode_triple : ℕ → List ℕ → ℕ × ℕ × ℕ
unfolding read_be32
decode_triple o bytes = (read_be32 o bytes, read_be32 (o + 4) bytes, read_be32 (o + 8) bytes)

unfoldable pub parse_stsc : List ℕ → List (ℕ × ℕ × ℕ)
unfolding counted decode_triple
parse_stsc bytes = counted 12 decode_triple bytes

unfoldable pub parse_stco : List ℕ → List ℕ
unfolding counted
parse_stco bytes = counted 4 read_be32 bytes

-- `u64::from_be_bytes`
unfoldable pub read_be64 : ℕ → List ℕ → ℕ
unfolding read_be32
read_be64 o bytes = read_be32 o bytes * 4_294_967_296 + read_be32 (o + 4) bytes

unfoldable pub parse_co64 : List ℕ → List ℕ
unfolding counted read_be64
parse_co64 bytes = counted 8 read_be64 bytes

unfoldable pub parse_stss : List ℕ → List ℕ
unfolding counted
parse_stss bytes = counted 4 read_be32 bytes

unfoldable pub decode_shift : ℕ → List ℕ → ℕ × ℤ
unfolding read_be32 to_i32
decode_shift o bytes = (read_be32 o bytes, to_i32 (read_be32 (o + 4) bytes))

unfoldable pub parse_ctts : List ℕ → List (ℕ × ℤ)
unfolding counted decode_shift
parse_ctts bytes = counted 8 decode_shift bytes
