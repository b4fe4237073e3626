-- ===== src/Media/Mp4/Bounds.antt =====
-- core/src/media/mp4_parser.rs: the sample table boxes, bounded by their bytes.
use open_broadcast_network.Prelude.{
  ℕ, zero, suc, ◌+◌, ◌*◌, ◌≤◌, ◌≡◌, ◌≢◌, ◌⊎◌, refl, inl, inr, true, false, List, [], ◌∷◌, length,
  ltb, Bool-cases, arith, ltb_false→le, nat_beq, if◌then◌else◌,
}
use open_broadcast_network.Prelude.Bytes.{read_be32}
use open_broadcast_network.Media.Mp4.Tables.{
  entries, counted, replicate, parse_stsz, decode_pair, parse_stts, decode_triple, parse_stsc,
  parse_stco, read_be64, parse_co64, parse_stss, decode_shift, parse_ctts,
}

suc_mul : (n w : ℕ) → suc n * w ≡ w + n * w
suc_mul n w = grind arith

module _ {ℓ} {A : Type ℓ} (w : ℕ) (decode : ℕ → List ℕ → A) (count o : ℕ) (bytes : List ℕ) where
  entries_short : ltb (length bytes) (o + w) ≡ true → entries w decode (suc count) o bytes ≡ []
  unfolding entries
  entries_short h = rw (h, entries) refl

  entries_more :
      ltb (length bytes) (o + w) ≡ false
      → entries w decode (suc count) o bytes ≡ decode o bytes ∷ entries w decode count (o + w) bytes
  unfolding entries
  entries_more h = rw (h, entries) refl

-- The entries lie in the box.
entries-fit {ℓ} :
    {A : Type ℓ} (w : ℕ) (decode : ℕ → List ℕ → A) (count o : ℕ) (bytes : List ℕ)
    → o ≤ length bytes
    → o + length (entries w decode count o bytes) * w ≤ length bytes
entries-fit w decode zero o bytes h = unfold entries in omega arith
entries-fit w decode (suc count) o bytes h = elim (Bool-cases (ltb (length bytes) (o + w))) [
  | inl short ↦ rw (entries_short w decode count o bytes short) (omega arith)
  | inr room ↦
      let ih =
        entries-fit w decode count (o + w) bytes (ltb_false→le (length bytes) (o + w) room) in
      rw (entries_more w decode count o bytes room)
        (omega (arith, ih, suc_mul (length (entries w decode count (o + w) bytes)) w))
]

counted-fit {ℓ} :
    {A : Type ℓ} (w : ℕ) (decode : ℕ → List ℕ → A) (bytes : List ℕ)
    → length (counted w decode bytes) * w ≤ length bytes
unfolding counted
counted-fit w decode bytes = elim (Bool-cases (ltb (length bytes) 8)) [
  | inl short ↦ rw (short, counted) (omega arith)
  | inr room ↦
      rw (room, counted)
        (omega (
          arith,
          entries-fit w decode (read_be32 4 bytes) 8 bytes (ltb_false→le (length bytes) 8 room),
        ))
]

-- `parse_stsz`, with the default size as an argument.
unfoldable stsz_by : ℕ → List ℕ → List ℕ
stsz_by size bytes =
    if ltb (length bytes) 12
    then []
    else (if nat_beq size 0
        then entries 4 read_be32 (read_be32 8 bytes) 12 bytes
        else replicate (read_be32 8 bytes) size)

parse_stsz_lem : (bytes : List ℕ) → parse_stsz bytes ≡ stsz_by (read_be32 4 bytes) bytes
unfolding parse_stsz stsz_by
parse_stsz_lem bytes = refl

-- A default size of zero, a box that is too short, and a default size.
stsz_by-fit :
    (size : ℕ) (bytes : List ℕ)
    → (length (stsz_by size bytes) * 4 ≤ length bytes)
      ⊎ ((size ≢ 0) × (stsz_by size bytes ≡ replicate (read_be32 8 bytes) size))
unfolding stsz_by
stsz_by-fit size bytes =
    let fit = entries-fit 4 read_be32 (read_be32 8 bytes) 12 bytes in
    elim (Bool-cases (ltb (length bytes) 12)) [
      | inl short ↦ inl (rw (short, stsz_by) (omega arith))
      | inr room ↦ elim (Bool-cases (nat_beq size 0)) [
        | inl none_default ↦ inl (
            rw (room, none_default, stsz_by)
              (omega (arith, fit (ltb_false→le (length bytes) 12 room))))
        | inr default ↦ inr (ground arith, rw (room, default, stsz_by) refl)
      ]
    ]

-- The boxes of a sample table hold no more entries than their bytes have room for, whatever counts
-- they state: eight bytes an entry for stts, co64 and ctts, twelve for stsc, four for stco and stss,
-- and four for stsz, unless that has a default size, which it then holds as often as it states.
pub tables_fit :
    (bytes : List ℕ)
    → (length (parse_stts bytes) * 8 ≤ length bytes)
      × (length (parse_stsc bytes) * 12 ≤ length bytes)
      × (length (parse_stco bytes) * 4 ≤ length bytes)
      × (length (parse_co64 bytes) * 8 ≤ length bytes)
      × (length (parse_stss bytes) * 4 ≤ length bytes)
      × (length (parse_ctts bytes) * 8 ≤ length bytes)
      × ((length (parse_stsz bytes) * 4 ≤ length bytes)
          ⊎ ((read_be32 4 bytes ≢ 0)
              × (parse_stsz bytes ≡ replicate (read_be32 8 bytes) (read_be32 4 bytes))))
unfolding parse_stts parse_stsc parse_stco parse_co64 parse_stss parse_ctts
tables_fit bytes = (
  counted-fit 8 decode_pair bytes,
  counted-fit 12 decode_triple bytes,
  counted-fit 4 read_be32 bytes,
  counted-fit 8 read_be64 bytes,
  counted-fit 4 read_be32 bytes,
  counted-fit 8 decode_shift bytes,
  (rw (parse_stsz_lem bytes) (stsz_by-fit (read_be32 4 bytes) bytes)),
)
