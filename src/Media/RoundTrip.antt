-- ===== src/Media/RoundTrip.antt =====
-- core/src/media/wire_format.rs: what a receiver reads is what was sent.
use open_broadcast_network.Prelude.{ℕ, ◌≡◌, refl, true, some, List, nat_eq, list_beq_iff}
use open_broadcast_network.Media.Segment.{
  MediaType, video, audio, metadata, initialization, to_u8, from_u8, from_vec, to_vec,
  StreamSegment,
}
use open_broadcast_network.Media.Wire.{
  WireSegment, Bincode, is_compatible, media_type_enum, segment_from_wire, compute_content_hash,
  verify_integrity, wire_from_segment, to_wire_bytes,
}

from_u8-to_u8 : (t : MediaType) → from_u8 (to_u8 t) ≡ some t
unfolding from_u8 to_u8
from_u8-to_u8 video = refl
from_u8-to_u8 audio = refl
from_u8-to_u8 metadata = refl
from_u8-to_u8 initialization = refl

module _ (blake3 : List ℕ → List ℕ) where
  segment_of_wire_of_segment :
      (s : StreamSegment) → segment_from_wire (wire_from_segment blake3 s) ≡ s
  unfolding segment_from_wire wire_from_segment from_vec to_vec
  segment_of_wire_of_segment s = rw (from_u8-to_u8 s.media_type) refl

  made_segment_verifies :
      (s : StreamSegment) → verify_integrity blake3 (wire_from_segment blake3 s) ≡ true
  unfolding verify_integrity wire_from_segment
  made_segment_verifies s =
      (list_beq_iff (compute_content_hash blake3 s.data_bytes)
          (compute_content_hash blake3 s.data_bytes)).1
        refl

  -- Where bincode reads back what it wrote, the bytes that a segment is sent as are read as a wire
  -- segment that has a version the receiver accepts, the segment's media type and a content hash
  -- that verifies, and that converts to the segment itself.
  pub to_wire_bytes_round_trip :
      (bincode : Bincode WireSegment)
      → ((w : WireSegment) (b : List ℕ)
          → bincode.serialize w ≡ some b
          → bincode.deserialize b ≡ some w)
      → (s : StreamSegment) (bytes : List ℕ) → to_wire_bytes blake3 bincode s ≡ some bytes
      → (w : WireSegment) × (bincode.deserialize bytes ≡ some w)
        × (is_compatible w ≡ true)
        × (media_type_enum w ≡ some s.media_type)
        × (verify_integrity blake3 w ≡ true)
        × (segment_from_wire w ≡ s)
  unfolding to_wire_bytes
  to_wire_bytes_round_trip bincode reads s bytes sent = (
    wire_from_segment blake3 s,
    reads (wire_from_segment blake3 s) bytes sent,
    (unfold is_compatible wire_from_segment in refl),
    (unfold media_type_enum wire_from_segment in from_u8-to_u8 s.media_type),
    made_segment_verifies s,
    segment_of_wire_of_segment s,
  )
