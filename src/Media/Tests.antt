-- ===== src/Media/Tests.antt =====
-- Runs of core/src/media/segment.rs and wire_format.rs on small inputs. The stand-in for bincode
-- writes the numbers of a segment and its three byte strings, the first two behind their lengths.
use open_broadcast_network.Prelude.{
  ℕ, ◌≡◌, refl, ap, sym, ◌∙◌, Bool, true, false, Option, none, some, List, [], ◌∷◌, ◌++◌, length,
  take, drop, arith, nat_beq, if◌then◌else◌,
}
use open_broadcast_network.Media.Segment.{video, audio, StreamSegment, new_builder}
use open_broadcast_network.Media.Wire.{
  WireSegment, Bincode, is_compatible, media_type_enum, segment_from_wire, compute_content_hash,
  verify_integrity, wire_from_segment, to_wire_bytes,
}
use open_broadcast_network.Media.RoundTrip.{to_wire_bytes_round_trip}
use open_broadcast_network.Media.Numbering.{
  want_video, want_audio, build_all, sequences, builder_numbers_tracks,
}

abbrev hash : List ℕ → List ℕ
hash bytes = bytes

abbrev segment : StreamSegment
segment = record {
  stream_id = record { bytes = 1 ∷ [] };
  sequence = 3;
  pts_us = 9;
  duration_us = 1;
  media_type = audio;
  data_bytes = 5 ∷ 6 ∷ [];
  is_keyframe = false;
  track_id = 2;
}

abbrev encode : WireSegment → Option (List ℕ)
encode w = some (
    w.version
    ∷ w.sequence
    ∷ w.pts_us
    ∷ w.duration_us
    ∷ w.media_type
    ∷ w.track_id
    ∷ (if w.is_keyframe then 1 else 0)
    ∷ length w.stream_id
    ∷ length w.content_hash
    ∷ (w.stream_id ++ (w.content_hash ++ w.data_bytes)))

abbrev decode : List ℕ → Option WireSegment
decode (v ∷ s ∷ p ∷ d ∷ m ∷ t ∷ k ∷ n ∷ h ∷ rest) = some (record {
  version = v;
  stream_id = take n rest;
  sequence = s;
  pts_us = p;
  duration_us = d;
  media_type = m;
  track_id = t;
  is_keyframe = nat_beq k 1;
  content_hash = take h (drop n rest);
  data_bytes = drop h (drop n rest);
})
decode _ = none

abbrev bincode : Bincode WireSegment
bincode = record { serialize = encode; deserialize = decode }

take-front : (xs ys : List ℕ) → take (length xs) (xs ++ ys) ≡ xs
take-front [] ys = refl
take-front (x ∷ xs) ys = ap (◌∷◌ x) (take-front xs ys)

drop-front : (xs ys : List ℕ) → drop (length xs) (xs ++ ys) ≡ ys
drop-front [] ys = refl
drop-front (x ∷ xs) ys = drop-front xs ys

flag-round_trip : (b : Bool) → nat_beq (if b then 1 else 0) 1 ≡ b
flag-round_trip true = refl
flag-round_trip false = refl

abbrev decode_sent : Option (List ℕ) → Option WireSegment
decode_sent none = none
decode_sent (some b) = decode b

same_fields :
    (w : WireSegment) (s h d : List ℕ) (k : Bool)
    → s ≡ w.stream_id
    → h ≡ w.content_hash
    → d ≡ w.data_bytes
    → k ≡ w.is_keyframe
    → some (record w { stream_id = s; content_hash = h; data_bytes = d; is_keyframe = k }) ≡ some w
same_fields w s h d k a b c e = rw (a, b, c, e) refl

decode_of_encoded : (w : WireSegment) → decode_sent (encode w) ≡ some w
decode_of_encoded w =
    let rest = w.content_hash ++ w.data_bytes in
    let all = w.stream_id ++ rest in
    let tail = drop-front w.stream_id rest in
    same_fields w (take (length w.stream_id) all)
      (take (length w.content_hash) (drop (length w.stream_id) all))
      (drop (length w.content_hash) (drop (length w.stream_id) all))
      (nat_beq (if w.is_keyframe then 1 else 0) 1) (take-front w.stream_id rest)
      (ap (take (length w.content_hash)) tail ∙ take-front w.content_hash w.data_bytes)
      (ap (drop (length w.content_hash)) tail ∙ drop-front w.content_hash w.data_bytes)
      (flag-round_trip w.is_keyframe)

decode_of_encode : (w : WireSegment) (b : List ℕ) → encode w ≡ some b → decode b ≡ some w
decode_of_encode w b sent = ap decode_sent (sym sent) ∙ decode_of_encoded w

to_wire_bytes_round_trip_example :
    (w : WireSegment) × (decode (2 ∷ 3 ∷ 9 ∷ 1 ∷ 1 ∷ 2 ∷ 0 ∷ 1 ∷ 2 ∷ 1 ∷ 5 ∷ 6 ∷ 5 ∷ 6 ∷ [])
      ≡ some w)
    × (is_compatible w ≡ true)
    × (media_type_enum w ≡ some audio)
    × (verify_integrity hash w ≡ true)
    × (segment_from_wire w ≡ segment)
unfolding to_wire_bytes wire_from_segment compute_content_hash
to_wire_bytes_round_trip_example =
    to_wire_bytes_round_trip hash bincode decode_of_encode segment
      (2 ∷ 3 ∷ 9 ∷ 1 ∷ 1 ∷ 2 ∷ 0 ∷ 1 ∷ 2 ∷ 1 ∷ 5 ∷ 6 ∷ 5 ∷ 6 ∷ []) refl

builder_numbers_tracks_example :
    (sequences video
        (build_all
          (want_video 0 1 [] true ∷ want_audio 0 1 [] ∷ want_video 1 1 [] false ∷ [])
          (new_builder (record { bytes = [] }))).0
      ≡ 0 ∷ 1 ∷ [])
    × (sequences audio
          (build_all
            (want_video 0 1 [] true ∷ want_audio 0 1 [] ∷ want_video 1 1 [] false ∷ [])
            (new_builder (record { bytes = [] }))).0
        ≡ 0 ∷ [])
builder_numbers_tracks_example =
    builder_numbers_tracks (record { bytes = [] })
      (want_video 0 1 [] true ∷ want_audio 0 1 [] ∷ want_video 1 1 [] false ∷ []) (omega arith)
      (omega arith)
