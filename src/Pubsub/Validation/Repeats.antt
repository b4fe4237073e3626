-- ===== src/Pubsub/Validation/Repeats.antt =====
-- core/src/pubsub/validation.rs: what a stream data validator accepts.
use mathlib.Core.Path.{subst}
use open_broadcast_network.Prelude.{
  ℕ, ◌≡◌, ◌≢◌, refl, ◌∙◌, ap, sym, ◌⊎◌, inl, inr, true, false, Option, some, none, List, [], ◌∷◌,
  ◌==◌, nat_eq, Bool-cases, Option-cases, arith, beq_refl,
}
use open_broadcast_network.Prelude.Bytes.{bytes_eq}
use open_broadcast_network.Prelude.Maps.{get, insert, get-insert}
use open_broadcast_network.Media.Segment.{MediaType}
use open_broadcast_network.Media.Wire.{WireSegment, Bincode, is_compatible, media_type_enum}
use open_broadcast_network.Pubsub.Message.{Foreign, Message, as_bytes}
use open_broadcast_network.Pubsub.Validation.{
  ValidationResult, accept, reject, ignore, StreamDataValidator, is_stream_data_topic,
  check_rate_limit, check_sequence, source_id, stream_key, check_wire, check_payload, check_rate,
  stream_validate,
}

abbrev taken : List ℕ → ℕ → StreamDataValidator → StreamDataValidator
taken key n v = record v { sequence_tracker = insert key n v.sequence_tracker }

get-taken :
    (key : List ℕ) (n : ℕ) (v : StreamDataValidator)
    → get key (taken key n v).sequence_tracker ≡ some n
get-taken key n v = get-insert key key n v.sequence_tracker ∙ (rw (beq_refl key) refl)

check_sequence_again :
    (key : List ℕ) (n : ℕ) (v : StreamDataValidator)
    → get key v.sequence_tracker ≡ some n
    → check_sequence key n v ≡ (v, ignore)
unfolding check_sequence
check_sequence_again key n v h = rw (h, check_sequence, beq_refl n) refl

check_sequence_first :
    (key : List ℕ) (n : ℕ) (v : StreamDataValidator)
    → get key v.sequence_tracker ≡ none
    → check_sequence key n v ≡ (taken key n v, accept)
unfolding check_sequence
check_sequence_first key n v h = rw (h, check_sequence) refl

check_sequence_next :
    (key : List ℕ) (n last : ℕ) (v : StreamDataValidator)
    → get key v.sequence_tracker ≡ some last
    → (n == last) ≡ false
    → check_sequence key n v ≡ (taken key n v, accept)
unfolding check_sequence
check_sequence_next key n last v h other = rw (h, check_sequence, other) refl

accept_ignore : accept ≢ ignore
accept_ignore h = cc

differs : (n last : ℕ) → (n == last) ≡ false → some n ≢ some last
differs n last other h = ground (arith)

-- A number that is accepted is not the last one of its track, and becomes the last one.
check_sequence_accepts :
    (key : List ℕ) (n : ℕ) (v next : StreamDataValidator)
    → check_sequence key n v ≡ (next, accept)
    → (get key v.sequence_tracker ≢ some n) × (get key next.sequence_tracker ≡ some n)
check_sequence_accepts key n v next h = elim (Option-cases (get key v.sequence_tracker)) [
  | inl nothing ↦
      let same : taken key n v ≡ next =
        ap (λ (r : StreamDataValidator × ValidationResult). r.0)
          (sym (check_sequence_first key n v nothing) ∙ h) in
      (
        (λ p. cc),
        ap (λ (u : StreamDataValidator). get key u.sequence_tracker) (sym same) ∙ get-taken key n v,
      )
  | inr (last, found) ↦ elim (Bool-cases (n == last)) [
    | inl equal ↦
        let path : n ≡ last = ground arith in
        let ignored = check_sequence_again key n v (found ∙ ap some (sym path)) in
        absurd (
          accept_ignore
            (ap (λ (r : StreamDataValidator × ValidationResult). r.1) (sym h ∙ ignored)))
    | inr other ↦
        let same : taken key n v ≡ next =
          ap (λ (r : StreamDataValidator × ValidationResult). r.0)
            (sym (check_sequence_next key n last v found other) ∙ h) in
        (
          (λ p. differs n last other (sym p ∙ found)),
          ap (λ (u : StreamDataValidator). get key u.sequence_tracker) (sym same)
              ∙ get-taken key n v,
        )
  ]
]

module _ {Peer Json : Type 0} (W : Foreign Peer Json) (bincode : Bincode WireSegment) where
  -- What an accepted message of a stream is: a compatible wire segment of a known media type, whose
  -- number is not the last one of its track before and is the last one after.
  pub record IsTaken (m : Message Json) (before after : StreamDataValidator) : Type 0 where
    pub wire : WireSegment
    pub media_type : MediaType
    pub read : bincode.deserialize (as_bytes W m.payload) ≡ some wire
    pub compatible : is_compatible wire ≡ true
    pub known : media_type_enum wire ≡ some media_type
    pub new_number : get (stream_key W bincode wire) before.sequence_tracker ≢ some wire.sequence
    pub last_number : get (stream_key W bincode wire) after.sequence_tracker ≡ some wire.sequence

  check_payload_read :
      (m : Message Json) (v : StreamDataValidator) (w : WireSegment)
      → bincode.deserialize (as_bytes W m.payload) ≡ some w
      → check_payload W bincode m v ≡ check_wire W bincode w v
  unfolding check_payload
  check_payload_read m v w h = rw (h, check_payload) refl

  check_wire_known :
      (w : WireSegment) (v : StreamDataValidator) (t : MediaType)
      → is_compatible w ≡ true
      → media_type_enum w ≡ some t
      → check_wire W bincode w v ≡ check_sequence (stream_key W bincode w) w.sequence v
  unfolding check_wire
  check_wire_known w v t h k = rw (h, k, check_wire) refl

  check_payload_unread :
      (m : Message Json) (v : StreamDataValidator)
      → bincode.deserialize (as_bytes W m.payload) ≡ none
      → check_payload W bincode m v ≡ (v, reject)
  unfolding check_payload
  check_payload_unread m v h = rw (h, check_payload) refl

  check_wire_incompatible :
      (w : WireSegment) (v : StreamDataValidator)
      → is_compatible w ≡ false
      → check_wire W bincode w v ≡ (v, reject)
  unfolding check_wire
  check_wire_incompatible w v h = rw (h, check_wire) refl

  check_wire_unknown :
      (w : WireSegment) (v : StreamDataValidator)
      → is_compatible w ≡ true
      → media_type_enum w ≡ none
      → check_wire W bincode w v ≡ (v, reject)
  unfolding check_wire
  check_wire_unknown w v h k = rw (h, k, check_wire) refl

  rejected :
      {u next : StreamDataValidator} {r : StreamDataValidator × ValidationResult}
      → r ≡ (u, reject)
      → r ≢ (next, accept)
  rejected {u} {next} h k =
      reject_accept (ap (λ (p : StreamDataValidator × ValidationResult). p.1) (sym h ∙ k))
    where
      reject_accept : reject ≢ accept
      reject_accept e = cc

  check_payload-IsTaken :
      (m : Message Json) (v next : StreamDataValidator)
      → check_payload W bincode m v ≡ (next, accept)
      → IsTaken m v next
  check_payload-IsTaken m v next h =
      elim (Option-cases (bincode.deserialize (as_bytes W m.payload))) [
        | inl unread ↦ absurd (rejected (check_payload_unread m v unread) h)
        | inr (w, read) ↦ elim (Bool-cases (is_compatible w)) [
          | inr older ↦
              absurd
                (rejected (check_payload_read m v w read ∙ check_wire_incompatible w v older) h)
          | inl fits ↦ elim (Option-cases (media_type_enum w)) [
            | inl unknown ↦
                absurd
                  (rejected (check_payload_read m v w read ∙ check_wire_unknown w v fits unknown) h)
            | inr (t, known) ↦
                let (new, last) =
                  check_sequence_accepts (stream_key W bincode w) w.sequence v next
                    (sym (check_payload_read m v w read ∙ check_wire_known w v t fits known) ∙ h) in
                record {
                  wire = w;
                  media_type = t;
                  read = read;
                  compatible = fits;
                  known = known;
                  new_number = new;
                  last_number = last;
                }
          ]
        ]
      ]

  check_rate_keeps :
      (now : ℕ) (s : List ℕ) (v : StreamDataValidator)
      → (check_rate W bincode now s v).0.sequence_tracker ≡ v.sequence_tracker
  unfolding check_rate check_rate_limit
  check_rate_keeps now [] v = refl
  check_rate_keeps now (b ∷ bs) v = refl

  module _ (now : ℕ) (m : Message Json) (source : Option Peer) (v : StreamDataValidator)
      (is_data : is_stream_data_topic m.topic ≡ true) where
    abbrev counted : StreamDataValidator
    counted = (check_rate W bincode now (source_id W bincode m source) v).0

    stream_validate_allowed :
        (check_rate W bincode now (source_id W bincode m source) v).1 ≡ true
        → stream_validate W bincode now m source v ≡ check_payload W bincode m counted
    unfolding stream_validate
    stream_validate_allowed h = rw (is_data, h, stream_validate) refl

    stream_validate_refused :
        (check_rate W bincode now (source_id W bincode m source) v).1 ≡ false
        → stream_validate W bincode now m source v ≡ (counted, reject)
    unfolding stream_validate
    stream_validate_refused h = rw (is_data, h, stream_validate) refl

    -- A stream data validator accepts a message on a topic of stream data only where the payload
    -- is a wire segment of a version and a media type that are known, and whose number is not the
    -- last one of its track; and then it is the last one.
    pub stream_validate-IsTaken :
        (next : StreamDataValidator)
        → stream_validate W bincode now m source v ≡ (next, accept)
        → IsTaken m v next
    stream_validate-IsTaken next h =
        elim (Bool-cases (check_rate W bincode now (source_id W bincode m source) v).1) [
          | inr over ↦ absurd (rejected (stream_validate_refused over) h)
          | inl allowed ↦
              let there =
                check_payload-IsTaken m counted next (sym (stream_validate_allowed allowed) ∙ h) in
              let same = check_rate_keeps now (source_id W bincode m source) v in
              record {
                wire = there.wire;
                media_type = there.media_type;
                read = there.read;
                compatible = there.compatible;
                known = there.known;
                last_number = there.last_number;
                new_number =
                    subst
                      (λ (t : List (List ℕ × ℕ)).
                        get (stream_key W bincode there.wire) t ≢ some there.wire.sequence)
                      same there.new_number;
              }
        ]

    -- A message on a topic of stream data whose payload is that of the message that the validator
    -- took last on its track is rejected or ignored, whoever sends it and when.
    pub repeat_is_refused :
        (m' : Message Json) (before : StreamDataValidator)
        → as_bytes W m.payload ≡ as_bytes W m'.payload
        → IsTaken m' before v
        → ((stream_validate W bincode now m source v).1 ≡ reject)
          ⊎ ((stream_validate W bincode now m source v).1 ≡ ignore)
    repeat_is_refused m' before same accepted =
        elim (Bool-cases (check_rate W bincode now (source_id W bincode m source) v).1) [
          | inr over ↦ inl (
              ap (λ (p : StreamDataValidator × ValidationResult). p.1)
                (stream_validate_refused over))
          | inl allowed ↦
              let w = accepted.wire in
              let tracked =
                ap (get (stream_key W bincode w))
                  (check_rate_keeps now (source_id W bincode m source) v)
                ∙ accepted.last_number in
              inr (
                ap (λ (p : StreamDataValidator × ValidationResult). p.1)
                  (stream_validate_allowed allowed
                    ∙ check_payload_read m counted w (ap bincode.deserialize same ∙ accepted.read)
                    ∙ check_wire_known w counted accepted.media_type accepted.compatible
                        accepted.known
                    ∙ check_sequence_again (stream_key W bincode w) w.sequence counted tracked))
        ]
