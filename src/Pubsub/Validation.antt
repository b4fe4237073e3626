-- ===== src/Pubsub/Validation.antt =====
-- core/src/pubsub/validation.rs: the validators. Each holds its state, and validating gives the new
-- state with the answer; the two locks of a stream data validator are held one after the other. An
-- `Instant` is a number of milliseconds.
use open_broadcast_network.Prelude.{
  ℕ, ◌+◌, ◌-◌, ◌/◌, Bool, true, false, not, ◌&&◌, ◌||◌, Option, none, some, List, [], ◌∷◌, ◌++◌,
  length, any, add64, ltb, leb, nat_eq, ◌==◌, if◌then◌else◌,
}
use open_broadcast_network.Prelude.Bytes.{bytes_eq, starts_with, ends_with, decimal}
use open_broadcast_network.Prelude.Maps.{get, insert}
use open_broadcast_network.Media.Wire.{WireSegment, Bincode, is_compatible, media_type_enum}
use open_broadcast_network.Pubsub.Message.{Foreign, Message, is_expired, as_bytes, size}
pub mod Rates
pub mod Repeats
pub mod Composite
mod Tests

pub data ValidationResult : Type 0 where
  accept : ValidationResult
  reject : ValidationResult
  pending : ValidationResult
  ignore : ValidationResult

-- The trait: a validator with a state, from the clock, the message and its source.
pub record MessageValidator (Peer Json State : Type 0) : Type 0 where
  pub validate : ℕ → Message Json → Option Peer → State → State × ValidationResult
  pub async_validate : ℕ → Message Json → Option Peer → State → State × ValidationResult

pub record TopicValidationRules (Peer : Type 0) : Type 0 where
  pub max_message_size : Option ℕ
  pub allowed_publishers : List Peer
  pub validation_required : Bool

pub record BasicValidator (Peer : Type 0) : Type 0 where
  pub max_message_size : ℕ
  pub max_messages_per_second : ℕ
  pub topic_rules : List (List ℕ × TopicValidationRules Peer)

module _ {Peer : Type 0} where
  unfoldable pub new_basic : BasicValidator Peer
  new_basic = record {
    max_message_size = 1_048_576;
    max_messages_per_second = 100;
    topic_rules = [];
  }

  unfoldable pub with_max_message_size : ℕ → BasicValidator Peer → BasicValidator Peer
  with_max_message_size n v = record v { max_message_size = n }

  unfoldable pub with_max_messages_per_second : ℕ → BasicValidator Peer → BasicValidator Peer
  with_max_messages_per_second n v = record v { max_messages_per_second = n }

  unfoldable pub with_topic_rules :
      List ℕ → TopicValidationRules Peer → BasicValidator Peer → BasicValidator Peer
  with_topic_rules topic rules v = record v { topic_rules = insert topic rules v.topic_rules }

  unfoldable pub get_max_message_size : List ℕ → BasicValidator Peer → ℕ
  get_max_message_size topic v = elim (get topic v.topic_rules) [
    | none ↦ v.max_message_size
    | some rules ↦ elim rules.max_message_size [ none ↦ v.max_message_size | some n ↦ n ]
  ]

module _ {Peer Json : Type 0} (W : Foreign Peer Json) where
  unfoldable pub is_publisher_allowed : List ℕ → List ℕ → BasicValidator Peer → Bool
  is_publisher_allowed topic publisher v = elim (get topic v.topic_rules) [
    | none ↦ true
    | some rules ↦ elim rules.allowed_publishers [
      | [] ↦ true
      | ◌∷◌ p ps ↦ any (λ (q : Peer). W.to_string q == publisher) (p ∷ ps)
    ]
  ]

  unfoldable pub basic_validate : ℕ → Message Json → BasicValidator Peer → ValidationResult
  unfolding get_max_message_size is_publisher_allowed is_expired size
  basic_validate now m v =
      if ltb (get_max_message_size m.topic v) (size W m)
      then reject
      else (if is_expired now m then ignore else elim m.publisher [
        | none ↦ accept
        | some publisher ↦ if is_publisher_allowed m.topic publisher v then accept else reject
      ])

  unfoldable pub basic : MessageValidator Peer Json (BasicValidator Peer)
  unfolding basic_validate
  basic = record {
    validate = λ now m source v. (v, basic_validate now m v);
    async_validate = λ now m source v. (v, accept);
  }

pub record StreamDataValidator : Type 0 where
  pub max_messages_per_second : ℕ
  pub rate_tracker : List (List ℕ × (ℕ × ℕ))
  pub sequence_tracker : List (List ℕ × ℕ)

unfoldable pub new_stream_data : ℕ → StreamDataValidator
new_stream_data n = record { max_messages_per_second = n; rate_tracker = []; sequence_tracker = [] }

abbrev stream_prefix : List ℕ
stream_prefix = b's' ∷ b't' ∷ b'r' ∷ b'e' ∷ b'a' ∷ b'm' ∷ b'/' ∷ []

abbrev data_suffix : List ℕ
data_suffix = b'/' ∷ b'd' ∷ b'a' ∷ b't' ∷ b'a' ∷ []

unfoldable pub is_stream_data_topic : List ℕ → Bool
unfolding starts_with ends_with
is_stream_data_topic topic = starts_with topic stream_prefix && ends_with topic data_suffix

-- The count and the window's start after a message, and whether it is allowed.
unfoldable pub count_message : ℕ → ℕ → ℕ × ℕ → (ℕ × ℕ) × Bool
unfolding add64
count_message limit now (count, start) =
    if leb 1 ((now - start) / 1000)
    then ((1, now), true)
    else ((add64 count 1, start), leb (add64 count 1) limit)

-- `entry(source_id).or_insert((0, now))`
unfoldable pub rate_entry : List ℕ → ℕ → List (List ℕ × (ℕ × ℕ)) → ℕ × ℕ
rate_entry source_id now tracker = elim (get source_id tracker) [ none ↦ (0, now) | some e ↦ e ]

unfoldable pub check_rate_limit : List ℕ → ℕ → StreamDataValidator → StreamDataValidator × Bool
unfolding count_message rate_entry
check_rate_limit source_id now v =
    let (entry, allowed) =
      count_message v.max_messages_per_second now (rate_entry source_id now v.rate_tracker) in
    (record v { rate_tracker = insert source_id entry v.rate_tracker }, allowed)

-- Gaps and falling numbers are logged, and accepted.
unfoldable pub check_sequence :
    List ℕ → ℕ → StreamDataValidator → StreamDataValidator × ValidationResult
check_sequence stream_key sequence v =
    let taken : StreamDataValidator = record v {
      sequence_tracker = insert stream_key sequence v.sequence_tracker;
    } in
    elim (get stream_key v.sequence_tracker) [
      | none ↦ (taken, accept)
      | some last_seq ↦ if sequence == last_seq then (v, ignore) else (taken, accept)
    ]

module _ {Peer Json : Type 0} (W : Foreign Peer Json) (bincode : Bincode WireSegment) where
  -- The source's text, else the publisher's, else the empty text.
  unfoldable pub source_id : Message Json → Option Peer → List ℕ
  source_id m (some peer) = W.to_string peer
  source_id m none = elim m.publisher [ some p ↦ p | none ↦ [] ]

  unfoldable pub stream_key : WireSegment → List ℕ
  unfolding decimal
  stream_key w = W.hex w.stream_id ++ (b':' ∷ decimal w.track_id)

  unfoldable pub check_wire :
      WireSegment → StreamDataValidator → StreamDataValidator × ValidationResult
  unfolding is_compatible media_type_enum check_sequence stream_key
  check_wire w v = if not (is_compatible w) then (v, reject) else elim (media_type_enum w) [
    | none ↦ (v, reject)
    | some t ↦ check_sequence (stream_key w) w.sequence v
  ]

  unfoldable pub check_payload :
      Message Json → StreamDataValidator → StreamDataValidator × ValidationResult
  unfolding as_bytes check_wire
  check_payload m v = elim (bincode.deserialize (as_bytes W m.payload)) [
    | none ↦ (v, reject)
    | some w ↦ check_wire w v
  ]

  unfoldable pub check_rate : ℕ → List ℕ → StreamDataValidator → StreamDataValidator × Bool
  unfolding check_rate_limit
  check_rate now [] v = (v, true)
  check_rate now (b ∷ bs) v = check_rate_limit (b ∷ bs) now v

  unfoldable pub stream_validate :
      ℕ → Message Json → Option Peer → StreamDataValidator → StreamDataValidator × ValidationResult
  unfolding is_stream_data_topic source_id check_rate check_payload
  stream_validate now m source v =
      let (counted, allowed) = check_rate now (source_id m source) v in
      if not (is_stream_data_topic m.topic)
      then (v, accept)
      else (if allowed then check_payload m counted else (counted, reject))

  unfoldable pub stream_data : MessageValidator Peer Json StreamDataValidator
  unfolding stream_validate
  stream_data = record {
    validate = stream_validate;
    async_validate = λ now m source v. (v, accept);
  }

-- A validator of any kind: `Box<dyn MessageValidator>`.
pub record Boxed (Peer Json : Type 0) : Type 1 where
  pub State : Type 0
  pub methods : MessageValidator Peer Json State
  pub state : State

module _ {Peer Json : Type 0} where
  abbrev pub step :
      ℕ → Message Json → Option Peer → Boxed Peer Json → Boxed Peer Json × ValidationResult
  step now m source b =
      let (next, answer) = b.methods.validate now m source b.state in
      (record b { state = next }, answer)

  abbrev pub async_step :
      ℕ → Message Json → Option Peer → Boxed Peer Json → Boxed Peer Json × ValidationResult
  async_step now m source b =
      let (next, answer) = b.methods.async_validate now m source b.state in
      (record b { state = next }, answer)

  unfoldable pub add_validator : Boxed Peer Json → List (Boxed Peer Json) → List (Boxed Peer Json)
  add_validator b validators = validators ++ b ∷ []

  -- `CompositeValidator::validate`, with what was pending before.
  unfoldable pub composite_loop :
      ℕ
      → Message Json
      → Option Peer
      → Bool
      → List (Boxed Peer Json)
      → List (Boxed Peer Json) × ValidationResult
  composite_loop now m source waiting [] = ([], if waiting then pending else accept)
  composite_loop now m source waiting (b ∷ bs) =
      let (next, answer) = step now m source b in
      let pending_on = composite_loop now m source true bs in
      let onward = composite_loop now m source waiting bs in
      elim answer [
        | reject ↦ (next ∷ bs, reject)
        | pending ↦ (next ∷ pending_on.0, pending_on.1)
        | ignore ↦ (next ∷ bs, ignore)
        | accept ↦ (next ∷ onward.0, onward.1)
      ]

  unfoldable pub composite_validate :
      ℕ
      → Message Json
      → Option Peer
      → List (Boxed Peer Json)
      → List (Boxed Peer Json) × ValidationResult
  unfolding composite_loop
  composite_validate now m source validators = composite_loop now m source false validators

  -- `CompositeValidator::async_validate`: each validator validates again before its own part.
  unfoldable pub composite_async_validate :
      ℕ
      → Message Json
      → Option Peer
      → List (Boxed Peer Json)
      → List (Boxed Peer Json) × ValidationResult
  composite_async_validate now m source [] = ([], accept)
  composite_async_validate now m source (b ∷ bs) =
      let (next, answer) = step now m source b in
      let (done, async_answer) = async_step now m source next in
      let onward = composite_async_validate now m source bs in
      let after = (elim async_answer as (λ r. List (Boxed Peer Json) × ValidationResult) [
        | reject ↦ (done ∷ bs, reject)
        | ignore ↦ (done ∷ bs, ignore)
        | accept ↦ (done ∷ onward.0, onward.1)
        | pending ↦ (done ∷ onward.0, onward.1)
      ]) in
      elim answer [
        | reject ↦ (next ∷ bs, reject)
        | ignore ↦ (next ∷ bs, ignore)
        | accept ↦ after
        | pending ↦ after
      ]
