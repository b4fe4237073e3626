-- ===== src/Pubsub/Validation/Tests.antt =====
-- core/src/pubsub: tests, and the theorems on small inputs. Here the foreign functions are the
-- simplest that fit: a peer is its text, and a payload of one byte is a segment with that number.
use open_broadcast_network.Prelude.{
  ℕ, ◌+◌, ◌≤◌, ◌≡◌, refl, ◌⊎◌, min, max, true, false, Option, some, none, List, [], ◌∷◌, arith,
}
use open_broadcast_network.Prelude.Bytes.{decimal}
use open_broadcast_network.Prelude.Maps.{get, insert}
use open_broadcast_network.Media.Wire.{WireSegment, Bincode}
use open_broadcast_network.Pubsub.Message.{
  Foreign, Message, data_message, binary_payload, is_expired, with_ttl,
}
use open_broadcast_network.Pubsub.Validation.{
  accept, reject, ignore, StreamDataValidator, new_stream_data, is_stream_data_topic, basic,
  check_rate_limit, BasicValidator, new_basic, stream_data, stream_validate, Boxed,
  composite_validate,
}
use open_broadcast_network.Pubsub.Validation.Rates.{
  Call, Room, calls_of, allowed_of, new_source_limit, any_second_limit,
}
use open_broadcast_network.Pubsub.Validation.Repeats.{
  IsTaken, stream_validate-IsTaken, repeat_is_refused,
}
use open_broadcast_network.Pubsub.Validation.Composite.{
  answers, seen_by, verdict, composite_validate-verdict,
}

abbrev plain_foreign : Foreign (List ℕ) (List ℕ)
plain_foreign = record { to_string = λ p. p; json_text = λ j. j; hash = λ b. b; hex = λ b. b }

abbrev segment_of : ℕ → WireSegment
segment_of n = record {
  version = 2;
  stream_id = 5 ∷ [];
  sequence = n;
  pts_us = 0;
  duration_us = 0;
  media_type = 0;
  track_id = 1;
  is_keyframe = true;
  content_hash = [];
  data_bytes = [];
}

abbrev read_segment : List ℕ → Option WireSegment
read_segment [] = none
read_segment (n ∷ ns) = some (segment_of n)

abbrev byte_code : Bincode WireSegment
byte_code = record { serialize = λ w. some (w.sequence ∷ []); deserialize = read_segment }

abbrev topic : List ℕ
topic =
    b's' ∷ b't' ∷ b'r' ∷ b'e' ∷ b'a' ∷ b'm' ∷ b'/' ∷ b'1' ∷ b'/' ∷ b'd' ∷ b'a' ∷ b't' ∷ b'a' ∷ []

abbrev seventh : Message (List ℕ)
seventh = record {
  id = [];
  topic = topic;
  publisher = none;
  message_type = data_message;
  payload = binary_payload (7 ∷ []);
  sequence = none;
  timestamp = 0;
  ttl = 0;
  headers = [];
}

abbrev alice : List ℕ
alice = b'a' ∷ []

abbrev taken_once : StreamDataValidator
taken_once = record {
  max_messages_per_second = 2;
  rate_tracker = (alice, (1, 10)) ∷ [];
  sequence_tracker = (5 ∷ b':' ∷ b'1' ∷ [], 7) ∷ [];
}

decimal_u32 :
    decimal 4_294_967_295 ≡ b'4' ∷ b'2' ∷ b'9' ∷ b'4' ∷ b'9' ∷ b'6' ∷ b'7' ∷ b'2' ∷ b'9' ∷ b'5' ∷ []
unfolding decimal
decimal_u32 = refl

-- The sum of the timestamp and a large ttl wraps: the message has expired at once.
endless_message_expires :
    is_expired 1000 (with_ttl 18_446_744_073_709_551_615 (record seventh { timestamp = 1000 }))
    ≡ true
unfolding is_expired with_ttl
endless_message_expires = refl

seventh_is_data : is_stream_data_topic seventh.topic ≡ true
unfolding is_stream_data_topic
seventh_is_data = refl

taken_once-Room : Room alice 4 taken_once
unfolding get
taken_once-Room e h = ground (arith, h)

first_accepted :
    stream_validate plain_foreign byte_code 10 seventh (some alice) (new_stream_data 2)
    ≡ (taken_once, accept)
unfolding stream_validate new_stream_data get insert
first_accepted = refl

third_call_refused :
    allowed_of alice ((alice, 10) ∷ (alice, 20) ∷ (alice, 30) ∷ []) (new_stream_data 2) ≡ 2
unfolding allowed_of new_stream_data check_rate_limit get insert
third_call_refused = refl

abbrev three_calls : List Call
three_calls = (alice, 10) ∷ ([], 15) ∷ (alice, 20) ∷ (alice, 900) ∷ []

new_source_limit_example :
    allowed_of alice three_calls (new_stream_data 2)
    ≡ min (calls_of alice three_calls) (new_stream_data 2).max_messages_per_second
unfolding new_stream_data get
new_source_limit_example =
    new_source_limit alice 10 three_calls (new_stream_data 2) refl (omega arith) (omega arith)

any_second_limit_example : allowed_of alice three_calls taken_once ≤ 2 + max 1 2
any_second_limit_example =
    any_second_limit alice 10 three_calls taken_once (omega arith) (omega arith) taken_once-Room

stream_validate-IsTaken_example :
    IsTaken plain_foreign byte_code seventh (new_stream_data 2) taken_once
stream_validate-IsTaken_example =
    stream_validate-IsTaken plain_foreign byte_code 10 seventh (some alice) (new_stream_data 2)
      seventh_is_data taken_once first_accepted

repeat_is_refused_example :
    ((stream_validate plain_foreign byte_code 500 seventh none taken_once).1 ≡ reject)
    ⊎ ((stream_validate plain_foreign byte_code 500 seventh none taken_once).1 ≡ ignore)
repeat_is_refused_example =
    repeat_is_refused plain_foreign byte_code 500 seventh none taken_once seventh_is_data seventh
      (new_stream_data 2) refl stream_validate-IsTaken_example

abbrev two_validators : List (Boxed (List ℕ) (List ℕ))
two_validators =
    record { State = BasicValidator (List ℕ); methods = basic plain_foreign; state = new_basic }
    ∷ record {
      State = StreamDataValidator;
      methods = stream_data plain_foreign byte_code;
      state = taken_once;
    }
    ∷ []

composite_validate-verdict_example : composite_validate 10 seventh (some alice) two_validators ≡ (
  seen_by 10 seventh (some alice) two_validators (answers 10 seventh (some alice) two_validators),
  verdict 10 seventh (some alice) false (answers 10 seventh (some alice) two_validators),
)
composite_validate-verdict_example =
    composite_validate-verdict 10 seventh (some alice) two_validators
