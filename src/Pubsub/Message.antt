-- ===== src/Pubsub/Message.antt =====
-- core/src/pubsub/message.rs and topic.rs: messages. A text is its UTF-8 bytes. What other crates
-- compute is in `Foreign`: the text of a peer id and of a JSON value, the first sixteen bytes of the
-- blake3 hash of what is fed to it, and hex::encode. The clock's reading is an argument, in
-- milliseconds since the epoch.
use open_broadcast_network.Prelude.{
  ℕ, Bool, false, Option, none, some, List, [], ◌∷◌, ◌++◌, length, add64, ltb, if◌then◌else◌,
  nat_eq, ◌==◌,
}
use open_broadcast_network.Prelude.Bytes.{be64, bytes_eq}
use open_broadcast_network.Prelude.Maps.{insert}

pub record Foreign (Peer Json : Type 0) : Type 0 where
  pub to_string : Peer → List ℕ
  pub json_text : Json → List ℕ
  pub hash : List ℕ → List ℕ
  pub hex : List ℕ → List ℕ

pub data MessageType : Type 0 where
  data_message : MessageType
  control : MessageType
  metadata : MessageType
  media_chunk : MessageType
  announcement : MessageType

pub data MessagePayload (Json : Type 0) : Type 0 where
  binary_payload : List ℕ → MessagePayload Json
  text_payload : List ℕ → MessagePayload Json
  json_payload : Json → MessagePayload Json

-- A topic id, a publisher and a message id are the texts that they wrap.
pub record Message (Json : Type 0) : Type 0 where
  pub id : List ℕ
  pub topic : List ℕ
  pub publisher : Option (List ℕ)
  pub message_type : MessageType
  pub payload : MessagePayload Json
  pub sequence : Option ℕ
  pub timestamp : ℕ
  pub ttl : ℕ
  pub headers : List (List ℕ × List ℕ)

-- `now > timestamp + ttl`, whose sum wraps on u64.
unfoldable pub is_expired : {Json : Type 0} → ℕ → Message Json → Bool
unfolding add64
is_expired now m = if m.ttl == 0 then false else ltb (add64 m.timestamp m.ttl) now

module _ {Json : Type 0} where
  unfoldable pub with_type : MessageType → Message Json → Message Json
  with_type t m = record m { message_type = t }

  unfoldable pub with_sequence : ℕ → Message Json → Message Json
  with_sequence n m = record m { sequence = some n }

  unfoldable pub with_ttl : ℕ → Message Json → Message Json
  with_ttl n m = record m { ttl = n }

  unfoldable pub with_header : List ℕ → List ℕ → Message Json → Message Json
  with_header key value m = record m { headers = insert key value m.headers }

-- The bytes of the header texts.
unfoldable pub headers_size : List (List ℕ × List ℕ) → ℕ
unfolding add64
headers_size [] = 0
headers_size ((k, v) ∷ rest) = add64 (add64 (length k) (length v)) (headers_size rest)

module _ {Peer Json : Type 0} (W : Foreign Peer Json) where
  unfoldable pub payload_size : MessagePayload Json → ℕ
  payload_size (binary_payload bytes) = length bytes
  payload_size (text_payload text) = length text
  payload_size (json_payload json) = length (W.json_text json)

  unfoldable pub as_bytes : MessagePayload Json → List ℕ
  as_bytes (binary_payload bytes) = bytes
  as_bytes (text_payload text) = text
  as_bytes (json_payload json) = W.json_text json

  unfoldable pub generate_message_id : List ℕ → List ℕ → ℕ → List ℕ
  generate_message_id topic bytes timestamp = W.hex (W.hash (topic ++ (bytes ++ be64 timestamp)))

  -- What `binary`, `text` and `json` share.
  unfoldable pub new_message : ℕ → List ℕ → MessagePayload Json → Message Json
  unfolding as_bytes generate_message_id
  new_message now topic payload = record {
    id = generate_message_id topic (as_bytes payload) now;
    topic = topic;
    publisher = none;
    message_type = data_message;
    payload = payload;
    sequence = none;
    timestamp = now;
    ttl = 0;
    headers = [];
  }

  unfoldable pub binary : ℕ → List ℕ → List ℕ → Message Json
  unfolding new_message
  binary now topic bytes = new_message now topic (binary_payload bytes)

  unfoldable pub text : ℕ → List ℕ → List ℕ → Message Json
  unfolding new_message
  text now topic bytes = new_message now topic (text_payload bytes)

  unfoldable pub json : ℕ → List ℕ → Json → Message Json
  unfolding new_message
  json now topic value = new_message now topic (json_payload value)

  unfoldable pub with_publisher : Peer → Message Json → Message Json
  with_publisher peer m = record m { publisher = some (W.to_string peer) }

  unfoldable pub size : Message Json → ℕ
  unfolding payload_size headers_size add64
  size m = add64 (add64 32 (payload_size m.payload)) (headers_size m.headers)
