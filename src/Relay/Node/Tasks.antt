-- ===== src/Relay/Node/Tasks.antt =====
-- core/src/overlay/relay/node.rs: the life of a relay node. `start` moves each receiver into a task
-- that it spawns, and `stop` asks for the tasks to be cancelled. A task that is to be cancelled goes
-- on until the runtime ends it, some time later, which drops its receiver. A sender reaches its
-- receiver while the node or a task holds it. The relation `Step` lists what can happen, in any
-- order: calls of the API, each as one step, rounds of the tasks, and their ends. A round that has
-- begun runs to its end in the same step, so a task ends between two rounds.
pub mod Invariant
pub mod Restart
use open_broadcast_network.Prelude.{
  ℕ, ◌<◌, String, Bool, true, false, not, ◌&&◌, ◌||◌, Option, none, some, List, [], ◌∷◌, ◌++◌, ◌≡◌,
  length, Eq, ltb, if◌then◌else◌,
}
use open_broadcast_network.Relay.Chunk.{
  StreamId, StreamChunk, RelayConfig, RelayMessage, OverlayError, Outcome, ok, err, relay_error,
  not_running, already_running,
}
use open_broadcast_network.Relay.Stats
use open_broadcast_network.Relay.Node.{
  Call, Handler, Shared, Setup, process_chunk_internal, process_message, report_stats, cleanup,
}

-- A channel: who holds its receiver, whether the task that does is to be cancelled, and what was
-- sent and not yet received.
pub record Channel (M : Type 0) : Type 0 where
  pub receiver_held : Bool
  pub task_alive : Bool
  pub cancelled : Bool
  pub queue : List M

abbrev pub channel_capacity : ℕ
channel_capacity = 100

-- The last two are whether a task of that kind is alive.
pub record RelayNode (P : Type 0) : Type 0 where
  pub setup : Setup P
  pub shared : Shared P
  pub running : Bool
  pub chunk_handler : Option (Handler P)
  pub chunks : Channel (StreamChunk P)
  pub messages : Channel (RelayMessage P)
  pub stats_reporter : Bool
  pub stream_cleanup : Bool

module _ {M : Type 0} where
  unfoldable pub new_channel : Channel M
  new_channel = record { receiver_held = true; task_alive = false; cancelled = false; queue = [] }

  unfoldable pub is_open : Channel M → Bool
  is_open c = c.receiver_held || c.task_alive

  -- The receiver is taken once; a task is spawned only where it was there to take.
  unfoldable pub spawn : Channel M → Channel M
  spawn c = if c.receiver_held then record c { receiver_held = false; task_alive = true } else c

  -- `JoinHandle::abort` asks for the cancellation of a task.
  unfoldable pub abort : Channel M → Channel M
  abort c = if c.task_alive then record c { cancelled = true } else c

  -- A task that ends drops its receiver, with what was not received.
  unfoldable pub end_task : Channel M → Channel M
  end_task c =
      if c.task_alive then record c { task_alive = false; cancelled = false; queue = [] } else c

module _ {P : Type 0} where
  unfoldable pub new : P → RelayConfig → ℕ → RelayNode P
  unfolding new_channel
  new local_peer_id config now = record {
    setup = record { local_peer_id = local_peer_id; config = config };
    shared = record { streams = []; stats = Stats.new now; calls = [] };
    running = false;
    chunk_handler = none;
    chunks = new_channel;
    messages = new_channel;
    stats_reporter = false;
    stream_cleanup = false;
  }

  unfoldable pub set_chunk_handler : Handler P → RelayNode P → RelayNode P × Outcome P
  set_chunk_handler handler n =
      if n.running
      then (n, err already_running)
      else (record n { chunk_handler = some handler }, ok)

  -- `start` up to the running flag.
  unfoldable pub start_tasks : RelayNode P → RelayNode P
  unfolding spawn
  start_tasks n = record n {
    chunks = spawn n.chunks;
    messages = spawn n.messages;
    stats_reporter = true;
    stream_cleanup = true;
  }

  unfoldable pub start : RelayNode P → RelayNode P × Outcome P
  unfolding start_tasks
  start n =
      if n.running
      then (n, err already_running)
      else (let spawned = start_tasks n in (record spawned { running = true }, ok))

  -- The message processor may receive `stop`'s own message before it is cancelled. Where there is no
  -- room for it, the send waits, and the message goes with the processor, which ends when it is
  -- cancelled or takes a message, since the node does not run.
  unfoldable pub stop : RelayNode P → RelayNode P × Outcome P
  unfolding abort is_open
  stop n =
      if not n.running
      then (n, err not_running)
      else (let messages = abort n.messages in
          (
            record n {
              running = false;
              chunks = abort n.chunks;
              messages =
                  if is_open messages && ltb (length messages.queue) channel_capacity
                  then record messages { queue = messages.queue ++ RelayMessage.stop ∷ [] }
                  else messages;
            },
            ok,
          ))

  -- The senders are never taken, so the `NotRunning` branches are not reached.
  unfoldable pub publish_chunk : StreamChunk P → RelayNode P → RelayNode P × Outcome P
  unfolding is_open
  publish_chunk chunk n =
      if ltb n.setup.config.max_chunk_size (length chunk.payload)
      then (n, err relay_error)
      else if is_open n.chunks
      then (let chunks = n.chunks in
          (record n { chunks = record chunks { queue = chunks.queue ++ chunk ∷ [] } }, ok))
      else (n, err relay_error)

  -- `add_stream`, `remove_stream`, `add_subscriber`, `remove_subscriber` and `request_chunks` send
  -- the message of their name.
  unfoldable pub send_message : RelayMessage P → RelayNode P → RelayNode P × Outcome P
  unfolding is_open
  send_message m n =
      if is_open n.messages
      then (let messages = n.messages in
          (record n { messages = record messages { queue = messages.queue ++ m ∷ [] } }, ok))
      else (n, err relay_error)

module _ {P : Type 0} ⦃e : Eq P⦄ (display : StreamId → String) where
  -- A round of the chunk processor on what it received.
  unfoldable pub receive_chunk :
      ℕ → StreamChunk P → List (StreamChunk P) → RelayNode P → RelayNode P
  unfolding end_task
  receive_chunk now chunk rest n =
      let chunks = n.chunks in
      if not n.running then record n { chunks = end_task chunks } else record n {
        chunks = record chunks { queue = rest };
        shared = (process_chunk_internal display n.setup n.chunk_handler now chunk n.shared).0;
      }

  -- A round of the message processor: `Stop` ends the task.
  unfoldable pub receive_message :
      ℕ → RelayMessage P → List (RelayMessage P) → RelayNode P → RelayNode P
  unfolding end_task
  receive_message now m rest n =
      let messages = n.messages in
      if not n.running then record n { messages = end_task messages } else record n {
        messages = elim m [
          | RelayMessage.stop ↦ end_task messages
          | _ ↦ record messages { queue = rest }
        ];
        shared = process_message display n.setup n.chunk_handler now m n.shared;
      }

  -- What can happen next. A send waits for room in its channel. The two periodic tasks end when they
  -- were cancelled or found that the node does not run.
  pub data Step (n : RelayNode P) : RelayNode P → Type 0 where
    set_handler : (h : Handler P) → Step n (set_chunk_handler h n).0
    starts : Step n (start n).0
    stops : Step n (stop n).0
    publish :
        (c : StreamChunk P)
        → length n.chunks.queue < channel_capacity
        → Step n (publish_chunk c n).0
    send :
        (m : RelayMessage P)
        → length n.messages.queue < channel_capacity
        → Step n (send_message m n).0
    take_chunk :
        (now : ℕ) (c : StreamChunk P) (rest : List (StreamChunk P))
        → n.chunks.task_alive ≡ true
        → n.chunks.queue ≡ c ∷ rest
        → Step n (receive_chunk now c rest n)
    take_message :
        (now : ℕ) (m : RelayMessage P) (rest : List (RelayMessage P))
        → n.messages.task_alive ≡ true
        → n.messages.queue ≡ m ∷ rest
        → Step n (receive_message now m rest n)
    report :
        (now : ℕ)
        → n.stats_reporter ≡ true
        → Step n (record n { shared = report_stats now n.shared })
    clean :
        (now : ℕ)
        → n.stream_cleanup ≡ true
        → Step n (record n { shared = cleanup n.setup.config now n.shared })
    cancel_chunks : n.chunks.cancelled ≡ true → Step n (record n { chunks = end_task n.chunks })
    cancel_messages :
        n.messages.cancelled ≡ true → Step n (record n { messages = end_task n.messages })
    reporter_ends : Step n (record n { stats_reporter = false })
    cleaner_ends : Step n (record n { stream_cleanup = false })

  pub data Reach (n : RelayNode P) : RelayNode P → Type 0 where
    here : Reach n n
    next : {m k : RelayNode P} → Reach n m → Step m k → Reach n k
