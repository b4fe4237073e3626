-- ===== src/Relay/Node/Tasks/Restart.antt =====
-- What is left of a relay node of core/src/overlay/relay/node.rs after `stop`.
use open_broadcast_network.Prelude.{
  ℕ, ◌≡◌, refl, ◌∙◌, String, true, false, List, [], ◌∷◌, Eq, arith, Bool-cases, inl, inr,
}
use open_broadcast_network.Relay.Chunk.{
  StreamId, StreamChunk, RelayConfig, RelayMessage, ok, err, relay_error,
}
use open_broadcast_network.Relay.Node.{
  Shared, report_stats, cleanup, remove_streams, inactive_streams,
}
use open_broadcast_network.Relay.Node.Delivery.{calls-remove_stream_internal}
use open_broadcast_network.Relay.Node.Tasks.{
  RelayNode, start, stop, set_chunk_handler, publish_chunk, send_message, Step, set_handler, starts,
  stops, publish, send, take_chunk, take_message, report, clean, cancel_chunks, cancel_messages,
  reporter_ends, cleaner_ends, Reach, here, next, receive_chunk, receive_message, end_task,
}

-- Neither the node nor a task holds a receiver.
pub record IsDead {P : Type 0} (n : RelayNode P) : Type 0 where
  pub chunks_dropped : n.chunks.receiver_held ≡ false
  pub chunks_unread : n.chunks.task_alive ≡ false
  pub messages_dropped : n.messages.receiver_held ≡ false
  pub messages_unread : n.messages.task_alive ≡ false

-- The receivers are not in the node, and a task that has one is to be cancelled.
pub record AfterStop {P : Type 0} (n : RelayNode P) : Type 0 where
  pub chunks_taken : n.chunks.receiver_held ≡ false
  pub chunks_marked : n.chunks.task_alive ≡ true → n.chunks.cancelled ≡ true
  pub messages_taken : n.messages.receiver_held ≡ false
  pub messages_marked : n.messages.task_alive ≡ true → n.messages.cancelled ≡ true

module _ {P : Type 0} where
  calls-remove_streams :
      (ids : List StreamId) (s : Shared P) → (remove_streams ids s).calls ≡ s.calls
  unfolding remove_streams
  calls-remove_streams [] s = refl
  calls-remove_streams (id ∷ ids) s = calls-remove_streams ids _ ∙ calls-remove_stream_internal id s

  calls-cleanup : (c : RelayConfig) (now : ℕ) (s : Shared P) → (cleanup c now s).calls ≡ s.calls
  unfolding cleanup
  calls-cleanup c now s =
      calls-remove_streams (inactive_streams c.inactivity_timeout now s.streams) s

  same_channels : (n : RelayNode P) (s : Shared P) → IsDead n → IsDead (record n { shared = s })
  same_channels n s d = record {
    chunks_dropped = d.chunks_dropped;
    chunks_unread = d.chunks_unread;
    messages_dropped = d.messages_dropped;
    messages_unread = d.messages_unread;
  }

  stop-AfterStop :
      (n : RelayNode P)
      → n.running ≡ true
      → n.chunks.receiver_held ≡ false
      → n.messages.receiver_held ≡ false
      → AfterStop (stop n).0
  unfolding stop
  stop-AfterStop n r c m = ground arith

module _ {P : Type 0} ⦃e : Eq P⦄ (display : StreamId → String) where
  calls-report_stats : (now : ℕ) (s : Shared P) → (report_stats now s).calls ≡ s.calls
  unfolding report_stats
  calls-report_stats now s = refl

  Step-IsDead :
      {n m : RelayNode P}
      → Step display n m
      → IsDead n
      → IsDead m × (m.shared.calls ≡ n.shared.calls)
  unfolding set_chunk_handler start stop publish_chunk send_message end_task
  Step-IsDead (set_handler h) d = ground arith
  Step-IsDead starts d = ground arith
  Step-IsDead stops d = ground arith
  Step-IsDead (publish c room) d = ground arith
  Step-IsDead (send m room) d = ground arith
  Step-IsDead (take_chunk now c rest alive q) d = ground arith
  Step-IsDead (take_message now m rest alive q) d = ground arith
  Step-IsDead {n} (report now on) d = (same_channels n _ d, calls-report_stats now n.shared)
  Step-IsDead {n} (clean now on) d =
      (same_channels n _ d, calls-cleanup n.setup.config now n.shared)
  Step-IsDead (cancel_chunks marked) d = ground arith
  Step-IsDead (cancel_messages marked) d = ground arith
  Step-IsDead reporter_ends d = ground arith
  Step-IsDead cleaner_ends d = ground arith

  Step-AfterStop : {n m : RelayNode P} → Step display n m → AfterStop n → AfterStop m
  unfolding set_chunk_handler start stop publish_chunk send_message receive_chunk receive_message
  Step-AfterStop (set_handler h) d = ground arith
  Step-AfterStop starts d = ground arith
  Step-AfterStop stops d = ground arith
  Step-AfterStop (publish c room) d = ground arith
  Step-AfterStop (send m room) d = ground arith
  Step-AfterStop (take_chunk now c rest alive q) d = ground arith
  Step-AfterStop (take_message now m rest alive q) d = ground arith
  Step-AfterStop (report now on) d = ground arith
  Step-AfterStop (clean now on) d = ground arith
  Step-AfterStop (cancel_chunks marked) d = ground arith
  Step-AfterStop (cancel_messages marked) d = ground arith
  Step-AfterStop reporter_ends d = ground arith
  Step-AfterStop cleaner_ends d = ground arith

  Reach-AfterStop : {n m : RelayNode P} → AfterStop n → Reach display n m → AfterStop m
  Reach-AfterStop d here = d
  Reach-AfterStop d (next r step) = Step-AfterStop step (Reach-AfterStop d r)

  Reach-IsDead :
      {n m : RelayNode P}
      → IsDead n
      → Reach display n m
      → IsDead m × (m.shared.calls ≡ n.shared.calls)
  Reach-IsDead d here = (d, refl)
  Reach-IsDead d (next r step) =
      let (mid, same) = Reach-IsDead d r in
      let (end, same') = Step-IsDead step mid in (end, same' ∙ same)

  -- Once a started node has been stopped and both processors have ended, nothing that happens after,
  -- another `start` included, makes it relay again: the chunk handler gets no further call, and
  -- `publish_chunk` and every message are refused with an error. This holds whatever happened between
  -- `stop` and the ends of the processors.
  pub stop_is_final :
      (n : RelayNode P) {m k : RelayNode P}
      → n.running ≡ true
      → n.chunks.receiver_held ≡ false
      → n.messages.receiver_held ≡ false
      → Reach display (stop n).0 m
      → m.chunks.task_alive ≡ false
      → m.messages.task_alive ≡ false
      → Reach display m k
      → (k.shared.calls ≡ m.shared.calls)
        × ((c : StreamChunk P) → (publish_chunk c k).1 ≡ err relay_error)
        × ((msg : RelayMessage P) → (send_message msg k).1 ≡ err relay_error)
  unfolding publish_chunk send_message
  stop_is_final n {m} on c d r unread unheard r' =
      let after = Reach-AfterStop (stop-AfterStop n on c d) r in
      let dead : IsDead m = record {
        chunks_dropped = after.chunks_taken;
        chunks_unread = unread;
        messages_dropped = after.messages_taken;
        messages_unread = unheard;
      } in
      let (dead', same) = Reach-IsDead dead r' in (same, (λ x. ground arith), (λ x. ground arith))

  end_chunks :
      {n : RelayNode P}
      → AfterStop n
      → (m : RelayNode P) × Reach display n m
        × AfterStop m
        × (m.chunks.task_alive ≡ false)
        × (m.shared ≡ n.shared)
  unfolding end_task
  end_chunks {n} a = elim (Bool-cases n.chunks.task_alive) [
    | inl alive ↦
        let step : Step display n (record n { chunks = end_task n.chunks }) =
          cancel_chunks (a.chunks_marked alive) in
        (_, next here step, Step-AfterStop step a, rw (end_task, alive) refl, refl)
    | inr ended ↦ (n, here, a, ended, refl)
  ]

  -- After a started node has been stopped, whatever happens, restarts included: from every state on
  -- the way, the runtime can end both processors, with no call of the chunk handler and nothing else
  -- changed in the node's shared state.
  pub stop_can_finish :
      (n : RelayNode P) {m : RelayNode P}
      → n.running ≡ true
      → n.chunks.receiver_held ≡ false
      → n.messages.receiver_held ≡ false
      → Reach display (stop n).0 m
      → (k : RelayNode P) × Reach display m k
        × (k.chunks.task_alive ≡ false)
        × (k.messages.task_alive ≡ false)
        × (k.shared ≡ m.shared)
  unfolding end_task
  stop_can_finish n on c d r =
      let after = Reach-AfterStop (stop-AfterStop n on c d) r in
      let (k, r', a, ended, same) = end_chunks after in
      elim (Bool-cases k.messages.task_alive) [
        | inl alive ↦ (
          record k { messages = end_task k.messages },
          next r' (cancel_messages (a.messages_marked alive)),
          ended,
          rw (end_task, alive) refl,
          same,
        )
        | inr ended' ↦ (k, r', ended, ended', same)
      ]

  -- While a node does not run, no step calls the chunk handler, though its processors may not have
  -- ended and messages may be waiting for them. A round of a processor that began while the node ran
  -- is a step of before.
  pub stopped_is_quiet :
      {n m : RelayNode P} → n.running ≡ false → Step display n m → m.shared.calls ≡ n.shared.calls
  unfolding set_chunk_handler start stop publish_chunk send_message receive_chunk receive_message
  stopped_is_quiet off (set_handler h) = ground arith
  stopped_is_quiet off starts = ground arith
  stopped_is_quiet off stops = ground arith
  stopped_is_quiet off (publish c room) = ground arith
  stopped_is_quiet off (send m room) = ground arith
  stopped_is_quiet off (take_chunk now c rest alive q) = ground arith
  stopped_is_quiet off (take_message now m rest alive q) = ground arith
  stopped_is_quiet {n} off (report now on) = calls-report_stats now n.shared
  stopped_is_quiet {n} off (clean now on) = calls-cleanup n.setup.config now n.shared
  stopped_is_quiet off (cancel_chunks marked) = refl
  stopped_is_quiet off (cancel_messages marked) = refl
  stopped_is_quiet off reporter_ends = refl
  stopped_is_quiet off cleaner_ends = refl

  -- A restart reports success.
  start_after_stop : (n : RelayNode P) → n.running ≡ true → (start (stop n).0).1 ≡ ok
  unfolding start stop
  start_after_stop n on = ground arith
