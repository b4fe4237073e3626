-- ===== src/Relay/Node/Delivery.antt =====
-- Who gets which chunk from the handlers of core/src/overlay/relay/node.rs.
use mathlib.Core.List.{append-nil, append_assoc, map-append}
use open_broadcast_network.Prelude.{
  ℕ, ◌<◌, ◌≡◌, refl, sym, ◌∙◌, String, Bool, true, Option, none, some, List, [], ◌∷◌, ◌++◌, length,
  map, keep, last?, All, All-append, last?-append_one, lt→ltb, Bool-cases, inl, inr, Eq, ◌==◌,
  beq_refl, ltb, if◌then◌else◌, arith,
}
use open_broadcast_network.Prelude.Maps.{get, get-modify_found}
use open_broadcast_network.Relay.Chunk.{StreamId, StreamChunk, RelayMessage, ok}
use open_broadcast_network.Relay.Stream.{StreamRelay, add_chunk, get_chunks_since, pop_to}
use open_broadcast_network.Relay.Node.{
  Call, Handler, Shared, Setup, stream_id_eq, send_to_all, send_chunks, relay_chunk,
  process_chunk_internal, handle_request_chunks_internal, process_message, add_stream_internal,
  remove_stream_internal, add_subscriber_internal, remove_subscriber_internal,
}

module _ {P : Type 0} where
  send_to_all_lem :
      (chunk : StreamChunk P) (ps : List P) (calls : List (Call P))
      → send_to_all chunk ps calls ≡ calls ++ map (λ p. (p, chunk)) ps
  unfolding send_to_all
  send_to_all_lem chunk [] calls = sym (append-nil calls)
  send_to_all_lem chunk (p ∷ ps) calls =
      send_to_all_lem chunk ps (calls ++ (p, chunk) ∷ []) ∙ append_assoc calls ((p, chunk) ∷ []) _

  pop_to-append_one :
      (n : ℕ) (cs : List (StreamChunk P)) (c : StreamChunk P)
      → 0 < n
      → (front : List (StreamChunk P)) × (pop_to n (cs ++ c ∷ []) ≡ front ++ c ∷ [])
  unfolding pop_to
  pop_to-append_one n [] c h = ([], ground arith)
  pop_to-append_one n (d ∷ cs) c h = elim (Bool-cases (ltb n (length (d ∷ cs ++ c ∷ [])))) [
    | inl more ↦ let (front, q) = pop_to-append_one n cs c h in (front, rw more q)
    | inr fits ↦ (d ∷ cs, rw fits)
  ]

  keep-append :
      (p : StreamChunk P → Bool) (xs ys : List (StreamChunk P))
      → keep p (xs ++ ys) ≡ keep p xs ++ keep p ys
  keep-append p [] ys = refl
  keep-append p (x ∷ xs) ys = ground (arith, keep-append p xs ys)

  last_chunk_since :
      (n now sequence : ℕ) (chunk : StreamChunk P) (r : StreamRelay P)
      → 0 < n
      → sequence < chunk.sequence
      → (front : List (StreamChunk P)) × (get_chunks_since sequence (add_chunk chunk n now r)
          ≡ front ++ chunk ∷ [])
  unfolding get_chunks_since add_chunk
  last_chunk_since n now sequence chunk r pos newer =
      let (front, popped) = pop_to-append_one n r.buffer chunk pos in
      (
        keep (λ c. ltb sequence c.sequence) front,
        rw (
          popped,
          keep-append (λ c. ltb sequence c.sequence) front (chunk ∷ []),
          lt→ltb _ _ newer,
        ),
      )

  -- A handler that answers every call with success.
  abbrev pub AlwaysOk : Handler P → Type 0
  AlwaysOk h = (calls : List (Call P)) (p : P) (c : StreamChunk P) → h calls p c ≡ ok

  send_chunks_lem :
      (h : Handler P) (peer : P) (cs : List (StreamChunk P)) (calls : List (Call P))
      → AlwaysOk h
      → send_chunks h peer cs calls ≡ (calls ++ map (λ c. (peer, c)) cs, ok)
  unfolding send_chunks
  send_chunks_lem h peer [] calls good = rw append-nil
  send_chunks_lem h peer (c ∷ cs) calls good =
      rw (good calls peer c, send_chunks)
        (rw (send_chunks_lem h peer cs (calls ++ (peer, c) ∷ []) good, append_assoc))

  -- The call shows the relay as the source of its chunk.
  abbrev pub IsHidden : P → Call P → Type 0
  IsHidden local call = call.1.source ≡ some local

  relay_chunk-IsHidden :
      (n : Setup P) (chunk : StreamChunk P) (ps : List P)
      → n.config.enable_hop_removal ≡ true
      → All (IsHidden n.local_peer_id) (map (λ p. (p, relay_chunk n chunk)) ps)
  unfolding relay_chunk
  relay_chunk-IsHidden n chunk [] on = tt
  relay_chunk-IsHidden n chunk (p ∷ ps) on = (rw on, relay_chunk-IsHidden n chunk ps on)

  abbrev pub IsRequest : RelayMessage P → Type 0
  IsRequest (RelayMessage.request_chunks id peer sequence) = Unit
  IsRequest _ = ⊥

  -- A request for the chunks of a known stream, with a handler that succeeds: the handler is called
  -- with every buffered chunk of a higher sequence number, in order, as it is in the buffer, and
  -- nothing else changes.
  handle_request_chunks_internal_lem :
      (h : Handler P) (id : StreamId) (peer : P) (sequence : ℕ) (s : Shared P)
      {stream : StreamRelay P}
      → AlwaysOk h
      → get id s.streams ≡ some stream
      → handle_request_chunks_internal (some h) id peer sequence s ≡ (
        record s { calls = s.calls ++ map (λ c. (peer, c)) (get_chunks_since sequence stream) },
        ok,
      )
  unfolding handle_request_chunks_internal
  handle_request_chunks_internal_lem h id peer sequence s {stream} good found = rw (
    found,
    handle_request_chunks_internal,
    send_chunks_lem h peer (get_chunks_since sequence stream) s.calls good,
  )

  calls-add_stream_internal :
      (now : ℕ) (id : StreamId) (publisher : P) (s : Shared P)
      → (add_stream_internal now id publisher s).0.calls ≡ s.calls
  unfolding add_stream_internal
  calls-add_stream_internal now id publisher s = ground arith

  pub calls-remove_stream_internal :
      (id : StreamId) (s : Shared P) → (remove_stream_internal id s).0.calls ≡ s.calls
  unfolding remove_stream_internal
  calls-remove_stream_internal id s = ground arith

module _ {P : Type 0} ⦃e : Eq P⦄ where
  calls-add_subscriber_internal :
      (id : StreamId) (peer : P) (s : Shared P)
      → (add_subscriber_internal id peer s).0.calls ≡ s.calls
  unfolding add_subscriber_internal
  calls-add_subscriber_internal id peer s = ground arith

  calls-remove_subscriber_internal :
      (id : StreamId) (peer : P) (s : Shared P)
      → (remove_subscriber_internal id peer s).0.calls ≡ s.calls
  unfolding remove_subscriber_internal
  calls-remove_subscriber_internal id peer s = ground arith

module _ {P : Type 0} ⦃e : Eq P⦄ (display : StreamId → String) where
  -- A chunk of a known stream, with a handler installed: the handler is called once for each
  -- subscriber of that stream, in order, with the chunk to relay, whatever it answers; the chunk
  -- itself joins the stream's buffers, and every other stream stays as it was.
  pub process_chunk_internal_delivers :
      (n : Setup P) (h : Handler P) (now : ℕ) (chunk : StreamChunk P) (s : Shared P)
      {stream : StreamRelay P}
      → get chunk.stream_id s.streams ≡ some stream
      → ((process_chunk_internal display n (some h) now chunk s).1 ≡ ok)
        × ((process_chunk_internal display n (some h) now chunk s).0.calls
            ≡ s.calls ++ map (λ p. (p, relay_chunk n chunk)) stream.subscribers)
        × ((id : StreamId)
            → get id (process_chunk_internal display n (some h) now chunk s).0.streams ≡ (
                if chunk.stream_id == id
                then some (add_chunk chunk n.config.max_buffer_size now stream)
                else get id s.streams))
  unfolding process_chunk_internal
  process_chunk_internal_delivers n h now chunk s {stream} found = (
    rw (found, process_chunk_internal),
    rw (found, process_chunk_internal)
        (send_to_all_lem (relay_chunk n chunk) stream.subscribers s.calls),
    λ id.
        rw (found, process_chunk_internal)
          (get-modify_found chunk.stream_id id (add_chunk chunk n.config.max_buffer_size now)
            s.streams found),
  )

  process_chunk_internal-IsHidden :
      (n : Setup P) (handler : Option (Handler P)) (now : ℕ) (chunk : StreamChunk P) (s : Shared P)
      → n.config.enable_hop_removal ≡ true
      → All (IsHidden n.local_peer_id) s.calls
      → All
          (IsHidden n.local_peer_id)
          (process_chunk_internal display n handler now chunk s).0.calls
  unfolding process_chunk_internal
  process_chunk_internal-IsHidden n handler now chunk s on h =
      go (get chunk.stream_id s.streams) refl handler refl
    where
      go :
          (o : Option (StreamRelay P))
          → get chunk.stream_id s.streams ≡ o
          → (k : Option (Handler P)) → handler ≡ k
          → All
              (IsHidden n.local_peer_id)
              (process_chunk_internal display n handler now chunk s).0.calls
      go none q k r = rw (q, process_chunk_internal) h
      go (some stream) q none r = rw (q, r, process_chunk_internal) h
      go (some stream) q (some k) r =
          rw (q, r, process_chunk_internal, send_to_all_lem)
            (All-append (IsHidden n.local_peer_id) s.calls _ h
              (relay_chunk-IsHidden n chunk stream.subscribers on))

  -- With hop removal on, no message but a request for buffered chunks makes the handler send a chunk
  -- that shows another source than the relay itself.
  pub process_message-IsHidden :
      (n : Setup P) (handler : Option (Handler P)) (now : ℕ) (m : RelayMessage P) (s : Shared P)
      → n.config.enable_hop_removal ≡ true
      → ¬ IsRequest m
      → All (IsHidden n.local_peer_id) s.calls
      → All (IsHidden n.local_peer_id) (process_message display n handler now m s).calls
  unfolding process_message
  process_message-IsHidden n handler now (RelayMessage.chunk c) s on other h =
      process_chunk_internal-IsHidden n handler now c s on h
  process_message-IsHidden n handler now (RelayMessage.add_stream id publisher) s on other h =
      rw (calls-add_stream_internal now id publisher s) h
  process_message-IsHidden n handler now (RelayMessage.remove_stream id) s on other h =
      rw (calls-remove_stream_internal id s) h
  process_message-IsHidden n handler now (RelayMessage.add_subscriber id peer) s on other h =
      rw (calls-add_subscriber_internal id peer s) h
  process_message-IsHidden n handler now (RelayMessage.remove_subscriber id peer) s on other h =
      rw (calls-remove_subscriber_internal id peer s) h
  process_message-IsHidden n handler now (RelayMessage.request_chunks id peer q) s on other h =
      absurd (other tt)
  process_message-IsHidden n handler now RelayMessage.stop s on other h = h

  -- Where the handler answers every call with success and the buffer takes one chunk at least: after
  -- a known stream took the chunk, a request for what lies below its sequence number sends that chunk
  -- last and as it came, its source included, whether hop removal is on or not.
  pub request_shows_source :
      (n : Setup P) (h : Handler P) (now : ℕ) (chunk : StreamChunk P) (s : Shared P) (peer : P)
      (sequence : ℕ) {stream : StreamRelay P}
      → AlwaysOk h
      → get chunk.stream_id s.streams ≡ some stream
      → 0 < n.config.max_buffer_size
      → sequence < chunk.sequence
      → last?
          (handle_request_chunks_internal
            (some h)
            chunk.stream_id
            peer
            sequence
            (process_chunk_internal display n (some h) now chunk s).0).0.calls
        ≡ some (peer, chunk)
  request_shows_source n h now chunk s peer sequence {stream} good found pos newer =
      let t : Shared P = (process_chunk_internal display n (some h) now chunk s).0 in
      let stream' : StreamRelay P = add_chunk chunk n.config.max_buffer_size now stream in
      let there : get chunk.stream_id t.streams ≡ some stream' =
        (process_chunk_internal_delivers n h now chunk s found).2 chunk.stream_id
        ∙ rw (beq_refl chunk.stream_id) in
      let (front, sent) =
        last_chunk_since n.config.max_buffer_size now sequence chunk stream pos newer in
      rw
        (
          handle_request_chunks_internal_lem h chunk.stream_id peer sequence t good there,
          sent,
          map-append,
          ← append_assoc,
        )
        (last?-append_one (t.calls ++ map (λ c. (peer, c)) front) (peer, chunk))
