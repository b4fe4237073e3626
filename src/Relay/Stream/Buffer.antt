-- ===== src/Relay/Stream/Buffer.antt =====
-- The bounded buffers of core/src/overlay/relay/stream.rs after any sequence of chunks.
use open_broadcast_network.Prelude.{
  ℕ, suc, ◌-◌, ◌≤◌, ◌≡◌, refl, sym, ap, ◌∙◌, true, ◌&&◌, not, Option, some, List, [], ◌∷◌, ◌++◌,
  length, drop, keep, length-append, ltb, max, if◌then◌else◌, Bool-cases, inl, inr, arith,
}
use mathlib.Core.List.{append-nil, append_assoc}
use open_broadcast_network.Relay.Chunk.{StreamChunk}
use open_broadcast_network.Relay.Stream.{
  StreamRelay, pop_to, add_chunk, is_init_chunk, is_video_keyframe,
}

module _ {ℓ} {A : Type ℓ} where
  pub pop_to-drop : (n : ℕ) (xs : List A) → pop_to n xs ≡ drop (length xs - n) xs
  unfolding pop_to
  pop_to-drop n [] = ground arith
  pop_to-drop n (x ∷ xs) = elim (Bool-cases (ltb n (length (x ∷ xs)))) [
    | inl h ↦
        let e : length (x ∷ xs) - n ≡ suc (length xs - n) = ground arith in
        rw (h, e) (pop_to-drop n xs)
    | inr h ↦ let e : length (x ∷ xs) - n ≡ 0 = ground arith in rw (h, e)
  ]

  pub length-pop_to-le : (n : ℕ) (xs : List A) → length (pop_to n xs) ≤ n
  unfolding pop_to
  length-pop_to-le n [] = omega arith
  length-pop_to-le n (x ∷ xs) = ground (arith, length-pop_to-le n xs)

  pub pop_to_of_length-le : (n : ℕ) (xs : List A) → length xs ≤ n → pop_to n xs ≡ xs
  unfolding pop_to
  pop_to_of_length-le n [] h = refl
  pop_to_of_length-le n (x ∷ xs) h = ground arith

  -- What was popped stays popped: to trim in steps is to trim once.
  pub pop_to-append_pop_to :
      (n : ℕ) (xs ys : List A) → pop_to n (pop_to n xs ++ ys) ≡ pop_to n (xs ++ ys)
  unfolding pop_to
  pop_to-append_pop_to n [] ys = refl
  pop_to-append_pop_to n (x ∷ xs) ys = elim (Bool-cases (ltb n (length (x ∷ xs)))) [
    | inl h ↦
        let longer : ltb n (length (x ∷ xs ++ ys)) ≡ true = ground (arith, length-append xs ys) in
        rw (h, longer) (pop_to-append_pop_to n xs ys)
    | inr h ↦ rw h
  ]

module _ {P : Type 0} where
  -- A run of chunks through one stream.
  unfoldable pub add_chunks : List (StreamChunk P) → ℕ → ℕ → StreamRelay P → StreamRelay P
  add_chunks [] max_buffer_size now r = r
  add_chunks (c ∷ cs) max_buffer_size now r =
      add_chunks cs max_buffer_size now (add_chunk c max_buffer_size now r)

  -- Video keyframes that are no initialization segments.
  abbrev pub keyframes : List (StreamChunk P) → List (StreamChunk P)
  keyframes = keep (λ c. not (is_init_chunk c) && is_video_keyframe c)

  unfoldable pub last_init : Option (StreamChunk P) → List (StreamChunk P) → Option (StreamChunk P)
  last_init o [] = o
  last_init o (c ∷ cs) = last_init (if is_init_chunk c then some c else o) cs

  unfoldable pub highest : ℕ → List (StreamChunk P) → ℕ
  highest n [] = n
  highest n (c ∷ cs) = highest (max n c.sequence) cs

  add_chunk-buffer :
      (c : StreamChunk P) (n now : ℕ) (r : StreamRelay P)
      → (add_chunk c n now r).buffer ≡ pop_to n (r.buffer ++ c ∷ [])
  unfolding add_chunk
  add_chunk-buffer c n now r = refl

  pub buffer-add_chunks :
      (cs : List (StreamChunk P)) (n now : ℕ) (r : StreamRelay P)
      → length r.buffer ≤ n
      → (add_chunks cs n now r).buffer ≡ pop_to n (r.buffer ++ cs)
  unfolding add_chunks
  buffer-add_chunks [] n now r h = rw append-nil (sym (pop_to_of_length-le n r.buffer h))
  buffer-add_chunks (c ∷ cs) n now r h =
      buffer-add_chunks cs n now (add_chunk c n now r)
        (rw add_chunk-buffer (length-pop_to-le n (r.buffer ++ c ∷ [])))
      ∙ rw (add_chunk-buffer, pop_to-append_pop_to, append_assoc)

  pub max_keyframes-add_chunk :
      (c : StreamChunk P) (n now : ℕ) (r : StreamRelay P)
      → (add_chunk c n now r).max_keyframes ≡ r.max_keyframes
  unfolding add_chunk
  max_keyframes-add_chunk c n now r = refl

  add_chunk-keyframe_buffer :
      (c : StreamChunk P) (n now : ℕ) (r : StreamRelay P)
      → length r.keyframe_buffer ≤ r.max_keyframes
      → (add_chunk c n now r).keyframe_buffer
        ≡ pop_to r.max_keyframes (r.keyframe_buffer ++ keyframes (c ∷ []))
  unfolding add_chunk
  add_chunk-keyframe_buffer c n now r h =
      ground
        (arith, append-nil r.keyframe_buffer, pop_to_of_length-le r.max_keyframes r.keyframe_buffer)

  keyframes-cons :
      (c : StreamChunk P) (cs : List (StreamChunk P))
      → keyframes (c ∷ cs) ≡ keyframes (c ∷ []) ++ keyframes cs
  keyframes-cons c cs = ground arith

  pub keyframe_buffer-add_chunks :
      (cs : List (StreamChunk P)) (n now : ℕ) (r : StreamRelay P)
      → length r.keyframe_buffer ≤ r.max_keyframes
      → (add_chunks cs n now r).keyframe_buffer
        ≡ pop_to r.max_keyframes (r.keyframe_buffer ++ keyframes cs)
  unfolding add_chunks
  keyframe_buffer-add_chunks [] n now r h =
      rw append-nil (sym (pop_to_of_length-le r.max_keyframes r.keyframe_buffer h))
  keyframe_buffer-add_chunks (c ∷ cs) n now r h =
      keyframe_buffer-add_chunks cs n now (add_chunk c n now r) (
        rw (max_keyframes-add_chunk, add_chunk-keyframe_buffer c n now r h)
          (length-pop_to-le r.max_keyframes (r.keyframe_buffer ++ keyframes (c ∷ []))))
      ∙ rw
          (
            max_keyframes-add_chunk,
            add_chunk-keyframe_buffer c n now r h,
            pop_to-append_pop_to,
            append_assoc,
          )
          (ap (λ (l : List (StreamChunk P)). pop_to r.max_keyframes (r.keyframe_buffer ++ l))
            (sym (keyframes-cons c cs)))

  pub init_segment-add_chunks :
      (cs : List (StreamChunk P)) (n now : ℕ) (r : StreamRelay P)
      → (add_chunks cs n now r).init_segment ≡ last_init r.init_segment cs
  unfolding add_chunks add_chunk last_init
  init_segment-add_chunks [] n now r = refl
  init_segment-add_chunks (c ∷ cs) n now r = init_segment-add_chunks cs n now (add_chunk c n now r)

  last_sequence-add_chunks :
      (cs : List (StreamChunk P)) (n now : ℕ) (r : StreamRelay P)
      → (add_chunks cs n now r).last_sequence ≡ highest r.last_sequence cs
  unfolding add_chunks add_chunk highest
  last_sequence-add_chunks [] n now r = refl
  last_sequence-add_chunks (c ∷ cs) n now r =
      last_sequence-add_chunks cs n now (add_chunk c n now r)
      ∙ ap (λ (m : ℕ). highest m cs) (ground arith)

  -- Any run of chunks, from a stream whose two buffers are within their limits: the buffer ends with
  -- the newest `n` chunks and the keyframe buffer with the newest `max_keyframes` video keyframes,
  -- in order of arrival; the initialization segment is the last one that came, and the last
  -- sequence number the highest that came.
  pub add_chunks_window :
      (cs : List (StreamChunk P)) (n now : ℕ) (r : StreamRelay P)
      → length r.buffer ≤ n
      → length r.keyframe_buffer ≤ r.max_keyframes
      → ((add_chunks cs n now r).buffer ≡ drop (length (r.buffer ++ cs) - n) (r.buffer ++ cs))
        × ((add_chunks cs n now r).keyframe_buffer
            ≡ drop
                (length (r.keyframe_buffer ++ keyframes cs) - r.max_keyframes)
                (r.keyframe_buffer ++ keyframes cs))
        × ((add_chunks cs n now r).init_segment ≡ last_init r.init_segment cs)
        × ((add_chunks cs n now r).last_sequence ≡ highest r.last_sequence cs)
  add_chunks_window cs n now r h k = (
    buffer-add_chunks cs n now r h ∙ pop_to-drop n (r.buffer ++ cs),
    keyframe_buffer-add_chunks cs n now r k
        ∙ pop_to-drop r.max_keyframes (r.keyframe_buffer ++ keyframes cs),
    init_segment-add_chunks cs n now r,
    last_sequence-add_chunks cs n now r,
  )
