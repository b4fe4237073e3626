-- ===== src/Relay/Stream/Catchup.antt =====
-- What a late joiner gets from `get_catchup_chunks` of core/src/overlay/relay/stream.rs.
use mathlib.Core.List.{append_assoc}
use open_broadcast_network.Prelude.{
  ℕ, ◌≤◌, ◌<◌, ◌≡◌, refl, ap, ◌∙◌, Bool, true, false, none, some, List, [], ◌∷◌, ◌++◌, length, keep,
  last?, All, All-append, All-map, lt→ltb, le→ltb_false, last?-append_one, ltb, Bool-cases, inl,
  inr, arith,
}
use open_broadcast_network.Relay.Chunk.{StreamId, StreamChunk}
use open_broadcast_network.Relay.Stream.{
  StreamRelay, new, pop_to, is_init_chunk, is_video_keyframe, get_catchup_chunks, get_chunks_since,
}
use open_broadcast_network.Relay.Stream.Buffer.{
  add_chunks, keyframes, last_init, buffer-add_chunks, keyframe_buffer-add_chunks,
  init_segment-add_chunks, pop_to_of_length-le,
}

module _ {ℓ} {A : Type ℓ} (p : A → Bool) where
  keep_none : (xs ys : List A) → All (λ x. p x ≡ false) xs → keep p (xs ++ ys) ≡ keep p ys
  keep_none [] ys h = refl
  keep_none (x ∷ xs) ys h = rw h.0 (keep_none xs ys h.1)

  keep-All : (xs : List A) → All (λ x. p x ≡ true) xs → keep p xs ≡ xs
  keep-All [] h = refl
  keep-All (x ∷ xs) h = rw h.0 (ap (◌∷◌ x) (keep-All xs h.1))

  -- Whatever of `xs` was popped, the test leaves the whole of `ys`.
  keep-pop_to :
      (n : ℕ) (xs ys : List A)
      → All (λ x. p x ≡ false) xs
      → All (λ x. p x ≡ true) ys
      → length ys ≤ n
      → keep p (pop_to n (xs ++ ys)) ≡ ys
  unfolding pop_to
  keep-pop_to n [] ys h k l = rw (pop_to_of_length-le n ys l) (keep-All ys k)
  keep-pop_to n (x ∷ xs) ys h k l = elim (Bool-cases (ltb n (length (x ∷ xs ++ ys)))) [
    | inl more ↦ rw more (keep-pop_to n xs ys h.1 k l)
    | inr fits ↦ rw (fits, h.0) (keep_none xs ys h.1 ∙ keep-All ys k)
  ]

module _ {P : Type 0} where
  keyframes_split :
      (before after : List (StreamChunk P)) (k : StreamChunk P)
      → is_init_chunk k ≡ false
      → is_video_keyframe k ≡ true
      → keyframes after ≡ []
      → keyframes (before ++ k ∷ after) ≡ keyframes before ++ k ∷ []
  keyframes_split [] after k i v h = rw (i, v, h)
  keyframes_split (c ∷ before) after k i v h = ground (arith, keyframes_split before after k i v h)

  last?-pop_to :
      (n : ℕ) (xs : List (StreamChunk P)) (k : StreamChunk P)
      → 0 < n
      → last? (pop_to n (xs ++ k ∷ [])) ≡ some k
  unfolding pop_to
  last?-pop_to n [] k h = ground arith
  last?-pop_to n (x ∷ xs) k h = elim (Bool-cases (ltb n (length (x ∷ xs ++ k ∷ [])))) [
    | inl more ↦ rw more (last?-pop_to n xs k h)
    | inr fits ↦ rw fits (last?-append_one (x ∷ xs) k)
  ]

  last_keyframe :
      (before after : List (StreamChunk P)) (k : StreamChunk P) (n now : ℕ) (r : StreamRelay P)
      → is_init_chunk k ≡ false
      → is_video_keyframe k ≡ true
      → keyframes after ≡ []
      → length r.keyframe_buffer ≤ r.max_keyframes
      → 0 < r.max_keyframes
      → last? (add_chunks (before ++ k ∷ after) n now r).keyframe_buffer ≡ some k
  last_keyframe before after k n now r i v none_after h pos =
      rw
        (
          keyframe_buffer-add_chunks (before ++ k ∷ after) n now r h,
          keyframes_split before after k i v none_after,
          ← append_assoc r.keyframe_buffer (keyframes before) (k ∷ []),
        )
        (last?-pop_to r.max_keyframes (r.keyframe_buffer ++ keyframes before) k pos)

  chunks_since :
      (before after : List (StreamChunk P)) (k : StreamChunk P) (n now : ℕ) (r : StreamRelay P)
      → r.buffer ≡ []
      → All (λ c. c.sequence ≤ k.sequence) (before ++ k ∷ [])
      → All (λ c. k.sequence < c.sequence) after
      → length after ≤ n
      → get_chunks_since k.sequence (add_chunks (before ++ k ∷ after) n now r) ≡ after
  unfolding get_chunks_since
  chunks_since before after k n now r empty low high fits =
      rw
        (
          buffer-add_chunks (before ++ k ∷ after) n now r (rw empty (omega arith)),
          empty,
          ← append_assoc before (k ∷ []) after,
        )
        (keep-pop_to (λ c. ltb k.sequence c.sequence) n (before ++ k ∷ []) after
          (All-map (λ c h. le→ltb_false _ _ h) (before ++ k ∷ []) low)
          (All-map (λ c h. lt→ltb _ _ h) after high) fits)

  -- A run of chunks into a new stream: `before`, then the video keyframe `k`, then `after` with no
  -- further keyframe. If the sequence numbers before `k` are at most its own and those after it are
  -- higher, and `after` fits the buffer, then a late joiner gets the last initialization segment, if
  -- any came, then `k` and all that followed it, in order, and nothing else.
  pub get_catchup_chunks_complete :
      (before after : List (StreamChunk P)) (k : StreamChunk P) (id : StreamId) (publisher : P)
      (n now : ℕ)
      → is_init_chunk k ≡ false
      → is_video_keyframe k ≡ true
      → keyframes after ≡ []
      → All (λ c. c.sequence ≤ k.sequence) before
      → All (λ c. k.sequence < c.sequence) after
      → length after ≤ n
      → get_catchup_chunks (add_chunks (before ++ k ∷ after) n now (new id publisher now))
        ≡ elim (last_init none (before ++ k ∷ after)) [ none ↦ [] | some i ↦ i ∷ [] ] ++ k ∷ after
  unfolding get_catchup_chunks new
  get_catchup_chunks_complete before after k id publisher n now i v none_after low high fits =
      let cs : List (StreamChunk P) = before ++ k ∷ after in
      let r : StreamRelay P = new id publisher now in
      rw (
        init_segment-add_chunks cs n now r,
        last_keyframe before after k n now r i v none_after (omega arith) (omega arith),
        chunks_since before after k n now r refl
            (All-append (λ c. c.sequence ≤ k.sequence) before (k ∷ []) low (omega arith)) high fits,
      )
