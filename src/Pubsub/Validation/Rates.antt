-- ===== src/Pubsub/Validation/Rates.antt =====
-- core/src/pubsub/validation.rs: how many messages of a source the rate limit lets through.
use mathlib.Core.Path.{subst}
use open_broadcast_network.Prelude.{
  list_beq_iff, ℕ, suc, ◌+◌, ◌-◌, ◌/◌, ◌^◌, ◌≤◌, ◌<◌, min, max, ◌≡◌, refl, ◌∙◌, ap, sym, inl, inr,
  Bool, true, false, some, none, List, [], ◌∷◌, length, All, add64_small, leb, if◌then◌else◌, ◌==◌,
  nat_eq, Bool-cases, Option-cases, arith, beq_refl,
}
use open_broadcast_network.Prelude.Bytes.{bytes_eq}
use open_broadcast_network.Prelude.Maps.{get, get-insert}
use open_broadcast_network.Pubsub.Validation.{
  StreamDataValidator, count_message, rate_entry, check_rate_limit,
}

-- Calls of the rate limit: the source's text and the clock's reading.
abbrev pub Call : Type 0
Call = List ℕ × ℕ

-- How many calls are the source's, and how many of those are let through.
abbrev pub calls_of : List ℕ → List Call → ℕ
calls_of source [] = 0
calls_of source ((s, now) ∷ calls) =
    let rest = calls_of source calls in if s == source then suc rest else rest

unfoldable pub allowed_of : List ℕ → List Call → StreamDataValidator → ℕ
allowed_of source [] v = 0
allowed_of source ((s, now) ∷ calls) v =
    let rest = allowed_of source calls (check_rate_limit s now v).0 in
    if s == source then (if (check_rate_limit s now v).1 then suc rest else rest) else rest

-- The clock reads less than a second after a time.
abbrev Before : ℕ → Call → Type 0
Before t (s, now) = now < t + 1000

-- The clock reads from a time on, and less than a second after it.
abbrev pub InSecond : ℕ → Call → Type 0
InSecond t (s, now) = (t ≤ now) × (now < t + 1000)

abbrev Tracker : Type 0
Tracker = List (List ℕ × (ℕ × ℕ))

-- The count and the start of a source's window after a message of it.
module _ (s : List ℕ) (now : ℕ) (v : StreamDataValidator) where
  get-check_rate_limit :
      (source : List ℕ)
      → get source (check_rate_limit s now v).0.rate_tracker ≡ (
          if s == source
          then some
              (count_message v.max_messages_per_second now (rate_entry s now v.rate_tracker)).0
          else get source v.rate_tracker)
  unfolding check_rate_limit
  get-check_rate_limit source =
      get-insert s source
        (count_message v.max_messages_per_second now (rate_entry s now v.rate_tracker)).0
        v.rate_tracker

  answer_lem :
      (check_rate_limit s now v).1
      ≡ (count_message v.max_messages_per_second now (rate_entry s now v.rate_tracker)).1
  unfolding check_rate_limit
  answer_lem = refl

  limit_kept : (check_rate_limit s now v).0.max_messages_per_second ≡ v.max_messages_per_second
  unfolding check_rate_limit
  limit_kept = refl

rate_entry_found :
    (s : List ℕ) (now : ℕ) (t : Tracker) (e : ℕ × ℕ) → get s t ≡ some e → rate_entry s now t ≡ e
unfolding rate_entry
rate_entry_found s now t e h = rw (h, rate_entry) refl

rate_entry_new :
    (s : List ℕ) (now : ℕ) (t : Tracker) → get s t ≡ none → rate_entry s now t ≡ (0, now)
unfolding rate_entry
rate_entry_new s now t h = rw (h, rate_entry) refl

count_message_within :
    (limit now c start : ℕ)
    → now < start + 1000
    → c + 1 < 2 ^ 64
    → count_message limit now (c, start) ≡ ((c + 1, start), leb (c + 1) limit)
unfolding count_message
count_message_within limit now c start h k =
    let same : (now - start) / 1000 ≡ 0 = omega arith in rw (same, add64_small c 1 k) refl

count_message_after :
    (limit now c start : ℕ)
    → start + 1000 ≤ now
    → count_message limit now (c, start) ≡ ((1, now), true)
unfolding count_message
count_message_after limit now c start h =
    let more : leb 1 ((now - start) / 1000) ≡ true = ground arith in rw more refl

-- A call of the source, and one of another source, at the head of the run.
module _ (source : List ℕ) (now : ℕ) (calls : List Call) (v : StreamDataValidator) where
  allowed_of-own : allowed_of source ((source, now) ∷ calls) v ≡ (
      if (check_rate_limit source now v).1
      then suc (allowed_of source calls (check_rate_limit source now v).0)
      else allowed_of source calls (check_rate_limit source now v).0)
  unfolding allowed_of
  allowed_of-own = rw (beq_refl source, allowed_of) refl

  allowed_of-other :
      (s : List ℕ)
      → (s == source) ≡ false
      → (allowed_of source ((s, now) ∷ calls) v
          ≡ allowed_of source calls (check_rate_limit s now v).0)
        × (calls_of source ((s, now) ∷ calls) ≡ calls_of source calls)
        × (get source (check_rate_limit s now v).0.rate_tracker ≡ get source v.rate_tracker)
  unfolding allowed_of
  allowed_of-other s other = (
    rw (other, allowed_of) refl,
    rw other refl,
    get-check_rate_limit s now v source ∙ (rw other refl),
  )

  -- After a call of the source, what is counted for it.
  own_step :
      (entry : ℕ × ℕ) (answer : Bool)
      → count_message v.max_messages_per_second now (rate_entry source now v.rate_tracker)
        ≡ (entry, answer)
      → ((check_rate_limit source now v).1 ≡ answer)
        × (get source (check_rate_limit source now v).0.rate_tracker ≡ some entry)
  own_step entry answer e = (
    answer_lem source now v ∙ ap (λ (r : (ℕ × ℕ) × Bool). r.1) e,
    get-check_rate_limit source now v source ∙ (rw (beq_refl source, e) refl),
  )

-- To show something of how many calls of a run are allowed, and how many there are.
split_call :
    (P : ℕ → ℕ → Type 0) (source s : List ℕ) (now : ℕ) (calls : List Call) (v : StreamDataValidator)
    → P (allowed_of source ((source, now) ∷ calls) v) (suc (calls_of source calls))
    → ((s == source) ≡ false
        → P (allowed_of source calls (check_rate_limit s now v).0) (calls_of source calls))
    → P (allowed_of source ((s, now) ∷ calls) v) (calls_of source ((s, now) ∷ calls))
split_call P source s now calls v own others = elim (Bool-cases (s == source)) [
  | inl same ↦ rw same (
      subst
        (λ (k : List ℕ). P (allowed_of source ((k, now) ∷ calls) v) (suc (calls_of source calls)))
        (sym ((list_beq_iff s source).0 same)) own)
  | inr other ↦
      let (a, b, kept) = allowed_of-other source now calls v s other in rw (a, b) (others other)
]

-- Inside a window, as many messages as are left of the limit.
within_window :
    (source : List ℕ) (calls : List Call) (v : StreamDataValidator) (c start : ℕ)
    → get source v.rate_tracker ≡ some (c, start)
    → All (Before start) calls
    → c + length calls < 2 ^ 64
    → allowed_of source calls v ≡ min (calls_of source calls) (v.max_messages_per_second - c)
within_window source [] v c start e h few = unfold allowed_of in omega arith
within_window source ((s, now) ∷ calls) v c start e (h, hs) few =
    let limit = v.max_messages_per_second in
    let found = rate_entry_found source now v.rate_tracker (c, start) e in
    let counted =
      ap (count_message limit now) found ∙ count_message_within limit now c start h (omega arith) in
    let (answer, kept) = own_step source now calls v (c + 1, start) (leb (c + 1) limit) counted in
    let ih =
      within_window source calls (check_rate_limit source now v).0 (c + 1) start kept hs
        (omega arith) in
    let lim = limit_kept source now v in
    let own : allowed_of source ((source, now) ∷ calls) v
        ≡ min (suc (calls_of source calls)) (limit - c) =
      rw (allowed_of-own source now calls v, answer, ih, lim) (ground arith) in
    split_call (λ (a n : ℕ). a ≡ min n (limit - c)) source s now calls v own
      (λ other.
        let (a, b, same) = allowed_of-other source now calls v s other in
        within_window source calls (check_rate_limit s now v).0 c start (same ∙ e) hs (omega arith)
        ∙ ap (λ (l : ℕ). min (calls_of source calls) (l - c)) (limit_kept s now v))

-- A source without a window starts one.
started :
    (source : List ℕ) (now : ℕ) (calls : List Call) (v : StreamDataValidator)
    → All (Before now) calls
    → 1 + length calls < 2 ^ 64
    → (answer : Bool)
    → count_message v.max_messages_per_second now (rate_entry source now v.rate_tracker)
      ≡ ((1, now), answer)
    → allowed_of source ((source, now) ∷ calls) v ≡ (
        if answer
        then suc (min (calls_of source calls) (v.max_messages_per_second - 1))
        else min (calls_of source calls) (v.max_messages_per_second - 1))
started source now calls v h few answer e =
    let (said, kept) = own_step source now calls v (1, now) answer e in
    let rest = within_window source calls (check_rate_limit source now v).0 1 now kept h few in
    rw (allowed_of-own source now calls v, said, rest, limit_kept source now v) refl

later : (t now : ℕ) (calls : List Call) → t ≤ now → All (InSecond t) calls → All (Before now) calls
later t now [] h hs = tt
later t now ((s, at) ∷ calls) h (k, ks) = (omega (arith, k.1), later t now calls h ks)

-- From a source that no message was counted for, less than a second brings as many messages past
-- the limit as there are, up to the limit, whatever other sources send in between.
pub new_source_limit :
    (source : List ℕ) (t : ℕ) (calls : List Call) (v : StreamDataValidator)
    → get source v.rate_tracker ≡ none
    → All (InSecond t) calls
    → length calls < 2 ^ 64
    → allowed_of source calls v ≡ min (calls_of source calls) v.max_messages_per_second
new_source_limit source t [] v e h few = unfold allowed_of in omega arith
new_source_limit source t ((s, now) ∷ calls) v e (h, hs) few =
    let limit = v.max_messages_per_second in
    let counted =
      ap (count_message limit now) (rate_entry_new source now v.rate_tracker e)
      ∙ count_message_within limit now 0 now (omega arith) (omega arith) in
    let first =
      started source now calls v (later t now calls h.0 hs) (omega arith) (leb 1 limit) counted in
    split_call (λ (a n : ℕ). a ≡ min n limit) source s now calls v (rw first (ground arith))
      (λ other.
        let (a, b, same) = allowed_of-other source now calls v s other in
        new_source_limit source t calls (check_rate_limit s now v).0 (same ∙ e) hs (omega arith)
        ∙ ap (min (calls_of source calls)) (limit_kept s now v))

-- The count of a source, and what it may still grow by.
abbrev pub Room : List ℕ → ℕ → StreamDataValidator → Type 0
Room source n v = (e : ℕ × ℕ) → get source v.rate_tracker ≡ some e → e.0 + n < 2 ^ 64

known_source :
    (source : List ℕ) (t : ℕ) (calls : List Call) (v : StreamDataValidator) (c start : ℕ)
    → get source v.rate_tracker ≡ some (c, start)
    → All (InSecond t) calls
    → c + length calls < 2 ^ 64
    → allowed_of source calls v ≤ (v.max_messages_per_second - c) + max 1 v.max_messages_per_second
known_source source t [] v c start e h few = unfold allowed_of in omega arith
known_source source t ((s, now) ∷ calls) v c start e (h, hs) few =
    let limit = v.max_messages_per_second in
    let found =
      ap (count_message limit now) (rate_entry_found source now v.rate_tracker (c, start) e) in
    split_call (λ (a n : ℕ). a ≤ (limit - c) + max 1 limit) source s now calls v
      (elim (Bool-cases (leb (start + 1000) now)) [
        | inl over ↦
            let counted = found ∙ count_message_after limit now c start (ground arith) in
            let first =
              started source now calls v (later t now calls h.0 hs) (omega arith) true counted in
            rw first (ground arith)
        | inr inside ↦
            let counted =
              found ∙ count_message_within limit now c start (ground arith) (omega arith) in
            let (answer, kept) =
              own_step source now calls v (c + 1, start) (leb (c + 1) limit) counted in
            let rest =
              known_source source t calls (check_rate_limit source now v).0 (c + 1) start kept hs
                (omega arith) in
            let lim = limit_kept source now v in
            rw (allowed_of-own source now calls v, answer) (ground (arith, rest, lim))
      ])
      (λ other.
        let (a, b, same) = allowed_of-other source now calls v s other in
        let rest =
          known_source source t calls (check_rate_limit s now v).0 c start (same ∙ e) hs
            (omega arith) in
        let lim = limit_kept s now v in omega (arith, rest, lim))

-- In less than a second the limit lets no more messages of a source past than the maximum of a
-- second and that maximum again, or one where it is zero, whatever happened before and whatever
-- other sources send.
pub any_second_limit :
    (source : List ℕ) (t : ℕ) (calls : List Call) (v : StreamDataValidator)
    → All (InSecond t) calls
    → 1 + length calls < 2 ^ 64
    → Room source (length calls) v
    → allowed_of source calls v ≤ v.max_messages_per_second + max 1 v.max_messages_per_second
any_second_limit source t calls v h few room = elim (Option-cases (get source v.rate_tracker)) [
  | inl nothing ↦
      let exact = new_source_limit source t calls v nothing h (omega arith) in omega (arith, exact)
  | inr (e, found) ↦
      let (c, start) = e in
      let bound = known_source source t calls v c start found h (room e found) in
      omega (arith, bound)
]
