-- ===== src/Pubsub/Validation/Composite.antt =====
-- core/src/pubsub/validation.rs: what a composite validator answers, from what its validators answer.
use open_broadcast_network.Prelude.{
  ℕ, ◌≡◌, refl, ap, Bool, true, false, ◌||◌, Option, some, none, List, [], ◌∷◌, any, if◌then◌else◌,
}
use open_broadcast_network.Pubsub.Message.{Message}
use open_broadcast_network.Pubsub.Validation.{
  ValidationResult, accept, reject, pending, ignore, Boxed, step, composite_loop,
  composite_validate,
}

abbrev pub is_pending : ValidationResult → Bool
is_pending pending = true
is_pending accept = false
is_pending reject = false
is_pending ignore = false

-- The first answer that settles the matter.
abbrev pub first_settled : List ValidationResult → Option ValidationResult
first_settled [] = none
first_settled (reject ∷ rs) = some reject
first_settled (ignore ∷ rs) = some ignore
first_settled (accept ∷ rs) = first_settled rs
first_settled (pending ∷ rs) = first_settled rs

-- The validators after a message: those up to the one that settles it have seen it, and the others
-- have not.
module _ {Peer Json : Type 0} (now : ℕ) (m : Message Json) (source : Option Peer) where
  abbrev pub answers : List (Boxed Peer Json) → List ValidationResult
  answers [] = []
  answers (b ∷ bs) = (step now m source b).1 ∷ answers bs

  abbrev pub seen_by : List (Boxed Peer Json) → List ValidationResult → List (Boxed Peer Json)
  seen_by [] rs = []
  seen_by (b ∷ bs) [] = b ∷ bs
  seen_by (b ∷ bs) (reject ∷ rs) = (step now m source b).0 ∷ bs
  seen_by (b ∷ bs) (ignore ∷ rs) = (step now m source b).0 ∷ bs
  seen_by (b ∷ bs) (accept ∷ rs) = (step now m source b).0 ∷ seen_by bs rs
  seen_by (b ∷ bs) (pending ∷ rs) = (step now m source b).0 ∷ seen_by bs rs

  -- What is answered for a list of answers.
  abbrev pub verdict : Bool → List ValidationResult → ValidationResult
  verdict waiting rs = elim (first_settled rs) [
    | some r ↦ r
    | none ↦ if waiting || any is_pending rs then pending else accept
  ]

  verdict_pending :
      (waiting : Bool) (rs : List ValidationResult)
      → verdict true rs ≡ verdict waiting (pending ∷ rs)
  verdict_pending true rs = refl
  verdict_pending false rs = refl

  composite_loop_lem :
      (waiting : Bool) (bs : List (Boxed Peer Json))
      → composite_loop now m source waiting bs
        ≡ (seen_by bs (answers bs), verdict waiting (answers bs))
  unfolding composite_loop
  composite_loop_lem true [] = refl
  composite_loop_lem false [] = refl
  composite_loop_lem waiting (b ∷ bs) =
      go (step now m source b).1 refl (composite_loop_lem true bs) (composite_loop_lem waiting bs)
    where
      go :
          (r : ValidationResult)
          → (step now m source b).1 ≡ r
          → composite_loop now m source true bs
            ≡ (seen_by bs (answers bs), verdict true (answers bs))
          → composite_loop now m source waiting bs
            ≡ (seen_by bs (answers bs), verdict waiting (answers bs))
          → composite_loop now m source waiting (b ∷ bs)
            ≡ (seen_by (b ∷ bs) (answers (b ∷ bs)), verdict waiting (answers (b ∷ bs)))
      go accept e p q = rw (e, composite_loop, q) refl
      go reject e p q = rw (e, composite_loop) refl
      go ignore e p q = rw (e, composite_loop) refl
      go pending e p q =
          rw (e, composite_loop, p)
            (ap (λ (r : ValidationResult). ((step now m source b).0 ∷ seen_by bs (answers bs), r))
              (verdict_pending waiting (answers bs)))

  -- A composite validator answers what the first of its validators that rejects or ignores the
  -- message answers; where none does, that the message is pending if one of them says so, and else
  -- it accepts. The validators up to the one that settles it have seen the message, and the others
  -- are as they were.
  pub composite_validate-verdict :
      (validators : List (Boxed Peer Json))
      → composite_validate now m source validators
        ≡ (seen_by validators (answers validators), verdict false (answers validators))
  unfolding composite_validate
  composite_validate-verdict validators = composite_loop_lem false validators
