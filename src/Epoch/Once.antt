-- ===== src/Epoch/Once.antt =====
-- The submissions of a validator's lifetime: `_set_weights_once_per_epoch`, called again and again.
use kubetee_subnet.Base.{
  ℕ, ◌+◌, ◌≤◌, ◌<◌, ◌≡◌, inl, inr, false, Option, none, some, List, [], ◌∷◌, ◌++◌, All, Bool-cases,
  arith,
}
use kubetee_subnet.Epoch.{
  Submitter, Answers, Submission, epoch, current_epoch, rate_limit, is_submitted, is_cooling,
  set_weights_once_per_epoch, new_submitter,
}

-- A validator's calls in a row, the accepted submissions last first.
pub data Lifetime {W : Type 0} : Submitter → List (Submission W) → Type 0 where
  start : Lifetime new_submitter []
  call :
      {s : Submitter} {sent : List (Submission W)} (a : Answers W) (weights : W)
      → Lifetime s sent
      → Lifetime
          (set_weights_once_per_epoch a weights s).state
          ((set_weights_once_per_epoch a weights s).sent ++ sent)

AtMost : ℕ → Option ℕ → Type 0
AtMost n none = ⊥
AtMost n (some last) = n ≤ last

later_epoch :
    (e current : ℕ) (o : Option ℕ) → AtMost e o → is_submitted o current ≡ false → e < current
unfolding AtMost
later_epoch e current none h q = absurd h
later_epoch e current (some last) h q = ground arith

later_block :
    (b block limit : ℕ) (o : Option ℕ)
    → AtMost b o
    → is_cooling o block limit ≡ false
    → b + limit ≤ block
unfolding AtMost
later_block b block limit none h q = absurd h
later_block b block limit (some last) h q = ground arith

lt→le : {a b : ℕ} → a < b → a ≤ b
lt→le h = omega arith

block_le : (b limit block : ℕ) → b + limit ≤ block → b ≤ block
block_le b limit block h = omega arith

All-map :
    {A : Type 0} {P Q : A → Type 0} → ((a : A) → P a → Q a) → (xs : List A) → All P xs → All Q xs
All-map g [] h = tt
All-map g (x ∷ xs) h = (g x h.0, All-map g xs h.1)

module _ {W : Type 0} where
  -- The later submission is of a later epoch, and as many blocks later as the rate limit it was sent under.
  pub record IsAfter (later earlier : Submission W) : Type 0 where
    pub epoch_later : earlier.epoch < later.epoch
    pub cooled : earlier.block + later.rate_limit ≤ later.block

  -- Every submission is after all the earlier ones.
  abbrev pub IsSpaced : List (Submission W) → Type 0
  IsSpaced [] = Unit
  IsSpaced (x ∷ sent) = All (IsAfter x) sent × IsSpaced sent

  -- The state knows the latest epoch and block of the submissions.
  abbrev IsKnown : Submitter → Submission W → Type 0
  IsKnown s x = AtMost x.epoch s.last_submitted_epoch × AtMost x.block s.last_set_block

  -- A call keeps this.
  abbrev IsTracked : Submitter → List (Submission W) → Type 0
  IsTracked s sent = All (IsKnown s) sent × IsSpaced sent

  call-IsTracked :
      (a : Answers W) (weights : W) (s : Submitter) (sent : List (Submission W))
      → IsTracked s sent
      → (let step = set_weights_once_per_epoch a weights s in
          IsTracked step.state (step.sent ++ sent))
  unfolding set_weights_once_per_epoch AtMost
  call-IsTracked a weights s sent h =
      elim (Bool-cases (is_submitted s.last_submitted_epoch (current_epoch a))) [
        | inl e ↦ rw e h
        | inr new ↦ elim (Bool-cases (is_cooling s.last_set_block (epoch a) (rate_limit a))) [
          | inl e ↦ rw (new, e) h
          | inr cool ↦ elim (Bool-cases (a.accepts weights)) [
            | inr e ↦ rw (new, cool, e) h
            | inl e ↦
                let sooner : (x : Submission W) → IsKnown s x → x.epoch < current_epoch a =
                  λ x k. later_epoch x.epoch (current_epoch a) s.last_submitted_epoch k.0 new in
                let cooled : (x : Submission W) → IsKnown s x → x.block + rate_limit a ≤ epoch a =
                  λ x k. later_block x.block (epoch a) (rate_limit a) s.last_set_block k.1 cool in
                rw (new, cool, e)
                  (
                    (
                      (omega arith, omega arith),
                      All-map
                          (λ x k. (lt→le (sooner x k), block_le _ (rate_limit a) _ (cooled x k)))
                          sent h.0,
                    ),
                    (
                      All-map (λ x k. record { epoch_later = sooner x k; cooled = cooled x k }) sent
                          h.0,
                      h.1,
                    ),
                  )
          ]
        ]
      ]

  tracked : {s : Submitter} {sent : List (Submission W)} → Lifetime s sent → IsTracked s sent
  tracked start = (tt, tt)
  tracked (call {s} {sent} a weights life) = call-IsTracked a weights s sent (tracked life)

  -- Over a validator's lifetime every submission is of a later epoch than each earlier one, and comes
  -- at least the rate limit's blocks after it.
  pub set_weights_once_per_epoch-IsSpaced :
      (s : Submitter) (sent : List (Submission W)) → Lifetime s sent → IsSpaced sent
  set_weights_once_per_epoch-IsSpaced s sent life = (tracked life).1
