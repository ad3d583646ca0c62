-- ===== src/Epoch/Due.antt =====
-- When a submission of `_set_weights_once_per_epoch` is due: the state against what was submitted.
use mathlib.Core.Option
use kubetee_subnet.Base.{
  ◌+◌, ◌≤◌, ◌<◌, ◌≡◌, refl, ◌⊎◌, inl, inr, true, false, List, [], ◌∷◌, ◌++◌, head?, Bool-cases,
  arith,
}
use kubetee_subnet.Epoch.{
  Submitter, Answers, Submission, epoch, current_epoch, rate_limit, is_submitted, is_cooling,
  set_weights_once_per_epoch,
}
use kubetee_subnet.Epoch.Once.{Lifetime, start, call}

module _ {W : Type 0} where
  -- The state is the epoch and the block of the latest submission.
  abbrev pub IsLatest : Submitter → List (Submission W) → Type 0
  IsLatest s sent =
      (s.last_submitted_epoch ≡ Option.map (λ x. x.epoch) (head? sent))
      × (s.last_set_block ≡ Option.map (λ x. x.block) (head? sent))

  call-IsLatest :
      (a : Answers W) (weights : W) (s : Submitter) (sent : List (Submission W))
      → IsLatest s sent
      → (let step = set_weights_once_per_epoch a weights s in
          IsLatest step.state (step.sent ++ sent))
  unfolding set_weights_once_per_epoch
  call-IsLatest a weights s sent h =
      elim (Bool-cases (is_submitted s.last_submitted_epoch (current_epoch a))) [
        | inl e ↦ rw e h
        | inr new ↦ elim (Bool-cases (is_cooling s.last_set_block (epoch a) (rate_limit a))) [
          | inl e ↦ rw (new, e) h
          | inr cool ↦ elim (Bool-cases (a.accepts weights)) [
            | inr e ↦ rw (new, cool, e) h
            | inl e ↦ rw (new, cool, e) (refl, refl)
          ]
        ]
      ]

  latest : {s : Submitter} {sent : List (Submission W)} → Lifetime s sent → IsLatest s sent
  latest start = (refl, refl)
  latest (call {s} {sent} a weights life) = call-IsLatest a weights s sent (latest life)

  -- A submission is due: the epoch is later than the latest one, and the rate limit's blocks have passed.
  abbrev pub IsDue : Answers W → List (Submission W) → Type 0
  IsDue a [] = Unit
  IsDue a (x ∷ sent) = (x.epoch < current_epoch a) × (x.block + rate_limit a ≤ epoch a)

  due-open :
      (a : Answers W) (s : Submitter) (sent : List (Submission W))
      → IsLatest s sent
      → IsDue a sent
      → (is_submitted s.last_submitted_epoch (current_epoch a) ≡ false)
        × (is_cooling s.last_set_block (epoch a) (rate_limit a) ≡ false)
  due-open a s [] h due = rw (h.0, h.1) (refl, refl)
  due-open a s (x ∷ sent) h due = rw (h.0, h.1) (ground arith, ground arith)

  open-IsDue :
      (a : Answers W) (s : Submitter) (sent : List (Submission W))
      → IsLatest s sent
      → is_submitted s.last_submitted_epoch (current_epoch a) ≡ false
      → is_cooling s.last_set_block (epoch a) (rate_limit a) ≡ false
      → IsDue a sent
  open-IsDue a s [] h new cool = tt
  open-IsDue a s (x ∷ sent) h new cool =
      let new' = rw h.0 at new in let cool' = rw h.1 at cool in (ground arith, ground arith)

  -- A call in a validator's lifetime submits the weights exactly where a submission is due and the
  -- chain accepts it; it then submits these weights, once. Otherwise it submits nothing and what the
  -- validator keeps stays as it was.
  pub set_weights_once_per_epoch-IsDue :
      (s : Submitter) (sent : List (Submission W)) (a : Answers W) (weights : W)
      → Lifetime s sent
      → ((IsDue a sent × (a.accepts weights ≡ true))
          × ((set_weights_once_per_epoch a weights s).sent
              ≡ record {
                epoch = current_epoch a;
                block = epoch a;
                rate_limit = rate_limit a;
                weights = weights;
              }
                ∷ []))
        ⊎ ((IsDue a sent × (a.accepts weights ≡ true) → ⊥)
            × ((set_weights_once_per_epoch a weights s).sent ≡ [])
            × ((set_weights_once_per_epoch a weights s).state ≡ s))
  unfolding set_weights_once_per_epoch
  set_weights_once_per_epoch-IsDue s sent a weights life =
      let known = latest life in
      elim (Bool-cases (is_submitted s.last_submitted_epoch (current_epoch a))) [
        | inl e ↦ inr ((λ h. cc (e, (due-open a s sent known h.0).0)), rw e refl, rw e refl)
        | inr new ↦ elim (Bool-cases (is_cooling s.last_set_block (epoch a) (rate_limit a))) [
          | inl e ↦
              inr
                ((λ h. cc (e, (due-open a s sent known h.0).1)), rw (new, e) refl, rw (new, e) refl)
          | inr cool ↦ elim (Bool-cases (a.accepts weights)) [
            | inr e ↦ inr ((λ h. cc (e, h.1)), rw (new, cool, e) refl, rw (new, cool, e) refl)
            | inl e ↦ inl ((open-IsDue a s sent known new cool, e), rw (new, cool, e) refl)
          ]
        ]
      ]
