-- ===== src/Workflow/Saga/Built.antt =====
-- Sagas that `add_step` builds: the dependencies of a step are earlier steps, so that the steps can
-- be ranked.
use liongate.Base.{
  ℕ, ◌<◌, Bool, true, false, ◌||◌, List, [], ◌∷◌, ◌++◌, ◌∈◌, Memᴰ, if◌then◌else◌, all, length,
  length-append, arith, ◌≡◌, ◌⊎◌, refl, ap, inl, inr, Bool-cases,
}
use liongate.Base.Eq.{text_Eq}
use liongate.Base.HashSet.{contains}
use liongate.Base.Text.{Text, text_eq, text_eq_iff, text_eq_refl}
use liongate.Workflow.Saga.{SagaStepDefinition}
use liongate.Workflow.Saga.Definition.{SagaDefinition, new, add_step, has_step}

all-contains :
    (p : Text → Bool) (x : Text) (xs : List Text)
    → all p xs ≡ true
    → contains x xs ≡ true
    → p x ≡ true
all-contains p x [] h m = cc
all-contains p x (y ∷ xs) h m =
    ground (arith, h, m, all-contains p x xs, text_eq_iff y x, ap p {x = y} {y = x})

module _ {J : Type 0} where
  -- What calls of `new` and `add_step` build.
  pub data IsBuilt : SagaDefinition J → Type 0 where
    created : (null : J) (id name : Text) → IsBuilt (new null id name)
    added :
        (saga : SagaDefinition J) (step : SagaStepDefinition J)
        → IsBuilt saga
        → IsBuilt (add_step saga step).1

  -- The dependencies of a step are steps of lower rank.
  pub record IsRanked (steps : List (SagaStepDefinition J)) (rank : Text → ℕ) : Type 0 where
    pub lower :
        (s : SagaStepDefinition J) (x : Text)
        → s ∈ steps
        → contains x s.dependencies ≡ true
        → rank x < rank s.id
    pub bound : (x : Text) → has_step x steps ≡ true → rank x < length steps
    pub known :
        (s : SagaStepDefinition J) (x : Text)
        → s ∈ steps
        → contains x s.dependencies ≡ true
        → has_step x steps ≡ true

  pub has_step-mem :
      (s : SagaStepDefinition J) (steps : List (SagaStepDefinition J))
      → s ∈ steps
      → has_step s.id steps ≡ true
  has_step-mem s [] m = elim m [ ]
  has_step-mem s (x ∷ steps) (Memᴰ.head e) = rw (← e, text_eq_refl s.id) refl
  has_step-mem s (x ∷ steps) (Memᴰ.tail m) = ground (arith, has_step-mem s steps m)

  has_step-append :
      (x : Text) (steps : List (SagaStepDefinition J)) (step : SagaStepDefinition J)
      → has_step x (steps ++ (step ∷ [])) ≡ (has_step x steps || text_eq step.id x)
  has_step-append x [] step = ground arith
  has_step-append x (s ∷ steps) step = ground (arith, has_step-append x steps step)

  mem-append :
      (s : SagaStepDefinition J) (steps : List (SagaStepDefinition J)) (step : SagaStepDefinition J)
      → s ∈ steps ++ (step ∷ [])
      → (s ∈ steps) ⊎ (s ≡ step)
  mem-append s [] step (Memᴰ.head e) = inr e
  mem-append s [] step (Memᴰ.tail m) = elim m [ ]
  mem-append s (x ∷ steps) step (Memᴰ.head e) = inl (Memᴰ.head e)
  mem-append s (x ∷ steps) step (Memᴰ.tail m) = elim (mem-append s steps step m) [
    | inl k ↦ inl (Memᴰ.tail k)
    | inr e ↦ inr e
  ]

  -- The rank of a new step is the number of steps before it.
  abbrev extended : List (SagaStepDefinition J) → SagaStepDefinition J → (Text → ℕ) → Text → ℕ
  extended steps step rank x = if text_eq step.id x then length steps else rank x

  extended-IsRanked :
      (steps : List (SagaStepDefinition J)) (step : SagaStepDefinition J) (rank : Text → ℕ)
      → has_step step.id steps ≡ false
      → all (λ dep. has_step dep steps) step.dependencies ≡ true
      → IsRanked steps rank
      → IsRanked (steps ++ (step ∷ [])) (extended steps step rank)
  extended-IsRanked steps step rank fresh deps r = record {
    lower = λ s x m h. elim (mem-append s steps step m) [
      | inl old ↦ ground (
        arith,
        fresh,
        r.lower s x old h,
        r.known s x old h,
        has_step-mem s steps old,
        text_eq_iff step.id s.id,
        text_eq_iff step.id x,
        ap (λ y. has_step y steps) {x = step.id} {y = s.id},
        ap (λ y. has_step y steps) {x = step.id} {y = x},
      )
      | inr same ↦
          let there : has_step x steps ≡ true =
            all-contains (λ dep. has_step dep steps) x step.dependencies deps (rw same at h) in
          rw same (
            ground (
              arith,
              fresh,
              there,
              r.bound x there,
              text_eq_refl step.id,
              text_eq_iff step.id x,
              ap (λ y. has_step y steps) {x = step.id} {y = x},
            ))
    ];
    bound = λ x h.
        ground (arith, h, r.bound x, has_step-append x steps step, length-append steps (step ∷ []));
    known = λ s x m h. elim (mem-append s steps step m) [
      | inl old ↦ ground (arith, r.known s x old h, has_step-append x steps step)
      | inr same ↦ ground (
        arith,
        all-contains (λ dep. has_step dep steps) x step.dependencies deps (rw same at h),
        has_step-append x steps step,
      )
    ];
  }

  pub IsBuilt-IsRanked :
      (saga : SagaDefinition J) → IsBuilt saga → (rank : Text → ℕ) × IsRanked saga.steps rank
  unfolding new add_step
  IsBuilt-IsRanked saga (created null id name) = (
    (λ x. 0),
    record { lower = λ s x m h. elim m [ ]; bound = λ x h. cc; known = λ s x m h. elim m [ ] },
  )
  IsBuilt-IsRanked saga' (added saga step b) =
      let (rank, r) = IsBuilt-IsRanked saga b in
      elim (Bool-cases (has_step step.id saga.steps)) [
        | inl taken ↦ (rank, rw (add_step, taken) r)
        | inr fresh ↦ elim (Bool-cases (all (λ dep. has_step dep saga.steps) step.dependencies)) [
          | inl deps ↦ (
            extended saga.steps step rank,
            rw (add_step, fresh, deps) (extended-IsRanked saga.steps step rank fresh deps r),
          )
          | inr missing ↦ (rank, rw (add_step, fresh, missing) r)
        ]
      ]
