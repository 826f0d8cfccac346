-- ===== src/Scenario/Laws.antt =====
-- What batch evaluation and selection by policy promise.
use prospect_engine.Base.{
  ◌≡◌, refl, ap, ◌⊎◌, inl, inr, Option, none, some, List, [], ◌∷◌, ◌++◌, ok, err, arith, Bool-cases,
}
use prospect_engine.Base.Effects.{and_then_cases, same_failure}
use prospect_engine.Base.Ord.{Ord, is_gt}
use prospect_engine.Base.Selection.{IsFirstMax, scan_max, scan_max-IsFirstMax}
use prospect_engine.Core.{Scenario, ProspectiveEngine, DecisionPolicy}
use prospect_engine.Scenario.{
  ScenarioOutcome, BatchResult, evaluate_each, evaluate_batch, best_from, best_by_policy,
}

module _ {ℓ} {State I S E W : Type ℓ} (engine : ProspectiveEngine State I S E W)
    (state : State) where
  -- `Calls ss w os w'`: one successful engine call for each scenario, in order, each from the
  -- world that the one before left.
  pub data Calls : List (Scenario I) → W → List (ScenarioOutcome I S) → W → Type ℓ where
    done : {w : W} → Calls [] w [] w
    call :
        {s : Scenario I} {ss : List (Scenario I)} {w w' w'' : W} {signature : S}
        {os : List (ScenarioOutcome I S)}
        → engine.evaluate state s.intervention w ≡ (ok signature, w')
        → Calls ss w' os w''
        → Calls (s ∷ ss) w (record { scenario = s; signature = signature } ∷ os) w''

  -- A run that failed: the calls before the failed one succeeded, and nothing was called after it.
  pub record FailedAt (ss : List (Scenario I)) (w : W) (error : E) (w' : W) : Type ℓ where
    pub before : List (Scenario I)
    pub failed : Scenario I
    pub after : List (Scenario I)
    pub outcomes : List (ScenarioOutcome I S)
    pub reached : W
    pub split : ss ≡ before ++ failed ∷ after
    pub calls : Calls before w outcomes reached
    pub failure : engine.evaluate state failed.intervention reached ≡ (err error, w')

  FailedAt-cons :
      (s : Scenario I) (ss : List (Scenario I)) {signature : S} {w w' w'' : W} {e : E}
      → engine.evaluate state s.intervention w ≡ (ok signature, w')
      → FailedAt ss w' e w''
      → FailedAt (s ∷ ss) w e w''
  FailedAt-cons s ss {signature} h k = record {
    before = s ∷ k.before;
    failed = k.failed;
    after = k.after;
    outcomes = record { scenario = s; signature = signature } ∷ k.outcomes;
    reached = k.reached;
    split = ap (λ l. s ∷ l) k.split;
    calls = call h k.calls;
    failure = k.failure;
  }

  evaluate_each_ok :
      (ss : List (Scenario I)) (w : W) {os : List (ScenarioOutcome I S)} {w' : W}
      → evaluate_each engine state ss w ≡ (ok os, w')
      → Calls ss w os w'
  unfolding evaluate_each
  evaluate_each_ok [] w {os} {w'} h =
      let e : os ≡ [] = ground arith in let e' : w' ≡ w = ground arith in rw (e, e') done
  evaluate_each_ok (s ∷ ss) w {os = os'} {w'} h =
      elim (and_then_cases _ (engine.evaluate state s.intervention w) h) [
        | inl (signature, w₁, called, k) ↦
            elim (and_then_cases _ (evaluate_each engine state ss w₁) k) [
              | inl (os, w₂, rest, q) ↦
                  let e : os' ≡ record { scenario = s; signature = signature } ∷ os =
                    ground arith in
                  let e' : w' ≡ w₂ = ground arith in
                  rw (e, e') (call called (evaluate_each_ok ss w₁ rest))
              | inr (e, w₂, rest, q) ↦ cc
            ]
        | inr (e, w₁, called, q) ↦ cc
      ]

  evaluate_each_err :
      (ss : List (Scenario I)) (w : W) {e : E} {w' : W}
      → evaluate_each engine state ss w ≡ (err e, w')
      → FailedAt ss w e w'
  unfolding evaluate_each
  evaluate_each_err [] w h = cc
  evaluate_each_err (s ∷ ss) w h =
      elim (and_then_cases _ (engine.evaluate state s.intervention w) h) [
        | inl (signature, w₁, called, k) ↦
            elim (and_then_cases _ (evaluate_each engine state ss w₁) k) [
              | inl (os, w₂, rest, q) ↦ cc
              | inr (e, w₂, rest, q) ↦
                  FailedAt-cons s ss called (evaluate_each_err ss w₁ (same_failure _ rest q))
            ]
        | inr (e, w₁, called, q) ↦ record {
          before = [];
          failed = s;
          after = ss;
          outcomes = [];
          reached = w;
          split = refl;
          calls = done;
          failure = same_failure _ called q;
        }
      ]

  -- A batch that succeeds holds the baseline that the engine returned and one outcome for each
  -- scenario, in input order, with the signature that the engine returned for that scenario.
  pub evaluate_batch_ok :
      (ss : List (Scenario I)) (w : W) {b : BatchResult I S} {w' : W}
      → evaluate_batch engine state ss w ≡ (ok b, w')
      → (w₁ : W) × (engine.baseline state w ≡ (ok b.baseline, w₁)) × Calls ss w₁ b.outcomes w'
  unfolding evaluate_batch
  evaluate_batch_ok ss w {b} {w'} h = elim (and_then_cases _ (engine.baseline state w) h) [
    | inl (baseline, w₁, called, k) ↦ elim (and_then_cases _ (evaluate_each engine state ss w₁) k) [
      | inl (os, w₂, rest, q) ↦
          let e : b ≡ record { baseline = baseline; outcomes = os } = ground arith in
          let e' : w' ≡ w₂ = ground arith in rw (e, e') (w₁, called, evaluate_each_ok ss w₁ rest)
      | inr (e, w₂, rest, q) ↦ cc
    ]
    | inr (e, w₁, called, q) ↦ cc
  ]

  -- A batch that fails reports the error of the call that failed: the baseline, or the call for a
  -- scenario before which every call succeeded. No call is made after it.
  pub evaluate_batch_err :
      (ss : List (Scenario I)) (w : W) {e : E} {w' : W}
      → evaluate_batch engine state ss w ≡ (err e, w')
      → (engine.baseline state w ≡ (err e, w'))
        ⊎ ((b : S) × (w₁ : W) × (engine.baseline state w ≡ (ok b, w₁)) × FailedAt ss w₁ e w')
  unfolding evaluate_batch
  evaluate_batch_err ss w h = elim (and_then_cases _ (engine.baseline state w) h) [
    | inl (baseline, w₁, called, k) ↦ elim (and_then_cases _ (evaluate_each engine state ss w₁) k) [
      | inl (os, w₂, rest, q) ↦ cc
      | inr (e, w₂, rest, q) ↦
          inr (baseline, w₁, called, evaluate_each_err ss w₁ (same_failure _ rest q))
    ]
    | inr (e, w₁, called, q) ↦ inl (same_failure _ called q)
  ]

module _ {ℓ} {I S Score : Type ℓ} ⦃o : Ord Score⦄ (policy : DecisionPolicy S Score) where
  -- the score that the policy gives an outcome
  abbrev pub outcome_utility : ScenarioOutcome I S → Score
  outcome_utility x = policy.utility x.signature

  best_from-scan_max :
      (b : ScenarioOutcome I S) (cs : List (ScenarioOutcome I S))
      → best_from policy b (outcome_utility b) cs
        ≡ (scan_max outcome_utility b cs, outcome_utility (scan_max outcome_utility b cs))
  unfolding best_from scan_max
  best_from-scan_max b [] = refl
  best_from-scan_max b (c ∷ cs) =
      elim (Bool-cases (is_gt (o.cmp (outcome_utility c) (outcome_utility b)))) [
        | inl g ↦ rw g (best_from-scan_max c cs)
        | inr l ↦ rw l (best_from-scan_max b cs)
      ]

  -- What `best_by_policy` returns for the outcomes of a batch.
  abbrev pub Selects : List (ScenarioOutcome I S) → Option (ScenarioOutcome I S × Score) → Type ℓ
  Selects os none = os ≡ []
  Selects os (some (b, score)) = IsFirstMax outcome_utility os b × (score ≡ outcome_utility b)

  Selects-scan :
      (os : List (ScenarioOutcome I S)) (s : S)
      → Selects os (best_by_policy policy (record { baseline = s; outcomes = os }))
  unfolding best_by_policy
  Selects-scan [] s = refl
  Selects-scan (c ∷ cs) s =
      rw (best_from-scan_max c cs) (scan_max-IsFirstMax outcome_utility c cs, refl)

  -- `best_by_policy` returns nothing only for a batch with no outcome. What it returns is the
  -- first outcome of greatest utility, with its utility.
  pub best_by_policy-Selects :
      (batch : BatchResult I S) → Selects batch.outcomes (best_by_policy policy batch)
  best_by_policy-Selects batch = Selects-scan batch.outcomes batch.baseline
