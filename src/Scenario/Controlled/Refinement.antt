-- ===== src/Scenario/Controlled/Refinement.antt =====
-- With no interruption the controlled evaluator does what `evaluate_batch` does.
use prospect_engine.Base.{
  ℕ, suc, ◌+◌, ◌≤◌, ◌≡◌, refl, sym, ap, ◌∙◌, false, Option, none, some, List, [], ◌∷◌, ◌++◌, Result,
  ok, err, length, arith, length-append,
}
use mathlib.Core.List.{append-nil, append_assoc}
use prospect_engine.Base.Effects.{and_then, return}
use prospect_engine.Base.Sets.{IsDistinct, first_duplicate-none_iff}
use prospect_engine.Core.{Scenario, ProspectiveEngine, scenario_id_key}
use prospect_engine.Scenario.{ScenarioOutcome, BatchResult, evaluate_each, evaluate_batch}
use prospect_engine.Scenario.Controlled.{
  EvaluationControl, InterruptionReason, BatchStatus, BatchExecution, Host, ProgressUpdate,
  engine_failed, checkpoint, baseline_returned, admitted, evaluate_with_clock, run_candidates,
}
use prospect_engine.Scenario.Controlled.Rules.{run_nil_rule, run_cons_rule, admitted_none_rule}
use prospect_engine.Scenario.Controlled.Gate.{ids}

-- Nothing interrupts: the signal is never set, there is no deadline, and neither the clock nor the
-- callback changes the world.
pub record IsQuiet {ℓ} {W : Type ℓ} (control : EvaluationControl W) (host : Host W) : Type ℓ where
  pub not_cancelled : (w : W) → control.cancellation.load w ≡ false
  pub no_deadline : control.deadline ≡ none
  pub clock_silent : (w : W) → (host.now w).1 ≡ w
  pub progress_silent : (u : ProgressUpdate) (w : W) → host.progress u w ≡ w

-- What a terminal report says of the whole batch, if it says so.
abbrev pub verdict_of {ℓ} :
    {I S E : Type ℓ}
    → Option S
    → BatchStatus I E
    → List (ScenarioOutcome I S)
    → Option (Result (BatchResult I S) E)
verdict_of (some b) BatchStatus.completed os = some (ok (record { baseline = b; outcomes = os }))
verdict_of none BatchStatus.completed os = none
verdict_of _ (engine_failed _ e) os = some (err e)
verdict_of _ _ os = none

abbrev pub verdict {ℓ} :
    {I S E W : Type ℓ} → BatchExecution I S E × W → Option (Result (BatchResult I S) E) × W
verdict (r, w) = (verdict_of r.baseline r.status r.outcomes, w)

-- A result that is there.
abbrev pub certain {ℓ} : {A E W : Type ℓ} → Result A E × W → Option (Result A E) × W
certain (r, w) = (some r, w)

-- The result of the remaining loop, behind the outcomes so far.
abbrev extend {ℓ} :
    {I S E W : Type ℓ}
    → S
    → List (ScenarioOutcome I S)
    → Result (List (ScenarioOutcome I S)) E × W
    → Option (Result (BatchResult I S) E) × W
extend b os (ok rest, w) = (some (ok (record { baseline = b; outcomes = os ++ rest })), w)
extend b os (err e, w) = (some (err e), w)

module _ {ℓ} {State I S E W : Type ℓ} (engine : ProspectiveEngine State I S E W) (state : State)
    (control : EvaluationControl W) (host : Host W) (quiet : IsQuiet control host) where
  checkpoint_passes :
      (w : W) (count pending : ℕ)
      → count + pending ≤ control.max_evaluations
      → checkpoint engine state control host w count pending ≡ (none, w)
  unfolding checkpoint
  checkpoint_passes w count pending h =
      ground (arith, quiet.not_cancelled (host.now w).1, quiet.no_deadline, quiet.clock_silent w)

  extend_push :
      (b : S) (os : List (ScenarioOutcome I S)) (o : ScenarioOutcome I S)
      (r : Result (List (ScenarioOutcome I S)) E × W)
      → extend b (os ++ o ∷ []) r ≡ extend b os (and_then (λ rest. return (o ∷ rest)) r)
  extend_push b os o (ok rest, w) = rw append_assoc
  extend_push b os o (err e, w) = refl

  passes_none :
      {c : Option InterruptionReason × W} {w w' : W} → c ≡ (none, w) → c ≡ (none, w') → w' ≡ w
  passes_none h k = ap (λ p. p.1) (sym k ∙ h)

  passes_some :
      {c : Option InterruptionReason × W} {r : InterruptionReason} {w w' : W}
      → c ≡ (none, w)
      → c ≡ (some r, w')
      → ⊥
  passes_some {r = r} h k =
      let e : ◌≡◌ {A = Option InterruptionReason} none (some r) = ap (λ p. p.0) (sym h ∙ k) in cc

  run_candidates-extend :
      (total : ℕ) (b : S) (ss : List (Scenario I)) (os : List (ScenarioOutcome I S)) (w : W)
      → length os + length ss ≤ control.max_evaluations
      → verdict (run_candidates engine state control host total b ss os w)
        ≡ extend b os (evaluate_each engine state ss w)
  unfolding evaluate_each
  run_candidates-extend total b [] os w h =
      run_nil_rule engine state control host (λ r. verdict r ≡ extend b os (ok [], w)) total b os w
        (λ r w' c. absurd (passes_some (checkpoint_passes w (length os) 0 h) c))
        (λ w' c. rw (passes_none (checkpoint_passes w (length os) 0 h) c, append-nil))
  run_candidates-extend total b (s ∷ ss) os w h =
      run_cons_rule engine state control host
        (λ r. verdict r ≡ extend b os (evaluate_each engine state (s ∷ ss) w)) total b s ss os w
        (λ r w' c. absurd (passes_some (checkpoint_passes w (length os) (suc (length ss)) h) c))
        (λ w₁ e w₂ c q.
          let same = passes_none (checkpoint_passes w (length os) (suc (length ss)) h) c in
          rw (rw same at q))
        (λ w₁ signature w₂ c q.
          let same = passes_none (checkpoint_passes w (length os) (suc (length ss)) h) c in
          let o : ScenarioOutcome I S = record { scenario = s; signature = signature } in
          rw (rw same at q) (
            rw (quiet.progress_silent _ w₂) (
              run_candidates-extend total b ss (os ++ o ∷ []) w₂
                (omega (arith, length-append os (o ∷ [])))
              ∙ extend_push b os o (evaluate_each engine state ss w₂))))

  -- the rest of `evaluate_batch` behind the baseline
  abbrev rest_of_batch : List (Scenario I) → S → W → Result (BatchResult I S) E × W
  rest_of_batch ss b w =
      and_then (λ os. return (record { baseline = b; outcomes = os }))
        (evaluate_each engine state ss w)

  extend-nil :
      (b : S) (r : Result (List (ScenarioOutcome I S)) E × W)
      → extend b [] r ≡ certain (and_then (λ os. return (record { baseline = b; outcomes = os })) r)
  extend-nil b (ok os, w) = refl
  extend-nil b (err e, w) = refl

  baseline_returned-verdict :
      (ss : List (Scenario I)) (c : Result S E × W)
      → length ss ≤ control.max_evaluations
      → verdict (baseline_returned engine state control host ss c)
        ≡ certain (and_then (rest_of_batch ss) c)
  unfolding baseline_returned
  baseline_returned-verdict ss (ok b, w) h = rw (quiet.progress_silent _ w) (
      run_candidates-extend (length ss) b ss [] w (omega arith)
      ∙ extend-nil b (evaluate_each engine state ss w))
  baseline_returned-verdict ss (err e, w) h = refl

  verdict-admitted :
      (ss : List (Scenario I)) (w : W)
      → length ss ≤ control.max_evaluations
      → verdict (admitted engine state control host ss none w)
        ≡ certain (and_then (rest_of_batch ss) (engine.baseline state w))
  verdict-admitted ss w h =
      admitted_none_rule engine state control host
        (λ r. verdict r ≡ certain (and_then (rest_of_batch ss) (engine.baseline state w))) ss w
        (λ r w' c. absurd (passes_some (checkpoint_passes w 0 (length ss) (omega arith)) c))
        (λ w' c.
          rw (passes_none (checkpoint_passes w 0 (length ss) (omega arith)) c)
            (baseline_returned-verdict ss (engine.baseline state w) h))

  -- For distinct scenario ids within the quota, a quiet run returns the batch that
  -- `evaluate_batch` returns, or fails with its error, and leaves the same world.
  pub evaluate_with_clock-evaluate_batch :
      (ss : List (Scenario I)) (w : W)
      → IsDistinct (ids ss)
      → length ss ≤ control.max_evaluations
      → verdict (evaluate_with_clock engine state control host ss w)
        ≡ certain (evaluate_batch engine state ss w)
  unfolding evaluate_with_clock evaluate_batch
  evaluate_with_clock-evaluate_batch ss w d h = rw ((first_duplicate-none_iff (ids ss)).1 d) (
      rw (quiet.progress_silent _ (admitted engine state control host ss none w).1)
        (verdict-admitted ss w h))
