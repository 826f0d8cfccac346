-- ===== src/Scenario/Controlled/Ends.antt =====
-- How the end of a controlled run fits its quota, its deadline and its baseline.
use prospect_engine.Base.{
  is_some, is_empty, true, false, ℕ, suc, ◌≤◌, ◌<◌, ◌≡◌, ◌≢◌, refl, Option, none, some, List, [],
  ◌∷◌, ◌++◌, Result, ok, err, length, length-append, arith,
}
use prospect_engine.Core.{ScenarioId, Scenario, ProspectiveEngine, scenario_id_key}
use prospect_engine.Scenario.{ScenarioOutcome}
use prospect_engine.Scenario.Controlled.{
  EvaluationControl, InterruptionReason, BatchStatus, BatchExecution, Host, engine_failed,
  duplicate_scenario_id, checkpoint, report, run_candidates, unstarted, baseline_returned, admitted,
  evaluate_with_clock, expired,
}
use prospect_engine.Scenario.Controlled.Rules.{run_nil_rule, run_cons_rule, admitted_none_rule}

-- what an interruption says of the report it stands in
abbrev pub Interrupts {ℓ} :
    {I S E W : Type ℓ} → EvaluationControl W → InterruptionReason → BatchExecution I S E → Type 0
Interrupts control InterruptionReason.cancelled r = Unit
Interrupts control InterruptionReason.deadline_reached r = is_some control.deadline ≡ true
Interrupts control InterruptionReason.evaluation_limit_reached r =
    (is_empty r.pending ≡ false) × (length r.outcomes ≡ control.max_evaluations)

-- how a status fits the rest of the report
abbrev pub Fits {ℓ} :
    {I S E W : Type ℓ} → EvaluationControl W → BatchStatus I E → BatchExecution I S E → Type 0
Fits control BatchStatus.completed r = (is_some r.baseline ≡ true) × (is_empty r.pending ≡ true)
Fits control (BatchStatus.interrupted reason) r = Interrupts control reason r
Fits control (engine_failed (some s) e) r =
    (is_some r.baseline ≡ true) × (length r.outcomes < control.max_evaluations)
Fits control (engine_failed none e) r = (is_some r.baseline ≡ false) × (control.max_evaluations ≢ 0)
Fits control (duplicate_scenario_id id) r = Unit

pub record IsCoherent {ℓ} {I S E W : Type ℓ} (control : EvaluationControl W)
    (r : BatchExecution I S E) : Type ℓ where
  pub fits : Fits control r.status r
  pub within_quota : length r.outcomes ≤ control.max_evaluations
  pub after_baseline : is_some r.baseline ≡ false → r.outcomes ≡ []
  pub budgeted : is_some r.baseline ≡ true → control.max_evaluations ≢ 0

expired_some :
    (deadline : Option ℕ) (now : ℕ) → expired deadline now ≡ true → is_some deadline ≡ true
expired_some none now h = cc
expired_some (some d) now h = refl

module _ {ℓ} {State I S E W : Type ℓ} (engine : ProspectiveEngine State I S E W) (state : State)
    (control : EvaluationControl W) (host : Host W) where
  pub checkpoint_stops :
      (w w' : W) (count : ℕ) (pending : List (Scenario I)) (reason : InterruptionReason)
      (r : BatchExecution I S E)
      → checkpoint engine state control host w count (length pending) ≡ (some reason, w')
      → count ≤ control.max_evaluations
      → r.pending ≡ pending
      → length r.outcomes ≡ count
      → Interrupts control reason r
  unfolding checkpoint
  checkpoint_stops w w' count pending InterruptionReason.cancelled r h q a b = tt
  checkpoint_stops w w' count pending InterruptionReason.deadline_reached r h q a b =
      ground (arith, h, expired_some control.deadline (host.now w).0)
  checkpoint_stops w w' count [] InterruptionReason.evaluation_limit_reached r h q a b =
      ground (arith, h)
  checkpoint_stops w w' count (s ∷ ss) InterruptionReason.evaluation_limit_reached r h q a b =
      (rw a refl, ground (arith, h))

  pub checkpoint_goes :
      (w w' : W) (count pending : ℕ)
      → checkpoint engine state control host w count (suc pending) ≡ (none, w')
      → count < control.max_evaluations
  unfolding checkpoint
  checkpoint_goes w w' count pending h = ground arith

  run_candidates-IsCoherent :
      (total : ℕ) (b : S) (ss : List (Scenario I)) (os : List (ScenarioOutcome I S)) (w : W)
      → length os ≤ control.max_evaluations
      → control.max_evaluations ≢ 0
      → IsCoherent control (run_candidates engine state control host total b ss os w).0
  run_candidates-IsCoherent total b [] os w h m =
      run_nil_rule engine state control host (λ r. IsCoherent control r.0) total b os w
        (λ r w' c. record {
          fits =
              checkpoint_stops w w' (length os) [] r
                (report engine state control host total b os [] (BatchStatus.interrupted r)) c h
                refl refl;
          within_quota = h;
          after_baseline = λ q. cc;
          budgeted = λ q. m;
        })
        (λ w' c. record {
          fits = (refl, refl);
          within_quota = h;
          after_baseline = λ q. cc;
          budgeted = λ q. m;
        })
  run_candidates-IsCoherent total b (s ∷ ss) os w h m =
      run_cons_rule engine state control host (λ r. IsCoherent control r.0) total b s ss os w
        (λ r w' c. record {
          fits =
              checkpoint_stops w w' (length os) (s ∷ ss) r
                (report engine state control host total b os (s ∷ ss) (BatchStatus.interrupted r)) c
                h refl refl;
          within_quota = h;
          after_baseline = λ q. cc;
          budgeted = λ q. m;
        })
        (λ w₁ e w₂ c q. record {
          fits = (refl, checkpoint_goes w w₁ (length os) (length ss) c);
          within_quota = h;
          after_baseline = λ q. cc;
          budgeted = λ q. m;
        })
        (λ w₁ signature w₂ c q.
          run_candidates-IsCoherent total b ss
            (os ++ record { scenario = s; signature = signature } ∷ []) _
            (omega (
              arith,
              checkpoint_goes w w₁ (length os) (length ss) c,
              length-append os (record { scenario = s; signature = signature } ∷ []),
            ))
            m)

  unstarted-IsCoherent :
      (ss : List (Scenario I)) (status : BatchStatus I E)
      → Fits control status (unstarted engine state control host ss status)
      → IsCoherent control (unstarted engine state control host ss status)
  unstarted-IsCoherent ss status f = record {
    fits = f;
    within_quota = omega arith;
    after_baseline = λ q. refl;
    budgeted = λ q. cc;
  }

  baseline_returned-IsCoherent :
      (ss : List (Scenario I)) (c : Result S E × W)
      → control.max_evaluations ≢ 0
      → IsCoherent control (baseline_returned engine state control host ss c).0
  unfolding baseline_returned
  baseline_returned-IsCoherent ss (ok b, w) m =
      run_candidates-IsCoherent (length ss) b ss [] _ (omega arith) m
  baseline_returned-IsCoherent ss (err e, w) m =
      unstarted-IsCoherent ss (engine_failed none e) (refl, m)

  admitted-IsCoherent :
      (s : Scenario I) (ss : List (Scenario I)) (d : Option ScenarioId) (w : W)
      → IsCoherent control (admitted engine state control host (s ∷ ss) d w).0
  admitted-IsCoherent s ss none w =
      admitted_none_rule engine state control host (λ r. IsCoherent control r.0) (s ∷ ss) w
        (λ r w' c. unstarted-IsCoherent (s ∷ ss) (BatchStatus.interrupted r) (
          checkpoint_stops w w' 0 (s ∷ ss) r
            (unstarted engine state control host (s ∷ ss) (BatchStatus.interrupted r)) c
            (omega arith) refl refl))
        (λ w' c.
          baseline_returned-IsCoherent (s ∷ ss) (engine.baseline state w')
            (omega (arith, checkpoint_goes w w' 0 (length ss) c)))
  admitted-IsCoherent s ss (some id) w =
      unfold admitted in unstarted-IsCoherent (s ∷ ss) (duplicate_scenario_id id) tt

  -- With at least one scenario the report of a run agrees with its status: a completed run has its
  -- baseline and nothing pending; a candidate fails only after the baseline and below the quota, the
  -- baseline only if the quota is not zero; a run stops at the quota only with scenarios left and
  -- the quota used up, and at a deadline only if there is one. No outcome comes without the baseline.
  pub evaluate_with_clock-IsCoherent :
      (s : Scenario I) (ss : List (Scenario I)) (w : W)
      → IsCoherent control (evaluate_with_clock engine state control host (s ∷ ss) w).0
  unfolding evaluate_with_clock
  evaluate_with_clock-IsCoherent s ss w = admitted-IsCoherent s ss _ w
