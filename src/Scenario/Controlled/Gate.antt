-- ===== src/Scenario/Controlled/Gate.antt =====
-- The quota, the origin of every outcome, and the gate from a report to a rankable batch.
use prospect_engine.Base.{
  ℕ, suc, ◌≤◌, ◌<◌, ◌≡◌, refl, sym, ap, ◌∙◌, inl, inr, Option, none, some, List, [], ◌∷◌, ◌++◌, map,
  ok, length, arith, length-append, All, All-append, Option-cases,
}
use mathlib.Core.List.{append-nil}
use prospect_engine.Base.Sets.{
  first_duplicate, IsDistinct, first_duplicate-none_iff, IsFirstRepeat, first_duplicate-some,
}
use prospect_engine.Core.{ScenarioId, Scenario, ProspectiveEngine, scenario_id_key}
use prospect_engine.Scenario.{ScenarioOutcome, BatchResult}
use prospect_engine.Scenario.Controlled.{
  EvaluationControl, BatchStatus, BatchExecution, Host, engine_failed, finished,
  duplicate_scenario_id, checkpoint, admitted, evaluate_with_clock, into_completed_batch, rejected,
  run_candidates,
}
use prospect_engine.Scenario.Controlled.Rules.{IsEarly, run_nil_rule, run_cons_rule, admitted_rule}
use prospect_engine.Scenario.Controlled.Accounting.{
  Accounts, failed_candidate, outcome_scenarios, evaluate_with_clock-Accounts,
}

abbrev pub ids {ℓ} : {I : Type ℓ} → List (Scenario I) → List ScenarioId
ids ss = map (λ s. s.id) ss

module _ {ℓ} {State I S E W : Type ℓ} (engine : ProspectiveEngine State I S E W) (state : State)
    (control : EvaluationControl W) (host : Host W) where
  -- A candidate is called only below the quota.
  checkpoint_below :
      (w w' : W) (count pending : ℕ)
      → checkpoint engine state control host w count (suc pending) ≡ (none, w')
      → count < control.max_evaluations
  unfolding checkpoint
  checkpoint_below w w' count pending h = ground arith

  -- the engine returned this signature for this scenario
  abbrev pub IsReturned : ScenarioOutcome I S → Type ℓ
  IsReturned o =
      (w : W) × (w' : W) × (engine.evaluate state o.scenario.intervention w ≡ (ok o.signature, w'))

  -- What holds of the outcomes of a run at every moment.
  pub record IsGenuine (os : List (ScenarioOutcome I S)) : Type ℓ where
    pub within_quota : length os ≤ control.max_evaluations
    pub returned : All IsReturned os

  IsGenuine-push :
      (os : List (ScenarioOutcome I S)) (o : ScenarioOutcome I S)
      → length os < control.max_evaluations
      → IsGenuine os
      → IsReturned o
      → IsGenuine (os ++ o ∷ [])
  IsGenuine-push os o h g r = record {
    within_quota = omega (arith, length-append os (o ∷ []));
    returned = All-append IsReturned os (o ∷ []) g.returned (r, tt);
  }

  run_candidates-IsGenuine :
      (total : ℕ) (b : S) (ss : List (Scenario I)) (os : List (ScenarioOutcome I S)) (w : W)
      → IsGenuine os
      → IsGenuine (run_candidates engine state control host total b ss os w).0.outcomes
  run_candidates-IsGenuine total b [] os w g =
      run_nil_rule engine state control host (λ r. IsGenuine r.0.outcomes) total b os w
        (λ r w' _. g) (λ w' _. g)
  run_candidates-IsGenuine total b (s ∷ ss) os w g =
      run_cons_rule engine state control host (λ r. IsGenuine r.0.outcomes) total b s ss os w
        (λ r w' _. g) (λ w₁ e w₂ _ _. g)
        (λ w₁ signature w₂ c q.
          run_candidates-IsGenuine total b ss
            (os ++ record { scenario = s; signature = signature } ∷ []) _
            (IsGenuine-push os (record { scenario = s; signature = signature })
              (checkpoint_below w w₁ (length os) (length ss) c) g (w₁, w₂, q)))

  -- However a run ends, it has no more outcomes than the quota allows, and each holds a signature
  -- that the engine returned for its scenario.
  pub evaluate_with_clock-IsGenuine :
      (ss : List (Scenario I)) (w : W)
      → IsGenuine (evaluate_with_clock engine state control host ss w).0.outcomes
  unfolding evaluate_with_clock
  evaluate_with_clock-IsGenuine ss w =
      admitted_rule engine state control host (λ r. IsGenuine r.0.outcomes) ss _ w
        (λ status w' early. empty) (λ b w'. run_candidates-IsGenuine (length ss) b ss [] w' empty)
    where
      empty : IsGenuine []
      empty = record { within_quota = omega arith; returned = tt }

  -- A report that claims completion has its baseline and nothing pending.
  abbrev IsSettled : BatchExecution I S E × W → Type ℓ
  IsSettled r =
      r.0.status ≡ BatchStatus.completed → (b : S) × (r.0.baseline ≡ some b) × (r.0.pending ≡ [])

  run_candidates-IsSettled :
      (total : ℕ) (b : S) (ss : List (Scenario I)) (os : List (ScenarioOutcome I S)) (w : W)
      → IsSettled (run_candidates engine state control host total b ss os w)
  run_candidates-IsSettled total b [] os w =
      run_nil_rule engine state control host IsSettled total b os w (λ r w' _ h. (b, refl, refl))
        (λ w' _ h. (b, refl, refl))
  run_candidates-IsSettled total b (s ∷ ss) os w =
      run_cons_rule engine state control host IsSettled total b s ss os w (λ r w' _ h. cc)
        (λ w₁ e w₂ _ _ h. cc)
        (λ w₁ signature w₂ _ _.
          run_candidates-IsSettled total b ss
            (os ++ record { scenario = s; signature = signature } ∷ []) _)

  early_contradiction :
      (status : BatchStatus I E) → IsEarly status → ¬ (status ≡ BatchStatus.completed)
  early_contradiction BatchStatus.completed early h = early
  early_contradiction (BatchStatus.interrupted r) early h = cc
  early_contradiction (engine_failed none e) early h = cc
  early_contradiction (engine_failed (some s) e) early h = early
  early_contradiction (duplicate_scenario_id id) early h = cc

  admitted-IsSettled :
      (ss : List (Scenario I)) (d : Option ScenarioId) (w : W)
      → IsSettled (admitted engine state control host ss d w)
  admitted-IsSettled ss d w =
      admitted_rule engine state control host IsSettled ss d w
        (λ status w' early h. absurd (early_contradiction status early h))
        (λ b w'. run_candidates-IsSettled (length ss) b ss [] w')

  -- With a scenario id that occurs twice nothing is called: the report names the first id that
  -- repeats an earlier one and leaves every scenario pending, and the one change of the world is the
  -- last notification.
  pub evaluate_with_clock_rejects :
      (ss : List (Scenario I)) (w : W)
      → ¬ (IsDistinct (ids ss))
      → (id : ScenarioId) × IsFirstRepeat (ids ss) id
        × (evaluate_with_clock engine state control host ss w ≡ (
          record {
            total_scenarios = length ss;
            baseline = none;
            outcomes = [];
            pending = ss;
            status = duplicate_scenario_id id;
          },
          host.progress
              (record {
                event = finished rejected;
                completed_scenarios = 0;
                total_scenarios = length ss;
              })
              w,
        ))
  unfolding evaluate_with_clock
  evaluate_with_clock_rejects ss w h = elim (Option-cases (first_duplicate [] (ids ss))) [
    | inl e ↦ absurd (h ((first_duplicate-none_iff (ids ss)).0 e))
    | inr (id, e) ↦ (id, first_duplicate-some (ids ss) id e, rw (e, admitted))
  ]

  admitted-IsDistinct :
      (ss : List (Scenario I)) (w : W)
      → (admitted engine state control host ss (first_duplicate [] (ids ss)) w).0.status
        ≡ BatchStatus.completed
      → IsDistinct (ids ss)
  admitted-IsDistinct ss w h = elim (Option-cases (first_duplicate [] (ids ss))) [
    | inl e ↦ (first_duplicate-none_iff (ids ss)).0 e
    | inr (id, e) ↦ absurd (not_completed id (rw e at h))
  ]
    where
      not_completed :
          (id : ScenarioId)
          → ¬ ((admitted engine state control host ss (some id) w).0.status ≡ BatchStatus.completed)
      not_completed id = unfold admitted in λ q. cc

  Accounts-complete :
      (ss : List (Scenario I)) (r : BatchExecution I S E)
      → Accounts ss r
      → r.status ≡ BatchStatus.completed
      → r.pending ≡ []
      → outcome_scenarios r.outcomes ≡ ss
  Accounts-complete ss r a h k =
      sym (append-nil (outcome_scenarios r.outcomes))
      ∙ ap (λ l. outcome_scenarios r.outcomes ++ l)
          (sym (failed_pending_nil r.status r.pending h k))
      ∙ a.partition
    where
      failed_pending_nil :
          (status : BatchStatus I E) (pending : List (Scenario I))
          → status ≡ BatchStatus.completed
          → pending ≡ []
          → failed_candidate status ++ pending ≡ []
      failed_pending_nil status pending h k = rw (h, k)

  -- A run that ends as completed passes the gate: `into_completed_batch` gives a batch whose
  -- outcomes are for exactly the input scenarios, in order, and their ids are distinct.
  pub into_completed_batch_opens :
      (ss : List (Scenario I)) (w : W)
      → (evaluate_with_clock engine state control host ss w).0.status ≡ BatchStatus.completed
      → (b : BatchResult I S) × (into_completed_batch
            (evaluate_with_clock engine state control host ss w).0
          ≡ ok b)
        × (outcome_scenarios b.outcomes ≡ ss)
        × IsDistinct (ids ss)
  unfolding into_completed_batch evaluate_with_clock
  into_completed_batch_opens ss w h =
      let (b, has, rest) = admitted-IsSettled ss (first_duplicate [] (ids ss)) w h in
      let done = (admitted engine state control host ss (first_duplicate [] (ids ss)) w).0 in
      (
        record { baseline = b; outcomes = done.outcomes },
        rw (has, h) refl,
        Accounts-complete ss done (evaluate_with_clock-Accounts engine state control host ss w) h
            rest,
        admitted-IsDistinct ss w h,
      )
