-- ===== src/Record/Capture/Complete.antt =====
-- What a captured record says of the run, and that it passes the checks of a record that is read.
use prospect_engine.Base.{
  is_some, is_empty, ℕ, suc, ◌≡◌, refl, sym, ap, subst, ◌∙◌, ◌↔◌, true, false, Option, none, some,
  List, [], ◌∷◌, map, All, length, Result, ok, err, Result-cases, inl, inr, then-ok, arith,
}
use mathlib.Core.List.{map-append}
use prospect_engine.Base.Text.{Text}
use prospect_engine.Base.Effects.{and_then-ok}
use prospect_engine.Core.{Scenario}
use prospect_engine.Scenario.{ScenarioOutcome}
use prospect_engine.Scenario.Controlled.{
  BatchStatus, EvaluationControl, InterruptionReason, engine_failed, duplicate_scenario_id,
}
use prospect_engine.Scenario.Controlled.Accounting.{Accounts, failed_candidate, outcome_scenarios}
use prospect_engine.Scenario.Controlled.Ends.{IsCoherent, Fits}
use prospect_engine.Record.{
  PayloadCodecs, RecordTerminal, StoredOutcome, RecordWire, check_payload, check_record,
}
use prospect_engine.Record.Laws.{
  IsShort, outcome_ids, failed_ids, EndsAs, IsConsistent, check_payload-ok_iff, check_record-ok_iff,
}
use prospect_engine.Record.Capture.{
  BoundBundleEvaluation, Encoders, Library, charge, encoded, encode_checked, encode_baseline,
  encode_outcomes, encode_terminal, encode_terminal_after, wire_of, assembled, capture_wire,
  failed_id, record_reason, failure_encoded,
}

charge-ok : (remaining : ℕ) (p : Text) (left : ℕ) → charge remaining p ≡ ok left → IsShort p
unfolding charge
charge-ok remaining p left h = (check_payload-ok_iff p).0 (then-ok (check_payload p) _ h).0

module _ {ℓ} {S E W J : Type ℓ} (encoders : Encoders S E W) where
  encoded-ok :
      (remaining : ℕ) (c : Result Text Text × W) (p : Text) (w' : ℕ × W)
      → encoded {J = J} remaining c ≡ (ok p, w')
      → IsShort p
  unfolding encoded
  encoded-ok remaining (err e, w) p w' h = absurd (ground arith)
  encoded-ok remaining (ok q, w) p w' h = elim (Result-cases (charge remaining q)) [
    | inl (left, c) ↦
        let e : q ≡ p = ground (arith, rw c at h) in subst IsShort e (charge-ok remaining q left c)
    | inr (e, c) ↦ absurd (ground (arith, rw c at h))
  ]

  encode_checked-ok :
      (s : S) (w : ℕ × W) (p : Text) (w' : ℕ × W)
      → encode_checked {J = J} encoders s w ≡ (ok p, w')
      → IsShort p
  unfolding encode_checked
  encode_checked-ok s (remaining, w) p w' h =
      encoded-ok remaining (encoders.encode_signature s w) p w' h

  encode_baseline-ok :
      (b : Option S) (w : ℕ × W) (p : Option Text) (w' : ℕ × W)
      → encode_baseline {J = J} encoders b w ≡ (ok p, w')
      → (is_some p ≡ is_some b) × ((x : Text) → p ≡ some x → IsShort x)
  unfolding encode_baseline
  encode_baseline-ok none w p w' h =
      let e : none ≡ p = ground arith in (ap is_some (sym e), λ x q. absurd (ground (arith, e, q)))
  encode_baseline-ok (some s) w p w' h =
      let (x, w₁, c, k) = and_then-ok _ (encode_checked encoders s w) h in
      let e : some x ≡ p = ground (arith, k) in
      (
        ap is_some (sym e),
        λ y q.
            let f : x ≡ y = ground (arith, e, q) in subst IsShort f (encode_checked-ok s w x w₁ c),
      )

-- what the stored outcomes say of the outcomes of the run
record Stores {ℓ} {I S : Type ℓ} (os : List (ScenarioOutcome I S)) (stored : List StoredOutcome)
    : Type ℓ where
  same_ids : outcome_ids stored ≡ map (λ s. s.id.value) (outcome_scenarios os)
  same_length : length stored ≡ length os
  short : All (λ o. IsShort o.payload) stored

module _ {ℓ} {I S E W J : Type ℓ} (encoders : Encoders S E W) where
  encode_outcomes-ok :
      (os : List (ScenarioOutcome I S)) (w : ℕ × W) (stored : List StoredOutcome) (w' : ℕ × W)
      → encode_outcomes {J = J} encoders os w ≡ (ok stored, w')
      → Stores os stored
  unfolding encode_outcomes
  encode_outcomes-ok [] w stored w' h =
      let e : [] ≡ stored = ground arith in
      subst (Stores []) e (record { same_ids = refl; same_length = refl; short = tt })
  encode_outcomes-ok (o ∷ os) w stored w' h =
      let (p, w₁, c, k) = and_then-ok _ (encode_checked encoders o.signature w) h in
      let (rest, w₂, d, l) = and_then-ok _ (encode_outcomes encoders os w₁) k in
      let r = encode_outcomes-ok os w₁ rest w₂ d in
      let e : record { scenario_id = o.scenario.id.value; payload = p } ∷ rest ≡ stored =
        ground (arith, l) in
      subst (Stores (o ∷ os)) e (record {
        same_ids = ap (λ xs. o.scenario.id.value ∷ xs) r.same_ids;
        same_length = ap suc r.same_length;
        short = (encode_checked-ok encoders o.signature w p w₁ c, r.short);
      })

-- the one payload that is captured without a test of its length
abbrev pub HasShortError : RecordTerminal → Type 0
HasShortError (RecordTerminal.failed id payload) = IsShort payload
HasShortError _ = Unit

short-of_ends {ℓ} :
    {V : Type ℓ} (wire : RecordWire V) (t : RecordTerminal) → EndsAs wire t → HasShortError t
short-of_ends wire RecordTerminal.completed e = tt
short-of_ends wire (RecordTerminal.interrupted r) e = tt
short-of_ends wire (RecordTerminal.failed none p) e = e.0
short-of_ends wire (RecordTerminal.failed (some id) p) e = e.0

length-nil {ℓ} : {A : Type ℓ} (xs : List A) → length xs ≡ 0 → xs ≡ []
length-nil [] h = refl
length-nil (_ ∷ _) h = cc

map-nil {ℓ κ} :
    {A : Type ℓ} {B : Type κ} (f : A → B) (xs : List A) → is_empty xs ≡ true → map f xs ≡ []
map-nil f [] h = refl
map-nil f (_ ∷ _) h = cc

map-cons {ℓ κ} :
    {A : Type ℓ} {B : Type κ} (f : A → B) (xs : List A)
    → is_empty xs ≡ false
    → is_empty (map f xs) ≡ false
map-cons f [] h = cc
map-cons f (_ ∷ _) h = refl

module _ {ℓ} {I S E W V J : Type ℓ} (library : Library V J) (self : BoundBundleEvaluation I S E)
    (run_id : Text) (codecs : PayloadCodecs) (control : EvaluationControl W)
    (quota : self.max_evaluations ≡ control.max_evaluations)
    (deadline : self.deadline_configured ≡ is_some control.deadline) where
  module _ (b : Option Text) (stored : List StoredOutcome) (t₀ : RecordTerminal) (v : V)
      (same_baseline : is_some b ≡ is_some self.report.evaluation.baseline)
      (same_length : length stored ≡ length self.report.evaluation.outcomes) where
    -- a terminal that fits the record as the status fits the report
    abbrev Mirrors : BatchStatus I E → RecordTerminal → Type 0
    Mirrors status t =
        (failed_ids t ≡ map (λ s. s.id.value) (failed_candidate status))
        × (HasShortError t → EndsAs (wire_of library self run_id codecs b stored t₀ v) t)

    interrupted-Mirrors :
        (reason : InterruptionReason)
        → Fits control (BatchStatus.interrupted reason) self.report.evaluation
        → Mirrors
            (BatchStatus.interrupted reason)
            (RecordTerminal.interrupted (record_reason reason))
    interrupted-Mirrors InterruptionReason.cancelled f = (refl, λ _. tt)
    interrupted-Mirrors InterruptionReason.deadline_reached f = (refl, λ _. deadline ∙ f)
    interrupted-Mirrors InterruptionReason.evaluation_limit_reached f = (
      refl,
      λ _. (
        map-cons (λ s. s.id.value) self.report.evaluation.pending f.0,
        same_length ∙ f.1 ∙ sym quota,
      ),
    )

    failure-Mirrors :
        (s : Option (Scenario I)) (e : E) (payload : Text)
        → Fits control (engine_failed s e) self.report.evaluation
        → Mirrors (engine_failed s e) (RecordTerminal.failed (failed_id s) payload)
    failure-Mirrors none e payload f =
        (refl, λ short. (short, same_baseline ∙ f.0, omega (arith, quota, f.1)))
    failure-Mirrors (some s) e payload f =
        (refl, λ short. (short, same_baseline ∙ f.0, omega (arith, quota, same_length, f.1)))

    encode_terminal-Mirrors :
        (encoders : Encoders S E W) (status : BatchStatus I E) (w : W) (t : RecordTerminal) (w' : W)
        → encode_terminal {J = J} encoders status w ≡ (ok t, w')
        → Fits control status self.report.evaluation
        → Mirrors status t
    unfolding encode_terminal
    encode_terminal-Mirrors encoders BatchStatus.completed w t w' h f =
        let e : RecordTerminal.completed ≡ t = ground arith in
        subst (Mirrors BatchStatus.completed) e (
          refl,
          λ _. (same_baseline ∙ f.0, map-nil (λ s. s.id.value) self.report.evaluation.pending f.1),
        )
    encode_terminal-Mirrors encoders (BatchStatus.interrupted reason) w t w' h f =
        let e : RecordTerminal.interrupted (record_reason reason) ≡ t = ground arith in
        subst (Mirrors (BatchStatus.interrupted reason)) e (interrupted-Mirrors reason f)
    encode_terminal-Mirrors encoders (engine_failed s error) w t w' h f =
        returned (encoders.encode_error error w) h
      where
        returned :
            (c : Result Text Text × W)
            → failure_encoded {J = J} s c ≡ (ok t, w')
            → Mirrors (engine_failed s error) t
        returned (err e, w₁) k = absurd (ground (arith, k))
        returned (ok payload, w₁) k =
            let e : RecordTerminal.failed (failed_id s) payload ≡ t = ground (arith, k) in
            subst (Mirrors (engine_failed s error)) e (failure-Mirrors s error payload f)
    encode_terminal-Mirrors encoders (duplicate_scenario_id id) w t w' h f = absurd (ground arith)

  assembled-ok :
      (b : Option Text) (stored : List StoredOutcome) (t : RecordTerminal) (v : Result V J)
      (w : ℕ × W) (wire : RecordWire V) (w' : ℕ × W)
      → assembled library self run_id codecs b stored t v w ≡ (ok wire, w')
      → (adapter : V) × (wire_of library self run_id codecs b stored t adapter ≡ wire)
  assembled-ok b stored t (err e) w wire w' h = absurd (ground arith)
  assembled-ok b stored t (ok adapter) w wire w' h = (adapter, ground arith)

  module _ (ss : List (Scenario I)) (accounts : Accounts ss self.report.evaluation)
      (coherent : IsCoherent control self.report.evaluation) where
    wire_of-IsConsistent :
        (b : Option Text) (stored : List StoredOutcome) (t : RecordTerminal) (v : V)
        → (is_some b ≡ is_some self.report.evaluation.baseline)
          × ((x : Text) → b ≡ some x → IsShort x)
        → Stores self.report.evaluation.outcomes stored
        → (failed_ids t ≡ map (λ s. s.id.value) (failed_candidate self.report.evaluation.status))
          × EndsAs (wire_of library self run_id codecs b stored t v) t
        → IsConsistent (wire_of library self run_id codecs b stored t v) (map (λ s. s.id.value) ss)
    wire_of-IsConsistent b stored t v base stores ends = record {
      partition = rw (stores.same_ids, ends.0, sym accounts.partition, map-append, map-append) refl;
      within_quota = omega (arith, quota, stores.same_length, coherent.within_quota);
      after_baseline = λ n.
          length-nil stored
            (stores.same_length ∙ ap length (coherent.after_baseline (sym base.0 ∙ n)));
      budgeted = λ y z. coherent.budgeted (sym base.0 ∙ y) (sym quota ∙ z);
      short_baseline = base.1;
      short_payloads = stores.short;
      ending = ends.1;
    }

    capture_wire-IsConsistent :
        (encoders : Encoders S E W) (w : ℕ × W) (wire : RecordWire V) (w' : ℕ × W)
        → capture_wire library self run_id codecs encoders w ≡ (ok wire, w')
        → HasShortError wire.terminal
        → IsConsistent wire (map (λ s. s.id.value) ss)
    unfolding capture_wire
    capture_wire-IsConsistent encoders w wire w' h =
        let r = self.report.evaluation in
        let (b, w₁, eb, h₁) = and_then-ok _ (encode_baseline encoders r.baseline w) h in
        let (stored, w₂, eo, h₂) = and_then-ok _ (encode_outcomes encoders r.outcomes w₁) h₁ in
        let (t, w₃, et, h₃) = and_then-ok _ (encode_terminal_after encoders r.status w₂) h₂ in
        let base = encode_baseline-ok encoders r.baseline w b w₁ eb in
        let stores = encode_outcomes-ok encoders r.outcomes w₁ stored w₂ eo in
        let (v, e) = assembled-ok b stored t (library.to_value self.report.adapter) w₃ wire w' h₃ in
        let ends =
          encode_terminal-Mirrors b stored t v base.0 stores.same_length encoders r.status w₂.1 t
            w₃.1 (ground (arith, et)) coherent.fits in
        subst (λ x. HasShortError x.terminal → IsConsistent x (map (λ s. s.id.value) ss)) e
          (λ short. wire_of-IsConsistent b stored t v base stores (ends.0, ends.1 short))

    -- A record that is captured from a run in which every scenario is accounted for and whose end
    -- agrees with its quota, its deadline and its baseline passes the checks of a record that is
    -- read, on the scenario ids of the run, exactly when its error payload, if any, is short enough.
    pub capture_wire-check_record_iff :
        (encoders : Encoders S E W) (w : ℕ × W) (wire : RecordWire V) (w' : ℕ × W)
        → capture_wire library self run_id codecs encoders w ≡ (ok wire, w')
        → (check_record wire (map (λ s. s.id.value) ss) ≡ ok tt) ↔ HasShortError wire.terminal
    capture_wire-check_record_iff encoders w wire w' h = (
      λ k. short-of_ends wire wire.terminal ((check_record-ok_iff wire _).0 k).ending,
      λ short.
          (check_record-ok_iff wire _).1 (capture_wire-IsConsistent encoders w wire w' h short),
    )
