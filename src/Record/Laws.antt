-- ===== src/Record/Laws.antt =====
-- What a record that passes the checks says of its bundle.
use prospect_engine.Base.{
  is_some, ◌≤◌, ◌<◌, ◌≡◌, refl, sym, ap, subst, ◌∙◌, ◌≢◌, ◌↔◌, Bool, true, false, not, ◌&&◌, ◌||◌,
  Option, none, some, List, [], ◌∷◌, ◌++◌, map, All, length, is_empty, ◌==◌, leb, ltb, ok, ◌>>◌,
  bind-ok, then-ok, Bool-cases, arith,
}
use prospect_engine.Base.Text.{Text, bytes}
use prospect_engine.Base.Key.{text_key, same→eq, same_refl}
use prospect_engine.Record.{
  max_encoded_payload_bytes, RecordInterruption, cancelled, deadline_reached,
  evaluation_limit_reached, RecordTerminal, completed, interrupted, failed, StoredOutcome,
  RecordWire, refuse_if, check_payload, next_id, same_ids, check_outcomes, check_failed,
  check_interrupted, check_terminal, check_baseline, check_counts, check_suffix, check_record,
}

abbrev pub IsShort : Text → Type 0
IsShort payload = length (bytes payload) ≤ max_encoded_payload_bytes

abbrev pub outcome_ids : List StoredOutcome → List Text
outcome_ids os = map (λ o. o.scenario_id) os

-- the scenario whose call failed
abbrev pub failed_ids : RecordTerminal → List Text
failed_ids (failed (some id) _) = id ∷ []
failed_ids _ = []

module _ {ℓ} {V : Type ℓ} (wire : RecordWire V) where
  -- Which end fits the rest of the record.
  abbrev pub EndsAs : RecordTerminal → Type 0
  EndsAs completed = (is_some wire.baseline ≡ true) × (wire.pending ≡ [])
  EndsAs (failed (some id) payload) =
      IsShort payload
      × (is_some wire.baseline ≡ true)
      × (length wire.outcomes < wire.max_evaluations)
  EndsAs (failed none payload) =
      IsShort payload × (is_some wire.baseline ≡ false) × (wire.max_evaluations ≢ 0)
  EndsAs (interrupted cancelled) = Unit
  EndsAs (interrupted deadline_reached) = wire.deadline_configured ≡ true
  EndsAs (interrupted evaluation_limit_reached) =
      (is_empty wire.pending ≡ false) × (length wire.outcomes ≡ wire.max_evaluations)

  -- Every scenario of the bundle is in the record once, in order: succeeded, failed or pending.
  pub record IsConsistent (ids : List Text) : Type ℓ where
    pub partition : outcome_ids wire.outcomes ++ (failed_ids wire.terminal ++ wire.pending) ≡ ids
    pub within_quota : length wire.outcomes ≤ wire.max_evaluations
    pub after_baseline : is_some wire.baseline ≡ false → wire.outcomes ≡ []
    pub budgeted : is_some wire.baseline ≡ true → wire.max_evaluations ≢ 0
    pub short_baseline : (x : Text) → wire.baseline ≡ some x → IsShort x
    pub short_payloads : All (λ o. IsShort o.payload) wire.outcomes
    pub ending : EndsAs wire.terminal

pub refuse_if-ok : (b : Bool) (reason : Text) → refuse_if b reason ≡ ok tt → b ≡ false
refuse_if-ok true reason h = cc
refuse_if-ok false reason h = refl

pub check_payload-ok_iff : (p : Text) → (check_payload p ≡ ok tt) ↔ IsShort p
unfolding check_payload
check_payload-ok_iff p = (λ h. ground (arith, h), λ h. ground (arith, h))

pub check_baseline-ok_iff {ℓ} :
    {V : Type ℓ} (wire : RecordWire V) (b : Option Text)
    → (check_baseline wire b ≡ ok tt) ↔ ((x : Text) → b ≡ some x → IsShort x)
check_baseline-ok_iff wire none = (λ h x e. absurd cc, λ h. refl)
check_baseline-ok_iff wire (some p) = (
  λ h x e. let q : p ≡ x = cc in subst IsShort q ((check_payload-ok_iff p).0 h),
  λ h. (check_payload-ok_iff p).1 (h p refl),
)

next_id-ok :
    (ids : List Text) (id reason : Text) (rest : List Text)
    → next_id ids id reason ≡ ok rest
    → id ∷ rest ≡ ids
next_id-ok [] id reason rest h = cc
next_id-ok (x ∷ xs) id reason rest h = ground (arith, same→eq x id, h)

check_outcomes-ok :
    (ids : List Text) (os : List StoredOutcome) (rest : List Text)
    → check_outcomes ids os ≡ ok rest
    → (outcome_ids os ++ rest ≡ ids) × All (λ o. IsShort o.payload) os
unfolding check_outcomes
check_outcomes-ok ids [] rest h = (ground (arith, h), tt)
check_outcomes-ok ids (o ∷ os) rest h =
    let (left, n, k) = bind-ok (next_id ids o.scenario_id _) _ h in
    let (short, k') = then-ok (check_payload o.payload) _ k in
    let (e, all) = check_outcomes-ok left os rest k' in
    (
      ap (λ xs. o.scenario_id ∷ xs) e ∙ next_id-ok ids o.scenario_id _ left n,
      ((check_payload-ok_iff o.payload).0 short, all),
    )

check_outcomes-of_parts :
    (os : List StoredOutcome) (rest : List Text)
    → All (λ o. IsShort o.payload) os
    → check_outcomes (outcome_ids os ++ rest) os ≡ ok rest
unfolding check_outcomes
check_outcomes-of_parts [] rest h = refl
check_outcomes-of_parts (o ∷ os) rest h =
    rw
      (
        same_refl o.scenario_id,
        (check_payload-ok_iff o.payload).1 h.0,
        check_outcomes-of_parts os rest h.1,
      )
      refl

is_empty-nil {ℓ} : {A : Type ℓ} (xs : List A) → is_empty xs ≡ true → xs ≡ []
is_empty-nil [] h = refl
is_empty-nil (_ ∷ _) h = cc

same_ids-eq : (xs ys : List Text) → same_ids xs ys ≡ true → xs ≡ ys
same_ids-eq [] [] h = refl
same_ids-eq [] (_ ∷ _) h = cc
same_ids-eq (_ ∷ _) [] h = cc
same_ids-eq (x ∷ xs) (y ∷ ys) h = ground (arith, same→eq x y, same_ids-eq xs ys)

same_ids_refl : (xs : List Text) → same_ids xs xs ≡ true
same_ids_refl [] = refl
same_ids_refl (x ∷ xs) = rw (same_refl x, same_ids_refl xs) refl

module _ {ℓ} {V : Type ℓ} (wire : RecordWire V) where
  check_interrupted-ok :
      (r : RecordInterruption) → check_interrupted wire r ≡ ok tt → EndsAs wire (interrupted r)
  unfolding check_interrupted
  check_interrupted-ok cancelled h = tt
  check_interrupted-ok deadline_reached h = ground (arith, h)
  check_interrupted-ok evaluation_limit_reached h = ground (arith, h)

  check_failed-ok :
      (id : Option Text) (payload : Text) (ids rest : List Text)
      → IsShort payload
      → check_failed wire id ids ≡ ok rest
      → (failed_ids (failed id payload) ++ rest ≡ ids) × EndsAs wire (failed id payload)
  unfolding check_failed
  check_failed-ok (some id) payload ids rest s h =
      let (has, k) = then-ok (refuse_if (not (is_some wire.baseline)) _) _ h in
      let (left, n, k') = bind-ok (next_id ids id _) _ k in
      let (below, same_left) =
        then-ok (refuse_if (leb wire.max_evaluations (length wire.outcomes)) _) _ k' in
      let e : left ≡ rest = ground (arith, same_left) in
      (
        ap (λ xs. id ∷ xs) (sym e) ∙ next_id-ok ids id _ left n,
        (s, ground (arith, refuse_if-ok _ _ has), ground (arith, refuse_if-ok _ _ below)),
      )
  check_failed-ok none payload ids rest s h =
      let (t, k) =
        then-ok
          (refuse_if
            (is_some wire.baseline || not (is_empty wire.outcomes) || wire.max_evaluations == 0) _)
          _ h in
      let t' = refuse_if-ok _ _ t in
      (ground (arith, k), (s, ground (arith, t'), ground (arith, t')))

  check_terminal-ok :
      (t : RecordTerminal) (ids rest : List Text)
      → check_terminal wire t ids ≡ ok rest
      → (failed_ids t ++ rest ≡ ids) × EndsAs wire t
  unfolding check_terminal
  check_terminal-ok completed ids rest h =
      let (t, k) =
        then-ok
          (refuse_if
            (not (is_some wire.baseline) || not (is_empty wire.pending) || not (is_empty ids)) _)
          _ h in
      let t' = refuse_if-ok _ _ t in
      (ground (arith, k), (ground (arith, t'), is_empty-nil wire.pending (ground (arith, t'))))
  check_terminal-ok (failed id payload) ids rest h =
      let (s, k) = then-ok (check_payload payload) _ h in
      check_failed-ok id payload ids rest ((check_payload-ok_iff payload).0 s) k
  check_terminal-ok (interrupted r) ids rest h =
      let (i, k) = then-ok (check_interrupted wire r) _ h in
      (ground (arith, k), check_interrupted-ok r i)

  check_counts-ok :
      check_counts wire ≡ ok tt
      → (length wire.outcomes ≤ wire.max_evaluations)
        × (is_some wire.baseline ≡ false → wire.outcomes ≡ [])
        × (check_baseline wire wire.baseline ≡ ok tt)
  unfolding check_counts
  check_counts-ok h =
      let (t, base) =
        then-ok
          (refuse_if (ltb wire.max_evaluations (length wire.outcomes)) _
            >> refuse_if (not (is_some wire.baseline) && not (is_empty wire.outcomes)) _)
          (check_baseline wire wire.baseline) h in
      let (quota, begun) =
        then-ok (refuse_if (ltb wire.max_evaluations (length wire.outcomes)) _)
          (refuse_if (not (is_some wire.baseline) && not (is_empty wire.outcomes)) _) t in
      let begun' = refuse_if-ok _ _ begun in
      (
        ground (arith, refuse_if-ok _ _ quota),
        (λ n. is_empty-nil wire.outcomes (ground (arith, n, begun'))),
        base,
      )

  check_suffix-ok :
      (rest : List Text)
      → check_suffix wire rest ≡ ok tt
      → (is_some wire.baseline ≡ true → wire.max_evaluations ≢ 0) × (rest ≡ wire.pending)
  unfolding check_suffix
  check_suffix-ok rest h =
      let (b, e) =
        then-ok (refuse_if (wire.max_evaluations == 0 && is_some wire.baseline) _)
          (refuse_if (not (same_ids rest wire.pending)) _) h in
      let b' = refuse_if-ok _ _ b in
      (
        (λ s z. ground (arith, b', s, z)),
        same_ids-eq rest wire.pending (ground (arith, refuse_if-ok _ _ e)),
      )

  check_record-ok : (ids : List Text) → check_record wire ids ≡ ok tt → IsConsistent wire ids
  unfolding check_record
  check_record-ok ids h =
      let (counts, last) = then-ok (check_counts wire) _ h in
      let (left, o, k) = bind-ok (check_outcomes ids wire.outcomes) _ last in
      let (rest, t, s) = bind-ok (check_terminal wire wire.terminal left) _ k in
      let (quota, begun, base) = check_counts-ok counts in
      let (outs, shorts) = check_outcomes-ok ids wire.outcomes left o in
      let (mid, ends) = check_terminal-ok wire.terminal left rest t in
      let (budget, e) = check_suffix-ok rest s in
      record {
        partition =
            ap (λ xs. outcome_ids wire.outcomes ++ xs)
              (ap (λ xs. failed_ids wire.terminal ++ xs) (sym e) ∙ mid)
            ∙ outs;
        within_quota = quota;
        after_baseline = begun;
        budgeted = budget;
        short_baseline = (check_baseline-ok_iff wire wire.baseline).0 base;
        short_payloads = shorts;
        ending = ends;
      }

  module _ (ids : List Text) (c : IsConsistent wire ids) where
    check_counts-of_consistent : check_counts wire ≡ ok tt
    unfolding check_counts
    check_counts-of_consistent =
        rw ((check_baseline-ok_iff wire wire.baseline).1 c.short_baseline)
          (ground (arith, c.within_quota, Bool-cases (is_some wire.baseline)))

    check_terminal-of_ends :
        (t : RecordTerminal)
        → EndsAs wire t
        → check_terminal wire t (failed_ids t ++ wire.pending) ≡ ok wire.pending
    unfolding check_terminal check_failed check_interrupted
    check_terminal-of_ends completed e = rw (e.0, e.1) refl
    check_terminal-of_ends (failed (some id) p) e =
        let room : leb wire.max_evaluations (length wire.outcomes) ≡ false = ground (arith, e.2) in
        rw ((check_payload-ok_iff p).1 e.0, e.1, same_refl id, room) refl
    check_terminal-of_ends (failed none p) e =
        let room : (wire.max_evaluations == 0) ≡ false = ground (arith, e.2) in
        rw ((check_payload-ok_iff p).1 e.0, e.1, c.after_baseline e.1, room) refl
    check_terminal-of_ends (interrupted cancelled) e = refl
    check_terminal-of_ends (interrupted deadline_reached) e = rw e refl
    check_terminal-of_ends (interrupted evaluation_limit_reached) e = ground (arith, e)

    check_record-of_consistent : check_record wire ids ≡ ok tt
    unfolding check_record check_suffix
    check_record-of_consistent =
        let left = failed_ids wire.terminal ++ wire.pending in
        let budget : (wire.max_evaluations == 0 && is_some wire.baseline) ≡ false =
          ground (arith, c.budgeted, Bool-cases (is_some wire.baseline)) in
        rw
          (
            check_counts-of_consistent,
            sym c.partition,
            check_outcomes-of_parts wire.outcomes left c.short_payloads,
            check_terminal-of_ends wire.terminal c.ending,
            budget,
            same_ids_refl wire.pending,
          )
          refl

  -- A record is accepted for the scenario ids of a bundle exactly when it is consistent with them:
  -- every scenario is in it once, in order, as succeeded, failed or pending; it keeps its quota; there
  -- is no outcome without a baseline, and no baseline on a quota of zero; the payloads of the baseline,
  -- of the outcomes and of an error are short enough; and its end fits the rest.
  pub check_record-ok_iff :
      (ids : List Text) → (check_record wire ids ≡ ok tt) ↔ IsConsistent wire ids
  check_record-ok_iff ids = (check_record-ok ids, check_record-of_consistent ids)
