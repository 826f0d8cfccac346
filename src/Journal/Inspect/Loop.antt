-- ===== src/Journal/Inspect/Loop.antt =====
-- The loop of an inspection on lines that are chained.
use prospect_engine.Base.{
  ℕ, ◌+◌, ◌≤◌, ◌<◌, ◌≡◌, refl, sym, ap, subst, ◌∙◌, true, false, Option, none, some, List, [], ◌∷◌,
  map, All, length, ◌==◌, leb, ltb, is_some, Result, ok, err, Bool-cases, bind-ok, inl, inr, arith,
}
use prospect_engine.Base.Text.{Text, bytes}
use prospect_engine.Base.Key.{text_key, same_refl}
use prospect_engine.Bundle.{ScenarioBundle}
use prospect_engine.Bundle.Json.{Value}
use prospect_engine.Record.{ExecutionRecordError}
use prospect_engine.Record.Verify.{canonical, scenario_ids}
use prospect_engine.Journal.{
  Event, Header, Lifecycle, accept, call_failed, call_started, call_succeeded, finished,
  initialized, inspect_event, replay,
}
use prospect_engine.Journal.Chain.{Chain, IsEntryLine, Yields, entry_of, terminated}
use prospect_engine.Journal.Emit.{JournalSerde, max_entries, max_journal_entry_bytes}
use prospect_engine.Journal.Inspect.{
  Inspection, accept_event, inspect_entry, inspect_line, inspect_lines, same_previous,
}
use prospect_engine.Journal.Inspect.Lines.{IsOneLine, same_previous_refl, strip_suffix-terminated}

module _ {ℓ} {C J : Type ℓ} (serde : JournalSerde C J) where
  -- Each line of the journal is one line, and serde_json reads it as the entry that it was written
  -- for.
  abbrev pub ReadsBack : ℕ → Option Text → List (Event (Value C)) → List Text → Type ℓ
  ReadsBack n p (event ∷ events) (line ∷ lines) =
      (serde.entry_from_str line ≡ ok (entry_of serde n p event))
      × IsOneLine line
      × ReadsBack (n + 1) (some (serde.library.digest line)) events lines
  ReadsBack n p _ _ = Unit

  yielded : (r : Result Text (ExecutionRecordError J)) (line : Text) → Yields r line → r ≡ ok line
  yielded (ok a) line h = ap ok h
  yielded (err e) line h = absurd h

  module _ (bundle : ScenarioBundle (Value C) (Value C)) (expected : Text) where
    -- the loop stands before the entry with the number and the previous digest
    pub record Follows (self : Inspection (Value C)) (n : ℕ) (p : Option Text) : Type 0 where
      pub same_count : self.count ≡ n
      pub same_chain : self.previous ≡ p
      pub no_tail : self.incomplete_tail_bytes ≡ 0

    abbrev pub next_of : Inspection (Value C) → Inspection (Value C) → Text → Inspection (Value C)
    next_of self next line = record next {
      previous = some (serde.library.digest line);
      prefix_bytes = next.prefix_bytes + (length (bytes line) + 1);
      count = next.count + 1;
    }

    pub inspect_line-ok :
        (self next : Inspection (Value C)) (n : ℕ) (p : Option Text) (event : Event (Value C))
        (line : Text)
        → Follows self n p
        → IsEntryLine serde n p event line
        → serde.entry_from_str line ≡ ok (entry_of serde n p event)
        → n < max_entries
        → inspect_entry serde bundle expected self event ≡ ok next
        → inspect_line serde bundle expected self line ≡ ok (next_of self next line)
    unfolding inspect_line
    inspect_line-ok self next n p event line f y read m h =
        let room : leb max_entries self.count ≡ false = ground (arith, f.same_count, m) in
        let place : (n == self.count) ≡ true = ground (arith, f.same_count) in
        let chained : same_previous p self.previous ≡ true =
          subst (λ o. same_previous p o ≡ true) (sym f.same_chain) (same_previous_refl p) in
        rw
          (
            room,
            read,
            yielded (canonical serde.library (serde.entry_to_value (entry_of serde n p event))) line
                y,
            same_refl line,
            place,
            chained,
            h,
          )
          refl

    accept_event-ok :
        (self : Inspection (Value C)) (found : Option (Header (Value C)))
        (header : Header (Value C)) (event : Event (Value C)) (l : Lifecycle)
        → found ≡ some header
        → accept header (scenario_ids bundle) self.lifecycle event ≡ ok l
        → accept_event serde bundle expected self found event ≡ ok (record self { lifecycle = l })
    unfolding accept_event
    accept_event-ok self none header event l e h = cc
    accept_event-ok self (some x) header event l e h = let q : x ≡ header = cc in rw (q, h) refl

    pub inspect_entry-ok :
        (self : Inspection (Value C)) (header : Header (Value C)) (event : Event (Value C))
        (l : Lifecycle)
        → self.header ≡ some header
        → inspect_event header (scenario_ids bundle) self.lifecycle event ≡ ok l
        → inspect_entry serde bundle expected self event ≡ ok (record self { lifecycle = l })
    unfolding inspect_entry inspect_event
    inspect_entry-ok self header (initialized x) l e h = absurd (ground (arith, h))
    inspect_entry-ok self header (call_started t) l e h =
        accept_event-ok self self.header header (call_started t) l e h
    inspect_entry-ok self header (call_succeeded t p) l e h =
        accept_event-ok self self.header header (call_succeeded t p) l e h
    inspect_entry-ok self header (call_failed t p) l e h =
        accept_event-ok self self.header header (call_failed t p) l e h
    inspect_entry-ok self header (finished t) l e h =
        accept_event-ok self self.header header (finished t) l e h

    -- how the loop ends on lines that are whole
    pub record Reads (header : Header (Value C)) (l : Lifecycle) (n : ℕ)
        (final : Inspection (Value C)) : Type ℓ where
      pub header_kept : final.header ≡ some header
      pub lifecycle_is : final.lifecycle ≡ l
      pub counted : final.count ≡ n
      pub whole : final.incomplete_tail_bytes ≡ 0

    abbrev pub FitsEntry : Text → Type 0
    FitsEntry line = length (bytes (terminated line)) ≤ max_journal_entry_bytes

    pub inspect_lines-cons :
        (self next : Inspection (Value C)) (line : Text) (lines : List Text)
        → is_some self.lifecycle.terminal ≡ false
        → FitsEntry line
        → inspect_line serde bundle expected self line ≡ ok next
        → inspect_lines serde bundle expected self (map terminated (line ∷ lines))
          ≡ inspect_lines serde bundle expected next (map terminated lines)
    unfolding inspect_lines
    inspect_lines-cons self next line lines t s h =
        let small : ltb max_journal_entry_bytes (length (bytes (terminated line))) ≡ false =
          ground (arith, s) in
        rw (t, small, strip_suffix-terminated line, h) refl

    replay-cons :
        (header : Header (Value C)) (ids : List Text) (event : Event (Value C))
        (events : List (Event (Value C))) (first l : Lifecycle)
        → replay header ids first (event ∷ events) ≡ ok l
        → (is_some first.terminal ≡ false)
          × ((next : Lifecycle) × (inspect_event header ids first event ≡ ok next)
              × (replay header ids next events ≡ ok l))
    unfolding replay
    replay-cons header ids event events first l h = elim (Bool-cases (is_some first.terminal)) [
      | inl b ↦ absurd (ground (arith, rw b at h))
      | inr b ↦ (b, bind-ok (inspect_event header ids first event) _ (rw b at h))
    ]

    pub inspect_lines-of_Chain :
        (header : Header (Value C)) (l : Lifecycle) (m : ℕ) (q : Option Text)
        (events : List (Event (Value C))) (lines : List Text) (self : Inspection (Value C)) (n : ℕ)
        (p : Option Text)
        → self.header ≡ some header
        → Follows self n p
        → Chain serde n p events lines m q
        → ReadsBack n p events lines
        → replay header (scenario_ids bundle) self.lifecycle events ≡ ok l
        → All FitsEntry lines
        → n + length lines ≤ max_entries
        → (final : Inspection (Value C)) × (inspect_lines serde bundle expected self
              (map terminated lines)
            ≡ ok final)
          × Reads header l (n + length lines) final
    unfolding inspect_lines replay
    inspect_lines-of_Chain header l m q [] [] self n p e f c b r s u = (
      self,
      refl,
      record {
        header_kept = e;
        lifecycle_is = ground (arith, r);
        counted = omega (arith, f.same_count);
        whole = f.no_tail;
      },
    )
    inspect_lines-of_Chain header l m q [] (_ ∷ _) self n p e f c b r s u = absurd c
    inspect_lines-of_Chain header l m q (_ ∷ _) [] self n p e f c b r s u = absurd c
    inspect_lines-of_Chain header l m q (event ∷ events) (line ∷ lines) self n p e f c b r s u =
        let (open_still, (l', accepted, rest)) =
          replay-cons header (scenario_ids bundle) event events self.lifecycle l r in
        let next : Inspection (Value C) = record self { lifecycle = l' } in
        let read =
          inspect_line-ok self next n p event line f c.0 b.0 (omega (arith, u))
            (inspect_entry-ok self header event l' e accepted) in
        let (final, done, reads) =
          inspect_lines-of_Chain header l m q events lines (next_of self next line) (n + 1)
            (some (serde.library.digest line)) e
            (record {
              same_count = ap (λ k. k + 1) f.same_count;
              same_chain = refl;
              no_tail = f.no_tail;
            })
            c.1 b.2 rest s.1 (omega (arith, u)) in
        (
          final,
          inspect_lines-cons self (next_of self next line) line lines open_still s.0 read ∙ done,
          record {
            header_kept = reads.header_kept;
            lifecycle_is = reads.lifecycle_is;
            counted = omega (arith, reads.counted);
            whole = reads.whole;
          },
        )

    pub one_lines :
        (n : ℕ) (p : Option Text) (events : List (Event (Value C))) (lines : List Text) (m : ℕ)
        (q : Option Text)
        → Chain serde n p events lines m q
        → ReadsBack n p events lines
        → All IsOneLine lines
    one_lines n p [] [] m q c b = tt
    one_lines n p [] (_ ∷ _) m q c b = absurd c
    one_lines n p (_ ∷ _) [] m q c b = absurd c
    one_lines n p (event ∷ events) (line ∷ lines) m q c b =
        (b.1, one_lines (n + 1) (some (serde.library.digest line)) events lines m q c.1 b.2)
