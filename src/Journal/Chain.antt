-- ===== src/Journal/Chain.antt =====
-- The bytes that a sink holds, as the chained entries of a list of events. `Chain` gives an entry by
-- its number, the digest before it and its event, apart from the emitter; `Appends` is what one
-- append of the emitter does to the bytes.
use prospect_engine.Base.{
  ℕ, ◌+◌, ◌≤◌, ◌<◌, ◌≡◌, refl, sym, ap, subst, ◌∙◌, ◌⊎◌, inl, inr, ◌||◌, Option, some, List, [],
  ◌∷◌, ◌++◌, leb, ltb, Result, ok, err, Bool-cases, length, length-append, arith,
}
use mathlib.Core.List.{append-nil, append_assoc}
use prospect_engine.Base.Text.{Text, bytes, utf8}
use prospect_engine.Base.Key.{text_key}
use prospect_engine.Bundle.Json.{Value}
use prospect_engine.Record.{ExecutionRecordError}
use prospect_engine.Record.Verify.{canonical}
use prospect_engine.Journal.{Event}
use prospect_engine.Journal.Emit.{
  Emitter, Entry, JournalError, JournalSerde, JournalSink, acknowledged, entry_written, append,
  line_of, line_bytes, max_entries, max_journal_bytes, max_journal_entry_bytes,
}

-- the line with its line feed
abbrev pub terminated : Text → Text
terminated line = line ++ 10 ∷ []

abbrev pub journal_text : List Text → Text
journal_text [] = []
journal_text (line ∷ lines) = line ++ 10 ∷ journal_text lines

pub bytes-append : (xs ys : Text) → bytes (xs ++ ys) ≡ bytes xs ++ bytes ys
bytes-append [] ys = refl
bytes-append (x ∷ xs) ys =
    ap (λ zs. utf8 x ++ zs) (bytes-append xs ys) ∙ sym (append_assoc (utf8 x) (bytes xs) (bytes ys))

journal_text-snoc :
    (lines : List Text) (line : Text)
    → journal_text (lines ++ line ∷ []) ≡ journal_text lines ++ terminated line
journal_text-snoc [] line = refl
journal_text-snoc (l ∷ ls) line =
    ap (λ zs. l ++ 10 ∷ zs) (journal_text-snoc ls line)
    ∙ sym (append_assoc l (10 ∷ journal_text ls) (terminated line))

pub bytes-journal_text-snoc :
    (lines : List Text) (line : Text)
    → bytes (journal_text (lines ++ line ∷ []))
      ≡ bytes (journal_text lines) ++ bytes (terminated line)
bytes-journal_text-snoc lines line =
    ap bytes (journal_text-snoc lines line) ∙ bytes-append (journal_text lines) (terminated line)

pub line_bytes_lem : (line : Text) → line_bytes line ≡ length (bytes (terminated line))
line_bytes_lem line =
    omega (arith, ap length (bytes-append line (10 ∷ [])), length-append (bytes line) (10 ∷ []))

-- what a result holds
abbrev pub Yields {ℓ} : {E : Type ℓ} → Result Text E → Text → Type 0
Yields (ok a) b = a ≡ b
Yields (err e) b = ⊥

module _ {ℓ} {C J : Type ℓ} (serde : JournalSerde C J) where
  abbrev pub entry_of : ℕ → Option Text → Event (Value C) → Entry (Value C)
  entry_of n previous event = record { sequence = n; previous_sha256 = previous; event = event }

  -- the line is the canonical text of the entry with the number, the previous digest and the event
  abbrev pub IsEntryLine : ℕ → Option Text → Event (Value C) → Text → Type 0
  IsEntryLine n previous event line =
      Yields (canonical serde.library (serde.entry_to_value (entry_of n previous event))) line

  -- The lines of the events, numbered from `n` on without a gap, each with the digest of the line
  -- before it; `m` and `q` are the number and the digest that come next.
  abbrev pub Chain : ℕ → Option Text → List (Event (Value C)) → List Text → ℕ → Option Text → Type 0
  Chain n p [] [] m q = (n ≡ m) × (p ≡ q)
  Chain n p (event ∷ events) (line ∷ lines) m q =
      IsEntryLine n p event line × Chain (n + 1) (some (serde.library.digest line)) events lines m q
  Chain n p _ _ m q = ⊥

  pub Chain-snoc :
      (n : ℕ) (p : Option Text) (events : List (Event (Value C))) (lines : List Text) (m : ℕ)
      (q : Option Text) (event : Event (Value C)) (line : Text)
      → Chain n p events lines m q
      → IsEntryLine m q event line
      → Chain n p
          (events ++ event ∷ [])
          (lines ++ line ∷ [])
          (m + 1)
          (some (serde.library.digest line))
  Chain-snoc n p [] [] m q event line c h = (
    subst (λ k. IsEntryLine k p event line) (sym c.0)
        (subst (λ o. IsEntryLine m o event line) (sym c.1) h),
    (ap (λ k. k + 1) c.0, refl),
  )
  Chain-snoc n p [] (_ ∷ _) m q event line c h = absurd c
  Chain-snoc n p (_ ∷ _) [] m q event line c h = absurd c
  Chain-snoc n p (e ∷ es) (l ∷ ls) m q event line c h =
      (c.0, Chain-snoc (n + 1) (some (serde.library.digest l)) es ls m q event line c.1 h)

  -- the bytes are the beginning of the line of an entry, with its line feed
  abbrev pub IsPartOf : ℕ → Option Text → Event (Value C) → List ℕ → Type 0
  IsPartOf n p event part =
      (line : Text) × (rest : List ℕ) × IsEntryLine n p event line
      × (bytes (terminated line) ≡ part ++ rest)

  -- the emitter once a line is acknowledged
  abbrev pub advance : Emitter → Text → Emitter
  advance self line = record {
    sequence = self.sequence + 1;
    previous = some (serde.library.digest line);
    bytes = self.bytes + line_bytes line;
  }

  -- there is room for the line within the limits of a journal
  abbrev pub HasRoom : Emitter → Text → Type 0
  HasRoom self line =
      (self.sequence < max_entries)
      × (length (bytes (terminated line)) ≤ max_journal_entry_bytes)
      × (self.bytes + length (bytes (terminated line)) ≤ max_journal_bytes)

  module _ {O W : Type ℓ} (sink : JournalSink O W) (stored : W → List ℕ) where
    -- A sink that adds the whole line when it acknowledges it, and when it fails, as it may after a
    -- partial write, a beginning of the line: nothing, a part or all of it.
    pub record IsFaithful : Type ℓ where
      pub appended :
          (line : Text) (w w' : W)
          → sink.append_record (terminated line) w ≡ (ok tt, w')
          → stored w' ≡ stored w ++ bytes (terminated line)
      pub torn :
          (line : Text) (e : O) (w w' : W)
          → sink.append_record (terminated line) w ≡ (err e, w')
          → (part : List ℕ) × (rest : List ℕ) × (bytes (terminated line) ≡ part ++ rest)
            × (stored w' ≡ stored w ++ part)

    -- how an append can end
    abbrev pub Appends :
        Emitter
        → Event (Value C)
        → W
        → Result (Unit {0}) (JournalError J O) × (Emitter × W)
        → Type 0
    Appends self event w (ok _, (after, w')) =
        (line : Text) × IsEntryLine self.sequence self.previous event line
        × (after ≡ advance self line)
        × (stored w' ≡ stored w ++ bytes (terminated line))
        × HasRoom self line
    Appends self event w (err e, (after, w')) =
        (after ≡ self)
        × ((part : List ℕ) × (stored w' ≡ stored w ++ part)
            × ((part ≡ []) ⊎ IsPartOf self.sequence self.previous event part))

    module _ (faithful : IsFaithful) (self : Emitter) (event : Event (Value C)) (w : W) where
      unwritten :
          (self ≡ self)
          × ((part : List ℕ) × (stored w ≡ stored w ++ part)
              × ((part ≡ []) ⊎ IsPartOf self.sequence self.previous event part))
      unwritten = (refl, ([], sym (append-nil (stored w)), inl refl))

      acknowledged-Appends :
          (line : Text) (r : Result (Unit {0}) O × W)
          → IsEntryLine self.sequence self.previous event line
          → HasRoom self line
          → sink.append_record (terminated line) w ≡ r
          → Appends self event w (acknowledged serde self line r)
      unfolding acknowledged
      acknowledged-Appends line (ok _, w') q m h = (line, q, refl, faithful.appended line w w' h, m)
      acknowledged-Appends line (err e, w') q m h =
          let (part, rest, split, more) = faithful.torn line e w w' h in
          (refl, (part, more, inr (line, rest, q, split)))

      entry_written-Appends :
          (r : Result Text (ExecutionRecordError J))
          → line_of serde self event ≡ r
          → self.sequence < max_entries
          → Appends self event w (entry_written serde sink self r w)
      unfolding entry_written
      entry_written-Appends (err e) q n = unwritten
      entry_written-Appends (ok line) q n =
          elim (Bool-cases (
            ltb max_journal_entry_bytes (line_bytes line)
            || ltb max_journal_bytes (self.bytes + line_bytes line))) [
              | inl b ↦ rw b (unwritten)
              | inr b ↦ rw b (
                  acknowledged-Appends line _ (rw q refl)
                    (
                      n,
                      ground (arith, b, line_bytes_lem line),
                      ground (arith, b, line_bytes_lem line),
                    )
                    refl)
            ]

      pub append-Appends : Appends self event w (append serde sink self event w)
      unfolding append
      append-Appends = elim (Bool-cases (leb max_entries self.sequence)) [
        | inl b ↦ rw b (unwritten)
        | inr b ↦ rw b (entry_written-Appends _ refl (ground (arith, b)))
      ]
