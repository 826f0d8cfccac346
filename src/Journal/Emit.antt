-- ===== src/Journal/Emit.antt =====
-- crates/prospect-dispatch/src/execution/record/journal.rs: the emitter, which writes the entries of a
-- journal to its sink. A text stands for its UTF-8 bytes; `O` is `io::Error`. `checked_add` cannot
-- overflow: `bytes` is at most 16 MiB, and a line is a string in memory.
use prospect_engine.Base.{
  ℕ, suc, ◌+◌, ◌*◌, ◌||◌, Option, some, [], ◌∷◌, ◌++◌, length, leb, ltb, if◌then◌else◌, Result, ok,
  err,
}
use prospect_engine.Base.Text.{Text, text, bytes}
use prospect_engine.Bundle.Json.{Value}
use prospect_engine.Record.{
  ExecutionRecordError, violation, invalid, max_record_bytes, max_record_scenarios,
}
use prospect_engine.Record.Verify.{RecordSerde, canonical}
use prospect_engine.Journal.{Event}

abbrev pub max_journal_bytes : ℕ
max_journal_bytes = max_record_bytes

abbrev pub max_journal_entry_bytes : ℕ
max_journal_entry_bytes = 8388608

abbrev pub max_entries : ℕ
max_entries = 2 * max_record_scenarios + 4

pub record Entry {ℓ} (V : Type ℓ) : Type ℓ where
  pub sequence : ℕ
  pub previous_sha256 : Option Text
  pub event : Event V

-- the sink of the caller
pub record JournalSink {ℓ} (O W : Type ℓ) : Type ℓ where
  pub append_record : Text → W → Result (Unit {0}) O × W

pub data JournalError {ℓ} (J O : Type ℓ) : Type ℓ where
  contract : ExecutionRecordError J → JournalError J O
  storage : O → JournalError J O

-- serde_json and the digest, with the conversion of an entry and its reading
pub record JournalSerde {ℓ} (C J : Type ℓ) : Type ℓ where
  pub library : RecordSerde C J
  pub entry_to_value : Entry (Value C) → Result (Value C) J
  pub entry_from_str : Text → Result (Entry (Value C)) J

-- The fields of `Emitter` but the sink, which is in the world.
pub record Emitter : Type 0 where
  pub sequence : ℕ
  pub previous : Option Text
  pub bytes : ℕ

abbrev pub refused {ℓ} : {J O : Type ℓ} → Text → JournalError J O
refused reason = contract (violation (invalid reason))

-- the bytes of a line with its line feed
abbrev pub line_bytes : Text → ℕ
line_bytes line = suc (length (bytes line))

-- `Emitter::append` after the sink returned
unfoldable pub acknowledged {ℓ} :
    {C J O W : Type ℓ}
    → JournalSerde C J
    → Emitter
    → Text
    → Result (Unit {0}) O × W
    → Result (Unit {0}) (JournalError J O) × (Emitter × W)
acknowledged serde self line (err e, w) = (err (storage e), (self, w))
acknowledged serde self line (ok _, w) = (
  ok tt,
  (
    record {
      sequence = self.sequence + 1;
      previous = some (serde.library.digest line);
      bytes = self.bytes + line_bytes line;
    },
    w,
  ),
)

-- `Emitter::append` after the entry is written as a line
unfoldable pub entry_written {ℓ} :
    {C J O W : Type ℓ}
    → JournalSerde C J
    → JournalSink O W
    → Emitter
    → Result Text (ExecutionRecordError J)
    → W
    → Result (Unit {0}) (JournalError J O) × (Emitter × W)
unfolding acknowledged
entry_written serde sink self (err e) w = (err (contract e), (self, w))
entry_written serde sink self (ok line) w =
    if ltb max_journal_entry_bytes (line_bytes line)
      || ltb max_journal_bytes (self.bytes + line_bytes line)
    then (err (refused (text "journal byte limit exceeded")), (self, w))
    else acknowledged serde self line (sink.append_record (line ++ 10 ∷ []) w)

-- the line of an event
abbrev pub line_of {ℓ} :
    {C J : Type ℓ}
    → JournalSerde C J
    → Emitter
    → Event (Value C)
    → Result Text (ExecutionRecordError J)
line_of serde self event = canonical serde.library (
    serde.entry_to_value
      (record { sequence = self.sequence; previous_sha256 = self.previous; event = event }))

-- `Emitter::append`
unfoldable pub append {ℓ} :
    {C J O W : Type ℓ}
    → JournalSerde C J
    → JournalSink O W
    → Emitter
    → Event (Value C)
    → W
    → Result (Unit {0}) (JournalError J O) × (Emitter × W)
unfolding entry_written
append serde sink self event w =
    if leb max_entries self.sequence
    then (err (refused (text "too many journal entries")), (self, w))
    else entry_written serde sink self (line_of serde self event) w
