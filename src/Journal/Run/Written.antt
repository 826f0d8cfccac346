-- ===== src/Journal/Run/Written.antt =====
-- What a session has written: one more event that the lifecycle accepts, or a session that is stuck.
use prospect_engine.Base.{
  ℕ, ◌≤◌, All, All-append, length, length-append, ◌≡◌, refl, sym, ap, subst, ◌∙◌, ◌⊎◌, inl, inr,
  Bool, true, false, none, some, List, [], ◌∷◌, ◌++◌, is_some, Result, ok, err, Result-cases,
  Bool-cases, arith,
}
use mathlib.Core.List.{append-nil}
use prospect_engine.Base.Text.{Text, bytes}
use prospect_engine.Base.Key.{text_key}
use prospect_engine.Bundle.Json.{Value}
use prospect_engine.Journal.{Event, Header, Lifecycle, default, initialized, inspect_event, replay}
use prospect_engine.Journal.Emit.{
  Emitter, JournalError, JournalSerde, JournalSink, max_entries, max_journal_bytes,
  max_journal_entry_bytes,
}
use prospect_engine.Journal.Session.{Session, emitted, emit}
use prospect_engine.Journal.Run.{fresh_emitter, fresh_session}
use prospect_engine.Journal.Chain.{
  Chain, Chain-snoc, IsEntryLine, IsPartOf, IsFaithful, Appends, HasRoom, line_bytes_lem, advance,
  append-Appends, terminated, journal_text, bytes-journal_text-snoc,
}

replay-snoc {ℓ} :
    {V : Type ℓ} (header : Header V) (ids : List Text) (events : List (Event V)) (event : Event V)
    (first l l' : Lifecycle)
    → replay header ids first events ≡ ok l
    → is_some l.terminal ≡ false
    → inspect_event header ids l event ≡ ok l'
    → replay header ids first (events ++ event ∷ []) ≡ ok l'
unfolding replay
replay-snoc header ids [] event first l l' h t q =
    let e : first ≡ l = ground (arith, h) in rw (e, t, q) refl
replay-snoc header ids (e ∷ es) event first l l' h t q =
    elim (Bool-cases (is_some first.terminal)) [
      | inl b ↦ absurd (ground (arith, rw b at h))
      | inr b ↦ elim (Result-cases (inspect_event header ids first e)) [
        | inr (x, k) ↦ absurd (ground (arith, rw (b, k) at h))
        | inl (next, k) ↦ rw (b, k) (replay-snoc header ids es event next l l' (rw (b, k) at h) t q)
      ]
    ]

map_inr {ℓ κ μ} : {A : Type ℓ} {B : Type κ} {D : Type μ} → A ⊎ B → (B → D) → A ⊎ D
map_inr (inl a) f = inl a
map_inr (inr b) f = inr (f b)

module _ {ℓ} {C J O W : Type ℓ} (serde : JournalSerde C J) (sink : JournalSink O W)
    (stored : W → List ℕ) (header : Header (Value C)) (ids : List Text) where
  -- Bytes that are a journal of the run: one line for the header and one for each event, numbered
  -- from 0 on without a gap, each with the digest of the line before it, and none before the header;
  -- and the lifecycle accepts the events. The lines are within the limits that an inspection sets.
  pub record IsJournal (l : Lifecycle) (written : List ℕ) (last : Emitter) : Type ℓ where
    pub events : List (Event (Value C))
    pub lines : List Text
    pub chained : Chain serde 0 none (initialized header ∷ events) lines last.sequence last.previous
    pub whole : written ≡ bytes (journal_text lines)
    pub accepted : replay header ids default events ≡ ok l
    pub numbered : last.sequence ≡ length lines
    pub measured : last.bytes ≡ length written
    pub few_lines : length lines ≤ max_entries
    pub short_lines : All (λ line. length (bytes (terminated line)) ≤ max_journal_entry_bytes) lines
    pub within_bytes : length written ≤ max_journal_bytes

  -- a session that goes on
  pub record Written (l : Lifecycle) (n : ℕ) (u : Session J O × W) : Type ℓ where
    pub no_error : u.0.error ≡ none
    pub next_is : u.0.next ≡ n
    pub journal : IsJournal l (stored u.1) u.0.emitter

  -- Bytes that are a journal of the run, and after it perhaps a beginning of the line of one more
  -- event, which the lifecycle accepts.
  pub record IsTorn (written : List ℕ) : Type ℓ where
    pub l : Lifecycle
    pub last : Emitter
    pub front : List ℕ
    pub part : List ℕ
    pub journal : IsJournal l front last
    pub split : written ≡ front ++ part
    pub unfinished :
        (part ≡ [])
        ⊎ ((event : Event (Value C)) × (l' : Lifecycle) × IsPartOf serde last.sequence last.previous
              event part
            × (is_some l.terminal ≡ false)
            × (inspect_event header ids l event ≡ ok l'))

  -- what is stored is nothing, a beginning of the line of the header, or a journal as above
  abbrev pub Kept : List ℕ → Type ℓ
  Kept written =
      (written ≡ []) ⊎ (IsPartOf serde 0 none (initialized header) written ⊎ IsTorn written)

  -- a session that has failed
  abbrev pub Stuck : Session J O × W → Type ℓ
  Stuck u = (is_some u.0.error ≡ true) × Kept (stored u.1)

  abbrev pub Emits : Lifecycle → ℕ → Bool × (Session J O × W) → Type ℓ
  Emits l n (true, u) = Written l n u
  Emits l n (false, u) = Stuck u

  pub Written-moves :
      (l : Lifecycle) (n : ℕ) (s : Session J O) (w w' : W)
      → stored w' ≡ stored w
      → Written l n (s, w)
      → Written l n (s, w')
  Written-moves l n s w w' e h = record {
    no_error = h.no_error;
    next_is = h.next_is;
    journal = subst (λ t. IsJournal l t s.emitter) (sym e) h.journal;
  }

  pub Stuck-moves :
      (s : Session J O) (w w' : W) → stored w' ≡ stored w → Stuck (s, w) → Stuck (s, w')
  Stuck-moves s w w' e h = (h.0, subst Kept (sym e) h.1)

  -- a session that fails keeps what it wrote
  pub Stuck-of_Written :
      (l : Lifecycle) (n : ℕ) (s : Session J O) (w : W) (e : JournalError J O)
      → Written l n (s, w)
      → Stuck (record s { error = some e }, w)
  Stuck-of_Written l n s w e h = (
    refl,
    inr (
        inr (record {
          l = l;
          last = s.emitter;
          front = stored w;
          part = [];
          journal = h.journal;
          split = sym (append-nil (stored w));
          unfinished = inl refl;
        })),
  )

  IsJournal-snoc :
      (l l' : Lifecycle) (written : List ℕ) (last : Emitter) (event : Event (Value C)) (line : Text)
      → IsJournal l written last
      → is_some l.terminal ≡ false
      → inspect_event header ids l event ≡ ok l'
      → IsEntryLine serde last.sequence last.previous event line
      → HasRoom serde last line
      → IsJournal l' (written ++ bytes (terminated line)) (advance serde last line)
  IsJournal-snoc l l' written last event line h t q y m = record {
    events = h.events ++ event ∷ [];
    lines = h.lines ++ line ∷ [];
    chained =
        Chain-snoc serde 0 none (initialized header ∷ h.events) h.lines last.sequence last.previous
          event line h.chained y;
    whole =
        ap (λ t. t ++ bytes (terminated line)) h.whole ∙ sym (bytes-journal_text-snoc h.lines line);
    accepted = replay-snoc header ids h.events event default l l' h.accepted t q;
    numbered = omega (arith, h.numbered, length-append h.lines (line ∷ []));
    measured =
        omega
          (arith, h.measured, line_bytes_lem line, length-append written (bytes (terminated line)));
    few_lines = omega (arith, h.numbered, m.0, length-append h.lines (line ∷ []));
    short_lines = All-append _ h.lines (line ∷ []) h.short_lines (m.1, tt);
    within_bytes = omega (arith, h.measured, m.2, length-append written (bytes (terminated line)));
  }

  module _ (faithful : IsFaithful serde sink stored) where
    emitted-Emits :
        (l l' : Lifecycle) (n : ℕ) (s : Session J O) (w : W) (event : Event (Value C))
        (r : Result (Unit {0}) (JournalError J O) × (Emitter × W))
        → Written l n (s, w)
        → is_some l.terminal ≡ false
        → inspect_event header ids l event ≡ ok l'
        → Appends serde sink stored s.emitter event w r
        → Emits l' n (emitted s r)
    unfolding emitted
    emitted-Emits l l' n s w event (ok _, (em, w')) h t q (line, y, e, k, m) = record {
      no_error = h.no_error;
      next_is = h.next_is;
      journal = rw (e, k) (IsJournal-snoc l l' (stored w) s.emitter event line h.journal t q y m);
    }
    emitted-Emits l l' n s w event (err e, (em, w')) h t q (k, (part, m, begins)) = (
      refl,
      inr (
          inr (record {
            l = l;
            last = s.emitter;
            front = stored w;
            part = part;
            journal = h.journal;
            split = m;
            unfinished = map_inr begins (λ b. (event, l', b, t, q));
          })),
    )

    -- An event that the lifecycle accepts is written, or the session is stuck.
    pub emit-Emits :
        (l l' : Lifecycle) (n : ℕ) (s : Session J O) (w : W) (event : Event (Value C))
        → Written l n (s, w)
        → is_some l.terminal ≡ false
        → inspect_event header ids l event ≡ ok l'
        → Emits l' n (emit serde sink s event w)
    unfolding emit
    emit-Emits l l' n s w event h t q =
        let live : is_some s.error ≡ false = ap is_some h.no_error in
        rw live (
          emitted-Emits l l' n s w event _ h t q
            (append-Appends serde sink stored faithful s.emitter event w))

    emitted-fresh :
        (w : W) (r : Result (Unit {0}) (JournalError J O) × (Emitter × W))
        → stored w ≡ []
        → Appends serde sink stored fresh_emitter (initialized header) w r
        → Emits default 0 (emitted fresh_session r)
    unfolding emitted replay
    emitted-fresh w (ok _, (em, w')) h (line, y, e, k, m) = record {
      no_error = refl;
      next_is = refl;
      journal =
          rw (e, k, h)
            (record {
              events = [];
              lines = line ∷ [];
              chained = (y, (refl, refl));
              whole = refl;
              accepted = refl;
              numbered = refl;
              measured = omega (arith, line_bytes_lem line);
              few_lines = omega arith;
              short_lines = (m.1, tt);
              within_bytes = omega (arith, m.2);
            });
    }
    emitted-fresh w (err e, (em, w')) h (k, (part, m, begins)) =
        let only : stored w' ≡ part = m ∙ ap (λ t. t ++ part) h in
        (refl, begun (stored w') part only begins)
      where
        begun :
            (t part : List ℕ)
            → t ≡ part
            → (part ≡ []) ⊎ IsPartOf serde 0 none (initialized header) part
            → Kept t
        begun t part e (inl z) = inl (e ∙ z)
        begun t part e (inr b) =
            inr (inl (subst (IsPartOf serde 0 none (initialized header)) (sym e) b))

    -- The header is written to a sink without lines, or the session is stuck.
    pub emit-header :
        (w : W)
        → stored w ≡ []
        → Emits default 0 (emit serde sink fresh_session (initialized header) w)
    unfolding emit
    emit-header w h =
        emitted-fresh w _ h
          (append-Appends serde sink stored faithful fresh_emitter (initialized header) w)
