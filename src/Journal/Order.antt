-- ===== src/Journal/Order.antt =====
-- The call intents and the end of an accepted journal.
use prospect_engine.Base.{
  ◌≡◌, refl, ap, ◌∙◌, Option, none, some, List, [], ◌∷◌, ◌++◌, inl, inr, ok, Result-cases, arith,
}
use prospect_engine.Base.Text.{Text}
use prospect_engine.Base.Key.{text_key}
use prospect_engine.Journal.{
  CallTarget, Terminal, Header, Event, Lifecycle, default, inspect_event, replay, initialized,
  call_started, call_succeeded, call_failed, finished,
}
use prospect_engine.Journal.Steps.{inspect_event-Step}
use prospect_engine.Journal.Phases.{
  Phase, idle, calling_baseline, baseline_failed, between, calling, scenario_failed, at, ahead,
  begun, Within, Ends,
}

module _ {ℓ} {V : Type ℓ} (header : Header V) (ids : List Text) where
  -- Where the events of a journal lead from a phase.
  abbrev pub Reaches : Phase → List (Event V) → Lifecycle → Type 0
  Reaches p events l =
      (q : Phase) × (t : Option Terminal) × (l ≡ at q t)
      × (begun events ++ ahead ids q ≡ ahead ids p)
      × Within header q
      × Ends header ids q t

  begun-cons :
      (event : Event V) (events : List (Event V)) (xs : List CallTarget)
      → begun (event ∷ events) ++ xs ≡ begun (event ∷ []) ++ (begun events ++ xs)
  begun-cons (initialized x) events xs = refl
  begun-cons (call_started target) events xs = refl
  begun-cons (call_succeeded target payload) events xs = refl
  begun-cons (call_failed target payload) events xs = refl
  begun-cons (finished t) events xs = refl

  at-terminal : (p : Phase) (t : Option Terminal) → (at p t).terminal ≡ t
  at-terminal idle t = refl
  at-terminal calling_baseline t = refl
  at-terminal baseline_failed t = refl
  at-terminal (between k) t = refl
  at-terminal (calling k id) t = refl
  at-terminal (scenario_failed k id) t = refl

  replay-Reaches :
      (p : Phase) (t : Option Terminal) (events : List (Event V)) (l : Lifecycle)
      → Within header p
      → Ends header ids p t
      → replay header ids (at p t) events ≡ ok l
      → Reaches p events l
  unfolding replay
  replay-Reaches p t [] l w e h = (p, t, ground (arith, h), refl, w, e)
  replay-Reaches p (some t) (event ∷ events) l w e h =
      absurd (ground (arith, rw (at-terminal p (some t)) at h))
  replay-Reaches p none (event ∷ events) l w e h =
      elim (Result-cases (inspect_event header ids (at p none) event)) [
        | inr (x, a) ↦ absurd (ground (arith, rw (at-terminal p none, a) at h))
        | inl (l', a) ↦
            let (q, t, shape, calls, w', e') = inspect_event-Step header ids p event l' w a in
            let (q'', t'', shape'', calls'', w'', e'') =
              replay-Reaches q t events l w' e' (rw shape at (rw (at-terminal p none, a) at h)) in
            (
              q'',
              t'',
              shape'',
              begun-cons event events (ahead ids q'')
                  ∙ ap (λ xs. begun (event ∷ []) ++ xs) calls''
                  ∙ calls,
              w'',
              e'',
            )
      ]

  pub replay-follows_plan :
      (events : List (Event V)) (l : Lifecycle)
      → replay header ids default events ≡ ok l
      → Reaches idle events l
  replay-follows_plan events l h = replay-Reaches idle none events l tt tt h
