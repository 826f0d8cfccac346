-- ===== src/Journal/Run/Fixture.antt =====
-- A sink of bounded size. What does not fit is written as far as it fits, and is an error.
use prospect_engine.Base.{
  ℕ, zero, suc, ◌+◌, ◌-◌, ◌≡◌, refl, ap, sym, List, [], ◌∷◌, ◌++◌, leb, length, if◌then◌else◌,
  Result, ok, err, Bool-cases, inl, inr,
}
use prospect_engine.Base.Text.{bytes}
use prospect_engine.Journal.Chain.{IsFaithful, terminated}
use prospect_engine.Journal.Emit.{JournalSerde, JournalSink}

-- the first `n` bytes, and the others
abbrev pub front : ℕ → List ℕ → List ℕ
front zero bs = []
front (suc n) [] = []
front (suc n) (b ∷ bs) = b ∷ front n bs

abbrev pub back : ℕ → List ℕ → List ℕ
back zero bs = bs
back (suc n) [] = []
back (suc n) (b ∷ bs) = back n bs

front-back : (n : ℕ) (bs : List ℕ) → bs ≡ front n bs ++ back n bs
front-back zero bs = refl
front-back (suc n) [] = refl
front-back (suc n) (b ∷ bs) = ap (λ cs. b ∷ cs) (front-back n bs)

abbrev pub bounded : ℕ → JournalSink ℕ (List ℕ)
bounded limit = record {
  append_record = λ line w.
      if leb (length w + length (bytes line)) limit
      then (ok tt, w ++ bytes line)
      else (err 0, w ++ front (limit - length w) (bytes line));
}

abbrev pub itself : List ℕ → List ℕ
itself w = w

pub bounded-IsFaithful :
    {C J : Type 0} (limit : ℕ) (serde : JournalSerde C J) → IsFaithful serde (bounded limit) itself
bounded-IsFaithful limit serde = record {
  appended = λ line w w' h.
      elim (Bool-cases (leb (length w + length (bytes (terminated line))) limit)) [
        | inl b ↦ sym (ap (λ r. r.1) (rw b at h))
        | inr b ↦ absurd (failed_not_ok (ap (λ r. r.0) (rw b at h)))
      ];
  torn = λ line e w w' h.
      elim (Bool-cases (leb (length w + length (bytes (terminated line))) limit)) [
        | inl b ↦ absurd (ok_not_failed (ap (λ r. r.0) (rw b at h)))
        | inr b ↦ (
          front (limit - length w) (bytes (terminated line)),
          back (limit - length w) (bytes (terminated line)),
          front-back (limit - length w) (bytes (terminated line)),
          sym (ap (λ r. r.1) (rw b at h)),
        )
      ];
}
  where
    failed_not_ok : ¬ (◌≡◌ {A = Result (Unit {0}) ℕ} (err 0) (ok tt))
    failed_not_ok h = cc

    ok_not_failed : {e : ℕ} → ¬ (◌≡◌ {A = Result (Unit {0}) ℕ} (ok tt) (err e))
    ok_not_failed h = cc
