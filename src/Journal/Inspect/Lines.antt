-- ===== src/Journal/Inspect/Lines.antt =====
-- The lines of a text that is a list of terminated lines.
use prospect_engine.Base.{
  ◌≡◌, refl, ap, ◌∙◌, true, false, Option, none, some, List, [], ◌∷◌, ◌++◌, map, All, ◌==◌,
}
use prospect_engine.Base.Text.{Text}
use prospect_engine.Base.Key.{text_key, same_refl}
use prospect_engine.Journal.Chain.{journal_text, terminated}
use prospect_engine.Journal.Inspect.{same_previous, split_inclusive, strip_suffix}

abbrev pub IsOneLine : Text → Type 0
IsOneLine line = All (λ c. (c == 10) ≡ false) line

split_inclusive-line :
    (line rest : Text)
    → IsOneLine line
    → split_inclusive (line ++ 10 ∷ rest) ≡ terminated line ∷ split_inclusive rest
split_inclusive-line [] rest h = refl
split_inclusive-line (c ∷ cs) rest h = rw (h.0, split_inclusive-line cs rest h.1) refl

pub split_inclusive-journal :
    (lines : List Text)
    → All IsOneLine lines
    → split_inclusive (journal_text lines) ≡ map terminated lines
split_inclusive-journal [] h = refl
split_inclusive-journal (line ∷ lines) h =
    split_inclusive-line line (journal_text lines) h.0
    ∙ ap (λ xs. terminated line ∷ xs) (split_inclusive-journal lines h.1)

pub strip_suffix-terminated : (line : Text) → strip_suffix (terminated line) ≡ some line
strip_suffix-terminated [] = refl
strip_suffix-terminated (c ∷ []) = refl
strip_suffix-terminated (c ∷ d ∷ cs) = rw (strip_suffix-terminated (d ∷ cs)) refl

pub same_previous_refl : (p : Option Text) → same_previous p p ≡ true
same_previous_refl none = refl
same_previous_refl (some a) = same_refl a
