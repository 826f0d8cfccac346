-- ===== src/Base/Text.antt =====
-- `String` as its sequence of Unicode scalar values. Comparing scalar values orders texts as
-- comparing their UTF-8 bytes does; `bytes` gives the bytes themselves.
use Prim.Native.Nat.{ℕ, ◌+◌, ◌/◌, ◌%◌, compare, Ordering}
use Prim.Native.Nat.Ordering.{lt, eq, gt}
use Prim.Native.Char.{code}
use Prim.Native.String.{String}
use mathlib.Core.Path.{◌≡◌, refl}
use mathlib.Core.Logic.{◌≢◌}
use mathlib.Core.Bool.{Bool, ◌&&◌, ◌||◌}
use mathlib.Core.List.{List, [], ◌∷◌, ◌++◌}
use native.Mathlib.Omega.{arith}
use prospect_engine.Base.Bools.{leb, ltb, ◌==◌, if◌then◌else◌}
use prospect_engine.Base.Lists.{all}
use prospect_engine.Base.Ord.{Ord, flip}

abbrev pub Text : Type 0
Text = List ℕ

-- A literal of the source.
abbrev pub text : String → Text
text String.[] = []
text (String.◌∷◌ c s) = code c ∷ text s

-- `char::encode_utf8`
abbrev pub utf8 : ℕ → List ℕ
utf8 c =
    if ltb c 0x80
    then c ∷ []
    else if ltb c 0x800
    then (0xC0 + c / 64) ∷ (0x80 + c % 64) ∷ []
    else if ltb c 0x10000
    then (0xE0 + c / 4096) ∷ (0x80 + c / 64 % 64) ∷ (0x80 + c % 64) ∷ []
    else (0xF0 + c / 262144) ∷ (0x80 + c / 4096 % 64) ∷ (0x80 + c / 64 % 64) ∷ (0x80 + c % 64) ∷ []

-- `str::bytes`
abbrev pub bytes : Text → List ℕ
bytes [] = []
bytes (c ∷ s) = utf8 c ++ bytes s

-- `char::is_whitespace`: the Unicode property White_Space
abbrev pub is_whitespace : ℕ → Bool
is_whitespace c =
    (leb 9 c && leb c 13)
    || c == 32
    || c == 0x85
    || c == 0xA0
    || c == 0x1680
    || (leb 0x2000 c && leb c 0x200A)
    || c == 0x2028
    || c == 0x2029
    || c == 0x202F
    || c == 0x205F
    || c == 0x3000

-- `s.trim().is_empty()`: `trim` leaves nothing exactly when every character is white space
abbrev pub is_blank : Text → Bool
is_blank s = all is_whitespace s

-- `s.split(sep)` for a character `sep`: the segment read so far is carried along
abbrev pub split_from : ℕ → Text → Text → List Text
split_from sep segment [] = segment ∷ []
split_from sep segment (c ∷ s) =
    let ended = split_from sep [] s in
    let longer = split_from sep (segment ++ (c ∷ [])) s in
    if c == sep then segment ∷ ended else longer

abbrev pub split : ℕ → Text → List Text
split sep s = split_from sep [] s

-- `str::cmp`
unfoldable pub text_cmp : Text → Text → Ordering
text_cmp [] [] = eq
text_cmp [] (_ ∷ _) = lt
text_cmp (_ ∷ _) [] = gt
text_cmp (a ∷ x) (b ∷ y) =
    let rest = text_cmp x y in elim (compare a b) [ lt ↦ lt | eq ↦ rest | gt ↦ gt ]

pub text_cmp-flip : (x y : Text) → text_cmp y x ≡ flip (text_cmp x y)
unfolding text_cmp
text_cmp-flip [] [] = refl
text_cmp-flip [] (_ ∷ _) = refl
text_cmp-flip (_ ∷ _) [] = refl
text_cmp-flip (a ∷ x) (b ∷ y) = ground (arith, text_cmp-flip x y)

pub text_cmp-eq : (x y : Text) → text_cmp x y ≡ eq → x ≡ y
unfolding text_cmp
text_cmp-eq [] [] h = refl
text_cmp-eq [] (_ ∷ _) h = cc
text_cmp-eq (_ ∷ _) [] h = cc
text_cmp-eq (a ∷ x) (b ∷ y) h = ground (arith, text_cmp-eq x y)

pub text_cmp_trans : (x y z : Text) → text_cmp x y ≢ gt → text_cmp y z ≢ gt → text_cmp x z ≢ gt
unfolding text_cmp
text_cmp_trans [] y [] h k = ground arith
text_cmp_trans [] y (_ ∷ _) h k = ground arith
text_cmp_trans (_ ∷ _) [] z h k = absurd (h refl)
text_cmp_trans (_ ∷ _) (_ ∷ _) [] h k = absurd (k refl)
text_cmp_trans (a ∷ x) (b ∷ y) (c ∷ z) h k = ground (arith, text_cmp_trans x y z)

instance unfoldable pub text_ord : Ord Text
text_ord = record { cmp = text_cmp; cmp_flip = text_cmp-flip; cmp_trans = text_cmp_trans }
