-- ===== src/Base/Text/Blank.antt =====
-- A text that is blank stays blank, and one that is not stays so, when it is trimmed.
use Prim.Native.Char.{code}
use Prim.Native.String.{String}
use mathlib.Core.Path.{◌≡◌, refl, ◌∙◌, sym, ap}
use mathlib.Core.Bool.{Bool, false, not, ◌||◌, ◌&&◌}
use mathlib.Core.Logic.{inl, inr}
use native.Mathlib.Omega.{arith}
use ciacola.Base.Tests.{Bool-cases}
use ciacola.Base.Text.{is_whitespace, is_empty, trim_start, trim_end, trim}

-- whether a text has a character that is no white space
unfoldable has_word : String → Bool
has_word String.[] = false
has_word (String.◌∷◌ c s) = not (is_whitespace (code c)) || has_word s

is_empty-trim_end : (s : String) → is_empty (trim_end s) ≡ not (has_word s)
unfolding trim_end has_word
is_empty-trim_end String.[] = refl
is_empty-trim_end (String.◌∷◌ c s) = ground (arith, is_empty-trim_end s)

has_word-trim_start : (s : String) → has_word (trim_start s) ≡ has_word s
unfolding trim_start has_word
has_word-trim_start String.[] = refl
has_word-trim_start (String.◌∷◌ c s) = elim (Bool-cases (is_whitespace (code c))) [
  | inl e ↦ ground (arith, has_word-trim_start s)
  | inr e ↦ ground arith
]

has_word-trim_end : (s : String) → has_word (trim_end s) ≡ has_word s
unfolding trim_end has_word
has_word-trim_end String.[] = refl
has_word-trim_end (String.◌∷◌ c s) =
    let rest = has_word-trim_end s in
    elim (Bool-cases (is_empty (trim_end s) && is_whitespace (code c))) [
      | inl e ↦ ground (arith, is_empty-trim_end s)
      | inr e ↦ ground (arith, rest)
    ]

is_empty-trim : (s : String) → is_empty (trim s) ≡ not (has_word s)
unfolding trim
is_empty-trim s = is_empty-trim_end (trim_start s) ∙ ap not (has_word-trim_start s)

pub is_empty-trim-trim : (s : String) → is_empty (trim (trim s)) ≡ is_empty (trim s)
unfolding trim
is_empty-trim-trim s =
    is_empty-trim (trim s)
    ∙ ap not (has_word-trim_end (trim_start s) ∙ has_word-trim_start s)
    ∙ sym (is_empty-trim s)
