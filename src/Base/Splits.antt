-- ===== src/Base/Splits.antt =====
-- Go's `strings.Split` at one character.
use Prim.Native.Char.{Char, code}
use Prim.Native.String.{String, ◌++◌}
use mathlib.Core.Path.{◌≡◌, refl}
use mathlib.Core.Logic.{◌⊎◌, inl, inr}
use mathlib.Core.Bool.{Bool, true, false, ◌||◌}
use mathlib.Core.List.{List, [], ◌∷◌}
use native.Mathlib.Omega.{arith}
use text.Mathlib.TextLemmas.{nil-append, cons-append}
use brignext.Base.Tests.{eqb, Bool-cases, if◌then◌else◌}

-- Put a character in front of the first part.
onto_first : Char → List String → List String
onto_first c [] = String.◌∷◌ c "" ∷ []
onto_first c (part ∷ parts) = String.◌∷◌ c part ∷ parts

-- `strings.Split(s, sep)`
unfoldable pub split_at : Char → String → List String
unfolding onto_first
split_at sep String.[] = "" ∷ []
split_at sep (String.◌∷◌ c s) =
    let rest = split_at sep s in if eqb (code c) (code sep) then "" ∷ rest else onto_first c rest

-- `strings.Contains(s, sep)`
unfoldable pub has_char : Char → String → Bool
has_char sep String.[] = false
has_char sep (String.◌∷◌ c s) = eqb (code c) (code sep) || has_char sep s

separator-append :
    (sep : Char) (t : String) → split_at sep (String.◌∷◌ sep "" ++ t) ≡ "" ∷ split_at sep t
unfolding split_at
separator-append sep t = rw (cons-append sep "" t, nil-append t) (ground arith)

-- What is in front of the first separator is the first part.
pub split_at-append :
    (sep : Char) (s t : String)
    → has_char sep s ≡ false
    → split_at sep (s ++ (String.◌∷◌ sep "" ++ t)) ≡ s ∷ split_at sep t
unfolding split_at has_char onto_first
split_at-append sep String.[] t h = rw (nil-append (String.◌∷◌ sep "" ++ t), separator-append sep t)
split_at-append sep (String.◌∷◌ c s) t h =
    rw (cons-append c s (String.◌∷◌ sep "" ++ t)) (ground (arith, split_at-append sep s t))

-- A text without the separator is one part; with it, it has two parts or more.
pub split_at_cases :
    (sep : Char) (s : String)
    → (has_char sep s ≡ false) × (split_at sep s ≡ s ∷ [])
      ⊎ (has_char sep s ≡ true)
        × ((a b : String) × (r : List String) × (split_at sep s ≡ a ∷ b ∷ r))
unfolding split_at has_char onto_first
split_at_cases sep String.[] = inl (refl, refl)
split_at_cases sep (String.◌∷◌ c s) = elim (Bool-cases (eqb (code c) (code sep))) [
  | inl e ↦ elim (split_at_cases sep s) [
    | inl (h, p) ↦ inr (ground arith, ("", s, [], ground arith))
    | inr (h, (a, b, r, p)) ↦ inr (ground arith, ("", a, b ∷ r, ground arith))
  ]
  | inr e ↦ elim (split_at_cases sep s) [
    | inl (h, p) ↦ inl (ground arith, ground arith)
    | inr (h, (a, b, r, p)) ↦ inr (ground arith, (String.◌∷◌ c a, b, r, ground arith))
  ]
]
