-- ===== src/Base/Texts.antt =====
-- The order of texts, as Go and the database compare them: byte by byte.
use Prim.Native.Nat.{ℕ, Ordering, compare as compare_ℕ}
use Prim.Native.Char.{Char, code}
use Prim.Native.String.{String, compare, then as then_compare}
use Prim.Native.String.compare as Law
use mathlib.Core.Path.{◌≡◌, refl}
use mathlib.Core.Logic.{◌⊎◌, inl, inr}
use mathlib.Core.Bool.{Bool, true, false}
use native.Mathlib.Omega.{arith}
use text.Mathlib.TextEquality.{codes_equal}

abbrev pub less : String → String → Bool
less j k = elim (compare j k) [ Ordering.lt ↦ true | _ ↦ false ]

pub less-nil : (s : String) → less s "" ≡ false
less-nil String.[] = refl
less-nil (String.◌∷◌ c s) = λ i. elim (Law.cons-nil c s i) [ Ordering.lt ↦ true | _ ↦ false ]

nil-less : (c : Char) (s : String) → less "" (String.◌∷◌ c s) ≡ true
nil-less c s = λ i. elim (Law.nil-cons c s i) [ Ordering.lt ↦ true | _ ↦ false ]

abbrev is_lt : Ordering → Bool
is_lt Ordering.lt = true
is_lt _ = false

less-cons :
    (c d : Char) (s t : String)
    → less (String.◌∷◌ c s) (String.◌∷◌ d t)
      ≡ is_lt (then_compare (compare_ℕ (code c) (code d)) (compare s t))
less-cons c d s t = λ i. elim (Law.cons-cons c d s t i) [ Ordering.lt ↦ true | _ ↦ false ]

pub less_asymm : (s t : String) → less s t ≡ true → less t s ≡ false
less_asymm String.[] String.[] h = refl
less_asymm String.[] (String.◌∷◌ d t) h = less-nil (String.◌∷◌ d t)
less_asymm (String.◌∷◌ c s) String.[] h = absurd (cc (less-nil (String.◌∷◌ c s), h))
less_asymm (String.◌∷◌ c s) (String.◌∷◌ d t) h =
    ground (arith, less_asymm s t, less-cons c d s t, less-cons d c t s)

pub less_trans : (s t u : String) → less s t ≡ true → less t u ≡ true → less s u ≡ true
less_trans s t String.[] h k = absurd (cc (less-nil t, k))
less_trans s String.[] (String.◌∷◌ e u) h k = absurd (cc (less-nil s, h))
less_trans String.[] (String.◌∷◌ d t) (String.◌∷◌ e u) h k = nil-less e u
less_trans (String.◌∷◌ c s) (String.◌∷◌ d t) (String.◌∷◌ e u) h k =
    ground (arith, less_trans s t u, less-cons c d s t, less-cons d e t u, less-cons c e s u)

compare-cases :
    (m n : ℕ)
    → (compare_ℕ m n ≡ Ordering.lt) ⊎ (compare_ℕ m n ≡ Ordering.eq) ⊎ (compare_ℕ m n ≡ Ordering.gt)
compare-cases m n =
    elim (compare_ℕ m n) as (λ o. (o ≡ Ordering.lt) ⊎ (o ≡ Ordering.eq) ⊎ (o ≡ Ordering.gt)) [
      | Ordering.lt ↦ inl refl
      | Ordering.eq ↦ inr (inl refl)
      | Ordering.gt ↦ inr (inr refl)
    ]

-- Two texts that are in neither order are the same.
pub less_total : (s t : String) → less s t ≡ false → (s ≡ t) ⊎ (less t s ≡ true)
less_total String.[] String.[] h = inl refl
less_total String.[] (String.◌∷◌ d t) h = absurd (cc (nil-less d t, h))
less_total (String.◌∷◌ c s) String.[] h = inr (nil-less c s)
less_total (String.◌∷◌ c s) (String.◌∷◌ d t) h = elim (compare-cases (code c) (code d)) [
  | inl e ↦ absurd (cc (rw (less-cons c d s t, e) at h))
  | inr (inr e) ↦ inr (ground (arith, less-cons d c t s))
  | inr (inl e) ↦
      let same : c ≡ d = codes_equal c d e in
      elim (less_total s t (rw (less-cons c d s t, e) at h)) [
        | inl p ↦ inl (cc (same, p))
        | inr y ↦ inr (ground (arith, less-cons d c t s))
      ]
]
