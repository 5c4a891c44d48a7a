-- ===== src/Base/Maps.antt =====
-- Go's `map[string]T` as an association list and `map[string]struct{}` as a list of keys.
-- No modelled code depends on the order of a map's entries.
use Prim.Native.String.{String}
use mathlib.Core.Path.{◌≡◌, refl}
use mathlib.Core.Bool.{Bool, false, ◌||◌}
use mathlib.Core.Option.{Option, none, some}
use mathlib.Core.List.{List, [], ◌∷◌}
use native.Mathlib.Omega.{arith}
use text.Mathlib.Text.{◌==◌}
use text.Mathlib.TextEquality.{eq_iff}
use brignext.Base.Tests.{if◌then◌else◌}

module _ {ℓ} {V : Type ℓ} where
  -- v, ok := m[key]
  unfoldable pub lookup : String → List (String × V) → Option V
  lookup key [] = none
  lookup key ((entry, value) ∷ rest) = if entry == key then some value else lookup key rest

  -- m[key] = v
  unfoldable pub insert : String → V → List (String × V) → List (String × V)
  insert key v [] = (key, v) ∷ []
  insert key v ((entry, value) ∷ rest) =
      let inserted = insert key v rest in
      if entry == key then (entry, v) ∷ rest else (entry, value) ∷ inserted

  -- Reading any key after a write.
  pub lookup-insert :
      (key other : String) (v : V) (entries : List (String × V))
      → lookup other (insert key v entries)
        ≡ (if key == other then some v else lookup other entries)
  unfolding lookup insert
  lookup-insert key other v [] = refl
  lookup-insert key other v ((entry, value) ∷ rest) = ground (
    lookup-insert key other v rest,
    arith,
    eq_iff entry other,
    eq_iff key other,
    eq_iff entry key,
  )

  -- delete(m, key)
  unfoldable pub delete_entry : String → List (String × V) → List (String × V)
  delete_entry key [] = []
  delete_entry key ((entry, value) ∷ rest) =
      let deleted = delete_entry key rest in
      if entry == key then deleted else (entry, value) ∷ deleted

  pub lookup-delete_entry :
      (key other : String) (entries : List (String × V))
      → lookup other (delete_entry key entries)
        ≡ (if key == other then none else lookup other entries)
  unfolding lookup delete_entry
  lookup-delete_entry key other [] = ground arith
  lookup-delete_entry key other ((entry, value) ∷ rest) = ground (
    lookup-delete_entry key other rest,
    arith,
    eq_iff entry other,
    eq_iff key other,
    eq_iff entry key,
  )

-- _, ok := s[k]
unfoldable pub contains : String → List String → Bool
contains k [] = false
contains k (j ∷ s) = j == k || contains k s

-- s[k] = struct{}{}
unfoldable pub add : String → List String → List String
add k s = if contains k s then s else k ∷ s

-- delete(s, k)
unfoldable pub delete : String → List String → List String
delete k [] = []
delete k (j ∷ s) = let rest = delete k s in if j == k then rest else j ∷ rest

pub contains-add :
    (k j : String) (s : List String) → contains j (add k s) ≡ (k == j || contains j s)
unfolding contains add
contains-add k j s = ground (arith, eq_iff k j)

pub contains-delete :
    (k j : String) (s : List String)
    → contains j (delete k s) ≡ (if k == j then false else contains j s)
unfolding contains delete
contains-delete k j [] = ground arith
contains-delete k j (i ∷ s) =
    ground (arith, contains-delete k j s, eq_iff i k, eq_iff i j, eq_iff k j)

-- No key is held twice, so the length of the list is `len` of the map.
abbrev pub IsKeySet : List String → Type 0
IsKeySet [] = Unit
IsKeySet (k ∷ s) = (contains k s ≡ false) × IsKeySet s

pub add-IsKeySet : (k : String) (s : List String) → IsKeySet s → IsKeySet (add k s)
unfolding add
add-IsKeySet k s h = ground arith

pub delete-IsKeySet : (k : String) (s : List String) → IsKeySet s → IsKeySet (delete k s)
unfolding delete
delete-IsKeySet k [] h = h
delete-IsKeySet k (j ∷ s) h =
    ground (arith, delete-IsKeySet k s h.1, contains-delete k j s, eq_iff j k)
