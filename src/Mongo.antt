-- ===== src/Mongo.antt =====
-- The MongoDB driver (go.mongodb.org/mongo-driver), which is not part of the repository: a
-- collection is a parameter of the stores, and what the stores rely on is a record of laws.
-- `D` are the documents, `F` the filters that a store builds, `U` its updates.
use brignext.Base.{
  ℕ, zero, ◌≡◌, ◌⊎◌, String, Bool, ◌&&◌, Option, List, length, take, select, find_first, any,
  update_all, update_first, remove_first, remove_all, ◌++◌, ◌∷◌, [], if◌then◌else◌,
}
use brignext.Errors.{other, write_exception, ok, err}
use brignext.Effect.{M}
use mathlib.Core.List.{Perm}

pub data Sort : Type 0 where
  created_desc id_asc : Sort

-- A limit of 0 is no limit.
pub record FindOptions : Type 0 where
  pub sort : Sort
  pub limit : ℕ

pub record Collection (W D F U : Type 0) : Type 0 where
  pub insert_one : D → M W (Unit {0})
  -- `none` is `mongo.ErrNoDocuments`
  pub find_one : F → M W (Option D)
  pub find : F → FindOptions → M W (List D)
  -- the matched count
  pub update_one : F → U → M W ℕ
  pub update_many : F → U → M W (Unit {0})
  -- the deleted count
  pub delete_one : F → M W ℕ
  pub delete_many : F → M W (Unit {0})
  pub count_documents : F → M W ℕ

-- Which documents a filter selects, what an update makes of a document, and how results are
-- ordered.
pub record Semantics (D F U : Type 0) : Type 1 where
  pub id_of : D → String
  pub matches : F → D → Bool
  pub apply : U → D → D
  pub IsOrdered : Sort → List D → Type 0

module _ {W A : Type 0} {D : Type 0} (docs : W → List D) where
  -- The call answers `a`, and the collection is `ds` afterwards.
  abbrev pub Answers : M W A → W → A → List D → Type 0
  Answers m w a ds = ((m w).0 ≡ ok a) × (docs (m w).1 ≡ ds)

  -- The call fails, and the collection is one of those that `Left` admits.
  abbrev pub Fails : M W A → W → (List D → Type 0) → Type 0
  Fails m w Left = (s : String) × ((m w).0 ≡ err (other s)) × Left (docs (m w).1)

abbrev pub apply_limit {ℓ} : {A : Type ℓ} → ℕ → List A → List A
apply_limit zero l = l
apply_limit n l = take n l

-- The documented behaviour of the driver. An operation on one document takes effect or does not,
-- also when the call fails; a bulk operation that fails may have reached some of the documents.
pub record Laws {W D F U : Type 0} (c : Collection W D F U) (docs : W → List D)
    (s : Semantics D F U) : Type 0 where
  pub insert_one_law :
      (d : D) (w : W)
      → Answers docs (c.insert_one d) w tt (docs w ++ d ∷ [])
        ⊎ Fails docs (c.insert_one d) w (λ ds. (ds ≡ docs w) ⊎ (ds ≡ docs w ++ d ∷ []))
        ⊎ ((codes : List ℕ) × ((c.insert_one d w).0 ≡ err (write_exception codes))
            × (docs (c.insert_one d w).1 ≡ docs w))
  pub find_one_law :
      (f : F) (w : W)
      → Answers docs (c.find_one f) w (find_first (s.matches f) (docs w)) (docs w)
        ⊎ Fails docs (c.find_one f) w (λ ds. ds ≡ docs w)
  pub find_law :
      (f : F) (o : FindOptions) (w : W)
      → ((l : List D) × Perm l (select (s.matches f) (docs w))
          × s.IsOrdered o.sort l
          × Answers docs (c.find f o) w (apply_limit o.limit l) (docs w))
        ⊎ Fails docs (c.find f o) w (λ ds. ds ≡ docs w)
  pub update_one_law :
      (f : F) (u : U) (w : W)
      → Answers docs
          (c.update_one f u)
          w
          (if any (s.matches f) (docs w) then 1 else 0)
          (update_first (s.matches f) (s.apply u) (docs w))
        ⊎ Fails docs
            (c.update_one f u)
            w
            (λ ds. (ds ≡ docs w) ⊎ (ds ≡ update_first (s.matches f) (s.apply u) (docs w)))
  pub update_many_law :
      (f : F) (u : U) (w : W)
      → Answers docs (c.update_many f u) w tt (update_all (s.matches f) (s.apply u) (docs w))
        ⊎ Fails docs (c.update_many f u) w (λ ds.
          (reached : D → Bool) × (ds
            ≡ update_all (λ d. s.matches f d && reached d) (s.apply u) (docs w)))
  pub delete_one_law :
      (f : F) (w : W)
      → Answers docs
          (c.delete_one f)
          w
          (if any (s.matches f) (docs w) then 1 else 0)
          (remove_first (s.matches f) (docs w))
        ⊎ Fails docs
            (c.delete_one f)
            w
            (λ ds. (ds ≡ docs w) ⊎ (ds ≡ remove_first (s.matches f) (docs w)))
  pub delete_many_law :
      (f : F) (w : W)
      → Answers docs (c.delete_many f) w tt (remove_all (s.matches f) (docs w))
        ⊎ Fails docs (c.delete_many f) w (λ ds.
          (reached : D → Bool) × (ds ≡ remove_all (λ d. s.matches f d && reached d) (docs w)))
  pub count_documents_law :
      (f : F) (w : W)
      → Answers docs (c.count_documents f) w (length (select (s.matches f) (docs w))) (docs w)
        ⊎ Fails docs (c.count_documents f) w (λ ds. ds ≡ docs w)
