-- ===== src/Core/Mongo/ProjectsStore/Subscribers.antt =====
-- The projects that `ListSubscribers` of v2/apiserver/internal/core/mongodb/projects_store.go lists.
use mathlib.Core.Path.{fun_ext}
use mathlib.Core.List.{Perm}
use mathlib.Core.List.Perm
use brignext.Base.{
  ◌≡◌, refl, String, Bool, true, ◌&&◌, ◌⊎◌, inl, inr, ◌↔◌, none, some, List, [], ◌∷◌, map, any,
  select, arith, Bool-cases, ◌==◌, eq_iff,
}
use brignext.Errors.{ok}
use brignext.Effect.Results.{ok-injective}
use brignext.Mongo.{Collection, Laws, FindOptions, id_asc}
use brignext.Core.Types.{Event, Project, ProjectList, EventSubscription, Labels}
use brignext.Core.Mongo.EventDocs.{EventDoc, EventFilter, EventUpdate}
use brignext.Core.Mongo.EventsStore.{Clock}
use brignext.Core.Mongo.ProjectDocs.{
  ProjectDoc, ProjectFilter, ProjectUpdate, project_semantics, project_matches, no_project_criteria,
  subscription_matches, has_member, has_label, has_all_labels, has_label_conditions,
}
use brignext.Core.Mongo.ProjectsStore.{list_subscribers, whole_projects, subscription_criteria}

abbrev pub IsAmong : {A : Type 0} → A → List A → Type 0
IsAmong x [] = ⊥
IsAmong x (y ∷ ys) = (x ≡ y) ⊎ IsAmong x ys

-- Every label of the event is one of the subscription's.
abbrev pub AreAmong : Labels → Labels → Type 0
AreAmong labels labels' = (l : String × String) → IsAmong l labels → IsAmong l labels'

-- The project has a subscription to the source of the event and to its type, or to all types, which
-- names every label of the event.
abbrev pub IsSubscribed : Event → Project → Type 0
IsSubscribed event p =
    (s : EventSubscription) × IsAmong s p.spec.event_subscriptions
    × (s.source ≡ event.source)
    × (IsAmong event.type_ s.types ⊎ IsAmong "*" s.types)
    × AreAmong event.labels s.labels

module _ {A : Type 0} (p : A → Bool) where
  any-IsAmong : (l : List A) → any p l ≡ true → (x : A) × IsAmong x l × (p x ≡ true)
  unfolding any
  any-IsAmong [] h = absurd (cc h)
  any-IsAmong (x ∷ xs) h = elim (Bool-cases (p x)) [
    | inl y ↦ (x, inl refl, y)
    | inr n ↦ let (z, i, y) = any-IsAmong xs (rw n at h) in (z, inr i, y)
  ]

  IsAmong-any : (x : A) (l : List A) → IsAmong x l → p x ≡ true → any p l ≡ true
  unfolding any
  IsAmong-any x [] i y = absurd i
  IsAmong-any x (z ∷ zs) (inl e) y = rw (← e, y) refl
  IsAmong-any x (z ∷ zs) (inr i) y = rw (IsAmong-any x zs i y) (ground arith)

is_this_label : String × String → String × String → Bool
is_this_label (key, value) l = l.0 == key && l.1 == value

same_label : (x l : String × String) → is_this_label x l ≡ true → x ≡ l
unfolding is_this_label
same_label (key, value) (k, v) h =
    rw ((eq_iff k key).0 (ground arith), (eq_iff v value).0 (ground arith)) refl

has_label-IsAmong :
    (labels : Labels) (l : String × String) → (has_label labels l ≡ true) ↔ IsAmong l labels
unfolding has_label is_this_label
has_label-IsAmong labels (key, value) = (
  λ h.
      let (l, i, y) = any-IsAmong (is_this_label (key, value)) labels h in
      rw (same_label (key, value) l y) i,
  λ i.
      IsAmong-any (is_this_label (key, value)) (key, value) labels i
        (rw ((eq_iff key key).1 refl, (eq_iff value value).1 refl) refl),
)

all_labels : (asked labels : Labels) → (has_all_labels asked labels ≡ true) ↔ AreAmong asked labels
unfolding has_all_labels
all_labels [] labels = (λ h. λ l. λ i. absurd i, λ h. refl)
all_labels (x ∷ xs) labels = (
  λ h. λ l. λ i. elim i [
    | inl e ↦ rw e ((has_label-IsAmong labels x).0 (ground arith))
    | inr j ↦ (all_labels xs labels).0 (ground arith) l j
  ],
  λ h.
      let first = (has_label-IsAmong labels x).1 (h x (inl refl)) in
      let others = (all_labels xs labels).1 (λ l. λ i. h l (inr i)) in rw (first, others) refl,
)

-- The condition on the labels of the event, of which there may be none.
conditions :
    (event : Event) (labels : Labels)
    → has_label_conditions (subscription_criteria event).labels labels
      ≡ has_all_labels event.labels labels
unfolding has_label_conditions has_all_labels subscription_criteria
conditions event labels =
    elim event.labels
      as (λ asked.
        has_label_conditions (elim asked [ [] ↦ none | l ∷ ls ↦ some (l ∷ ls) ]) labels
        ≡ has_all_labels asked labels) [ [] ↦ refl | l ∷ ls ↦ refl ]

type_is : (a t : String) → has_member (a ∷ "*" ∷ []) t ≡ true → (a ≡ t) ⊎ ("*" ≡ t)
unfolding has_member any
type_is a t h = elim (Bool-cases (a == t)) [
  | inl y ↦ inl ((eq_iff a t).0 y)
  | inr n ↦ inr ((eq_iff "*" t).0 (ground arith))
]

is_member : (a t : String) → (a ≡ t) ⊎ ("*" ≡ t) → has_member (a ∷ "*" ∷ []) t ≡ true
unfolding has_member any
is_member a t (inl e) = rw ((eq_iff a t).1 e) refl
is_member a t (inr e) = rw ((eq_iff "*" t).1 e) (ground arith)

types_match :
    (a : String) (types : List String)
    → (any (has_member (a ∷ "*" ∷ [])) types ≡ true) ↔ (IsAmong a types ⊎ IsAmong "*" types)
types_match a types = (
  λ h.
      let (t, i, y) = any-IsAmong (has_member (a ∷ "*" ∷ [])) types h in
      elim (type_is a t y) [ inl e ↦ inl (rw e i) | inr e ↦ inr (rw e i) ],
  λ i. elim i [
    | inl j ↦ IsAmong-any (has_member (a ∷ "*" ∷ [])) a types j (is_member a a (inl refl))
    | inr j ↦ IsAmong-any (has_member (a ∷ "*" ∷ [])) "*" types j (is_member a "*" (inr refl))
  ],
)

-- What the criteria ask of one subscription.
abbrev IsSuited : Event → EventSubscription → Type 0
IsSuited event s =
    (s.source ≡ event.source)
    × (IsAmong event.type_ s.types ⊎ IsAmong "*" s.types)
    × AreAmong event.labels s.labels

suited :
    (event : Event) (s : EventSubscription)
    → (subscription_matches (subscription_criteria event) s ≡ true) ↔ IsSuited event s
unfolding subscription_matches subscription_criteria
suited event s = (
  λ h. (
    (eq_iff s.source event.source).0 (ground arith),
    (types_match event.type_ s.types).0 (ground arith),
    (all_labels event.labels s.labels).0 (rw (← conditions event s.labels) (ground arith)),
  ),
  λ (e, t, l).
      rw
        (
          (eq_iff s.source event.source).1 e,
          (types_match event.type_ s.types).1 t,
          conditions event s.labels,
          (all_labels event.labels s.labels).1 l,
        )
        refl,
)

abbrev is_subscribed : Event → Project → Bool
is_subscribed event p =
    any (subscription_matches (subscription_criteria event)) p.spec.event_subscriptions

is_subscribed-IsSubscribed :
    (event : Event) (p : Project) → (is_subscribed event p ≡ true) ↔ IsSubscribed event p
is_subscribed-IsSubscribed event p =
    let test = subscription_matches (subscription_criteria event) in
    (
      λ h.
          let (s, i, y) = any-IsAmong test p.spec.event_subscriptions h in
          let (e, t, l) = (suited event s).0 y in (s, i, e, t, l),
      λ (s, i, e, t, l).
          IsAmong-any test s p.spec.event_subscriptions i ((suited event s).1 (e, t, l)),
    )

map-select :
    {A B : Type 0} (f : A → B) (p : B → Bool) (l : List A)
    → map f (select (λ a. p (f a)) l) ≡ select p (map f l)
unfolding select
map-select f p [] = refl
map-select f p (x ∷ xs) = ground (arith, map-select f p xs)

module _ {W : Type 0} (collection : Collection W ProjectDoc ProjectFilter ProjectUpdate)
    (events_collection : Collection W EventDoc EventFilter EventUpdate) (clock : Clock W)
    (docs : W → List ProjectDoc) (laws : Laws collection docs project_semantics) where
  -- The projects that the database holds.
  abbrev pub projects_in : W → List Project
  projects_in w = map (λ (d : ProjectDoc). d.project) (docs w)

  -- Where `ListSubscribers` succeeds, it has listed the projects of the database that are subscribed
  -- to the event, each as often as it is there, and nothing is changed. A project is subscribed to
  -- an event if a subscription of it names the source of the event, its type or all types, and
  -- every label of the event.
  pub list_subscribers_lem :
      (event : Event) (w : W) (l : ProjectList)
      → (list_subscribers collection events_collection clock event w).0 ≡ ok l
      → (docs (list_subscribers collection events_collection clock event w).1 ≡ docs w)
        × ((test : Project → Bool) × ((p : Project) → (test p ≡ true) ↔ IsSubscribed event p)
            × Perm l.items (select test (projects_in w)))
  unfolding list_subscribers
  list_subscribers_lem event w l h =
      let f = record no_project_criteria { subscription = some (subscription_criteria event) } in
      let o : FindOptions = record { sort = id_asc; limit = 0 } in
      let matching : project_matches f ≡ (λ d. is_subscribed event d.project) =
        fun_ext (unfold project_matches in λ d. refl) in
      elim (laws.find_law f o w) [
        | inr (s, a, b) ↦ absurd (cc (rw a at h))
        | inl (found, p, ordered, (a, b)) ↦
            let listed : whole_projects (map (λ (d : ProjectDoc). d.project) found) ≡ l =
              ok-injective (rw a at h) in
            let there =
              rw
                (
                  matching,
                  map-select (λ (d : ProjectDoc). d.project) (is_subscribed event) (docs w),
                )
                at (Perm.map (λ (d : ProjectDoc). d.project) p) in
            (
              rw (a, b) refl,
              (is_subscribed event, is_subscribed-IsSubscribed event, rw (← listed) there),
            )
      ]
