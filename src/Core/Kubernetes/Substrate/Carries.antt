-- ===== src/Core/Kubernetes/Substrate/Carries.antt =====
-- What the calls that are made by v2/apiserver/internal/core/kubernetes/substrate.go do, the calls
-- of the cluster and the messages to the queue, and how such calls follow one another.
use mathlib.Core.List.{append_assoc, append-nil}
use brignext.Base.{◌≡◌, refl, String, ◌⊎◌, inl, inr, some, List, [], ◌∷◌, ◌++◌}
use brignext.Errors.{Error, ok, err}
use brignext.Effect.{M, pure, ◌>>=◌, ◌>>◌}
use brignext.Effect.Results.{IsUnfinished, bind-IsUnfinished}
use brignext.Core.Types.{Project, KubernetesConfig}
use brignext.Core.Kubernetes.Objects.{Request}
use brignext.Core.Kubernetes.Substrate.{SubstrateConfig, namespace_of}

-- What has been done: calls of the cluster, and messages by their queue.
pub data Entry : Type 0 where
  requested : Request → Entry
  sent : String → String → Entry

module _ {W : Type 0} (log : W → List Entry) where
  -- A call that does nothing that is seen, whatever its outcome.
  abbrev pub IsStill : {A : Type 0} → M W A → Type 0
  IsStill m = (w : W) → log (m w).1 ≡ log w

  -- A call that reads: it answers or fails, and nothing is done.
  abbrev pub IsQuiet : {A : Type 0} → M W A → Type 0
  IsQuiet {A} m =
      (w : W)
      → (((a : A) × ((m w).0 ≡ ok a)) ⊎ ((x : Error) × ((m w).0 ≡ err x))) × (log (m w).1 ≡ log w)

  -- The call succeeds with the entries `es` done, in this order, or it does not succeed, and the
  -- first of them are done, `es` being these and those left.
  abbrev pub CarriesAt : M W (Unit {0}) → W → List Entry → Type 0
  CarriesAt m w es =
      ((m w).0 ≡ ok tt) × (log (m w).1 ≡ log w ++ es)
      ⊎ ((done left : List Entry) × IsUnfinished (m w).0
          × (es ≡ done ++ left)
          × (log (m w).1 ≡ log w ++ done))

  abbrev pub Carries : M W (Unit {0}) → List Entry → Type 0
  Carries m es = (w : W) → CarriesAt m w es

-- The client of the cluster answers or fails, and what fails may have been done. A writer of the
-- queue may be opened, or refused, or its opening may panic or go on for ever.
pub record SubstrateLaws {W Writer : Type 0} (s : SubstrateConfig W Writer) (log : W → List Entry)
    (queue_of : Writer → String) : Type 0 where
  pub request_law : (r : Request) → Carries log (s.kube_client.request r) (requested r ∷ [])
  pub get_secret_data_law :
      (namespace name : String) → IsQuiet log (s.kube_client.get_secret_data namespace name)
  pub parse_quantity_law : (size : String) → IsQuiet log (s.kube_client.parse_quantity size)
  pub new_queue_writer_law :
      (name : String) → IsStill log (s.queue_writer_factory.new_queue_writer name)
  pub queue_law :
      (name : String) (w : W) (writer : Writer)
      → (s.queue_writer_factory.new_queue_writer name w).0 ≡ ok writer
      → queue_of writer ≡ name
  pub write_law :
      (writer : Writer) (message : String)
      → Carries log
          (s.queue_writer_factory.write writer message)
          (sent (queue_of writer) message ∷ [])
  pub close_law : (writer : Writer) → IsQuiet log (s.queue_writer_factory.close writer)

module _ {W : Type 0} (log : W → List Entry) where
  pub pure-Carries : Carries log (pure tt) []
  pure-Carries w = inl (refl, rw (append-nil (log w)))

  pub then-CarriesAt :
      (m n : M W (Unit {0})) (w : W) (es fs : List Entry)
      → CarriesAt log m w es
      → Carries log n fs
      → CarriesAt log (m >> n) w (es ++ fs)
  then-CarriesAt m n w es fs hm hn = elim hm [
    | inr (done, left, e, split, l) ↦
        let (failed, same) = bind-IsUnfinished m (λ u. n) w e in
        inr (done, left ++ fs, failed, rw (split, append_assoc done left fs), rw (same, l))
    | inl (e, l) ↦ elim (hn (m w).1) [
      | inl (e', l') ↦ inl (rw (e, e'), rw (e, l', l, append_assoc (log w) es fs))
      | inr (done, left, e', split, l') ↦ inr (
        es ++ done,
        left,
        rw e e',
        rw (split, append_assoc es done left),
        rw (e, l', l, append_assoc (log w) es done),
      )
    ]
  ]

  pub then-Carries :
      (m n : M W (Unit {0})) (es fs : List Entry)
      → Carries log m es
      → Carries log n fs
      → Carries log (m >> n) (es ++ fs)
  then-Carries m n es fs hm hn w = then-CarriesAt m n w es fs (hm w) hn

  -- What follows a reading that answered.
  pub after_read :
      {A : Type 0} (m : M W A) (f : A → M W (Unit {0})) (w : W) (a : A) (es : List Entry)
      → (m w).0 ≡ ok a
      → log (m w).1 ≡ log w
      → CarriesAt log (f a) (m w).1 es
      → CarriesAt log (m >>= f) w es
  after_read m f w a es e l h = rw (e, ← l) h

  pub failed_read :
      {A : Type 0} (m : M W A) (f : A → M W (Unit {0})) (w : W) (es : List Entry)
      → IsUnfinished (m w).0
      → log (m w).1 ≡ log w
      → CarriesAt log (m >>= f) w es
  failed_read m f w es e l =
      let (failed, same) = bind-IsUnfinished m f w e in
      inr ([], es, failed, refl, rw (same, l, append-nil (log w)))

-- A project with a namespace.
pub namespace_known :
    {W : Type 0} (project : Project) (k : KubernetesConfig) (w : W)
    → project.kubernetes ≡ some k
    → namespace_of project w ≡ (ok k.namespace, w)
unfolding namespace_of
namespace_known project k w h = rw h
