-- ===== src/Queue/Writers.antt =====
-- The queue that v2/apiserver/internal/core/kubernetes/substrate.go is given: the writers of
-- v2/apiserver/internal/lib/queue/amqp/queue_writer_factory.go and queue_writer.go.
use brignext.Base.{
  ℕ, zero, suc, ◌≡◌, refl, subst, ◌==◌, String, Bool, false, Option, none, some, List, [], ◌∷◌,
  if◌then◌else◌, inl, inr,
}
use brignext.Errors.{ok}
use brignext.Effect.{M, ◌>>◌}
use brignext.Effect.Results.{bind-ok, attempt-ok, ok-injective}
use brignext.Retries.{manage_retries}
use brignext.Core.Kubernetes.Substrate.{WriterFactory}
use brignext.Core.Kubernetes.Substrate.Carries.{Entry, sent, IsStill, IsQuiet, Carries}
use brignext.Queue.Silence.{bind-IsStill, attempt-IsStill, retry_loop-IsStill}
use brignext.Queue.{
  Amqp, State, QueueWriter, lift, set_client, ignored, close_old, dial_once, connect, session_of,
  open_sender, new_queue_writer, queue_and_group, write, close,
}

module _ {V Client Session Sender : Type 0} (q : Amqp V Client Session Sender) where
  -- The factory, as the substrate sees it.
  unfoldable pub writer_factory : ℕ → Bool → WriterFactory (State q) (QueueWriter Session Sender)
  writer_factory fuel is_azure_service_bus = record {
    new_queue_writer = new_queue_writer q fuel is_azure_service_bus;
    write = λ writer. λ message. lift q (write q writer message);
    close = λ writer. lift q (close q writer);
  }

-- The client of AMQP only does what is seen where it sends; `address` is the queue of a sender.
pub record AddressLaws {V Client Session Sender : Type 0} (q : Amqp V Client Session Sender)
    (log : V → List Entry) (address : Sender → String) : Type 0 where
  pub dial_law : IsStill log q.dial
  pub close_client_law : (client : Client) → IsStill log (q.close_client client)
  pub new_session_law : (client : Client) → IsStill log (q.new_session client)
  pub close_session_law : (session : Session) → IsQuiet log (q.close_session session)
  pub new_sender_law : (session : Session) (name : String) → IsStill log (q.new_sender session name)
  pub address_law :
      (session : Session) (name : String) (v : V) (sender : Sender)
      → (q.new_sender session name v).0 ≡ ok sender
      → address sender ≡ name
  pub send_law :
      (sender : Sender) (group_id : Option String) (message : String)
      → Carries log (q.send sender group_id message) (sent (address sender) message ∷ [])
  pub close_sender_law : (sender : Sender) → IsQuiet log (q.close_sender sender)
  pub wait_law : (n : ℕ) → IsStill log (q.wait n)

module _ {V Client Session Sender : Type 0} (q : Amqp V Client Session Sender)
    (log : V → List Entry) (address : Sender → String) (laws : AddressLaws q log address) where
  -- The log beside the client of the factory.
  abbrev pub seen : State q → List Entry
  seen w = log w.1

  abbrev pub queue_of : QueueWriter Session Sender → String
  queue_of writer = address writer.amqp_sender

  ignored-IsStill : (m : M (State q) (Unit {0})) → IsStill seen m → IsStill seen (ignored q m)
  unfolding ignored
  ignored-IsStill m h = attempt-IsStill seen m _ _ h (λ u. λ w. refl) (λ x. λ w. refl)

  lift-IsStill : {A : Type 0} (m : M V A) → IsStill log m → IsStill seen (lift q m)
  unfolding lift
  lift-IsStill m h (client, v) = h v

  close_old-IsStill : IsStill seen (close_old q)
  unfolding close_old
  close_old-IsStill (none, v) = refl
  close_old-IsStill (some client, v) =
      ignored-IsStill (lift q (q.close_client client))
        (lift-IsStill (q.close_client client) (laws.close_client_law client)) (some client, v)

  dial_once-IsStill : IsStill seen (dial_once q)
  unfolding dial_once set_client
  dial_once-IsStill = bind-IsStill seen (close_old q) _ close_old-IsStill λ u.
      attempt-IsStill seen (lift q q.dial) _ _ (lift-IsStill q.dial laws.dial_law)
        (λ client. λ w. refl) (λ x. λ w. refl)

  connect-IsStill : IsStill seen (connect q)
  unfolding connect manage_retries
  connect-IsStill =
      retry_loop-IsStill seen (dial_once q) (λ n. lift q (q.wait n)) 256 10 0 dial_once-IsStill
        (λ n. lift-IsStill (q.wait n) (laws.wait_law n))

  session_of-IsStill : IsStill seen (session_of q)
  unfolding session_of
  session_of-IsStill (none, v) = refl
  session_of-IsStill (some client, v) =
      lift-IsStill (q.new_session client) (laws.new_session_law client) (some client, v)

  open_sender-IsStill : (fuel : ℕ) (name : String) → IsStill seen (open_sender q fuel name)
  unfolding open_sender
  open_sender-IsStill zero name = λ w. refl
  open_sender-IsStill (suc fuel) name =
      let again =
        bind-IsStill seen (connect q) (λ u. open_sender q fuel name) connect-IsStill
          (λ u. open_sender-IsStill fuel name) in
      attempt-IsStill seen (session_of q) _ _ session_of-IsStill
        (λ session.
          attempt-IsStill seen (lift q (q.new_sender session name)) _ _
            (lift-IsStill (q.new_sender session name) (laws.new_sender_law session name))
            (λ sender. λ w. refl)
            (λ x.
              bind-IsStill seen (ignored q (lift q (q.close_session session))) _
                (ignored-IsStill _ (
                  lift-IsStill (q.close_session session)
                    (λ v. (laws.close_session_law session v).1)))
                (λ u. again)))
        (λ x. again)

  new_queue_writer-IsStill :
      (fuel : ℕ) (is_azure : Bool) (name : String)
      → IsStill seen (new_queue_writer q fuel is_azure name)
  unfolding new_queue_writer
  new_queue_writer-IsStill fuel is_azure name =
      bind-IsStill seen (open_sender q fuel (queue_and_group is_azure name).0) _
        (open_sender-IsStill fuel (queue_and_group is_azure name).0) (λ opened. λ w. refl)

  -- A sender that was opened is one for the queue.
  open_sender-address :
      (fuel : ℕ) (name : String) (w : State q) (opened : Session × Sender)
      → (open_sender q fuel name w).0 ≡ ok opened
      → address opened.1 ≡ name
  unfolding open_sender lift
  open_sender-address zero name w opened h = absurd (cc h)
  open_sender-address (suc fuel) name w opened h =
      let again = λ (w' : State q).
        λ (k : ((connect q >> open_sender q fuel name) w').0 ≡ ok opened).
          let (u, e, k') = bind-ok (connect q) _ w' opened k in
          open_sender-address fuel name (connect q w').1 opened k' in
      let w₁ = (session_of q w).1 in
      elim (attempt-ok (session_of q) _ _ w opened h) [
        | inr (x, e, k) ↦ again w₁ k
        | inl (session, e, k) ↦
            let opening = lift q (q.new_sender session name) in
            elim (attempt-ok opening _ _ w₁ opened k) [
              | inl (sender, e', k') ↦
                  subst (λ (o : Session × Sender). address o.1 ≡ name) (ok-injective k')
                    (laws.address_law session name w₁.1 sender e')
              | inr (x, e', k') ↦
                  let closing = ignored q (lift q (q.close_session session)) in
                  let (u, c, k'') = bind-ok closing _ (opening w₁).1 opened k' in
                  again (closing (opening w₁).1).1 k''
            ]
      ]

  new_queue_writer-queue_of :
      (fuel : ℕ) (name : String) (w : State q) (writer : QueueWriter Session Sender)
      → (new_queue_writer q fuel false name w).0 ≡ ok writer
      → queue_of writer ≡ name
  unfolding new_queue_writer queue_and_group
  new_queue_writer-queue_of fuel name w writer h =
      let (opened, e, k) = bind-ok (open_sender q fuel name) _ w writer h in
      subst (λ (x : QueueWriter Session Sender). queue_of x ≡ name) (ok-injective k)
        (open_sender-address fuel name w opened e)

  write-Carries :
      (writer : QueueWriter Session Sender) (message : String)
      → Carries seen (lift q (write q writer message)) (sent (queue_of writer) message ∷ [])
  unfolding write lift
  write-Carries writer message (client, v) =
      laws.send_law writer.amqp_sender
        (if writer.group_id == "" then none else some writer.group_id) message v

  close-IsQuiet : (writer : QueueWriter Session Sender) → IsQuiet seen (lift q (close q writer))
  unfolding close lift
  close-IsQuiet writer (client, v) =
      let (answer, same) = laws.close_sender_law writer.amqp_sender v in
      let v₁ = (q.close_sender writer.amqp_sender v).1 in
      let (answer', same') = laws.close_session_law writer.amqp_session v₁ in
      elim answer [
        | inr (x, e) ↦ (inr (x, rw e refl), rw (e, same))
        | inl (u, e) ↦ elim answer' [
          | inr (x, e') ↦ (inr (x, rw (e, e')), rw (e, same', same))
          | inl (u', e') ↦ (inl (u', rw (e, e')), rw (e, same', same))
        ]
      ]

  -- The writers of the program are what the substrate asks of its queue, where queues have no
  -- groups: opening one, whatever becomes of it, sends nothing; one that is opened is for the queue
  -- that was named; writing sends the message there, or fails; and closing sends nothing.
  pub writer_factory_lem :
      (fuel : ℕ)
      → let factory = writer_factory q fuel false in
        ((name : String) → IsStill seen (factory.new_queue_writer name))
        × ((name : String) (w : State q) (writer : QueueWriter Session Sender)
            → (factory.new_queue_writer name w).0 ≡ ok writer
            → queue_of writer ≡ name)
        × ((writer : QueueWriter Session Sender) (message : String)
            → Carries seen (factory.write writer message) (sent (queue_of writer) message ∷ []))
        × ((writer : QueueWriter Session Sender) → IsQuiet seen (factory.close writer))
  unfolding writer_factory
  writer_factory_lem fuel = (
    new_queue_writer-IsStill fuel false,
    new_queue_writer-queue_of fuel,
    write-Carries,
    close-IsQuiet,
  )
