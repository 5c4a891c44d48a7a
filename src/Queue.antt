-- ===== src/Queue.antt =====
-- v2/apiserver/internal/lib/queue/amqp/queue_writer_factory.go and queue_writer.go: writers to the
-- queues. The client of AMQP (github.com/Azure/go-amqp) is a parameter. A call holds the mutex of
-- the factory from its first to its last step, so that calls do not overlap.
pub mod Names
pub mod Reconnects
pub mod Silence
pub mod Writers
use brignext.Base.{
  ℕ, zero, suc, String, Bool, true, false, Option, none, some, List, [], ◌∷◌, eqb, ◌==◌,
  if◌then◌else◌, split_at,
}
use brignext.Errors.{Error, Outcome}
use brignext.Effect.{M, pure, crash, diverge, attempt, ◌>>=◌, ◌>>◌}
use brignext.Retries.{Attempt, manage_retries}

-- The parameters: `dial` opens a connection to the address of the factory, and `wait` is the delay
-- between attempts.
pub record Amqp (V Client Session Sender : Type 0) : Type 0 where
  pub dial : M V Client
  pub close_client : Client → M V (Unit {0})
  pub new_session : Client → M V Session
  pub close_session : Session → M V (Unit {0})
  pub new_sender : Session → String → M V Sender
  -- the group identifier, where there is one, and the message
  pub send : Sender → Option String → String → M V (Unit {0})
  pub close_sender : Sender → M V (Unit {0})
  pub wait : ℕ → M V (Option Error)

pub record QueueWriter (Session Sender : Type 0) : Type 0 where
  pub queue_name : String
  pub group_id : String
  pub amqp_session : Session
  pub amqp_sender : Sender

-- The base name and the group, of a name with two parts.
name_and_group : String → List String → String × String
name_and_group name (base ∷ group ∷ []) = (base, group)
name_and_group name _ = (name, "")

-- The queue and the group identifier, on Azure Service Bus or elsewhere.
unfoldable pub queue_and_group : Bool → String → String × String
unfolding name_and_group
queue_and_group true name = name_and_group name (split_at "." name)
queue_and_group false name = (name, "")

module _ {V Client Session Sender : Type 0} (q : Amqp V Client Session Sender) where
  -- The factory's field `amqpClient`, nil or not, beside the rest of the world.
  abbrev pub State : Type 0
  State = Option Client × V

  -- A call that does not touch the field.
  unfoldable pub lift : {A : Type 0} → M V A → M State A
  lift m (client, v) = ((m v).0, (client, (m v).1))

  unfoldable pub set_client : Option Client → M State (Unit {0})
  set_client client = λ w. (Outcome.ok tt, (client, w.1))

  unfoldable pub ignored : M State (Unit {0}) → M State (Unit {0})
  ignored m = attempt m pure (λ _. pure tt)

  -- `if q.amqpClient != nil { q.amqpClient.Close() }`
  unfoldable pub close_old : M State (Unit {0})
  unfolding ignored lift
  close_old (none, v) = pure tt (none, v)
  close_old (some client, v) = ignored (lift (q.close_client client)) (some client, v)

  -- The function under retry.
  unfoldable pub dial_once : M State Attempt
  unfolding close_old lift set_client
  dial_once = do
    close_old
    attempt (lift q.dial)
        (λ client. set_client (some client) >> pure (record { retry = false; error = none }))
        (λ e. set_client none >> pure (record { retry = true; error = some e }))

  unfoldable pub connect : M State (Unit {0})
  unfolding lift
  connect = manage_retries dial_once (λ n. lift (q.wait n)) 10

  -- A new factory has no client before it connects.
  unfoldable pub new_queue_writer_factory : V → Outcome (Unit {0}) × State
  new_queue_writer_factory v = connect (none, v)

  -- `q.amqpClient.NewSession()`, of nil a nil dereference.
  unfoldable pub session_of : M State Session
  unfolding lift
  session_of (none, v) = crash (none, v)
  session_of (some client, v) = lift (q.new_session client) (some client, v)

  -- The loop, on fuel: it goes on as long as connecting succeeds and opening does not.
  unfoldable pub open_sender : ℕ → String → M State (Session × Sender)
  unfolding session_of lift ignored
  open_sender zero queue_name = diverge
  open_sender (suc fuel) queue_name =
      let again = open_sender fuel queue_name in
      attempt session_of
        (λ session.
          attempt (lift (q.new_sender session queue_name)) (λ sender. pure (session, sender))
            (λ _. ignored (lift (q.close_session session)) >> (connect >> again)))
        (λ _. connect >> again)

  unfoldable pub new_queue_writer : ℕ → Bool → String → M State (QueueWriter Session Sender)
  new_queue_writer fuel is_azure_service_bus name = do
    let (queue_name, group_id) = queue_and_group is_azure_service_bus name
    opened ← open_sender fuel queue_name
    pure (record {
      queue_name = queue_name;
      group_id = group_id;
      amqp_session = opened.0;
      amqp_sender = opened.1;
    })

  -- `Close` of the factory: like `NewSession`, of nil a nil dereference.
  unfoldable pub close_factory : M State (Unit {0})
  unfolding lift
  close_factory (none, v) = crash (none, v)
  close_factory (some client, v) = lift (q.close_client client) (some client, v)

  -- `Write` and `Close` of a writer.
  unfoldable pub write : QueueWriter Session Sender → String → M V (Unit {0})
  write writer message =
      q.send writer.amqp_sender (if writer.group_id == "" then none else some writer.group_id)
        message

  unfoldable pub close : QueueWriter Session Sender → M V (Unit {0})
  close writer = do q.close_sender writer.amqp_sender; q.close_session writer.amqp_session
