-- ===== src/Tests/Broker.antt =====
-- A server of AMQP that is always there, and the queue of the program over it.
use brignext.Base.{◌≡◌, refl, ◌++◌, ℕ, String, none, inl, List, [], ◌∷◌}
use brignext.Errors.{ok}
use brignext.Effect.{pure}
use brignext.Queue.{Amqp}
use brignext.Queue.Writers.{AddressLaws}
use brignext.Core.Kubernetes.Substrate.Carries.{Entry, sent}

module _ {V : Type 0} (deliver : String → String → V → V) where
  -- Clients and sessions are numbers, and a sender is the name of its queue.
  abbrev pub broker : Amqp V ℕ ℕ String
  broker = record {
    dial = pure 1;
    close_client = λ c. pure tt;
    new_session = λ c. pure c;
    close_session = λ s. pure tt;
    new_sender = λ s. λ name. pure name;
    send = λ sender. λ group. λ message. λ v. (ok tt, deliver sender message v);
    close_sender = λ s. pure tt;
    wait = λ n. pure none;
  }

  module _ (log : V → List Entry)
      (delivered : (queue message : String) (v : V)
        → log (deliver queue message v) ≡ log v ++ sent queue message ∷ []) where
    pub broker-AddressLaws : AddressLaws broker log (λ sender. sender)
    broker-AddressLaws = record {
      dial_law = λ v. refl;
      close_client_law = λ c. λ v. refl;
      new_session_law = λ c. λ v. refl;
      close_session_law = λ s. λ v. (inl (tt, refl), refl);
      new_sender_law = λ s. λ name. λ v. refl;
      address_law = λ s. λ name. λ v. λ sender. λ e. cc e;
      send_law = λ sender. λ group. λ message. λ v. inl (refl, delivered sender message v);
      close_sender_law = λ s. λ v. (inl (tt, refl), refl);
      wait_law = λ n. λ v. refl;
    }
