-- ===== src/Tests/Queues.antt =====
-- A client of AMQP whose server has gone away, and the queues of a project.
use brignext.Base.{ℕ, ◌≡◌, refl, false, none, some, inl, inr}
use brignext.Errors.{err, panic, other}
use brignext.Effect.{pure, fail}
use brignext.Queue.{Amqp, State, new_queue_writer, close_factory, open_sender, connect, dial_once}
use brignext.Retries.{manage_retries, retry_loop}
use brignext.Queue.Reconnects.{AmqpLaws, new_queue_writer-panic}

-- Clients, sessions and senders are numbers.
abbrev gone : Amqp ℕ ℕ ℕ ℕ
gone = record {
  dial = fail (other "refused");
  close_client = λ c. pure tt;
  new_session = λ c. fail (other "closed");
  close_session = λ s. pure tt;
  new_sender = λ s. λ name. pure s;
  send = λ s. λ group. λ message. pure tt;
  close_sender = λ s. pure tt;
  wait = λ n. pure none;
}

gone-AmqpLaws : AmqpLaws gone
gone-AmqpLaws = record {
  dial_law = λ v. inr (other "refused", refl);
  close_client_law = λ c. λ v. inl (tt, refl);
  new_session_law = λ c. λ v. inr (other "closed", refl);
  close_session_law = λ s. λ v. inl (tt, refl);
  new_sender_law = λ s. λ name. λ v. inl (s, refl);
  wait_law = λ n. λ v. (none, refl);
}

abbrev connected : State gone
connected = (some 1, 0)

refused : (new_queue_writer gone 1 false "workers.blog" connected).0 ≡ err (other "refused")
unfolding new_queue_writer open_sender connect manage_retries retry_loop dial_once
refused = refl

no_recovery_example :
    ((new_queue_writer gone 5 false "jobs.blog"
        (new_queue_writer gone 1 false "workers.blog" connected).1).0
      ≡ panic)
    × ((close_factory gone (new_queue_writer gone 1 false "workers.blog" connected).1).0 ≡ panic)
no_recovery_example =
    new_queue_writer-panic gone gone-AmqpLaws 1 4 false false "workers.blog" "jobs.blog" connected
      (other "refused") refused
