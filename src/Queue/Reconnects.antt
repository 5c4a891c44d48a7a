-- ===== src/Queue/Reconnects.antt =====
-- What is left of the factory's client after `connect` and `NewQueueWriter` of
-- v2/apiserver/internal/lib/queue/amqp/queue_writer_factory.go.
use brignext.Base.{
  ℕ, zero, suc, ◌≤◌, ◌<◌, ◌≡◌, refl, String, Bool, true, false, ◌⊎◌, inl, inr, Option, none, some,
  eqb, arith, Bool-cases, Option-cases,
}
use brignext.Errors.{Error, Outcome, ok, err, panic, out_of_fuel}
use brignext.Effect.{M, ◌>>◌}
use brignext.Retries.{next_count, retry_loop, manage_retries, return_error}
use brignext.Retries.Attempts.{left, left-next, no_fuel, left-le}
use brignext.Queue.{
  Amqp, State, lift, set_client, ignored, close_old, dial_once, connect, session_of, open_sender,
  new_queue_writer, queue_and_group, new_queue_writer_factory, close_factory,
}

-- A call answers or fails.
abbrev Returns : {V A : Type 0} → M V A → Type 0
Returns {V} {A} m = (v : V) → ((a : A) × ((m v).0 ≡ ok a)) ⊎ ((x : Error) × ((m v).0 ≡ err x))

pub record AmqpLaws {V Client Session Sender : Type 0} (q : Amqp V Client Session Sender)
    : Type 0 where
  pub dial_law : Returns q.dial
  pub close_client_law : (client : Client) → Returns (q.close_client client)
  pub new_session_law : (client : Client) → Returns (q.new_session client)
  pub close_session_law : (session : Session) → Returns (q.close_session session)
  pub new_sender_law : (session : Session) (name : String) → Returns (q.new_sender session name)
  pub wait_law : (n : ℕ) (v : V) → (o : Option Error) × ((q.wait n v).0 ≡ ok o)

module _ {V Client Session Sender : Type 0} (q : Amqp V Client Session Sender)
    (laws : AmqpLaws q) where
  close_old_lem : (w : State q) → ((close_old q w).0 ≡ ok tt) × ((close_old q w).1.0 ≡ w.0)
  unfolding close_old ignored lift
  close_old_lem (none, v) = (refl, refl)
  close_old_lem (some client, v) = elim (laws.close_client_law client v) [
    | inl (a, e) ↦ (rw e refl, rw e refl)
    | inr (x, e) ↦ (rw e refl, rw e refl)
  ]

  -- The two answers of the function under retry.
  dial_once_lem :
      (w : State q)
      → ((dial_once q w).0 ≡ ok (record { retry = false; error = none }))
          × ((c : Client) × ((dial_once q w).1.0 ≡ some c))
        ⊎ ((x : Error) × ((dial_once q w).0 ≡ ok (record { retry = true; error = some x }))
            × ((dial_once q w).1.0 ≡ none))
  unfolding dial_once lift set_client
  dial_once_lem w =
      let (closed, same) = close_old_lem w in
      elim (laws.dial_law (close_old q w).1.1) [
        | inl (c, e) ↦ inl (rw (closed, e) refl, (c, rw (closed, e) refl))
        | inr (x, e) ↦ inr (x, rw (closed, e) refl, rw (closed, e) refl)
      ]

  -- A run that ends with a client, or fails without one.
  abbrev IsConnected : M (State q) (Unit {0}) → State q → Type 0
  IsConnected m w =
      ((m w).0 ≡ ok tt) × ((c : Client) × ((m w).1.0 ≡ some c))
      ⊎ ((x : Error) × ((m w).0 ≡ err x) × ((m w).1.0 ≡ none))

  retry_loop-IsConnected :
      (fuel failed : ℕ) (w : State q)
      → failed < 256
      → left 10 failed ≤ fuel
      → IsConnected (retry_loop (dial_once q) (λ n. lift q (q.wait n)) fuel 10 failed) w
  unfolding retry_loop return_error lift
  retry_loop-IsConnected zero failed w k f = absurd (no_fuel 10 failed f)
  retry_loop-IsConnected (suc fuel) failed w k f = elim (dial_once_lem w) [
    | inl (e, (c, s)) ↦ inl (rw e refl, (c, rw e s))
    | inr (x, e, s) ↦ elim (Bool-cases (eqb (next_count failed) 10)) [
      | inl y ↦ inr (x, rw (e, y) refl, rw (e, y) s)
      | inr n ↦
          let w₁ = (dial_once q w).1 in
          let (next, small) = left-next 10 failed (omega arith) k n in
          let (o, done) = laws.wait_law (next_count failed) w₁.1 in
          elim (Option-cases o) [
            | inr (z, d) ↦ inr (z, rw (e, n, done, d) refl, rw (e, n, done, d) s)
            | inl d ↦
                rw (e, n, done, d)
                  (retry_loop-IsConnected fuel (next_count failed)
                    (lift q (q.wait (next_count failed)) w₁).1 small (omega arith))
          ]
    ]
  ]

  connect-IsConnected : (w : State q) → IsConnected (connect q) w
  unfolding connect manage_retries
  connect-IsConnected w = retry_loop-IsConnected 256 0 w (omega arith) (left-le 10 0)

  -- What `open_sender` makes of the client, by its result.
  abbrev OpenSpec : {A : Type 0} → Outcome A → Option Client → Option Client → Type 0
  OpenSpec (ok x) before after = (c : Client) × (after ≡ some c)
  OpenSpec (err x) before after = after ≡ none
  OpenSpec panic before after = before ≡ none
  OpenSpec out_of_fuel before after = Unit

  with_client :
      {A : Type 0} (r : Outcome A) (o before after : Option Client) (c : Client)
      → o ≡ some c
      → OpenSpec r o after
      → OpenSpec r before after
  with_client (ok x) o before after c e h = h
  with_client (err x) o before after c e h = h
  with_client panic o before after c e h = absurd (cc (e, h))
  with_client out_of_fuel o before after c e h = tt

  -- After a failure the loop reconnects; it does not panic.
  reconnect-OpenSpec :
      {A : Type 0} (again : M (State q) A) (w : State q) (before : Option Client)
      → ((w' : State q) → OpenSpec (again w').0 w'.0 (again w').1.0)
      → OpenSpec ((connect q >> again) w).0 before ((connect q >> again) w).1.0
  reconnect-OpenSpec again w before h = elim (connect-IsConnected w) [
    | inr (x, e, s) ↦ rw e s
    | inl (e, (d, s)) ↦ rw e (
        with_client (again (connect q w).1).0 (connect q w).1.0 before (again (connect q w).1).1.0 d
          s (h (connect q w).1))
  ]

  ignored_lem : (m : M V (Unit {0})) (w : State q) → Returns m → (ignored q (lift q m) w).0 ≡ ok tt
  unfolding ignored lift
  ignored_lem m w h = elim (h w.1) [ inl (a, e) ↦ rw e refl | inr (x, e) ↦ rw e refl ]

  open_sender-OpenSpec :
      (fuel : ℕ) (name : String) (w : State q)
      → OpenSpec (open_sender q fuel name w).0 w.0 (open_sender q fuel name w).1.0
  unfolding open_sender session_of lift
  open_sender-OpenSpec zero name w = tt
  open_sender-OpenSpec (suc fuel) name (none, v) = refl
  open_sender-OpenSpec (suc fuel) name (some client, v) = elim (laws.new_session_law client v) [
    | inr (x, e) ↦ rw e (
        reconnect-OpenSpec (open_sender q fuel name) _ (some client)
          (open_sender-OpenSpec fuel name))
    | inl (session, e) ↦ elim (laws.new_sender_law session name (q.new_session client v).1) [
      | inl (sender, f) ↦ rw (e, f) (client, refl)
      | inr (x, f) ↦
          let v₂ = (q.new_sender session name (q.new_session client v).1).1 in
          rw
            (
              e,
              f,
              ignored_lem (q.close_session session) (some client, v₂)
                  (laws.close_session_law session),
            )
            (reconnect-OpenSpec (open_sender q fuel name) _ (some client)
              (open_sender-OpenSpec fuel name))
    ]
  ]

  no_client-panic :
      (fuel : ℕ) (is_azure : Bool) (name : String) (w : State q)
      → w.0 ≡ none
      → ((new_queue_writer q (suc fuel) is_azure name w).0 ≡ panic)
        × ((close_factory q w).0 ≡ panic)
  unfolding new_queue_writer open_sender session_of close_factory
  no_client-panic fuel is_azure name (none, v) h = (refl, refl)
  no_client-panic fuel is_azure name (some c, v) h = absurd (cc h)

  new_queue_writer-err :
      (fuel : ℕ) (is_azure : Bool) (name : String) (w : State q) (x : Error)
      → (new_queue_writer q fuel is_azure name w).0 ≡ err x
      → (new_queue_writer q fuel is_azure name w).1.0 ≡ none
  unfolding new_queue_writer
  new_queue_writer-err fuel is_azure name w x h =
      go (open_sender q fuel (queue_and_group is_azure name).0 w).0 refl
    where
      go :
          (r : Outcome (Session × Sender))
          → (open_sender q fuel (queue_and_group is_azure name).0 w).0 ≡ r
          → (new_queue_writer q fuel is_azure name w).1.0 ≡ none
      go (ok a) e = absurd (cc (rw e at h))
      go (err y) e =
          let spec = rw e at (open_sender-OpenSpec fuel (queue_and_group is_azure name).0 w) in
          rw e spec
      go panic e = absurd (cc (rw e at h))
      go out_of_fuel e = absurd (cc (rw e at h))

  new_queue_writer-no_client :
      (fuel : ℕ) (is_azure : Bool) (name : String) (w : State q)
      → (new_queue_writer q fuel is_azure name w).0 ≡ panic
      → w.0 ≡ none
  unfolding new_queue_writer
  new_queue_writer-no_client fuel is_azure name w h =
      go (open_sender q fuel (queue_and_group is_azure name).0 w).0 refl
    where
      go :
          (r : Outcome (Session × Sender))
          → (open_sender q fuel (queue_and_group is_azure name).0 w).0 ≡ r
          → w.0 ≡ none
      go (ok a) e = absurd (cc (rw e at h))
      go (err y) e = absurd (cc (rw e at h))
      go panic e = rw e at (open_sender-OpenSpec fuel (queue_and_group is_azure name).0 w)
      go out_of_fuel e = absurd (cc (rw e at h))

  -- The first writer of a factory that could be made is opened or refused, without a panic.
  new_queue_writer-factory :
      (fuel : ℕ) (is_azure : Bool) (name : String) (v : V)
      → (new_queue_writer_factory q v).0 ≡ ok tt
      → ¬ ((new_queue_writer q fuel is_azure name (new_queue_writer_factory q v).1).0 ≡ panic)
  unfolding new_queue_writer_factory
  new_queue_writer-factory fuel is_azure name v made h = elim (connect-IsConnected (none, v)) [
    | inr (x, e, s) ↦ absurd (cc (made, e))
    | inl (e, (c, s)) ↦
        absurd (cc (new_queue_writer-no_client fuel is_azure name (connect q (none, v)).1 h, s))
  ]

  -- Once `NewQueueWriter` has failed, every later call of it panics, and so does `Close` of the
  -- factory: it does not recover from a failure to reconnect.
  pub new_queue_writer-panic :
      (fuel fuel' : ℕ) (is_azure is_azure' : Bool) (name name' : String) (w : State q) (x : Error)
      → (new_queue_writer q fuel is_azure name w).0 ≡ err x
      → ((new_queue_writer q
            (suc fuel')
            is_azure'
            name'
            (new_queue_writer q fuel is_azure name w).1).0
          ≡ panic)
        × ((close_factory q (new_queue_writer q fuel is_azure name w).1).0 ≡ panic)
  new_queue_writer-panic fuel fuel' is_azure is_azure' name name' w x h =
      no_client-panic fuel' is_azure' name' (new_queue_writer q fuel is_azure name w).1
        (new_queue_writer-err fuel is_azure name w x h)
