-- ===== src/Dispatch/Turn/Throws.antt =====
-- A cancellation of a task that has its coroutine: what the next turn does.
use rayo.Base.{
  ◌≡◌, refl, true, false, Option, none, some, State, pure, gets, ◌>>=◌, Bool-cases, inl, inr,
}
use rayo.Dispatch.Types.{Object, TaskId, TaskState, EventLoop}
use rayo.Dispatch.Python.{
  SendResult, cancelled_error, Python, print, call_or_print, task_state, with_state, on_some,
}
use rayo.Dispatch.Respond.{report_handler_error, response_from_return_value}
use rayo.Dispatch.Finish.{finish, dispose}
use rayo.Dispatch.Step.{step_once}
use rayo.Dispatch.Cancel.{request_cancel}
use rayo.Dispatch.Soundness.Unstarted.{demand}
use rayo.Dispatch.Turn.{
  take_wake, is_none, wake_throw, cancel_throw, run_entered, enter, resume, turn,
}

pub requested_running :
    (message : Option Object) (t : TaskState)
    → t.finished ≡ false
    → (demand (request_cancel message t)).finished ≡ false
unfolding request_cancel
requested_running message t h = h

pub requested_started :
    (message : Option Object) (t : TaskState)
    → is_none t.coroutine ≡ false
    → is_none (demand (request_cancel message t)).coroutine ≡ false
unfolding request_cancel
requested_started message t h = h

module _ {W : Type 0} (py : Python W) where
  -- What PyO3 makes of `CancelledError::new_err` is a `CancelledError`.
  abbrev pub MakesCancelled : Type 0
  MakesCancelled =
      (message : Option Object) (s : EventLoop W)
      → py.is_cancelled_error (py.new_error (cancelled_error message) s).0 ≡ true

  -- The step of a turn that throws `thrown` into the coroutine.
  abbrev pub throw_into : TaskId → Object → State (EventLoop W) (Unit {0})
  throw_into i thrown = do
    t ← gets (task_state i)
    on_some t.coroutine
        (λ coroutine.
          on_some t.context (λ context. enter py i coroutine context (some thrown)) (pure tt))
        (pure tt)

  pub cancel_throw-cancelled :
      MakesCancelled
      → (message woken : Option Object) (s : EventLoop W)
      → (thrown : Object) × (((cancel_throw py true message woken s).0 ≡ some thrown)
          × (py.is_cancelled_error thrown ≡ true))
  unfolding cancel_throw ◌>>=◌
  cancel_throw-cancelled makes message none s =
      ((py.new_error (cancelled_error message) s).0, (refl, makes message s))
  cancel_throw-cancelled makes message (some e) s = elim (Bool-cases (py.is_cancelled_error e)) [
    | inl c ↦ rw c (e, (refl, c))
    | inr c ↦ rw c ((py.new_error (cancelled_error message) s).0, (refl, makes message s))
  ]

module _ {W : Type 0} (py : Python W) (other : Object → State (EventLoop W) SendResult) where
  -- The interpreter with another `PyIter_Send`.
  abbrev pub resent : Python W
  resent = record py { send = other }

  enter-resent :
      (i : TaskId) (coroutine context thrown : Object) (s : EventLoop W)
      → enter py i coroutine context (some thrown) s
        ≡ enter resent i coroutine context (some thrown) s
  unfolding enter run_entered step_once response_from_return_value finish report_handler_error print
      dispose call_or_print
  enter-resent i coroutine context thrown s = refl

  throw_into-resent :
      (i : TaskId) (thrown : Object) (s : EventLoop W)
      → throw_into py i thrown s ≡ throw_into resent i thrown s
  unfolding ◌>>=◌
  throw_into-resent i thrown s = found (task_state i s).coroutine (task_state i s).context
    where
      found :
          (coroutine context : Option Object)
          → on_some coroutine
              (λ c. on_some context (λ x. enter py i c x (some thrown)) (pure tt))
              (pure tt)
              s
            ≡ on_some coroutine
                (λ c. on_some context (λ x. enter resent i c x (some thrown)) (pure tt))
                (pure tt)
                s
      found none context = refl
      found (some c) none = refl
      found (some c) (some x) = enter-resent i c x thrown s

  abbrev throw_or_leave : Python W → TaskId → Option Object → State (EventLoop W) (Unit {0})
  throw_or_leave p i pending_throw = do
    t ← gets (task_state i)
    on_some t.coroutine
        (λ coroutine.
          on_some t.context (λ context. enter p i coroutine context pending_throw) (pure tt))
        (pure tt)

  made :
      (i : TaskId) (message : Option Object) (s : EventLoop W)
      → let out = py.new_error (cancelled_error message) s in
        throw_into py i out.0 out.1 ≡ throw_into resent i out.0 out.1
  made i message s =
      let out = py.new_error (cancelled_error message) s in throw_into-resent i out.0 out.1

  cancelled-resent :
      (i : TaskId) (message woken : Option Object) (s : EventLoop W)
      → (cancel_throw py true message woken >>= throw_or_leave py i) s
        ≡ (cancel_throw resent true message woken >>= throw_or_leave resent i) s
  unfolding cancel_throw ◌>>=◌
  cancelled-resent i message none s = made i message s
  cancelled-resent i message (some e) s = elim (Bool-cases (py.is_cancelled_error e)) [
    | inl c ↦ rw c (throw_into-resent i e s)
    | inr c ↦ rw c (made i message s)
  ]

  -- That turn does not send: with any other `PyIter_Send` it is the same.
  pub turn-resent :
      (i : TaskId) (future : Option Object) (s : EventLoop W)
      → (task_state i s).finished ≡ false
      → is_none (task_state i s).coroutine ≡ false
      → (task_state i s).must_cancel ≡ true
      → turn py i future s ≡ turn resent i future s
  unfolding turn resume wake_throw ◌>>=◌
  turn-resent i future s running started must =
      rw (running, started, must)
        (cancelled-resent i (task_state i s).cancel_message
          (wake_throw py (task_state i s).deferred_throw future (with_state i take_wake s).1).0
          (wake_throw py (task_state i s).deferred_throw future (with_state i take_wake s).1).1)
