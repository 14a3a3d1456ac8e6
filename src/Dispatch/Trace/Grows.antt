-- ===== src/Dispatch/Trace/Grows.antt =====
-- The calls that are written down stay so: the operations of a step only add to the log.
use mathlib.Core.List.{append_assoc, append-nil}
use rayo.Base.{
  ◌≡◌, refl, sym, ap, ◌∙◌, State, Bool, true, false, Option, none, some, pure, gets, ◌==◌, ◌>>=◌,
  List, [], ◌∷◌, ◌++◌, if◌then◌else◌,
}
use rayo.Schema.Value.{Value, string}
use rayo.Schema.Write.{Written, wrote, failed}
use rayo.Dispatch.Types.{
  Object, TaskId, HandlerResponse, no_content, StepOutcome, returned, raised, yielded, ParkOutcome,
  parked, bad_yield, park_failed, CompletionKind, TaskState, EventLoop,
}
use rayo.Dispatch.Python.{
  Call, call_soon_callback, NewError, Python, Answer, ok, error, with_state, on_answer, on_some,
  print, call_or_print,
}
use rayo.Dispatch.Channel.{send}
use rayo.Dispatch.Respond.{
  report_handler_error, json_response, respond_with, response_from_return_value,
}
use rayo.Dispatch.Finish.{
  fire_callbacks, forget, announce, leave, finish, close_coroutine_quietly, dispose,
}
use rayo.Dispatch.Step.{
  refuse, park, park_on_future, reschedule_or_abort, apply_cancel_requested_mid_step,
  cancellation_message, after_park, after_step,
}
use rayo.Dispatch.Turn.{wake_throw, cancel_throw}
use rayo.Dispatch.Trace.{Logged, logged, log_of}

module _ {W A : Type 0} where
  pub record Grows (m : State (EventLoop (Logged W)) A) : Type 0 where
    pub at : (s : EventLoop (Logged W)) → (cs : List Call) × (log_of (m s).1 ≡ log_of s ++ cs)

  pub Grows-silent :
      (m : State (EventLoop (Logged W)) A)
      → ((s : EventLoop (Logged W)) → log_of (m s).1 ≡ log_of s)
      → Grows m
  Grows-silent m h = record { at = λ s. ([], h s ∙ sym (append-nil (log_of s))) }

  pub Grows-pure : (a : A) → Grows (pure a)
  Grows-pure a = Grows-silent (pure a) (λ s. refl)

  pub Grows-gets : (f : EventLoop (Logged W) → A) → Grows (gets f)
  Grows-gets f = Grows-silent (gets f) (λ s. refl)

  pub Grows-if :
      (b : Bool) (m n : State (EventLoop (Logged W)) A)
      → Grows m
      → Grows n
      → Grows (if b then m else n)
  Grows-if true m n km kn = km
  Grows-if false m n km kn = kn

  pub Grows-answer :
      (a : Answer) (f g : Object → State (EventLoop (Logged W)) A)
      → ((v : Object) → Grows (f v))
      → ((e : Object) → Grows (g e))
      → Grows (on_answer a f g)
  Grows-answer (ok v) f g kf kg = kf v
  Grows-answer (error e) f g kf kg = kg e

  pub Grows-some :
      {B : Type 0} (o : Option B) (f : B → State (EventLoop (Logged W)) A)
      (m : State (EventLoop (Logged W)) A)
      → ((b : B) → Grows (f b))
      → Grows m
      → Grows (on_some o f m)
  Grows-some (some b) f m kf km = kf b
  Grows-some none f m kf km = km

module _ {W A B : Type 0} where
  pub Grows-bind :
      (m : State (EventLoop (Logged W)) A) (f : A → State (EventLoop (Logged W)) B)
      → Grows m
      → ((a : A) → Grows (f a))
      → Grows (m >>= f)
  unfolding ◌>>=◌
  Grows-bind m f km kf = record {
    at = λ s.
        let (cs, e) = km.at s in
        let (ds, d) = (kf (m s).0).at (m s).1 in
        (cs ++ ds, d ∙ ap (λ l. l ++ ds) e ∙ append_assoc (log_of s) cs ds);
  }

pub ruleset grows_rules = (Grows-pure, Grows-gets, Grows-if, Grows-answer, Grows-some, Grows-bind)

module _ {W : Type 0} where
  with_state-Grows :
      (i : TaskId) (f : TaskState → TaskState) → Grows (with_state {W = Logged W} i f)
  unfolding with_state
  with_state-Grows i f = Grows-silent _ (λ s. refl)

  send-Grows : (i : TaskId) (r : HandlerResponse) → Grows (send {W = Logged W} i r)
  unfolding send
  send-Grows i r = Grows-silent _ (λ s. refl)

  forget-Grows : (i : TaskId) → Grows (forget {W = Logged W} i)
  unfolding forget
  forget-Grows i = Grows-silent _ (λ s. refl)

module _ {W : Type 0} (inner : Python W) where
  abbrev py : Python (Logged W)
  py = logged inner

  pub call-Grows : (c : Call) → Grows (py.call c)
  call-Grows c = record { at = λ s. (c ∷ [], refl) }

  is_truthy-Grows : (object : Object) → Grows (py.is_truthy object)
  is_truthy-Grows object = record { at = λ s. ([], refl) }

  pub new_error-Grows : (kind : NewError) → Grows (py.new_error kind)
  new_error-Grows kind = record { at = λ s. ([], refl) }

  pub print-Grows : (e : Object) → Grows (print py e)
  unfolding print
  print-Grows e = search (grows_rules, call-Grows)

  pub call_or_print-Grows : (c : Call) → Grows (call_or_print py c)
  unfolding call_or_print
  call_or_print-Grows c = search (grows_rules, call-Grows, print-Grows)

  report-Grows : (e : Object) → Grows (report_handler_error py e)
  unfolding report_handler_error
  report-Grows e = search (grows_rules, print-Grows)

  json_response-Grows : (w : Written) → Grows (json_response py w)
  unfolding json_response
  json_response-Grows (wrote body) = search (grows_rules)
  json_response-Grows (failed e) = search (grows_rules, new_error-Grows, print-Grows)

  respond_with-Grows : (v : Value) → Grows (respond_with py v)
  unfolding respond_with
  respond_with-Grows (string (some text)) = search (grows_rules)
  respond_with-Grows (string none) = search (grows_rules, new_error-Grows, print-Grows)
  respond_with-Grows _ = json_response-Grows _

  response_from_return_value-Grows : (v : Object) → Grows (response_from_return_value py v)
  unfolding response_from_return_value
  response_from_return_value-Grows v = record {
    at = λ s.
        (Grows-if (v == py.none_object) (pure no_content)
            (respond_with py (py.read_value s.world v)) (Grows-pure no_content)
            (respond_with-Grows (py.read_value s.world v))).at
          s;
  }

  fire_callbacks-Grows :
      (i : TaskId) (callbacks : List (Object × Object)) → Grows (fire_callbacks py i callbacks)
  unfolding fire_callbacks
  fire_callbacks-Grows i [] = search (grows_rules)
  fire_callbacks-Grows i ((callback, context) ∷ rest) =
      Grows-bind (call_or_print py (call_soon_callback callback i context))
        (λ _. fire_callbacks py i rest)
        (call_or_print-Grows (call_soon_callback callback i context))
        (λ _. fire_callbacks-Grows i rest)

  announce-Grows :
      (i : TaskId) (registered : Bool) (callbacks : List (Object × Object)) (r : HandlerResponse)
      → Grows (announce py i registered callbacks r)
  unfolding announce
  announce-Grows i registered callbacks r =
      search (grows_rules, call_or_print-Grows, fire_callbacks-Grows, send-Grows)

  leave-Grows :
      (i : TaskId) (registered : Bool) (callbacks : List (Object × Object)) (r : HandlerResponse)
      → Grows (leave py i registered callbacks r)
  unfolding leave
  leave-Grows i registered callbacks r = search (grows_rules, forget-Grows, announce-Grows)

  finish-Grows : (i : TaskId) (r : HandlerResponse) (c : CompletionKind) → Grows (finish py i r c)
  unfolding finish
  finish-Grows i r c = search (grows_rules, send-Grows, with_state-Grows, leave-Grows) depth 9

  close_coroutine_quietly-Grows : (i : TaskId) → Grows (close_coroutine_quietly py i)
  unfolding close_coroutine_quietly
  close_coroutine_quietly-Grows i = search (grows_rules, call_or_print-Grows)

  dispose-Grows : (i : TaskId) → Grows (dispose py i)
  unfolding dispose
  dispose-Grows i = search (grows_rules, close_coroutine_quietly-Grows, finish-Grows)

  ruleset calls = (
    grows_rules, call-Grows, is_truthy-Grows, new_error-Grows, print-Grows, call_or_print-Grows,
    report-Grows, response_from_return_value-Grows, finish-Grows, dispose-Grows, with_state-Grows,
  )

  refuse-Grows : (kind : NewError) → Grows (refuse py kind)
  unfolding refuse
  refuse-Grows kind = search calls depth 9

  park-Grows : (i : TaskId) (future : Object) → Grows (park py i future)
  unfolding park
  park-Grows i future = search calls depth 12

  park_on_future-Grows : (i : TaskId) (future : Object) → Grows (park_on_future py i future)
  unfolding park_on_future
  park_on_future-Grows i future = search (calls, park-Grows, refuse-Grows) depth 12

  reschedule_or_abort-Grows : (i : TaskId) → Grows (reschedule_or_abort py i)
  unfolding reschedule_or_abort
  reschedule_or_abort-Grows i = search calls depth 9

  apply_cancel-Grows : (i : TaskId) → Grows (apply_cancel_requested_mid_step py i)
  unfolding apply_cancel_requested_mid_step
  apply_cancel-Grows i = search calls depth 12

  cancellation_message-Grows : (e : Object) → Grows (cancellation_message py e)
  unfolding cancellation_message
  cancellation_message-Grows e = search calls depth 9

  after_park-Grows : (i : TaskId) (outcome : ParkOutcome) → Grows (after_park py i outcome)
  unfolding after_park
  after_park-Grows i parked = apply_cancel-Grows i
  after_park-Grows i (bad_yield e) = search (calls, reschedule_or_abort-Grows)
  after_park-Grows i park_failed = dispose-Grows i

  pub after_step-Grows : (i : TaskId) (outcome : StepOutcome) → Grows (after_step py i outcome)
  unfolding after_step
  after_step-Grows i (returned v) = search calls
  after_step-Grows i (raised e) = search (calls, cancellation_message-Grows)
  after_step-Grows i (yielded object) =
      search (calls, reschedule_or_abort-Grows, park_on_future-Grows, after_park-Grows)

  pub wake_throw-Grows : (d f : Option Object) → Grows (wake_throw py d f)
  unfolding wake_throw
  wake_throw-Grows d f = search calls depth 9

  pub cancel_throw-Grows : (b : Bool) (m p : Option Object) → Grows (cancel_throw py b m p)
  unfolding cancel_throw
  cancel_throw-Grows b m p = search calls depth 9
