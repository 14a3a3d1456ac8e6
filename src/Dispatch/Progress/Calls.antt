-- ===== src/Dispatch/Progress/Calls.antt =====
-- The calls of Python, the responses that are built from them, and the end of a task.
use native.Mathlib.Decide.{ℕ_discrete}
use rayo.Base.{
  ◌≡◌, sym, subst, inl, inr, Bool, true, false, none, some, pure, ◌==◌, ◌>>=◌, List, [], ◌∷◌,
  Bool-cases,
}
use rayo.Schema.Value.{Value, string}
use rayo.Schema.Write.{Written, wrote, failed}
use rayo.Dispatch.Types.{Object, TaskId, HandlerResponse, no_content, CompletionKind, EventLoop}
use rayo.Dispatch.Python.{
  Python, Call, NewError, task_state, with_state, call_soon_callback, print, call_or_print,
}
use rayo.Dispatch.Respond.{
  report_handler_error, json_response, respond_with, response_from_return_value,
  execute_sync_handler,
}
use rayo.Dispatch.Finish.{
  mark_finished, forget, fire_callbacks, announce, leave, finish, close_coroutine_quietly, dispose,
}
use rayo.Dispatch.Later.{
  Later, IsSettled, Keeps, keeps_rules, Keeps-if, Keeps-pure, Keeps-bind, Closes, closes_rules,
  Later-trans, Advances-trans,
}
use rayo.Dispatch.Later.Moves.{
  mark_finished-Advances, mark_finished-IsListed, mark_finished-finished, with_state-IsSettled_ne,
  forget-Later,
}
use rayo.Dispatch.Later.Slots.{send-Later, send-Closes}
use rayo.Dispatch.Acts.{Lawful, Acts-Later}

module _ {W : Type 0} (py : Python W) (law : Lawful py) where
  pub call-Keeps : (c : Call) → Keeps (py.call c)
  call-Keeps c = record { at = λ s. Acts-Later (law.call_acts c s) }

  pub send-Keeps : (coroutine : Object) → Keeps (py.send coroutine)
  send-Keeps coroutine = record { at = λ s. Acts-Later (law.send_acts coroutine s) }

  pub is_truthy-Keeps : (object : Object) → Keeps (py.is_truthy object)
  is_truthy-Keeps object = record { at = λ s. Acts-Later (law.truth_acts object s) }

  pub new_error-Keeps : (kind : NewError) → Keeps (py.new_error kind)
  new_error-Keeps kind = record { at = λ s. Acts-Later (law.error_acts kind s) }

  pub print-Keeps : (e : Object) → Keeps (print py e)
  unfolding print
  print-Keeps e = search (keeps_rules, call-Keeps)

  pub call_or_print-Keeps : (c : Call) → Keeps (call_or_print py c)
  unfolding call_or_print
  call_or_print-Keeps c = search (keeps_rules, call-Keeps, print-Keeps)

  pub report-Keeps : (e : Object) → Keeps (report_handler_error py e)
  unfolding report_handler_error
  report-Keeps e = search (keeps_rules, print-Keeps)

  json_response-Keeps : (w : Written) → Keeps (json_response py w)
  unfolding json_response
  json_response-Keeps (wrote body) = search (keeps_rules)
  json_response-Keeps (failed e) = search (keeps_rules, new_error-Keeps, print-Keeps)

  respond_with-Keeps : (v : Value) → Keeps (respond_with py v)
  unfolding respond_with
  respond_with-Keeps (string (some text)) = search (keeps_rules)
  respond_with-Keeps (string none) = search (keeps_rules, new_error-Keeps, print-Keeps)
  respond_with-Keeps _ = json_response-Keeps _

  pub response_from_return_value-Keeps : (v : Object) → Keeps (response_from_return_value py v)
  unfolding response_from_return_value
  response_from_return_value-Keeps v = record {
    at = λ s.
        (Keeps-if (v == py.none_object) (pure no_content)
            (respond_with py (py.read_value s.world v)) (Keeps-pure no_content)
            (respond_with-Keeps (py.read_value s.world v))).at
          s;
  }

  fire_callbacks-Keeps :
      (i : TaskId) (callbacks : List (Object × Object)) → Keeps (fire_callbacks py i callbacks)
  unfolding fire_callbacks
  fire_callbacks-Keeps i [] = search (keeps_rules)
  fire_callbacks-Keeps i ((callback, context) ∷ rest) =
      Keeps-bind (call_or_print py (call_soon_callback callback i context))
        (λ _. fire_callbacks py i rest)
        (call_or_print-Keeps (call_soon_callback callback i context))
        (λ _. fire_callbacks-Keeps i rest)

  announce-Keeps :
      (i : TaskId) (registered : Bool) (callbacks : List (Object × Object)) (r : HandlerResponse)
      → Keeps (announce py i registered callbacks r)
  unfolding announce
  announce-Keeps i registered callbacks r =
      search (keeps_rules, call_or_print-Keeps, fire_callbacks-Keeps, send-Later)

  pub leave-Later :
      (i : TaskId) (registered : Bool) (callbacks : List (Object × Object)) (r : HandlerResponse)
      (s : EventLoop W)
      → (task_state i s).finished ≡ true
      → Later s (leave py i registered callbacks r s).1
  unfolding leave ◌>>=◌
  leave-Later i registered callbacks r s f =
      Later-trans (forget-Later i s f) ((announce-Keeps i registered callbacks r).at (forget i s).1)

  leave-Closes :
      (i : TaskId) (registered : Bool) (callbacks : List (Object × Object)) (r : HandlerResponse)
      → Closes i (leave py i registered callbacks r)
  unfolding leave announce
  leave-Closes i registered callbacks r = search (closes_rules, send-Closes) depth 8

  -- `finish` ends with the slot empty.
  pub finish-Closes :
      (i : TaskId) (r : HandlerResponse) (c : CompletionKind) → Closes i (finish py i r c)
  unfolding finish
  finish-Closes i r c = search (closes_rules, send-Closes, leave-Closes)

  finish_open-Later :
      (i : TaskId) (r : HandlerResponse) (c : CompletionKind) (s : EventLoop W)
      → (task_state i s).finished ≡ false
      → Later s (finish py i r c s).1
  unfolding finish ◌>>=◌
  finish_open-Later i r c s f =
      let marked = (with_state i (mark_finished c) s).1 in
      let t = task_state i s in
      let rest =
        leave-Later i t.registered_with_asyncio t.done_callbacks r marked
          (mark_finished-finished i c s) in
      rw f (record {
        advances = Advances-trans (mark_finished-Advances i c s f) rest.advances;
        listed = λ j l. rest.listed j (mark_finished-IsListed i c s j l);
        settled = λ j l. elim (ℕ_discrete j i) [
          | yes e ↦
              subst
                (λ k.
                  IsSettled k (leave py i t.registered_with_asyncio t.done_callbacks r marked).1)
                (sym e)
                (λ _. (leave-Closes i t.registered_with_asyncio t.done_callbacks r).at marked)
          | no ne ↦ rest.settled j (with_state-IsSettled_ne i j (mark_finished c) s ne l)
        ];
      })

  finish_done-Later :
      (i : TaskId) (r : HandlerResponse) (c : CompletionKind) (s : EventLoop W)
      → (task_state i s).finished ≡ true
      → Later s (finish py i r c s).1
  unfolding finish ◌>>=◌
  finish_done-Later i r c s f = rw f ((send-Later i r).at s)

  pub finish-Keeps :
      (i : TaskId) (r : HandlerResponse) (c : CompletionKind) → Keeps (finish py i r c)
  finish-Keeps i r c = record {
    at = λ s. elim (Bool-cases (task_state i s).finished) [
      | inl f ↦ finish_done-Later i r c s f
      | inr f ↦ finish_open-Later i r c s f
    ];
  }

  close_coroutine_quietly-Keeps : (i : TaskId) → Keeps (close_coroutine_quietly py i)
  unfolding close_coroutine_quietly
  close_coroutine_quietly-Keeps i = search (keeps_rules, call_or_print-Keeps)

  pub dispose-Keeps : (i : TaskId) → Keeps (dispose py i)
  unfolding dispose
  dispose-Keeps i = search (keeps_rules, close_coroutine_quietly-Keeps, finish-Keeps)

  pub dispose-Closes : (i : TaskId) → Closes i (dispose py i)
  unfolding dispose
  dispose-Closes i = search (closes_rules, finish-Closes)

  pub execute_sync_handler-Keeps :
      (handler kwargs : Object) → Keeps (execute_sync_handler py handler kwargs)
  unfolding execute_sync_handler
  execute_sync_handler-Keeps handler kwargs =
      search (keeps_rules, call-Keeps, response_from_return_value-Keeps, report-Keeps)
