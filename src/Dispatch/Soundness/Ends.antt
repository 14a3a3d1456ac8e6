-- ===== src/Dispatch/Soundness/Ends.antt =====
-- What a finished task tells through `result`, `exception`, `cancelled` and `done`.
use rayo.Base.{
  ◌<◌, ◌≡◌, refl, subst, ◌∙◌, Bool, true, false, Option, none, some, List, ◌>>=◌, arith,
}
use rayo.Dispatch.Types.{
  Object, TaskId, HandlerResponse, TaskState, CompletionKind, value, exception, cancelled, aborted,
  EventLoop,
}
use rayo.Dispatch.Python.{Python, cancelled_error, task_state, with_state}
use rayo.Dispatch.Finish.{mark_finished, leave, finish}
use rayo.Dispatch.Accessors.{
  Raised, new, stored, Fetched, fetched, raises, done, stored_outcome, result,
}
use rayo.Dispatch.Accessors
use rayo.Dispatch.Later.{SameEnd}
use rayo.Dispatch.Acts.{Lawful}
use rayo.Dispatch.Later.Moves.{with_state-same, mark_finished-finished}
use rayo.Dispatch.Progress.Calls.{leave-Later, finish-Keeps}
use rayo.Dispatch.Soundness.History.{Operation, run, run-keeps_end}

-- What the task protocol promises for each way to end.
abbrev pub promised_result : Object → CompletionKind → Fetched Object
promised_result none_object (value v) = fetched v
promised_result none_object (exception e) = raises (stored e)
promised_result none_object (cancelled message) = raises (new (cancelled_error message))
promised_result none_object aborted = fetched none_object

abbrev pub promised_exception : CompletionKind → Fetched (Option Object)
promised_exception (value v) = fetched none
promised_exception (exception e) = fetched (some e)
promised_exception (cancelled message) = raises (new (cancelled_error message))
promised_exception aborted = fetched none

abbrev pub is_cancelled : CompletionKind → Bool
is_cancelled (cancelled message) = true
is_cancelled _ = false

-- The accessors of a task give what was promised.
abbrev pub Tells : Object → CompletionKind → TaskState → Type 0
Tells none_object c t =
    (result none_object t ≡ promised_result none_object c)
    × (Accessors.exception t ≡ promised_exception c)
    × (Accessors.cancelled t ≡ is_cancelled c)
    × (done t ≡ true)

-- A task that runs has no outcome recorded.
abbrev pub IsOpen : TaskState → Type 0
IsOpen t =
    (t.finished ≡ false)
    × (t.finished_cancelled ≡ false)
    × (t.stored_result ≡ none)
    × (t.stored_exception ≡ none)

mark_finished-Tells :
    (none_object : Object) (c : CompletionKind) (t : TaskState)
    → IsOpen t
    → Tells none_object c (mark_finished c t)
unfolding result Accessors.exception Accessors.cancelled done mark_finished
mark_finished-Tells none_object (value v) t o = ground arith
mark_finished-Tells none_object (exception e) t o = ground arith
mark_finished-Tells none_object (cancelled message) t o = ground arith
mark_finished-Tells none_object aborted t o = ground arith

mark_finished-ends : (c : CompletionKind) (t : TaskState) → (mark_finished c t).finished ≡ true
unfolding mark_finished
mark_finished-ends (value v) t = refl
mark_finished-ends (exception e) t = refl
mark_finished-ends (cancelled message) t = refl
mark_finished-ends aborted t = refl

SameEnd-Tells :
    (none_object : Object) (c : CompletionKind) (t u : TaskState)
    → SameEnd t u
    → Tells none_object c t
    → Tells none_object c u
unfolding result stored_outcome Accessors.exception Accessors.cancelled done
SameEnd-Tells none_object c t u (f, fc, m, r, e) h = rw (f, fc, m, r, e) h

module _ {W : Type 0} (py : Python W) (law : Lawful py) where
  -- The callbacks and the hooks that `finish` runs do not change how the task ended.
  finish-SameEnd :
      (i : TaskId) (r : HandlerResponse) (c : CompletionKind) (s : EventLoop W)
      → i < s.task_count
      → (task_state i s).finished ≡ false
      → SameEnd (mark_finished c (task_state i s)) (task_state i (finish py i r c s).1)
  unfolding finish ◌>>=◌ with_state
  finish-SameEnd i r c s old f =
      let t = task_state i s in
      let marked = (with_state i (mark_finished c) s).1 in
      let rest =
        leave-Later py law i t.registered_with_asyncio t.done_callbacks r marked
          (mark_finished-finished i c s) in
      rw f (
        subst
          (λ u.
            SameEnd u
              (task_state i (leave py i t.registered_with_asyncio t.done_callbacks r marked).1))
          (with_state-same i (mark_finished c) s)
          (rest.advances.ended i old (mark_finished-finished i c s)))

  -- When a running task, with no outcome recorded yet, finishes, whatever its callbacks do, and whatever happens after, `result`,
  -- `exception`, `cancelled` and `done` tell for good how it ended: the value, the exception, or the
  -- cancellation with its message; an aborted task tells `None`.
  pub finish-Tells :
      (i : TaskId) (r : HandlerResponse) (c : CompletionKind) (s : EventLoop W)
      (os : List Operation)
      → i < s.task_count
      → IsOpen (task_state i s)
      → Tells py.none_object c (task_state i (run py os (finish py i r c s).1))
  finish-Tells i r c s os old is_open =
      let finished = (finish py i r c s).1 in
      let same = finish-SameEnd i r c s old is_open.0 in
      let told = mark_finished-Tells py.none_object c (task_state i s) is_open in
      SameEnd-Tells py.none_object c (task_state i finished) (task_state i (run py os finished))
        (run-keeps_end py law os finished i
          (omega (arith, ((finish-Keeps py law i r c).at s).advances.grows))
          (same.0 ∙ mark_finished-ends c (task_state i s)))
        (SameEnd-Tells py.none_object c (mark_finished c (task_state i s)) (task_state i finished)
          same told)
