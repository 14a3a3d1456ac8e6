-- ===== src/Dispatch/Soundness/Unstarted.antt =====
-- A cancellation that comes before a task's first step.
use rayo.Base.{◌<◌, ◌≡◌, refl, sym, ap, subst, ◌∙◌, true, false, Option, none, List, ◌>>=◌}
use rayo.Dispatch.Types.{Object, TaskId, internal_error, TaskState, CompletionKind, EventLoop}
use rayo.Dispatch.Python.{Python, task_state, with_state}
use rayo.Dispatch.Finish.{finish}
use rayo.Dispatch.Cancel.{request_cancel, demand_cancel, cancel}
use rayo.Dispatch.Turn.{take_wake, turn}
use rayo.Dispatch.Later.Moves.{with_state-same}
use rayo.Dispatch.Acts.{Lawful}
use rayo.Dispatch.Soundness.History.{Operation, run}
use rayo.Dispatch.Soundness.Ends.{IsOpen, Tells, finish-Tells}

abbrev pub demand : TaskState → TaskState
demand t = record t { must_cancel = true }

-- A task whose first turn did not come yet: nothing is recorded, there is no coroutine, and it waits
-- on nothing.
abbrev pub IsUnstarted : TaskState → Type 0
IsUnstarted t = IsOpen t × (t.coroutine ≡ none) × (t.waiting_on ≡ none)

take_wake-IsOpen : (t : TaskState) → IsOpen t → IsOpen (take_wake t)
unfolding take_wake
take_wake-IsOpen t (f, fc, r, e) = (f, fc, r, e)

requested-IsUnstarted :
    (message : Option Object) (t : TaskState)
    → IsUnstarted t
    → IsUnstarted (demand (request_cancel message t))
unfolding request_cancel
requested-IsUnstarted message t ((f, fc, r, e), c, w) = ((f, fc, r, e), c, w)

requested-message :
    (message : Option Object) (t : TaskState)
    → (demand (request_cancel message t)).cancel_message ≡ message
unfolding request_cancel
requested-message message t = refl

module _ {W : Type 0} where
  -- The loop after a cancellation of a task that waits on nothing.
  abbrev pub demanded : TaskId → Option Object → EventLoop W → EventLoop W
  demanded i message s = (with_state i demand (with_state i (request_cancel message) s).1).1

  woken-count :
      (i : TaskId) (s : EventLoop W)
      → i < s.task_count
      → i < (with_state i take_wake s).1.task_count
  unfolding with_state
  woken-count i s h = h

  demanded-count :
      (i : TaskId) (message : Option Object) (s : EventLoop W)
      → i < s.task_count
      → i < (demanded i message s).task_count
  unfolding with_state
  demanded-count i message s h = h

  pub demanded-state :
      (i : TaskId) (message : Option Object) (s : EventLoop W)
      → task_state i (demanded i message s) ≡ demand (request_cancel message (task_state i s))
  demanded-state i message s =
      with_state-same i demand (with_state i (request_cancel message) s).1
      ∙ ap demand (with_state-same i (request_cancel message) s)

  demand_cancel-open :
      (i : TaskId) (s : EventLoop W)
      → (task_state i s).finished ≡ false
      → demand_cancel i s ≡ (true, (with_state i demand s).1)
  unfolding demand_cancel ◌>>=◌
  demand_cancel-open i s f = rw f refl

module _ {W : Type 0} (py : Python W) where
  pub cancel-demanded :
      (i : TaskId) (message : Option Object) (s : EventLoop W)
      → (task_state i s).finished ≡ false
      → (task_state i s).waiting_on ≡ none
      → cancel py i message s ≡ (true, demanded i message s)
  unfolding cancel ◌>>=◌ request_cancel
  cancel-demanded i message s f w =
      rw (f, w)
        (demand_cancel-open i (with_state i (request_cancel message) s).1
          (ap (λ t. t.finished) (with_state-same i (request_cancel message) s) ∙ f))

  turn-finish :
      (i : TaskId) (future : Option Object) (s : EventLoop W)
      → (task_state i s).finished ≡ false
      → (task_state i s).coroutine ≡ none
      → (task_state i s).must_cancel ≡ true
      → turn py i future s
        ≡ finish py i internal_error
            (CompletionKind.cancelled (task_state i s).cancel_message)
            (with_state i take_wake s).1
  unfolding turn ◌>>=◌
  turn-finish i future s f c m = rw (f, c, m) refl

  module _ (law : Lawful py) where
    turn-Tells :
        (i : TaskId) (future message : Option Object) (s : EventLoop W) (os : List Operation)
        → i < s.task_count
        → IsUnstarted (task_state i s)
        → (task_state i s).must_cancel ≡ true
        → (task_state i s).cancel_message ≡ message
        → Tells py.none_object
            (CompletionKind.cancelled message)
            (task_state i (run py os (turn py i future s).1))
    turn-Tells i future message s os old unstarted must told =
        let woken = (with_state i take_wake s).1 in
        rw (turn-finish i future s unstarted.0.0 unstarted.1 must) (
          subst
            (λ k. Tells py.none_object (CompletionKind.cancelled message) (
              task_state i
                (run py os (finish py i internal_error (CompletionKind.cancelled k) woken).1)))
            (sym told)
            (finish-Tells py law i internal_error (CompletionKind.cancelled message) woken os
              (woken-count i s old)
              (subst IsOpen (sym (with_state-same i take_wake s))
                (take_wake-IsOpen (task_state i s) unstarted.0))))

    -- A request that is cancelled before its first turn: `cancel` says that it was taken, the turn
    -- ends the task as cancelled with the message given, and so it stays, whatever happens after.
    pub cancel-turn-Tells :
        (i : TaskId) (message future : Option Object) (s : EventLoop W) (os : List Operation)
        → i < s.task_count
        → IsUnstarted (task_state i s)
        → ((cancel py i message s).0 ≡ true)
          × Tells py.none_object
              (CompletionKind.cancelled message)
              (task_state i (run py os (turn py i future (cancel py i message s).1).1))
    cancel-turn-Tells i message future s os old unstarted =
        let after = demanded i message s in
        let state = demanded-state i message s in
        rw (cancel-demanded i message s unstarted.0.0 unstarted.2) (
          refl,
          turn-Tells i future message after os (demanded-count i message s old)
              (subst IsUnstarted (sym state)
                (requested-IsUnstarted message (task_state i s) unstarted))
              (ap (λ t. t.must_cancel) state)
              (ap (λ t. t.cancel_message) state ∙ requested-message message (task_state i s)),
        )
