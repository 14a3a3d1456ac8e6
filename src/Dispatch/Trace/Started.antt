-- ===== src/Dispatch/Trace/Started.antt =====
-- A task that has its coroutine keeps it, whatever other code does.
use rayo.Base.{◌≡◌, ◌<◌, ==_iff, arith, Bool-cases, inl, inr, refl, true, some, ◌>>=◌}
use rayo.Dispatch.Types.{Object, TaskId, HandlerTask, TaskState, EventLoop}
use rayo.Dispatch.Python.{put_task, with_state, task_state}
use rayo.Dispatch.Channel.{send, drop}
use rayo.Dispatch.Finish.{forget}
use rayo.Dispatch.Cancel.{request_cancel, withdraw_cancel, demand_cancel}
use rayo.Dispatch.Accessors.{push_callback, drop_callback}
use rayo.Dispatch.Loop.{allocate, enlist, withdraw}
use rayo.Dispatch.Acts.{
  Acts, here, runs, requests, demands, withdraws, pushes, removes, names, admits, refuses, frees,
  admit,
}

module _ {W : Type 0} where
  -- Task `i` has this coroutine and this context.
  abbrev pub IsStarted : TaskId → Object → Object → EventLoop W → Type 0
  IsStarted i c x s =
      (i < s.task_count)
      × (((s.tasks i).state.coroutine ≡ some c) × ((s.tasks i).state.context ≡ some x))

  module _ (i : TaskId) (c x : Object) where
    put-IsStarted :
        (j : TaskId) (t : HandlerTask) (s : EventLoop W)
        → t.state.coroutine ≡ (s.tasks j).state.coroutine
        → t.state.context ≡ (s.tasks j).state.context
        → IsStarted i c x s
        → IsStarted i c x (put_task j t s)
    put-IsStarted j t s a b (old, (mine, args)) =
        (old, (ground (arith, ==_iff i j), ground (arith, ==_iff i j)))

    pub with_state-IsStarted :
        (j : TaskId) (f : TaskState → TaskState) (s : EventLoop W)
        → ((t : TaskState) → (f t).coroutine ≡ t.coroutine)
        → ((t : TaskState) → (f t).context ≡ t.context)
        → IsStarted i c x s
        → IsStarted i c x (with_state j f s).1
    unfolding with_state
    with_state-IsStarted j f s a b =
        put-IsStarted j (record (s.tasks j) { state = f (task_state j s) }) s (a (task_state j s))
          (b (task_state j s))

    demand_cancel-IsStarted :
        (j : TaskId) (s : EventLoop W) → IsStarted i c x s → IsStarted i c x (demand_cancel j s).1
    unfolding demand_cancel ◌>>=◌
    demand_cancel-IsStarted j s b = elim (Bool-cases (task_state j s).finished) [
      | inl e ↦ rw e b
      | inr e ↦ rw e (
          with_state-IsStarted j (λ u. record u { must_cancel = true }) s (λ t. refl) (λ t. refl) b)
    ]

    drop-IsStarted :
        (j : TaskId) (s : EventLoop W) → IsStarted i c x s → IsStarted i c x (drop j s).1
    unfolding drop
    drop-IsStarted j s b = put-IsStarted j (record (s.tasks j) { channel = _ }) s refl refl b

    withdraw-IsStarted :
        (j : TaskId) (s : EventLoop W) → IsStarted i c x s → IsStarted i c x (withdraw j s).1
    unfolding withdraw ◌>>=◌ forget send
    withdraw-IsStarted j s b = put-IsStarted j (record (s.tasks j) { channel = _ }) s refl refl b

    admit-IsStarted :
        (g l : Object) (s : EventLoop W) → IsStarted i c x s → IsStarted i c x (admit g l s)
    unfolding admit allocate enlist
    admit-IsStarted g l s (old, (mine, args)) = (
      omega arith,
      (ground (arith, ==_iff i s.task_count), ground (arith, ==_iff i s.task_count)),
    )

    pub Acts-IsStarted : {s t : EventLoop W} → Acts s t → IsStarted i c x s → IsStarted i c x t
    unfolding request_cancel withdraw_cancel push_callback drop_callback
    Acts-IsStarted here b = b
    Acts-IsStarted (runs a w) b = Acts-IsStarted a b
    Acts-IsStarted (requests {t = t} a j m f) b =
        with_state-IsStarted j _ t (λ t. refl) (λ t. refl) (Acts-IsStarted a b)
    Acts-IsStarted (demands {t = t} a j) b = demand_cancel-IsStarted j t (Acts-IsStarted a b)
    Acts-IsStarted (withdraws {t = t} a j) b =
        with_state-IsStarted j _ t (λ t. refl) (λ t. refl) (Acts-IsStarted a b)
    Acts-IsStarted (pushes {t = t} a j callback context f) b =
        with_state-IsStarted j _ t (λ t. refl) (λ t. refl) (Acts-IsStarted a b)
    Acts-IsStarted (removes {t = t} a j equal callback) b =
        with_state-IsStarted j _ t (λ t. refl) (λ t. refl) (Acts-IsStarted a b)
    Acts-IsStarted (names {t = t} a j text) b =
        with_state-IsStarted j _ t (λ t. refl) (λ t. refl) (Acts-IsStarted a b)
    Acts-IsStarted (admits {t = t} a g l) b = admit-IsStarted g l t (Acts-IsStarted a b)
    Acts-IsStarted (refuses {t = t} a j) b = withdraw-IsStarted j t (Acts-IsStarted a b)
    Acts-IsStarted (frees {t = t} a j) b = drop-IsStarted j t (Acts-IsStarted a b)
