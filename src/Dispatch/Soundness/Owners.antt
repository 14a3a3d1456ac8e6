-- ===== src/Dispatch/Soundness/Owners.antt =====
-- Whose task it is: the handler and the arguments that `EventLoop::schedule` gives a task.
use rayo.Base.{
  ◌<◌, ◌≡◌, ◌⊎◌, inl, inr, refl, true, false, none, some, ◌>>=◌, ◌>>◌, pure, ==_iff, Bool-cases,
  arith,
}
use rayo.Dispatch.Types.{Object, TaskId, HandlerTask, TaskState, EventLoop}
use rayo.Dispatch.Python.{
  new_task, call_soon_threadsafe, Python, Answer, ok, error, put_task, with_state, task_state,
  on_answer, print,
}
use rayo.Dispatch.Channel.{channel_of, send, drop}
use rayo.Dispatch.Finish.{forget}
use rayo.Dispatch.Cancel.{demand_cancel}
use rayo.Dispatch.Loop.{
  DispatchedRequest, failed, allocate, enlist, withdraw, hand_over, place, schedule,
}
use rayo.Dispatch.Later.{is_waiting, Advances-closed}
use rayo.Dispatch.Later.Slots.{drop-Closes}
use rayo.Dispatch.Acts.{
  Acts, here, runs, requests, demands, withdraws, pushes, removes, names, admits, refuses, frees,
  admit, Lawful, withdraw-Closes,
}
use rayo.Dispatch.Progress.Calls.{print-Keeps}

module _ {W : Type 0} where
  -- Task `i` is there, for this handler with these arguments.
  abbrev pub Belongs : TaskId → Object → Object → EventLoop W → Type 0
  Belongs i h k s =
      (i < s.task_count) × ((s.tasks i).handler ≡ h) × ((s.tasks i).handler_kwargs ≡ k)

  module _ (i : TaskId) (h k : Object) where
    put-Belongs :
        (j : TaskId) (t : HandlerTask) (s : EventLoop W)
        → t.handler ≡ (s.tasks j).handler
        → t.handler_kwargs ≡ (s.tasks j).handler_kwargs
        → Belongs i h k s
        → Belongs i h k (put_task j t s)
    put-Belongs j t s a b (old, mine, args) =
        (old, ground (arith, ==_iff i j), ground (arith, ==_iff i j))

    with_state-Belongs :
        (j : TaskId) (f : TaskState → TaskState) (s : EventLoop W)
        → Belongs i h k s
        → Belongs i h k (with_state j f s).1
    unfolding with_state
    with_state-Belongs j f s =
        put-Belongs j (record (s.tasks j) { state = f (task_state j s) }) s refl refl

    demand_cancel-Belongs :
        (j : TaskId) (s : EventLoop W) → Belongs i h k s → Belongs i h k (demand_cancel j s).1
    unfolding demand_cancel ◌>>=◌
    demand_cancel-Belongs j s b = elim (Bool-cases (task_state j s).finished) [
      | inl e ↦ rw e b
      | inr e ↦ rw e (with_state-Belongs j (λ u. record u { must_cancel = true }) s b)
    ]

    drop-Belongs : (j : TaskId) (s : EventLoop W) → Belongs i h k s → Belongs i h k (drop j s).1
    unfolding drop
    drop-Belongs j s b = put-Belongs j (record (s.tasks j) { channel = _ }) s refl refl b

    withdraw-Belongs :
        (j : TaskId) (s : EventLoop W) → Belongs i h k s → Belongs i h k (withdraw j s).1
    unfolding withdraw ◌>>=◌ forget send
    withdraw-Belongs j s b = put-Belongs j (record (s.tasks j) { channel = _ }) s refl refl b

    admit-Belongs : (g l : Object) (s : EventLoop W) → Belongs i h k s → Belongs i h k (admit g l s)
    unfolding admit allocate enlist
    admit-Belongs g l s (old, mine, args) =
        (omega arith, ground (arith, ==_iff i s.task_count), ground (arith, ==_iff i s.task_count))

    Acts-Belongs : {s t : EventLoop W} → Acts s t → Belongs i h k s → Belongs i h k t
    Acts-Belongs here b = b
    Acts-Belongs (runs a w) b = Acts-Belongs a b
    Acts-Belongs (requests {t = t} a j m f) b = with_state-Belongs j _ t (Acts-Belongs a b)
    Acts-Belongs (demands {t = t} a j) b = demand_cancel-Belongs j t (Acts-Belongs a b)
    Acts-Belongs (withdraws {t = t} a j) b = with_state-Belongs j _ t (Acts-Belongs a b)
    Acts-Belongs (pushes {t = t} a j callback context f) b =
        with_state-Belongs j _ t (Acts-Belongs a b)
    Acts-Belongs (removes {t = t} a j equal callback) b =
        with_state-Belongs j _ t (Acts-Belongs a b)
    Acts-Belongs (names {t = t} a j text) b = with_state-Belongs j _ t (Acts-Belongs a b)
    Acts-Belongs (admits {t = t} a g l) b = admit-Belongs g l t (Acts-Belongs a b)
    Acts-Belongs (refuses {t = t} a j) b = withdraw-Belongs j t (Acts-Belongs a b)
    Acts-Belongs (frees {t = t} a j) b = drop-Belongs j t (Acts-Belongs a b)

module _ {W : Type 0} (py : Python W) (law : Lawful py) (i : TaskId) (h k : Object) where
  -- The request waits on task `i`. Either the task has this handler with these arguments, and its
  -- first step was posted to the loop, as the last thing; or the request has no task, because the
  -- object could not be made or the loop refused it, and waits for nothing.
  abbrev pub IsPosted : DispatchedRequest × EventLoop W → Type 0
  IsPosted (request, s') =
      (request.response_receiver ≡ i)
      × (((request.task ≡ some i)
            × (Belongs i h k s'
                × ((t : EventLoop W) × (v : Object) × (Belongs i h k t)
                    × (py.call (call_soon_threadsafe i) t ≡ (ok v, s')))))
          ⊎ ((request.task ≡ none) × (is_waiting (channel_of i s') ≡ false)))

  hand_over-IsPosted : (t : EventLoop W) → Belongs i h k t → IsPosted (hand_over py i t)
  unfolding hand_over ◌>>=◌ failed
  hand_over-IsPosted t b =
      answered (py.call (call_soon_threadsafe i) t).0 (py.call (call_soon_threadsafe i) t).1 refl
        (Acts-Belongs i h k (law.call_acts (call_soon_threadsafe i) t) b)
    where
      answered :
          (answer : Answer) (u : EventLoop W)
          → py.call (call_soon_threadsafe i) t ≡ (answer, u)
          → Belongs i h k u
          → IsPosted (
              on_answer answer
                (λ _. pure (record { response_receiver = i; task = some i }))
                (λ e. do print py e; withdraw i; pure (failed i))
                u)
      answered (ok v) u e c = (refl, inl (refl, (c, (t, v, b, e))))
      answered (error e) u q c = (refl, inr (refl, (withdraw-Closes i).at (print py e u).1))

  enlist-Belongs : (t : EventLoop W) → Belongs i h k t → Belongs i h k (enlist i t).1
  unfolding enlist
  enlist-Belongs t b = b

  drop-waits :
      (e : Object) (t : EventLoop W)
      → i < t.task_count
      → is_waiting (channel_of i (print py e (drop i t).1).1) ≡ false
  drop-waits e t old =
      Advances-closed i ((print-Keeps py law e).at (drop i t).1).advances (unfold drop in old)
        ((drop-Closes i).at t)

  place-IsPosted : (t : EventLoop W) → Belongs i h k t → IsPosted (place py i t)
  unfolding place ◌>>=◌ failed
  place-IsPosted t b =
      answered (py.call new_task t).0 (py.call new_task t).1
        (Acts-Belongs i h k (law.call_acts new_task t) b)
    where
      answered :
          (answer : Answer) (u : EventLoop W)
          → Belongs i h k u
          → IsPosted (
              on_answer answer
                (λ _. do enlist i; hand_over py i)
                (λ e. do drop i; print py e; pure (failed i))
                u)
      answered (ok v) u c = hand_over-IsPosted (enlist i u).1 (enlist-Belongs u c)
      answered (error e) u c = (refl, inr (refl, drop-waits e u c.0))

module _ {W : Type 0} (py : Python W) (law : Lawful py) where
  -- `schedule` makes a task of this handler with these arguments and posts its first step, or
  -- resolves the request.
  pub schedule-IsPosted :
      (h k : Object) (s : EventLoop W) → IsPosted py law s.task_count h k (schedule py h k s)
  unfolding schedule ◌>>=◌ allocate
  schedule-IsPosted h k s = place-IsPosted py law s.task_count h k (allocate h k s).1 (
    omega arith,
    ground (arith, ==_iff s.task_count s.task_count),
    ground (arith, ==_iff s.task_count s.task_count),
  )
