-- ===== src/Dispatch/Progress/Loops.antt =====
-- Scheduling, cancelling and stopping a loop.
use native.Mathlib.Decide.{ℕ_discrete}
use rayo.Base.{sym, subst, false, pure, ◌>>=◌, ◌>>◌, List, [], ◌∷◌}
use rayo.Dispatch.Types.{Object, TaskId, EventLoop}
use rayo.Dispatch.Python.{Python, new_task, print}
use rayo.Dispatch.Channel.{drop}
use rayo.Dispatch.Finish.{dispose}
use rayo.Dispatch.Loop.{
  DispatchedRequest, failed, allocate, enlist, hand_over, place, schedule, post_cancel,
  post_cancels, cancel_in_flight, take_thread, dispose_all, stop_thread, drop_request,
}
use rayo.Dispatch.Later.{
  Later, IsListed, Keeps, keeps_rules, Later-refl, Later-trans, Advances-trans, Keeps-bind, Lists,
  Lists-bind, Lists-answer, Lists-Keeps, Lists-Closes,
}
use rayo.Dispatch.Later.Moves.{
  allocate-Advances, allocate-IsSettled, allocate-IsListed_ne, enlist-Later, enlist-IsListed,
  same_tasks-Later,
}
use rayo.Dispatch.Later.Slots.{drop-Later, drop-Closes}
use rayo.Dispatch.Acts.{Lawful, Runs, start, acts, turns, Acts-Later, withdraw-Keeps}
use rayo.Dispatch.Progress.Calls.{call-Keeps, print-Keeps, call_or_print-Keeps, dispose-Keeps}
use rayo.Dispatch.Progress.Tasks.{turn-Keeps}

module _ {W : Type 0} (py : Python W) (law : Lawful py) where
  -- Whatever the loop's thread did until it was joined.
  pub Runs-Later : {s t : EventLoop W} → Runs py s t → Later s t
  Runs-Later {s} start = Later-refl s
  Runs-Later (acts r a) = Later-trans (Runs-Later r) (Acts-Later a)
  Runs-Later (turns {t = t} r i f) = Later-trans (Runs-Later r) ((turn-Keeps py law i f).at t)

  join-Keeps : Keeps py.join_thread
  join-Keeps = record { at = λ s. Runs-Later (law.join_runs s) }

  take_thread-Keeps : Keeps (take_thread {W = W})
  unfolding take_thread
  take_thread-Keeps = record { at = λ s. same_tasks-Later s s.world false }

  ruleset calls =
      (keeps_rules, call-Keeps, print-Keeps, call_or_print-Keeps, dispose-Keeps, join-Keeps)

  post_cancel-Keeps : (i : TaskId) → Keeps (post_cancel py i)
  unfolding post_cancel
  post_cancel-Keeps i = search calls depth 9

  post_cancels-Keeps : (tasks : List TaskId) → Keeps (post_cancels py tasks)
  unfolding post_cancels
  post_cancels-Keeps [] = search calls
  post_cancels-Keeps (i ∷ rest) =
      Keeps-bind (post_cancel py i) (λ _. post_cancels py rest) (post_cancel-Keeps i)
        (λ _. post_cancels-Keeps rest)

  pub cancel_in_flight-Keeps : Keeps (cancel_in_flight py)
  unfolding cancel_in_flight
  cancel_in_flight-Keeps = search (calls, post_cancels-Keeps)

  pub drop_request-Keeps : (request : DispatchedRequest) → Keeps (drop_request py request)
  unfolding drop_request
  drop_request-Keeps request = search (calls, post_cancel-Keeps) depth 9

  pub dispose_all-Keeps : (tasks : List TaskId) → Keeps (dispose_all py tasks)
  unfolding dispose_all
  dispose_all-Keeps [] = search calls
  dispose_all-Keeps (i ∷ rest) =
      Keeps-bind (dispose py i) (λ _. dispose_all py rest) (dispose-Keeps py law i)
        (λ _. dispose_all-Keeps rest)

  hand_over-Keeps : (i : TaskId) → Keeps (hand_over py i)
  unfolding hand_over
  hand_over-Keeps i = search (calls, withdraw-Keeps) depth 9

  pub place-Keeps : (i : TaskId) → Keeps (place py i)
  unfolding place
  place-Keeps i = search (calls, enlist-Later, hand_over-Keeps, drop-Later) depth 9

  enlist-Lists : (i : TaskId) → Lists i (enlist {W = W} i)
  enlist-Lists i = record { at = enlist-IsListed i }

  refused-Keeps : (i : TaskId) (e : Object) → Keeps (print py e >> pure (failed i))
  refused-Keeps i e = search calls

  -- However it goes, the task that was made is registered or needs no response any more.
  place-Lists : (i : TaskId) → Lists i (place py i)
  unfolding place
  place-Lists i = Lists-bind (py.call new_task) _ λ made.
      Lists-answer made _ _
        (λ _. Lists-Keeps (enlist i) _ (enlist-Lists i) (λ _. hand_over-Keeps i))
        (λ e. Lists-Closes (drop i) _ (drop-Closes i) (λ _. refused-Keeps i e))

  pub schedule-Keeps : (h k : Object) → Keeps (schedule py h k)
  unfolding schedule ◌>>=◌
  schedule-Keeps h k = record {
    at = λ s.
        let made = (allocate h k s).1 in
        let placed = (place-Keeps s.task_count).at made in
        record {
          advances = Advances-trans (allocate-Advances h k s) placed.advances;
          listed = λ j l. elim (ℕ_discrete j s.task_count) [
            | yes e ↦
                subst (λ i. IsListed i (place py s.task_count made).1) (sym e)
                  ((place-Lists s.task_count).at made)
            | no ne ↦ placed.listed j (allocate-IsListed_ne h k s j ne l)
          ];
          settled = λ j l. placed.settled j (allocate-IsSettled h k s j l);
        };
  }

  pub stop_thread-Keeps : Keeps (stop_thread py)
  unfolding stop_thread
  stop_thread-Keeps = search (calls, take_thread-Keeps) depth 9
