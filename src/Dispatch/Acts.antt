-- ===== src/Dispatch/Acts.antt =====
-- What is assumed of Python: whatever code a call runs, and whatever other threads do meanwhile,
-- reaches the tasks only through the crate's own entry points. Each entry point is taken at its
-- lock sections, since a thread may be stopped between two of them.
use rayo.Base.{◌≡◌, refl, Bool, true, false, Option, some, ◌>>=◌, subst, sym}
use native.Mathlib.Decide.{ℕ_discrete}
use rayo.Dispatch.Types.{Object, TaskId, internal_error, EventLoop}
use rayo.Dispatch.Python.{Python, Call, NewError, task_state, with_state}
use rayo.Dispatch.Channel.{send, drop}
use rayo.Dispatch.Finish.{forget}
use rayo.Dispatch.Cancel.{request_cancel, withdraw_cancel, demand_cancel}
use rayo.Dispatch.Accessors.{push_callback, drop_callback}
use rayo.Dispatch.Turn.{turn}
use rayo.Dispatch.Loop.{allocate, enlist, withdraw}
use rayo.Dispatch.Later.{
  keeps_rules, Later, IsListed, Keeps, Closes, closes_rules, Later-refl, Later-trans,
  Advances-trans,
}
use rayo.Dispatch.Later.Moves.{
  with_state-Later, allocate-Advances, allocate-IsSettled, allocate-IsListed_ne, enlist-Later,
  forget-Advances, forget-IsListed_ne, forget-IsSettled, enlist-IsListed, same_tasks-Later,
}
use rayo.Dispatch.Later.Slots.{send-Later, drop-Later, send-closes, send-Closes}

module _ {W : Type 0} where
  -- A section of `schedule`: a new task, in the registry. (Where it fails: `refuses`, `frees`.)
  unfoldable pub admit : Object → Object → EventLoop W → EventLoop W
  unfolding allocate enlist
  admit h k s = (enlist s.task_count (allocate h k s).1).1

  pub data Acts (s : EventLoop W) : EventLoop W → Type 0 where
    here : Acts s s
    runs : {t : EventLoop W} → Acts s t → (w : W) → Acts s (record t { world = w })
    requests :
        {t : EventLoop W}
        → Acts s t
        → (i : TaskId) (message : Option Object) → (task_state i t).finished ≡ false
        → Acts s (with_state i (request_cancel message) t).1
    demands : {t : EventLoop W} → Acts s t → (i : TaskId) → Acts s (demand_cancel i t).1
    withdraws :
        {t : EventLoop W} → Acts s t → (i : TaskId) → Acts s (with_state i withdraw_cancel t).1
    pushes :
        {t : EventLoop W}
        → Acts s t
        → (i : TaskId) (callback context : Object) → (task_state i t).finished ≡ false
        → Acts s (with_state i (push_callback callback context) t).1
    removes :
        {t : EventLoop W}
        → Acts s t
        → (i : TaskId) (equal : Object → Object → Bool) (callback : Object)
        → Acts s (with_state i (drop_callback equal callback) t).1
    names :
        {t : EventLoop W}
        → Acts s t
        → (i : TaskId) (text : Object)
        → Acts s (with_state i (λ u. record u { name = some text }) t).1
    admits : {t : EventLoop W} → Acts s t → (h k : Object) → Acts s (admit h k t)
    refuses : {t : EventLoop W} → Acts s t → (i : TaskId) → Acts s (withdraw i t).1
    frees : {t : EventLoop W} → Acts s t → (i : TaskId) → Acts s (drop i t).1

module _ {W : Type 0} (py : Python W) where
  -- The loop's own thread besides takes turns.
  pub data Runs (s : EventLoop W) : EventLoop W → Type 0 where
    start : Runs s s
    acts : {t u : EventLoop W} → Runs s t → Acts t u → Runs s u
    turns :
        {t : EventLoop W}
        → Runs s t
        → (i : TaskId) (finished_future : Option Object) → Runs s (turn py i finished_future t).1

  pub record Lawful : Type 0 where
    pub call_acts : (c : Call) (s : EventLoop W) → Acts s (py.call c s).1
    pub send_acts : (coroutine : Object) (s : EventLoop W) → Acts s (py.send coroutine s).1
    pub truth_acts : (object : Object) (s : EventLoop W) → Acts s (py.is_truthy object s).1
    pub error_acts : (kind : NewError) (s : EventLoop W) → Acts s (py.new_error kind s).1
    pub join_runs : (s : EventLoop W) → Runs s (py.join_thread s).1

module _ {W : Type 0} where
  pub demand_cancel-Later : (i : TaskId) → Keeps (demand_cancel {W = W} i)
  unfolding demand_cancel
  demand_cancel-Later i = search (
    keeps_rules,
    with_state-Later i (λ u. record u { must_cancel = true }) (λ t. (refl, refl, refl, refl, refl)),
  )

  admit-Later : (h k : Object) (s : EventLoop W) → Later s (admit h k s)
  unfolding admit
  admit-Later h k s =
      let made = (allocate h k s).1 in
      let placed = (enlist-Later s.task_count).at made in
      record {
        advances = Advances-trans (allocate-Advances h k s) placed.advances;
        listed = λ j l. elim (ℕ_discrete j s.task_count) [
          | yes e ↦
              subst (λ k. IsListed k (enlist s.task_count made).1) (sym e)
                (enlist-IsListed s.task_count made)
          | no ne ↦ placed.listed j (allocate-IsListed_ne h k s j ne l)
        ];
        settled = λ j l. placed.settled j (allocate-IsSettled h k s j l);
      }

  withdraw-Later : (i : TaskId) (s : EventLoop W) → Later s (withdraw i s).1
  unfolding withdraw ◌>>=◌
  withdraw-Later i s =
      let gone = (forget i s).1 in
      let closed = (send-Later i internal_error).at gone in
      record {
        advances = Advances-trans (forget-Advances i s) closed.advances;
        listed = λ j l. elim (ℕ_discrete j i) [
          | yes e ↦
              subst (λ k. IsListed k (send i internal_error gone).1) (sym e)
                (λ w. cc (send-closes i internal_error gone))
          | no ne ↦ closed.listed j (forget-IsListed_ne i s j ne l)
        ];
        settled = λ j l. closed.settled j (forget-IsSettled i s j l);
      }

  pub withdraw-Keeps : (i : TaskId) → Keeps (withdraw {W = W} i)
  withdraw-Keeps i = record { at = withdraw-Later i }

  pub withdraw-Closes : (i : TaskId) → Closes i (withdraw {W = W} i)
  unfolding withdraw
  withdraw-Closes i = search (closes_rules, send-Closes)

  pub request_cancel-Later :
      (i : TaskId) (m : Option Object) → Keeps (with_state {W = W} i (request_cancel m))
  unfolding request_cancel
  request_cancel-Later i m =
      with_state-Later i (request_cancel m) (λ t. (refl, refl, refl, refl, refl))

  pub withdraw_cancel-Later : (i : TaskId) → Keeps (with_state {W = W} i withdraw_cancel)
  unfolding withdraw_cancel
  withdraw_cancel-Later i = with_state-Later i withdraw_cancel (λ t. (refl, refl, refl, refl, refl))

  pub push_callback-Later :
      (i : TaskId) (callback context : Object)
      → Keeps (with_state {W = W} i (push_callback callback context))
  unfolding push_callback
  push_callback-Later i callback context =
      with_state-Later i (push_callback callback context) (λ t. (refl, refl, refl, refl, refl))

  pub drop_callback-Later :
      (i : TaskId) (equal : Object → Object → Bool) (callback : Object)
      → Keeps (with_state {W = W} i (drop_callback equal callback))
  unfolding drop_callback
  drop_callback-Later i equal callback =
      with_state-Later i (drop_callback equal callback) (λ t. (refl, refl, refl, refl, refl))

  pub name-Later :
      (i : TaskId) (text : Object)
      → Keeps (with_state {W = W} i (λ u. record u { name = some text }))
  name-Later i text =
      with_state-Later i (λ u. record u { name = some text }) (λ t. (refl, refl, refl, refl, refl))

  pub Acts-Later : {s t : EventLoop W} → Acts s t → Later s t
  Acts-Later {s} here = Later-refl s
  Acts-Later (runs {t = t} a w) = Later-trans (Acts-Later a) (same_tasks-Later t w t.thread)
  Acts-Later (requests {t = t} a i m f) =
      Later-trans (Acts-Later a) ((request_cancel-Later i m).at t)
  Acts-Later (demands {t = t} a i) = Later-trans (Acts-Later a) ((demand_cancel-Later i).at t)
  Acts-Later (withdraws {t = t} a i) = Later-trans (Acts-Later a) ((withdraw_cancel-Later i).at t)
  Acts-Later (pushes {t = t} a i callback context f) =
      Later-trans (Acts-Later a) ((push_callback-Later i callback context).at t)
  Acts-Later (removes {t = t} a i equal callback) =
      Later-trans (Acts-Later a) ((drop_callback-Later i equal callback).at t)
  Acts-Later (names {t = t} a i text) = Later-trans (Acts-Later a) ((name-Later i text).at t)
  Acts-Later (admits {t = t} a h k) = Later-trans (Acts-Later a) (admit-Later h k t)
  Acts-Later (refuses {t = t} a i) = Later-trans (Acts-Later a) (withdraw-Later i t)
  Acts-Later (frees {t = t} a i) = Later-trans (Acts-Later a) ((drop-Later i).at t)
