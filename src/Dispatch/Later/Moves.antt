-- ===== src/Dispatch/Later/Moves.antt =====
-- The crate's lock sections against the order of Dispatch/Later.antt, one by one.
use rayo.Base.{
  ==_iff, ℕ, ◌%◌, ◌≡◌, refl, ap, ◌∙◌, sym, ◌≢◌, Bool, true, false, contains-remove_key, arith,
}
use rayo.Dispatch.Types.{
  Object, TaskId, waiting, TaskState, default, CompletionKind, value, HandlerTask, EventLoop,
}
use rayo.Dispatch.Python.{put_task, task_state, with_state}
use rayo.Dispatch.Channel.{word}
use rayo.Dispatch.Finish.{mark_finished, forget}
use rayo.Dispatch.Loop.{allocate, enlist}
use rayo.Dispatch.Later.{IsBalanced, IsListed, IsSettled, SameEnd, Advances, Later, Keeps}
use rayo.Dispatch.Later.Count.{waiting_count-update_same, waiting_count-update_above}

abbrev fresh_task : Object → Object → HandlerTask
fresh_task h k = record {
  handler = h;
  handler_kwargs = k;
  channel = waiting;
  state = unfold default in default;
}

module _ {W : Type 0} where
  -- What a change of a task's state leaves there.
  pub with_state-same :
      (i : TaskId) (f : TaskState → TaskState) (s : EventLoop W)
      → task_state i (with_state i f s).1 ≡ f (task_state i s)
  unfolding with_state
  with_state-same i f s = ground (arith, ==_iff i i)

  -- A new state for one task, its channel left alone.
  put_state-IsBalanced :
      (s : EventLoop W) (i : TaskId) (u : TaskState)
      → IsBalanced s
      → IsBalanced (put_task i (record (s.tasks i) { state = u }) s)
  put_state-IsBalanced s i u b = record {
    counted =
        b.counted
        ∙ ap (λ (n : ℕ). n % word)
            (sym (
              waiting_count-update_same s.tasks i (record (s.tasks i) { state = u }) s.task_count
                refl));
    fresh = λ j h. ground (arith, b.fresh j h);
  }

  put_state-Advances :
      (s : EventLoop W) (i : TaskId) (u : TaskState)
      → ((task_state i s).finished ≡ true → SameEnd (task_state i s) u)
      → Advances s (put_task i (record (s.tasks i) { state = u }) s)
  put_state-Advances s i u same = record {
    grows = omega arith;
    balanced = put_state-IsBalanced s i u;
    answered = λ j h c. ground arith;
    ended = λ j h f. ground (arith, same);
  }

  pub with_state-Later :
      (i : TaskId) (f : TaskState → TaskState)
      → ((t : TaskState) → SameEnd t (f t))
      → Keeps (with_state {W = W} i f)
  unfolding with_state
  with_state-Later i f same = record {
    at = λ s. record {
      advances = put_state-Advances s i (f (task_state i s)) (λ _. same (task_state i s));
      listed = λ j h. ground (arith, h, same (task_state i s));
      settled = λ j h. ground (arith, h, same (task_state i s));
    };
  }

  -- The first lock of `finish`, on a task that is not finished.
  pub mark_finished-Advances :
      (i : TaskId) (c : CompletionKind) (s : EventLoop W)
      → (task_state i s).finished ≡ false
      → Advances s (with_state i (mark_finished c) s).1
  unfolding with_state
  mark_finished-Advances i c s open_task =
      put_state-Advances s i (mark_finished c (task_state i s)) (λ f. cc)

  pub mark_finished-IsListed :
      (i : TaskId) (c : CompletionKind) (s : EventLoop W) (j : TaskId)
      → IsListed j s
      → IsListed j (with_state i (mark_finished c) s).1
  unfolding with_state mark_finished
  mark_finished-IsListed i (value v) s j h = ground (arith, h)
  mark_finished-IsListed i _ s j h = ground (arith, h)

  pub mark_finished-finished :
      (i : TaskId) (c : CompletionKind) (s : EventLoop W)
      → (task_state i (with_state i (mark_finished c) s).1).finished ≡ true
  unfolding with_state mark_finished
  mark_finished-finished i (value v) s = ground arith
  mark_finished-finished i _ s = ground arith

  pub with_state-IsSettled_ne :
      (i j : TaskId) (f : TaskState → TaskState) (s : EventLoop W)
      → j ≢ i
      → IsSettled j s
      → IsSettled j (with_state i f s).1
  unfolding with_state
  with_state-IsSettled_ne i j f s ne h = ground (arith, h)

  pub forget-Advances : (i : TaskId) (s : EventLoop W) → Advances s (forget i s).1
  unfolding forget
  forget-Advances i s = record {
    grows = omega arith;
    balanced = λ b. record { counted = b.counted; fresh = b.fresh };
    answered = λ j h c. refl;
    ended = λ j h f. (refl, refl, refl, refl, refl);
  }

  pub forget-IsListed_ne :
      (i : TaskId) (s : EventLoop W) (j : TaskId) → j ≢ i → IsListed j s → IsListed j (forget i s).1
  unfolding forget
  forget-IsListed_ne i s j ne h w u = contains-remove_key i j s.live_tasks ne (h w u)

  pub forget-IsSettled :
      (i : TaskId) (s : EventLoop W) (j : TaskId) → IsSettled j s → IsSettled j (forget i s).1
  unfolding forget
  forget-IsSettled i s j h = h

  -- A finished task may leave the registry.
  pub forget-Later :
      (i : TaskId) (s : EventLoop W) → (task_state i s).finished ≡ true → Later s (forget i s).1
  unfolding forget
  forget-Later i s f = record {
    advances = forget-Advances i s;
    listed = λ j h w u.
        contains-remove_key i j s.live_tasks
          (λ (e : j ≡ i). ground (arith, ap (λ k. (task_state k s).finished) e)) (h w u);
    settled = λ j h. h;
  }

  allocate-IsBalanced :
      (h k : Object) (s : EventLoop W) → IsBalanced s → IsBalanced (allocate h k s).1
  unfolding allocate
  allocate-IsBalanced h k s b = record {
    counted = ground (
      arith,
      b.counted,
      waiting_count-update_above s.tasks s.task_count (fresh_task h k) s.task_count,
    );
    fresh = λ j l. ground (arith, b.fresh j);
  }

  -- A new task, with its channel open and not in the registry yet.
  pub allocate-Advances : (h k : Object) (s : EventLoop W) → Advances s (allocate h k s).1
  unfolding allocate
  allocate-Advances h k s = record {
    grows = omega arith;
    balanced = allocate-IsBalanced h k s;
    answered = λ j l c. ground arith;
    ended = λ j l f. ground arith;
  }

  pub allocate-IsSettled :
      (h k : Object) (s : EventLoop W) (j : TaskId) → IsSettled j s → IsSettled j (allocate h k s).1
  unfolding allocate
  allocate-IsSettled h k s j settled = ground (arith, settled)

  pub allocate-IsListed_ne :
      (h k : Object) (s : EventLoop W) (j : TaskId)
      → j ≢ s.task_count
      → IsListed j s
      → IsListed j (allocate h k s).1
  unfolding allocate
  allocate-IsListed_ne h k s j ne listed = ground (arith, listed)

  pub enlist-Later : (i : TaskId) → Keeps (enlist {W = W} i)
  unfolding enlist
  enlist-Later i = record {
    at = λ s. record {
      advances = record {
        grows = omega arith;
        balanced = λ b. record { counted = b.counted; fresh = b.fresh };
        answered = λ j h c. refl;
        ended = λ j h f. (refl, refl, refl, refl, refl);
      };
      listed = λ j h w u. ground (arith, contains-remove_key i j s.live_tasks, h w u);
      settled = λ j h. h;
    };
  }

  pub enlist-IsListed : (i : TaskId) (s : EventLoop W) → IsListed i (enlist i s).1
  unfolding enlist
  enlist-IsListed i s w u = ground arith

  -- Nothing of the tasks or the registry changes.
  pub same_tasks-Later :
      (s : EventLoop W) (w : W) (running : Bool)
      → Later s (record s { world = w; thread = running })
  same_tasks-Later s w running = record {
    advances = record {
      grows = omega arith;
      balanced = λ b. record { counted = b.counted; fresh = b.fresh };
      answered = λ j h c. refl;
      ended = λ j h f. (refl, refl, refl, refl, refl);
    };
    listed = λ j h. h;
    settled = λ j h. h;
  }
