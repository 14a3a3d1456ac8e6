-- ===== src/Dispatch/Soundness/Stop.antt =====
-- `EventLoop::stop`, and what a sound loop is.
use rayo.Base.{
  ℕ, zero, suc, ◌%◌, ◌<◌, ◌≡◌, refl, subst, sym, ◌∙◌, inl, inr, true, false, ◌>>=◌, List, [], ◌∷◌,
  contains, Bool-cases, ◌==◌, ==_iff, ap, ltb, ltb→lt, ltb→le, arith,
}
use rayo.Dispatch.Types.{TaskId, HandlerTask, EventLoop}
use rayo.Dispatch.Python.{Python}
use rayo.Dispatch.Channel.{word, channel_of}
use rayo.Dispatch.Finish.{dispose}
use rayo.Dispatch.Loop.{drain, dispose_all, stop_thread, stop}
use rayo.Dispatch.Later.{
  is_waiting, waiting_count, IsBalanced, IsListed, IsSettled, Advances, Later, Advances-closed,
  Advances-trans,
}
use rayo.Dispatch.Acts.{Lawful}
use rayo.Dispatch.Progress.Calls.{dispose-Keeps, dispose-Closes}
use rayo.Dispatch.Progress.Loops.{dispose_all-Keeps, stop_thread-Keeps}

-- The gauge is right, and each task that owes a response can still be reached.
pub record IsSound {W : Type 0} (s : EventLoop W) : Type 0 where
  pub balanced : IsBalanced s
  pub listed : (j : TaskId) → IsListed j s
  pub settled : (j : TaskId) → IsSettled j s

waiting_count-zero :
    (tasks : ℕ → HandlerTask) (n : ℕ)
    → ((j : ℕ) → j < n → is_waiting (tasks j).channel ≡ false)
    → waiting_count tasks n ≡ 0
waiting_count-zero tasks zero h = refl
waiting_count-zero tasks (suc n) h =
    ground (arith, h n (omega arith), waiting_count-zero tasks n (λ j l. h j (omega arith)))

module _ {W : Type 0} where
  pub Later-IsSound : {s t : EventLoop W} → Later s t → IsSound s → IsSound t
  Later-IsSound l h = record {
    balanced = l.advances.balanced h.balanced;
    listed = λ j. l.listed j (h.listed j);
    settled = λ j. l.settled j (h.settled j);
  }

  drain-Advances : (s : EventLoop W) → Advances s (drain s).1
  unfolding drain
  drain-Advances s = record {
    grows = omega arith;
    balanced = λ b. record { counted = b.counted; fresh = b.fresh };
    answered = λ j h c. refl;
    ended = λ j h f. (refl, refl, refl, refl, refl);
  }

  drain-count : (s : EventLoop W) → (drain s).1.task_count ≡ s.task_count
  unfolding drain
  drain-count s = refl

  drain-IsSettled : (s : EventLoop W) (j : TaskId) → IsSettled j s → IsSettled j (drain s).1
  unfolding drain
  drain-IsSettled s j h = h

  -- A task that is not in the list that was drained owes no response.
  drain-covers :
      (s : EventLoop W)
      → IsSound s
      → (j : TaskId) → contains j (drain s).0 ≡ false
      → is_waiting (channel_of j (drain s).1) ≡ false
  unfolding drain
  drain-covers s h j out = ground (arith, h.listed j, h.settled j)

module _ {W : Type 0} (py : Python W) (law : Lawful py) where
  dispose_all-closes :
      (tasks : List TaskId) (j : TaskId) (s : EventLoop W)
      → j < s.task_count
      → contains j tasks ≡ true
      → is_waiting (channel_of j (dispose_all py tasks s).1) ≡ false
  unfolding dispose_all ◌>>=◌
  dispose_all-closes [] j s h c = cc
  dispose_all-closes (i ∷ rest) j s h c =
      let s' = (dispose py i s).1 in
      let first = ((dispose-Keeps py law i).at s).advances in
      let others = ((dispose_all-Keeps py law rest).at s').advances in
      elim (Bool-cases (j == i)) [
        | inl e ↦ Advances-closed j others (omega (arith, first.grows)) (
            subst (λ k. is_waiting (channel_of k s') ≡ false) (sym ((==_iff j i).0 e))
              ((dispose-Closes py law i).at s))
        | inr ne ↦ dispose_all-closes rest j s' (omega (arith, first.grows)) (ground arith)
      ]

  -- Disposing of all that is registered resolves every request that there is.
  sweep : EventLoop W → EventLoop W
  sweep s = (dispose_all py (drain s).0 (drain s).1).1

  sweep-resolves :
      (s : EventLoop W)
      → IsSound s
      → (j : TaskId) → j < s.task_count
      → is_waiting (channel_of j (sweep s)) ≡ false
  unfolding sweep
  sweep-resolves s h j old = elim (Bool-cases (contains j (drain s).0)) [
    | inl inside ↦
        dispose_all-closes (drain s).0 j (drain s).1 (omega (arith, drain-count s)) inside
    | inr out ↦
        Advances-closed j ((dispose_all-Keeps py law (drain s).0).at (drain s).1).advances
          (omega (arith, drain-count s)) (drain-covers s h j out)
  ]

  sweep-IsListed : (s : EventLoop W) → IsSound s → (j : TaskId) → IsListed j (sweep s)
  unfolding sweep drain
  sweep-IsListed s h j = elim (Bool-cases (ltb j s.task_count)) [
    | inl old ↦ λ w u. cc (sweep-resolves s h j (ltb→lt j s.task_count old))
    | inr new ↦
        ((dispose_all-Keeps py law s.live_tasks).at (drain s).1).listed j
          (λ w u. cc (h.balanced.fresh j (ltb→le j s.task_count new)))
  ]

  sweep-IsSound : (s : EventLoop W) → IsSound s → IsSound (sweep s)
  unfolding sweep
  sweep-IsSound s h =
      let swept = (dispose_all-Keeps py law (drain s).0).at (drain s).1 in
      record {
        balanced = swept.advances.balanced ((drain-Advances s).balanced h.balanced);
        listed = sweep-IsListed s h;
        settled = λ j. swept.settled j (drain-IsSettled s j (h.settled j));
      }

  stop-sweep : (s : EventLoop W) → (stop py s).1 ≡ sweep (stop_thread py s).1
  unfolding stop sweep ◌>>=◌
  stop-sweep s = refl

  -- After `stop` on a sound loop, every request that was dispatched before it has its response, or had its channel
  -- dropped: none waits.
  pub stop-resolves :
      (s : EventLoop W)
      → IsSound s
      → (j : TaskId) → j < s.task_count
      → is_waiting (channel_of j (stop py s).1) ≡ false
  stop-resolves s h j old =
      let before = (stop_thread-Keeps py law).at s in
      rw (stop-sweep s) (
        sweep-resolves (stop_thread py s).1 (Later-IsSound before h) j
          (omega (arith, before.advances.grows)))

  pub stop-IsSound : (s : EventLoop W) → IsSound s → IsSound (stop py s).1
  stop-IsSound s h =
      rw (stop-sweep s)
        (sweep-IsSound (stop_thread py s).1 (Later-IsSound ((stop_thread-Keeps py law).at s) h))

  sweep-Advances : (s : EventLoop W) → Advances s (sweep s)
  unfolding sweep
  sweep-Advances s =
      Advances-trans (drain-Advances s)
        ((dispose_all-Keeps py law (drain s).0).at (drain s).1).advances

  pub stop-Advances : (s : EventLoop W) → Advances s (stop py s).1
  stop-Advances s = rw (stop-sweep s) (
      Advances-trans ((stop_thread-Keeps py law).at s).advances
        (sweep-Advances (stop_thread py s).1))

  -- When a sound loop is stopped and no request comes in meanwhile, the gauge ends at zero.
  stop-idle :
      (s : EventLoop W)
      → IsSound s
      → (stop py s).1.task_count ≡ s.task_count
      → (stop py s).1.in_flight ≡ 0
  stop-idle s h same =
      (stop-IsSound s h).balanced.counted
      ∙ ap (λ (n : ℕ). n % word)
          (waiting_count-zero (stop py s).1.tasks (stop py s).1.task_count
            (λ j l. stop-resolves s h j (omega arith)))
