-- ===== src/Dispatch/Pool/Sound.antt =====
-- The pool as a whole: starting, scheduling and stopping, and the soundness of its loops.
use rayo.Base.{
  ℕ, zero, suc, ◌+◌, ◌≤◌, ◌<◌, ◌≡◌, refl, ap, subst, get_elem?, false, Option, none, some, List, [],
  ◌∷◌, length, arith,
}
use mathlib.Core.Option.{some_inj}
use rayo.Dispatch.Types.{Object, TaskId, EventLoop}
use rayo.Dispatch.Python.{Python}
use rayo.Dispatch.Channel.{word, increment, channel_of}
use rayo.Dispatch.Loop.{DispatchedRequest}
use rayo.Dispatch.Later.{is_waiting}
use rayo.Dispatch.Acts.{Lawful}
use rayo.Dispatch.Progress.Loops.{schedule-Keeps, cancel_in_flight-Keeps}
use rayo.Dispatch.Soundness.Stop.{IsSound, Later-IsSound, stop-IsSound, stop-resolves}
use rayo.Dispatch.Soundness.History.{new_loop-IsSound}
use rayo.Dispatch.Pool.Select.{select, select-least}
use rayo.Dispatch.Pool.Start.{
  Host, Started, ok, error, enter, leave, register, unregister, no_thread, missing_hook, ◌>>=◌,
  check, or_fail, start_loop, start_loops, start_pool,
}
use rayo.Dispatch.Pool.Fleet.{
  EventLoopPool, size, load_at, schedule_at, schedule_pool, cancel_pool, stop_pool,
}

abbrev pub AllSound : {W : Type 0} → List (EventLoop W) → Type 0
AllSound [] = Unit {0}
AllSound (event_loop ∷ rest) = IsSound event_loop × AllSound rest

pub AllSound-at :
    {W : Type 0} (loops : List (EventLoop W)) (k : ℕ) (s : EventLoop W)
    → AllSound loops
    → get_elem? loops k ≡ some s
    → IsSound s
AllSound-at [] k s sound e = cc
AllSound-at (t ∷ rest) zero s sound e = subst IsSound (some_inj.0 e) sound.0
AllSound-at (t ∷ rest) (suc k) s sound e = AllSound-at rest k s sound.1 e

-- Every request that a loop had before is resolved after.
abbrev pub AllResolved : {W : Type 0} → List (EventLoop W) → List (EventLoop W) → Type 0
AllResolved [] ts = Unit {0}
AllResolved (s ∷ ss) [] = ⊥
AllResolved (s ∷ ss) (t ∷ ts) =
    ((j : TaskId) → j < s.task_count → is_waiting (channel_of j t) ≡ false) × AllResolved ss ts

-- Whatever a start-up gives, if it gives anything, satisfies `P`.
abbrev Gives : {A : Type 0} → (A → Type 0) → Started A → Type 0
Gives P (ok a) = P a
Gives P (error e) = Unit

Gives-bind :
    {A B : Type 0} (P : B → Type 0) (m : Started A) (f : A → Started B)
    → ((a : A) → Gives P (f a))
    → Gives P (m >>= f)
Gives-bind P (ok a) f h = h a
Gives-bind P (error e) f h = tt

Gives-bind_both :
    {A B : Type 0} (Q : A → Type 0) (P : B → Type 0) (m : Started A) (f : A → Started B)
    → Gives Q m
    → ((a : A) → Q a → Gives P (f a))
    → Gives P (m >>= f)
Gives-bind_both Q P (ok a) f q h = h a q
Gives-bind_both Q P (error e) f q h = tt

module _ {W : Type 0} (host : Host W) where
  start_loop-IsSound : (k : ℕ) → Gives IsSound (start_loop host k)
  unfolding start_loop
  start_loop-IsSound k = Gives-bind IsSound (or_fail (host.new_event_loop k)) _ λ object.
      Gives-bind IsSound (check (host.has_hook enter) (missing_hook enter)) _ λ _.
        Gives-bind IsSound (check (host.has_hook leave) (missing_hook leave)) _ λ _.
          Gives-bind IsSound (check (host.has_hook register) (missing_hook register)) _ λ _.
            Gives-bind IsSound (check (host.has_hook unregister) (missing_hook unregister)) _ λ _.
              Gives-bind IsSound (check (host.spawns k) no_thread) _
                λ _. new_loop-IsSound host.world object

  abbrev pub IsFullPool : ℕ → List (EventLoop W) → Type 0
  IsFullPool n loops = (length loops ≡ n) × AllSound loops

  start_loops-IsFullPool : (n k : ℕ) → Gives (IsFullPool n) (start_loops host n k)
  unfolding start_loops
  start_loops-IsFullPool zero k = (refl, tt)
  start_loops-IsFullPool (suc n) k =
      Gives-bind_both IsSound (IsFullPool (suc n)) (start_loop host k) _ (start_loop-IsSound k)
        λ s sound.
          Gives-bind_both (IsFullPool n) (IsFullPool (suc n)) (start_loops host n (k + 1)) _
            (start_loops-IsFullPool n (k + 1)) λ rest full. (ap suc full.0, (sound, full.1))

  -- What `EventLoopPool::start` gives: with size 0 only the error, and otherwise, if every start-up
  -- call succeeds, as many loops as asked for, all sound.
  abbrev pub IsStarted : ℕ → Started (List (EventLoop W)) → Type 0
  IsStarted n (ok loops) = (0 < n) × (length loops ≡ n) × AllSound loops
  IsStarted n (error e) = Unit

  start_pool-suc : (n : ℕ) → start_pool host (suc n) ≡ start_loops host (suc n) 0
  unfolding start_pool
  start_pool-suc n = ground arith

  -- A started pool has as many loops as were asked for, at least one, and each of them is sound.
  pub start_pool-IsStarted : (n : ℕ) → IsStarted n (start_pool host n)
  unfolding start_pool
  start_pool-IsStarted zero = tt
  start_pool-IsStarted (suc n) =
      rw (start_pool-suc n)
        (positive (start_loops host (suc n) 0) (start_loops-IsFullPool (suc n) 0))
    where
      positive :
          (r : Started (List (EventLoop W))) → Gives (IsFullPool (suc n)) r → IsStarted (suc n) r
      positive (ok loops) h = (omega arith, h.0, h.1)
      positive (error e) h = tt

module _ {W : Type 0} (py : Python W) (law : Lawful py) where
  abbrev Scheduled : ℕ → Option (DispatchedRequest × List (EventLoop W)) → Type 0
  Scheduled n none = ⊥
  Scheduled n (some (request, loops)) = (length loops ≡ n) × AllSound loops

  schedule_at-Scheduled :
      (k : ℕ) (handler kwargs : Object) (loops : List (EventLoop W))
      → k < length loops
      → AllSound loops
      → Scheduled (length loops) (schedule_at py k handler kwargs loops)
  unfolding schedule_at
  schedule_at-Scheduled k handler kwargs [] h sound = absurd (omega arith)
  schedule_at-Scheduled zero handler kwargs (s ∷ rest) h sound =
      (refl, (Later-IsSound ((schedule-Keeps py law handler kwargs).at s) sound.0, sound.1))
  schedule_at-Scheduled (suc k) handler kwargs (s ∷ rest) h sound =
      ground (arith, schedule_at-Scheduled k handler kwargs rest (omega arith) sound.1)

  cancel_pool-AllSound :
      (loops : List (EventLoop W)) → AllSound loops → AllSound (cancel_pool py loops)
  unfolding cancel_pool
  cancel_pool-AllSound [] h = tt
  cancel_pool-AllSound (s ∷ rest) h =
      (Later-IsSound ((cancel_in_flight-Keeps py law).at s) h.0, cancel_pool-AllSound rest h.1)

  -- Stopping a pool of sound loops resolves every request of every loop, and they stay sound.
  pub stop_pool-resolves :
      (loops : List (EventLoop W))
      → AllSound loops
      → AllSound (stop_pool py loops) × AllResolved loops (stop_pool py loops)
  unfolding stop_pool
  stop_pool-resolves [] h = (tt, tt)
  stop_pool-resolves (s ∷ rest) h =
      let (sound, resolved) = stop_pool-resolves rest h.1 in
      ((stop-IsSound py law s h.0, sound), (stop-resolves py law s h.0, resolved))

  -- What `EventLoopPool::schedule` gives on a pool that is not empty.
  abbrev pub IsScheduled : EventLoopPool W → Option (DispatchedRequest × EventLoopPool W) → Type 0
  IsScheduled pool none = ⊥
  IsScheduled pool (some (request, pool')) =
      (length pool'.loops ≡ length pool.loops)
      × AllSound pool'.loops
      × (pool'.scan_start_index ≡ increment pool.scan_start_index)

  -- On a pool of sound loops with room for the offset, scheduling never panics, keeps every loop
  -- sound, and moves the offset on by one.
  pub schedule_pool-IsScheduled :
      (handler kwargs : Object) (pool : EventLoopPool W)
      → 0 < length pool.loops
      → pool.scan_start_index + length pool.loops ≤ word
      → AllSound pool.loops
      → IsScheduled pool (schedule_pool py handler kwargs pool)
  unfolding schedule_pool size
  schedule_pool-IsScheduled handler kwargs pool some_loop fits sound =
      let n = length pool.loops in
      let load = load_at pool.loops in
      let k = select load n pool.scan_start_index in
      ground (
        arith,
        schedule_at-Scheduled k handler kwargs pool.loops
            (select-least load n pool.scan_start_index some_loop fits).0 sound,
      )
