-- ===== src/Dispatch/Pool/Places.antt =====
-- `EventLoopPool::schedule` as the scheduling on one of the loops.
use rayo.Base.{
  ℕ, zero, suc, ◌+◌, ◌≤◌, ◌<◌, ◌≡◌, refl, Option, some, List, [], ◌∷◌, length, get_elem?,
  get_elem?-below, set, arith,
}
use rayo.Dispatch.Types.{Object, EventLoop}
use rayo.Dispatch.Python.{Python}
use rayo.Dispatch.Channel.{word, increment}
use rayo.Dispatch.Loop.{DispatchedRequest, schedule}
use rayo.Dispatch.Pool.Select.{select, select-least}
use rayo.Dispatch.Pool.Fleet.{EventLoopPool, size, load_at, schedule_at, schedule_pool}

module _ {W : Type 0} (py : Python W) (handler handler_kwargs : Object) where
  schedule_at-set :
      (k : ℕ) (loops : List (EventLoop W)) (s : EventLoop W)
      → get_elem? loops k ≡ some s
      → schedule_at py k handler handler_kwargs loops
        ≡ some (
          (schedule py handler handler_kwargs s).0,
          set loops k (schedule py handler handler_kwargs s).1,
        )
  unfolding schedule_at
  schedule_at-set k [] s e = cc
  schedule_at-set zero (t ∷ rest) s e = ground arith
  schedule_at-set (suc k) (t ∷ rest) s e = rw (schedule_at-set k rest s e) refl

  -- The pool after loop `k`, in the state `s`, took the request.
  abbrev pub taken : EventLoopPool W → ℕ → EventLoop W → EventLoopPool W
  taken pool k s = record {
    loops = set pool.loops k (schedule py handler handler_kwargs s).1;
    scan_start_index = increment pool.scan_start_index;
  }

  -- A least-loaded loop took the request, and the others are left alone.
  abbrev pub IsPlaced : EventLoopPool W → Option (DispatchedRequest × EventLoopPool W) → Type 0
  IsPlaced pool o =
      (k : ℕ) × (s : EventLoop W) × (get_elem? pool.loops k ≡ some s)
      × ((j : ℕ) → j < length pool.loops → load_at pool.loops k ≤ load_at pool.loops j)
      × (o ≡ some ((schedule py handler handler_kwargs s).0, taken pool k s))

  schedule_pool-at :
      (pool : EventLoopPool W) (s : EventLoop W)
      → 0 < length pool.loops
      → get_elem? pool.loops (select (load_at pool.loops) (length pool.loops) pool.scan_start_index)
        ≡ some s
      → schedule_pool py handler handler_kwargs pool
        ≡ some (
          (schedule py handler handler_kwargs s).0,
          taken pool (select (load_at pool.loops) (length pool.loops) pool.scan_start_index) s,
        )
  unfolding schedule_pool size
  schedule_pool-at pool s some_loop e = ground (
    arith,
    schedule_at-set (select (load_at pool.loops) (length pool.loops) pool.scan_start_index)
        pool.loops s e,
  )

  -- In a pool that is not empty, with the offset a pool's size away from wrapping around, a loop
  -- than which none is less loaded takes the request as `EventLoop::schedule` does, the other loops
  -- stay as they are, and the offset moves on.
  pub schedule_pool-IsPlaced :
      (pool : EventLoopPool W)
      → 0 < length pool.loops
      → pool.scan_start_index + length pool.loops ≤ word
      → IsPlaced pool (schedule_pool py handler handler_kwargs pool)
  schedule_pool-IsPlaced pool some_loop fits =
      let load = load_at pool.loops in
      let k = select load (length pool.loops) pool.scan_start_index in
      let (below, least) =
        select-least load (length pool.loops) pool.scan_start_index some_loop fits in
      let (s, e) = get_elem?-below pool.loops k below in
      (k, s, e, least, schedule_pool-at pool s some_loop e)
