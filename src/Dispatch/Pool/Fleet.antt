-- ===== src/Dispatch/Pool/Fleet.antt =====
-- The pool's operations. Each loop carries its own view of the interpreter.
use rayo.Base.{
  ℕ, zero, suc, ◌+◌, ◌%◌, Option, none, some, List, [], ◌∷◌, length, ◌==◌, if◌then◌else◌,
}
use rayo.Dispatch.Types.{Object, EventLoop}
use rayo.Dispatch.Python.{Python}
use rayo.Dispatch.Channel.{word, increment}
use rayo.Dispatch.Loop.{DispatchedRequest, in_flight_count, schedule, cancel_in_flight, stop}
use rayo.Dispatch.Pool.Select.{select}

pub record EventLoopPool (W : Type 0) : Type 0 where
  pub loops : List (EventLoop W)
  pub scan_start_index : ℕ

module _ {W : Type 0} where
  unfoldable pub size : EventLoopPool W → ℕ
  size pool = length pool.loops

  unfoldable pub sum_in_flight : List (EventLoop W) → ℕ
  unfolding in_flight_count
  sum_in_flight [] = 0
  sum_in_flight (event_loop ∷ rest) = (in_flight_count event_loop + sum_in_flight rest) % word

  unfoldable pub total_in_flight : EventLoopPool W → ℕ
  unfolding sum_in_flight
  total_in_flight pool = sum_in_flight pool.loops

  -- The count of the loop at an index; none is read out of range.
  unfoldable pub load_at : List (EventLoop W) → ℕ → ℕ
  unfolding in_flight_count
  load_at [] k = 0
  load_at (event_loop ∷ rest) zero = in_flight_count event_loop
  load_at (event_loop ∷ rest) (suc k) = load_at rest k

module _ {W : Type 0} (py : Python W) where
  -- Scheduling on the loop at an index, `none` where indexing panics.
  unfoldable pub schedule_at :
      ℕ → Object → Object → List (EventLoop W) → Option (DispatchedRequest × List (EventLoop W))
  schedule_at k handler handler_kwargs [] = none
  schedule_at zero handler handler_kwargs (event_loop ∷ rest) =
      let (request, event_loop') = schedule py handler handler_kwargs event_loop in
      some (request, event_loop' ∷ rest)
  schedule_at (suc k) handler handler_kwargs (event_loop ∷ rest) =
      elim (schedule_at k handler handler_kwargs rest) [
        | none ↦ none
        | some (request, rest') ↦ some (request, event_loop ∷ rest')
      ]

  -- `none` is the panic of the remainder by 0, which an empty pool would meet.
  unfoldable pub schedule_pool :
      Object → Object → EventLoopPool W → Option (DispatchedRequest × EventLoopPool W)
  unfolding schedule_at load_at select size
  schedule_pool handler handler_kwargs pool =
      if size pool == 0
      then none
      else elim (schedule_at (select (load_at pool.loops) (size pool) pool.scan_start_index) handler
          handler_kwargs pool.loops) [
            | none ↦ none
            | some (request, loops') ↦ some (
              request,
              record { loops = loops'; scan_start_index = increment pool.scan_start_index },
            )
          ]

  unfoldable pub cancel_pool : List (EventLoop W) → List (EventLoop W)
  cancel_pool [] = []
  cancel_pool (event_loop ∷ rest) = (cancel_in_flight py event_loop).1 ∷ cancel_pool rest

  unfoldable pub stop_pool : List (EventLoop W) → List (EventLoop W)
  stop_pool [] = []
  stop_pool (event_loop ∷ rest) = (stop py event_loop).1 ∷ stop_pool rest
