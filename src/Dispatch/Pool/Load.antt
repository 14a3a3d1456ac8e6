-- ===== src/Dispatch/Pool/Load.antt =====
-- `total_in_flight`, which the server shows as its gauge.
use rayo.Base.{ℕ, ◌+◌, ◌%◌, ◌≡◌, refl, List, [], ◌∷◌, arith}
use rayo.Dispatch.Types.{EventLoop}
use rayo.Dispatch.Channel.{word}
use rayo.Dispatch.Loop.{in_flight_count}
use rayo.Dispatch.Later.{waiting_count}
use rayo.Dispatch.Pool.Fleet.{EventLoopPool, sum_in_flight, total_in_flight}
use rayo.Dispatch.Pool.Sound.{AllSound}

-- The requests of all loops that have no outcome yet.
abbrev pub all_waiting : {W : Type 0} → List (EventLoop W) → ℕ
all_waiting [] = 0
all_waiting (event_loop ∷ rest) =
    waiting_count event_loop.tasks event_loop.task_count + all_waiting rest

module _ {W : Type 0} where
  sum_in_flight-waiting :
      (loops : List (EventLoop W)) → AllSound loops → sum_in_flight loops ≡ all_waiting loops % word
  unfolding sum_in_flight in_flight_count
  sum_in_flight-waiting [] sound = refl
  sum_in_flight-waiting (s ∷ rest) sound =
      omega (arith, sound.0.balanced.counted, sum_in_flight-waiting rest sound.1)

  -- On a pool of sound loops the gauge is the number of requests that have no outcome yet, as a
  -- `usize`.
  pub total_in_flight-waiting :
      (pool : EventLoopPool W)
      → AllSound pool.loops
      → total_in_flight pool ≡ all_waiting pool.loops % word
  unfolding total_in_flight
  total_in_flight-waiting pool sound = sum_in_flight-waiting pool.loops sound
