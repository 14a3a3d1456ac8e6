-- ===== src/Examples/Pools.antt =====
-- A pool of three loops.
use rayo.Base.{ℕ, zero, suc, ◌-◌, ◌%◌, ◌≡◌, ◌≢◌, true, some, [], ◌∷◌, arith}
use rayo.Dispatch.Channel.{word}
use rayo.Dispatch.Soundness.History.{new_loop-IsSound}
use rayo.Dispatch.Pool.Select.{select, select-first_least, select_wrapped, IsFirstLeast, place}
use rayo.Dispatch.Pool.Start.{Host, start_pool}
use rayo.Dispatch.Pool.Places.{IsPlaced, schedule_pool-IsPlaced}
use rayo.Dispatch.Pool.Load.{all_waiting, total_in_flight-waiting}
use rayo.Dispatch.Pool.Fleet.{total_in_flight, EventLoopPool, schedule_pool, stop_pool}
use rayo.Dispatch.Pool.Sound.{
  AllSound, AllResolved, IsStarted, IsScheduled, start_pool-IsStarted, stop_pool-resolves,
  schedule_pool-IsScheduled,
}
use rayo.Examples.Script.{Script, scripted, scripted-Lawful, idle_loop}

-- The counts of three loops.
abbrev counts : ℕ → ℕ
counts zero = 2
counts (suc zero) = 1
counts (suc (suc k)) = 1

select-first_least_example :
    (r : ℕ) × (select counts 3 2 ≡ place counts 3 2 r) × IsFirstLeast counts 3 2 3 r
select-first_least_example = select-first_least counts 3 2 (omega arith) (omega arith)

select_wrapped_example : select counts 3 (word - 1) ≢ 2
select_wrapped_example = select_wrapped counts (omega arith) (omega arith)

abbrev host : Host Script
host = record {
  world = [];
  new_event_loop = λ k. some 1;
  has_hook = λ hook. true;
  spawns = λ k. true;
}

start_pool-IsStarted_example : IsStarted host 3 (start_pool host 3)
start_pool-IsStarted_example = start_pool-IsStarted host 3

abbrev pool : EventLoopPool Script
pool = record { loops = idle_loop ∷ idle_loop ∷ idle_loop ∷ []; scan_start_index = 2 }

pool-AllSound : AllSound pool.loops
pool-AllSound = (new_loop-IsSound _ 1, (new_loop-IsSound _ 1, (new_loop-IsSound _ 1, tt)))

schedule_pool-IsScheduled_example :
    IsScheduled scripted scripted-Lawful pool (schedule_pool scripted 3 4 pool)
schedule_pool-IsScheduled_example =
    schedule_pool-IsScheduled scripted scripted-Lawful 3 4 pool (omega arith) (omega arith)
      pool-AllSound

stop_pool-resolves_example :
    AllSound (stop_pool scripted pool.loops)
    × AllResolved pool.loops (stop_pool scripted pool.loops)
stop_pool-resolves_example = stop_pool-resolves scripted scripted-Lawful pool.loops pool-AllSound

total_in_flight-waiting_example : total_in_flight pool ≡ all_waiting pool.loops % word
total_in_flight-waiting_example = total_in_flight-waiting pool pool-AllSound

schedule_pool-IsPlaced_example : IsPlaced scripted 3 4 pool (schedule_pool scripted 3 4 pool)
schedule_pool-IsPlaced_example =
    schedule_pool-IsPlaced scripted 3 4 pool (omega arith) (omega arith)
