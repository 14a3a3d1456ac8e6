-- ===== src/Examples/Loops.antt =====
-- Histories of one loop.
use rayo.Base.{
  if◌then◌else◌, ◌==◌, ◌≡◌, ◌≢◌, refl, true, false, none, some, List, [], ◌∷◌, codes, arith,
}
use rayo.Dispatch.Types.{StepOutcome, HandlerResponse, sent, internal_error, CompletionKind, value}
use rayo.Dispatch.Python.{task_state}
use rayo.Dispatch.Channel.{channel_of}
use rayo.Dispatch.Loop.{stop, schedule, response}
use rayo.Dispatch.Finish.{finish}
use rayo.Dispatch.Soundness.Ends.{IsOpen, Tells, finish-Tells}
use rayo.Dispatch.Cancel.{cancel}
use rayo.Dispatch.Turn.{turn}
use rayo.Dispatch.Soundness.Unstarted.{IsUnstarted, cancel-turn-Tells}
use rayo.Dispatch.Respond.{response_from_return_value}
use rayo.Dispatch.Respond.Status.{response_from_return_value-status}
use rayo.Schema.Accepts.{is_json}
use rayo.Dispatch.Soundness.Ready.{response-ready}
use rayo.Dispatch.Later.{is_waiting, SameEnd}
use rayo.Dispatch.Soundness.Stop.{IsSound, stop-resolves}
use rayo.Dispatch.Soundness.History.{
  Operation, schedules, turns, cancels, stops, run, new_loop-IsSound, run-IsSound,
  run-keeps_response, run-keeps_end,
}
use rayo.Examples.Script.{scripted, scripted-Lawful, idle_loop, after}

-- A request that awaits once and then returns, and one that is still parked.
abbrev served : List Operation
served = schedules 3 4 ∷ turns 0 none ∷ turns 0 (some 5) ∷ []

abbrev parked : List Operation
parked = schedules 3 4 ∷ turns 0 none ∷ []

abbrev greeting : HandlerResponse
greeting = record { status = 200; content_type = "text/plain; charset=utf-8"; body = codes "hi" }

served_response : channel_of 0 (after served) ≡ sent greeting
unfolding after
served_response = refl

served_finished : (task_state 0 (after served)).finished ≡ true
unfolding after
served_finished = refl

served_count : (after served).task_count ≡ 1
unfolding after
served_count = refl

parked_waits : is_waiting (channel_of 0 (after parked)) ≡ true
unfolding after
parked_waits = refl

parked_gauge : (after parked).in_flight ≡ 1
unfolding after
parked_gauge = refl

stopped_parked :
    channel_of 0 (after (schedules 3 4 ∷ turns 0 none ∷ stops ∷ [])) ≡ sent internal_error
unfolding after
stopped_parked = refl

idle_loop-IsSound : IsSound idle_loop
idle_loop-IsSound = new_loop-IsSound (StepOutcome.yielded 5 ∷ []) 1

after-IsSound : (os : List Operation) → IsSound (after os)
unfolding after
after-IsSound os = run-IsSound scripted scripted-Lawful os idle_loop idle_loop-IsSound

run-IsSound_example : IsSound (run scripted served idle_loop)
run-IsSound_example = run-IsSound scripted scripted-Lawful served idle_loop idle_loop-IsSound

run-keeps_response_example :
    channel_of 0 (run scripted (cancels 0 none ∷ stops ∷ []) (after served)) ≡ sent greeting
run-keeps_response_example =
    run-keeps_response scripted scripted-Lawful (cancels 0 none ∷ stops ∷ []) (after served) 0
      greeting (omega (arith, served_count)) served_response

run-keeps_end_example :
    SameEnd
      (task_state 0 (after served))
      (task_state 0 (run scripted (cancels 0 none ∷ stops ∷ []) (after served)))
run-keeps_end_example =
    run-keeps_end scripted scripted-Lawful (cancels 0 none ∷ stops ∷ []) (after served) 0
      (omega (arith, served_count)) served_finished

stop-resolves_example : is_waiting (channel_of 0 (stop scripted (after parked)).1) ≡ false
unfolding after
stop-resolves_example =
    stop-resolves scripted scripted-Lawful (after parked) (after-IsSound parked) 0 (omega arith)

parked_count : (after parked).task_count ≡ 1
unfolding after
parked_count = refl

parked-IsOpen : IsOpen (task_state 0 (after parked))
unfolding after
parked-IsOpen = (refl, refl, refl, refl)

finish-Tells_example : Tells 0 (value 7) (
    task_state 0 (
      run scripted
        (cancels 0 none ∷ stops ∷ [])
        (finish scripted 0 greeting (value 7) (after parked)).1))
finish-Tells_example =
    finish-Tells scripted scripted-Lawful 0 greeting (value 7) (after parked)
      (cancels 0 none ∷ stops ∷ []) (omega (arith, parked_count)) parked-IsOpen

response-ready_example :
    response
      (schedule scripted 3 4 idle_loop).0
      (stop scripted (run scripted (turns 0 none ∷ []) (schedule scripted 3 4 idle_loop).1)).1
    ≢ none
response-ready_example =
    response-ready scripted scripted-Lawful 3 4 (turns 0 none ∷ []) idle_loop idle_loop-IsSound

-- A request whose first turn did not come yet.
abbrev scheduled : List Operation
scheduled = schedules 3 4 ∷ []

scheduled_count : (after scheduled).task_count ≡ 1
unfolding after
scheduled_count = refl

scheduled-IsUnstarted : IsUnstarted (task_state 0 (after scheduled))
unfolding after
scheduled-IsUnstarted = ((refl, refl, refl, refl), refl, refl)

cancel-turn-Tells_example :
    ((cancel scripted 0 (some 8) (after scheduled)).0 ≡ true)
    × Tells 0 (CompletionKind.cancelled (some 8)) (
        task_state 0 (
          run scripted
            (stops ∷ [])
            (turn scripted 0 none (cancel scripted 0 (some 8) (after scheduled)).1).1))
cancel-turn-Tells_example =
    cancel-turn-Tells scripted scripted-Lawful 0 (some 8) none (after scheduled) (stops ∷ [])
      (omega (arith, scheduled_count)) scheduled-IsUnstarted

-- Every object but `None` reads as a text.
response_from_return_value-status_example :
    (response_from_return_value scripted 7 idle_loop).0.status
    ≡ (if 7 == 0 then 204 else if is_json (scripted.read_value idle_loop.world 7) then 200 else 500)
response_from_return_value-status_example = response_from_return_value-status scripted 7 idle_loop
