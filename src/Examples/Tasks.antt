-- ===== src/Examples/Tasks.antt =====
-- One task: its references and its callbacks.
use rayo.Base.{
  length, codes, arith, ◌++◌, if◌then◌else◌, ℕ, ◌≡◌, refl, true, Option, none, some, List, [], ◌∷◌,
}
use rayo.Dispatch.Types.{internal_error, aborted, EventLoop, Object}
use rayo.Dispatch.Python.{task_state}
use rayo.Dispatch.Accessors.{remove_done_callback, set_name}
use rayo.Dispatch.Accessors.Callbacks.{IsRest, count_equal, remove_done_callback-IsRest}
use rayo.Dispatch.Traverse.{traverse, by_name, traverse-Owns}
use rayo.Dispatch.Soundness.History.{Operation, schedules, turns, adds_callback, renames}
use rayo.Dispatch.Finish.{finish}
use rayo.Dispatch.Trace.{Logged, with_world, log_of, logged}
use rayo.Dispatch.Trace.Callbacks.{all_handed, finish-hands}
use rayo.Dispatch.Respond.{response_from_return_value}
use rayo.Dispatch.Respond.Body.{decode_utf8, response_from_return_value-text}
use rayo.Examples.Script.{Script, scripted, after}

-- Parked, named and watched by two callbacks.
abbrev busy : List Operation
busy =
    schedules 3 4
    ∷ turns 0 none
    ∷ adds_callback 0 11 (some 12)
    ∷ adds_callback 0 13 (some 14)
    ∷ renames 0 15
    ∷ []

abbrev never_stops : Object → Option ℕ
never_stops o = none

busy_traversed : traverse true never_stops ((after busy).tasks 0) ≡ none
unfolding after traverse set_name
busy_traversed = refl

busy_named : (task_state 0 (after busy)).name ≡ some 1
unfolding after set_name
busy_named = refl

traverse-Owns_example : never_stops 1 ≡ none
traverse-Owns_example =
    traverse-Owns never_stops ((after busy).tasks 0) 1 busy_traversed (by_name busy_named)

remove_done_callback-IsRest_example :
    let (removed, s) = remove_done_callback scripted 0 11 (after busy) in
    IsRest scripted.equal 11
      (task_state 0 (after busy)).done_callbacks
      (task_state 0 s).done_callbacks
    × (removed ≡ count_equal scripted.equal 11 (task_state 0 (after busy)).done_callbacks)
remove_done_callback-IsRest_example = remove_done_callback-IsRest scripted 0 11 (after busy)

-- The busy task's loop, with nothing written down yet.
abbrev busy_logged : EventLoop (Logged Script)
busy_logged = with_world (after busy) (record { log = []; inner = [] })

finish-hands_example :
    all_handed 0 (log_of (finish (logged scripted) 0 internal_error aborted busy_logged).1)
    ≡ all_handed 0 (log_of busy_logged)
      ++ (if (task_state 0 busy_logged).finished
          then []
          else (task_state 0 busy_logged).done_callbacks)
finish-hands_example = finish-hands scripted 0 internal_error aborted busy_logged

busy_callbacks : (task_state 0 busy_logged).done_callbacks ≡ (11, 12) ∷ (13, 14) ∷ []
unfolding after set_name
busy_callbacks = refl

-- The object 7 reads as the text "hi".
response_from_return_value-text_example :
    decode_utf8 (length (codes "hi")) (response_from_return_value scripted 7 (after busy)).0.body
    ≡ some (codes "hi")
response_from_return_value-text_example =
    response_from_return_value-text scripted 7 (codes "hi") (after busy) refl refl (omega arith)
