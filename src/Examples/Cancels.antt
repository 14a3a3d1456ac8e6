-- ===== src/Examples/Cancels.antt =====
-- A cancellation between two steps of a task.
use rayo.Base.{none, [], ◌∷◌, State, ◌>>=◌}
use rayo.Dispatch.Types.{Object, StepOutcome, EventLoop}
use rayo.Dispatch.Python.{SendResult, pygen_error, with_state, call_or_print}
use rayo.Dispatch.Step.{start as start_task, step_once}
use rayo.Dispatch.Turn.{turn}
use rayo.Dispatch.Acts.{start}
use rayo.Dispatch.Trace.{Logged, with_world}
use rayo.Dispatch.Loop.{schedule}
use rayo.Dispatch.Soundness.History.{new_loop}
use rayo.Examples.Script.{Script, scripted}

-- A request whose handler gave way once, with a bare yield.
unfoldable rescheduled : EventLoop Script
unfolding turn ◌>>=◌ schedule new_loop start_task with_state call_or_print step_once
rescheduled =
    let s = (schedule scripted 3 4 (new_loop (StepOutcome.yielded 0 ∷ []) 1)).1 in
    (turn scripted 0 none s).1

-- The same loop, with nothing written down yet.
abbrev paused : EventLoop (Logged Script)
paused = with_world rescheduled (record { log = []; inner = [] })

-- Another `PyIter_Send`: every coroutine fails.
abbrev quits : Object → State (EventLoop (Logged Script)) SendResult
quits coroutine s = (pygen_error 5, s)
