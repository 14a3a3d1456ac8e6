-- ===== src/Examples/Script.antt =====
-- A small interpreter to run the model with: its state is the list of what the coroutines will do,
-- and every call succeeds.
use rayo.Base.{true, false, some, List, [], ◌∷◌, State, ◌==◌, codes}
use rayo.Schema.Value.{string}
use rayo.Dispatch.Types.{StepOutcome, returned, yielded, raised, EventLoop}
use rayo.Dispatch.Python.{Python, SendResult, pygen_return, pygen_next, pygen_error, ok}
use rayo.Dispatch.Acts.{here, runs, start, Lawful}
use rayo.Base.{◌>>=◌}
use rayo.Base.Text.{utf8}
use rayo.Dispatch.Python.{with_state, call_or_print}
use rayo.Dispatch.Channel.{drop}
use rayo.Dispatch.Respond.{response_from_return_value}
use rayo.Dispatch.Finish.{finish, dispose}
use rayo.Dispatch.Step.{start as start_task, step_once}
use rayo.Dispatch.Turn.{turn}
use rayo.Dispatch.Cancel.{cancel, uncancel}
use rayo.Dispatch.Accessors.{add_done_callback}
use rayo.Dispatch.Loop.{schedule, stop}
use rayo.Dispatch.Soundness.History.{Operation, run, new_loop}

abbrev pub Script : Type 0
Script = List StepOutcome

-- The next advance: the script's, or a return.
abbrev pub advance : Script → StepOutcome × Script
advance [] = (returned 7, [])
advance (outcome ∷ rest) = (outcome, rest)

-- As `PyIter_Send` would report it.
abbrev pub report : StepOutcome → SendResult
report (returned v) = pygen_return v
report (yielded v) = pygen_next v
report (raised e) = pygen_error e

abbrev pub play : State (EventLoop Script) SendResult
play s = (report (advance s.world).0, record s { world = (advance s.world).1 })

abbrev pub scripted : Python Script
scripted = record {
  call = λ c s. (ok 1, s);
  send = λ coroutine. play;
  is_truthy = λ object s. (some true, s);
  new_error = λ kind s. (99, s);
  join_thread = λ s. (tt, s);
  none_object = 0;
  default_name = 2;
  is_cancelled_error = λ e. e == 99;
  is_stop_iteration = λ e. false;
  equal = λ a b. a == b;
  read_value = λ w object. string (some (codes "hi"));
  float_to_string = λ bits. [];
}

pub scripted-Lawful : Lawful scripted
scripted-Lawful = record {
  call_acts = λ c s. here;
  send_acts = λ coroutine s. runs here (advance s.world).1;
  truth_acts = λ object s. here;
  error_acts = λ kind s. here;
  join_runs = λ s. start;
}

-- A loop whose coroutines first await object 5 and then return.
abbrev pub idle_loop : EventLoop Script
idle_loop = new_loop (StepOutcome.yielded 5 ∷ []) 1

-- The loop after a history. To open this is to open the model.
unfoldable pub after : List Operation → EventLoop Script
unfolding run turn ◌>>=◌ schedule new_loop start_task with_state call_or_print step_once finish
    response_from_return_value utf8 cancel drop stop uncancel add_done_callback dispose
after operations = run scripted operations idle_loop
