-- ===== src/Dispatch/Soundness/Ready.antt =====
-- A request from `EventLoop::schedule` to its future, `DispatchedRequest::response`.
use rayo.Base.{◌<◌, ◌≡◌, ◌≢◌, refl, false, none, State, List, ◌>>=◌, arith}
use rayo.Dispatch.Types.{Object, TaskId, ResponseChannel, waiting, sent, abandoned, EventLoop}
use rayo.Dispatch.Python.{Python, Answer, ok, error, on_answer}
use rayo.Dispatch.Channel.{channel_of}
use rayo.Dispatch.Loop.{
  DispatchedRequest, failed, received, response, allocate, enlist, hand_over, place, schedule, stop,
}
use rayo.Dispatch.Later.{is_waiting}
use rayo.Dispatch.Acts.{Lawful}
use rayo.Dispatch.Progress.Loops.{schedule-Keeps, place-Keeps}
use rayo.Dispatch.Soundness.Stop.{IsSound, Later-IsSound, stop-resolves}
use rayo.Dispatch.Soundness.History.{Operation, run, run-IsSound, run-Advances}

module _ {W : Type 0} where
  -- The request that an operation gives waits on the channel of task `i`.
  abbrev GivesReceiver : TaskId → State (EventLoop W) DispatchedRequest → Type 0
  GivesReceiver i m = (s : EventLoop W) → (m s).0.response_receiver ≡ i

  GivesReceiver-answer :
      (i : TaskId) (answer : Answer) (f g : Object → State (EventLoop W) DispatchedRequest)
      → ((o : Object) → GivesReceiver i (f o))
      → ((o : Object) → GivesReceiver i (g o))
      → GivesReceiver i (on_answer answer f g)
  GivesReceiver-answer i (ok v) f g h k = h v
  GivesReceiver-answer i (error e) f g h k = k e

module _ {W : Type 0} (py : Python W) where
  hand_over-GivesReceiver : (i : TaskId) → GivesReceiver i (hand_over py i)
  unfolding hand_over failed ◌>>=◌
  hand_over-GivesReceiver i s =
      GivesReceiver-answer i (py.call _ s).0 _ _ (λ _ t. refl) (λ e t. refl) (py.call _ s).1

  place-GivesReceiver : (i : TaskId) → GivesReceiver i (place py i)
  unfolding place failed ◌>>=◌
  place-GivesReceiver i s =
      GivesReceiver-answer i (py.call _ s).0 _ _ (λ _ t. hand_over-GivesReceiver i (enlist i t).1)
        (λ e t. refl) (py.call _ s).1

  schedule-receiver :
      (h k : Object) (s : EventLoop W) → (schedule py h k s).0.response_receiver ≡ s.task_count
  unfolding schedule ◌>>=◌
  schedule-receiver h k s = place-GivesReceiver s.task_count (allocate h k s).1

  received-ready :
      (request : DispatchedRequest) (c : ResponseChannel)
      → is_waiting c ≡ false
      → received request c ≢ none
  unfolding received
  received-ready request waiting h = cc
  received-ready request (sent r) h = cc
  received-ready request abandoned h = cc

  module _ (law : Lawful py) where
    schedule-grows :
        (h k : Object) (s : EventLoop W) → s.task_count < (schedule py h k s).1.task_count
    unfolding schedule ◌>>=◌ allocate
    schedule-grows h k s =
        omega (arith, ((place-Keeps py law s.task_count).at (allocate h k s).1).advances.grows)

    -- On a sound loop, the future of a request that was scheduled is ready after `stop`, whatever
    -- happened in between: `response` gives a response, or tells that the sender was dropped.
    pub response-ready :
        (h k : Object) (os : List Operation) (s : EventLoop W)
        → IsSound s
        → response (schedule py h k s).0 (stop py (run py os (schedule py h k s).1)).1 ≢ none
    unfolding response
    response-ready h k os s sound =
        let request = (schedule py h k s).0 in
        let after = run py os (schedule py h k s).1 in
        received-ready request (channel_of request.response_receiver (stop py after).1) (
          stop-resolves py law after
            (run-IsSound py law os (schedule py h k s).1
              (Later-IsSound ((schedule-Keeps py law h k).at s) sound))
            request.response_receiver
            (omega (
              arith,
              schedule-receiver h k s,
              schedule-grows h k s,
              (run-Advances py law os (schedule py h k s).1).grows,
            )))
