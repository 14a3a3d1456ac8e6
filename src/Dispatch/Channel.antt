-- ===== src/Dispatch/Channel.antt =====
-- `ResponseChannel`: the way back to the server task, with the loop's in-flight gauge.
use rayo.Base.{ℕ, ◌+◌, ◌-◌, ◌%◌, ◌^◌, State}
use rayo.Dispatch.Types.{
  TaskId, HandlerResponse, ResponseChannel, waiting, sent, abandoned, EventLoop,
}
use rayo.Dispatch.Python.{put_task}

-- A `usize`.
abbrev pub word : ℕ
word = 2 ^ 64

-- `fetch_add(1)` and `fetch_sub(1)` wrap around.
abbrev pub increment : ℕ → ℕ
increment n = (n + 1) % word

abbrev pub decrement : ℕ → ℕ
decrement n = (n + (word - 1)) % word

-- What taking the sender leaves: the slot, and the gauge.
unfoldable pub close_slot : ResponseChannel → ResponseChannel → ResponseChannel
close_slot new waiting = new
close_slot new (sent r) = sent r
close_slot new abandoned = abandoned

unfoldable pub balance : ResponseChannel → ℕ → ℕ
balance waiting gauge = decrement gauge
balance (sent r) gauge = gauge
balance abandoned gauge = gauge

module _ {W : Type 0} where
  abbrev pub channel_of : TaskId → EventLoop W → ResponseChannel
  channel_of i s = (s.tasks i).channel

  abbrev pub resolve : ResponseChannel → TaskId → EventLoop W → EventLoop W
  resolve new i s = record (put_task i (record (s.tasks i) { channel = close_slot new c }) s) {
    in_flight = balance c s.in_flight;
  }
    where
      c : ResponseChannel
      c = channel_of i s

  -- `ResponseChannel::send`.
  unfoldable pub send : TaskId → HandlerResponse → State (EventLoop W) (Unit {0})
  unfolding close_slot balance
  send i response s = (tt, resolve (sent response) i s)

  -- `Drop for ResponseChannel`.
  unfoldable pub drop : TaskId → State (EventLoop W) (Unit {0})
  unfolding close_slot balance
  drop i s = (tt, resolve abandoned i s)
