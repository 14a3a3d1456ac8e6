-- ===== src/Dispatch/Later/Slots.antt =====
-- Taking the sender out of its slot: `send` and `drop` against the order of Dispatch/Later.antt.
use rayo.Base.{◌%◌, ◌≡◌, refl, inl, inr, false, Bool-cases, arith}
use rayo.Dispatch.Types.{
  TaskId, HandlerResponse, ResponseChannel, sent, abandoned, HandlerTask, EventLoop,
}
use rayo.Dispatch.Channel.{word, channel_of, resolve, close_slot, balance, send, drop}
use rayo.Dispatch.Later.{is_waiting, waiting_count, IsBalanced, Later, Keeps, Closes}
use rayo.Dispatch.Later.Count.{waiting_count-update_same, waiting_count-close}

module _ {W : Type 0} where
  abbrev resolved : EventLoop W → ResponseChannel → TaskId → HandlerTask
  resolved s new i = record (s.tasks i) { channel = close_slot new (channel_of i s) }

  -- Taking the sender out of its slot.
  resolve_counted :
      (s : EventLoop W) (new : ResponseChannel) (i : TaskId)
      → is_waiting new ≡ false
      → IsBalanced s
      → (resolve new i s).in_flight ≡ waiting_count (resolve new i s).tasks s.task_count % word
  unfolding close_slot balance
  resolve_counted s new i done b = elim (Bool-cases (is_waiting (channel_of i s))) [
    | inl open_slot ↦
        ground (
          arith,
          b.fresh i,
          b.counted,
          waiting_count-close s.tasks i (resolved s new i) s.task_count,
        )
    | inr closed ↦
        ground
          (arith, b.counted, waiting_count-update_same s.tasks i (resolved s new i) s.task_count)
  ]

  resolve-Later :
      (s : EventLoop W) (new : ResponseChannel) (i : TaskId)
      → is_waiting new ≡ false
      → Later s (resolve new i s)
  unfolding close_slot balance
  resolve-Later s new i done = record {
    advances = record {
      grows = omega arith;
      balanced = λ b. record {
        counted = resolve_counted s new i done b;
        fresh = λ j h. ground (arith, b.fresh j h);
      };
      answered = λ j h c. ground arith;
      ended = λ j h f. ground arith;
    };
    listed = λ j h. ground (arith, h);
    settled = λ j h. ground (arith, h);
  }

  pub send-Later : (i : TaskId) (r : HandlerResponse) → Keeps (send {W = W} i r)
  unfolding send
  send-Later i r = record { at = λ s. resolve-Later s (sent r) i refl }

  pub drop-Later : (i : TaskId) → Keeps (drop {W = W} i)
  unfolding drop
  drop-Later i = record { at = λ s. resolve-Later s abandoned i refl }

  -- After `send` the slot is empty.
  pub send-closes :
      (i : TaskId) (r : HandlerResponse) (s : EventLoop W)
      → is_waiting (channel_of i (send i r s).1) ≡ false
  unfolding send close_slot
  send-closes i r s = ground arith

  pub send-Closes : (i : TaskId) (r : HandlerResponse) → Closes i (send {W = W} i r)
  send-Closes i r = record { at = send-closes i r }

  pub drop-Closes : (i : TaskId) → Closes i (drop {W = W} i)
  unfolding drop close_slot
  drop-Closes i = record { at = λ s. ground arith }
