-- ===== src/Dispatch/Later/Count.antt =====
-- Counting the tasks that owe a response, as one task changes.
use rayo.Base.{ℕ, zero, suc, ◌≤◌, ◌<◌, ◌≡◌, refl, true, false, update, arith}
use rayo.Dispatch.Types.{HandlerTask}
use rayo.Dispatch.Later.{is_waiting, waiting_count}

module _ (f : ℕ → HandlerTask) (i : ℕ) (t : HandlerTask) where
  pub waiting_count-update_same :
      (n : ℕ)
      → is_waiting t.channel ≡ is_waiting (f i).channel
      → waiting_count (update f i t) n ≡ waiting_count f n
  waiting_count-update_same zero h = refl
  waiting_count-update_same (suc n) h = ground (arith, waiting_count-update_same n h)

  pub waiting_count-update_above :
      (n : ℕ) → n ≤ i → waiting_count (update f i t) n ≡ waiting_count f n
  waiting_count-update_above zero h = refl
  waiting_count-update_above (suc n) h = ground (arith, waiting_count-update_above n (omega arith))

  pub waiting_count-close :
      (n : ℕ)
      → i < n
      → is_waiting (f i).channel ≡ true
      → is_waiting t.channel ≡ false
      → waiting_count f n ≡ suc (waiting_count (update f i t) n)
  waiting_count-close zero h w c = elim h [ ]
  waiting_count-close (suc n) h w c =
      ground (arith, waiting_count-close n, waiting_count-update_above n)
