-- ===== src/Core/Shutdown.antt =====
-- `Server::shutdown_impl`, which `wait`, `shutdown` and `Drop` call.
pub mod Resolves
pub mod Entries
use rayo.Base.{ℕ, ◌*◌, ◌^◌, Bool, true, false, Option, none, some, List, leb, if◌then◌else◌}
use rayo.Dispatch.Types.{EventLoop}
use rayo.Dispatch.Python.{Python}
use rayo.Dispatch.Pool.Fleet.{cancel_pool, stop_pool, total_in_flight}
use rayo.Router.{Matchit}
use rayo.Core.Startup.{Server}

-- The two waits for the serving task, in nanoseconds.
abbrev pub default_shutdown_grace : ℕ
default_shutdown_grace = 30 * 10 ^ 9

abbrev pub cancelled_drain : ℕ
cancelled_drain = 5 * 10 ^ 9

-- The bits of the infinite `f64`. Above it are those that are no numbers, and the negative ones.
abbrev pub infinity : ℕ
infinity = 9218868437227405312

-- `f64::max(0.0)`, on bits.
unfoldable pub max_zero : ℕ → ℕ
max_zero seconds = if leb seconds infinity then seconds else 0

-- `from_secs` is `Duration::from_secs_f64` of the bits, in nanoseconds; `none` where it panics.
-- `wait_drained` is the timeout on the serving task: whether it ended in time, and the loops, whose
-- threads run meanwhile.
pub record Runtime (W : Type 0) : Type 0 where
  pub from_secs : ℕ → Option ℕ
  pub wait_drained : ℕ → List (EventLoop W) → Bool × List (EventLoop W)
  -- The loops at the end of the `select!` of `wait`, by Ctrl+C or by a shutdown that comes after the
  -- call; `none` where neither comes.
  pub wait_signal : List (EventLoop W) → Option (List (EventLoop W))

module _ {W : Type 0} (py : Python W) (runtime : Runtime W) where
  -- Grace, then cancellation, then the second wait.
  unfoldable pub drain : ℕ → List (EventLoop W) → List (EventLoop W)
  drain natural_grace loops =
      let (drained_naturally, after) = runtime.wait_drained natural_grace loops in
      if drained_naturally
      then after
      else (runtime.wait_drained cancelled_drain (cancel_pool py after)).1

  -- The grace period; `none` is the panic.
  unfoldable pub natural_grace : Option ℕ → Option ℕ
  unfolding max_zero
  natural_grace none = some default_shutdown_grace
  natural_grace (some seconds) = runtime.from_secs (max_zero seconds)

  -- Whether `shutdown_impl` panics, and the loops after it; the first Boolean says whether the
  -- receiver was still there.
  unfoldable pub shutdown_loops : Bool → Option ℕ → List (EventLoop W) → Bool × List (EventLoop W)
  unfolding drain natural_grace
  shutdown_loops false grace_seconds loops = (false, stop_pool py loops)
  shutdown_loops true grace_seconds loops = elim (natural_grace grace_seconds) [
    | none ↦ (true, loops)
    | some grace ↦ (false, stop_pool py (drain grace loops))
  ]

  module _ {m : Matchit} where
    -- The signal is sent and the receiver taken before anything can panic.
    abbrev pub with_loops : Server m W → Bool × List (EventLoop W) → Bool × Server m W
    with_loops server (panicked, loops') = (
      panicked,
      record server {
        service = record server.service {
          event_loops = record server.service.event_loops { loops = loops' };
        };
        serve_finished = false;
        shutdown_sent = true;
      },
    )

    -- The Boolean says whether it panics.
    unfoldable pub shutdown_impl : Server m W → Option ℕ → Bool × Server m W
    unfolding shutdown_loops
    shutdown_impl server grace_seconds =
        with_loops server
          (shutdown_loops server.serve_finished grace_seconds server.service.event_loops.loops)

module _ {W : Type 0} (py : Python W) (runtime : Runtime W) {m : Matchit} where
  -- The server with other states of its loops.
  abbrev pub at_loops : Server m W → List (EventLoop W) → Server m W
  at_loops server loops' = record server {
    service = record server.service {
      event_loops = record server.service.event_loops { loops = loops' };
    };
  }

  -- `none` where it waits for ever.
  unfoldable pub wait : Server m W → Option (Bool × Server m W)
  unfolding shutdown_impl
  wait server = elim (runtime.wait_signal server.service.event_loops.loops) [
    | none ↦ none
    | some loops' ↦ some (shutdown_impl py runtime (at_loops server loops') none)
  ]

  unfoldable pub shutdown : Server m W → Option ℕ → Bool × Server m W
  unfolding shutdown_impl
  shutdown server grace_seconds = shutdown_impl py runtime server grace_seconds

  -- `Drop for Server`; the bits of 0.0 are 0.
  unfoldable pub drop_server : Server m W → Bool × Server m W
  unfolding shutdown_impl
  drop_server server = shutdown_impl py runtime server (some 0)

module _ {m : Matchit} {W : Type 0} where
  abbrev pub loops_of : Server m W → List (EventLoop W)
  loops_of server = server.service.event_loops.loops

  -- The getters.
  unfoldable pub port : Server m W → ℕ
  port server = server.port

  unfoldable pub in_flight : Server m W → ℕ
  unfolding total_in_flight
  in_flight server = total_in_flight server.service.event_loops
