-- ===== src/Core/Shutdown/Entries.antt =====
-- `wait`, `shutdown` and `Drop`: the ways into `shutdown_impl`, and a shutdown after another.
use rayo.Base.{ℕ, ◌≡◌, refl, sym, subst, Bool, true, false, Option, some, List}
use rayo.Dispatch.Types.{EventLoop}
use rayo.Dispatch.Python.{Python}
use rayo.Dispatch.Acts.{Lawful}
use rayo.Dispatch.Pool.Sound.{AllSound, AllResolved}
use rayo.Router.{Matchit}
use rayo.Core.Startup.{Server}
use rayo.Core.Shutdown.{loops_of, Runtime, shutdown_impl, at_loops, shutdown, drop_server}
use rayo.Core.Shutdown.Resolves.{
  AllRun, Waits, AllLater-AllSound, AllRun-AllLater, TooLong, IsDown, shutdown_impl-IsDown,
}

module _ {W : Type 0} (py : Python W) (law : Lawful py) (runtime : Runtime W)
    (waits : Waits py runtime) where
  IsDown-AllSound :
      (serving panicked : Bool) (grace_seconds : Option ℕ) (loops loops' : List (EventLoop W))
      → AllSound loops
      → IsDown py law runtime waits serving grace_seconds loops (panicked, loops')
      → AllSound loops'
  IsDown-AllSound serving true grace_seconds loops loops' sound h = subst AllSound (sym h.1.1) sound
  IsDown-AllSound serving false grace_seconds loops loops' sound h = h.1.1.1.0

  no_seconds : TooLong py law runtime waits (some 0) → ⊥
  no_seconds long = waits.zero_fits long.1

module _ {W : Type 0} (py : Python W) (law : Lawful py) (runtime : Runtime W)
    (waits : Waits py runtime) {m : Matchit} where
  -- It did not panic, the loops are sound and stopped, and every request is resolved that they had in
  -- the states `loops`.
  abbrev pub IsOver : List (EventLoop W) → Bool × Server m W → Type 0
  IsOver loops out =
      (out.0 ≡ false)
      × (AllSound (loops_of out.1)
          × (AllResolved loops (loops_of out.1)
              × ((out.1.serve_finished ≡ false) × (out.1.shutdown_sent ≡ true))))

  IsDown-IsOver :
      (serving panicked : Bool) (grace_seconds : Option ℕ) (loops : List (EventLoop W))
      (server' : Server m W)
      → (serving ≡ true → TooLong py law runtime waits grace_seconds → panicked ≡ false)
      → IsDown py law runtime waits serving grace_seconds loops (panicked, loops_of server')
      → (server'.serve_finished ≡ false) × (server'.shutdown_sent ≡ true)
      → IsOver loops (panicked, server')
  IsDown-IsOver serving true grace_seconds loops server' fits h k = cc (fits h.0 h.1.0)
  IsDown-IsOver serving false grace_seconds loops server' fits h k =
      let (drained, (_, (_, (still, (_, resolved))))) = h in (refl, (still, (resolved, k)))

  shutdown_impl-IsOver :
      (server : Server m W) (grace_seconds : Option ℕ)
      → AllSound (loops_of server)
      → (server.serve_finished ≡ true
          → TooLong py law runtime waits grace_seconds
          → (shutdown_impl py runtime server grace_seconds).0 ≡ false)
      → IsOver (loops_of server) (shutdown_impl py runtime server grace_seconds)
  shutdown_impl-IsOver server grace_seconds sound fits =
      let out = shutdown_impl py runtime server grace_seconds in
      let down = shutdown_impl-IsDown py law runtime waits server grace_seconds sound in
      IsDown-IsOver server.serve_finished out.0 grace_seconds (loops_of server) out.1 fits down.0
        down.1

  -- A server that is dropped is shut down like that too.
  drop_server-IsOver :
      (server : Server m W)
      → AllSound (loops_of server)
      → IsOver (loops_of server) (drop_server py runtime server)
  unfolding drop_server
  drop_server-IsOver server sound =
      shutdown_impl-IsOver server (some 0) sound
        (λ _ long. absurd (no_seconds py law runtime waits long))

  -- A shutdown after a shutdown, even one that panicked, with any run of the loops and of other threads between the two,
  -- never panics, whatever its grace period, and resolves every request that the loops had when it
  -- was called, those that came in between among them.
  pub shutdown-again :
      (server : Server m W) (first second : Option ℕ) (between : List (EventLoop W))
      → AllSound (loops_of server)
      → AllRun py (loops_of (shutdown py runtime server first).1) between
      → IsOver between (
          shutdown py runtime
            (at_loops py runtime (shutdown py runtime server first).1 between)
            second)
  unfolding shutdown
  shutdown-again server first second between sound runs =
      let out = shutdown_impl py runtime server first in
      let down = shutdown_impl-IsDown py law runtime waits server first sound in
      let still =
        IsDown-AllSound py law runtime waits server.serve_finished out.0 first (loops_of server)
          (loops_of out.1) sound down.0 in
      let later = AllRun-AllLater py law (loops_of out.1) between runs in
      shutdown_impl-IsOver (at_loops py runtime out.1 between) second
        (AllLater-AllSound py (loops_of out.1) between later still) (λ serving _. cc down.1.0)
