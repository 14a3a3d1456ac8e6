-- ===== src/Core/Shutdown/Resolves.antt =====
-- `Server::shutdown_impl` and the requests of the loops.
use rayo.Base.{
  ℕ, ◌≡◌, refl, ◌≤◌, ◌<◌, ◌≢◌, ◌*◌, ◌^◌, ◌⊎◌, subst, leb, if◌then◌else◌, Bool, true, false, Option,
  none, some, List, [], ◌∷◌, Option-cases, Bool-cases, inl, inr, arith,
}
use rayo.Dispatch.Types.{EventLoop}
use rayo.Dispatch.Python.{Python}
use rayo.Dispatch.Later.{Later, Later-trans}
use rayo.Dispatch.Acts.{Lawful, Runs}
use rayo.Dispatch.Progress.Loops.{Runs-Later, cancel_in_flight-Keeps}
use rayo.Dispatch.Soundness.Stop.{Later-IsSound}
use rayo.Dispatch.Pool.Fleet.{cancel_pool, stop_pool}
use rayo.Dispatch.Pool.Sound.{AllSound, AllResolved, stop_pool-resolves}
use rayo.Router.{Matchit}
use rayo.Core.Startup.{Server}
use rayo.Core.Shutdown.{
  loops_of, infinity, max_zero, Runtime, cancelled_drain, drain, natural_grace, shutdown_loops,
  shutdown_impl,
}

leb_le : (a b : ℕ) → leb a b ≡ true → a ≤ b
leb_le a b h = ground arith

leb_lt : (a b : ℕ) → leb a b ≡ false → b < a
leb_lt a b h = ground arith

module _ {W : Type 0} (py : Python W) where
  -- Each loop's thread, and other threads, may have run.
  abbrev pub AllRun : List (EventLoop W) → List (EventLoop W) → Type 0
  AllRun [] [] = Unit {0}
  AllRun [] (t ∷ ts) = ⊥
  AllRun (s ∷ ss) [] = ⊥
  AllRun (s ∷ ss) (t ∷ ts) = Runs py s t × AllRun ss ts

  -- Waiting for the serving task does nothing to the loops but let them run.
  pub record Waits (runtime : Runtime W) : Type 0 where
    pub wait_runs :
        (grace : ℕ) (loops : List (EventLoop W)) → AllRun loops (runtime.wait_drained grace loops).1
    pub signal_runs :
        (loops after : List (EventLoop W))
        → runtime.wait_signal loops ≡ some after
        → AllRun loops after
    -- No seconds are a duration.
    pub zero_fits : runtime.from_secs 0 ≢ none

  abbrev pub AllLater : List (EventLoop W) → List (EventLoop W) → Type 0
  AllLater [] [] = Unit {0}
  AllLater [] (t ∷ ts) = ⊥
  AllLater (s ∷ ss) [] = ⊥
  AllLater (s ∷ ss) (t ∷ ts) = Later s t × AllLater ss ts

  AllLater-trans :
      (ss ts us : List (EventLoop W)) → AllLater ss ts → AllLater ts us → AllLater ss us
  AllLater-trans [] [] us h k = k
  AllLater-trans (s ∷ ss) (t ∷ ts) (u ∷ us) h k =
      (Later-trans h.0 k.0, AllLater-trans ss ts us h.1 k.1)
  AllLater-trans [] (t ∷ ts) us h k = elim h [ ]
  AllLater-trans (s ∷ ss) [] us h k = elim h [ ]
  AllLater-trans (s ∷ ss) (t ∷ ts) [] h k = elim k [ ]

  pub AllLater-AllSound : (ss ts : List (EventLoop W)) → AllLater ss ts → AllSound ss → AllSound ts
  AllLater-AllSound [] [] h sound = tt
  AllLater-AllSound (s ∷ ss) (t ∷ ts) h sound =
      (Later-IsSound h.0 sound.0, AllLater-AllSound ss ts h.1 sound.1)
  AllLater-AllSound [] (t ∷ ts) h sound = elim h [ ]
  AllLater-AllSound (s ∷ ss) [] h sound = elim h [ ]

  -- What is resolved for the later loops is so for the earlier ones.
  pub AllLater-AllResolved :
      (ss ts us : List (EventLoop W)) → AllLater ss ts → AllResolved ts us → AllResolved ss us
  AllLater-AllResolved [] [] us h r = tt
  AllLater-AllResolved (s ∷ ss) (t ∷ ts) [] h r = r
  AllLater-AllResolved (s ∷ ss) (t ∷ ts) (u ∷ us) h r =
      (λ j old. r.0 j (omega (arith, h.0.advances.grows)), AllLater-AllResolved ss ts us h.1 r.1)
  AllLater-AllResolved [] (t ∷ ts) us h r = elim h [ ]
  AllLater-AllResolved (s ∷ ss) [] us h r = elim h [ ]

  module _ (law : Lawful py) where
    pub AllRun-AllLater : (ss ts : List (EventLoop W)) → AllRun ss ts → AllLater ss ts
    AllRun-AllLater [] [] h = tt
    AllRun-AllLater (s ∷ ss) (t ∷ ts) h = (Runs-Later py law h.0, AllRun-AllLater ss ts h.1)
    AllRun-AllLater [] (t ∷ ts) h = elim h [ ]
    AllRun-AllLater (s ∷ ss) [] h = elim h [ ]

    cancel_pool-AllLater : (ss : List (EventLoop W)) → AllLater ss (cancel_pool py ss)
    unfolding cancel_pool
    cancel_pool-AllLater [] = tt
    cancel_pool-AllLater (s ∷ ss) = ((cancel_in_flight-Keeps py law).at s, cancel_pool-AllLater ss)

    module _ (runtime : Runtime W) (waits : Waits runtime) where
      wait-AllLater :
          (grace : ℕ) (loops : List (EventLoop W))
          → AllLater loops (runtime.wait_drained grace loops).1
      wait-AllLater grace loops = AllRun-AllLater loops _ (waits.wait_runs grace loops)

      drain-AllLater :
          (grace : ℕ) (loops : List (EventLoop W)) → AllLater loops (drain py runtime grace loops)
      unfolding drain
      drain-AllLater grace loops =
          let after = (runtime.wait_drained grace loops).1 in
          elim (Bool-cases (runtime.wait_drained grace loops).0) [
            | inl e ↦ rw e (wait-AllLater grace loops)
            | inr e ↦ rw e (
                AllLater-trans loops after _ (wait-AllLater grace loops) (
                  AllLater-trans after (cancel_pool py after) _ (cancel_pool-AllLater after)
                    (wait-AllLater cancelled_drain (cancel_pool py after))))
          ]

      -- The grace period: 30 seconds where none is given, and no seconds where it is negative or no
      -- number.
      abbrev pub IsGrace : Option ℕ → ℕ → Type 0
      IsGrace none grace = grace ≡ 30 * 10 ^ 9
      IsGrace (some seconds) grace =
          ((seconds ≤ infinity) × (runtime.from_secs seconds ≡ some grace))
          ⊎ ((infinity < seconds) × (runtime.from_secs 0 ≡ some grace))

      -- The loops when they are stopped: after the grace period where the serving task ended in it,
      -- and otherwise after a cancellation of all that runs and five seconds more.
      abbrev pub IsWaited : ℕ → List (EventLoop W) → List (EventLoop W) → Type 0
      IsWaited grace loops waited =
          (((runtime.wait_drained grace loops).0 ≡ true)
            × (waited ≡ (runtime.wait_drained grace loops).1))
          ⊎ (((runtime.wait_drained grace loops).0 ≡ false)
              × (waited
                  ≡ (runtime.wait_drained (5 * 10 ^ 9)
                      (cancel_pool py (runtime.wait_drained grace loops).1)).1))

      -- Nothing is waited for where an earlier shutdown took the receiver.
      abbrev pub IsDrained : Bool → Option ℕ → List (EventLoop W) → List (EventLoop W) → Type 0
      IsDrained false grace_seconds loops drained = drained ≡ loops
      IsDrained true grace_seconds loops drained =
          (grace : ℕ) × (IsGrace grace_seconds grace × IsWaited grace loops drained)

      -- The period that no duration can hold.
      abbrev pub TooLong : Option ℕ → Type 0
      TooLong none = ⊥
      TooLong (some seconds) = (seconds ≤ infinity) × (runtime.from_secs seconds ≡ none)

      natural_grace-IsGrace :
          (grace_seconds : Option ℕ) (grace : ℕ)
          → natural_grace py runtime grace_seconds ≡ some grace
          → IsGrace grace_seconds grace
      unfolding natural_grace max_zero
      natural_grace-IsGrace none grace e = cc
      natural_grace-IsGrace (some seconds) grace e = elim (Bool-cases (leb seconds infinity)) [
        | inl l ↦ inl (
          leb_le seconds infinity l,
          subst (λ b. runtime.from_secs (if b then seconds else 0) ≡ some grace) l e,
        )
        | inr l ↦ inr (
          leb_lt seconds infinity l,
          subst (λ b. runtime.from_secs (if b then seconds else 0) ≡ some grace) l e,
        )
      ]

      natural_grace-TooLong :
          (grace_seconds : Option ℕ)
          → natural_grace py runtime grace_seconds ≡ none
          → TooLong grace_seconds
      unfolding natural_grace max_zero
      natural_grace-TooLong none e = cc
      natural_grace-TooLong (some seconds) e = elim (Bool-cases (leb seconds infinity)) [
        | inl l ↦ (
          leb_le seconds infinity l,
          subst (λ b. runtime.from_secs (if b then seconds else 0) ≡ none) l e,
        )
        | inr l ↦
            absurd (
              waits.zero_fits
                (subst (λ b. runtime.from_secs (if b then seconds else 0) ≡ none) l e))
      ]

      drain-IsWaited :
          (grace : ℕ) (loops : List (EventLoop W))
          → IsWaited grace loops (drain py runtime grace loops)
      unfolding drain
      drain-IsWaited grace loops = elim (Bool-cases (runtime.wait_drained grace loops).0) [
        | inl e ↦ rw e (inl (refl, refl))
        | inr e ↦ rw e (inr (refl, refl))
      ]

      -- The loops were stopped after the waits, and all the requests are resolved that they had then,
      -- those from before the call among them.
      abbrev pub IsDown : Bool → Option ℕ → List (EventLoop W) → Bool × List (EventLoop W) → Type 0
      IsDown serving grace_seconds loops (true, loops') =
          (serving ≡ true) × (TooLong grace_seconds × (loops' ≡ loops))
      IsDown serving grace_seconds loops (false, loops') =
          (drained : List (EventLoop W)) × (IsDrained serving grace_seconds loops drained
            × ((loops' ≡ stop_pool py drained)
                × (AllSound loops' × (AllResolved drained loops' × AllResolved loops loops'))))

      shutdown_loops-IsDown :
          (serving : Bool) (grace_seconds : Option ℕ) (loops : List (EventLoop W))
          → AllSound loops
          → IsDown serving grace_seconds loops
              (shutdown_loops py runtime serving grace_seconds loops)
      unfolding shutdown_loops
      shutdown_loops-IsDown false grace_seconds loops sound =
          let (still, resolved) = stop_pool-resolves py law loops sound in
          (loops, (refl, (refl, (still, (resolved, resolved)))))
      shutdown_loops-IsDown true grace_seconds loops sound =
          elim (Option-cases (natural_grace py runtime grace_seconds)) [
            | inl e ↦ rw (e, shutdown_loops) (refl, (natural_grace-TooLong grace_seconds e, refl))
            | inr (grace, e) ↦
                let drained = drain py runtime grace loops in
                let later = drain-AllLater grace loops in
                let (still, resolved) =
                  stop_pool-resolves py law drained (AllLater-AllSound loops drained later sound) in
                rw (e, shutdown_loops)
                  (
                    drained,
                    (
                      (
                        grace,
                        (natural_grace-IsGrace grace_seconds grace e, drain-IsWaited grace loops),
                      ),
                      (
                        refl,
                        (still, (resolved, AllLater-AllResolved loops drained _ later resolved)),
                      ),
                    ),
                  )
          ]

      module _ {m : Matchit} where
        pub shutdown_impl-IsDown :
            (server : Server m W) (grace_seconds : Option ℕ)
            → AllSound (loops_of server)
            → let out = shutdown_impl py runtime server grace_seconds in
              IsDown server.serve_finished grace_seconds (loops_of server) (out.0, loops_of out.1)
              × ((out.1.serve_finished ≡ false) × (out.1.shutdown_sent ≡ true))
        unfolding shutdown_impl
        shutdown_impl-IsDown server grace_seconds sound = (
          shutdown_loops-IsDown server.serve_finished grace_seconds (loops_of server) sound,
          (refl, refl),
        )
