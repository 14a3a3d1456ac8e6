-- ===== src/Server.antt =====
-- crates/server/src/lib.rs: `serve`, its accept loop and its graceful shutdown.
pub mod Watched
use rayo.Base.{
  ℕ, ◌+◌, Bool, true, false, ◌&&◌, Option, none, some, List, [], ◌∷◌, ◌++◌, contains, if◌then◌else◌,
}

-- What the runtime reports, in the order in which it does: a connection, a failed accept, the
-- shutdown signal, or the end of a connection's task, with whether it was an error.
pub data Event : Type 0 where
  connected : ℕ → Event
  accept_failed : Event
  signalled : Event
  ended : ℕ → Bool → Event

-- The connections that were handed to a task and are watched for the graceful shutdown, those whose
-- task has ended, how many errors were reported, whether the loop was left, and whether `serve` has
-- returned.
pub record Serving : Type 0 where
  pub watched : List ℕ
  pub finished : List ℕ
  pub errors : ℕ
  pub stopped : Bool
  pub returned : Bool

-- The end of the task that a connection was spawned on.
unfoldable pub end_connection : ℕ → Bool → Serving → Serving
end_connection stream failed s = record s {
  finished = s.finished ++ stream ∷ [];
  errors = s.errors + (if failed then 1 else 0);
}

-- `none` from the loop's body is its `break`.
unfoldable pub accept_round : Event → Serving → Option Serving
unfolding end_connection
accept_round (connected stream) s = some (record s { watched = s.watched ++ stream ∷ [] })
accept_round accept_failed s = some (record s { errors = s.errors + 1 })
accept_round signalled s = none
accept_round (ended stream failed) s = some (end_connection stream failed s)

-- `GracefulShutdown` of hyper-util, a parameter: whether the future of `graceful.shutdown()` is ready,
-- by the connections that are watched and those that ended.
module _ (is_drained : List ℕ → List ℕ → Bool) where
  -- `graceful.shutdown().await`, when nothing is accepted any more.
  unfoldable pub drain_connections : List Event → Serving → Serving
  unfolding end_connection
  drain_connections [] s =
      if is_drained s.watched s.finished then record s { returned = true } else s
  drain_connections (ended stream failed ∷ events) s =
      let rest = drain_connections events (end_connection stream failed s) in
      if is_drained s.watched s.finished then record s { returned = true } else rest
  drain_connections (_ ∷ events) s = drain_connections events s

  unfoldable pub serve_from : List Event → Serving → Serving
  unfolding accept_round drain_connections
  serve_from [] s = s
  serve_from (event ∷ events) s = elim (accept_round event s) [
    | some s' ↦ serve_from events s'
    | none ↦ drain_connections events (record s { stopped = true })
  ]

  unfoldable pub serve : List Event → Serving
  unfolding serve_from
  serve events =
      serve_from events
        (record { watched = []; finished = []; errors = 0; stopped = false; returned = false })

-- The connections that came before the signal.
abbrev pub streams_before : List Event → List ℕ
streams_before [] = []
streams_before (connected stream ∷ events) = stream ∷ streams_before events
streams_before (signalled ∷ events) = []
streams_before (_ ∷ events) = streams_before events
