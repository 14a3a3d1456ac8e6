-- ===== src/Dispatch/Trace/Thrown.antt =====
-- A cancellation of a task that has its coroutine: what its next turn throws.
use rayo.Base.{◌≡◌, State, true, List, ◌∷◌, ◌++◌}
use rayo.Dispatch.Types.{Object, TaskId, EventLoop}
use rayo.Dispatch.Python.{Call, throw, Python, ok}
use rayo.Dispatch.Acts.{Lawful}
use rayo.Dispatch.Trace.{Logged, logged, log_of}
use rayo.Dispatch.Trace.Grows.{Grows}

-- The log of calls `after` is `before` with this call in it, and others around it.
abbrev pub IsCalled : Call → List Call → List Call → Type 0
IsCalled c before after = (cs : List Call) × ((ds : List Call) × (after ≡ before ++ (cs ++ c ∷ ds)))

module _ {W : Type 0} where
  -- An operation that makes this call.
  record Makes {A : Type 0} (c : Call) (m : State (EventLoop (Logged W)) A) : Type 0 where
    at : (s : EventLoop (Logged W)) → IsCalled c (log_of s) (log_of (m s).1)

module _ {W : Type 0} (inner : Python W) where
  abbrev py : Python (Logged W)
  py = logged inner

  -- The interpreter answers this call without an error.
  abbrev pub Succeeds : Call → Type 0
  Succeeds d = (s : EventLoop (Logged W)) → (v : Object) × ((py.call d s).0 ≡ ok v)

  module _ (law : Lawful py) (i : TaskId) (c x : Object) where
    -- The turn threw a `CancelledError` into the coroutine.
    abbrev pub IsThrown : List Call → List Call → Type 0
    IsThrown before after =
        (thrown : Object) × ((py.is_cancelled_error thrown ≡ true)
          × IsCalled (throw c thrown) before after)
