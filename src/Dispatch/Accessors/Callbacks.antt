-- ===== src/Dispatch/Accessors/Callbacks.antt =====
-- `remove_done_callback`: what it takes out, what it leaves, and what it returns.
use rayo.Base.{
  ℕ, suc, ◌+◌, ◌≡◌, refl, Bool, true, false, List, [], ◌∷◌, length, Bool-cases, inl, inr,
  if◌then◌else◌, ◌>>=◌, arith,
}
use rayo.Dispatch.Types.{Object, TaskId, EventLoop}
use rayo.Dispatch.Python.{Python, task_state}
use rayo.Dispatch.Later.Moves.{with_state-same}
use rayo.Dispatch.Accessors.{retain_others, drop_callback, remove_done_callback}

module _ (equal : Object → Object → Bool) (callback : Object) where
  -- How many of the callbacks are equal to the one given.
  unfoldable pub count_equal : List (Object × Object) → ℕ
  count_equal [] = 0
  count_equal ((existing, context) ∷ rest) =
      let n = count_equal rest in if equal existing callback then suc n else n

  -- The callbacks of a part of a list, in their order, where those left out are all equal to the one
  -- given and those kept are not.
  pub data IsRest : List (Object × Object) → List (Object × Object) → Type 0 where
    done : IsRest [] []
    leaves :
        {before after : List (Object × Object)} (existing context : Object)
        → equal existing callback ≡ true
        → IsRest before after
        → IsRest ((existing, context) ∷ before) after
    keeps :
        {before after : List (Object × Object)} (existing context : Object)
        → equal existing callback ≡ false
        → IsRest before after
        → IsRest ((existing, context) ∷ before) ((existing, context) ∷ after)

  retain_others-IsRest : (cs : List (Object × Object)) → IsRest cs (retain_others equal callback cs)
  unfolding retain_others
  retain_others-IsRest [] = done
  retain_others-IsRest ((existing, context) ∷ rest) = elim (Bool-cases (equal existing callback)) [
    | inl e ↦ rw e (leaves existing context e (retain_others-IsRest rest))
    | inr e ↦ rw e (keeps existing context e (retain_others-IsRest rest))
  ]

  length-retain_others :
      (cs : List (Object × Object))
      → length (retain_others equal callback cs) + count_equal cs ≡ length cs
  unfolding retain_others count_equal
  length-retain_others [] = refl
  length-retain_others ((existing, context) ∷ rest) = ground (arith, length-retain_others rest)

module _ {W : Type 0} (py : Python W) where
  -- `remove_done_callback` takes out the callbacks that are equal to the one given, leaves the others
  -- in their order, and returns how many it took out.
  pub remove_done_callback-IsRest :
      (i : TaskId) (callback : Object) (s : EventLoop W)
      → let (removed, s') = remove_done_callback py i callback s in
        IsRest py.equal callback (task_state i s).done_callbacks (task_state i s').done_callbacks
        × (removed ≡ count_equal py.equal callback (task_state i s).done_callbacks)
  unfolding remove_done_callback ◌>>=◌
  remove_done_callback-IsRest i callback s =
      let before = (task_state i s).done_callbacks in
      rw (with_state-same i (drop_callback py.equal callback) s) (
        unfold drop_callback in
        (
          retain_others-IsRest py.equal callback before,
          omega (arith, length-retain_others py.equal callback before),
        ))
