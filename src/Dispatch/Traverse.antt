-- ===== src/Dispatch/Traverse.antt =====
-- `HandlerTask.__traverse__`: the objects that the task shows to the cycle collector.
use rayo.Base.{
  ℕ, zero, suc, refl, arith, get_elem?, ◌≡◌, Bool, true, Option, none, some, List, [], ◌∷◌, ◌++◌,
  if◌then◌else◌,
}
use rayo.Dispatch.Types.{Object, TaskState, HandlerTask}

-- `visit.call` on an optional field.
abbrev pub held : Option Object → List Object
held none = []
held (some o) = o ∷ []

unfoldable pub callback_objects : List (Object × Object) → List Object
callback_objects [] = []
callback_objects ((callback, callback_context) ∷ rest) =
    callback ∷ callback_context ∷ callback_objects rest

-- The fields in the order of their visits.
unfoldable pub state_objects : TaskState → List Object
unfolding callback_objects
state_objects t =
    held t.coroutine
    ++ (held t.context
        ++ (held t.waiting_on
            ++ (held t.deferred_throw
                ++ (held t.cancel_message
                    ++ (held t.cancelled_message
                        ++ (held t.name
                            ++ (held t.stored_result
                                ++ (held t.stored_exception
                                    ++ callback_objects t.done_callbacks))))))))

-- The visits up to the first that stops the traversal, with what it gives.
unfoldable pub visit_all : (Object → Option ℕ) → List Object → Option ℕ
visit_all visit [] = none
visit_all visit (o ∷ rest) = elim (visit o) [ some stop ↦ some stop | none ↦ visit_all visit rest ]

-- `unlocked`: whether `try_lock` gets the lock.
unfoldable pub traverse : Bool → (Object → Option ℕ) → HandlerTask → Option ℕ
unfolding visit_all state_objects
traverse unlocked visit task =
    visit_all visit
      (task.handler ∷ task.handler_kwargs ∷ (if unlocked then state_objects task.state else []))

-- The references that a task has, with what it shares through its loop's handles left out.
pub data Owns (task : HandlerTask) (o : Object) : Type 0 where
  by_handler : task.handler ≡ o → Owns task o
  by_kwargs : task.handler_kwargs ≡ o → Owns task o
  by_coroutine : task.state.coroutine ≡ some o → Owns task o
  by_context : task.state.context ≡ some o → Owns task o
  by_wait : task.state.waiting_on ≡ some o → Owns task o
  by_throw : task.state.deferred_throw ≡ some o → Owns task o
  by_request : task.state.cancel_message ≡ some o → Owns task o
  by_end : task.state.cancelled_message ≡ some o → Owns task o
  by_name : task.state.name ≡ some o → Owns task o
  by_result : task.state.stored_result ≡ some o → Owns task o
  by_exception : task.state.stored_exception ≡ some o → Owns task o
  by_callback :
      (i : ℕ) (context : Object)
      → get_elem? task.state.done_callbacks i ≡ some (o, context)
      → Owns task o
  by_callback_context :
      (i : ℕ) (callback : Object)
      → get_elem? task.state.done_callbacks i ≡ some (callback, o)
      → Owns task o

module _ (visit : Object → Option ℕ) where
  visit_all-cons :
      (o : Object) (rest : List Object)
      → visit_all visit (o ∷ rest) ≡ none
      → (visit o ≡ none) × (visit_all visit rest ≡ none)
  unfolding visit_all
  visit_all-cons o rest h = ground arith

  visit_all-append :
      (xs ys : List Object)
      → visit_all visit (xs ++ ys) ≡ none
      → (visit_all visit xs ≡ none) × (visit_all visit ys ≡ none)
  unfolding visit_all
  visit_all-append [] ys h = (refl, h)
  visit_all-append (x ∷ xs) ys h = ground (arith, visit_all-append xs ys)

  visit-held :
      (field : Option Object) (o : Object)
      → visit_all visit (held field) ≡ none
      → field ≡ some o
      → visit o ≡ none
  unfolding visit_all
  visit-held none o h e = cc
  visit-held (some p) o h e = ground arith

  visit-callback :
      (cs : List (Object × Object)) (i : ℕ) (callback context : Object)
      → visit_all visit (callback_objects cs) ≡ none
      → get_elem? cs i ≡ some (callback, context)
      → (visit callback ≡ none) × (visit context ≡ none)
  unfolding visit_all callback_objects
  visit-callback [] i callback context h e = cc
  visit-callback ((c, k) ∷ cs) zero callback context h e = ground arith
  visit-callback ((c, k) ∷ cs) (suc i) callback context h e =
      ground (arith, visit-callback cs i callback context)

  abbrev Passes : Option Object → Type 0
  Passes field = visit_all visit (held field) ≡ none

  abbrev AllPass : TaskState → Type 0
  AllPass t =
      Passes t.coroutine
      × Passes t.context
      × Passes t.waiting_on
      × Passes t.deferred_throw
      × Passes t.cancel_message
      × Passes t.cancelled_message
      × Passes t.name
      × Passes t.stored_result
      × Passes t.stored_exception
      × (visit_all visit (callback_objects t.done_callbacks) ≡ none)

  state_objects-AllPass : (t : TaskState) → visit_all visit (state_objects t) ≡ none → AllPass t
  unfolding state_objects
  state_objects-AllPass t h0 =
      let (a, h1) = visit_all-append (held t.coroutine) _ h0 in
      let (b, h2) = visit_all-append (held t.context) _ h1 in
      let (c, h3) = visit_all-append (held t.waiting_on) _ h2 in
      let (d, h4) = visit_all-append (held t.deferred_throw) _ h3 in
      let (e, h5) = visit_all-append (held t.cancel_message) _ h4 in
      let (f, h6) = visit_all-append (held t.cancelled_message) _ h5 in
      let (g, h7) = visit_all-append (held t.name) _ h6 in
      let (k, h8) = visit_all-append (held t.stored_result) _ h7 in
      let (l, h9) = visit_all-append (held t.stored_exception) _ h8 in
      (a, b, c, d, e, f, g, k, l, h9)

  -- A traversal that got the lock and was not stopped has visited every object that the task
  -- refers to: its handler and arguments, all that its state holds, and the callbacks with their
  -- contexts.
  pub traverse-Owns :
      (task : HandlerTask) (o : Object)
      → traverse true visit task ≡ none
      → Owns task o
      → visit o ≡ none
  unfolding traverse
  traverse-Owns task o h owns =
      let (handler, rest) =
        visit_all-cons task.handler (task.handler_kwargs ∷ state_objects task.state) h in
      let (kwargs, fields) = visit_all-cons task.handler_kwargs (state_objects task.state) rest in
      let (a, b, c, d, e, f, g, k, l, callbacks) = state_objects-AllPass task.state fields in
      elim owns [
        | by_handler p ↦ cc
        | by_kwargs p ↦ cc
        | by_coroutine p ↦ visit-held task.state.coroutine o a p
        | by_context p ↦ visit-held task.state.context o b p
        | by_wait p ↦ visit-held task.state.waiting_on o c p
        | by_throw p ↦ visit-held task.state.deferred_throw o d p
        | by_request p ↦ visit-held task.state.cancel_message o e p
        | by_end p ↦ visit-held task.state.cancelled_message o f p
        | by_name p ↦ visit-held task.state.name o g p
        | by_result p ↦ visit-held task.state.stored_result o k p
        | by_exception p ↦ visit-held task.state.stored_exception o l p
        | by_callback i context p ↦
            (visit-callback task.state.done_callbacks i o context callbacks p).0
        | by_callback_context i callback p ↦
            (visit-callback task.state.done_callbacks i callback o callbacks p).1
      ]
