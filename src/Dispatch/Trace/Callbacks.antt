-- ===== src/Dispatch/Trace/Callbacks.antt =====
-- `finish` and the done callbacks: which of them are handed to the loop.
use mathlib.Core.List.{append_assoc, append-nil}
use rayo.Base.{
  ◌≡◌, refl, sym, ap, subst, ◌∙◌, Bool, true, false, State, Bool-cases, inl, inr, pure, ◌>>=◌, List,
  [], ◌∷◌, ◌++◌, ◌==◌, ==_iff, if◌then◌else◌,
}
use rayo.Dispatch.Types.{Object, TaskId, HandlerResponse, CompletionKind, EventLoop}
use rayo.Dispatch.Python.{
  Call, call_soon_callback, unregister_task, print_error, Python, Answer, ok, error, task_state,
  with_state, on_answer, print, call_or_print,
}
use rayo.Dispatch.Channel.{send}
use rayo.Dispatch.Finish.{mark_finished, fire_callbacks, forget, announce, leave, finish}
use rayo.Dispatch.Trace.{Logged, logged, log_of}

-- The callbacks that a call hands to the loop for task `i`, with their contexts.
unfoldable pub handed : TaskId → Call → List (Object × Object)
handed i (call_soon_callback callback j context) = if j == i then (callback, context) ∷ [] else []
handed i _ = []

unfoldable pub all_handed : TaskId → List Call → List (Object × Object)
unfolding handed
all_handed i [] = []
all_handed i (c ∷ calls) = handed i c ++ all_handed i calls

all_handed-append :
    (i : TaskId) (xs ys : List Call) → all_handed i (xs ++ ys) ≡ all_handed i xs ++ all_handed i ys
unfolding all_handed
all_handed-append i [] ys = refl
all_handed-append i (c ∷ xs) ys =
    ap (λ cs. handed i c ++ cs) (all_handed-append i xs ys)
    ∙ sym (append_assoc (handed i c) (all_handed i xs) (all_handed i ys))

handed-own :
    (i : TaskId) (callback context : Object)
    → handed i (call_soon_callback callback i context) ++ [] ≡ (callback, context) ∷ []
unfolding handed
handed-own i callback context = rw ((==_iff i i).1 refl) refl

module _ {W : Type 0} (i : TaskId) where
  -- An operation hands over just these callbacks.
  pub record Hands {A : Type 0} (cs : List (Object × Object)) (m : State (EventLoop (Logged W)) A)
      : Type 0 where
    pub at :
        (s : EventLoop (Logged W)) → all_handed i (log_of (m s).1) ≡ all_handed i (log_of s) ++ cs

  Hands-bind :
      {A B : Type 0} (cs ds : List (Object × Object)) (m : State (EventLoop (Logged W)) A)
      (f : A → State (EventLoop (Logged W)) B)
      → Hands cs m
      → ((a : A) → Hands ds (f a))
      → Hands (cs ++ ds) (m >>= f)
  unfolding ◌>>=◌
  Hands-bind cs ds m f h k = record {
    at = λ s.
        (k (m s).0).at (m s).1
        ∙ ap (λ es. es ++ ds) (h.at s)
        ∙ append_assoc (all_handed i (log_of s)) cs ds;
  }

  Hands-silent :
      {A : Type 0} (m : State (EventLoop (Logged W)) A)
      → ((s : EventLoop (Logged W)) → log_of (m s).1 ≡ log_of s)
      → Hands [] m
  Hands-silent m h = record {
    at = λ s. ap (all_handed i) (h s) ∙ sym (append-nil (all_handed i (log_of s)));
  }

module _ {W : Type 0} (py : Python W) (i : TaskId) where
  call-Hands : (c : Call) → Hands i (handed i c) ((logged py).call c)
  call-Hands c = record {
    at = λ s.
        all_handed-append i (log_of s) (c ∷ [])
        ∙ ap (λ cs. all_handed i (log_of s) ++ cs) (unfold all_handed in append-nil (handed i c));
  }

  print-Hands : (e : Object) → Hands i [] (print (logged py) e)
  unfolding print handed
  print-Hands e =
      Hands-bind i [] [] ((logged py).call (print_error e)) _ (call-Hands (print_error e))
        (λ _. Hands-silent i _ (λ s. refl))

  answer-Hands :
      (answer : Answer) → Hands i [] (on_answer answer (λ _. pure tt) (print (logged py)))
  answer-Hands (ok v) = Hands-silent i _ (λ s. refl)
  answer-Hands (error e) = print-Hands e

  call_or_print-Hands : (c : Call) → Hands i (handed i c ++ []) (call_or_print (logged py) c)
  unfolding call_or_print
  call_or_print-Hands c =
      Hands-bind i (handed i c) [] ((logged py).call c) _ (call-Hands c) answer-Hands

  fire_callbacks-Hands :
      (cs : List (Object × Object)) → Hands i cs (fire_callbacks (logged py) i cs)
  unfolding fire_callbacks
  fire_callbacks-Hands [] = Hands-silent i _ (λ s. refl)
  fire_callbacks-Hands ((callback, context) ∷ rest) =
      Hands-bind i ((callback, context) ∷ []) rest
        (call_or_print (logged py) (call_soon_callback callback i context)) _ (own callback context)
        (λ _. fire_callbacks-Hands rest)
    where
      own :
          (callback context : Object)
          → Hands i
              ((callback, context) ∷ [])
              (call_or_print (logged py) (call_soon_callback callback i context))
      own callback context =
          subst
            (λ cs. Hands i cs (call_or_print (logged py) (call_soon_callback callback i context)))
            (handed-own i callback context)
            (call_or_print-Hands (call_soon_callback callback i context))

  send-Hands : (r : HandlerResponse) → Hands {W = W} i [] (send i r)
  unfolding send
  send-Hands r = Hands-silent i (send i r) (λ s. refl)

  with_state-log :
      (c : CompletionKind) (s : EventLoop (Logged W))
      → log_of (with_state i (mark_finished c) s).1 ≡ log_of s
  unfolding with_state
  with_state-log c s = refl

  announce-Hands :
      (registered : Bool) (cs : List (Object × Object)) (r : HandlerResponse)
      → Hands i cs (announce (logged py) i registered cs r)
  unfolding announce
  announce-Hands registered cs r =
      subst (λ ds. Hands i ds (announce (logged py) i registered cs r)) (append-nil cs)
        (Hands-bind i [] (cs ++ []) _ _ (unregister registered) (λ _.
          Hands-bind i cs [] (fire_callbacks (logged py) i cs) _ (fire_callbacks-Hands cs)
            (λ _. send-Hands r)))
    where
      unregister :
          (registered : Bool)
          → Hands i []
              (if registered then call_or_print (logged py) (unregister_task i) else pure tt)
      unregister true = unfold handed in call_or_print-Hands (unregister_task i)
      unregister false = Hands-silent i _ (λ s. refl)

  leave-Hands :
      (registered : Bool) (cs : List (Object × Object)) (r : HandlerResponse)
      → Hands i cs (leave (logged py) i registered cs r)
  unfolding leave
  leave-Hands registered cs r =
      Hands-bind i [] cs (forget i) _ (Hands-silent i (forget i) (λ s. unfold forget in refl))
        (λ _. announce-Hands registered cs r)

  -- When a running task finishes, each of its done callbacks is handed to the loop exactly once, with
  -- its context, in the order in which they were added. A task that is finished hands over none.
  pub finish-hands :
      (r : HandlerResponse) (c : CompletionKind) (s : EventLoop (Logged W))
      → all_handed i (log_of (finish (logged py) i r c s).1)
        ≡ all_handed i (log_of s)
          ++ (if (task_state i s).finished then [] else (task_state i s).done_callbacks)
  unfolding finish ◌>>=◌
  finish-hands r c s = elim (Bool-cases (task_state i s).finished) [
    | inl f ↦ rw f ((send-Hands r).at s)
    | inr f ↦ rw f (
        (leave-Hands (task_state i s).registered_with_asyncio (task_state i s).done_callbacks r).at
          (with_state i (mark_finished c) s).1
        ∙ ap (λ l. all_handed i l ++ (task_state i s).done_callbacks) (with_state-log c s))
  ]
