-- ===== src/Dispatch/Later.antt =====
-- How a loop's state may change: the order in which every operation of the crate moves it, and the
-- rules by which a block of operations is seen to keep to that order.
mod Count
pub mod Slots
pub mod Moves
use rayo.Base.{
  ℕ, zero, suc, ◌+◌, ◌%◌, ◌≤◌, ◌<◌, ◌≡◌, refl, ap, ◌∙◌, ◌≢◌, Bool, true, false, Option, none, some,
  State, pure, gets, ◌>>=◌, contains, if◌then◌else◌, ◌==◌, arith,
}
use rayo.Dispatch.Types.{
  Object, TaskId, ResponseChannel, waiting, sent, abandoned, HandlerTask, TaskState, EventLoop,
}
use rayo.Dispatch.Python.{Answer, ok, error, task_state, on_answer, on_some}
use rayo.Dispatch.Channel.{word, channel_of}

abbrev pub is_waiting : ResponseChannel → Bool
is_waiting waiting = true
is_waiting (sent r) = false
is_waiting abandoned = false

-- How many of the first `n` tasks still owe a response.
abbrev pub waiting_count : (ℕ → HandlerTask) → ℕ → ℕ
waiting_count tasks zero = 0
waiting_count tasks (suc n) =
    (if is_waiting (tasks n).channel then 1 else 0) + waiting_count tasks n

module _ {W : Type 0} where
  -- The gauge counts the tasks that owe a response.
  pub record IsBalanced (s : EventLoop W) : Type 0 where
    pub counted : s.in_flight ≡ waiting_count s.tasks s.task_count % word
    pub fresh : (j : TaskId) → s.task_count ≤ j → is_waiting (channel_of j s) ≡ false

  -- A task that owes a response and is not finished is in the registry.
  abbrev pub IsListed : TaskId → EventLoop W → Type 0
  IsListed j s =
      is_waiting (channel_of j s) ≡ true
      → (task_state j s).finished ≡ false
      → contains j s.live_tasks ≡ true

  -- A finished task owes no response.
  abbrev pub IsSettled : TaskId → EventLoop W → Type 0
  IsSettled j s = (task_state j s).finished ≡ true → is_waiting (channel_of j s) ≡ false

-- The fields that tell how a task ended.
abbrev pub SameEnd : TaskState → TaskState → Type 0
SameEnd t u =
    (u.finished ≡ t.finished)
    × (u.finished_cancelled ≡ t.finished_cancelled)
    × (u.cancelled_message ≡ t.cancelled_message)
    × (u.stored_result ≡ t.stored_result)
    × (u.stored_exception ≡ t.stored_exception)

SameEnd-trans : (t u v : TaskState) → SameEnd t u → SameEnd u v → SameEnd t v
SameEnd-trans t u v a b = (b.0 ∙ a.0, b.1 ∙ a.1, b.2 ∙ a.2, b.3 ∙ a.3, b.4 ∙ a.4)

module _ {W : Type 0} where
  -- No task goes away, the gauge stays right, a response and an end are for good.
  pub record Advances (s t : EventLoop W) : Type 0 where
    pub grows : s.task_count ≤ t.task_count
    pub balanced : IsBalanced s → IsBalanced t
    pub answered :
        (j : TaskId)
        → j < s.task_count
        → is_waiting (channel_of j s) ≡ false
        → channel_of j t ≡ channel_of j s
    pub ended :
        (j : TaskId)
        → j < s.task_count
        → (task_state j s).finished ≡ true
        → SameEnd (task_state j s) (task_state j t)

  -- Besides, no task drops out of the registry or is left finished without a response.
  pub record Later (s t : EventLoop W) : Type 0 where
    pub advances : Advances s t
    pub listed : (j : TaskId) → IsListed j s → IsListed j t
    pub settled : (j : TaskId) → IsSettled j s → IsSettled j t

  pub Advances-refl : (s : EventLoop W) → Advances s s
  Advances-refl s = record {
    grows = omega arith;
    balanced = λ b. b;
    answered = λ j h c. refl;
    ended = λ j h f. (refl, refl, refl, refl, refl);
  }

  pub Advances-trans : {s t u : EventLoop W} → Advances s t → Advances t u → Advances s u
  Advances-trans {s} {t} {u} a b = record {
    grows = omega (arith, a.grows, b.grows);
    balanced = λ h. b.balanced (a.balanced h);
    answered = λ j h c.
        let same = a.answered j h c in
        b.answered j (omega (arith, a.grows)) (ground (arith, same)) ∙ same;
    ended = λ j h f.
        let first = a.ended j h f in
        SameEnd-trans (task_state j s) (task_state j t) (task_state j u) first
          (b.ended j (omega (arith, a.grows)) (first.0 ∙ f));
  }

  -- A response that is not owed any more stays so.
  pub Advances-closed :
      {s t : EventLoop W} (j : TaskId)
      → Advances s t
      → j < s.task_count
      → is_waiting (channel_of j s) ≡ false
      → is_waiting (channel_of j t) ≡ false
  Advances-closed j a h c = ap is_waiting (a.answered j h c) ∙ c

  pub Later-refl : (s : EventLoop W) → Later s s
  Later-refl s = record { advances = Advances-refl s; listed = λ j h. h; settled = λ j h. h }

  pub Later-trans : {s t u : EventLoop W} → Later s t → Later t u → Later s u
  Later-trans a b = record {
    advances = Advances-trans a.advances b.advances;
    listed = λ j h. b.listed j (a.listed j h);
    settled = λ j h. b.settled j (a.settled j h);
  }

module _ {W A : Type 0} where
  -- An operation that only moves the state along.
  pub record Keeps (m : State (EventLoop W) A) : Type 0 where
    pub at : (s : EventLoop W) → Later s (m s).1

  pub Keeps-pure : (a : A) → Keeps (pure a)
  Keeps-pure a = record { at = λ s. Later-refl s }

  pub Keeps-gets : (f : EventLoop W → A) → Keeps (gets f)
  Keeps-gets f = record { at = λ s. Later-refl s }

  pub Keeps-if :
      (b : Bool) (m n : State (EventLoop W) A) → Keeps m → Keeps n → Keeps (if b then m else n)
  Keeps-if true m n km kn = km
  Keeps-if false m n km kn = kn

  pub Keeps-answer :
      (a : Answer) (f g : Object → State (EventLoop W) A)
      → ((v : Object) → Keeps (f v))
      → ((e : Object) → Keeps (g e))
      → Keeps (on_answer a f g)
  Keeps-answer (ok v) f g kf kg = kf v
  Keeps-answer (error e) f g kf kg = kg e

  pub Keeps-some :
      {B : Type 0} (o : Option B) (f : B → State (EventLoop W) A) (m : State (EventLoop W) A)
      → ((b : B) → Keeps (f b))
      → Keeps m
      → Keeps (on_some o f m)
  Keeps-some (some b) f m kf km = kf b
  Keeps-some none f m kf km = km

module _ {W A B : Type 0} where
  pub Keeps-bind :
      (m : State (EventLoop W) A) (f : A → State (EventLoop W) B)
      → Keeps m
      → ((a : A) → Keeps (f a))
      → Keeps (m >>= f)
  unfolding ◌>>=◌
  Keeps-bind m f km kf = record {
    at = λ s. let (a, s') = m s in Later-trans (km.at s) ((kf a).at s');
  }

pub ruleset keeps_rules = (Keeps-pure, Keeps-gets, Keeps-if, Keeps-answer, Keeps-some, Keeps-bind)

-- An operation that leaves the task's slot empty.
module _ {W A : Type 0} where
  pub record Closes (i : TaskId) (m : State (EventLoop W) A) : Type 0 where
    pub at : (s : EventLoop W) → is_waiting (channel_of i (m s).1) ≡ false

  pub Closes-if :
      {i : TaskId} (b : Bool) (m n : State (EventLoop W) A)
      → Closes i m
      → Closes i n
      → Closes i (if b then m else n)
  Closes-if true m n cm cn = cm
  Closes-if false m n cm cn = cn

module _ {W A B : Type 0} where
  pub Closes-bind :
      {i : TaskId} (m : State (EventLoop W) A) (f : A → State (EventLoop W) B)
      → ((a : A) → Closes i (f a))
      → Closes i (m >>= f)
  unfolding ◌>>=◌
  Closes-bind m f cf = record { at = λ s. let (a, s') = m s in (cf a).at s' }

-- An operation that leaves the task registered, should it still owe a response.
module _ {W A : Type 0} where
  pub record Lists (i : TaskId) (m : State (EventLoop W) A) : Type 0 where
    pub at : (s : EventLoop W) → IsListed i (m s).1

  pub Lists-answer :
      {i : TaskId} (a : Answer) (f g : Object → State (EventLoop W) A)
      → ((v : Object) → Lists i (f v))
      → ((e : Object) → Lists i (g e))
      → Lists i (on_answer a f g)
  Lists-answer (ok v) f g kf kg = kf v
  Lists-answer (error e) f g kf kg = kg e

module _ {W A B : Type 0} where
  pub Lists-bind :
      {i : TaskId} (m : State (EventLoop W) A) (f : A → State (EventLoop W) B)
      → ((a : A) → Lists i (f a))
      → Lists i (m >>= f)
  unfolding ◌>>=◌
  Lists-bind m f cf = record { at = λ s. let (a, s') = m s in (cf a).at s' }

  pub Lists-Keeps :
      {i : TaskId} (m : State (EventLoop W) A) (f : A → State (EventLoop W) B)
      → Lists i m
      → ((a : A) → Keeps (f a))
      → Lists i (m >>= f)
  unfolding ◌>>=◌
  Lists-Keeps {i = i} m f lm kf = record {
    at = λ s. let (a, s') = m s in ((kf a).at s').listed i (lm.at s);
  }

  pub Lists-Closes :
      {i : TaskId} (m : State (EventLoop W) A) (f : A → State (EventLoop W) B)
      → Closes i m
      → ((a : A) → Keeps (f a))
      → Lists i (m >>= f)
  Lists-Closes {i = i} m f cm kf = Lists-Keeps m f (record { at = λ s w. cc (cm.at s) }) kf

pub ruleset closes_rules = (Closes-if, Closes-bind)
