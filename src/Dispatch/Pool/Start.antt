-- ===== src/Dispatch/Pool/Start.antt =====
-- `EventLoop::start` and `EventLoopPool::start`.
use rayo.Base.{
  ℕ, zero, suc, ◌+◌, Bool, true, false, Option, none, some, List, [], ◌∷◌, ◌==◌, if◌then◌else◌,
}
use rayo.Dispatch.Types.{Object, EventLoop}
use rayo.Dispatch.Soundness.History.{new_loop}

pub data Hook : Type 0 where
  enter leave register unregister : Hook

pub data StartError : Type 0 where
  asyncio_failed no_thread no_loops : StartError
  missing_hook : Hook → StartError

pub data Started {ℓ} (A : Type ℓ) : Type ℓ where
  ok : A → Started A
  error : StartError → Started A

infixl 5 ◌>>=◌ ◌>>◌
abbrev pub ◌>>=◌ {ℓ κ} : {A : Type ℓ} {B : Type κ} → Started A → (A → Started B) → Started B
ok a >>= f = f a
error e >>= f = error e

abbrev pub ◌>>◌ {ℓ} : {B : Type ℓ} → Started (Unit {0}) → Started B → Started B
m >> k = m >>= λ _. k

abbrev pub check : Bool → StartError → Started (Unit {0})
check true e = ok tt
check false e = error e

-- What asyncio and the system answer when loop `k` is started: the new loop object, whether
-- `asyncio.tasks` has a hook, whether a thread starts.
pub record Host (W : Type 0) : Type 0 where
  pub world : W
  pub new_event_loop : ℕ → Option Object
  pub has_hook : Hook → Bool
  pub spawns : ℕ → Bool

abbrev pub or_fail : Option Object → Started Object
or_fail none = error asyncio_failed
or_fail (some object) = ok object

module _ {W : Type 0} (host : Host W) where
  unfoldable pub start_loop : ℕ → Started (EventLoop W)
  unfolding new_loop
  start_loop k = do
    loop_object ← or_fail (host.new_event_loop k)
    check (host.has_hook enter) (missing_hook enter)
    check (host.has_hook leave) (missing_hook leave)
    check (host.has_hook register) (missing_hook register)
    check (host.has_hook unregister) (missing_hook unregister)
    check (host.spawns k) no_thread
    ok (new_loop host.world loop_object)

  -- The loop over the indices, `k` the next one.
  unfoldable pub start_loops : ℕ → ℕ → Started (List (EventLoop W))
  unfolding start_loop
  start_loops zero k = ok []
  start_loops (suc rest) k = do
    event_loop ← start_loop k
    event_loops ← start_loops rest (k + 1)
    ok (event_loop ∷ event_loops)

  unfoldable pub start_pool : ℕ → Started (List (EventLoop W))
  unfolding start_loops
  start_pool size = if size == 0 then error no_loops else start_loops size 0
