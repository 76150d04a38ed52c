-- ===== src/Orchestrator/Pool.antt =====
-- src/smtp_orchestrator.c: what the orchestrator promises, as an abstract machine. A pool of at most
-- `capacity` attempts in flight, with its counters; the counters of the program are size_t.
use smtpc_cli.Common.{◌⊎◌, ◌≢◌, arith, ℕ, ◌+◌, ◌-◌, ◌%◌, ◌^◌, ◌≤◌, ◌<◌, ◌≡◌, Bool, true, false}
use smtpc_cli.Orchestrator.{incr}

pub record Pool : Type 0 where
  pub live : ℕ
  pub in_flight : ℕ
  pub started : ℕ
  pub completed : ℕ
  pub succeeded : ℕ
  pub failed : ℕ
  pub opened : ℕ
  pub closed : ℕ

-- An attempt that fails at once, without a socket or with one that is closed again.
abbrev pub refused : (sockets : ℕ) → Pool → Pool
refused sockets x = record x {
  started = incr x.started;
  completed = incr x.completed;
  failed = incr x.failed;
  opened = x.opened + sockets;
  closed = x.closed + sockets;
}

abbrev pub begun : Pool → Pool
begun x = record x {
  live = x.live + 1;
  in_flight = x.in_flight + 1;
  started = incr x.started;
  opened = x.opened + 1;
}

abbrev pub finished : (succeeded : Bool) → Pool → Pool
finished true x = record x {
  live = x.live - 1;
  in_flight = x.in_flight - 1;
  completed = incr x.completed;
  succeeded = incr x.succeeded;
  closed = x.closed + 1;
}
finished false x = record x {
  live = x.live - 1;
  in_flight = x.in_flight - 1;
  completed = incr x.completed;
  failed = incr x.failed;
  closed = x.closed + 1;
}

-- A bounded pool, whose `target` is not 0, starts no more attempts than that.
abbrev pub Allows : (target started : ℕ) → Type 0
Allows target started = (target ≡ 0) ⊎ (started < target)

pub data PoolStep (capacity target : ℕ) : Pool → Pool → Type 0 where
  refuse :
      (x : Pool) (sockets : ℕ)
      → Allows target x.started
      → sockets ≤ 1
      → PoolStep capacity target x (refused sockets x)
  begin :
      (x : Pool)
      → Allows target x.started
      → x.live < capacity
      → PoolStep capacity target x (begun x)
  finish :
      (x : Pool) (succeeded : Bool)
      → 0 < x.live
      → 0 < x.in_flight
      → PoolStep capacity target x (finished succeeded x)

-- Any number of steps.
pub data PoolSteps (capacity target : ℕ) : Pool → Pool → Type 0 where
  rest : (x : Pool) → PoolSteps capacity target x x
  more :
      {x y z : Pool}
      → PoolStep capacity target x y
      → PoolSteps capacity target y z
      → PoolSteps capacity target x z

pub PoolSteps-trans :
    {capacity target : ℕ} {x y z : Pool}
    → PoolSteps capacity target x y
    → PoolSteps capacity target y z
    → PoolSteps capacity target x z
PoolSteps-trans (rest _) t = t
PoolSteps-trans (more s u) t = more s (PoolSteps-trans u t)

-- The reactor counts what is in flight, within its capacity; what has started is in flight or
-- completed, what has completed has succeeded or failed; a socket is open or closed.
pub record IsBalanced (capacity : ℕ) (x : Pool) : Type 0 where
  pub counted : x.live ≡ x.in_flight
  pub within : x.live ≤ capacity
  pub started : x.started ≡ (x.completed + x.in_flight) % 2 ^ 64
  pub completed : x.completed ≡ (x.succeeded + x.failed) % 2 ^ 64
  pub sockets : x.opened ≡ x.closed + x.in_flight

step-IsBalanced :
    {capacity target : ℕ} {x y : Pool}
    → PoolStep capacity target x y
    → IsBalanced capacity x
    → IsBalanced capacity y
step-IsBalanced (refuse x n a h) b = omega arith
step-IsBalanced (begin x a h) b = omega arith
step-IsBalanced (finish x true h k) b = omega arith
step-IsBalanced (finish x false h k) b = omega arith

pub PoolSteps-IsBalanced :
    {capacity target : ℕ} {x y : Pool}
    → PoolSteps capacity target x y
    → IsBalanced capacity x
    → IsBalanced capacity y
PoolSteps-IsBalanced (rest _) b = b
PoolSteps-IsBalanced (more s t) b = PoolSteps-IsBalanced t (step-IsBalanced s b)

-- A bounded pool has started no more than its target, and no counter of it has wrapped around.
pub record IsExact (target : ℕ) (x : Pool) : Type 0 where
  pub bounded : x.started ≤ target
  pub started : x.started ≡ x.completed + x.in_flight
  pub completed : x.completed ≡ x.succeeded + x.failed

step-IsExact :
    {capacity target : ℕ} {x y : Pool}
    → target ≢ 0
    → target < 2 ^ 64
    → PoolStep capacity target x y
    → IsExact target x
    → IsExact target y
step-IsExact n l (refuse x k a h) b = omega arith
step-IsExact n l (begin x a h) b = omega arith
step-IsExact n l (finish x true h k) b = omega arith
step-IsExact n l (finish x false h k) b = omega arith

pub PoolSteps-IsExact :
    {capacity target : ℕ} {x y : Pool}
    → target ≢ 0
    → target < 2 ^ 64
    → PoolSteps capacity target x y
    → IsExact target x
    → IsExact target y
PoolSteps-IsExact n l (rest _) b = b
PoolSteps-IsExact n l (more s t) b = PoolSteps-IsExact n l t (step-IsExact n l s b)
