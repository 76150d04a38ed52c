-- ===== src/Orchestrator/Balance.antt =====
-- src/smtp_orchestrator.c: what holds in every state that an orchestrator reaches.
use smtpc_cli.Orchestrator.{Slot, Shared, finish_slot}
use smtpc_cli.Orchestrator.Loop.{Turn, Orch, iterate}
use smtpc_cli.Orchestrator.Lifecycle.{
  create_slots, create_tls, create, Supply, Config, filled_in, zero_slots,
}
use smtpc_cli.Orchestrator.Pool.{IsBalanced, PoolSteps-IsBalanced}
use smtpc_cli.Orchestrator.Slots.{pool_of}
use smtpc_cli.Orchestrator.Refines.{used, pool}
use smtpc_cli.Orchestrator.Turns.{IsPolled, iterate-PoolSteps}
use smtpc_cli.Connection.State.{Platform, ConnState}
use smtpc_cli.Common.{◌≢◌, ◌+◌, none, arith, ℕ, zero, suc, ◌≡◌, refl, Bool, some, subst, sym}

pub zero_slots-used : (E : Type 0) (n : ℕ) → used (zero_slots {E = E} n) ≡ 0
unfolding used zero_slots
zero_slots-used E zero = refl
zero_slots-used E (suc n) = omega (arith, zero_slots-used E n)

module _ (p : Platform) where
  open p use {Engine}

  -- The states that an orchestrator reaches from `o`: by a stop request or the start of a run, which
  -- set the flag, and by the iterations of its runs.
  pub data Reaches (o : Orch Engine) : Orch Engine → Type 0 where
    here : Reaches o o
    flag :
        (o₁ : Orch Engine) (stop : Bool)
        → Reaches o o₁
        → Reaches o (record o₁ { shared = record (o₁.shared) { stop_requested = stop } })
    turn :
        (o₁ o₂ : Orch Engine) (total_target : ℕ) (t : Turn) (goes_on : Bool)
        → Reaches o o₁
        → IsPolled p total_target t o₁
        → iterate p total_target t o₁ ≡ some (o₂, goes_on)
        → Reaches o o₂

  -- What the reactor counts is what is in use, within its capacity; the counters and the sockets add up.
  abbrev pub Balances : Orch Engine → Type 0
  Balances o = IsBalanced o.shared.max_connections (pool o)

  created-Balances : (config : Config) → Balances (filled_in config)
  unfolding filled_in pool pool_of
  created-Balances config =
      let z = zero_slots-used Engine config.max_connections in omega (arith, z)

  flag-Balances :
      (o : Orch Engine) (stop : Bool)
      → Balances o
      → Balances (record o { shared = record (o.shared) { stop_requested = stop } })
  unfolding pool pool_of
  flag-Balances o stop b = b

  turn-Balances :
      (o o' : Orch Engine) (total_target : ℕ) (t : Turn) (goes_on : Bool)
      → IsPolled p total_target t o
      → iterate p total_target t o ≡ some (o', goes_on)
      → Balances o
      → Balances o'
  turn-Balances o o' target t b s h i =
      let (m, r) = iterate-PoolSteps p target t o o' b s h in
      subst (λ c. IsBalanced c (pool o')) (sym m) (PoolSteps-IsBalanced r i)

  pub Reaches-Balances :
      (config : Config) (o : Orch Engine) → Reaches (filled_in config) o → Balances o
  Reaches-Balances config _ here = created-Balances config
  Reaches-Balances config _ (flag o₁ stop r) = flag-Balances o₁ stop (Reaches-Balances config o₁ r)
  Reaches-Balances config _ (turn o₁ o₂ target t b r s h) =
      turn-Balances o₁ o₂ target t b s h (Reaches-Balances config o₁ r)

  pub create_lem :
      (supply : Supply) (config : Config) (o : Orch Engine)
      → (create supply config).0 ≡ some o
      → filled_in config ≡ o
  unfolding create create_tls create_slots
  create_lem supply config o h = ground arith

  -- The assertion of `smtp_reactor_forget` holds for a slot in use of a balanced orchestrator.
  pub finish_slot-ne-none :
      (s : ConnState) (sh : Shared) (slot : Slot Engine) (others : ℕ)
      → IsBalanced sh.max_connections (pool_of sh (others + 1))
      → finish_slot p s sh slot ≢ none
  unfolding finish_slot pool_of
  finish_slot-ne-none s sh slot others b h = ground arith
