-- ===== src/Orchestrator/Bounded.antt =====
-- src/smtp_orchestrator.c: a run with a target.
use smtpc_cli.Orchestrator.Balance.{zero_slots-used, create_lem}
use smtpc_cli.Orchestrator.Slots.{pool_of}
use smtpc_cli.Orchestrator.Lifecycle.{filled_in, Supply, Config, create}
use smtpc_cli.Orchestrator.{Slot, Shared}
use smtpc_cli.Orchestrator.Loop.{
  run, Turn, Orch, iterate, any_in_use, is_done, run_loop, noticed, after_poll, fill_slots,
  handle_completions, sweep,
}
use smtpc_cli.Orchestrator.Pool.{IsExact, PoolSteps-IsExact}
use smtpc_cli.Orchestrator.Refines.{used, pool}
use smtpc_cli.Orchestrator.Turns.{IsPolled, iterate-PoolSteps}
use smtpc_cli.Connection.State.{Platform}
use smtpc_cli.Common.{
  arith, ℕ, ◌^◌, ◌<◌, ◌≡◌, ◌≢◌, refl, Bool, true, false, some, List, [], ◌∷◌, subst, Bool-cases,
  inl, inr, Option-cases, sym, ◌∙◌, ◌+◌, ◌≤◌,
}

module _ (p : Platform) (target : ℕ) where
  open p use {Engine}

  -- What the reactor promises of every poll of a run.
  abbrev pub IsPolledRun : List Turn → Orch Engine → Type 0
  IsPolledRun [] o = Unit
  IsPolledRun (t ∷ ts) o =
      IsPolled p target t o
      × ((o' : Orch Engine) → iterate p target t o ≡ some (o', true) → IsPolledRun ts o')

  any_in_use-used : (slots : List (Slot Engine)) → any_in_use slots ≡ false → used slots ≡ 0
  unfolding any_in_use used
  any_in_use-used [] h = refl
  any_in_use-used (slot ∷ slots) h = let e = any_in_use-used slots in ground arith

  after_poll-goes_on :
      (t : Turn) (sh : Shared) (slots : List (Slot Engine)) (o : Orch Engine) (b : Bool)
      → after_poll p t sh slots ≡ some (o, b)
      → b ≡ true
  unfolding after_poll
  after_poll-goes_on t sh slots o b h =
      elim (Option-cases (handle_completions p t.completions t.then_ms sh slots)) [
        | inl n ↦ cc
        | inr ((sh₁, slots₁), e) ↦ elim (Option-cases (sweep p t.then_ms sh₁ slots₁)) [
          | inl n ↦ cc
          | inr ((sh₂, slots₂), f) ↦ ground arith
        ]
      ]

  done_here :
      (sh₁ : Shared) (slots₁ : List (Slot Engine)) (o' : Orch Engine)
      → sh₁ ≡ o'.shared
      → slots₁ ≡ o'.slots
      → is_done p target sh₁ slots₁ ≡ true
      → is_done p target o'.shared o'.slots ≡ true
  done_here sh₁ slots₁ o' a b d = cc

  -- The loop ends by itself only when it is done.
  iterate-is_done :
      (t : Turn) (o o' : Orch Engine)
      → iterate p target t o ≡ some (o', false)
      → o'.shared.stop_requested ≡ false
      → is_done p target o'.shared o'.slots ≡ true
  unfolding iterate after_poll
  iterate-is_done t o o' h s =
      let sh = noticed p t o.shared in
      elim (Bool-cases sh.stop_requested) [
        | inl f ↦ ground arith
        | inr f ↦ elim (Option-cases (fill_slots p t.attempts 0 t.now_ms target sh o.slots)) [
          | inl n ↦ cc
          | inr ((sh₁, slots₁), e) ↦ elim (Bool-cases (is_done p target sh₁ slots₁)) [
            | inl d ↦ done_here sh₁ slots₁ o' (ground arith) (ground arith) d
            | inr d ↦ (let k = after_poll-goes_on t sh₁ slots₁ o' false (ground arith) in cc)
          ]
        ]
      ]

  iterate-IsExact :
      (t : Turn) (o o' : Orch Engine) (b : Bool)
      → target ≢ 0
      → target < 2 ^ 64
      → IsPolled p target t o
      → iterate p target t o ≡ some (o', b)
      → IsExact target (pool o)
      → IsExact target (pool o')
  iterate-IsExact t o o' b n l s h x =
      PoolSteps-IsExact n l (iterate-PoolSteps p target t o o' b s h).1 x

  run_loop-IsExact :
      (ts : List Turn) (o o' : Orch Engine) (b : Bool)
      → target ≢ 0
      → target < 2 ^ 64
      → IsPolledRun ts o
      → run_loop p target ts o ≡ some (o', b)
      → IsExact target (pool o)
      → IsExact target (pool o')
  unfolding run_loop
  run_loop-IsExact [] o o' b n l s h x =
      let e : o ≡ o' = ground arith in subst (λ y. IsExact target (pool y)) e x
  run_loop-IsExact (t ∷ ts) o o' b n l (s, r) h x = elim (Option-cases (iterate p target t o)) [
    | inl e ↦ cc
    | inr ((o₁, true), e) ↦
        run_loop-IsExact ts o₁ o' b n l (r o₁ e) (ground arith)
          (iterate-IsExact t o o₁ true n l s e x)
    | inr ((o₁, false), e) ↦ iterate-IsExact t o o' false n l s (ground arith) x
  ]

  run_loop-is_done :
      (ts : List Turn) (o o' : Orch Engine)
      → run_loop p target ts o ≡ some (o', false)
      → o'.shared.stop_requested ≡ false
      → is_done p target o'.shared o'.slots ≡ true
  unfolding run_loop
  run_loop-is_done [] o o' h s = cc
  run_loop-is_done (t ∷ ts) o o' h s = elim (Option-cases (iterate p target t o)) [
    | inl e ↦ cc
    | inr ((o₁, true), e) ↦ run_loop-is_done ts o₁ o' (ground arith) s
    | inr ((o₁, false), e) ↦ iterate-is_done t o o' (ground arith) s
  ]

  -- A fresh orchestrator at the start of a run.
  fresh-IsExact :
      (config : Config)
      → IsExact target (
          pool {E = Engine} (record (filled_in config) {
            shared = record ((filled_in {E = Engine} config).shared) { stop_requested = false };
          }))
  unfolding filled_in pool pool_of
  fresh-IsExact config = let z = zero_slots-used Engine config.max_connections in omega (arith, z)

  created-IsExact :
      (supply : Supply) (config : Config) (o₀ : Orch Engine)
      → (create supply config).0 ≡ some o₀
      → IsExact target (pool (record o₀ { shared = record (o₀.shared) { stop_requested = false } }))
  created-IsExact supply config o₀ h =
      subst
        (λ x.
          IsExact target
            (pool (record x { shared = record (x.shared) { stop_requested = false } })))
        (create_lem p supply config o₀ h) (fresh-IsExact config)

  -- A run of a new orchestrator with a target that is not 0 and fits a size_t, where the reactor
  -- completes only submissions of slots in use, one for each at most: whenever it is looked at, no
  -- more attempts have been started than the target, each of them is completed or in a slot, and
  -- each of the completed has succeeded or failed.
  pub run-IsExact :
      (supply : Supply) (config : Config) (o₀ o : Orch Engine) (ts : List Turn) (goes_on : Bool)
      → target ≢ 0
      → target < 2 ^ 64
      → (create supply config).0 ≡ some o₀
      → IsPolledRun ts (record o₀ { shared = record (o₀.shared) { stop_requested = false } })
      → run p target ts o₀ ≡ some (o, goes_on)
      → (o.shared.stats.total_started ≤ target)
        × (o.shared.stats.total_started ≡ o.shared.stats.total_completed + used o.slots)
        × (o.shared.stats.total_completed
            ≡ o.shared.stats.total_succeeded + o.shared.stats.total_failed)
  unfolding run pool pool_of
  run-IsExact supply config o₀ o ts b n l c s h =
      let x = run_loop-IsExact ts _ o b n l s h (created-IsExact supply config o₀ c) in
      (x.bounded, x.started, x.completed)

  done_counts :
      (o : Orch Engine)
      → is_done p target o.shared o.slots ≡ true
      → IsExact target (pool o)
      → (o.shared.stats.total_completed ≡ target) × (used o.slots ≡ 0)
  unfolding is_done pool pool_of
  done_counts o d x = elim (Bool-cases (any_in_use o.slots)) [
    | inl a ↦ ground (arith, x.bounded, x.started)
    | inr a ↦ (let z = any_in_use-used o.slots a in ground (arith, x.bounded, x.started))
  ]

  -- A run of a new orchestrator with a target that is not 0 and fits a size_t, where the reactor
  -- completes only submissions of slots in use, one for each at most, ends by itself, with no stop
  -- request, only when it has completed exactly as many attempts as its target, each of them as a
  -- success or a failure, and no slot is in use.
  pub run-total_completed :
      (supply : Supply) (config : Config) (o₀ o : Orch Engine) (ts : List Turn)
      → target ≢ 0
      → target < 2 ^ 64
      → (create supply config).0 ≡ some o₀
      → IsPolledRun ts (record o₀ { shared = record (o₀.shared) { stop_requested = false } })
      → run p target ts o₀ ≡ some (o, false)
      → o.shared.stop_requested ≡ false
      → (o.shared.stats.total_completed ≡ target)
        × (o.shared.stats.total_succeeded + o.shared.stats.total_failed ≡ target)
        × (used o.slots ≡ 0)
  unfolding run
  run-total_completed supply config o₀ o ts n l c s h q =
      let (_, _, e) = run-IsExact supply config o₀ o ts false n l c s h in
      let x = run_loop-IsExact ts _ o false n l s h (created-IsExact supply config o₀ c) in
      let (f, z) = done_counts o (run_loop-is_done ts _ o h q) x in (f, sym e ∙ f, z)
