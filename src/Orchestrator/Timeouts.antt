-- ===== src/Orchestrator/Timeouts.antt =====
-- src/smtp_orchestrator.c: how long a poll may take, and what the timeout check leaves.
use smtpc_cli.Orchestrator.{Slot, Shared, finish_slot, settled, sweep_slot, world_of}
use smtpc_cli.Orchestrator.Loop.{
  sweep, soonest_deadline, timeout_until, next_poll_timeout_ms, Turn, Orch, iterate, noticed,
  after_poll, is_done, fill_slots, handle_completions,
}
use smtpc_cli.Orchestrator.Refines.{behind_lem}
use smtpc_cli.Connection.State.{Platform, Run, done, aborted}
use smtpc_cli.Connection.Io.{emit}
use smtpc_cli.Connection.Machine.{check_timeout, is_terminal}
use Prim.Native.Nat.{min}
use smtpc_cli.Common.{
  Bool, arith, ℕ, ◌-◌, ◌≤◌, ◌<◌, ◌≡◌, refl, true, false, Option, some, none, List, [], ◌∷◌, subst,
  Bool-cases, inl, inr, Option-cases, All, if◌then◌else◌, ltb, ◌⊎◌,
}

-- How long to wait: until the first deadline of a slot in use, not at all if it has passed, and a
-- second at most.
abbrev pub wait : {E : Type 0} → List (Slot E) → ℕ → ℕ
wait [] now_ms = 1000
wait (slot ∷ slots) now_ms =
    if slot.in_use
    then min (slot.conn.deadline_ms - now_ms) (wait slots now_ms)
    else wait slots now_ms

module _ {E : Type 0} where
  wait_le : (slots : List (Slot E)) (now_ms : ℕ) → wait slots now_ms ≤ 1000
  wait_le [] now_ms = omega arith
  wait_le (slot ∷ slots) now_ms = let h = wait_le slots now_ms in ground arith

  soonest_wait :
      (acc : Option ℕ) (slots : List (Slot E)) (now_ms : ℕ)
      → timeout_until (soonest_deadline acc slots) now_ms
        ≡ min (timeout_until acc now_ms) (wait slots now_ms)
  unfolding soonest_deadline timeout_until
  soonest_wait none [] now_ms = omega arith
  soonest_wait (some d) [] now_ms = ground arith
  soonest_wait none (slot ∷ slots) now_ms =
      let h = soonest_wait none slots now_ms in
      let k = soonest_wait (some slot.conn.deadline_ms) slots now_ms in
      let l = wait_le slots now_ms in ground arith
  soonest_wait (some d) (slot ∷ slots) now_ms = elim (Bool-cases (ltb slot.conn.deadline_ms d)) [
    | inl t ↦
        let h = soonest_wait (some d) slots now_ms in
        let k = soonest_wait (some slot.conn.deadline_ms) slots now_ms in ground arith
    | inr t ↦ let h = soonest_wait (some d) slots now_ms in ground arith
  ]

  -- The loop's poll waits until the first deadline of a slot in use, not at all if it has passed,
  -- and 1000 ms at most.
  pub next_poll_timeout_ms-wait :
      (slots : List (Slot E)) (now_ms : ℕ) → next_poll_timeout_ms slots now_ms ≡ wait slots now_ms
  unfolding next_poll_timeout_ms timeout_until
  next_poll_timeout_ms-wait slots now_ms =
      let h = soonest_wait none slots now_ms in let l = wait_le slots now_ms in ground arith

module _ (p : Platform) where
  open p use {Engine}

  -- A slot in use has work to do, and time for it.
  abbrev pub IsTimely : (now_ms : ℕ) → Slot Engine → Type 0
  IsTimely now_ms slot =
      (slot.in_use ≡ false)
      ⊎ ((is_terminal slot.conn.state ≡ false) × (now_ms < slot.conn.deadline_ms))

  settled-IsTimely :
      (now_ms : ℕ) (sh sh' : Shared) (slot slot' : Slot Engine) (r : Run Engine)
      → check_timeout p now_ms (world_of p sh slot) ≡ r
      → settled p sh slot r ≡ some (sh', slot')
      → IsTimely now_ms slot'
  unfolding settled check_timeout finish_slot emit
  settled-IsTimely now_ms sh sh' slot slot' aborted e h = cc
  settled-IsTimely now_ms sh sh' slot slot' (done v) e h = elim (Bool-cases slot'.in_use) [
    | inl t ↦ inr (ground arith)
    | inr f ↦ inl f
  ]

  sweep_slot-IsTimely :
      (now_ms : ℕ) (sh sh' : Shared) (slot slot' : Slot Engine)
      → sweep_slot p now_ms sh slot ≡ some (sh', slot')
      → IsTimely now_ms slot'
  unfolding sweep_slot
  sweep_slot-IsTimely now_ms sh sh' slot slot' h = elim (Bool-cases slot.in_use) [
    | inl t ↦
        settled-IsTimely now_ms sh sh' slot slot' (check_timeout p now_ms (world_of p sh slot)) refl
          (ground arith)
    | inr f ↦ inl (ground arith)
  ]

  sweep-IsTimely :
      (now_ms : ℕ) (sh sh' : Shared) (slots slots' : List (Slot Engine))
      → sweep p now_ms sh slots ≡ some (sh', slots')
      → All (IsTimely now_ms) slots'
  unfolding sweep
  sweep-IsTimely now_ms sh sh' [] slots' h =
      let e : [] ≡ slots' = ground arith in subst (λ xs. All (IsTimely now_ms) xs) e tt
  sweep-IsTimely now_ms sh sh' (slot ∷ slots) slots' h =
      elim (Option-cases (sweep_slot p now_ms sh slot)) [
        | inl n ↦ cc
        | inr ((sh₁, slot₁), e) ↦
            let (passed, f, g) =
              behind_lem 0 slot₁ (sweep p now_ms sh₁ slots) sh' slots' (ground arith) in
            subst (λ xs. All (IsTimely now_ms) xs) g
              (
                sweep_slot-IsTimely now_ms sh sh₁ slot slot₁ e,
                sweep-IsTimely now_ms sh₁ sh' slots passed f,
              )
      ]

  after_poll-IsTimely :
      (t : Turn) (sh : Shared) (slots : List (Slot Engine)) (o : Orch Engine) (b : Bool)
      → after_poll p t sh slots ≡ some (o, b)
      → All (IsTimely t.then_ms) o.slots
  unfolding after_poll
  after_poll-IsTimely t sh slots o b h =
      elim (Option-cases (handle_completions p t.completions t.then_ms sh slots)) [
        | inl n ↦ cc
        | inr ((sh₁, slots₁), e) ↦ elim (Option-cases (sweep p t.then_ms sh₁ slots₁)) [
          | inl n ↦ cc
          | inr ((sh₂, slots₂), f) ↦
              let g : slots₂ ≡ o.slots = ground arith in
              subst (λ xs. All (IsTimely t.then_ms) xs) g
                (sweep-IsTimely t.then_ms sh₁ sh₂ slots₁ slots₂ f)
        ]
      ]

  -- Behind an iteration that the loop goes on from, each slot in use holds a connection that is
  -- not terminal and whose deadline lies ahead of the time behind the poll.
  pub iterate-IsTimely :
      (total_target : ℕ) (t : Turn) (o o' : Orch Engine)
      → iterate p total_target t o ≡ some (o', true)
      → All (IsTimely t.then_ms) o'.slots
  unfolding iterate
  iterate-IsTimely target t o o' h =
      let sh = noticed p t o.shared in
      elim (Bool-cases sh.stop_requested) [
        | inl f ↦ absurd (ground arith)
        | inr f ↦ elim (Option-cases (fill_slots p t.attempts 0 t.now_ms target sh o.slots)) [
          | inl n ↦ cc
          | inr ((sh₁, slots₁), e) ↦ elim (Bool-cases (is_done p target sh₁ slots₁)) [
            | inl d ↦ absurd (ground arith)
            | inr d ↦ after_poll-IsTimely t sh₁ slots₁ o' true (ground arith)
          ]
        ]
      ]
