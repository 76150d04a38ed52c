-- ===== src/Orchestrator/Turns.antt =====
-- src/smtp_orchestrator.c: the loops over the completions and over the deadlines, and an iteration, as
-- steps of the abstract pool.
use smtpc_cli.Orchestrator.{Slot, Shared, Completion, handle_completion, sweep_slot}
use smtpc_cli.Orchestrator.Loop.{
  Turn, noticed, after_poll, iterate, is_done, Orch, fill_slots, handle_at, handle_completions,
  sweep,
}
use smtpc_cli.Orchestrator.Pool.{PoolSteps, rest}
use smtpc_cli.Orchestrator.Slots.{pool_of, as_number, handle_completion-Settles, sweep_slot-Settles}
use smtpc_cli.Orchestrator.Refines.{
  pool, fill_slots-Refines, InUse, IsServed, Refines, refl-Refines, trans-Refines, head-Refines,
  same-Refines, behind_lem, behind-Refines, reindexed,
}
use smtpc_cli.Connection.State.{Platform}
use smtpc_cli.Common.{
  Bool-cases, Bool, arith, ℕ, zero, suc, ◌+◌, ◌≡◌, ◌≢◌, inl, inr, refl, true, some, List, [], ◌∷◌,
  subst, All, ap, sym, Option-cases,
}

module _ (p : Platform) (target : ℕ) where
  open p use {Engine}

  settle-Refines :
      (c : Completion) (now_ms : ℕ) (sh sh₁ : Shared) (slot slot₁ : Slot Engine)
      (slots : List (Slot Engine))
      → slot.in_use ≡ true
      → handle_completion p c now_ms sh slot ≡ some (sh₁, slot₁)
      → Refines target sh (slot ∷ slots) sh₁ (slot₁ ∷ slots)
  settle-Refines c now_ms sh sh₁ slot slot₁ slots u e =
      let (m, s) = handle_completion-Settles p target c now_ms sh sh₁ slot slot₁ u e in
      head-Refines target sh sh₁ slot slot₁ slots m (λ k.
        reindexed target sh.max_connections sh sh₁ _ _ _ _ (ap (λ b. k + as_number b) (sym u)) refl
          (s k))

  handle_at-Refines :
      (c : Completion) (i now_ms : ℕ) (sh sh' : Shared) (slots slots' : List (Slot Engine))
      → InUse i slots
      → handle_at p c i now_ms sh slots ≡ some (sh', slots')
      → Refines target sh slots sh' slots'
  unfolding handle_at
  handle_at-Refines c i now_ms sh sh' [] slots' u h = cc
  handle_at-Refines c zero now_ms sh sh' (slot ∷ slots) slots' u h =
      elim (Option-cases (handle_completion p c now_ms sh slot)) [
        | inl n ↦ cc
        | inr ((sh₁, slot₁), e) ↦
            let a : sh₁ ≡ sh' = ground arith in
            let b : slot₁ ∷ slots ≡ slots' = ground arith in
            trans-Refines target sh sh₁ sh' (slot ∷ slots) (slot₁ ∷ slots) slots'
              (settle-Refines c now_ms sh sh₁ slot slot₁ slots u e)
              (same-Refines target sh₁ sh' (slot₁ ∷ slots) slots' a b)
      ]
  handle_at-Refines c (suc i) now_ms sh sh' (slot ∷ slots) slots' u h =
      behind-Refines target slot slot sh sh sh' slots slots' (handle_at p c i now_ms sh slots)
        (refl-Refines target sh (slot ∷ slots))
        (λ passed e. handle_at-Refines c i now_ms sh sh' slots passed u e) h

  -- The other slots stay as they are.
  handle_at-InUse :
      (c : Completion) (i j now_ms : ℕ) (sh sh' : Shared) (slots slots' : List (Slot Engine))
      → j ≢ i
      → handle_at p c i now_ms sh slots ≡ some (sh', slots')
      → InUse j slots
      → InUse j slots'
  unfolding handle_at
  handle_at-InUse c i j now_ms sh sh' [] slots' n h u = absurd u
  handle_at-InUse c zero zero now_ms sh sh' (slot ∷ slots) slots' n h u = absurd (n refl)
  handle_at-InUse c zero (suc j) now_ms sh sh' (slot ∷ slots) slots' n h u =
      elim (Option-cases (handle_completion p c now_ms sh slot)) [
        | inl e ↦ cc
        | inr ((sh₁, slot₁), e) ↦
            let b : slot₁ ∷ slots ≡ slots' = ground arith in subst (λ xs. InUse (suc j) xs) b u
      ]
  handle_at-InUse c (suc i) zero now_ms sh sh' (slot ∷ slots) slots' n h u =
      let (passed, e, f) = behind_lem target slot (handle_at p c i now_ms sh slots) sh' slots' h in
      subst (λ xs. InUse zero xs) f u
  handle_at-InUse c (suc i) (suc j) now_ms sh sh' (slot ∷ slots) slots' n h u =
      let (passed, e, f) = behind_lem target slot (handle_at p c i now_ms sh slots) sh' slots' h in
      subst (λ xs. InUse (suc j) xs) f
        (handle_at-InUse c i j now_ms sh sh' slots passed (λ q. n (ap suc q)) e u)

  IsServed-behind :
      (c : Completion) (now_ms : ℕ) (sh sh' : Shared) (slots slots' : List (Slot Engine))
      (cs : List Completion)
      → handle_at p c c.slot now_ms sh slots ≡ some (sh', slots')
      → All (λ d. d.slot ≢ c.slot) cs
      → IsServed cs slots
      → IsServed cs slots'
  IsServed-behind c now_ms sh sh' slots slots' [] h a s = tt
  IsServed-behind c now_ms sh sh' slots slots' (d ∷ cs) h (n, a) (u, b, s) = (
    handle_at-InUse c c.slot d.slot now_ms sh sh' slots slots' n h u,
    b,
    IsServed-behind c now_ms sh sh' slots slots' cs h a s,
  )

  handle_completions-Refines :
      (cs : List Completion) (now_ms : ℕ) (sh sh' : Shared) (slots slots' : List (Slot Engine))
      → IsServed cs slots
      → handle_completions p cs now_ms sh slots ≡ some (sh', slots')
      → Refines target sh slots sh' slots'
  unfolding handle_completions
  handle_completions-Refines [] now_ms sh sh' slots slots' s h =
      same-Refines target sh sh' slots slots' (ground arith) (ground arith)
  handle_completions-Refines (c ∷ cs) now_ms sh sh' slots slots' (u, a, s) h =
      elim (Option-cases (handle_at p c c.slot now_ms sh slots)) [
        | inl n ↦ cc
        | inr ((sh₁, slots₁), e) ↦
            trans-Refines target sh sh₁ sh' slots slots₁ slots'
              (handle_at-Refines c c.slot now_ms sh sh₁ slots slots₁ u e)
              (handle_completions-Refines cs now_ms sh₁ sh' slots₁ slots'
                (IsServed-behind c now_ms sh sh₁ slots slots₁ cs e a s) (ground arith))
      ]

  sweep-Refines :
      (now_ms : ℕ) (sh sh' : Shared) (slots slots' : List (Slot Engine))
      → sweep p now_ms sh slots ≡ some (sh', slots')
      → Refines target sh slots sh' slots'
  unfolding sweep
  sweep-Refines now_ms sh sh' [] slots' h =
      same-Refines target sh sh' [] slots' (ground arith) (ground arith)
  sweep-Refines now_ms sh sh' (slot ∷ slots) slots' h =
      elim (Option-cases (sweep_slot p now_ms sh slot)) [
        | inl n ↦ cc
        | inr ((sh₁, slot₁), e) ↦
            behind-Refines target slot slot₁ sh sh₁ sh' slots slots' (sweep p now_ms sh₁ slots)
              (head-Refines target sh sh₁ slot slot₁ slots
                (sweep_slot-Settles p target now_ms sh sh₁ slot slot₁ 0 e).0
                (λ k. (sweep_slot-Settles p target now_ms sh sh₁ slot slot₁ k e).1))
              (λ passed f. sweep-Refines now_ms sh₁ sh' slots passed f) (ground arith)
      ]

  -- What the reactor promises of a poll: see `IsServed`.
  abbrev pub IsPolled : Turn → Orch Engine → Type 0
  IsPolled turn o =
      (sh' : Shared) (slots' : List (Slot Engine))
      → fill_slots p turn.attempts 0 turn.now_ms target (noticed p turn o.shared) o.slots
        ≡ some (sh', slots')
      → IsServed turn.completions slots'

  after_poll-Refines :
      (turn : Turn) (sh : Shared) (slots : List (Slot Engine)) (o : Orch Engine) (b : Bool)
      → IsServed turn.completions slots
      → after_poll p turn sh slots ≡ some (o, b)
      → Refines target sh slots o.shared o.slots
  unfolding after_poll
  after_poll-Refines turn sh slots o b s h =
      elim (Option-cases (handle_completions p turn.completions turn.then_ms sh slots)) [
        | inl n ↦ cc
        | inr ((sh₁, slots₁), e) ↦ elim (Option-cases (sweep p turn.then_ms sh₁ slots₁)) [
          | inl n ↦ cc
          | inr ((sh₂, slots₂), f) ↦
              trans-Refines target sh sh₁ o.shared slots slots₁ o.slots
                (handle_completions-Refines turn.completions turn.then_ms sh sh₁ slots slots₁ s e)
                (trans-Refines target sh₁ sh₂ o.shared slots₁ slots₂ o.slots
                  (sweep-Refines turn.then_ms sh₁ sh₂ slots₁ slots₂ f)
                  (same-Refines target sh₂ o.shared slots₂ o.slots (ground arith) (ground arith)))
        ]
      ]

  -- The stop flag is no part of the pool.
  noticed-Refines :
      (turn : Turn) (sh : Shared) (slots : List (Slot Engine))
      → Refines target sh slots (noticed p turn sh) slots
  unfolding pool_of
  noticed-Refines turn sh slots = (refl, λ k. rest _)

  iterate-Refines :
      (turn : Turn) (o o' : Orch Engine) (b : Bool)
      → IsPolled turn o
      → iterate p target turn o ≡ some (o', b)
      → Refines target o.shared o.slots o'.shared o'.slots
  unfolding iterate
  iterate-Refines turn o o' b s h =
      let sh = noticed p turn o.shared in
      trans-Refines target o.shared sh o'.shared o.slots o.slots o'.slots
        (noticed-Refines turn o.shared o.slots)
        (elim (Bool-cases sh.stop_requested) [
          | inl t ↦ same-Refines target sh o'.shared o.slots o'.slots (ground arith) (ground arith)
          | inr f ↦
              elim (Option-cases (fill_slots p turn.attempts 0 turn.now_ms target sh o.slots)) [
                | inl n ↦ cc
                | inr ((sh₁, slots₁), e) ↦
                    trans-Refines target sh sh₁ o'.shared o.slots slots₁ o'.slots
                      (fill_slots-Refines target p turn.attempts 0 turn.now_ms sh sh₁ o.slots slots₁
                        e)
                      (elim (Bool-cases (is_done p target sh₁ slots₁)) [
                        | inl d ↦
                            same-Refines target sh₁ o'.shared slots₁ o'.slots (ground arith)
                              (ground arith)
                        | inr d ↦
                            after_poll-Refines turn sh₁ slots₁ o' b (s sh₁ slots₁ e) (ground arith)
                      ])
              ]
        ])

  -- Where the reactor completes nothing but submissions of slots in use, one for each at most, an
  -- iteration that returns is a sequence of steps of the abstract pool, of its reactor's capacity
  -- and the run's target: attempts that are refused or begin, while the target allows it and the
  -- pool has room, or that finish.
  pub iterate-PoolSteps :
      (turn : Turn) (o o' : Orch Engine) (b : Bool)
      → IsPolled turn o
      → iterate p target turn o ≡ some (o', b)
      → (o'.shared.max_connections ≡ o.shared.max_connections)
        × PoolSteps o.shared.max_connections target (pool o) (pool o')
  unfolding pool
  iterate-PoolSteps turn o o' b s h =
      let (m, t) = iterate-Refines turn o o' b s h in
      (
        m,
        reindexed target o.shared.max_connections o.shared o'.shared _ _ _ _ (omega arith)
            (omega arith) (t 0),
      )
