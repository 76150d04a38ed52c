-- ===== src/Orchestrator/Loop.antt =====
-- src/smtp_orchestrator.c: the loop of `smtp_orchestrator_run`, and the calls around it.
use smtpc_cli.Orchestrator.{
  Slot, Stats, Shared, Attempt, Completion, start_slot, handle_completion, sweep_slot,
}
use smtpc_cli.Connection.State.{Platform}
use smtpc_cli.Common.{
  ℕ, zero, suc, ◌+◌, ◌-◌, Bool, true, false, not, ◌&&◌, ◌||◌, Option, some, none, List, [], ◌∷◌,
  ltb, leb, ◌==◌, if◌then◌else◌,
}

-- `SMTP_ORCH_MAX_POLL_INTERVAL_MS`
abbrev pub max_poll_interval_ms : ℕ
max_poll_interval_ms = 1000

-- What one iteration meets: a stop request from another thread since the last look, the clock before
-- and behind the poll, what an attempt in each slot meets, and the completions of the poll.
pub record Turn : Type 0 where
  pub stop : Bool
  pub now_ms : ℕ
  pub attempts : ℕ → Attempt
  pub completions : List Completion
  pub then_ms : ℕ

-- `total_target != 0 && total_started >= total_target`
abbrev pub all_started : (total_target : ℕ) → Shared → Bool
all_started total_target sh = not (total_target == 0) && leb total_target sh.stats.total_started

abbrev pub all_completed : (total_target : ℕ) → Shared → Bool
all_completed total_target sh = leb total_target sh.stats.total_completed

-- `any_in_use`
unfoldable pub any_in_use : {E : Type 0} → List (Slot E) → Bool
any_in_use [] = false
any_in_use (slot ∷ slots) = slot.in_use || any_in_use slots

-- The loop of `smtp_orch_next_poll_timeout_ms`: the soonest deadline of the slots in use.
unfoldable pub soonest_deadline : {E : Type 0} → Option ℕ → List (Slot E) → Option ℕ
soonest_deadline soonest [] = soonest
soonest_deadline soonest (slot ∷ slots) =
    if not slot.in_use then soonest_deadline soonest slots else elim soonest [
      | none ↦ soonest_deadline (some slot.conn.deadline_ms) slots
      | some d ↦
          soonest_deadline (some (if ltb slot.conn.deadline_ms d then slot.conn.deadline_ms else d))
            slots
    ]

unfoldable pub timeout_until : Option ℕ → (now_ms : ℕ) → ℕ
timeout_until none now_ms = max_poll_interval_ms
timeout_until (some soonest) now_ms =
    if leb soonest now_ms
    then 0
    else if ltb (soonest - now_ms) max_poll_interval_ms
    then soonest - now_ms
    else max_poll_interval_ms

-- `smtp_orch_next_poll_timeout_ms`
unfoldable pub next_poll_timeout_ms : {E : Type 0} → List (Slot E) → (now_ms : ℕ) → ℕ
next_poll_timeout_ms slots now_ms = timeout_until (soonest_deadline none slots) now_ms

-- The orchestrator: its slots are `max_connections` many.
pub record Orch (E : Type 0) : Type 0 where
  pub shared : Shared
  pub slots : List (Slot E)

module _ {E : Type 0} where
  -- A loop's result, with the slot that it has passed.
  abbrev pub behind : Slot E → Option (Shared × List (Slot E)) → Option (Shared × List (Slot E))
  behind slot none = none
  behind slot (some (sh, slots)) = some (sh, slot ∷ slots)

  -- Behind a start: a failure breaks out of the loop, whose rest is `next`.
  abbrev pub continued :
      Option (Shared × Slot E × Bool)
      → List (Slot E)
      → (Shared → Option (Shared × List (Slot E)))
      → Option (Shared × List (Slot E))
  continued none slots next = none
  continued (some (sh, slot, true)) slots next = behind slot (next sh)
  continued (some (sh, slot, false)) slots next = some (sh, slot ∷ slots)

module _ (p : Platform) where
  open p use {Engine}

  -- The loop that fills the free slots, from slot `i` on.
  unfoldable pub fill_slots :
      (ℕ → Attempt)
      → (i now_ms total_target : ℕ) → Shared
      → List (Slot Engine)
      → Option (Shared × List (Slot Engine))
  fill_slots attempts i now_ms total_target sh [] = some (sh, [])
  fill_slots attempts i now_ms total_target sh (slot ∷ slots) =
      if slot.in_use
      then behind slot (fill_slots attempts (i + 1) now_ms total_target sh slots)
      else if all_started total_target sh
      then some (sh, slot ∷ slots)
      else continued (start_slot p (attempts i) now_ms sh slot) slots
          (λ sh'. fill_slots attempts (i + 1) now_ms total_target sh' slots)

  -- A completion for slot `i` of the list. A `user_data` that points into no slot has no meaning.
  unfoldable pub handle_at :
      Completion
      → (i now_ms : ℕ) → Shared
      → List (Slot Engine)
      → Option (Shared × List (Slot Engine))
  handle_at c i now_ms sh [] = none
  handle_at c zero now_ms sh (slot ∷ slots) = elim (handle_completion p c now_ms sh slot) [
    | none ↦ none
    | some (sh', slot') ↦ some (sh', slot' ∷ slots)
  ]
  handle_at c (suc i) now_ms sh (slot ∷ slots) = behind slot (handle_at c i now_ms sh slots)

  -- The loop over the completions.
  unfoldable pub handle_completions :
      List Completion
      → (now_ms : ℕ) → Shared
      → List (Slot Engine)
      → Option (Shared × List (Slot Engine))
  handle_completions [] now_ms sh slots = some (sh, slots)
  handle_completions (c ∷ cs) now_ms sh slots = elim (handle_at c c.slot now_ms sh slots) [
    | none ↦ none
    | some (sh', slots') ↦ handle_completions cs now_ms sh' slots'
  ]

  -- The timeout check of all slots.
  unfoldable pub sweep :
      (now_ms : ℕ) → Shared → List (Slot Engine) → Option (Shared × List (Slot Engine))
  sweep now_ms sh [] = some (sh, [])
  sweep now_ms sh (slot ∷ slots) = elim (sweep_slot p now_ms sh slot) [
    | none ↦ none
    | some (sh', slot') ↦ behind slot' (sweep now_ms sh' slots)
  ]

  -- The loop's two breaks behind the fill.
  unfoldable pub is_done : (total_target : ℕ) → Shared → List (Slot Engine) → Bool
  is_done total_target sh slots =
      all_started total_target sh && all_completed total_target sh
      || not (any_in_use slots) && all_started total_target sh

  -- Behind the poll; the Boolean says whether the loop goes on.
  unfoldable pub after_poll : Turn → Shared → List (Slot Engine) → Option (Orch Engine × Bool)
  after_poll turn sh slots = elim (handle_completions turn.completions turn.then_ms sh slots) [
    | none ↦ none
    | some (sh', slots') ↦ elim (sweep turn.then_ms sh' slots') [
      | none ↦ none
      | some (sh'', slots'') ↦ some (record { shared = sh''; slots = slots'' }, true)
    ]
  ]

  -- `atomic_load(&orch->stop_requested)`
  abbrev pub noticed : Turn → Shared → Shared
  noticed turn sh = record sh { stop_requested = sh.stop_requested || turn.stop }

  -- One iteration.
  unfoldable pub iterate : (total_target : ℕ) → Turn → Orch Engine → Option (Orch Engine × Bool)
  iterate total_target turn o =
      let sh = noticed turn o.shared in
      if sh.stop_requested
      then some (record o { shared = sh }, false)
      else elim (fill_slots turn.attempts 0 turn.now_ms total_target sh o.slots) [
        | none ↦ none
        | some (sh', slots) ↦
            if is_done total_target sh' slots
            then some (record { shared = sh'; slots = slots }, false)
            else after_poll turn sh' slots
      ]

  -- The loop over the turns that the world has to offer; the Boolean says whether it wants more.
  unfoldable pub run_loop :
      (total_target : ℕ) → List Turn → Orch Engine → Option (Orch Engine × Bool)
  run_loop total_target [] o = some (o, true)
  run_loop total_target (turn ∷ turns) o = elim (iterate total_target turn o) [
    | none ↦ none
    | some (o', false) ↦ some (o', false)
    | some (o', true) ↦ run_loop total_target turns o'
  ]

  -- `smtp_orchestrator_run`
  unfoldable pub run : (total_target : ℕ) → List Turn → Orch Engine → Option (Orch Engine × Bool)
  run total_target turns o =
      run_loop total_target turns
        (record o { shared = record (o.shared) { stop_requested = false } })

  -- `smtp_orchestrator_request_stop`
  unfoldable pub request_stop : Orch Engine → Orch Engine
  request_stop o = record o { shared = record (o.shared) { stop_requested = true } }

  -- `smtp_orchestrator_get_stats`
  unfoldable pub get_stats : Orch Engine → Stats
  get_stats o = o.shared.stats
