-- ===== src/Examples/Orchestrators.antt =====
-- A run of an orchestrator with two attempts: the first gets no socket, the second no connection.
use smtpc_cli.Orchestrator.Resources.{times_acquired, times_released, create-leak}
use smtpc_cli.Orchestrator.Timeouts.{IsTimely, iterate-IsTimely, wait, next_poll_timeout_ms-wait}
use smtpc_cli.Orchestrator.Slots.{pool_of, count_opened, count_closed}
use smtpc_cli.Orchestrator.Refines.{IsServed, used, pool}
use smtpc_cli.Orchestrator.Pool.{PoolSteps}
use smtpc_cli.Orchestrator.Balance.{finish_slot-ne-none}
use smtpc_cli.Orchestrator.Bounded.{IsPolledRun, run-total_completed, run-IsExact}
use smtpc_cli.Orchestrator.Turns.{IsPolled, iterate-PoolSteps}
use smtpc_cli.Examples.Sessions.{pipe}
use smtpc_cli.Orchestrator.{
  Slot, Shared, start_slot, start_with, started, start_connection, finish_slot, settled,
  handle_completion, sweep_slot,
}
use smtpc_cli.Orchestrator.Loop.{
  Turn, Orch, fill_slots, handle_at, handle_completions, sweep, is_done, after_poll, iterate,
  run_loop, run, any_in_use, next_poll_timeout_ms, soonest_deadline, timeout_until,
}
use smtpc_cli.Orchestrator.Lifecycle.{
  Config, Supply, filled_in, zero_slots, format_actor, create, create_tls, create_slots, zero_slot,
  tls_context,
}
use smtpc_cli.Capabilities.Summary.{decimal}
use smtpc_cli.Connection.State.{mode_none, contains_cr_or_lf, error, explicit}
use smtpc_cli.Connection.Io.{emit, fail_with}
use smtpc_cli.Connection.Handlers.{io_connect, handle_connect_completion}
use smtpc_cli.Connection.Machine.{
  connection_start, connection_close, on_io, on_plain_io, dispatch, check_timeout,
}
use smtpc_cli.Common.{
  arith, ℕ, ◌≡◌, refl, Bool, true, false, Option, some, none, List, [], ◌∷◌, codes, ◌+◌, ◌≤◌, All,
  ◌≢◌, subst,
}

abbrev config : Config
config = record {
  max_connections = 2;
  target_addr = record { ip = codes "10.0.0.1"; port = 25 };
  target_host = some (codes "mx");
  ehlo_identity = codes "me";
  tls_mode = mode_none;
  trust = false;
  connect_timeout_ms = 1000;
}

abbrev plenty : Supply
plenty = record { memory = true; reactor = true; tls = true; slots = true }

abbrev orch : Orch ℕ
orch = filled_in config

-- The actor in the log lines.
actor_shown : format_actor 384 config.target_addr config.target_host ≡ codes "10.0.0.1:25 - mx:25"
unfolding format_actor decimal
actor_shown = refl

actor_of_address :
    format_actor 384 config.target_addr (some (codes "10.0.0.1")) ≡ codes "10.0.0.1:25 - n/a"
unfolding format_actor decimal
actor_of_address = refl

abbrev no_socket : Turn
no_socket = record {
  stop = false;
  now_ms = 0;
  attempts = λ _. record { socket = none; registers = true };
  completions = [];
  then_ms = 1000;
}

abbrev no_connection : Turn
no_connection = record {
  stop = false;
  now_ms = 1000;
  attempts = λ _. record { socket = some 7; registers = true };
  completions =
      record {
        slot = 0;
        result = record { kind = io_connect; failed = true; chunk = []; sent = 0 };
        answers = λ _. true;
      }
      ∷ [];
  then_ms = 1500;
}

abbrev turns : List Turn
turns = no_socket ∷ no_connection ∷ no_socket ∷ []

abbrev orch_of : Option (Orch ℕ × Bool) → Orch ℕ
orch_of none = orch
orch_of (some (o, _)) = o

abbrev at_end : Orch ℕ
at_end = orch_of (run pipe 2 turns orch)

failed_twice : at_end.shared.stats.total_failed ≡ 2
unfolding filled_in zero_slots format_actor decimal fill_slots start_slot start_with started
    start_connection connection_start emit contains_cr_or_lf is_done any_in_use handle_completions
    handle_at handle_completion settled finish_slot sweep sweep_slot after_poll iterate run_loop run
    on_io on_plain_io dispatch handle_connect_completion fail_with connection_close
failed_twice = refl

-- The orchestrator between the two attempts, and with the second under way.
abbrev between : Orch ℕ
between = orch_of (iterate pipe 2 no_socket orch)

abbrev slots_of : Option (Shared × List (Slot ℕ)) → List (Slot ℕ)
slots_of none = []
slots_of (some (_, slots)) = slots

abbrev filled_once : Option (Shared × List (Slot ℕ))
filled_once = fill_slots pipe no_connection.attempts 0 1000 2 between.shared between.slots

filled_once-slots :
    (r : Option (Shared × List (Slot ℕ))) (sh : Shared) (slots : List (Slot ℕ))
    → r ≡ some (sh, slots)
    → slots_of r ≡ slots
filled_once-slots none sh slots h = cc
filled_once-slots (some (sh₁, slots₁)) sh slots h = ground arith

between-IsPolled : IsPolled pipe 2 no_connection between
unfolding filled_in zero_slots format_actor decimal fill_slots start_slot start_with started
    start_connection connection_start emit contains_cr_or_lf is_done any_in_use handle_completions
    handle_at handle_completion settled finish_slot sweep sweep_slot after_poll iterate run_loop run
    on_io on_plain_io dispatch handle_connect_completion fail_with connection_close
between-IsPolled sh slots h =
    subst (λ xs. IsServed no_connection.completions xs) (filled_once-slots filled_once sh slots h)
      (refl, tt, tt)

orch_of-some :
    (r : Option (Orch ℕ × Bool)) (o : Orch ℕ) (b : Bool) → r ≡ some (o, b) → orch_of r ≡ o
orch_of-some none o b h = cc
orch_of-some (some (o₁, b₁)) o b h = ground arith

turns-IsPolledRun : IsPolledRun pipe 2 turns orch
unfolding filled_in zero_slots format_actor decimal fill_slots start_slot start_with started
    start_connection connection_start emit contains_cr_or_lf is_done any_in_use handle_completions
    handle_at handle_completion settled finish_slot sweep sweep_slot after_poll iterate run_loop run
    on_io on_plain_io dispatch handle_connect_completion fail_with connection_close used
turns-IsPolledRun = (
  (λ _ _ _. tt),
  λ o h.
      subst (λ x. IsPolledRun pipe 2 (no_connection ∷ no_socket ∷ []) x)
        (orch_of-some (iterate pipe 2 no_socket orch) o true h)
        (between-IsPolled, λ _ _. ((λ _ _ _. tt), λ _ _. tt)),
)

run-total_completed_example :
    (at_end.shared.stats.total_completed ≡ 2)
    × (at_end.shared.stats.total_succeeded + at_end.shared.stats.total_failed ≡ 2)
    × (used at_end.slots ≡ 0)
unfolding filled_in zero_slots format_actor decimal fill_slots start_slot start_with started
    start_connection connection_start emit contains_cr_or_lf is_done any_in_use handle_completions
    handle_at handle_completion settled finish_slot sweep sweep_slot after_poll iterate run_loop run
    on_io on_plain_io dispatch handle_connect_completion fail_with connection_close used pool
    pool_of count_opened count_closed create create_tls create_slots
run-total_completed_example =
    run-total_completed pipe 2 plenty config orch at_end turns (λ h. absurd (omega (arith, h)))
      (omega arith) refl turns-IsPolledRun refl refl

run-IsExact_example :
    (at_end.shared.stats.total_started ≤ 2)
    × (at_end.shared.stats.total_started ≡ at_end.shared.stats.total_completed + used at_end.slots)
    × (at_end.shared.stats.total_completed
        ≡ at_end.shared.stats.total_succeeded + at_end.shared.stats.total_failed)
unfolding filled_in zero_slots format_actor decimal fill_slots start_slot start_with started
    start_connection connection_start emit contains_cr_or_lf is_done any_in_use handle_completions
    handle_at handle_completion settled finish_slot sweep sweep_slot after_poll iterate run_loop run
    on_io on_plain_io dispatch handle_connect_completion fail_with connection_close used pool
    pool_of count_opened count_closed create create_tls create_slots
run-IsExact_example =
    run-IsExact pipe 2 plenty config orch at_end turns false (λ h. absurd (omega (arith, h)))
      (omega arith) refl turns-IsPolledRun refl

iterate-PoolSteps_example :
    (at_end.shared.max_connections ≡ 2) × PoolSteps 2 2 (pool between) (pool at_end)
unfolding filled_in zero_slots format_actor decimal fill_slots start_slot start_with started
    start_connection connection_start emit contains_cr_or_lf is_done any_in_use handle_completions
    handle_at handle_completion settled finish_slot sweep sweep_slot after_poll iterate run_loop run
    on_io on_plain_io dispatch handle_connect_completion fail_with connection_close used pool
    pool_of count_opened count_closed create create_tls create_slots
iterate-PoolSteps_example =
    iterate-PoolSteps pipe 2 no_connection between at_end true between-IsPolled refl

-- A slot that waits for its connection.
abbrev connecting_turn : Turn
connecting_turn = record no_connection { completions = [] }

abbrev connecting_orch : Orch ℕ
connecting_orch = orch_of (iterate pipe 2 connecting_turn orch)

iterate-IsTimely_example : All (IsTimely pipe 1500) connecting_orch.slots
unfolding filled_in zero_slots format_actor decimal fill_slots start_slot start_with started
    start_connection connection_start emit contains_cr_or_lf is_done any_in_use handle_completions
    handle_at handle_completion settled finish_slot sweep sweep_slot after_poll iterate run_loop run
    on_io on_plain_io dispatch handle_connect_completion fail_with connection_close used pool
    pool_of count_opened count_closed create create_tls create_slots check_timeout
iterate-IsTimely_example = iterate-IsTimely pipe 2 connecting_turn orch connecting_orch refl

two_waiting :
    (used connecting_orch.slots ≡ 2) × (next_poll_timeout_ms connecting_orch.slots 1500 ≡ 500)
unfolding filled_in zero_slots format_actor decimal fill_slots start_slot start_with started
    start_connection connection_start emit contains_cr_or_lf is_done any_in_use handle_completions
    handle_at handle_completion settled finish_slot sweep sweep_slot after_poll iterate run_loop run
    on_io on_plain_io dispatch handle_connect_completion fail_with connection_close used pool
    pool_of count_opened count_closed create create_tls create_slots check_timeout
    next_poll_timeout_ms soonest_deadline timeout_until
two_waiting = (refl, refl)

finish_slot-ne-none_example : finish_slot pipe error connecting_orch.shared (zero_slot) ≢ none
unfolding filled_in zero_slots format_actor decimal fill_slots start_slot start_with started
    start_connection connection_start emit contains_cr_or_lf is_done any_in_use handle_completions
    handle_at handle_completion settled finish_slot sweep sweep_slot after_poll iterate run_loop run
    on_io on_plain_io dispatch handle_connect_completion fail_with connection_close used pool
    pool_of count_opened count_closed create create_tls create_slots check_timeout
finish_slot-ne-none_example =
    finish_slot-ne-none pipe error connecting_orch.shared zero_slot 1 (omega arith)

-- TLS is wanted, and there is no memory for the slots.
abbrev no_slots : Supply
no_slots = record { memory = true; reactor = true; tls = true; slots = false }

abbrev tls_config : Config
tls_config = record config { tls_mode = explicit }

create-leak_example :
    times_acquired tls_context (create {E = ℕ} no_slots tls_config).1
    ≡ times_released tls_context (create {E = ℕ} no_slots tls_config).1 + 1
unfolding create create_tls create_slots
create-leak_example = create-leak ℕ no_slots tls_config tls_context refl

next_poll_timeout_ms-wait_example :
    next_poll_timeout_ms connecting_orch.slots 1500 ≡ wait connecting_orch.slots 1500
next_poll_timeout_ms-wait_example = next_poll_timeout_ms-wait connecting_orch.slots 1500
