-- ===== src/Orchestrator.antt =====
-- src/smtp_orchestrator.c: the slots, the counters and the loop that drives the connections. What the
-- kernel, the reactor and the clock answer comes in as arguments; `none` is a failed assertion.
pub mod Loop
pub mod Pool
pub mod Slots
pub mod Refines
pub mod Turns
pub mod Lifecycle
pub mod Balance
pub mod Bounded
pub mod Timeouts
pub mod Resources
use smtpc_cli.Connection.State.{
  ConnState, ready, error, TlsMode, Event, Platform, Conn, World, Run, done, aborted,
}
use smtpc_cli.Connection.Handlers.{IoResult}
use smtpc_cli.Connection.Machine.{
  connection_init, connection_start, connection_close, on_io, check_timeout, is_terminal,
}
use smtpc_cli.Capabilities.{Capabilities}
use smtpc_cli.Common.{
  ℕ, ◌+◌, ◌-◌, ◌%◌, ◌^◌, Bool, true, false, not, ◌&&◌, Option, some, none, List, [], ◌∷◌, Bytes,
  ltb, if◌then◌else◌,
}

-- `smtp_orchestrator_slot`, with the events of its connection.
pub record Slot (E : Type 0) : Type 0 where
  pub sock : ℕ
  pub conn : Conn E
  pub events : List Event
  pub in_use : Bool

-- `smtp_orchestrator_stats`: four size_t.
pub record Stats : Type 0 where
  pub total_started : ℕ
  pub total_completed : ℕ
  pub total_succeeded : ℕ
  pub total_failed : ℕ

-- What the orchestrator does to the world, the newest first: sockets that it opens and closes, and the
-- final states that it hands to `on_terminal`.
pub data Effect : Type 0 where
  opened closed : ℕ → Effect
  reported : ConnState → Effect

-- `smtp_orchestrator` but for its slots. `live_count` and `max_connections` are its reactor's; the
-- target address and the thread id are passed through and not modelled.
pub record Shared : Type 0 where
  pub max_connections : ℕ
  pub live_count : ℕ
  pub caps : Capabilities
  pub actor : Bytes
  pub ehlo_identity : Bytes
  pub tls_mode : TlsMode
  pub trust : Bool
  pub connect_timeout_ms : ℕ
  pub next_connection_id : ℕ
  pub stop_requested : Bool
  pub stats : Stats
  pub effects : List Effect

-- What one attempt meets: the result of `socket`, and whether the kernel takes the connect.
pub record Attempt : Type 0 where
  pub socket : Option ℕ
  pub registers : Bool

-- A completion: the slot its `user_data` points into, and the reactor's answers to the submissions that
-- its handler makes.
pub record Completion : Type 0 where
  pub slot : ℕ
  pub result : IoResult
  pub answers : List Event → Bool

-- An increment of a size_t.
abbrev pub incr : ℕ → ℕ
incr n = (n + 1) % 2 ^ 64

abbrev pub with_stats : Stats → Shared → Shared
with_stats stats sh = record sh { stats = stats }

abbrev pub effect : Effect → Shared → Shared
effect e sh = record sh { effects = e ∷ sh.effects }

-- `total_completed++`, and one of the two counters below it.
abbrev pub count_completed : (succeeded : Bool) → Stats → Stats
count_completed true s = record s {
  total_completed = incr s.total_completed;
  total_succeeded = incr s.total_succeeded;
}
count_completed false s = record s {
  total_completed = incr s.total_completed;
  total_failed = incr s.total_failed;
}

abbrev pub is_ready : ConnState → Bool
is_ready ready = true
is_ready _ = false

abbrev pub is_error : ConnState → Bool
is_error error = true
is_error _ = false

module _ (p : Platform) where
  open p use {Engine}

  -- The connection of a slot, with the capabilities that all slots share.
  abbrev pub world_of : Shared → Slot Engine → World Engine
  world_of sh slot = record { conn = slot.conn; caps = sh.caps; events = slot.events }

  -- What a call of the connection leaves in the slot and in the shared capabilities.
  abbrev pub put_slot : World Engine → Slot Engine → Slot Engine
  put_slot w slot = record slot { conn = w.conn; events = w.events }

  abbrev pub put_caps : World Engine → Shared → Shared
  put_caps w sh = record sh { caps = w.caps }

  -- Behind `smtp_connection_start`, with the socket `sock`. The reactor has counted a connect it took.
  unfoldable pub started :
      ℕ → Shared → Slot Engine → Run Engine → Option (Shared × Slot Engine × Bool)
  started sock sh slot aborted = none
  started sock sh slot (done w) =
      let slot' = record (put_slot w slot) { sock = sock } in
      let sh' = put_caps w sh in
      if is_error w.conn.state
      then some
          (with_stats (count_completed false sh.stats) (effect (closed sock) sh'), slot', false)
      else some
          (record sh' { live_count = sh.live_count + 1 }, record slot' { in_use = true }, true)

  -- The connection that a start begins with, and the reactor's answer to its connect.
  unfoldable pub start_connection : (registers : Bool) → ℕ → Shared → Run Engine
  start_connection registers now_ms sh =
      connection_start
        (record p { accepts = λ _. ltb sh.live_count sh.max_connections && registers }) now_ms
        sh.connect_timeout_ms
        (record {
          conn = connection_init sh.actor sh.tls_mode sh.trust;
          caps = sh.caps;
          events = [];
        })

  -- Behind `socket` and `total_started++`.
  unfoldable pub start_with :
      Option ℕ
      → (registers : Bool) → ℕ
      → Shared
      → Slot Engine
      → Option (Shared × Slot Engine × Bool)
  start_with none registers now_ms sh slot =
      some (with_stats (count_completed false sh.stats) sh, slot, false)
  start_with (some sock) registers now_ms sh slot =
      started sock
        (record (effect (opened sock) sh) {
          next_connection_id = (sh.next_connection_id + 1) % 2 ^ 32;
        })
        slot (start_connection registers now_ms sh)

  -- `smtp_orch_start_slot`; the Boolean is its result.
  unfoldable pub start_slot :
      Attempt → ℕ → Shared → Slot Engine → Option (Shared × Slot Engine × Bool)
  unfolding start_with
  start_slot attempt now_ms sh slot =
      start_with attempt.socket attempt.registers now_ms
        (with_stats (record (sh.stats) { total_started = incr sh.stats.total_started }) sh) slot

  -- `smtp_orch_finish_slot`, with a callback. `smtp_reactor_forget` asserts that a connection is live.
  unfoldable pub finish_slot : ConnState → Shared → Slot Engine → Option (Shared × Slot Engine)
  finish_slot final_state sh slot =
      let w = connection_close (world_of sh slot) in
      let sh' = effect (closed slot.sock) (effect (reported final_state) sh) in
      if not (ltb 0 sh.live_count)
      then none
      else some (
        with_stats (count_completed (is_ready final_state) sh.stats)
            (record sh' { live_count = sh.live_count - 1 }),
        record (put_slot w slot) { in_use = false },
      )

  -- Behind a call of the connection: a terminal state gives the slot up.
  unfoldable pub settled : Shared → Slot Engine → Run Engine → Option (Shared × Slot Engine)
  settled sh slot aborted = none
  settled sh slot (done w) =
      if is_terminal w.conn.state
      then finish_slot w.conn.state (put_caps w sh) (put_slot w slot)
      else some (put_caps w sh, put_slot w slot)

  -- The body of the loop over the completions.
  unfoldable pub handle_completion :
      Completion → ℕ → Shared → Slot Engine → Option (Shared × Slot Engine)
  handle_completion c now_ms sh slot =
      settled sh slot (
        on_io (record p { accepts = c.answers }) c.result sh.ehlo_identity now_ms
          (world_of sh slot))

  -- The body of the timeout check.
  unfoldable pub sweep_slot : ℕ → Shared → Slot Engine → Option (Shared × Slot Engine)
  sweep_slot now_ms sh slot =
      if not slot.in_use
      then some (sh, slot)
      else settled sh slot (check_timeout p now_ms (world_of sh slot))
