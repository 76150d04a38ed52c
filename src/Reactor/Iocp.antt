-- ===== src/Reactor/Iocp.antt =====
-- src/smtp_reactor_windows.c: the back end on I/O completion ports. An operation starts when it is
-- submitted; a poll takes what has completed. The system calls are a parameter.
use smtpc_cli.Common.Ledger.{Holding, acquired, released}
use smtpc_cli.Reactor.{
  Answer, err_invalid_arg, err_alloc_failed, err_backend_create_failed, err_at_capacity,
  err_register_failed, Op, Completed, Reactor, op_of,
}
use smtpc_cli.Connection.Handlers.{io_connect, io_read, io_write}
use smtpc_cli.Common.{
  ℕ, ◌+◌, ◌-◌, ◌==◌, Bool, true, false, not, Option, some, none, List, [], ◌∷◌, if◌then◌else◌, ltb,
  leb, ◌++◌,
}

-- What WSAGetOverlappedResult says: the bytes transferred, or an error.
pub data Overlapped : Type 0 where
  transferred : ℕ → Overlapped
  failed : (err : ℕ) → Overlapped

-- The system calls, on a state of the kernel. A start is true if the operation has begun, be it that it is
-- still pending. `dequeue` is GetQueuedCompletionStatusEx: the operations whose completions it removes, of
-- which there are none on a timeout.
pub record Port : Type 1 where
  pub State : Type 0
  pub bind : (sock : ℕ) → State → Bool × State
  pub associate : (sock : ℕ) → State → Bool × State
  pub connect_ex : Op → State → Bool × State
  pub recv : Op → State → Bool × State
  pub send : Op → State → Bool × State
  pub dequeue : (request timeout_ms : ℕ) → State → List Op × State
  pub overlapped_result : Op → State → Overlapped × State
  pub update_connect_context : (sock : ℕ) → State → State

pub data Resource : Type 0 where
  winsock reactor_memory port_handle probe_socket entry_memory : Resource

-- Which of the calls of a creation succeed.
pub record Supply : Type 0 where
  pub startup : Bool
  pub memory : Bool
  pub port : Bool
  pub probe : Bool
  pub extension : Bool
  pub entries : Bool

-- `smtp_reactor_load_connect_ex`; the probe socket is closed in any case.
unfoldable pub load_connect_ex : Supply → Bool × List (Holding Resource)
load_connect_ex supply =
    if not supply.probe
    then (false, [])
    else (supply.extension, acquired probe_socket ∷ released probe_socket ∷ [])

-- Behind the structure and the port.
unfoldable pub create_entries :
    Supply → (max_connections : ℕ) → Answer × Option Reactor × List (Holding Resource)
create_entries supply max_connections =
    if not (load_connect_ex supply).0
    then (
      some err_backend_create_failed,
      none,
      released port_handle ∷ released reactor_memory ∷ released winsock ∷ [],
    )
    else if not supply.entries
    then (
      some err_alloc_failed,
      none,
      released port_handle ∷ released reactor_memory ∷ released winsock ∷ [],
    )
    else (
      none,
      some (record { max_connections = max_connections; live_count = 0 }),
      acquired entry_memory ∷ [],
    )

-- `smtp_reactor_create`: the answer, the reactor, what was taken and given back.
unfoldable pub create :
    Supply → (max_connections : ℕ) → Answer × Option Reactor × List (Holding Resource)
create supply max_connections =
    let (answer, r, held) = create_entries supply max_connections in
    if max_connections == 0
    then (some err_invalid_arg, none, [])
    else if not supply.startup
    then (some err_backend_create_failed, none, [])
    else if not supply.memory
    then (some err_alloc_failed, none, acquired winsock ∷ released winsock ∷ [])
    else if not supply.port
    then (
      some err_backend_create_failed,
      none,
      acquired winsock ∷ acquired reactor_memory ∷ released reactor_memory ∷ released winsock ∷ [],
    )
    else (
      answer,
      r,
      acquired winsock
          ∷ acquired reactor_memory
          ∷ acquired port_handle
          ∷ ((load_connect_ex supply).1 ++ held),
    )

-- `smtp_reactor_destroy`; a null pointer is `none`.
unfoldable pub destroy : Option Reactor → List (Holding Resource)
destroy none = []
destroy (some r) =
    released port_handle ∷ released entry_memory ∷ released reactor_memory ∷ released winsock ∷ []

module _ (port : Port) where
  open port use {
    State, bind, associate, connect_ex, recv, send, dequeue, overlapped_result,
    update_connect_context,
  }

  -- The end of `smtp_reactor_submit_connect`, behind ConnectEx.
  unfoldable pub begun : Reactor → Op → Bool × State → Answer × Reactor × Op × State
  begun r op (true, k) = (none, record r { live_count = r.live_count + 1 }, op, k)
  begun r op (false, k) = (some err_register_failed, r, op, k)

  -- `smtp_reactor_submit_connect`: the answer, the reactor, the caller's operation, the kernel.
  unfoldable pub submit_connect :
      Reactor → Op → (sock user_data : ℕ) → State → Answer × Reactor × Op × State
  submit_connect r op sock user_data k =
      let (bound, k₁) = bind sock k in
      let (joined, k₂) = associate sock k₁ in
      let op' = op_of sock 0 io_connect user_data in
      if leb r.max_connections r.live_count
      then (some err_at_capacity, r, op, k)
      else if not bound
      then (some err_invalid_arg, r, op, k₁)
      else if not joined
      then (some err_register_failed, r, op, k₂)
      else begun r op' (connect_ex op' k₂)

  -- The end of the other submissions.
  unfoldable pub started : Op → Bool × State → Answer × Op × State
  started op (true, k) = (none, op, k)
  started op (false, k) = (some err_register_failed, op, k)

  -- `smtp_reactor_submit_read`
  unfoldable pub submit_read : (sock buf_len user_data : ℕ) → State → Answer × Op × State
  submit_read sock buf_len user_data k =
      let op = op_of sock buf_len io_read user_data in started op (recv op k)

  -- `smtp_reactor_submit_write`
  unfoldable pub submit_write : (sock buf_len user_data : ℕ) → State → Answer × Op × State
  submit_write sock buf_len user_data k =
      let op = op_of sock buf_len io_write user_data in started op (send op k)

  -- Behind a result: a connect that has succeeded is made usable.
  unfoldable pub reported : Op → Overlapped → State → Completed × State
  reported op (transferred n) k = (
    record { user_data = op.user_data; kind = op.kind; result = 0; bytes_transferred = n },
    elim op.kind [ io_connect ↦ update_connect_context op.sock k | _ ↦ k ],
  )
  reported op (failed err) k =
      (record { user_data = op.user_data; kind = op.kind; result = err; bytes_transferred = 0 }, k)

  -- `smtp_reactor_handle_completion`
  unfoldable pub handle_completion : Op → State → Completed × State
  handle_completion op k = let (r, k') = overlapped_result op k in reported op r k'

  -- The loop of `smtp_reactor_poll`.
  unfoldable pub poll_loop : List Op → State → List Completed × State
  poll_loop [] k = ([], k)
  poll_loop (op ∷ entries) k =
      let (c, k₁) = handle_completion op k in let (out, k₂) = poll_loop entries k₁ in (c ∷ out, k₂)

  -- How many completions a poll asks for.
  abbrev pub request : Reactor → (max_out : ℕ) → ℕ
  request r max_out = if ltb r.max_connections max_out then r.max_connections else max_out

  -- `smtp_reactor_poll`
  unfoldable pub poll : Reactor → (max_out timeout_ms : ℕ) → State → List Completed × State
  poll r max_out timeout_ms k =
      let (entries, k') = dequeue (request r max_out) timeout_ms k in
      if max_out == 0 then ([], k) else poll_loop entries k'

  -- `smtp_reactor_forget`; `none` is the failed assertion.
  unfoldable pub forget : Reactor → Option Reactor
  forget r =
      if not (ltb 0 r.live_count) then none else some (record r { live_count = r.live_count - 1 })
