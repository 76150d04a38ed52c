-- ===== src/Reactor.antt =====
-- include/smtp_reactor.h, and what the readiness back ends have in common: smtp_reactor_linux.c and
-- smtp_reactor_unix.c have the same text for the handlers of a ready operation. The kernel is a
-- parameter.
pub mod Epoll
pub mod Kqueue
pub mod Iocp
pub mod Dequeues
pub mod Holdings
pub mod Live
pub mod OneShot
pub mod Submissions
use smtpc_cli.Common.Ledger.{Holding, acquired, released}
use smtpc_cli.Connection.Handlers.{IoKind, io_connect, io_read, io_write}
use smtpc_cli.Common.{
  ℕ, ◌+◌, ◌-◌, Bool, true, false, not, Option, some, none, List, [], ◌∷◌, ◌++◌, if◌then◌else◌, ltb,
  leb, ◌==◌,
}

-- The members of `smtp_reactor_err` but OK.
pub data ReactorErr : Type 0 where
  err_invalid_arg err_alloc_failed err_backend_create_failed err_at_capacity : ReactorErr
  err_register_failed err_not_registered : ReactorErr

-- What the submissions return: `none` for OK. It is also the thread's last error.
abbrev pub Answer : Type 0
Answer = Option ReactorErr

-- `smtp_io_op` of a readiness back end, but for its buffer; `user_data` is the caller's context.
pub record Op : Type 0 where
  pub sock : ℕ
  pub buf_len : ℕ
  pub kind : IoKind
  pub user_data : ℕ

-- `smtp_io_result`: `result` is 0 or an errno.
pub record Completed : Type 0 where
  pub user_data : ℕ
  pub kind : IoKind
  pub result : ℕ
  pub bytes_transferred : ℕ

-- `smtp_reactor`, but for the kernel's descriptor and the scratch buffer of its events.
pub record Reactor : Type 0 where
  pub max_connections : ℕ
  pub live_count : ℕ

-- What `smtp_reactor_create` takes: its structure, the kernel's descriptor, the array of events.
pub data Resource : Type 0 where
  reactor_memory kernel_fd event_memory : Resource

-- Which of these calls succeed.
pub record Supply : Type 0 where
  pub memory : Bool
  pub descriptor : Bool
  pub events : Bool

-- `smtp_reactor_create`: the answer, the reactor, what was taken and given back.
unfoldable pub create :
    Supply → (max_connections : ℕ) → Answer × Option Reactor × List (Holding Resource)
create supply max_connections =
    if max_connections == 0
    then (some err_invalid_arg, none, [])
    else if not supply.memory
    then (some err_alloc_failed, none, [])
    else if not supply.descriptor
    then (
      some err_backend_create_failed,
      none,
      acquired reactor_memory ∷ released reactor_memory ∷ [],
    )
    else if not supply.events
    then (
      some err_alloc_failed,
      none,
      acquired reactor_memory
          ∷ acquired kernel_fd
          ∷ released kernel_fd
          ∷ released reactor_memory
          ∷ [],
    )
    else (
      none,
      some (record { max_connections = max_connections; live_count = 0 }),
      acquired reactor_memory ∷ acquired kernel_fd ∷ acquired event_memory ∷ [],
    )

-- `smtp_reactor_destroy`; a null pointer is `none`.
unfoldable pub destroy : Option Reactor → List (Holding Resource)
destroy none = []
destroy (some r) = released kernel_fd ∷ released event_memory ∷ released reactor_memory ∷ []

-- What recv and send return: a count, EAGAIN or EWOULDBLOCK, another errno.
pub data Transfer : Type 0 where
  moved : ℕ → Transfer
  would_block : Transfer
  failed : (errno : ℕ) → Transfer

-- What a change of the kernel's interest list returns: success, ENOENT, another errno.
pub data Changed : Type 0 where
  changed no_entry refused : Changed

-- The system calls, on a state of the kernel. `wait` gives the pointers of the ready events, of which
-- there are none on a timeout or an interrupt; a null pointer is `none`.
pub record Kernel (Change : Type 0) : Type 1 where
  pub State : Type 0
  pub is_nonblocking : ℕ → State → Option Bool
  pub set_nonblocking : ℕ → State → Bool × State
  pub connect : ℕ → State → State
  pub change : Change → State → Changed × State
  pub wait : (max_events timeout_ms : ℕ) → State → List (Option Op) × State
  pub so_error : ℕ → State → ℕ × State
  pub recv : Op → State → Transfer × State
  pub send : Op → State → Transfer × State

module _ {C : Type 0} (kernel : Kernel C) where
  open kernel use {State, is_nonblocking, set_nonblocking, so_error, recv, send}

  -- `smtp_reactor_make_nonblocking`; the Boolean says whether it has succeeded.
  unfoldable pub make_nonblocking : ℕ → State → Bool × State
  make_nonblocking sock k = elim (is_nonblocking sock k) [
    | none ↦ (false, k)
    | some true ↦ (true, k)
    | some false ↦ set_nonblocking sock k
  ]

  -- `smtp_reactor_handle_connect_ready`
  unfoldable pub handle_connect_ready : Op → State → Completed × State
  handle_connect_ready op k =
      let (err, k') = so_error op.sock k in
      (
        record { user_data = op.user_data; kind = io_connect; result = err; bytes_transferred = 0 },
        k',
      )

  -- Behind recv or send; `none` is the skip of a readiness that was none.
  unfoldable pub transferred : Op → IoKind → Transfer → Option Completed
  transferred op kind (moved n) =
      some (record { user_data = op.user_data; kind = kind; result = 0; bytes_transferred = n })
  transferred op kind would_block = none
  transferred op kind (failed errno) =
      some (record { user_data = op.user_data; kind = kind; result = errno; bytes_transferred = 0 })

  -- `smtp_reactor_handle_read_ready`
  unfoldable pub handle_read_ready : Op → State → Option Completed × State
  handle_read_ready op k = let (n, k') = recv op k in (transferred op io_read n, k')

  -- `smtp_reactor_handle_write_ready`
  unfoldable pub handle_write_ready : Op → State → Option Completed × State
  handle_write_ready op k = let (n, k') = send op k in (transferred op io_write n, k')

  -- The switch on the kind.
  unfoldable pub handle_ready : IoKind → Op → State → Option Completed × State
  handle_ready io_connect op k = let (r, k') = handle_connect_ready op k in (some r, k')
  handle_ready io_read op k = handle_read_ready op k
  handle_ready io_write op k = handle_write_ready op k

-- The operation that a submission fills in.
abbrev pub op_of : (sock buf_len : ℕ) → IoKind → (user_data : ℕ) → Op
op_of sock buf_len kind user_data = record {
  sock = sock;
  buf_len = buf_len;
  kind = kind;
  user_data = user_data;
}

-- `out[filled++] = result`, if the event has produced one; `out` is what the later events put behind.
abbrev pub put : Option Completed → List Completed → List Completed
put none out = out
put (some c) out = c ∷ out
