-- ===== src/Reactor/Epoll.antt =====
-- src/smtp_reactor_linux.c: the back end on epoll. Arguments that the assertions want non-null are
-- values here.
use smtpc_cli.Reactor.{
  Answer, err_invalid_arg, err_at_capacity, err_register_failed, err_not_registered, Op, Completed,
  Reactor, Changed, changed, no_entry, refused, Kernel, make_nonblocking, handle_ready, op_of, put,
}
use smtpc_cli.Connection.Handlers.{IoKind, io_connect, io_read, io_write}
use smtpc_cli.Common.{
  ℕ, ◌+◌, ◌-◌, not, Option, some, none, List, [], ◌∷◌, if◌then◌else◌, ltb, leb, take,
}

pub data Events : Type 0 where
  epollin epollout no_events : Events

-- The calls of epoll_ctl, with the events and the pointer that they register.
pub data Ctl : Type 0 where
  ctl_add ctl_mod : (sock : ℕ) → Events → Option Op → Ctl
  ctl_del : (sock : ℕ) → Ctl

module _ (kernel : Kernel Ctl) where
  open kernel use {State, connect, change, wait}

  -- The end of `smtp_reactor_submit_connect`, behind EPOLL_CTL_ADD.
  unfoldable pub registered : Reactor → Op → Changed × State → Answer × Reactor × Op × State
  registered r op (changed, k) = (none, record r { live_count = r.live_count + 1 }, op, k)
  registered r op (_, k) = (some err_register_failed, r, op, k)

  -- `smtp_reactor_submit_connect`: the answer, the reactor, the caller's operation, the kernel.
  unfoldable pub submit_connect :
      Reactor → Op → (sock user_data : ℕ) → State → Answer × Reactor × Op × State
  submit_connect r op sock user_data k =
      let (ok, k₁) = make_nonblocking kernel sock k in
      let op' = op_of sock 0 io_connect user_data in
      if leb r.max_connections r.live_count
      then (some err_at_capacity, r, op, k)
      else if not ok
      then (some err_invalid_arg, r, op, k₁)
      else registered r op' (change (ctl_add sock epollout (some op')) (connect sock k₁))

  -- Behind EPOLL_CTL_MOD.
  abbrev pub modified : Changed → Answer
  modified changed = none
  modified no_entry = some err_not_registered
  modified refused = some err_register_failed

  -- `smtp_reactor_submit_rw`
  unfoldable pub submit_rw :
      (sock buf_len user_data : ℕ) → IoKind → Events → State → Answer × Op × State
  submit_rw sock buf_len user_data kind epoll_events k =
      let op = op_of sock buf_len kind user_data in
      let (c, k') = change (ctl_mod sock epoll_events (some op)) k in (modified c, op, k')

  -- `smtp_reactor_submit_read` and `smtp_reactor_submit_write`
  unfoldable pub submit_read : (sock buf_len user_data : ℕ) → State → Answer × Op × State
  submit_read sock buf_len user_data k = submit_rw sock buf_len user_data io_read epollin k

  unfoldable pub submit_write : (sock buf_len user_data : ℕ) → State → Answer × Op × State
  submit_write sock buf_len user_data k = submit_rw sock buf_len user_data io_write epollout k

  -- `smtp_reactor_disarm`, which does not look at the result.
  unfoldable pub disarm : (sock : ℕ) → State → State
  disarm sock k = (change (ctl_mod sock no_events none) k).1

  -- Behind a ready operation: a completion disarms its socket.
  unfoldable pub produced : Op → Option Completed → State → State
  produced op none k = k
  produced op (some c) k = disarm op.sock k

  -- The loop of `smtp_reactor_poll`; `none` is the failed assertion on a null pointer.
  unfoldable pub poll_loop : List (Option Op) → State → Option (List Completed × State)
  poll_loop [] k = some ([], k)
  poll_loop (none ∷ events) k = none
  poll_loop (some op ∷ events) k =
      let (c, k₁) = handle_ready kernel op.kind op k in
      elim (poll_loop events (produced op c k₁)) [
        | none ↦ none
        | some (out, k₂) ↦ some (put c out, k₂)
      ]

  -- `smtp_reactor_poll`
  unfoldable pub poll : Reactor → (max_out timeout_ms : ℕ) → State → Option (List Completed × State)
  poll r max_out timeout_ms k =
      let (events, k') = wait r.max_connections timeout_ms k in poll_loop (take max_out events) k'

  -- `smtp_reactor_forget`; `none` is the failed assertion.
  unfoldable pub forget : Reactor → (sock : ℕ) → State → Option (Reactor × State)
  forget r sock k =
      if not (ltb 0 r.live_count)
      then none
      else some (record r { live_count = r.live_count - 1 }, (change (ctl_del sock) k).1)
