-- ===== src/Reactor/Dequeues.antt =====
-- src/smtp_reactor_windows.c: a poll loses no completion.
use smtpc_cli.Reactor.Iocp.{
  Port, Overlapped, transferred, failed, reported, handle_completion, poll_loop, request, poll,
}
use smtpc_cli.Reactor.{Op, Completed, Reactor}
use smtpc_cli.Common.{
  arith, ℕ, ◌≤◌, ◌==◌, ◌≡◌, refl, List, [], ◌∷◌, length, if◌then◌else◌, Bool-cases, inl, inr,
}

-- Completions against the operations whose entries were dequeued: one for each, in their order, with the
-- operation's kind and its caller's context.
pub data Reports : List Op → List Completed → Type 0 where
  nil : Reports [] []
  reports :
      (op : Op) (c : Completed) (ops : List Op) (out : List Completed)
      → c.user_data ≡ op.user_data
      → c.kind ≡ op.kind
      → Reports ops out
      → Reports (op ∷ ops) (c ∷ out)

Reports-length : (ops : List Op) (out : List Completed) → Reports ops out → length out ≡ length ops
Reports-length _ _ nil = refl
Reports-length _ _ (reports op c ops out u k r) = omega (arith, Reports-length ops out r)

module _ (port : Port) where
  open port use {State}

  reported-op :
      (op : Op) (r : Overlapped) (k : State)
      → ((reported port op r k).0.user_data ≡ op.user_data)
        × ((reported port op r k).0.kind ≡ op.kind)
  unfolding reported
  reported-op op (transferred n) k = (refl, refl)
  reported-op op (failed err) k = (refl, refl)

  poll_loop-Reports : (ops : List Op) (k : State) → Reports ops (poll_loop port ops k).0
  unfolding poll_loop handle_completion
  poll_loop-Reports [] k = nil
  poll_loop-Reports (op ∷ ops) k =
      let (r, k') = port.overlapped_result op k in
      let (u, e) = reported-op op r k' in
      reports op _ ops _ u e (poll_loop-Reports ops (reported port op r k').1)

  -- On Windows, where the port removes no more entries than it is asked for, a poll reports each
  -- operation whose entry it has removed once, in their order, with its kind and context: none is
  -- lost; they are `max_out` and the capacity at most.
  pub poll-Reports :
      (r : Reactor) (max_out timeout_ms : ℕ) (k : State)
      → ((n t : ℕ) (l : State) → length (port.dequeue n t l).0 ≤ n)
      → (length (poll port r max_out timeout_ms k).0 ≤ max_out)
        × (length (poll port r max_out timeout_ms k).0 ≤ r.max_connections)
        × Reports
            (if max_out == 0 then [] else (port.dequeue (request port r max_out) timeout_ms k).0)
            (poll port r max_out timeout_ms k).0
  unfolding poll
  poll-Reports r max_out timeout_ms k h =
      let (ops, k') = port.dequeue (request port r max_out) timeout_ms k in
      let l = h (request port r max_out) timeout_ms k in
      let s = poll_loop-Reports ops k' in
      let e = Reports-length ops (poll_loop port ops k').0 s in
      elim (Bool-cases (max_out == 0)) [
        | inl t ↦ rw t (omega arith, omega arith, nil)
        | inr f ↦ rw f (ground arith, ground arith, s)
      ]
