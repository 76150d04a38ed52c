-- ===== src/Examples/Reactors.antt =====
-- Polls and submissions on a kernel whose sockets are always ready, and whose reads bring three bytes.
use smtpc_cli.Reactor.Dequeues.{Reports, poll-Reports}
use smtpc_cli.Reactor.Holdings.{same_resource, same_windows_resource, destroy-create}
use smtpc_cli.Reactor.Iocp.{
  Port, Overlapped, load_connect_ex, handle_completion, reported, probe_socket,
}
use smtpc_cli.Reactor.Live.{EpollLives, KqueueLives, IsCounted, live_count-IsCounted, IocpLives}
use smtpc_cli.Reactor.Submissions.{same_knote}
use smtpc_cli.Reactor.{
  Op, Completed, Reactor, Kernel, moved, changed, op_of, handle_ready, handle_read_ready,
  transferred, would_block, create, Supply, make_nonblocking, destroy, kernel_fd,
}
use smtpc_cli.Reactor.Epoll
use smtpc_cli.Reactor.Iocp
use smtpc_cli.Common.Ledger.{times_acquired, times_released}
use smtpc_cli.Reactor.Kqueue
use smtpc_cli.Reactor.Epoll.{Ctl, ctl_add, epollout, ctl_mod, ctl_del, epollin}
use smtpc_cli.Reactor.Kqueue.{Kevent, ev_add, evfilt_write, Filter, evfilt_read, ev_delete}
use smtpc_cli.Connection.Handlers.{io_read, io_write}
use smtpc_cli.Common.{
  ◌≤◌, length, ℕ, ◌+◌, ◌≡◌, refl, true, some, [], ◌∷◌, Option, none, List, ◌==◌, if◌then◌else◌,
  take, length-take, arith, ◌++◌,
}

abbrev reading : Op
reading = op_of 7 4096 io_read 1

abbrev easy : (C : Type 0) → Kernel C
easy C = record {
  State = ℕ;
  is_nonblocking = λ sock k. some true;
  set_nonblocking = λ sock k. (true, k);
  connect = λ sock k. k + 1;
  change = λ c k. (changed, k + 1);
  wait = λ max_events timeout_ms k. (some reading ∷ some reading ∷ [], k);
  so_error = λ sock k. (0, k);
  recv = λ op k. (moved 3, k);
  send = λ op k. (moved 3, k);
}

abbrev reactor : Reactor
reactor = record { max_connections = 2; live_count = 1 }

abbrev three_bytes : Completed
three_bytes = record { user_data = 1; kind = io_read; result = 0; bytes_transferred = 3 }

-- One completion is asked for; its socket is disarmed by one change.
one_read : Epoll.poll (easy Ctl) reactor 1 0 0 ≡ some (three_bytes ∷ [], 1)
unfolding Epoll.poll Epoll.poll_loop Epoll.produced Epoll.disarm handle_ready handle_read_ready
    transferred
one_read = refl

one_read_there : Kqueue.poll (easy Kevent) reactor 1 0 0 ≡ some (three_bytes ∷ [], 1)
unfolding Kqueue.poll Kqueue.poll_loop Kqueue.produced Kqueue.disarm handle_ready handle_read_ready
    transferred
one_read_there = refl

-- Kernels whose state is the changes that they were given, the last one first: a read on socket 7 brings
-- three bytes, a write on socket 8 would block.
abbrev writing : Op
writing = op_of 8 100 io_write 2

abbrev recorder : (C : Type 0) → Kernel C
recorder C = record {
  State = List C;
  is_nonblocking = λ sock k. some true;
  set_nonblocking = λ sock k. (true, k);
  connect = λ sock k. k;
  change = λ c k. (changed, c ∷ k);
  wait = λ max_events timeout_ms k. (some writing ∷ some reading ∷ [], k);
  so_error = λ sock k. (0, k);
  recv = λ op k. (moved 3, k);
  send = λ op k. (would_block, k);
}

abbrev epoll_armed : List Ctl → ℕ → Option Op
epoll_armed [] x = none
epoll_armed (ctl_add sock _ op ∷ k) x = if sock == x then op else epoll_armed k x
epoll_armed (ctl_mod sock _ op ∷ k) x = if sock == x then op else epoll_armed k x
epoll_armed (ctl_del sock ∷ k) x = if sock == x then none else epoll_armed k x

abbrev kqueue_armed : List Kevent → ℕ × Filter → Option Op
kqueue_armed [] x = none
kqueue_armed (ev_add sock filter op ∷ k) x =
    if same_knote (sock, filter) x then some op else kqueue_armed k x
kqueue_armed (ev_delete sock filter ∷ k) x =
    if same_knote (sock, filter) x then none else kqueue_armed k x

abbrev epoll_list : List Ctl
epoll_list = ctl_mod 8 epollout (some writing) ∷ ctl_mod 7 epollin (some reading) ∷ []

abbrev kqueue_list : List Kevent
kqueue_list = ev_add 8 evfilt_write writing ∷ ev_add 7 evfilt_read reading ∷ []

-- A connect that is accepted and forgotten, and a reactor that only exists.
abbrev reactor_of : ℕ → Reactor
reactor_of live = record { max_connections = 2; live_count = live }

abbrev all_there : Supply
all_there = record { memory = true; descriptor = true; events = true }

epoll_life : EpollLives (recorder Ctl) 2 (reactor_of 0) 1 1
unfolding create Epoll.submit_connect Epoll.registered Epoll.forget make_nonblocking
epoll_life = EpollLives.forgotten (reactor_of 1) (reactor_of 0) 1 0 8 [] (ctl_del 8 ∷ []) refl (
    EpollLives.connected (reactor_of 0) 0 0 reading 8 3 []
      (EpollLives.created all_there (reactor_of 0) refl))

kqueue_life : KqueueLives (recorder Kevent) 2 (reactor_of 1) 1 0
unfolding create Kqueue.submit_connect Kqueue.registered make_nonblocking
kqueue_life =
    KqueueLives.connected (reactor_of 0) 0 0 reading 8 3 []
      (KqueueLives.created all_there (reactor_of 0) refl)

-- A port on which all goes well, and two operations have completed.
abbrev windows : Port
windows = record {
  State = ℕ;
  bind = λ sock k. (true, k);
  associate = λ sock k. (true, k);
  connect_ex = λ op k. (true, k + 1);
  recv = λ op k. (true, k + 1);
  send = λ op k. (true, k + 1);
  dequeue = λ n t k. (take n (writing ∷ reading ∷ []), k);
  overlapped_result = λ op k. (Overlapped.transferred 3, k);
  update_connect_context = λ sock k. k;
}

abbrev all_windows : Iocp.Supply
all_windows = record {
  startup = true;
  memory = true;
  port = true;
  probe = true;
  extension = true;
  entries = true;
}

iocp_life : IocpLives windows 2 (reactor_of 1) 1 0
unfolding Iocp.create Iocp.create_entries load_connect_ex Iocp.submit_connect Iocp.begun
iocp_life =
    IocpLives.connected (reactor_of 0) 0 0 reading 8 3 0
      (IocpLives.created all_windows (reactor_of 0) refl)

live_count-IsCounted_example :
    IsCounted 2 (reactor_of 0) 1 1 × IsCounted 2 (reactor_of 1) 1 0 × IsCounted 2 (reactor_of 1) 1 0
live_count-IsCounted_example =
    live_count-IsCounted (recorder Ctl) (recorder Kevent) windows 2 (reactor_of 0) (reactor_of 1)
      (reactor_of 1) 1 1 1 1 0 0 epoll_life kqueue_life iocp_life

two_written :
    (Iocp.poll windows (reactor_of 1) 5 0 0).0
    ≡ record { user_data = 2; kind = io_write; result = 0; bytes_transferred = 3 }
      ∷ three_bytes
      ∷ []
unfolding Iocp.poll Iocp.poll_loop handle_completion reported
two_written = refl

poll-Reports_example :
    (length (Iocp.poll windows (reactor_of 1) 5 0 0).0 ≤ 5)
    × (length (Iocp.poll windows (reactor_of 1) 5 0 0).0 ≤ 2)
    × Reports (writing ∷ reading ∷ []) (Iocp.poll windows (reactor_of 1) 5 0 0).0
poll-Reports_example =
    poll-Reports windows (reactor_of 1) 5 0 0
      (λ n t l. let e = length-take n (writing ∷ reading ∷ []) in omega (arith, e))

destroy-create_example :
    (times_acquired same_resource kernel_fd (create all_there 2).2
      ≡ times_released same_resource kernel_fd
          ((create all_there 2).2 ++ destroy (create all_there 2).1))
    × (times_acquired same_windows_resource probe_socket (Iocp.create all_windows 2).2
        ≡ times_released same_windows_resource probe_socket
            ((Iocp.create all_windows 2).2 ++ Iocp.destroy (Iocp.create all_windows 2).1))
destroy-create_example = destroy-create all_there all_windows 2 kernel_fd probe_socket
