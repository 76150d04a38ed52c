-- ===== src/Reactor/Submissions.antt =====
-- src/smtp_reactor_linux.c, src/smtp_reactor_unix.c: a submission completes once. The interest list is
-- what the kernel knows of the submissions: `armed` reads it off the kernel's state.
use smtpc_cli.Reactor.OneShot.{Keying}
use smtpc_cli.Reactor.Kqueue.{Kevent, Filter, evfilt_read, evfilt_write, filter_of}
use smtpc_cli.Reactor.Epoll.{Ctl}
use smtpc_cli.Reactor.Epoll
use smtpc_cli.Reactor.Kqueue
use smtpc_cli.Reactor.{Op, Kernel, Reactor}
use smtpc_cli.Common.{ℕ, arith, ◌≡◌, Bool, true, false, ◌&&◌, ◌==◌}

pub same_socket_refl : (x : ℕ) → (x == x) ≡ true
same_socket_refl x = ground arith

pub same_socket_sym : (x y : ℕ) → (x == y) ≡ (y == x)
same_socket_sym x y = ground arith

-- epoll keeps one operation for a socket.
abbrev pub sockets : Keying
sockets = record {
  Key = ℕ;
  key = λ op. op.sock;
  same = λ x y. x == y;
  same-refl = same_socket_refl;
  same-sym = same_socket_sym;
}

abbrev pub same_filter : Filter → Filter → Bool
same_filter evfilt_read evfilt_read = true
same_filter evfilt_write evfilt_write = true
same_filter _ _ = false

abbrev pub same_knote : ℕ × Filter → ℕ × Filter → Bool
same_knote (x, f) (y, g) = (x == y) && same_filter f g

pub same_knote_refl : (x : ℕ × Filter) → same_knote x x ≡ true
same_knote_refl (x, evfilt_read) = ground arith
same_knote_refl (x, evfilt_write) = ground arith

pub same_knote_sym : (x y : ℕ × Filter) → same_knote x y ≡ same_knote y x
same_knote_sym (x, evfilt_read) (y, evfilt_read) = ground arith
same_knote_sym (x, evfilt_read) (y, evfilt_write) = ground arith
same_knote_sym (x, evfilt_write) (y, evfilt_read) = ground arith
same_knote_sym (x, evfilt_write) (y, evfilt_write) = ground arith

-- kqueue keeps one for a socket and a filter.
abbrev pub knotes : Keying
knotes = record {
  Key = ℕ × Filter;
  key = λ op. (op.sock, filter_of op.kind);
  same = same_knote;
  same-refl = same_knote_refl;
  same-sym = same_knote_sym;
}

module _ (kernel : Kernel Ctl) where
  abbrev pub epoll_disarm : Op → kernel.State → kernel.State
  epoll_disarm op k = Epoll.disarm kernel op.sock k

module _ (kernel : Kernel Kevent) where
  abbrev pub kqueue_disarm : Op → kernel.State → kernel.State
  kqueue_disarm op k = Kqueue.disarm kernel op.sock op.kind k
