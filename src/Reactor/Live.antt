-- ===== src/Reactor/Live.antt =====
-- src/smtp_reactor_linux.c, smtp_reactor_unix.c, smtp_reactor_windows.c: the count of live connections, over a reactor's life.
use smtpc_cli.Reactor.Kqueue.{Kevent}
use smtpc_cli.Reactor.Epoll.{Ctl}
use smtpc_cli.Reactor.Epoll
use smtpc_cli.Reactor.Kqueue
use smtpc_cli.Reactor.Iocp
use smtpc_cli.Reactor.Iocp.{Port}
use smtpc_cli.Reactor.{Answer, Op, Reactor, Kernel, create, Supply}
use smtpc_cli.Common.{arith, ℕ, ◌+◌, ◌≤◌, ◌≡◌, some, none}

-- The connects that were accepted.
abbrev pub accepts : Answer → ℕ
accepts none = 1
accepts (some err) = 0

-- What a reactor is after `accepted` connects that were accepted and `forgotten` calls of forget, in any
-- order, each on any state of the kernel. Reads, writes and polls leave the reactor as it is.
pub data EpollLives (kernel : Kernel Ctl) (size : ℕ)
    : Reactor → (accepted forgotten : ℕ) → Type 0 where
  created :
      (supply : Supply) (r : Reactor)
      → (create supply size).1 ≡ some r
      → EpollLives kernel size r 0 0
  connected :
      (r : Reactor) (a f : ℕ) (op : Op) (sock user_data : ℕ) (k : kernel.State)
      → EpollLives kernel size r a f
      → EpollLives kernel size
          (Epoll.submit_connect kernel r op sock user_data k).1
          (a + accepts (Epoll.submit_connect kernel r op sock user_data k).0)
          f
  forgotten :
      (r r' : Reactor) (a f sock : ℕ) (k k' : kernel.State)
      → Epoll.forget kernel r sock k ≡ some (r', k')
      → EpollLives kernel size r a f
      → EpollLives kernel size r' a (f + 1)

pub data KqueueLives (kernel : Kernel Kevent) (size : ℕ)
    : Reactor → (accepted forgotten : ℕ) → Type 0 where
  created :
      (supply : Supply) (r : Reactor)
      → (create supply size).1 ≡ some r
      → KqueueLives kernel size r 0 0
  connected :
      (r : Reactor) (a f : ℕ) (op : Op) (sock user_data : ℕ) (k : kernel.State)
      → KqueueLives kernel size r a f
      → KqueueLives kernel size
          (Kqueue.submit_connect kernel r op sock user_data k).1
          (a + accepts (Kqueue.submit_connect kernel r op sock user_data k).0)
          f
  forgotten :
      (r r' : Reactor) (a f sock : ℕ) (k k' : kernel.State)
      → Kqueue.forget kernel r sock k ≡ some (r', k')
      → KqueueLives kernel size r a f
      → KqueueLives kernel size r' a (f + 1)

pub data IocpLives (port : Port) (size : ℕ) : Reactor → (accepted forgotten : ℕ) → Type 0 where
  created :
      (supply : Iocp.Supply) (r : Reactor)
      → (Iocp.create supply size).1 ≡ some r
      → IocpLives port size r 0 0
  connected :
      (r : Reactor) (a f : ℕ) (op : Op) (sock user_data : ℕ) (k : port.State)
      → IocpLives port size r a f
      → IocpLives port size
          (Iocp.submit_connect port r op sock user_data k).1
          (a + accepts (Iocp.submit_connect port r op sock user_data k).0)
          f
  forgotten :
      (r r' : Reactor) (a f : ℕ)
      → Iocp.forget port r ≡ some r'
      → IocpLives port size r a f
      → IocpLives port size r' a (f + 1)

-- The count is what was accepted and is not forgotten, and within the capacity.
pub record IsCounted (size : ℕ) (r : Reactor) (accepted forgotten : ℕ) : Type 0 where
  pub counted : r.live_count + forgotten ≡ accepted
  pub within : r.live_count ≤ r.max_connections
  pub capacity : r.max_connections ≡ size

create-IsCounted :
    (supply : Supply) (size : ℕ) (r : Reactor)
    → (create supply size).1 ≡ some r
    → IsCounted size r 0 0
unfolding create
create-IsCounted supply size r h = record {
  counted = ground arith;
  within = ground arith;
  capacity = ground arith;
}

epoll_connect-IsCounted :
    (kernel : Kernel Ctl) (size : ℕ) (r : Reactor) (a f : ℕ) (op : Op) (sock user_data : ℕ)
    (k : kernel.State)
    → IsCounted size r a f
    → IsCounted size
        (Epoll.submit_connect kernel r op sock user_data k).1
        (a + accepts (Epoll.submit_connect kernel r op sock user_data k).0)
        f
unfolding Epoll.submit_connect Epoll.registered
epoll_connect-IsCounted kernel size r a f op sock user_data k i =
    let c = i.counted in
    let w = i.within in
    let m = i.capacity in
    record { counted = ground arith; within = ground arith; capacity = ground arith }

epoll_forget-IsCounted :
    (kernel : Kernel Ctl) (size : ℕ) (r r' : Reactor) (a f sock : ℕ) (k k' : kernel.State)
    → Epoll.forget kernel r sock k ≡ some (r', k')
    → IsCounted size r a f
    → IsCounted size r' a (f + 1)
unfolding Epoll.forget
epoll_forget-IsCounted kernel size r r' a f sock k k' h i =
    let c = i.counted in
    let w = i.within in
    let m = i.capacity in
    record { counted = ground arith; within = ground arith; capacity = ground arith }

kqueue_connect-IsCounted :
    (kernel : Kernel Kevent) (size : ℕ) (r : Reactor) (a f : ℕ) (op : Op) (sock user_data : ℕ)
    (k : kernel.State)
    → IsCounted size r a f
    → IsCounted size
        (Kqueue.submit_connect kernel r op sock user_data k).1
        (a + accepts (Kqueue.submit_connect kernel r op sock user_data k).0)
        f
unfolding Kqueue.submit_connect Kqueue.registered
kqueue_connect-IsCounted kernel size r a f op sock user_data k i =
    let c = i.counted in
    let w = i.within in
    let m = i.capacity in
    record { counted = ground arith; within = ground arith; capacity = ground arith }

kqueue_forget-IsCounted :
    (kernel : Kernel Kevent) (size : ℕ) (r r' : Reactor) (a f sock : ℕ) (k k' : kernel.State)
    → Kqueue.forget kernel r sock k ≡ some (r', k')
    → IsCounted size r a f
    → IsCounted size r' a (f + 1)
unfolding Kqueue.forget
kqueue_forget-IsCounted kernel size r r' a f sock k k' h i =
    let c = i.counted in
    let w = i.within in
    let m = i.capacity in
    record { counted = ground arith; within = ground arith; capacity = ground arith }

epoll-IsCounted :
    (kernel : Kernel Ctl) (size : ℕ) (r : Reactor) (a f : ℕ)
    → EpollLives kernel size r a f
    → IsCounted size r a f
epoll-IsCounted kernel size _ _ _ (EpollLives.created supply r h) = create-IsCounted supply size r h
epoll-IsCounted kernel size _ _ _ (EpollLives.connected r a f op sock user_data k l) =
    epoll_connect-IsCounted kernel size r a f op sock user_data k
      (epoll-IsCounted kernel size r a f l)
epoll-IsCounted kernel size _ _ _ (EpollLives.forgotten r r' a f sock k k' h l) =
    epoll_forget-IsCounted kernel size r r' a f sock k k' h (epoll-IsCounted kernel size r a f l)

kqueue-IsCounted :
    (kernel : Kernel Kevent) (size : ℕ) (r : Reactor) (a f : ℕ)
    → KqueueLives kernel size r a f
    → IsCounted size r a f
kqueue-IsCounted kernel size _ _ _ (KqueueLives.created supply r h) =
    create-IsCounted supply size r h
kqueue-IsCounted kernel size _ _ _ (KqueueLives.connected r a f op sock user_data k l) =
    kqueue_connect-IsCounted kernel size r a f op sock user_data k
      (kqueue-IsCounted kernel size r a f l)
kqueue-IsCounted kernel size _ _ _ (KqueueLives.forgotten r r' a f sock k k' h l) =
    kqueue_forget-IsCounted kernel size r r' a f sock k k' h (kqueue-IsCounted kernel size r a f l)

iocp_create-IsCounted :
    (supply : Iocp.Supply) (size : ℕ) (r : Reactor)
    → (Iocp.create supply size).1 ≡ some r
    → IsCounted size r 0 0
unfolding Iocp.create Iocp.create_entries
iocp_create-IsCounted supply size r h = record {
  counted = ground arith;
  within = ground arith;
  capacity = ground arith;
}

iocp_connect-IsCounted :
    (port : Port) (size : ℕ) (r : Reactor) (a f : ℕ) (op : Op) (sock user_data : ℕ) (k : port.State)
    → IsCounted size r a f
    → IsCounted size
        (Iocp.submit_connect port r op sock user_data k).1
        (a + accepts (Iocp.submit_connect port r op sock user_data k).0)
        f
unfolding Iocp.submit_connect Iocp.begun
iocp_connect-IsCounted port size r a f op sock user_data k i =
    let c = i.counted in
    let w = i.within in
    let m = i.capacity in
    record { counted = ground arith; within = ground arith; capacity = ground arith }

iocp_forget-IsCounted :
    (port : Port) (size : ℕ) (r r' : Reactor) (a f : ℕ)
    → Iocp.forget port r ≡ some r'
    → IsCounted size r a f
    → IsCounted size r' a (f + 1)
unfolding Iocp.forget
iocp_forget-IsCounted port size r r' a f h i =
    let c = i.counted in
    let w = i.within in
    let m = i.capacity in
    record { counted = ground arith; within = ground arith; capacity = ground arith }

iocp-IsCounted :
    (port : Port) (size : ℕ) (r : Reactor) (a f : ℕ)
    → IocpLives port size r a f
    → IsCounted size r a f
iocp-IsCounted port size _ _ _ (IocpLives.created supply r h) =
    iocp_create-IsCounted supply size r h
iocp-IsCounted port size _ _ _ (IocpLives.connected r a f op sock user_data k l) =
    iocp_connect-IsCounted port size r a f op sock user_data k (iocp-IsCounted port size r a f l)
iocp-IsCounted port size _ _ _ (IocpLives.forgotten r r' a f h l) =
    iocp_forget-IsCounted port size r r' a f h (iocp-IsCounted port size r a f l)

-- Over the life of a reactor, on epoll, on kqueue and on Windows, with connects that are accepted
-- or not and calls of forget that return, in any order and whatever the kernel answers: its count
-- is the number of accepted connects that are not forgotten, and within the capacity it was
-- created with.
pub live_count-IsCounted :
    (epoll : Kernel Ctl) (kqueue : Kernel Kevent) (port : Port) (size : ℕ) (r r' r'' : Reactor)
    (a a' a'' f f' f'' : ℕ)
    → EpollLives epoll size r a f
    → KqueueLives kqueue size r' a' f'
    → IocpLives port size r'' a'' f''
    → IsCounted size r a f × IsCounted size r' a' f' × IsCounted size r'' a'' f''
live_count-IsCounted epoll kqueue port size r r' r'' a a' a'' f f' f'' l l' l'' = (
  epoll-IsCounted epoll size r a f l,
  kqueue-IsCounted kqueue size r' a' f' l',
  iocp-IsCounted port size r'' a'' f'' l'',
)
