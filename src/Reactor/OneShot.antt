-- ===== src/Reactor/OneShot.antt =====
-- src/smtp_reactor_linux.c, src/smtp_reactor_unix.c: the loop of a poll over a kernel's interest list. What
-- disarms a socket is a parameter here: one epoll_ctl, or one kevent.
use smtpc_cli.Reactor.{
  Transfer, transferred, moved, would_block, failed, Op, Completed, Kernel, handle_ready,
  handle_connect_ready, handle_read_ready, handle_write_ready, put,
}
use smtpc_cli.Connection.Handlers.{IoKind, io_connect, io_read, io_write}
use smtpc_cli.Common.{
  sym, ap, inr, inl, Bool-cases, All-take, ◌⊎◌, ℕ, zero, suc, arith, ◌≡◌, refl, Bool, true, false,
  ◌||◌, Option, some, none, List, [], ◌∷◌, if◌then◌else◌, All, take, ◌≤◌, length,
}

-- What a ready operation may report.
abbrev pub IsOf : Op → Option Completed → Type 0
IsOf op none = Unit
IsOf op (some c) = (c.user_data ≡ op.user_data) × (c.kind ≡ op.kind)

module _ {C : Type 0} (kernel : Kernel C) where
  transferred-IsOf :
      (op : Op) (kind : IoKind) (t : Transfer)
      → op.kind ≡ kind
      → IsOf op (transferred kernel op kind t)
  unfolding transferred
  transferred-IsOf op kind (moved n) e = (refl, sym e)
  transferred-IsOf op kind would_block e = tt
  transferred-IsOf op kind (failed errno) e = (refl, sym e)

  pub handle_ready-IsOf :
      (kind : IoKind) (op : Op) (k : kernel.State)
      → op.kind ≡ kind
      → IsOf op (handle_ready kernel kind op k).0
  unfolding handle_ready handle_connect_ready handle_read_ready handle_write_ready
  handle_ready-IsOf io_connect op k e = (refl, sym e)
  handle_ready-IsOf io_read op k e = transferred-IsOf op io_read (kernel.recv op k).0 e
  handle_ready-IsOf io_write op k e = transferred-IsOf op io_write (kernel.send op k).0 e

-- What an interest list is keyed by: a socket for epoll, a socket and a filter for kqueue.
pub record Keying : Type 1 where
  pub Key : Type 0
  pub key : Op → Key
  pub same : Key → Key → Bool
  pub same-refl : (x : Key) → same x x ≡ true
  pub same-sym : (x y : Key) → same x y ≡ same y x

module _ (keying : Keying) where
  open keying use {Key, key, same, same-refl, same-sym}

  -- Whether one of the events has the key.
  abbrev pub listed : Key → List (Option Op) → Bool
  listed x [] = false
  listed x (none ∷ events) = listed x events
  listed x (some op ∷ events) = same (key op) x || listed x events

  -- No two events have one key.
  abbrev pub AreDistinct : List (Option Op) → Type 0
  AreDistinct [] = Unit
  AreDistinct (none ∷ events) = AreDistinct events
  AreDistinct (some op ∷ events) = (listed (key op) events ≡ false) × AreDistinct events

  -- An event for an operation that is armed.
  abbrev pub IsArmed : (Key → Option Op) → Option Op → Type 0
  IsArmed armed none = ⊥
  IsArmed armed (some op) = armed (key op) ≡ some op

  -- Events against completions, and the interest list behind the poll: an operation has completed and
  -- is disarmed, or it has not and is armed as before.
  pub data Settles (armed : Key → Option Op) : List (Option Op) → List Completed → Type 0 where
    settles_nil : Settles armed [] []
    settles_skipped :
        (op : Op) (events : List (Option Op)) (out : List Completed)
        → armed (key op) ≡ some op
        → Settles armed events out
        → Settles armed (some op ∷ events) out
    settles_answered :
        (op : Op) (c : Completed) (events : List (Option Op)) (out : List Completed)
        → c.user_data ≡ op.user_data
        → c.kind ≡ op.kind
        → armed (key op) ≡ none
        → Settles armed events out
        → Settles armed (some op ∷ events) (c ∷ out)

  -- The events are after_event-Settles, and any key that is not theirs has the operation that it had.
  pub record IsSettled (events : List (Option Op)) (before after : Key → Option Op)
      (out : List Completed) (x : Key) : Type 0 where
    pub settles : Settles after events out
    pub few : length out ≤ length events
    pub others : (listed x events ≡ true) ⊎ (after x ≡ before x)

  Settles-length :
      (armed : Key → Option Op) (events : List (Option Op)) (out : List Completed)
      → Settles armed events out
      → length out ≤ length events
  Settles-length armed _ _ settles_nil = omega arith
  Settles-length armed _ _ (settles_skipped op events out a s) =
      omega (arith, Settles-length armed events out s)
  Settles-length armed _ _ (settles_answered op c events out u v a s) =
      omega (arith, Settles-length armed events out s)

  listed-take :
      (x : Key) (n : ℕ) (events : List (Option Op))
      → listed x events ≡ false
      → listed x (take n events) ≡ false
  listed-take x zero events h = refl
  listed-take x (suc n) [] h = refl
  listed-take x (suc n) (none ∷ events) h = listed-take x n events h
  listed-take x (suc n) (some op ∷ events) h =
      let e = listed-take x n events (ground arith) in ground arith

  pub AreDistinct-take :
      (n : ℕ) (events : List (Option Op)) → AreDistinct events → AreDistinct (take n events)
  AreDistinct-take zero events d = tt
  AreDistinct-take (suc n) [] d = tt
  AreDistinct-take (suc n) (none ∷ events) d = AreDistinct-take n events d
  AreDistinct-take (suc n) (some op ∷ events) d =
      (listed-take (key op) n events d.0, AreDistinct-take n events d.1)

  -- Events of other keys stay armed.
  IsArmed-kept :
      (armed armed' : Key → Option Op) (x : Key) (events : List (Option Op))
      → ((y : Key) → same x y ≡ false → armed' y ≡ armed y)
      → listed x events ≡ false
      → All (IsArmed armed) events
      → All (IsArmed armed') events
  IsArmed-kept armed armed' x [] f l a = tt
  IsArmed-kept armed armed' x (none ∷ events) f l a = elim a.0 [ ]
  IsArmed-kept armed armed' x (some op ∷ events) f l a = (
    (let e = same-sym x (key op) in let g = f (key op) (ground arith) in rw g a.0),
    IsArmed-kept armed armed' x events f (ground arith) a.1,
  )

  module _ {C : Type 0} (kernel : Kernel C) (disarm : Op → kernel.State → kernel.State) where
    -- What the kernel does with its interest list: a disarmed key is not armed, nothing else that a poll
    -- calls changes the list.
    pub record Keeps (armed : kernel.State → Key → Option Op) : Type 0 where
      pub disarmed :
          (op : Op) (k : kernel.State) (x : Key)
          → armed (disarm op k) x ≡ (if same (key op) x then none else armed k x)
      pub so_error_kept : (sock : ℕ) (k : kernel.State) → armed (kernel.so_error sock k).1 ≡ armed k
      pub recv_kept : (op : Op) (k : kernel.State) → armed (kernel.recv op k).1 ≡ armed k
      pub send_kept : (op : Op) (k : kernel.State) → armed (kernel.send op k).1 ≡ armed k
      pub wait_kept : (n t : ℕ) (k : kernel.State) → armed (kernel.wait n t k).1 ≡ armed k

    -- Behind a ready operation.
    abbrev pub after_event : Op → Option Completed → kernel.State → kernel.State
    after_event op none k = k
    after_event op (some c) k = disarm op k

    -- The loop of `smtp_reactor_poll`, on what disarms a completed operation.
    unfoldable pub loop : List (Option Op) → kernel.State → Option (List Completed × kernel.State)
    loop [] k = some ([], k)
    loop (none ∷ events) k = none
    loop (some op ∷ events) k =
        let (c, k₁) = handle_ready kernel op.kind op k in
        elim (loop events (after_event op c k₁)) [
          | none ↦ none
          | some (out, k₂) ↦ some (put c out, k₂)
        ]

    module _ (armed : kernel.State → Key → Option Op) (keeps : Keeps armed) where
      handle_ready_kept :
          (kind : IoKind) (op : Op) (k : kernel.State)
          → armed (handle_ready kernel kind op k).1 ≡ armed k
      unfolding handle_ready handle_connect_ready handle_read_ready handle_write_ready
      handle_ready_kept io_connect op k = keeps.so_error_kept op.sock k
      handle_ready_kept io_read op k = keeps.recv_kept op k
      handle_ready_kept io_write op k = keeps.send_kept op k

      -- What one event leaves behind.
      armed-after_event :
          (op : Op) (c : Option Completed) (k : kernel.State) (x : Key)
          → same (key op) x ≡ false
          → armed (after_event op c (handle_ready kernel op.kind op k).1) x ≡ armed k x
      armed-after_event op none k x n = rw (handle_ready_kept op.kind op k) refl
      armed-after_event op (some c) k x n =
          rw (keeps.disarmed op (handle_ready kernel op.kind op k).1 x)
            (rw n (rw (handle_ready_kept op.kind op k) refl))

      after_event-Settles :
          (op : Op) (c : Option Completed) (k k' : kernel.State) (events : List (Option Op))
          (out : List Completed)
          → IsOf op c
          → armed k (key op) ≡ some op
          → armed k' (key op)
            ≡ armed (after_event op c (handle_ready kernel op.kind op k).1) (key op)
          → Settles (armed k') events out
          → Settles (armed k') (some op ∷ events) (put c out)
      after_event-Settles op none k k' events out i a e s =
          settles_skipped op events out (rw e (rw (handle_ready_kept op.kind op k) a)) s
      after_event-Settles op (some c) k k' events out i a e s =
          settles_answered op c events out i.0 i.1
            (rw e (
              rw (keeps.disarmed op (handle_ready kernel op.kind op k).1 (key op))
                (rw (same-refl (key op)) refl)))
            s

      pub loop-Settles :
          (events : List (Option Op)) (k : kernel.State)
          → All (IsArmed (armed k)) events
          → AreDistinct events
          → (r : List Completed × kernel.State) × (loop events k ≡ some r)
            × Settles (armed r.1) events r.0
            × ((x : Key) → listed x events ≡ false → armed r.1 x ≡ armed k x)
      unfolding loop
      loop-Settles [] k a d = (([], k), refl, settles_nil, λ x l. refl)
      loop-Settles (none ∷ events) k a d = elim a.0 [ ]
      loop-Settles (some op ∷ events) k a d =
          let c = (handle_ready kernel op.kind op k).0 in
          let k₁ = after_event op c (handle_ready kernel op.kind op k).1 in
          let a₁ =
            IsArmed-kept (armed k) (armed k₁) (key op) events (λ y n. armed-after_event op c k y n)
              d.0 a.1 in
          let ((out, k₂), e, s, f) = loop-Settles events k₁ a₁ d.1 in
          (
            (put c out, k₂),
            rw e refl,
            after_event-Settles op c k k₂ events out (handle_ready-IsOf kernel op.kind op k refl)
                a.0 (f (key op) d.0) s,
            λ x l.
                (let n : listed x events ≡ false = ground arith in
                  let m : same (key op) x ≡ false = ground arith in
                  rw (f x n) (armed-after_event op c k x m)),
          )

      -- The same behind a wait that keeps the interest list, for the first `max_out` events.
      pub loop-IsSettled :
          (max_out : ℕ) (events : List (Option Op)) (k k₁ : kernel.State)
          → armed k₁ ≡ armed k
          → (x : Key) → All (IsArmed (armed k)) events
          → AreDistinct events
          → (p : List Completed × kernel.State) × (loop (take max_out events) k₁ ≡ some p)
            × IsSettled (take max_out events) (armed k) (armed p.1) p.0 x
      loop-IsSettled max_out events k k₁ w x a d =
          let a₁ : All (IsArmed (armed k₁)) (take max_out events) =
            rw w (All-take (IsArmed (armed k)) max_out events a) in
          let (p, e, s, f) =
            loop-Settles (take max_out events) k₁ a₁ (AreDistinct-take max_out events d) in
          (
            p,
            e,
            record {
              settles = s;
              few = Settles-length _ _ _ s;
              others = elim (Bool-cases (listed x (take max_out events))) [
                | inl t ↦ inl t
                | inr n ↦ inr (rw (f x n) (ap (λ g. g x) w))
              ];
            },
          )
