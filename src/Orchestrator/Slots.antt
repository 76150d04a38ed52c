-- ===== src/Orchestrator/Slots.antt =====
-- src/smtp_orchestrator.c: what one slot's operations do to the pool.
use smtpc_cli.Orchestrator.{
  world_of, put_slot, Completion, handle_completion, put_caps, sweep_slot, start_connection,
  settled, is_ready, finish_slot, incr, effect, with_stats, started, start_with, Attempt, Slot,
  start_slot, Shared, Effect, opened, closed, reported, is_error,
}
use smtpc_cli.Orchestrator.Pool.{
  Allows, more, rest, finish, finished, PoolSteps, refuse, begin, PoolStep, refused, begun, Pool,
}
use smtpc_cli.Connection.State.{Run, aborted, ConnState, Platform, World, done}
use smtpc_cli.Connection.Io.{emit}
use smtpc_cli.Connection.Machine.{check_timeout, is_terminal, connection_start}
use smtpc_cli.Common.{
  refl, Bool-cases, inr, inl, Option, ◌⊎◌, ◌^◌, ◌%◌, ◌&&◌, none, ltb, subst⁻¹, some, ◌<◌, arith, ℕ,
  ◌+◌, ◌≡◌, Bool, true, false, not, List, [], ◌∷◌,
}

-- The sockets that the effects open, and those that they close.
unfoldable pub count_opened : List Effect → ℕ
count_opened [] = 0
count_opened (opened _ ∷ es) = count_opened es + 1
count_opened (closed _ ∷ es) = count_opened es
count_opened (reported _ ∷ es) = count_opened es

unfoldable pub count_closed : List Effect → ℕ
count_closed [] = 0
count_closed (opened _ ∷ es) = count_closed es
count_closed (closed _ ∷ es) = count_closed es + 1
count_closed (reported _ ∷ es) = count_closed es

-- The pool that an orchestrator with `in_flight` slots in use stands for.
unfoldable pub pool_of : Shared → (in_flight : ℕ) → Pool
unfolding count_opened count_closed
pool_of sh in_flight = record {
  live = sh.live_count;
  in_flight = in_flight;
  started = sh.stats.total_started;
  completed = sh.stats.total_completed;
  succeeded = sh.stats.total_succeeded;
  failed = sh.stats.total_failed;
  opened = count_opened sh.effects;
  closed = count_closed sh.effects;
}

abbrev pub as_number : Bool → ℕ
as_number true = 1
as_number false = 0

module _ (p : Platform) (target : ℕ) where
  open p use {Engine}

  -- A reactor that refuses the connect makes it fail.
  start_refused :
      (now_ms timeout : ℕ) (answer : Bool) (w v : World Engine)
      → connection_start (record p { accepts = λ _. answer }) now_ms timeout w ≡ done v
      → is_error v.conn.state ≡ not answer
  unfolding connection_start emit
  start_refused now_ms timeout true w v h = ground arith
  start_refused now_ms timeout false w v h = ground arith

  -- What a start does to the pool: an attempt that fails at once, or one more in flight.
  abbrev pub Starts : Shared → Shared → Slot Engine → Bool → Type 0
  Starts sh sh' slot' b =
      (slot'.in_use ≡ b)
      × (sh'.max_connections ≡ sh.max_connections)
      × ((k : ℕ)
          → Allows target (pool_of sh k).started
          → PoolStep sh.max_connections target (pool_of sh k) (pool_of sh' (k + as_number b)))

  -- Behind `total_started++`.
  abbrev counting : Shared → Shared
  counting sh = with_stats (record (sh.stats) { total_started = incr sh.stats.total_started }) sh

  -- Without a socket.
  start_with-none :
      (registers : Bool) (now_ms : ℕ) (sh sh' : Shared) (slot slot' : Slot Engine) (b : Bool)
      (k : ℕ)
      → slot.in_use ≡ false
      → start_with p none registers now_ms (counting sh) slot ≡ some (sh', slot', b)
      → (slot'.in_use ≡ b)
        × (sh'.max_connections ≡ sh.max_connections)
        × (b ≡ false)
        × (pool_of sh' (k + as_number b) ≡ refused 0 (pool_of sh k))
  unfolding start_with pool_of
  start_with-none registers now_ms sh sh' slot slot' b k f h = ground arith

  -- With one, whose connect the reactor has answered.
  started_cases :
      (sock now_ms : ℕ) (registers : Bool) (sh sh' : Shared) (slot slot' : Slot Engine) (b : Bool)
      (v : World Engine) (k : ℕ)
      → slot.in_use ≡ false
      → is_error v.conn.state ≡ not (ltb sh.live_count sh.max_connections && registers)
      → started p sock
          (record (effect (opened sock) (counting sh)) {
            next_connection_id = (sh.next_connection_id + 1) % 2 ^ 32;
          })
          slot
          (done v)
        ≡ some (sh', slot', b)
      → (slot'.in_use ≡ b)
        × (sh'.max_connections ≡ sh.max_connections)
        × (((b ≡ false) × (pool_of sh' (k + as_number b) ≡ refused 1 (pool_of sh k)))
            ⊎ ((b ≡ true)
                × (pool_of sh' (k + as_number b) ≡ begun (pool_of sh k))
                × ((pool_of sh k).live < sh.max_connections)))
  unfolding started pool_of
  started_cases sock now_ms registers sh sh' slot slot' b v k f e h = ground arith

  start_with-aborted :
      (sock : ℕ) (sh₁ sh sh' : Shared) (slot slot' : Slot Engine) (b : Bool)
      → started p sock sh₁ slot aborted ≡ some (sh', slot', b)
      → Starts sh sh' slot' b
  unfolding started
  start_with-aborted sock sh₁ sh sh' slot slot' b h = cc

  starts_at :
      (sh sh' : Shared) (slot' : Slot Engine) (b : Bool) (k : ℕ)
      → ((b ≡ false) × (pool_of sh' (k + as_number b) ≡ refused 1 (pool_of sh k)))
        ⊎ ((b ≡ true)
            × (pool_of sh' (k + as_number b) ≡ begun (pool_of sh k))
            × ((pool_of sh k).live < sh.max_connections))
      → Allows target (pool_of sh k).started
      → PoolStep sh.max_connections target (pool_of sh k) (pool_of sh' (k + as_number b))
  starts_at sh sh' slot' b k (inl (_, e)) a =
      subst⁻¹ (λ x. PoolStep sh.max_connections target (pool_of sh k) x) e
        (refuse (pool_of sh k) 1 a (omega arith))
  starts_at sh sh' slot' b k (inr (_, e, l)) a =
      subst⁻¹ (λ x. PoolStep sh.max_connections target (pool_of sh k) x) e
        (begin (pool_of sh k) a l)

  started-Starts :
      (sock : ℕ) (registers : Bool) (now_ms : ℕ) (sh sh' : Shared) (slot slot' : Slot Engine)
      (b : Bool) (run : Run Engine)
      → start_connection p registers now_ms (counting sh) ≡ run
      → slot.in_use ≡ false
      → started p sock
          (record (effect (opened sock) (counting sh)) {
            next_connection_id = (sh.next_connection_id + 1) % 2 ^ 32;
          })
          slot
          run
        ≡ some (sh', slot', b)
      → Starts sh sh' slot' b
  unfolding start_connection
  started-Starts sock registers now_ms sh sh' slot slot' b aborted r f h =
      start_with-aborted sock
        (record (effect (opened sock) (counting sh)) {
          next_connection_id = (sh.next_connection_id + 1) % 2 ^ 32;
        })
        sh sh' slot slot' b h
  started-Starts sock registers now_ms sh sh' slot slot' b (done v) r f h =
      let e =
        start_refused now_ms sh.connect_timeout_ms
          (ltb sh.live_count sh.max_connections && registers) _ v r in
      let (u, m, _) = started_cases sock now_ms registers sh sh' slot slot' b v 0 f e h in
      (
        u,
        m,
        λ k a.
            starts_at sh sh' slot' b k
              (started_cases sock now_ms registers sh sh' slot slot' b v k f e h).2 a,
      )

  start_with-Starts :
      (o : Option ℕ) (registers : Bool) (now_ms : ℕ) (sh sh' : Shared) (slot slot' : Slot Engine)
      (b : Bool)
      → slot.in_use ≡ false
      → start_with p o registers now_ms (counting sh) slot ≡ some (sh', slot', b)
      → Starts sh sh' slot' b
  unfolding started start_with
  start_with-Starts none registers now_ms sh sh' slot slot' b f h =
      let (u, m, _, _) = start_with-none registers now_ms sh sh' slot slot' b 0 f h in
      (
        u,
        m,
        λ k a.
            subst⁻¹ (λ x. PoolStep sh.max_connections target (pool_of sh k) x)
              (start_with-none registers now_ms sh sh' slot slot' b k f h).3
              (refuse (pool_of sh k) 0 a (omega arith)),
      )
  start_with-Starts (some sock) registers now_ms sh sh' slot slot' b f h =
      started-Starts sock registers now_ms sh sh' slot slot' b
        (start_connection p registers now_ms (counting sh)) refl f h

  pub start_slot-Starts :
      (attempt : Attempt) (now_ms : ℕ) (sh sh' : Shared) (slot slot' : Slot Engine) (b : Bool)
      → slot.in_use ≡ false
      → start_slot p attempt now_ms sh slot ≡ some (sh', slot', b)
      → Starts sh sh' slot' b
  unfolding start_slot
  start_slot-Starts attempt now_ms sh sh' slot slot' b f h =
      start_with-Starts attempt.socket attempt.registers now_ms sh sh' slot slot' b f h

  -- What giving a slot up does to the pool.
  abbrev pub Settles : Shared → Shared → Slot Engine → Type 0
  Settles sh sh' slot' =
      (sh'.max_connections ≡ sh.max_connections)
      × ((k : ℕ)
          → PoolSteps sh.max_connections target (pool_of sh (k + 1))
              (pool_of sh' (k + as_number slot'.in_use)))

  finish_cases :
      (s : ConnState) (sh sh' : Shared) (slot slot' : Slot Engine) (k : ℕ)
      → finish_slot p s sh slot ≡ some (sh', slot')
      → (slot'.in_use ≡ false)
        × (sh'.max_connections ≡ sh.max_connections)
        × (pool_of sh' (k + as_number slot'.in_use) ≡ finished (is_ready s) (pool_of sh (k + 1)))
        × (0 < sh.live_count)
  unfolding finish_slot pool_of
  finish_cases s sh sh' slot slot' k h = ground arith

  live_of : (sh : Shared) (k : ℕ) → 0 < sh.live_count → 0 < (pool_of sh (k + 1)).live
  unfolding pool_of
  live_of sh k h = h

  in_flight_of : (sh : Shared) (k : ℕ) → 0 < (pool_of sh (k + 1)).in_flight
  unfolding pool_of
  in_flight_of sh k = omega arith

  finish-Settles :
      (s : ConnState) (sh sh' : Shared) (slot slot' : Slot Engine)
      → finish_slot p s sh slot ≡ some (sh', slot')
      → Settles sh sh' slot'
  finish-Settles s sh sh' slot slot' h = (
    (finish_cases s sh sh' slot slot' 0 h).1,
    λ k.
        let (_, _, e, l) = finish_cases s sh sh' slot slot' k h in
        subst⁻¹ (λ x. PoolSteps sh.max_connections target (pool_of sh (k + 1)) x) e
          (more (finish (pool_of sh (k + 1)) (is_ready s) (live_of sh k l) (in_flight_of sh k))
            (rest _)),
  )

  settled_finish :
      (v : World Engine) (sh sh' : Shared) (slot slot' : Slot Engine)
      → finish_slot p v.conn.state (put_caps p v sh) (put_slot p v slot) ≡ some (sh', slot')
      → Settles sh sh' slot'
  unfolding pool_of
  settled_finish v sh sh' slot slot' h =
      finish-Settles v.conn.state (put_caps p v sh) sh' (put_slot p v slot) slot' h

  kept_pool :
      (v : World Engine) (sh sh' : Shared) (slot slot' : Slot Engine) (k : ℕ)
      → slot.in_use ≡ true
      → put_caps p v sh ≡ sh'
      → put_slot p v slot ≡ slot'
      → pool_of sh' (k + as_number slot'.in_use) ≡ pool_of sh (k + 1)
  unfolding pool_of
  kept_pool v sh sh' slot slot' k u h g = ground arith

  kept-Settles :
      (v : World Engine) (sh sh' : Shared) (slot slot' : Slot Engine)
      → slot.in_use ≡ true
      → put_caps p v sh ≡ sh'
      → put_slot p v slot ≡ slot'
      → Settles sh sh' slot'
  kept-Settles v sh sh' slot slot' u h g = (
    ground arith,
    λ k.
        subst⁻¹ (λ x. PoolSteps sh.max_connections target (pool_of sh (k + 1)) x)
          (kept_pool v sh sh' slot slot' k u h g) (rest _),
  )

  settled-Settles :
      (sh sh' : Shared) (slot slot' : Slot Engine) (run : Run Engine)
      → slot.in_use ≡ true
      → settled p sh slot run ≡ some (sh', slot')
      → Settles sh sh' slot'
  unfolding settled
  settled-Settles sh sh' slot slot' aborted u h = cc
  settled-Settles sh sh' slot slot' (done v) u h = elim (Bool-cases (is_terminal v.conn.state)) [
    | inl t ↦ settled_finish v sh sh' slot slot' (ground arith)
    | inr f ↦ kept-Settles v sh sh' slot slot' u (ground arith) (ground arith)
  ]

  pub handle_completion-Settles :
      (c : Completion) (now_ms : ℕ) (sh sh' : Shared) (slot slot' : Slot Engine)
      → slot.in_use ≡ true
      → handle_completion p c now_ms sh slot ≡ some (sh', slot')
      → Settles sh sh' slot'
  unfolding handle_completion
  handle_completion-Settles c now_ms sh sh' slot slot' u h = settled-Settles sh sh' slot slot' _ u h

  -- A slot that is not in use is passed over.
  pub sweep_slot-Settles :
      (now_ms : ℕ) (sh sh' : Shared) (slot slot' : Slot Engine) (k : ℕ)
      → sweep_slot p now_ms sh slot ≡ some (sh', slot')
      → (sh'.max_connections ≡ sh.max_connections)
        × PoolSteps sh.max_connections target
            (pool_of sh (k + as_number slot.in_use))
            (pool_of sh' (k + as_number slot'.in_use))
  unfolding sweep_slot
  sweep_slot-Settles now_ms sh sh' slot slot' k h = elim (Bool-cases slot.in_use) [
    | inl u ↦
        let (m, s) =
          settled-Settles sh sh' slot slot' (check_timeout p now_ms (world_of p sh slot)) u
            (ground arith) in
        (
          m,
          subst⁻¹
              (λ b.
                PoolSteps sh.max_connections target (pool_of sh (k + as_number b))
                  (pool_of sh' (k + as_number slot'.in_use)))
              u (s k),
        )
    | inr n ↦
        let e : pool_of sh' (k + as_number slot'.in_use) ≡ pool_of sh (k + as_number slot.in_use) =
          passed (ground arith) (ground arith) in
        (
          ground arith,
          subst⁻¹
              (λ x. PoolSteps sh.max_connections target (pool_of sh (k + as_number slot.in_use)) x)
              e (rest _),
        )
  ]
    where
      passed :
          sh ≡ sh'
          → slot ≡ slot'
          → pool_of sh' (k + as_number slot'.in_use) ≡ pool_of sh (k + as_number slot.in_use)
      passed e e' = cc
