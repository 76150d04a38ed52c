-- ===== src/Connection/Reachable.antt =====
-- src/smtp_connection.c: the worlds that a connection's owner can reach, and what holds in them.
use smtpc_cli.Connection.State.{
  TlsMode, mode_none, opportunistic, explicit, implicit, ConnState, connecting, wait_banner,
  sending_ehlo, wait_ehlo, sending_starttls, wait_starttls_reply, tls_handshaking, ready, error,
  timed_out, Platform, World, Run, done, Holds,
}
use smtpc_cli.Connection.Handlers.{IoResult}
use smtpc_cli.Connection.Machine.{connection_init, connection_start, on_io, check_timeout}
use smtpc_cli.Connection.Security.{finishing, allowed, has_engine, established, IsAllowed}
use smtpc_cli.Connection.Security.Io.{allowed_may_fail}
use smtpc_cli.Connection.Security.Machine.{
  on_io-IsAllowed, check_timeout-IsAllowed, connection_start-IsAllowed,
}
use smtpc_cli.Connection.Frame.{Frame, Keeps}
use smtpc_cli.Connection.Frame.Machine.{connection_start-Keeps, on_io-Keeps, check_timeout-Keeps}
use smtpc_cli.Capabilities.{Capabilities}
use smtpc_cli.Common.{subst, inr, inl, ◌≢◌, arith, ℕ, Bool, true, false, Bytes, [], ◌≡◌, refl, ◌⊎◌}

-- A connection for an actor, a TLS mode and a trust flag, before its start.
abbrev pub fresh : (p : Platform) → Bytes → TlsMode → Bool → Capabilities → World p.Engine
fresh p actor mode trust caps = record {
  conn = connection_init actor mode trust;
  caps = caps;
  events = [];
}

-- The owner starts the connection, then passes it completions and checks its deadline in any
-- order; other connections of the thread write the shared capabilities in between.
pub data Reached (p : Platform) (actor : Bytes) (mode : TlsMode) (trust : Bool)
    : World p.Engine → Type 0 where
  started :
      {w : World p.Engine} (now_ms timeout_ms : ℕ) (caps : Capabilities)
      → connection_start p now_ms timeout_ms (fresh p actor mode trust caps) ≡ done w
      → Reached p actor mode trust w
  completed :
      {w v : World p.Engine} (result : IoResult) (identity : Bytes) (now_ms : ℕ)
      → Reached p actor mode trust w
      → on_io p result identity now_ms w ≡ done v
      → Reached p actor mode trust v
  checked :
      {w v : World p.Engine} (now_ms : ℕ)
      → Reached p actor mode trust w
      → check_timeout p now_ms w ≡ done v
      → Reached p actor mode trust v
  elsewhere :
      {w : World p.Engine} (caps : Capabilities)
      → Reached p actor mode trust w
      → Reached p actor mode trust (record w { caps = caps })

-- What holds of a run holds of the world it is done with.
pub holds_of :
    {E : Type 0} (r : Run E) (w : World E) (P : World E → Type 0) → r ≡ done w → Holds r P → P w
holds_of r w P e h = subst (λ s. Holds s P) e h

module _ (p : Platform) (actor : Bytes) (mode : TlsMode) (trust : Bool) where
  open p use {Engine}

  pub Reached-IsAllowed : {w : World Engine} → Reached p actor mode trust w → IsAllowed w
  Reached-IsAllowed (started now_ms timeout_ms caps e) =
      holds_of _ _ IsAllowed e (connection_start-IsAllowed p now_ms timeout_ms _ refl)
  Reached-IsAllowed (completed {w} result identity now_ms r e) =
      holds_of _ _ IsAllowed e (on_io-IsAllowed p result identity now_ms w (Reached-IsAllowed r))
  Reached-IsAllowed (checked {w} now_ms r e) =
      holds_of _ _ IsAllowed e (check_timeout-IsAllowed p now_ms w (Reached-IsAllowed r))
  Reached-IsAllowed (elsewhere caps r) = Reached-IsAllowed r

  -- The mode and the trust flag are what the owner gave.
  abbrev IsConfigured : Frame
  IsConfigured = record { holds = λ _ m _ t. (m ≡ mode) × (t ≡ trust); emptied = λ _ _ _ _ h. h }

  Reached-IsConfigured : {w : World Engine} → Reached p actor mode trust w → Keeps IsConfigured p w
  Reached-IsConfigured (started {w} now_ms timeout_ms caps e) =
      holds_of _ _ (Keeps IsConfigured p) e
        (connection_start-Keeps IsConfigured p now_ms timeout_ms _ (refl, refl))
  Reached-IsConfigured (completed {w} result identity now_ms r e) =
      let h = Reached-IsConfigured r in
      holds_of _ _ (Keeps IsConfigured p) e
        (on_io-Keeps IsConfigured p result identity now_ms w h (λ _ _ _. h) (λ _ _ _. h))
  Reached-IsConfigured (checked {w} now_ms r e) =
      holds_of _ _ (Keeps IsConfigured p) e
        (check_timeout-Keeps IsConfigured p now_ms w (Reached-IsConfigured r))
  Reached-IsConfigured (elsewhere caps r) = Reached-IsConfigured r

  configured_allowed :
      {w : World Engine}
      → Reached p actor mode trust w
      → allowed mode w.conn.state (has_engine w.conn.tls) (established w.events) ≡ true
  configured_allowed {w} r =
      subst (λ m. allowed m w.conn.state (has_engine w.conn.tls) (established w.events) ≡ true)
        (Reached-IsConfigured r).0 (Reached-IsAllowed r)

finishing_secure :
    (mode : TlsMode) (engine finished : Bool)
    → mode ≢ mode_none
    → mode ≢ opportunistic
    → finishing mode engine finished ≡ true
    → (engine ≡ true) × (finished ≡ true)
finishing_secure mode_none engine finished n o h = absurd (n refl)
finishing_secure opportunistic engine finished n o h = absurd (o refl)
finishing_secure explicit engine finished n o h = (ground arith, ground arith)
finishing_secure implicit engine finished n o h = (ground arith, ground arith)

-- Whatever the TLS engine, the reactor and the peer do, a connection that is reached READY in
-- explicit or implicit mode has a TLS engine and has logged a finished handshake.
pub ready_is_secure :
    (p : Platform) (actor : Bytes) (mode : TlsMode) (trust : Bool) (w : World p.Engine)
    → Reached p actor mode trust w
    → w.conn.state ≡ ready
    → mode ≢ mode_none
    → mode ≢ opportunistic
    → (has_engine w.conn.tls ≡ true) × (established w.events ≡ true)
ready_is_secure p actor mode trust w r s n o =
    finishing_secure mode (has_engine w.conn.tls) (established w.events) n o (
      subst (λ s'. allowed mode s' (has_engine w.conn.tls) (established w.events) ≡ true) s
        (configured_allowed p actor mode trust r))

before_handshake :
    (s : ConnState) (engine : Bool)
    → allowed implicit s engine false ≡ true
    → (s ≡ connecting) ⊎ (s ≡ tls_handshaking) ⊎ (s ≡ error) ⊎ (s ≡ timed_out)
before_handshake connecting engine h = inl refl
before_handshake tls_handshaking engine h = inr (inl refl)
before_handshake error engine h = inr (inr (inl refl))
before_handshake timed_out engine h = inr (inr (inr refl))
before_handshake wait_banner engine h = absurd (ground arith)
before_handshake sending_ehlo engine h = absurd (ground arith)
before_handshake wait_ehlo engine h = absurd (ground arith)
before_handshake sending_starttls engine h = absurd (ground arith)
before_handshake wait_starttls_reply engine h = absurd (ground arith)
before_handshake ready engine h = absurd (ground arith)

-- Until a handshake is logged as finished, a connection reached in implicit mode is connecting, in
-- the handshake, failed or timed out: it neither reads a greeting nor sends EHLO.
pub implicit_shakes_first :
    (p : Platform) (actor : Bytes) (trust : Bool) (w : World p.Engine)
    → Reached p actor implicit trust w
    → established w.events ≡ false
    → (w.conn.state ≡ connecting)
      ⊎ (w.conn.state ≡ tls_handshaking)
      ⊎ (w.conn.state ≡ error)
      ⊎ (w.conn.state ≡ timed_out)
implicit_shakes_first p actor trust w r f = before_handshake w.conn.state (has_engine w.conn.tls) (
    subst (λ f'. allowed implicit w.conn.state (has_engine w.conn.tls) f' ≡ true) f
      (configured_allowed p actor implicit trust r))

-- A connection reached in the mode without TLS has no engine.
pub none_has_no_engine :
    (p : Platform) (actor : Bytes) (trust : Bool) (w : World p.Engine)
    → Reached p actor mode_none trust w
    → has_engine w.conn.tls ≡ false
none_has_no_engine p actor trust w r =
    let a =
      allowed_may_fail mode_none w.conn.state _ _ (configured_allowed p actor mode_none trust r) in
    ground arith
