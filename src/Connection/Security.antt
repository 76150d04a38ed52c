-- ===== src/Connection/Security.antt =====
-- Which connections can be where: the TLS modes keep what they promise.
pub mod Io
mod Handlers
mod Starttls
mod Handshake
pub mod Machine
use smtpc_cli.Connection.State.{
  ConnState, connecting, wait_banner, sending_ehlo, wait_ehlo, sending_starttls,
  wait_starttls_reply, tls_handshaking, ready, error, timed_out, TlsMode, mode_none, opportunistic,
  explicit, implicit, log_tls_ok, log_tls_cert_warning, Event, logged, World,
}
use smtpc_cli.Common.{Bool, true, false, not, ◌&&◌, ◌||◌, [], ◌∷◌, List, Option, some, none, ◌≡◌}

-- A handshake has been logged as finished.
abbrev pub established : List Event → Bool
established [] = false
established (logged log_tls_ok _ ∷ _) = true
established (logged log_tls_cert_warning _ ∷ _) = true
established (_ ∷ events) = established events

abbrev pub has_engine : {E : Type 0} → Option E → Bool
has_engine none = false
has_engine (some _) = true

-- Behind the handshake of `implicit`, and where STARTTLS may still come.
abbrev pub conversing : TlsMode → (engine finished : Bool) → Bool
conversing mode_none engine finished = not engine
conversing implicit engine finished = engine && finished
conversing _ engine finished = not engine || finished

abbrev pub upgrading : TlsMode → (engine : Bool) → Bool
upgrading opportunistic engine = not engine
upgrading explicit engine = not engine
upgrading _ engine = false

abbrev pub finishing : TlsMode → (engine finished : Bool) → Bool
finishing mode_none engine finished = not engine
finishing opportunistic engine finished = not engine || finished
finishing _ engine finished = engine && finished

abbrev pub shaking : TlsMode → (engine : Bool) → Bool
shaking mode_none engine = false
shaking _ engine = engine

abbrev pub failed : TlsMode → (engine : Bool) → Bool
failed mode_none engine = not engine
failed _ engine = true

-- The combinations of mode, state, engine and finished handshake that can occur.
abbrev pub allowed : TlsMode → ConnState → (engine finished : Bool) → Bool
allowed mode connecting engine finished = not engine
allowed mode wait_banner engine finished = conversing mode engine finished
allowed mode sending_ehlo engine finished = conversing mode engine finished
allowed mode wait_ehlo engine finished = conversing mode engine finished
allowed mode sending_starttls engine finished = upgrading mode engine
allowed mode wait_starttls_reply engine finished = upgrading mode engine
allowed mode tls_handshaking engine finished = shaking mode engine
allowed mode ready engine finished = finishing mode engine finished
allowed mode error engine finished = failed mode engine
allowed mode timed_out engine finished = failed mode engine

module _ {E : Type 0} where
  abbrev pub IsAllowed : World E → Type 0
  IsAllowed w =
      allowed w.conn.tls_mode w.conn.state (has_engine w.conn.tls) (established w.events) ≡ true
