-- ===== src/Connection/Forgets.antt =====
-- src/smtp_connection.c: what was received and learned in the clear does not outlive the handshake.
use smtpc_cli.Connection.State.{Platform, World, tls_handshaking, error}
use smtpc_cli.Capabilities.{cap_init}
use smtpc_cli.Common.{◌⊎◌, Bool, true, [], ◌≡◌}
use Prim.Native.String.{String}

-- Behind a completion of the handshake, `seen` telling whether the greeting was read before: it goes
-- on, has failed, or nothing that came before is left.
abbrev pub Forgets : {E : Type 0} → Bool → World E → Type 0
Forgets seen v =
    (v.conn.state ≡ tls_handshaking)
    ⊎ (v.conn.state ≡ error)
    ⊎ ((v.conn.received ≡ []) × (seen ≡ true → v.caps ≡ cap_init))

module _ (p : Platform) (seen : Bool) where
  open p use {Engine, encrypt}

  -- Nothing is left.
  Clean : World Engine → Type 0
  Clean w = (w.conn.received ≡ []) × (seen ≡ true → w.caps ≡ cap_init)
