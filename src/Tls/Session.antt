-- ===== src/Tls/Session.antt =====
-- src/smtp_tls_openssl.c below src/smtp_connection.c: a connection calls encryption and decryption on
-- engines whose handshake has finished.
use smtpc_cli.Tls.{Tls, Openssl}
use smtpc_cli.Tls.Engine.{encrypt, decrypt}
use smtpc_cli.Tls.Reached.{is_ok, encrypt-IsSame, decrypt-IsSame}
use smtpc_cli.Tls.Usable.{is_some, handshake-done}
use smtpc_cli.Tls.Bridge.{platform}
use smtpc_cli.Connection.Finished.{Finishes, Backed, IsBacked}
use smtpc_cli.Connection.Finished.Machine.{
  on_io-IsBacked, check_timeout-IsBacked, connection_start-IsBacked,
}
use smtpc_cli.Connection.Security.{established, has_engine, allowed}
use smtpc_cli.Connection.Reachable.{Reached, holds_of, Reached-IsAllowed}
use smtpc_cli.Connection.State.{World, Event, TlsMode, ConnState, tls_handshaking, error, timed_out}
use smtpc_cli.Common.{
  arith, ℕ, Bool, true, false, some, List, Bytes, ◌≡◌, ap, subst, Option-cases, inl, inr,
}

module _ (o : Openssl) (accepts : List Event → Bool) where
  abbrev IsDone : Tls o.Session → Type 0
  IsDone tls = tls.handshake_done ≡ true

  platform-Finishes : Finishes (platform o accepts) IsDone
  platform-Finishes = record {
    established_by = λ tls input n h.
        (let d = handshake-done o tls input n in let k = ap is_ok h in ground arith);
    by_handshake = λ tls input n q. (let d = handshake-done o tls input n in ground arith);
    by_encrypt = λ tls input n q. elim (Option-cases (encrypt o tls input n)) [
      | inl e ↦ rw e q
      | inr (c, e) ↦ rw e (let s = (encrypt-IsSame o tls input n c e).done in ground arith)
    ];
    by_decrypt = λ tls input n q. elim (Option-cases (decrypt o tls input n)) [
      | inl e ↦ rw e q
      | inr (c, e) ↦ rw e (let s = (decrypt-IsSame o tls input n c e).done in ground arith)
    ];
  }

  module _ (actor : Bytes) (mode : TlsMode) (trust : Bool) where
    abbrev Backs : World (Tls o.Session) → Type 0
    Backs = IsBacked (platform o accepts) IsDone platform-Finishes

    Reached-IsBacked :
        {w : World (Tls o.Session)} → Reached (platform o accepts) actor mode trust w → Backs w
    Reached-IsBacked (Reached.started now_ms timeout_ms caps e) = holds_of _ _ Backs e (
        connection_start-IsBacked (platform o accepts) IsDone platform-Finishes now_ms timeout_ms _
          tt)
    Reached-IsBacked (Reached.completed {w} result identity now_ms r e) = holds_of _ _ Backs e (
        on_io-IsBacked (platform o accepts) IsDone platform-Finishes result identity now_ms w
          (Reached-IsAllowed (platform o accepts) actor mode trust r) (Reached-IsBacked r))
    Reached-IsBacked (Reached.checked {w} now_ms r e) = holds_of _ _ Backs e (
        check_timeout-IsBacked (platform o accepts) IsDone platform-Finishes now_ms w
          (Reached-IsBacked r))
    Reached-IsBacked (Reached.elsewhere caps r) = Reached-IsBacked r

-- The states in which a completion may be decrypted.
abbrev pub deciphers : ConnState → Bool
deciphers tls_handshaking = false
deciphers error = false
deciphers timed_out = false
deciphers _ = true

allowed_finished :
    (mode : TlsMode) (s : ConnState) (finished : Bool)
    → allowed mode s true finished ≡ true
    → deciphers s ≡ true
    → finished ≡ true
allowed_finished mode s finished a d = ground arith

-- In whatever way a connection on the OpenSSL engine is reached, whatever OpenSSL, the reactor and
-- the peer do: where it holds an engine outside the handshake and the states of failure, the
-- assertions of decryption and of encryption on that engine hold, as its handshake has returned
-- OK.
pub engine_finished :
    (o : Openssl) (accepts : List Event → Bool) (actor : Bytes) (mode : TlsMode) (trust : Bool)
    (w : World (Tls o.Session)) (tls : Tls o.Session) (input plaintext : Bytes) (size : ℕ)
    → Reached (platform o accepts) actor mode trust w
    → w.conn.tls ≡ some tls
    → deciphers w.conn.state ≡ true
    → (is_some (decrypt o tls input size) ≡ true) × (is_some (encrypt o tls plaintext size) ≡ true)
unfolding encrypt decrypt
engine_finished o accepts actor mode trust w tls input plaintext size r e d =
    let a = Reached-IsAllowed (platform o accepts) actor mode trust r in
    let f =
      allowed_finished w.conn.tls_mode w.conn.state (established w.events)
        (subst
          (λ t. allowed w.conn.tls_mode w.conn.state (has_engine t) (established w.events) ≡ true) e
          a)
        d in
    let b : tls.handshake_done ≡ true =
      subst
        (λ t. Backed (platform o accepts) (IsDone o accepts) (platform-Finishes o accepts) true t) e
        (subst
          (λ c.
            Backed (platform o accepts) (IsDone o accepts) (platform-Finishes o accepts) c
              w.conn.tls)
          f (Reached-IsBacked o accepts actor mode trust r)) in
    ground arith
