-- ===== src/Tls/Bridge.antt =====
-- src/smtp_tls_openssl.c below src/smtp_connection.c: the engine on OpenSSL as a connection sees it.
use smtpc_cli.Tls.{
  Tls, Openssl, Rc, SslError, ssl_want_read, ssl_zero_return, ssl_want_write, ssl_other,
}
use smtpc_cli.Tls.Engine.{
  Call, feed_input, drain_output, advance, shaken, handshake, write_plaintext, flushed, encrypt,
  opened, decrypt,
}
use smtpc_cli.Tls.Lifecycle.{create}
use smtpc_cli.Connection.State.{
  TlsStatus, want_read, tls_error, TlsStep, Platform, CertInfo, Event, World, Holds, read_buf_size,
}
use smtpc_cli.Connection.Bounds.{on_io-Fits}
use smtpc_cli.Connection.Handlers.{IoResult}
use smtpc_cli.Connection.Machine.{on_io, is_read}
use smtpc_cli.Common.{
  arith, ℕ, ◌-◌, ◌≤◌, Bool, true, Option, some, none, List, [], ◌∷◌, Bytes, ◌≡◌, length,
}

-- `smtp_tls_get_cert_info`, as far as the connection reads it.
abbrev pub get_cert_info : {S : Type 0} → Tls S → CertInfo
get_cert_info tls = record {
  validated = tls.cert_info.validated;
  failure_reason = tls.cert_info.failure_reason;
  subject = tls.cert_info.subject;
}

-- A call whose assertion may fail: where it does the process ends, and an error step stands for that.
abbrev pub step_of : {S : Type 0} → Tls S → Option (Call S) → TlsStep (Tls S)
step_of tls (some c) = c.step
step_of tls none = record { status = tls_error; out = []; engine = tls }

-- The platform of a connection whose engines are these.
abbrev pub platform : Openssl → (List Event → Bool) → Platform
platform o accepts = record {
  Engine = Tls o.Session;
  create = λ hostname trust. (create o hostname trust).1;
  handshake = λ tls input size. (handshake o tls input size).step;
  encrypt = λ tls plaintext size. step_of tls (encrypt o tls plaintext size);
  decrypt = λ tls input size. step_of tls (decrypt o tls input size);
  cert_info = get_cert_info;
  accepts = accepts;
}

-- The documented promise of BIO_read and SSL_read: no more bytes than they are asked for.
pub record ReadsInto (o : Openssl) : Type 0 where
  pub by_bio_read : (n : ℕ) (s : o.Session) → length (o.bio_read n s).0 ≤ n
  pub by_ssl_read : (n : ℕ) (s : o.Session) → length (o.ssl_read n s).0 ≤ n

module _ (o : Openssl) (reads : ReadsInto o) where
  shaken-room :
      (rc : Rc) (out : Bytes) (tls : Tls o.Session) (size : ℕ)
      → length out ≤ size
      → length (shaken o rc out tls).step.out ≤ size
  unfolding shaken
  shaken-room rc [] tls size h = ground arith
  shaken-room rc (b ∷ out) tls size h = h

  flushed-room :
      (idle : TlsStatus) (out : Bytes) (tls : Tls o.Session) (size : ℕ)
      → length out ≤ size
      → length (flushed o idle out tls).step.out ≤ size
  unfolding flushed
  flushed-room idle [] tls size h = h
  flushed-room idle (b ∷ out) tls size h = h

  opened-room :
      (err : SslError) (out : Bytes) (tls : Tls o.Session) (size : ℕ)
      → length out ≤ size
      → length (opened o err out tls).step.out ≤ size
  unfolding opened
  opened-room err (b ∷ out) tls size h = h
  opened-room ssl_want_read [] tls size h = h
  opened-room ssl_zero_return [] tls size h = h
  opened-room ssl_want_write [] tls size h = h
  opened-room ssl_other [] tls size h = h

  handshake-room :
      (tls : Tls o.Session) (input : Bytes) (size : ℕ)
      → length (handshake o tls input size).step.out ≤ size
  unfolding handshake drain_output
  handshake-room tls input size =
      let (rc, tls₂) = advance o (feed_input o input tls).0 in
      let s =
        shaken-room rc (o.bio_read size tls₂.ssl).0 (drain_output o size tls₂).1 size
          (reads.by_bio_read size tls₂.ssl) in
      ground arith

  encrypt-room :
      (tls : Tls o.Session) (plaintext : Bytes) (size : ℕ)
      → length (step_of tls (encrypt o tls plaintext size)).out ≤ size
  unfolding encrypt drain_output
  encrypt-room tls plaintext size =
      let tls₁ = (write_plaintext o plaintext tls).0 in
      let s =
        flushed-room want_read (o.bio_read size tls₁.ssl).0 (drain_output o size tls₁).1 size
          (reads.by_bio_read size tls₁.ssl) in
      ground arith

  decrypt-room :
      (tls : Tls o.Session) (input : Bytes) (size : ℕ)
      → length (step_of tls (decrypt o tls input size)).out ≤ size
  unfolding decrypt
  decrypt-room tls input size =
      let tls₁ = (feed_input o input tls).0 in
      let (out, rc, s₁) = o.ssl_read size tls₁.ssl in
      let s =
        opened-room (o.get_error rc s₁) out (record tls₁ { ssl = s₁ }) size
          (reads.by_ssl_read size tls₁.ssl) in
      ground arith

-- A connection whose engines are those on OpenSSL, where BIO_read and SSL_read keep to the room
-- they are given, and a read in the clear to the rest of the buffer: the received bytes fit the
-- read buffer of 4096 bytes behind every completion that returns.
pub platform-Fits :
    (o : Openssl) (accepts : List Event → Bool) (result : IoResult) (identity : Bytes) (now_ms : ℕ)
    (w : World (Tls o.Session))
    → ReadsInto o
    → length w.conn.received ≤ read_buf_size
    → (w.conn.tls ≡ none
        → is_read result.kind ≡ true
        → length result.chunk ≤ read_buf_size - length w.conn.received)
    → Holds
        (on_io (platform o accepts) result identity now_ms w)
        (λ v. length v.conn.received ≤ read_buf_size)
platform-Fits o accepts result identity now_ms w reads h c =
    on_io-Fits (platform o accepts) result identity now_ms w
      (λ tls input room. decrypt-room o reads tls input room) h c
