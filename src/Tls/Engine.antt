-- ===== src/Tls/Engine.antt =====
-- src/smtp_tls_openssl.c: the calls on an engine. A buffer with its size is the bytes in it and the size;
-- `out` is what the call leaves in the output buffer, its length is `*out_len`.
use smtpc_cli.Tls.{
  TlsErr, err_bio_pair_failed, err_handshake_failed, err_protocol_error, Tls, verify_chain, Rc,
  SslError, ssl_want_read, ssl_zero_return, Openssl, is_rc, is_positive, is_wanting,
}
use smtpc_cli.Connection.State.{TlsStatus, tls_ok, want_read, want_write, tls_error, TlsStep}
use smtpc_cli.Common.{
  ℕ, Bool, true, not, ◌||◌, Option, some, none, [], ◌∷◌, Bytes, if◌then◌else◌, length,
}

-- The result of a call, and what it sets the thread's last error to, if it does.
pub record Call (Session : Type 0) : Type 0 where
  pub step : TlsStep (Tls Session)
  pub err : Option TlsErr

abbrev pub returned : {S : Type 0} → TlsStatus → Bytes → Tls S → Call S
returned status out tls = record {
  step = record { status = status; out = out; engine = tls };
  err = none;
}

abbrev pub failing : {S : Type 0} → TlsErr → Tls S → Call S
failing e tls = record {
  step = record { status = tls_error; out = []; engine = tls };
  err = some e;
}

module _ (o : Openssl) where
  open o use {
    Session, configured, bio_write, bio_read, presented, do_handshake, ssl_write, ssl_read,
    ssl_shutdown, get_error,
  }

  abbrev with_ssl : Session → Tls Session → Tls Session
  with_ssl s tls = record tls { ssl = s }

  -- `smtp_tls_feed_input`; the Boolean says whether all of the input was taken.
  unfoldable pub feed_input : Bytes → Tls Session → Tls Session × Bool
  feed_input [] tls = (tls, true)
  feed_input (b ∷ bytes) tls =
      let (n, s) = bio_write (b ∷ bytes) tls.ssl in (with_ssl s tls, is_rc (length (b ∷ bytes)) n)

  -- `smtp_tls_drain_output`
  unfoldable pub drain_output : (out_buf_size : ℕ) → Tls Session → Bytes × Tls Session
  drain_output out_buf_size tls =
      let (out, s) = bio_read out_buf_size tls.ssl in (out, with_ssl s tls)

  -- SSL_do_handshake, with the calls of the verify callback that it makes.
  unfoldable pub advance : Tls Session → Rc × Tls Session
  advance tls =
      let (tls', verified) = verify_chain (presented tls.ssl) tls in
      let (rc, s) = do_handshake verified tls.ssl in (rc, with_ssl s tls')

  -- Behind the drain of a handshake step.
  unfoldable pub shaken : Rc → (out : Bytes) → Tls Session → Call Session
  shaken rc (b ∷ out) tls = returned want_write (b ∷ out) tls
  shaken rc [] tls =
      if is_rc 1 rc
      then returned tls_ok [] (record tls { handshake_done = true })
      else if is_wanting (get_error rc tls.ssl)
      then returned want_read [] tls
      else failing err_handshake_failed tls

  -- `smtp_tls_handshake`
  unfoldable pub handshake : Tls Session → Bytes → (out_buf_size : ℕ) → Call Session
  handshake tls in_data out_buf_size =
      let (tls₁, fed) = feed_input in_data tls in
      let (rc, tls₂) = advance tls₁ in
      let (out, tls₃) = drain_output out_buf_size tls₂ in
      if not fed then failing err_bio_pair_failed tls₁ else shaken rc out tls₃

  -- The write of `smtp_tls_encrypt`; the Boolean says whether the call may go on.
  unfoldable pub write_plaintext : Bytes → Tls Session → Tls Session × Bool
  write_plaintext [] tls = (tls, true)
  write_plaintext (b ∷ plaintext) tls =
      let (wrc, s) = ssl_write (b ∷ plaintext) tls.ssl in
      (with_ssl s tls, is_positive wrc || is_wanting (get_error wrc s))

  -- Behind the drain of an encryption.
  unfoldable pub flushed : TlsStatus → (out : Bytes) → Tls Session → Call Session
  flushed idle (b ∷ out) tls = returned want_write (b ∷ out) tls
  flushed idle [] tls = returned idle [] tls

  -- `smtp_tls_encrypt`; `none` is the failed assertion.
  unfoldable pub encrypt : Tls Session → Bytes → (out_buf_size : ℕ) → Option (Call Session)
  encrypt tls plaintext out_buf_size =
      let (tls₁, written) = write_plaintext plaintext tls in
      let (out, tls₂) = drain_output out_buf_size tls₁ in
      if not tls.handshake_done
      then none
      else if not written
      then some (failing err_protocol_error tls₁)
      else some (flushed want_read out tls₂)

  -- Behind SSL_read.
  unfoldable pub opened : SslError → (out : Bytes) → Tls Session → Call Session
  opened err (b ∷ out) tls = returned tls_ok (b ∷ out) tls
  opened ssl_want_read [] tls = returned want_read [] tls
  opened ssl_zero_return [] tls = returned tls_ok [] tls
  opened _ [] tls = failing err_protocol_error tls

  -- `smtp_tls_decrypt`; `none` is the failed assertion.
  unfoldable pub decrypt : Tls Session → Bytes → (out_buf_size : ℕ) → Option (Call Session)
  decrypt tls in_data out_buf_size =
      let (tls₁, fed) = feed_input in_data tls in
      let (out, rc, s) = ssl_read out_buf_size tls₁.ssl in
      if not tls.handshake_done
      then none
      else if not fed
      then some (failing err_bio_pair_failed tls₁)
      else some (opened (get_error rc s) out (with_ssl s tls₁))

  -- `smtp_tls_shutdown`
  unfoldable pub shutdown : Tls Session → (out_buf_size : ℕ) → Call Session
  shutdown tls out_buf_size =
      let (out, tls') = drain_output out_buf_size (with_ssl (ssl_shutdown tls.ssl) tls) in
      if not tls.handshake_done then returned tls_ok [] tls else flushed tls_ok out tls'
