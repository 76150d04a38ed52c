-- ===== src/Tls/Reached.antt =====
-- src/smtp_tls_openssl.c: the engines that a connection can hold, and what their calls do.
use smtpc_cli.Tls.{
  Tls, Openssl, is_rc, SslError, ssl_want_read, ssl_zero_return, ssl_want_write, ssl_other,
}
use smtpc_cli.Tls.Engine.{
  Call, feed_input, drain_output, handshake, write_plaintext, flushed, encrypt, opened, decrypt,
  shutdown,
}
use smtpc_cli.Tls.Lifecycle.{create}
use smtpc_cli.Connection.State.{TlsStatus, tls_ok, want_read}
use smtpc_cli.Common.{arith, ℕ, Bool, true, false, ◌||◌, some, [], ◌∷◌, Bytes, ◌≡◌, refl}

abbrev pub is_ok : TlsStatus → Bool
is_ok tls_ok = true
is_ok _ = false

-- An engine for a trust flag behind any calls; the Boolean says whether a handshake has returned OK.
pub data Reached (o : Openssl) (trust : Bool) : Tls o.Session → Bool → Type 0 where
  created :
      (hostname : Bytes) (tls : Tls o.Session)
      → (create o hostname trust).1 ≡ some tls
      → Reached o trust tls false
  shook :
      (tls : Tls o.Session) (finished : Bool) (input : Bytes) (size : ℕ)
      → Reached o trust tls finished
      → Reached o trust
          (handshake o tls input size).step.engine
          (finished || is_ok (handshake o tls input size).step.status)
  encrypted :
      (tls : Tls o.Session) (finished : Bool) (plaintext : Bytes) (size : ℕ) (c : Call o.Session)
      → encrypt o tls plaintext size ≡ some c
      → Reached o trust tls finished
      → Reached o trust c.step.engine finished
  decrypted :
      (tls : Tls o.Session) (finished : Bool) (input : Bytes) (size : ℕ) (c : Call o.Session)
      → decrypt o tls input size ≡ some c
      → Reached o trust tls finished
      → Reached o trust c.step.engine finished
  shut :
      (tls : Tls o.Session) (finished : Bool) (size : ℕ)
      → Reached o trust tls finished
      → Reached o trust (shutdown o tls size).step.engine finished

-- OpenSSL's promise on SSL_VERIFY_PEER: a session whose callback has rejected a certificate is spoiled for
-- good, and its handshake does not succeed.
pub record Rejects (o : Openssl) (spoiled : o.Session → Bool) : Type 0 where
  pub rejected : (s : o.Session) → spoiled (o.do_handshake false s).1 ≡ true
  pub no_success :
      (v : Bool) (s : o.Session)
      → spoiled (o.do_handshake v s).1 ≡ true
      → is_rc 1 (o.do_handshake v s).0 ≡ false
  pub by_handshake :
      (v : Bool) (s : o.Session) → spoiled s ≡ true → spoiled (o.do_handshake v s).1 ≡ true
  pub by_bio_write : (b : Bytes) (s : o.Session) → spoiled (o.bio_write b s).1 ≡ spoiled s
  pub by_bio_read : (n : ℕ) (s : o.Session) → spoiled (o.bio_read n s).1 ≡ spoiled s
  pub by_ssl_write : (b : Bytes) (s : o.Session) → spoiled (o.ssl_write b s).1 ≡ spoiled s
  pub by_ssl_read : (n : ℕ) (s : o.Session) → spoiled (o.ssl_read n s).2 ≡ spoiled s
  pub by_shutdown : (s : o.Session) → spoiled (o.ssl_shutdown s) ≡ spoiled s

module _ (o : Openssl) where
  open o use {Session}

  -- What only the handshake changes.
  pub record IsSame (tls tls' : Tls Session) : Type 0 where
    pub done : tls'.handshake_done ≡ tls.handshake_done
    pub trusts : tls'.trust_without_validation ≡ tls.trust_without_validation
    pub certified : tls'.cert_info ≡ tls.cert_info

  pub feed-IsSame : (input : Bytes) (tls : Tls Session) → IsSame tls (feed_input o input tls).0
  unfolding feed_input
  feed-IsSame [] tls = ground arith
  feed-IsSame (b ∷ bytes) tls = ground arith

  pub write-IsSame :
      (input : Bytes) (tls : Tls Session) → IsSame tls (write_plaintext o input tls).0
  unfolding write_plaintext
  write-IsSame [] tls = ground arith
  write-IsSame (b ∷ bytes) tls = ground arith

  pub flushed-engine :
      (idle : TlsStatus) (out : Bytes) (tls : Tls Session)
      → (flushed o idle out tls).step.engine ≡ tls
  unfolding flushed
  flushed-engine idle [] tls = refl
  flushed-engine idle (b ∷ out) tls = refl

  pub opened-engine :
      (err : SslError) (out : Bytes) (tls : Tls Session) → (opened o err out tls).step.engine ≡ tls
  unfolding opened
  opened-engine err (b ∷ out) tls = refl
  opened-engine ssl_want_read [] tls = refl
  opened-engine ssl_zero_return [] tls = refl
  opened-engine ssl_want_write [] tls = refl
  opened-engine ssl_other [] tls = refl

  pub encrypt-IsSame :
      (tls : Tls Session) (plaintext : Bytes) (size : ℕ) (c : Call Session)
      → encrypt o tls plaintext size ≡ some c
      → IsSame tls c.step.engine
  unfolding encrypt drain_output
  encrypt-IsSame tls plaintext size c h =
      let s = write-IsSame plaintext tls in
      let f =
        flushed-engine want_read (drain_output o size (write_plaintext o plaintext tls).0).0
          (drain_output o size (write_plaintext o plaintext tls).0).1 in
      let d = s.done in let t = s.trusts in let e = s.certified in ground arith

  pub decrypt-IsSame :
      (tls : Tls Session) (input : Bytes) (size : ℕ) (c : Call Session)
      → decrypt o tls input size ≡ some c
      → IsSame tls c.step.engine
  unfolding decrypt
  decrypt-IsSame tls input size c h =
      let s = feed-IsSame input tls in
      let tls₁ = (feed_input o input tls).0 in
      let (out, rc, s₁) = o.ssl_read size tls₁.ssl in
      let f = opened-engine (o.get_error rc s₁) out (record tls₁ { ssl = s₁ }) in
      let d = s.done in let t = s.trusts in let e = s.certified in ground arith

  pub shutdown-IsSame :
      (tls : Tls Session) (size : ℕ) → IsSame tls (shutdown o tls size).step.engine
  unfolding shutdown drain_output
  shutdown-IsSame tls size =
      let f =
        flushed-engine tls_ok (drain_output o size (record tls { ssl = o.ssl_shutdown tls.ssl })).0
          (drain_output o size (record tls { ssl = o.ssl_shutdown tls.ssl })).1 in
      ground arith
