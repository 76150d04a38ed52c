-- ===== src/Tls/Strict.antt =====
-- src/smtp_tls_openssl.c: without the trust flag no handshake ends well on a certificate that has failed.
use smtpc_cli.Tls.{Tls, Openssl, Rc, is_rc, verify_chain}
use smtpc_cli.Tls.Engine.{
  Call, feed_input, drain_output, advance, shaken, handshake, write_plaintext, encrypt, decrypt,
  shutdown,
}
use smtpc_cli.Tls.Verify.{all_ok, verify_chain-IsVerified}
use smtpc_cli.Tls.Reached.{
  Reached, is_ok, Rejects, IsSame, feed-IsSame, encrypt-IsSame, decrypt-IsSame, shutdown-IsSame,
  flushed-engine, opened-engine,
}
use smtpc_cli.Tls.Usable.{create-done}
use smtpc_cli.Connection.State.{tls_ok, want_read}
use smtpc_cli.Common.{
  arith, ℕ, Bool, true, false, ◌||◌, not, some, [], ◌∷◌, Bytes, ◌≡◌, ◌⊎◌, refl, sym, Bool-cases,
  inl, inr, subst, ap,
}

module _ (o : Openssl) (spoiled : o.Session → Bool) (rejects : Rejects o spoiled) where
  open o use {Session}
  open rejects use {
    rejected, no_success, by_handshake, by_bio_write, by_bio_read, by_ssl_write, by_ssl_read,
    by_shutdown,
  }

  feed-spoiled :
      (input : Bytes) (tls : Tls Session) → spoiled (feed_input o input tls).0.ssl ≡ spoiled tls.ssl
  unfolding feed_input
  feed-spoiled [] tls = refl
  feed-spoiled (b ∷ bytes) tls = by_bio_write (b ∷ bytes) tls.ssl

  write-spoiled :
      (input : Bytes) (tls : Tls Session)
      → spoiled (write_plaintext o input tls).0.ssl ≡ spoiled tls.ssl
  unfolding write_plaintext
  write-spoiled [] tls = refl
  write-spoiled (b ∷ bytes) tls = by_ssl_write (b ∷ bytes) tls.ssl

  encrypt-spoiled :
      (tls : Tls Session) (plaintext : Bytes) (size : ℕ) (c : Call Session)
      → encrypt o tls plaintext size ≡ some c
      → spoiled c.step.engine.ssl ≡ spoiled tls.ssl
  unfolding encrypt drain_output
  encrypt-spoiled tls plaintext size c h =
      let tls₁ = (write_plaintext o plaintext tls).0 in
      let s = write-spoiled plaintext tls in
      let t = by_bio_read size tls₁.ssl in
      let f =
        flushed-engine o want_read (drain_output o size tls₁).0 (drain_output o size tls₁).1 in
      ground arith

  decrypt-spoiled :
      (tls : Tls Session) (input : Bytes) (size : ℕ) (c : Call Session)
      → decrypt o tls input size ≡ some c
      → spoiled c.step.engine.ssl ≡ spoiled tls.ssl
  unfolding decrypt
  decrypt-spoiled tls input size c h =
      let s = feed-spoiled input tls in
      let tls₁ = (feed_input o input tls).0 in
      let (out, rc, s₁) = o.ssl_read size tls₁.ssl in
      let t = by_ssl_read size tls₁.ssl in
      let f = opened-engine o (o.get_error rc s₁) out (record tls₁ { ssl = s₁ }) in ground arith

  shutdown-spoiled :
      (tls : Tls Session) (size : ℕ)
      → spoiled (shutdown o tls size).step.engine.ssl ≡ spoiled tls.ssl
  unfolding shutdown drain_output
  shutdown-spoiled tls size =
      let tls₁ = record tls { ssl = o.ssl_shutdown tls.ssl } in
      let s = by_shutdown tls.ssl in
      let t = by_bio_read size (o.ssl_shutdown tls.ssl) in
      let f = flushed-engine o tls_ok (drain_output o size tls₁).0 (drain_output o size tls₁).1 in
      ground arith

  -- As equations, for the tactics.
  spoiled_if :
      (v : Bool) (s : Session)
      → ((not v || spoiled s) ≡ false) ⊎ (spoiled (o.do_handshake v s).1 ≡ true)
  spoiled_if false s = inr (rejected s)
  spoiled_if true s = elim (Bool-cases (spoiled s)) [
    | inl t ↦ inr (by_handshake true s t)
    | inr f ↦ inl f
  ]

  fails_if :
      (v : Bool) (s : Session)
      → (spoiled (o.do_handshake v s).1 ≡ false) ⊎ (is_rc 1 (o.do_handshake v s).0 ≡ false)
  fails_if v s = elim (Bool-cases (spoiled (o.do_handshake v s).1)) [
    | inl t ↦ inr (no_success v s t)
    | inr f ↦ inl f
  ]

  -- Trusted, or validated so far, or unable to succeed.
  record IsSound (trust : Bool) (tls : Tls Session) : Type 0 where
    pub flag : tls.trust_without_validation ≡ trust
    pub sound : (trust || tls.cert_info.validated || spoiled tls.ssl) ≡ true

  -- A step of the handshake: a sound engine, and on success a certificate that is trusted or valid.
  advance-IsSound :
      (trust : Bool) (tls : Tls Session)
      → IsSound trust tls
      → IsSound trust (advance o tls).1
        × ((is_rc 1 (advance o tls).0 ≡ false)
            ⊎ ((trust || (advance o tls).1.cert_info.validated) ≡ true))
  unfolding advance
  advance-IsSound trust tls i =
      let chain = o.presented tls.ssl in
      let v = verify_chain-IsVerified chain tls in
      let w = (verify_chain chain tls).1 in
      let a = v.accepted in
      let b = v.validated in
      let t = v.trust in
      let f = i.flag in
      let g = i.sound in
      let d = v.session in
      let after = spoiled (o.do_handshake w tls.ssl).1 in
      let kept = spoiled_if w tls.ssl in
      let n = fails_if w tls.ssl in
      elim (Bool-cases (all_ok chain)) [
        | inl k ↦ (ground arith, ground arith)
        | inr k ↦ (ground arith, ground arith)
      ]

  shaken-IsSound :
      (trust : Bool) (rc : Rc) (out : Bytes) (tls : Tls Session)
      → IsSound trust tls
      → (is_rc 1 rc ≡ false) ⊎ ((trust || tls.cert_info.validated) ≡ true)
      → IsSound trust (shaken o rc out tls).step.engine
        × ((is_ok (shaken o rc out tls).step.status ≡ false)
            ⊎ ((trust || (shaken o rc out tls).step.engine.cert_info.validated) ≡ true))
  unfolding shaken
  shaken-IsSound trust rc [] tls i s =
      let f = i.flag in let g = i.sound in (ground arith, ground arith)
  shaken-IsSound trust rc (b ∷ out) tls i s = (i, inl refl)

  drain-IsSound :
      (trust : Bool) (size : ℕ) (tls : Tls Session)
      → IsSound trust tls
      → IsSound trust (drain_output o size tls).1
        × ((drain_output o size tls).1.cert_info.validated ≡ tls.cert_info.validated)
  unfolding drain_output
  drain-IsSound trust size tls i =
      let e = by_bio_read size tls.ssl in let f = i.flag in let g = i.sound in (ground arith, refl)

  handshake-IsSound :
      (trust : Bool) (tls : Tls Session) (input : Bytes) (size : ℕ)
      → IsSound trust tls
      → IsSound trust (handshake o tls input size).step.engine
        × ((is_ok (handshake o tls input size).step.status ≡ false)
            ⊎ ((trust || (handshake o tls input size).step.engine.cert_info.validated) ≡ true))
  unfolding handshake
  handshake-IsSound trust tls input size i =
      let tls₁ = (feed_input o input tls).0 in
      let j : IsSound trust tls₁ =
        (let s = feed-IsSame o input tls in
          let t = s.trusts in
          let c = s.certified in
          let e = feed-spoiled input tls in let f = i.flag in let g = i.sound in ground arith) in
      let (rc, tls₂) = advance o tls₁ in
      let (k, ok) = advance-IsSound trust tls₁ j in
      let (out, tls₃) = drain_output o size tls₂ in
      let l : IsSound trust tls₃ × (tls₃.cert_info.validated ≡ tls₂.cert_info.validated) =
        drain-IsSound trust size tls₂ k in
      let s =
        shaken-IsSound trust rc out tls₃ l.0
          (subst (λ b. (is_rc 1 rc ≡ false) ⊎ ((trust || b) ≡ true)) (sym l.1) ok) in
      elim (Bool-cases (feed_input o input tls).1) [ inl t ↦ rw t s | inr f ↦ rw f (j, inl refl) ]

  -- A call that leaves flags and certificate keeps soundness.
  kept-IsSound :
      (trust : Bool) (tls tls' : Tls Session)
      → IsSame o tls tls'
      → spoiled tls'.ssl ≡ spoiled tls.ssl
      → IsSound trust tls
      → IsSound trust tls'
  kept-IsSound trust tls tls' s e i =
      let t = s.trusts in let c = s.certified in let f = i.flag in let g = i.sound in ground arith

  Reached-IsSound :
      (trust : Bool) (tls : Tls Session) (b : Bool) → Reached o trust tls b → IsSound trust tls
  Reached-IsSound trust _ _ (Reached.created hostname tls h) =
      let (d, t, v) = create-done o hostname trust tls h in
      record { flag = t; sound = ground arith }
  Reached-IsSound trust _ _ (Reached.shook tls b input size r) =
      (handshake-IsSound trust tls input size (Reached-IsSound trust tls b r)).0
  Reached-IsSound trust _ _ (Reached.encrypted tls b plaintext size c h r) =
      kept-IsSound trust tls c.step.engine (encrypt-IsSame o tls plaintext size c h)
        (encrypt-spoiled tls plaintext size c h) (Reached-IsSound trust tls b r)
  Reached-IsSound trust _ _ (Reached.decrypted tls b input size c h r) =
      kept-IsSound trust tls c.step.engine (decrypt-IsSame o tls input size c h)
        (decrypt-spoiled tls input size c h) (Reached-IsSound trust tls b r)
  Reached-IsSound trust _ _ (Reached.shut tls b size r) =
      kept-IsSound trust tls _ (shutdown-IsSame o tls size) (shutdown-spoiled tls size)
        (Reached-IsSound trust tls b r)

  -- Without the trust flag, and where OpenSSL's handshake fails for good once the callback has
  -- rejected a certificate, a handshake that returns OK on an engine reached by any calls leaves
  -- the certificate marked as validated.
  pub handshake-validated :
      (tls : Tls Session) (finished : Bool) (input : Bytes) (size : ℕ)
      → Reached o false tls finished
      → (handshake o tls input size).step.status ≡ tls_ok
      → (handshake o tls input size).step.engine.cert_info.validated ≡ true
  handshake-validated tls finished input size r h =
      let (i, s) = handshake-IsSound false tls input size (Reached-IsSound false tls finished r) in
      let k = ap is_ok h in ground arith
