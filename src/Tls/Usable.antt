-- ===== src/Tls/Usable.antt =====
-- src/smtp_tls_openssl.c: when the assertions of `smtp_tls_encrypt` and `smtp_tls_decrypt` hold, and what
-- an accepted handshake says of the certificate.
use smtpc_cli.Tls.{Tls, Openssl, Rc}
use smtpc_cli.Tls.Engine.{feed_input, drain_output, advance, shaken, handshake, encrypt, decrypt}
use smtpc_cli.Tls.Lifecycle.{create, with_session, paired}
use smtpc_cli.Tls.Verify.{verify_chain-IsVerified}
use smtpc_cli.Tls.Reached.{
  Reached, is_ok, feed-IsSame, encrypt-IsSame, decrypt-IsSame, shutdown-IsSame,
}
use smtpc_cli.Common.{arith, ℕ, Bool, true, false, ◌||◌, Option, some, none, [], ◌∷◌, Bytes, ◌≡◌}

abbrev pub is_some {ℓ} : {A : Type ℓ} → Option A → Bool
is_some none = false
is_some (some _) = true

module _ (o : Openssl) where
  open o use {Session}

  shaken-done :
      (rc : Rc) (out : Bytes) (tls : Tls Session)
      → (shaken o rc out tls).step.engine.handshake_done
        ≡ (tls.handshake_done || is_ok (shaken o rc out tls).step.status)
  unfolding shaken
  shaken-done rc [] tls = ground arith
  shaken-done rc (b ∷ out) tls = ground arith

  pub handshake-done :
      (tls : Tls Session) (input : Bytes) (size : ℕ)
      → (handshake o tls input size).step.engine.handshake_done
        ≡ (tls.handshake_done || is_ok (handshake o tls input size).step.status)
  unfolding handshake advance drain_output
  handshake-done tls input size =
      let d = (feed-IsSame o input tls).done in
      let tls₁ = (feed_input o input tls).0 in
      let e = (verify_chain-IsVerified (o.presented tls₁.ssl) tls₁).done in
      let (rc, tls₂) = advance o tls₁ in
      let (out, tls₃) = drain_output o size tls₂ in let f = shaken-done rc out tls₃ in ground arith

  pub create-done :
      (hostname : Bytes) (trust : Bool) (tls : Tls Session)
      → (create o hostname trust).1 ≡ some tls
      → (tls.handshake_done ≡ false)
        × (tls.trust_without_validation ≡ trust)
        × (tls.cert_info.validated ≡ true)
  unfolding create with_session paired
  create-done hostname trust tls h = ground arith

  Reached-done :
      (trust : Bool) (tls : Tls Session) (b : Bool) → Reached o trust tls b → tls.handshake_done ≡ b
  Reached-done trust _ _ (Reached.created hostname tls h) = (create-done hostname trust tls h).0
  Reached-done trust _ _ (Reached.shook tls b input size r) =
      let e = handshake-done tls input size in let f = Reached-done trust tls b r in ground arith
  Reached-done trust _ _ (Reached.encrypted tls b plaintext size c h r) =
      let e = (encrypt-IsSame o tls plaintext size c h).done in
      let f = Reached-done trust tls b r in ground arith
  Reached-done trust _ _ (Reached.decrypted tls b input size c h r) =
      let e = (decrypt-IsSame o tls input size c h).done in
      let f = Reached-done trust tls b r in ground arith
  Reached-done trust _ _ (Reached.shut tls b size r) =
      let e = (shutdown-IsSame o tls size).done in
      let f = Reached-done trust tls b r in ground arith

-- On an engine reached by any calls the assertions of encryption and of decryption hold exactly if
-- a handshake has returned OK.
pub encrypt-is_some :
    (o : Openssl) (trust : Bool) (tls : Tls o.Session) (finished : Bool) (plaintext input : Bytes)
    (size : ℕ)
    → Reached o trust tls finished
    → (is_some (encrypt o tls plaintext size) ≡ finished)
      × (is_some (decrypt o tls input size) ≡ finished)
unfolding encrypt decrypt
encrypt-is_some o trust tls finished plaintext input size r =
    let e = Reached-done o trust tls finished r in ground arith
