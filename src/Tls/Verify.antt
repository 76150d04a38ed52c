-- ===== src/Tls/Verify.antt =====
-- src/smtp_tls_openssl.c: what the verify callback makes of a chain.
use smtpc_cli.Tls.{
  verify_chain, Tls, Certificate, X509, Presented, leaf_info, verify_callback, copy_bounded,
  cert_reason_len,
}
use smtpc_cli.Common.{
  inr, inl, Bool-cases, false, arith, ℕ, zero, suc, Bool, true, ◌&&◌, ◌||◌, Option, some, none,
  List, [], ◌∷◌, Bytes, if◌then◌else◌, ◌≡◌, refl, subst,
}

abbrev pub all_ok : List Presented → Bool
all_ok [] = true
all_ok (c ∷ chain) = c.preverify_ok && all_ok chain

-- Why the first certificate that fails does so, up to 127 bytes; `kept` if none does.
abbrev pub first_reason : List Presented → (kept : Bytes) → Bytes
first_reason [] kept = kept
first_reason (c ∷ chain) kept =
    if c.preverify_ok then first_reason chain kept else copy_bounded c.error_string cert_reason_len

-- An engine behind the verification of a chain, and the verdict.
pub record IsVerified {S : Type 0} (tls : Tls S) (chain : List Presented) (tls' : Tls S)
    (verdict : Bool) : Type 0 where
  pub accepted : verdict ≡ (tls.trust_without_validation || all_ok chain)
  pub validated : tls'.cert_info.validated ≡ (tls.cert_info.validated && all_ok chain)
  pub reason : tls'.cert_info.failure_reason ≡ (
      if tls.cert_info.validated
      then first_reason chain tls.cert_info.failure_reason
      else tls.cert_info.failure_reason)
  pub trust : tls'.trust_without_validation ≡ tls.trust_without_validation
  pub done : tls'.handshake_done ≡ tls.handshake_done
  pub session : tls'.ssl ≡ tls.ssl

leaf_info-validated :
    (depth : ℕ) (x : Option X509) (info : Certificate)
    → ((leaf_info depth x info).validated ≡ info.validated)
      × ((leaf_info depth x info).failure_reason ≡ info.failure_reason)
leaf_info-validated zero none info = (refl, refl)
leaf_info-validated zero (some x) info = (refl, refl)
leaf_info-validated (suc depth) x info = (refl, refl)

-- The verification in a chain behind a certificate that was told to go on.
continued :
    {S : Type 0} (c : Presented) (chain : List Presented) (tls tls' tls'' : Tls S) (verdict : Bool)
    → IsVerified tls (c ∷ []) tls' true
    → IsVerified tls' chain tls'' verdict
    → IsVerified tls (c ∷ chain) tls'' verdict
continued c chain tls tls' tls'' verdict v w =
    let a = v.accepted in
    let b = v.validated in
    let r = v.reason in
    let t = v.trust in
    let d = v.done in
    let s = v.session in
    let a' = w.accepted in
    let b' = w.validated in
    let r' = w.reason in let t' = w.trust in let d' = w.done in let s' = w.session in ground arith

callback-IsVerified :
    {S : Type 0} (c : Presented) (tls : Tls S)
    → IsVerified tls (c ∷ []) (verify_callback c tls).0 (verify_callback c tls).1
unfolding verify_callback
callback-IsVerified c tls =
    let (e, f) = leaf_info-validated c.depth c.cert tls.cert_info in ground arith

-- A certificate that ends the verification.
stopped :
    {S : Type 0} (c : Presented) (chain : List Presented) (tls tls' : Tls S)
    → IsVerified tls (c ∷ []) tls' false
    → IsVerified tls (c ∷ chain) tls' false
stopped c chain tls tls' v =
    let a = v.accepted in
    let b = v.validated in
    let r = v.reason in let t = v.trust in let d = v.done in let s = v.session in ground arith

-- Over a chain of certificates the verify callback accepts exactly if the trust flag is set or all
-- of them pass; the engine stays marked as validated exactly if it was and all pass; the reason is
-- that of the first that fails, up to 127 bytes, if none has failed before; flags and session
-- stay.
pub verify_chain-IsVerified :
    {S : Type 0} (chain : List Presented) (tls : Tls S)
    → IsVerified tls chain (verify_chain chain tls).0 (verify_chain chain tls).1
unfolding verify_chain
verify_chain-IsVerified [] tls = ground arith
verify_chain-IsVerified (c ∷ chain) tls =
    let v = callback-IsVerified c tls in
    elim (Bool-cases (verify_callback c tls).1) [
      | inl t ↦ rw t (
          continued c chain tls (verify_callback c tls).0 _ _
            (subst (IsVerified tls (c ∷ []) (verify_callback c tls).0) t v)
            (verify_chain-IsVerified chain (verify_callback c tls).0))
      | inr f ↦ rw f (
          stopped c chain tls (verify_callback c tls).0
            (subst (IsVerified tls (c ∷ []) (verify_callback c tls).0) f v))
    ]
