-- ===== src/Tls.antt =====
-- src/smtp_tls_openssl.c: the TLS engine on OpenSSL. OpenSSL is a parameter: any functions on the sessions.
-- A session is an SSL object with both halves of its BIO pair.
pub mod Engine
pub mod Lifecycle
pub mod Verify
pub mod Reached
pub mod Usable
pub mod Strict
pub mod Bridge
pub mod Session
pub mod Holdings
use smtpc_cli.Connection.State.{TlsStatus, tls_ok, want_read, want_write, tls_error, TlsStep}
use smtpc_cli.Common.{
  ℕ, ◌-◌, Bool, true, false, not, ◌&&◌, ◌||◌, Option, some, none, List, [], ◌∷◌, Bytes,
  if◌then◌else◌, ltb, leb, ◌==◌, length, take, zero,
}

-- The members of `smtp_tls_err` but OK.
pub data TlsErr : Type 0 where
  err_invalid_arg err_alloc_failed err_ctx_create_failed err_trust_store_load_failed : TlsErr
  err_bio_pair_failed err_ssl_create_failed err_handshake_failed err_protocol_error : TlsErr

-- `smtp_tls_cert_info`, with the texts up to their terminators.
pub record Certificate : Type 0 where
  pub validated : Bool
  pub failure_reason : Bytes
  pub subject : Bytes
  pub issuer : Bytes
  pub not_after : ℕ

abbrev pub cert_field_len : ℕ
cert_field_len = 256

abbrev pub cert_reason_len : ℕ
cert_reason_len = 128

-- A certificate as X509 gives it: its names on one line, its expiry if the time can be read.
pub record X509 : Type 0 where
  pub subject : Bytes
  pub issuer : Bytes
  pub not_after : Option ℕ

-- What OpenSSL asks the verify callback about.
pub record Presented : Type 0 where
  pub preverify_ok : Bool
  pub depth : ℕ
  pub cert : Option X509
  pub error_string : Bytes

-- `smtp_tls`
pub record Tls (Session : Type 0) : Type 0 where
  pub ssl : Session
  pub handshake_done : Bool
  pub trust_without_validation : Bool
  pub hostname : Bytes
  pub cert_info : Certificate

-- `smtp_tls_copy_bounded`
unfoldable pub copy_bounded : Bytes → (dst_size : ℕ) → Bytes
copy_bounded src dst_size =
    take (if leb dst_size (length src) then dst_size - 1 else length src) src

-- The names and the expiry of the leaf; X509_NAME_oneline cuts to the buffer.
abbrev pub leaf_info : ℕ → Option X509 → Certificate → Certificate
leaf_info zero (some x) info = record info {
  subject = take (cert_field_len - 1) x.subject;
  issuer = take (cert_field_len - 1) x.issuer;
  not_after = elim x.not_after [ none ↦ info.not_after | some t ↦ t ];
}
leaf_info _ _ info = info

-- The record of the first failure.
abbrev pub failure_info : Presented → Certificate → Certificate
failure_info c info =
    if not c.preverify_ok && info.validated
    then record info {
      validated = false;
      failure_reason = copy_bounded c.error_string cert_reason_len;
    }
    else info

-- `smtp_tls_verify_callback`: the Boolean is what OpenSSL is told.
unfoldable pub verify_callback : {S : Type 0} → Presented → Tls S → Tls S × Bool
verify_callback c tls = (
  record tls { cert_info = failure_info c (leaf_info c.depth c.cert tls.cert_info) },
  tls.trust_without_validation || c.preverify_ok,
)

-- OpenSSL's verification of a chain: the callback certificate by certificate, up to the first that it
-- rejects. The Boolean says whether it has rejected none.
unfoldable pub verify_chain : {S : Type 0} → List Presented → Tls S → Tls S × Bool
verify_chain [] tls = (tls, true)
verify_chain (c ∷ chain) tls =
    let (tls', continues) = verify_callback c tls in
    let rest = verify_chain chain tls' in if continues then rest else (tls', false)

-- What a call of SSL returns: a number that is not negative, or a negative one.
pub data Rc : Type 0 where
  rc_of : ℕ → Rc
  rc_negative : Rc

-- What SSL_get_error says.
pub data SslError : Type 0 where
  ssl_want_read ssl_want_write ssl_zero_return ssl_other : SslError

-- What the calls that allocate give. `pair` is BIO_new_bio_pair and SSL_set_bio.
pub record Supply (Session : Type 0) : Type 0 where
  pub memory : Bool
  pub ssl : Option Session
  pub pair : Session → Option Session

-- The functions of OpenSSL. `presented` is the chain that the next step of the handshake verifies,
-- `do_handshake` is told the outcome; what is read is empty where the call returns 0 or less.
-- `configured` is the client's role, SNI, and the check of the host name if the Boolean asks for it.
pub record Openssl : Type 1 where
  pub Session : Type 0
  pub supply : Bytes → Bool → Supply Session
  pub configured : (hostname : Bytes) (check_host : Bool) → Session → Session
  pub bio_write : Bytes → Session → Rc × Session
  pub bio_read : ℕ → Session → Bytes × Session
  pub presented : Session → List Presented
  pub do_handshake : (verified : Bool) → Session → Rc × Session
  pub ssl_write : Bytes → Session → Rc × Session
  pub ssl_read : ℕ → Session → Bytes × Rc × Session
  pub ssl_shutdown : Session → Session
  pub get_error : Rc → Session → SslError

abbrev pub is_rc : ℕ → Rc → Bool
is_rc n (rc_of m) = m == n
is_rc n rc_negative = false

abbrev pub is_positive : Rc → Bool
is_positive (rc_of m) = ltb 0 m
is_positive rc_negative = false

abbrev pub is_wanting : SslError → Bool
is_wanting ssl_want_read = true
is_wanting ssl_want_write = true
is_wanting _ = false
