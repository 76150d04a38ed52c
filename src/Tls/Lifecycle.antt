-- ===== src/Tls/Lifecycle.antt =====
-- src/smtp_tls_openssl.c: the thread's context and the engines, with the resources that they take.
use smtpc_cli.Common.Ledger.{Holding, acquired, released}
use smtpc_cli.Tls.{
  TlsErr, err_invalid_arg, err_alloc_failed, err_ctx_create_failed, err_trust_store_load_failed,
  err_bio_pair_failed, err_ssl_create_failed, Tls, Supply, Openssl,
}
use smtpc_cli.Common.{
  ℕ, Bool, true, false, not, Option, some, none, List, [], ◌∷◌, Bytes, if◌then◌else◌, leb, length,
}

pub data Resource : Type 0 where
  ctx_memory ssl_ctx tls_memory ssl_object network_bio : Resource

-- `smtp_tls_ctx_create`, for memory, an SSL_CTX and a trust store that are to be had: the last error
-- (`none` for OK), whether there is a context, what was taken and given back.
unfoldable pub ctx_create :
    (memory ssl_ctx_ok trust_store_ok : Bool) → Option TlsErr × Bool × List (Holding Resource)
ctx_create memory ssl_ctx_ok trust_store_ok =
    if not memory
    then (some err_alloc_failed, false, [])
    else if not ssl_ctx_ok
    then (some err_ctx_create_failed, false, acquired ctx_memory ∷ released ctx_memory ∷ [])
    else if not trust_store_ok
    then (
      some err_trust_store_load_failed,
      false,
      acquired ctx_memory ∷ acquired ssl_ctx ∷ released ssl_ctx ∷ released ctx_memory ∷ [],
    )
    else (none, true, acquired ctx_memory ∷ acquired ssl_ctx ∷ [])

-- `smtp_tls_ctx_destroy`; false is a null pointer.
unfoldable pub ctx_destroy : Bool → List (Holding Resource)
ctx_destroy false = []
ctx_destroy true = released ssl_ctx ∷ released ctx_memory ∷ []

abbrev pub hostname_size : ℕ
hostname_size = 256

-- A zeroed structure, with the fields that `smtp_tls_create` sets before it has a session.
abbrev pub filled_in : {S : Type 0} → S → (hostname : Bytes) → (trust : Bool) → Tls S
filled_in s hostname trust = record {
  ssl = s;
  handshake_done = false;
  trust_without_validation = trust;
  hostname = hostname;
  cert_info = record {
    validated = true;
    failure_reason = [];
    subject = [];
    issuer = [];
    not_after = 0;
  };
}

module _ (o : Openssl) where
  open o use {Session, supply, configured}

  -- Behind SSL_new.
  unfoldable pub paired :
      Option Session
      → (hostname : Bytes) → Bool
      → Option TlsErr × Option (Tls Session) × List (Holding Resource)
  paired none hostname trust = (
    some err_bio_pair_failed,
    none,
    acquired tls_memory ∷ acquired ssl_object ∷ released ssl_object ∷ released tls_memory ∷ [],
  )
  paired (some s) hostname trust = (
    none,
    some (filled_in (configured hostname (not trust) s) hostname trust),
    acquired tls_memory ∷ acquired ssl_object ∷ acquired network_bio ∷ [],
  )

  unfoldable pub with_session :
      Supply Session
      → (hostname : Bytes) → Bool
      → Option TlsErr × Option (Tls Session) × List (Holding Resource)
  with_session supplied hostname trust = elim supplied.ssl [
    | none ↦ (some err_ssl_create_failed, none, acquired tls_memory ∷ released tls_memory ∷ [])
    | some s ↦ paired (supplied.pair s) hostname trust
  ]

  -- `smtp_tls_create`: the last error, the engine, what was taken and given back.
  unfoldable pub create :
      (hostname : Bytes) (trust : Bool)
      → Option TlsErr × Option (Tls Session) × List (Holding Resource)
  create hostname trust =
      if not (supply hostname trust).memory
      then (some err_alloc_failed, none, [])
      else if leb hostname_size (length hostname)
      then (some err_invalid_arg, none, acquired tls_memory ∷ released tls_memory ∷ [])
      else with_session (supply hostname trust) hostname trust

  -- `smtp_tls_destroy`; a null pointer is `none`.
  unfoldable pub destroy : Option (Tls Session) → List (Holding Resource)
  destroy none = []
  destroy (some _) = released network_bio ∷ released ssl_object ∷ released tls_memory ∷ []
