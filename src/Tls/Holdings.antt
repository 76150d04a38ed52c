-- ===== src/Tls/Holdings.antt =====
-- src/smtp_tls_openssl.c: what contexts and engines take is given back.
use smtpc_cli.Tls.{Openssl}
use smtpc_cli.Tls.Lifecycle.{
  Resource, ctx_memory, ssl_ctx, tls_memory, ssl_object, network_bio, ctx_create, ctx_destroy,
  create, with_session, paired, destroy,
}
use smtpc_cli.Common.Ledger.{times_acquired, times_released}
use smtpc_cli.Common.{arith, Bool, true, false, ◌++◌, ◌≡◌, Bytes}

abbrev pub same_resource : Resource → Resource → Bool
same_resource ctx_memory ctx_memory = true
same_resource ssl_ctx ssl_ctx = true
same_resource tls_memory tls_memory = true
same_resource ssl_object ssl_object = true
same_resource network_bio network_bio = true
same_resource _ _ = false

ctx_balanced :
    (memory ssl_ctx_ok store : Bool) (r : Resource)
    → times_acquired same_resource r (ctx_create memory ssl_ctx_ok store).2
      ≡ times_released same_resource r (
          (ctx_create memory ssl_ctx_ok store).2
          ++ ctx_destroy (ctx_create memory ssl_ctx_ok store).1)
unfolding ctx_create ctx_destroy
ctx_balanced memory ssl_ctx_ok store ctx_memory = ground arith
ctx_balanced memory ssl_ctx_ok store ssl_ctx = ground arith
ctx_balanced memory ssl_ctx_ok store tls_memory = ground arith
ctx_balanced memory ssl_ctx_ok store ssl_object = ground arith
ctx_balanced memory ssl_ctx_ok store network_bio = ground arith

engine_balanced :
    (o : Openssl) (hostname : Bytes) (trust : Bool) (r : Resource)
    → times_acquired same_resource r (create o hostname trust).2
      ≡ times_released same_resource r
          ((create o hostname trust).2 ++ destroy o (create o hostname trust).1)
unfolding create with_session paired destroy
engine_balanced o hostname trust ctx_memory = ground arith
engine_balanced o hostname trust ssl_ctx = ground arith
engine_balanced o hostname trust tls_memory = ground arith
engine_balanced o hostname trust ssl_object = ground arith
engine_balanced o hostname trust network_bio = ground arith

-- x
pub destroy-create_tls :
    (o : Openssl) (memory ssl_ctx_ok store : Bool) (hostname : Bytes) (trust : Bool) (r : Resource)
    → (times_acquired same_resource r (ctx_create memory ssl_ctx_ok store).2
        ≡ times_released same_resource r (
            (ctx_create memory ssl_ctx_ok store).2
            ++ ctx_destroy (ctx_create memory ssl_ctx_ok store).1))
      × (times_acquired same_resource r (create o hostname trust).2
          ≡ times_released same_resource r
              ((create o hostname trust).2 ++ destroy o (create o hostname trust).1))
destroy-create_tls o memory ssl_ctx_ok store hostname trust r =
    (ctx_balanced memory ssl_ctx_ok store r, engine_balanced o hostname trust r)
