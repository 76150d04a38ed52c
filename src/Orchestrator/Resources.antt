-- ===== src/Orchestrator/Resources.antt =====
-- src/smtp_orchestrator.c: what a creation that fails gives back.
use smtpc_cli.Orchestrator.Lifecycle.{
  Resource, orchestrator_memory, reactor, tls_context, slot_memory, Holding, acquired, released,
  Supply, Config, uses_tls, create, create_tls, create_slots,
}
use smtpc_cli.Common.{
  arith, ℕ, ◌+◌, ◌≡◌, Bool, true, false, ◌&&◌, none, List, [], ◌∷◌, if◌then◌else◌,
}

abbrev pub same_resource : Resource → Resource → Bool
same_resource orchestrator_memory orchestrator_memory = true
same_resource reactor reactor = true
same_resource tls_context tls_context = true
same_resource slot_memory slot_memory = true
same_resource _ _ = false

-- How often a resource is taken, and given back.
abbrev pub times_acquired : Resource → List Holding → ℕ
times_acquired r [] = 0
times_acquired r (acquired s ∷ hs) = (if same_resource r s then 1 else 0) + times_acquired r hs
times_acquired r (released _ ∷ hs) = times_acquired r hs

abbrev pub times_released : Resource → List Holding → ℕ
times_released r [] = 0
times_released r (acquired _ ∷ hs) = times_released r hs
times_released r (released s ∷ hs) = (if same_resource r s then 1 else 0) + times_released r hs

abbrev pub is_tls_context : Resource → Bool
is_tls_context tls_context = true
is_tls_context _ = false

-- Where smtp_orchestrator_create fails it has given back all that it has taken, but for one case:
-- if the mode uses TLS and only the allocation of the slots fails, the TLS context stays taken.
pub create-leak :
    (E : Type 0) (supply : Supply) (config : Config) (r : Resource)
    → (create {E = E} supply config).0 ≡ none
    → times_acquired r (create {E = E} supply config).1
      ≡ times_released r (create {E = E} supply config).1
        + (if is_tls_context r
              && supply.memory
              && supply.reactor
              && supply.tls
              && uses_tls config.tls_mode
            then 1
            else 0)
unfolding create create_tls create_slots
create-leak E supply config orchestrator_memory h = ground arith
create-leak E supply config reactor h = ground arith
create-leak E supply config tls_context h = ground arith
create-leak E supply config slot_memory h = ground arith
