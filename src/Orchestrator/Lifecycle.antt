-- ===== src/Orchestrator/Lifecycle.antt =====
-- src/smtp_orchestrator.c: an orchestrator is made and given up. What the allocations answer comes in
-- as arguments, and the resources that are taken and given back go out as a list, the oldest first.
use smtpc_cli.Capabilities.Summary.{decimal}
use smtpc_cli.Orchestrator.{put_slot, world_of, Slot, Stats, Shared, closed, effect}
use smtpc_cli.Orchestrator.Loop.{Orch}
use smtpc_cli.Connection.State.{Platform, TlsMode, mode_none}
use smtpc_cli.Connection.Machine.{connection_close, connection_init}
use smtpc_cli.Capabilities.{cap_init}
use smtpc_cli.Common.{
  ℕ, zero, suc, ◌-◌, Bool, true, false, not, ◌&&◌, Option, some, none, List, [], ◌∷◌, ◌++◌, Bytes,
  ◌==◌, if◌then◌else◌, codes, take,
}

-- `smtp_orch_format_actor`: the address as `inet_ntop` and `ntohs` render it.
pub record Address : Type 0 where
  pub ip : Bytes
  pub port : ℕ

-- `strcmp(a, b) == 0`
abbrev pub same_text : Bytes → Bytes → Bool
same_text [] [] = true
same_text (a ∷ as₁) (b ∷ bs) = a == b && same_text as₁ bs
same_text _ _ = false

abbrev pub have_distinct_host : Option Bytes → (ip : Bytes) → Bool
have_distinct_host none ip = false
have_distinct_host (some []) ip = false
have_distinct_host (some (c ∷ host)) ip = not (same_text (c ∷ host) ip)

abbrev pub host_text : Option Bytes → Bytes
host_text none = []
host_text (some host) = host

-- `snprintf(dst, dst_size, "%s:%u - %s:%u", ...)` or `"%s:%u - n/a"`.
unfoldable pub format_actor : (dst_size : ℕ) → Address → (target_host : Option Bytes) → Bytes
format_actor dst_size addr target_host =
    let here = addr.ip ++ (codes ":" ++ (decimal addr.port ++ codes " - ")) in
    take (dst_size - 1) (
      here
      ++ (if have_distinct_host target_host addr.ip
          then host_text target_host ++ (codes ":" ++ decimal addr.port)
          else codes "n/a"))

abbrev pub actor_size : ℕ
actor_size = 384

abbrev pub identity_size : ℕ
identity_size = 256

-- What `smtp_orchestrator_create` takes, in its order, and what `smtp_orchestrator_destroy` gives back.
pub data Resource : Type 0 where
  orchestrator_memory reactor tls_context slot_memory : Resource

pub data Holding : Type 0 where
  acquired released : Resource → Holding

-- Whether each of them is to be had.
pub record Supply : Type 0 where
  pub memory : Bool
  pub reactor : Bool
  pub tls : Bool
  pub slots : Bool

-- The arguments that stay in the orchestrator.
pub record Config : Type 0 where
  pub max_connections : ℕ
  pub target_addr : Address
  pub target_host : Option Bytes
  pub ehlo_identity : Bytes
  pub tls_mode : TlsMode
  pub trust : Bool
  pub connect_timeout_ms : ℕ

-- `tls_mode != SMTP_TLS_MODE_NONE`
abbrev pub uses_tls : TlsMode → Bool
uses_tls mode_none = false
uses_tls _ = true

abbrev pub zero_stats : Stats
zero_stats = record {
  total_started = 0;
  total_completed = 0;
  total_succeeded = 0;
  total_failed = 0;
}

module _ {E : Type 0} where
  -- A slot of zeros.
  abbrev pub zero_slot : Slot E
  zero_slot = record {
    sock = 0;
    conn = connection_init [] mode_none false;
    events = [];
    in_use = false;
  }

  unfoldable pub zero_slots : ℕ → List (Slot E)
  zero_slots zero = []
  zero_slots (suc n) = zero_slot ∷ zero_slots n

  -- The fields of the new orchestrator.
  unfoldable pub filled_in : Config → Orch E
  filled_in config = record {
    shared = record {
      max_connections = config.max_connections;
      live_count = 0;
      caps = cap_init;
      actor = format_actor actor_size config.target_addr config.target_host;
      ehlo_identity = take (identity_size - 1) config.ehlo_identity;
      tls_mode = config.tls_mode;
      trust = config.trust;
      connect_timeout_ms = config.connect_timeout_ms;
      next_connection_id = 1;
      stop_requested = false;
      stats = zero_stats;
      effects = [];
    };
    slots = zero_slots config.max_connections;
  }

  -- The allocation of the slots. On failure the TLS context is given back only if there is none, by a
  -- call that then does nothing.
  unfoldable pub create_slots : Supply → Config → List Holding → Option (Orch E) × List Holding
  create_slots supply config held =
      if supply.slots
      then (some (filled_in config), held ++ acquired slot_memory ∷ [])
      else (none, held ++ released reactor ∷ released orchestrator_memory ∷ [])

  unfoldable pub create_tls : Supply → Config → List Holding → Option (Orch E) × List Holding
  create_tls supply config held =
      if not (uses_tls config.tls_mode)
      then create_slots supply config held
      else if supply.tls
      then create_slots supply config (held ++ acquired tls_context ∷ [])
      else (none, held ++ released reactor ∷ released orchestrator_memory ∷ [])

  -- `smtp_orchestrator_create`; the asserted conditions are hypotheses where they matter.
  unfoldable pub create : Supply → Config → Option (Orch E) × List Holding
  create supply config =
      if not supply.memory
      then (none, [])
      else if not supply.reactor
      then (none, acquired orchestrator_memory ∷ released orchestrator_memory ∷ [])
      else create_tls supply config (acquired orchestrator_memory ∷ acquired reactor ∷ [])

module _ (p : Platform) where
  open p use {Engine}

  -- The loop of `smtp_orchestrator_destroy` over the slots.
  unfoldable pub close_slots : Shared → List (Slot Engine) → Shared × List (Slot Engine)
  close_slots sh [] = (sh, [])
  close_slots sh (slot ∷ slots) =
      let w = connection_close (world_of p sh slot) in
      let closed_here = close_slots (effect (closed slot.sock) sh) slots in
      let passed = close_slots sh slots in
      if slot.in_use
      then (closed_here.0, put_slot p w slot ∷ closed_here.1)
      else (passed.0, slot ∷ passed.1)

  -- `smtp_orchestrator_destroy`: what the loop leaves, and what is given back then. There is a TLS
  -- context if the mode uses TLS.
  unfoldable pub destroy : Orch Engine → (Shared × List (Slot Engine)) × List Holding
  destroy o = (
    close_slots o.shared o.slots,
    released slot_memory
        ∷ ((if uses_tls o.shared.tls_mode then released tls_context ∷ [] else [])
            ++ released reactor ∷ released orchestrator_memory ∷ []),
  )
