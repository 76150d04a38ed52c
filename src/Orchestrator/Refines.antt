-- ===== src/Orchestrator/Refines.antt =====
-- src/smtp_orchestrator.c: an iteration of the loop is a sequence of steps of the abstract pool.
use smtpc_cli.Orchestrator.{Slot, Shared, Attempt, Completion, start_slot}
use smtpc_cli.Orchestrator.Loop.{Orch, all_started, behind, continued, fill_slots}
use smtpc_cli.Orchestrator.Pool.{Allows, Pool, PoolSteps, more, rest, PoolSteps-trans}
use smtpc_cli.Orchestrator.Slots.{pool_of, as_number, start_slot-Starts}
use smtpc_cli.Connection.State.{Platform}
use smtpc_cli.Common.{
  arith, ℕ, zero, suc, ◌+◌, ◌≡◌, ◌≢◌, inl, inr, refl, Bool, true, false, Option, some, none, List,
  [], ◌∷◌, Bool-cases, subst, All, ap, sym, ◌∙◌,
}

-- The slots in use.
unfoldable pub used : {E : Type 0} → List (Slot E) → ℕ
used [] = 0
used (slot ∷ slots) = as_number slot.in_use + used slots

-- The pool that an orchestrator stands for.
unfoldable pub pool : {E : Type 0} → Orch E → Pool
unfolding pool_of used
pool o = pool_of o.shared (used o.slots)

abbrev pub InUse : {E : Type 0} → ℕ → List (Slot E) → Type 0
InUse i [] = ⊥
InUse zero (slot ∷ slots) = slot.in_use ≡ true
InUse (suc i) (slot ∷ slots) = InUse i slots

-- What a poll gives: completions of slots in use, one for each of them at most.
abbrev pub IsServed : {E : Type 0} → List Completion → List (Slot E) → Type 0
IsServed [] slots = Unit
IsServed (c ∷ cs) slots = InUse c.slot slots × All (λ d. d.slot ≢ c.slot) cs × IsServed cs slots

module _ (target : ℕ) where
  -- From a loop's start to its end, whatever else is in flight.
  abbrev pub Refines : {E : Type 0} → Shared → List (Slot E) → Shared → List (Slot E) → Type 0
  Refines sh slots sh' slots' =
      (sh'.max_connections ≡ sh.max_connections)
      × ((k : ℕ)
          → PoolSteps sh.max_connections target (pool_of sh (k + used slots))
              (pool_of sh' (k + used slots')))

  pub reindexed :
      (c : ℕ) (sh sh' : Shared) (a b a' b' : ℕ)
      → a ≡ a'
      → b ≡ b'
      → PoolSteps c target (pool_of sh a) (pool_of sh' b)
      → PoolSteps c target (pool_of sh a') (pool_of sh' b')
  reindexed c sh sh' a b a' b' e f s =
      subst (λ n. PoolSteps c target (pool_of sh n) (pool_of sh' b')) e
        (subst (λ n. PoolSteps c target (pool_of sh a) (pool_of sh' n)) f s)

  module _ {E : Type 0} where
    pub refl-Refines : (sh : Shared) (slots : List (Slot E)) → Refines sh slots sh slots
    refl-Refines sh slots = (refl, λ k. rest _)

    pub trans-Refines :
        (sh sh₁ sh₂ : Shared) (slots slots₁ slots₂ : List (Slot E))
        → Refines sh slots sh₁ slots₁
        → Refines sh₁ slots₁ sh₂ slots₂
        → Refines sh slots sh₂ slots₂
    trans-Refines sh sh₁ sh₂ slots slots₁ slots₂ (m, s) (n, t) = (
      n ∙ m,
      λ k. PoolSteps-trans (s k) (
          subst
            (λ c.
              PoolSteps c target (pool_of sh₁ (k + used slots₁)) (pool_of sh₂ (k + used slots₂)))
            m (t k)),
    )

    -- The slots behind, with one more in front of them.
    pub cons-Refines :
        (sh sh' : Shared) (slot : Slot E) (slots slots' : List (Slot E))
        → Refines sh slots sh' slots'
        → Refines sh (slot ∷ slots) sh' (slot ∷ slots')
    unfolding used
    cons-Refines sh sh' slot slots slots' (m, s) = (
      m,
      λ k.
          reindexed sh.max_connections sh sh' _ _ _ _ (omega arith) (omega arith)
            (s (k + as_number slot.in_use)),
    )

    -- The first slot changes.
    pub head-Refines :
        (sh sh' : Shared) (slot slot' : Slot E) (slots : List (Slot E))
        → sh'.max_connections ≡ sh.max_connections
        → ((k : ℕ)
            → PoolSteps sh.max_connections target
                (pool_of sh (k + as_number slot.in_use))
                (pool_of sh' (k + as_number slot'.in_use)))
        → Refines sh (slot ∷ slots) sh' (slot' ∷ slots)
    unfolding used
    head-Refines sh sh' slot slot' slots m s = (
      m,
      λ k.
          reindexed sh.max_connections sh sh' _ _ _ _ (omega arith) (omega arith)
            (s (k + used slots)),
    )

    zero_more : (k : ℕ) (slot : Slot E) → slot.in_use ≡ false → k ≡ k + as_number slot.in_use
    zero_more k slot f = rw f (omega arith)

    pub same-Refines :
        (sh sh' : Shared) (slots slots' : List (Slot E))
        → sh ≡ sh'
        → slots ≡ slots'
        → Refines sh slots sh' slots'
    same-Refines sh sh' slots slots' e f =
        subst (λ x. Refines sh slots x slots') e
          (subst (λ x. Refines sh slots sh x) f (refl-Refines sh slots))

    pub behind_lem :
        (slot : Slot E) (r : Option (Shared × List (Slot E))) (sh' : Shared)
        (slots' : List (Slot E))
        → behind slot r ≡ some (sh', slots')
        → (passed : List (Slot E)) × (r ≡ some (sh', passed)) × (slot ∷ passed ≡ slots')
    behind_lem slot none sh' slots' h = cc
    behind_lem slot (some (sh₁, passed)) sh' slots' h = (passed, ground arith, ground arith)

    pub behind-Refines :
        (slot slot₁ : Slot E) (sh sh₁ sh' : Shared) (slots slots' : List (Slot E))
        (r : Option (Shared × List (Slot E)))
        → Refines sh (slot ∷ slots) sh₁ (slot₁ ∷ slots)
        → ((passed : List (Slot E)) → r ≡ some (sh', passed) → Refines sh₁ slots sh' passed)
        → behind slot₁ r ≡ some (sh', slots')
        → Refines sh (slot ∷ slots) sh' slots'
    behind-Refines slot slot₁ sh sh₁ sh' slots slots' r s t h =
        let (passed, e, f) = behind_lem slot₁ r sh' slots' h in
        subst (λ xs. Refines sh (slot ∷ slots) sh' xs) f
          (trans-Refines sh sh₁ sh' (slot ∷ slots) (slot₁ ∷ slots) (slot₁ ∷ passed) s
            (cons-Refines sh₁ sh' slot₁ slots passed (t passed e)))

  module _ (p : Platform) where
    open p use {Engine}

    allowed :
        (sh : Shared) (k : ℕ) → all_started target sh ≡ false → Allows target (pool_of sh k).started
    unfolding pool_of
    allowed sh k h = ground arith

    start-Refines :
        (attempts : ℕ → Attempt) (i now_ms : ℕ) (sh sh₁ : Shared) (slot slot₁ : Slot Engine)
        (slots : List (Slot Engine)) (b : Bool)
        → slot.in_use ≡ false
        → all_started target sh ≡ false
        → start_slot p (attempts i) now_ms sh slot ≡ some (sh₁, slot₁, b)
        → Refines sh (slot ∷ slots) sh₁ (slot₁ ∷ slots)
    start-Refines attempts i now_ms sh sh₁ slot slot₁ slots b f n e =
        let (u, m, s) = start_slot-Starts p target (attempts i) now_ms sh sh₁ slot slot₁ b f e in
        head-Refines sh sh₁ slot slot₁ slots m (λ k.
          reindexed sh.max_connections sh sh₁ _ _ _ _ (zero_more k slot f)
            (ap (λ c. k + as_number c) (sym u)) (more (s k (allowed sh k n)) (rest _)))

    -- Behind a start in the first slot.
    filled_next :
        (attempts : ℕ → Attempt) (i now_ms : ℕ) (sh sh' : Shared) (slot : Slot Engine)
        (slots slots' : List (Slot Engine))
        → slot.in_use ≡ false
        → all_started target sh ≡ false
        → ((sh₁ : Shared) (passed : List (Slot Engine))
            → fill_slots p attempts (i + 1) now_ms target sh₁ slots ≡ some (sh', passed)
            → Refines sh₁ slots sh' passed)
        → (r : Option (Shared × Slot Engine × Bool)) → start_slot p (attempts i) now_ms sh slot ≡ r
        → continued r slots (λ sh₁. fill_slots p attempts (i + 1) now_ms target sh₁ slots)
          ≡ some (sh', slots')
        → Refines sh (slot ∷ slots) sh' slots'
    filled_next attempts i now_ms sh sh' slot slots slots' f n t none e h = cc
    filled_next attempts i now_ms sh sh' slot slots slots' f n t (some (sh₁, slot₁, true)) e h =
        behind-Refines slot slot₁ sh sh₁ sh' slots slots'
          (fill_slots p attempts (i + 1) now_ms target sh₁ slots)
          (start-Refines attempts i now_ms sh sh₁ slot slot₁ slots true f n e) (t sh₁) h
    filled_next attempts i now_ms sh sh' slot slots slots' f n t (some (sh₁, slot₁, false)) e h =
        let a : sh₁ ≡ sh' = ground arith in
        let b : slot₁ ∷ slots ≡ slots' = ground arith in
        subst (λ x. Refines sh (slot ∷ slots) x slots') a
          (subst (λ x. Refines sh (slot ∷ slots) sh₁ x) b
            (start-Refines attempts i now_ms sh sh₁ slot slot₁ slots false f n e))

    pub fill_slots-Refines :
        (attempts : ℕ → Attempt) (i now_ms : ℕ) (sh sh' : Shared)
        (slots slots' : List (Slot Engine))
        → fill_slots p attempts i now_ms target sh slots ≡ some (sh', slots')
        → Refines sh slots sh' slots'
    unfolding fill_slots
    fill_slots-Refines attempts i now_ms sh sh' [] slots' h =
        same-Refines sh sh' [] slots' (ground arith) (ground arith)
    fill_slots-Refines attempts i now_ms sh sh' (slot ∷ slots) slots' h =
        elim (Bool-cases slot.in_use) [
          | inl u ↦
              behind-Refines slot slot sh sh sh' slots slots'
                (fill_slots p attempts (i + 1) now_ms target sh slots)
                (refl-Refines sh (slot ∷ slots))
                (λ passed e. fill_slots-Refines attempts (i + 1) now_ms sh sh' slots passed e)
                (ground arith)
          | inr f ↦ elim (Bool-cases (all_started target sh)) [
            | inl d ↦ same-Refines sh sh' (slot ∷ slots) slots' (ground arith) (ground arith)
            | inr n ↦
                filled_next attempts i now_ms sh sh' slot slots slots' f n
                  (λ sh₁ passed e.
                    fill_slots-Refines attempts (i + 1) now_ms sh₁ sh' slots passed e)
                  (start_slot p (attempts i) now_ms sh slot) refl (ground arith)
          ]
        ]
