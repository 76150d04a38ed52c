-- ===== src/AddressValidator/Offsets.antt =====
-- src/smtp_address_validator.c: the offset of an error.
use smtpc_cli.AddressValidator.Chars.{AddrErr}
use smtpc_cli.AddressValidator.Local.{
  LocalState, start, atom, dot, quoted_start, quoted_char, quoted_escape, LocalStep, step_local,
  local_next, local_loop, parse_local_part,
}
use smtpc_cli.AddressValidator.Domain.{
  DomainState, label_start, label_char, literal, literal_done, DomainStep, step_domain, domain_next,
  domain_loop, domain_end, parse_domain,
}
use smtpc_cli.AddressValidator.{validate, domain_behind}
use smtpc_cli.AddressValidator.Printable.{local_loop-AtSplit}
use smtpc_cli.Common.Checked.{Checked, ok, fail}
use smtpc_cli.Common.{
  arith, ℕ, suc, ◌+◌, ◌≤◌, [], ◌∷◌, Bytes, ◌≡◌, refl, length, drop, some, length-drop,
  length-append, ap,
}

-- The offset of a failure is at most `n`.
abbrev pub Within : {A : Type 0} → ℕ → Checked AddrErr A → Type 0
Within n (ok _) = Unit
Within n (fail _ o) = o ≤ n

step_local-Within : (s : LocalState) (c i n : ℕ) → Within i (step_local s c i n)
unfolding step_local
step_local-Within start c i n = ground arith
step_local-Within atom c i n = ground arith
step_local-Within dot c i n = ground arith
step_local-Within quoted_start c i n = ground arith
step_local-Within quoted_char c i n = ground arith
step_local-Within quoted_escape c i n = ground arith

local_next-Within :
    (m i : ℕ) (r : Checked AddrErr LocalStep) (next : LocalState → ℕ → Checked AddrErr ℕ)
    → i ≤ m
    → Within i r
    → ((s : LocalState) (n : ℕ) → Within m (next s n))
    → Within m (local_next r i next)
local_next-Within m i (fail e o) next k h f = omega (arith, k, h)
local_next-Within m i (ok step) next k h f = let g = f step.state step.local_len in ground arith

later : (m n : ℕ) (r : Checked AddrErr ℕ) → m ≤ n → Within m r → Within n r
later m n (ok a) k h = tt
later m n (fail e o) k h = omega (arith, k, h)

local_loop-Within :
    (s : LocalState) (n i : ℕ) (cs : Bytes) → Within (i + length cs) (local_loop s n i cs)
unfolding local_loop
local_loop-Within s n i [] = ground arith
local_loop-Within s n i (c ∷ cs) =
    local_next-Within (i + suc (length cs)) i (step_local s c i n) _ (omega arith)
      (step_local-Within s c i n)
      (λ s' n'.
        later (i + 1 + length cs) (i + suc (length cs)) (local_loop s' n' (i + 1) cs) (omega arith)
          (local_loop-Within s' n' (i + 1) cs))

step_domain-Within :
    (addr : Bytes) (s : DomainState) (c i l d : ℕ) → Within i (step_domain addr s c i l d)
unfolding step_domain
step_domain-Within addr label_start c i l d = ground arith
step_domain-Within addr label_char c i l d = ground arith
step_domain-Within addr literal c i l d = ground arith
step_domain-Within addr literal_done c i l d = omega arith

domain_end-Within : (addr : Bytes) (s : DomainState) → Within (length addr) (domain_end addr s)
unfolding domain_end
domain_end-Within addr label_start = omega arith
domain_end-Within addr label_char = ground arith
domain_end-Within addr literal = omega arith
domain_end-Within addr literal_done = tt

domain_next-Within :
    (m i : ℕ) (r : Checked AddrErr DomainStep)
    (next : DomainState → ℕ → ℕ → Checked AddrErr (Unit {0}))
    → i ≤ m
    → Within i r
    → ((s : DomainState) (l d : ℕ) → Within m (next s l d))
    → Within m (domain_next r next)
domain_next-Within m i (fail e o) next k h f = omega (arith, k, h)
domain_next-Within m i (ok step) next k h f =
    let g = f step.state step.label_len step.domain_len in ground arith

domain_loop-Within :
    (addr : Bytes) (s : DomainState) (l d i : ℕ) (cs : Bytes)
    → i + length cs ≤ length addr
    → Within (length addr) (domain_loop addr s l d i cs)
unfolding domain_loop
domain_loop-Within addr s l d i [] k = domain_end-Within addr s
domain_loop-Within addr s l d i (c ∷ cs) k =
    domain_next-Within (length addr) i (step_domain addr s c i l d) _ (omega (arith, k))
      (step_domain-Within addr s c i l d)
      (λ s' l' d'. domain_loop-Within addr s' l' d' (i + 1) cs (omega (arith, k)))

parsed-Within : (addr : Bytes) → Within (length addr) (parse_local_part addr)
unfolding parse_local_part
parsed-Within addr =
    later (0 + length addr) (length addr) _ (omega arith) (local_loop-Within start 0 0 addr)

behind-Within :
    (addr : Bytes) (r : Checked AddrErr ℕ)
    → parse_local_part addr ≡ r
    → Within (length addr) r
    → Within (length addr) (domain_behind addr r)
unfolding parse_local_part parse_domain
behind-Within addr (fail e o) a h = h
behind-Within addr (ok at) a h =
    let t = local_loop-AtSplit start 0 0 addr at a in
    let n = ap length t.split in
    domain_loop-Within addr label_start 0 0 (at + 1) (drop (at + 1) addr)
      (omega (arith, length-drop (at + 1) addr, n, t.index, length-append t.pre (b'@' ∷ t.post)))

-- The offset of an address error is at most the length of the address: it names a character or the
-- end.
pub validate-Within : (addr : Bytes) → Within (length addr) (validate (some addr))
unfolding validate
validate-Within [] = omega arith
validate-Within (c ∷ cs) =
    let w = behind-Within (c ∷ cs) (parse_local_part (c ∷ cs)) refl (parsed-Within (c ∷ cs)) in
    ground arith
