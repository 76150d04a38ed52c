-- ===== src/AddressValidator/Printable.antt =====
-- src/smtp_address_validator.c: an address that is accepted is printable text.
use smtpc_cli.AddressValidator.Chars.{
  AddrErr, is_alnum, is_one_of, is_atext, is_qtext, address_max_len,
}
use smtpc_cli.AddressValidator.Local.{
  LocalState, start, atom, dot, quoted_start, quoted_char, quoted_escape, LocalStep, step_local,
  local_next, local_loop,
}
use smtpc_cli.Common.Checked.{Checked, ok, fail}
use smtpc_cli.Common.{
  inr, inl, Bool-cases, arith, ℕ, ◌+◌, ◌≤◌, Bool, true, false, ◌||◌, codes, [], ◌∷◌, ◌++◌, Bytes,
  ◌≡◌, refl, ap, length, All,
}

-- Space and the printable characters of US-ASCII.
abbrev pub IsPrintable : ℕ → Type 0
IsPrintable c = (32 ≤ c) × (c ≤ 126)

one_of-IsPrintable :
    (ds : Bytes) (c : ℕ) → All IsPrintable ds → is_one_of ds c ≡ true → IsPrintable c
one_of-IsPrintable [] c a h = absurd (ground arith)
one_of-IsPrintable (d ∷ ds) c (p, a) h = let r = one_of-IsPrintable ds c a in ground arith

alnum-IsPrintable : (c : ℕ) → is_alnum c ≡ true → IsPrintable c
unfolding is_alnum
alnum-IsPrintable c h = ground arith

by_either : (a b : Bool) (P : Type 0) → a || b ≡ true → (a ≡ true → P) → (b ≡ true → P) → P
by_either true b P h f g = f refl
by_either false b P h f g = g h

atext-IsPrintable : (c : ℕ) → is_atext c ≡ true → IsPrintable c
unfolding is_atext
atext-IsPrintable c h =
    let a = alnum-IsPrintable c in
    let b = one_of-IsPrintable (codes "!#$%&'*+-/=?^_`{|}~") c (ground arith) in
    by_either (is_alnum c) (is_one_of (codes "!#$%&'*+-/=?^_`{|}~") c) (IsPrintable c) h a b

qtext-IsPrintable : (c : ℕ) → is_qtext c ≡ true → IsPrintable c
unfolding is_qtext
qtext-IsPrintable c h = ground arith

step_local-IsPrintable :
    (s : LocalState) (c i n : ℕ) (step : LocalStep) → step_local s c i n ≡ ok step → IsPrintable c
unfolding step_local
step_local-IsPrintable start c i n step h = let a = atext-IsPrintable c in ground arith
step_local-IsPrintable atom c i n step h = let a = atext-IsPrintable c in ground arith
step_local-IsPrintable dot c i n step h = let a = atext-IsPrintable c in ground arith
step_local-IsPrintable quoted_start c i n step h = let a = qtext-IsPrintable c in ground arith
step_local-IsPrintable quoted_char c i n step h = let a = qtext-IsPrintable c in ground arith
step_local-IsPrintable quoted_escape c i n step h = ground arith

step_local_finds :
    (s : LocalState) (c i n : ℕ) (step : LocalStep)
    → step_local s c i n ≡ ok step
    → step.found_at ≡ true
    → c ≡ b'@'
unfolding step_local
step_local_finds start c i n step h f = ground arith
step_local_finds atom c i n step h f = ground arith
step_local_finds dot c i n step h f = ground arith
step_local_finds quoted_start c i n step h f = ground arith
step_local_finds quoted_char c i n step h f = ground arith
step_local_finds quoted_escape c i n step h f = ground arith

-- What stands in front of the "@" that was found, and behind it.
pub record AtSplit (i : ℕ) (cs : Bytes) (at : ℕ) : Type 0 where
  pub pre : Bytes
  pub post : Bytes
  pub split : cs ≡ pre ++ b'@' ∷ post
  pub printable : All IsPrintable pre
  pub index : at ≡ i + length pre

-- One more character in front.
AtSplit-cons :
    (i c : ℕ) (cs : Bytes) (at : ℕ) → IsPrintable c → AtSplit (i + 1) cs at → AtSplit i (c ∷ cs) at
AtSplit-cons i c cs at p t = record {
  pre = c ∷ t.pre;
  post = t.post;
  split = ap (λ xs. c ∷ xs) t.split;
  printable = (p, t.printable);
  index = omega (arith, t.index);
}

local_next-AtSplit :
    (s : LocalState) (c i n : ℕ) (cs : Bytes) (at : ℕ) (r : Checked AddrErr LocalStep)
    → step_local s c i n ≡ r
    → ((s' : LocalState) (n' : ℕ) → local_loop s' n' (i + 1) cs ≡ ok at → AtSplit (i + 1) cs at)
    → local_next r i (λ s' n'. local_loop s' n' (i + 1) cs) ≡ ok at
    → AtSplit i (c ∷ cs) at
local_next-AtSplit s c i n cs at (fail e o) a rest h = absurd (ground arith)
local_next-AtSplit s c i n cs at (ok step) a rest h = elim (Bool-cases step.found_at) [
  | inl f ↦ record {
    pre = [];
    post = cs;
    split = ap (λ x. x ∷ cs) (step_local_finds s c i n step a f);
    printable = tt;
    index = ground arith;
  }
  | inr f ↦
      AtSplit-cons i c cs at (step_local-IsPrintable s c i n step a)
        (rest step.state step.local_len (ground arith))
]

pub local_loop-AtSplit :
    (s : LocalState) (n i : ℕ) (cs : Bytes) (at : ℕ) → local_loop s n i cs ≡ ok at → AtSplit i cs at
unfolding local_loop
local_loop-AtSplit s n i [] at h = absurd (ground arith)
local_loop-AtSplit s n i (c ∷ cs) at h =
    local_next-AtSplit s c i n cs at (step_local s c i n) refl
      (λ s' n' e. local_loop-AtSplit s' n' (i + 1) cs at e) h

-- A local part and a domain, with an "@" in between.
pub record AtParts (addr : Bytes) : Type 0 where
  pub local : Bytes
  pub domain : Bytes
  pub joined : addr ≡ local ++ b'@' ∷ domain

-- An accepted address: at most 256 octets, in two parts at an "@", and nothing but printable text.
pub record IsSafe (addr : Bytes) : Type 0 where
  pub short : length addr ≤ address_max_len
  pub parts : AtParts addr
  pub printable : All IsPrintable addr
