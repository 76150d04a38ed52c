-- ===== src/BodyValidator/Exact.antt =====
-- The validator accepts exactly the well-formed bodies.
use mathlib.Core.List.{append-nil, append_assoc}
use smtpc_cli.Common.{
  ==_iff, All-append, Bool-cases, All-append, Bool-cases, ℕ, ◌+◌, ◌≤◌, ◌≡◌, ◌≢◌, ◌↔◌, inl, inr,
  refl, sym, ap, ◌∙◌, Bool, true, [], ◌∷◌, ◌++◌, List, Bytes, cr, lf, length, All, ◌==◌, arith,
  length-append, some,
}
use smtpc_cli.Common.Checked.{ok}
use smtpc_cli.BodyValidator.{max_line_len, is_bare_dot_line, validate_loop, validate}
use smtpc_cli.BodyValidator.Content.{
  IsContent, IsBodyLine, joined, IsBody, At, is_bare_dot_line-At, At-content, At-line,
}

module _ (body : Bytes) (allow : Bool) (s n i : ℕ) where
  loop-IsContent :
      (c : ℕ) (rest : Bytes)
      → IsContent allow c
      → n + 1 ≤ max_line_len
      → validate_loop body allow s n i (c ∷ rest) ≡ validate_loop body allow s (n + 1) (i + 1) rest
  unfolding validate_loop
  loop-IsContent c [] h k = ground arith
  loop-IsContent c (d ∷ rest) h k = ground arith

  loop-IsContent_inv :
      (c : ℕ) (rest : Bytes)
      → validate_loop body allow s n i (c ∷ rest) ≡ ok tt
      → c ≢ cr
      → IsContent allow c
        × (n + 1 ≤ max_line_len)
        × (validate_loop body allow s (n + 1) (i + 1) rest ≡ ok tt)
  unfolding validate_loop
  loop-IsContent_inv c [] h k = ground arith
  loop-IsContent_inv c (d ∷ rest) h k = ground arith

  loop-crlf :
      (rest : Bytes)
      → is_bare_dot_line body s i ≢ true
      → validate_loop body allow s n i (cr ∷ lf ∷ rest)
        ≡ validate_loop body allow (i + 2) 0 (i + 2) rest
  unfolding validate_loop
  loop-crlf rest h = ground arith

  loop-crlf_inv :
      (c d : ℕ) (rest : Bytes)
      → validate_loop body allow s n i (c ∷ d ∷ rest) ≡ ok tt
      → c ≡ cr
      → (d ≡ lf)
        × (is_bare_dot_line body s i ≢ true)
        × (validate_loop body allow (i + 2) 0 (i + 2) rest ≡ ok tt)
  unfolding validate_loop
  loop-crlf_inv c d rest h e = (ground arith, λ x. ground arith, ground arith)

  loop-one_inv : (c : ℕ) → validate_loop body allow s n i (c ∷ []) ≡ ok tt → c ≢ cr
  unfolding validate_loop
  loop-one_inv c h e = ground arith

  loop-end : (is_bare_dot_line body s i ≢ true) ↔ (validate_loop body allow s n i [] ≡ ok tt)
  unfolding validate_loop
  loop-end = (λ h. ground arith, λ h e. ground arith)

not_dot :
    {body : Bytes} {s n i : ℕ} {pre rest : Bytes} (line : Bytes)
    → At body s n i pre line rest
    → (is_bare_dot_line body s i ≢ true) ↔ (line ≢ b'.' ∷ [])
not_dot line a = let d = is_bare_dot_line-At line a in ((λ h e. h (d.1 e)), (λ h e. h (d.0 e)))

-- A run of content bytes moves the loop on inside its line.
loop_run :
    (body : Bytes) (allow : Bool) (s n i : ℕ) (seg rest : Bytes)
    → All (IsContent allow) seg
    → n + length seg ≤ max_line_len
    → validate_loop body allow s n i (seg ++ rest)
      ≡ validate_loop body allow s (n + length seg) (i + length seg) rest
loop_run body allow s n i [] rest h k = ground arith
loop_run body allow s n i (c ∷ seg) rest h k =
    loop-IsContent body allow s n i c (seg ++ rest) h.0 (omega arith)
    ∙ loop_run body allow s (n + 1) (i + 1) seg rest h.1 (omega arith)
    ∙ ground arith

At-run :
    {body : Bytes} {s n i : ℕ} {pre rest : Bytes} (line seg : Bytes)
    → At body s n i pre line (seg ++ rest)
    → At body s (n + length seg) (i + length seg) pre (line ++ seg) rest
At-run {pre = pre} {rest = rest} line seg a = record {
  splits = a.splits ∙ ap (◌++◌ pre) (sym (append_assoc line seg rest));
  start_is = a.start_is;
  len_is = omega (arith, a.len_is, length-append line seg);
  index_is = omega (arith, a.index_is, length-append line seg);
}

loop-last :
    (body : Bytes) (allow : Bool) (s i : ℕ) (pre last : Bytes)
    → IsBodyLine allow last
    → At body s 0 i pre [] (last ++ [])
    → validate_loop body allow s 0 i (last ++ []) ≡ ok tt
loop-last body allow s i pre last k a =
    loop_run body allow s 0 i last [] k.content (omega (arith, k.short))
    ∙ (loop-end body allow s (0 + length last) (i + length last)).0
        ((not_dot last (At-run [] last a)).1 k.no_dot)

loop-joined :
    (body : Bytes) (allow : Bool) (s i : ℕ) (pre : Bytes) (ls : List Bytes) (last : Bytes)
    → All (IsBodyLine allow) ls
    → IsBodyLine allow last
    → At body s 0 i pre [] (joined ls last)
    → validate_loop body allow s 0 i (joined ls last) ≡ ok tt
loop-joined body allow s i pre [] last h k a =
    rw append-nil at (loop-last body allow s i pre last k (rw append-nil a))
loop-joined body allow s i pre (l ∷ ls) last h k a =
    loop_run body allow s 0 i l (cr ∷ lf ∷ joined ls last) h.0.content (omega (arith, h.0.short))
    ∙ loop-crlf body allow s (0 + length l) (i + length l) (joined ls last)
        ((not_dot l (At-run [] l a)).1 h.0.no_dot)
    ∙ loop-joined body allow (i + length l + 2) (i + length l + 2) (pre ++ (l ++ cr ∷ lf ∷ [])) ls
        last h.1 k (At-line l (At-run [] l a))

-- The lines of what a loop has accepted, `line` being what it had read of the current one.
abbrev Lines : Bool → Bytes → Bytes → Type 0
Lines allow line rest = IsBody allow (line ++ rest)

Lines-end : (allow : Bool) (line : Bytes) → IsBodyLine allow line → Lines allow line []
Lines-end allow line h = record {
  lines = [];
  last = line;
  splits = append-nil line;
  lines_ok = tt;
  last_ok = h;
}

Lines-crlf :
    (allow : Bool) (line rest : Bytes)
    → IsBodyLine allow line
    → Lines allow [] rest
    → Lines allow line (cr ∷ lf ∷ rest)
Lines-crlf allow line rest h b = record {
  lines = line ∷ b.lines;
  last = b.last;
  splits = ap (λ t. line ++ (cr ∷ lf ∷ t)) b.splits;
  lines_ok = (h, b.lines_ok);
  last_ok = b.last_ok;
}

loop-Lines :
    (body : Bytes) (allow : Bool) (s n i : ℕ) (pre line rest : Bytes)
    → At body s n i pre line rest
    → All (IsContent allow) line
    → length line ≤ max_line_len
    → validate_loop body allow s n i rest ≡ ok tt
    → Lines allow line rest
loop-Lines body allow s n i pre line [] a h k v = Lines-end allow line (record {
  content = h;
  short = k;
  no_dot = (not_dot line a).0 ((loop-end body allow s n i).1 v);
})
loop-Lines body allow s n i pre line (c ∷ []) a h k v =
    let (x, m, w) =
      loop-IsContent_inv body allow s n i c [] v (loop-one_inv body allow s n i c v) in
    rw (append_assoc line (c ∷ []) []) at (
      loop-Lines body allow s (n + 1) (i + 1) pre (line ++ c ∷ []) [] (At-content line c a)
        (All-append _ line (c ∷ []) h (x, tt))
        (omega (arith, a.len_is, length-append line (c ∷ []))) w)
loop-Lines body allow s n i pre line (c ∷ d ∷ rest) a h k v = elim (Bool-cases (c == cr)) [
  | inl t ↦
      let e = (==_iff c cr).0 t in
      let (f, nd, w) = loop-crlf_inv body allow s n i c d rest v e in
      let this : IsBodyLine allow line = record {
        content = h;
        short = k;
        no_dot = (not_dot line a).0 nd;
      } in
      rw (e, f)
        (Lines-crlf allow line rest this (
          loop-Lines body allow (i + 2) 0 (i + 2) (pre ++ (line ++ cr ∷ lf ∷ [])) [] rest
            (At-line line (rw (e, f) at a)) tt (omega arith) w))
  | inr t ↦
      let (x, m, w) = loop-IsContent_inv body allow s n i c (d ∷ rest) v (ground arith) in
      rw (append_assoc line (c ∷ []) (d ∷ rest)) at (
        loop-Lines body allow s (n + 1) (i + 1) pre (line ++ c ∷ []) (d ∷ rest)
          (At-content line c a) (All-append _ line (c ∷ []) h (x, tt))
          (omega (arith, a.len_is, length-append line (c ∷ []))) w)
]

At-start : (body : Bytes) → At body 0 0 0 [] [] body
At-start body = record { splits = refl; start_is = refl; len_is = refl; index_is = refl }

loop-IsBody :
    (body : Bytes) (allow : Bool) → IsBody allow body → validate_loop body allow 0 0 0 body ≡ ok tt
loop-IsBody body allow b =
    let text = joined b.lines b.last in
    rw b.splits (loop-joined text allow 0 0 [] b.lines b.last b.lines_ok b.last_ok (At-start text))

validate_complete :
    (body : Bytes) (allow : Bool)
    → body ≢ []
    → IsBody allow body
    → validate (some body) allow ≡ ok tt
unfolding validate
validate_complete [] allow ne b = absurd (ne refl)
validate_complete (c ∷ cs) allow ne b = loop-IsBody (c ∷ cs) allow b

validate_sound :
    (body : Bytes) (allow : Bool)
    → validate (some body) allow ≡ ok tt
    → (body ≢ []) × IsBody allow body
unfolding validate
validate_sound [] allow h = ground arith
validate_sound (c ∷ cs) allow h =
    (λ e. cc, loop-Lines (c ∷ cs) allow 0 0 0 [] [] (c ∷ cs) (At-start (c ∷ cs)) tt (omega arith) h)

-- The body validator accepts exactly the non-empty bodies that are lines joined by CRLF, each line
-- (the last, unterminated one included) at most 998 octets of TAB, printable ASCII or, where 8-bit
-- bytes are allowed, bytes from 128 on, and none of them a lone dot.
pub validate_iff :
    (body : Bytes) (allow : Bool)
    → (validate (some body) allow ≡ ok tt) ↔ ((body ≢ []) × IsBody allow body)
validate_iff body allow = (validate_sound body allow, λ h. validate_complete body allow h.0 h.1)
