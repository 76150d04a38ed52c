-- ===== src/BodyValidator/Content.antt =====
-- Content as lines, in words of RFC 5321: what may go out behind DATA.
use smtpc_cli.Common.{
  ℕ, ◌+◌, ◌≤◌, ◌≡◌, ◌≢◌, ◌⊎◌, ◌↔◌, refl, sym, ap, ◌∙◌, Bool, true, [], ◌∷◌, ◌++◌, List, Bytes, cr,
  lf, length, get_elem?, All, arith, length-append, some,
}
use smtpc_cli.BodyValidator.{max_line_len, is_bare_dot_line}
use mathlib.Core.List.{append_assoc}

-- The bytes inside a line: TAB, printable ASCII, and 8-bit bytes where they were negotiated.
abbrev pub IsContent : Bool → ℕ → Type 0
IsContent allow_8bit c = (c ≡ 9) ⊎ ((32 ≤ c) × (c ≤ 126)) ⊎ ((allow_8bit ≡ true) × (128 ≤ c))

pub record IsBodyLine (allow_8bit : Bool) (line : Bytes) : Type 0 where
  pub content : All (IsContent allow_8bit) line
  pub short : length line ≤ max_line_len
  pub no_dot : line ≢ b'.' ∷ []

-- Terminated lines, and the text behind the last CRLF.
abbrev pub joined : List Bytes → Bytes → Bytes
joined [] last = last
joined (l ∷ ls) last = l ++ (cr ∷ lf ∷ joined ls last)

pub record IsBody (allow_8bit : Bool) (body : Bytes) : Type 0 where
  pub lines : List Bytes
  pub last : Bytes
  pub splits : body ≡ joined lines last
  pub lines_ok : All (IsBodyLine allow_8bit) lines
  pub last_ok : IsBodyLine allow_8bit last

-- The loop's variables: `line` is what was read of the current line, behind `pre`.
pub record At (body : Bytes) (line_start line_len i : ℕ) (pre line rest : Bytes) : Type 0 where
  pub splits : body ≡ pre ++ (line ++ rest)
  pub start_is : line_start ≡ length pre
  pub len_is : line_len ≡ length line
  pub index_is : i ≡ length pre + length line

get_elem?-append :
    (pre tail : Bytes) (k : ℕ) → k ≡ length pre → get_elem? (pre ++ tail) k ≡ get_elem? tail 0
get_elem?-append [] tail k e = rw e
get_elem?-append (x ∷ pre) tail k e = rw e (get_elem?-append pre tail (length pre) refl)

module _ {body : Bytes} {line_start line_len i : ℕ} {pre rest : Bytes} where
  -- The test reads the line that the loop is in.
  pub is_bare_dot_line-At :
      (line : Bytes)
      → At body line_start line_len i pre line rest
      → (is_bare_dot_line body line_start i ≡ true) ↔ (line ≡ b'.' ∷ [])
  unfolding is_bare_dot_line
  is_bare_dot_line-At [] a = ground arith
  is_bare_dot_line-At (x ∷ []) a =
      let e : get_elem? body line_start ≡ some x =
        rw a.splits (get_elem?-append pre (x ∷ rest) line_start a.start_is) in
      ground (arith, e)
  is_bare_dot_line-At (x ∷ y ∷ line) a = ground arith

  pub At-content :
      (line : Bytes) (c : ℕ)
      → At body line_start line_len i pre line (c ∷ rest)
      → At body line_start (line_len + 1) (i + 1) pre (line ++ c ∷ []) rest
  At-content line c a = record {
    splits = a.splits ∙ ap (◌++◌ pre) (sym (append_assoc line (c ∷ []) rest));
    start_is = a.start_is;
    len_is = omega (arith, a.len_is, length-append line (c ∷ []));
    index_is = omega (arith, a.index_is, length-append line (c ∷ []));
  }

  pub At-line :
      (line : Bytes)
      → At body line_start line_len i pre line (cr ∷ lf ∷ rest)
      → At body (i + 2) 0 (i + 2) (pre ++ (line ++ cr ∷ lf ∷ [])) [] rest
  At-line line a = record {
    splits = a.splits ∙ simp append_assoc;
    start_is = omega (
      arith,
      a.index_is,
      length-append pre (line ++ cr ∷ lf ∷ []),
      length-append line (cr ∷ lf ∷ []),
    );
    len_is = refl;
    index_is = omega (
      arith,
      a.index_is,
      length-append pre (line ++ cr ∷ lf ∷ []),
      length-append line (cr ∷ lf ∷ []),
    );
  }
