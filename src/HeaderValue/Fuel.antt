-- ===== src/HeaderValue/Fuel.antt =====
-- src/smtp_header_value.c: the loop's fuel is enough.
use smtpc_cli.HeaderValue.{
  ValueErr, err_empty, Step, stop, next, step, step_text, step_word, step_handle_fold, counted,
  candidate, validate_loop, validate, Verdict,
}
use smtpc_cli.HeaderValue.Locate.{candidate_sound, Located, length-render}
use smtpc_cli.HeaderEncoding.{validate_encoded_word}
use smtpc_cli.HeaderEncoding.Grammar.{render}
use smtpc_cli.Common.Checked.{ok, fail, Checked-cases}
use smtpc_cli.Common.{
  ◌<◌, arith, ℕ, zero, suc, ◌-◌, ◌≤◌, ◌≡◌, ◌⊎◌, refl, inl, inr, ap, ◌∙◌, Bool-cases, [], ◌∷◌, Bytes,
  length, ◌==◌, some, none, cr, length-append, Option, Option-cases, take,
}

pub Step-cases :
    (s : Step)
    → ((e : _) × (o : ℕ) × (s ≡ stop e o))
      ⊎ ((i : ℕ) × (l : ℕ) × (rest : Bytes) × (s ≡ next i l rest))
Step-cases (stop e o) = inl (e, o, refl)
Step-cases (next i l rest) = inr (i, l, rest, refl)

Located-shorter :
    (i end : ℕ) (value rest : Bytes) → Located i value end rest → length rest < length value
Located-shorter i end value rest t =
    let a = ap length t.written in
    omega (arith, a, length-append (render t.word) rest, length-render t.word)

candidate_shorter :
    (i end : ℕ) (value rest : Bytes)
    → candidate i value ≡ some (end, rest)
    → length rest < length value
candidate_shorter i end value rest h =
    Located-shorter i end value rest (candidate_sound i end value rest h)

word_shorter :
    (i l end i' l' : ℕ) (value rest rest' : Bytes)
    → step_word i l value end rest ≡ next i' l' rest'
    → rest' ≡ rest
unfolding step_word counted
word_shorter i l end i' l' value rest rest' h =
    elim (Checked-cases (validate_encoded_word (some (take (end - i) value)))) [
      | inl (_, e) ↦ ground arith
      | inr (_, _, e) ↦ cc
    ]

text_shorter :
    (i l i' l' c : ℕ) (cs rest : Bytes)
    → step_text i l c cs ≡ next i' l' rest
    → length rest < length (c ∷ cs)
unfolding step_text counted
text_shorter i l i' l' c cs rest h = elim (Option-cases (candidate i (c ∷ cs))) [
  | inl n ↦ ground arith
  | inr ((end, behind), e) ↦
      let s = candidate_shorter i end (c ∷ cs) behind e in
      let t = word_shorter i l end i' l' (c ∷ cs) behind rest (ground arith) in
      omega (arith, s, ap length t)
]

fold_shorter :
    (i l i' l' : ℕ) (cs rest : Bytes)
    → step_handle_fold i l cs ≡ next i' l' rest
    → length rest < suc (length cs)
unfolding step_handle_fold
fold_shorter i l i' l' [] rest h = cc
fold_shorter i l i' l' (d ∷ []) rest h = ground arith
fold_shorter i l i' l' (d ∷ e ∷ cs) rest h = ground arith

step_shorter :
    (i l i' l' c : ℕ) (cs rest : Bytes)
    → step i l c cs ≡ next i' l' rest
    → length rest < length (c ∷ cs)
unfolding step
step_shorter i l i' l' c cs rest h = elim (Bool-cases (c == cr)) [
  | inl t ↦ fold_shorter i l i' l' cs rest (ground arith)
  | inr f ↦ text_shorter i l i' l' c cs rest (ground arith)
]

pub loop_stop :
    (fuel i l c o : ℕ) (e : ValueErr) (cs : Bytes)
    → step i l c cs ≡ stop e o
    → validate_loop (suc fuel) i l (c ∷ cs) ≡ some (fail e o)
unfolding validate_loop
loop_stop fuel i l c o e cs s = rw (validate_loop, s) refl

pub loop_next :
    (fuel i l c i' l' : ℕ) (cs rest : Bytes)
    → step i l c cs ≡ next i' l' rest
    → validate_loop (suc fuel) i l (c ∷ cs) ≡ validate_loop fuel i' l' rest
unfolding validate_loop
loop_next fuel i l c i' l' cs rest s = rw (validate_loop, s) refl

loop_total :
    (fuel i l : ℕ) (cs : Bytes)
    → length cs ≤ fuel
    → (r : Verdict) × (validate_loop fuel i l cs ≡ some r)
unfolding validate_loop
loop_total fuel i l [] h = (ok tt, refl)
loop_total zero i l (c ∷ cs) h = absurd (omega (arith, h))
loop_total (suc fuel) i l (c ∷ cs) h = elim (Step-cases (step i l c cs)) [
  | inl (e, o, s) ↦ (fail e o, loop_stop fuel i l c o e cs s)
  | inr (i', l', rest, s) ↦
      let k = step_shorter i l i' l' c cs rest s in
      let (r, t) = loop_total fuel i' l' rest (omega (arith, k, h)) in
      (r, loop_next fuel i l c i' l' cs rest s ∙ t)
]

-- The header value validator returns, whatever the value: each iteration of its loop takes a byte
-- at least.
pub validate_total : (value : Option Bytes) → (r : Verdict) × (validate value ≡ some r)
unfolding validate
validate_total none = (fail err_empty 0, refl)
validate_total (some []) = (fail err_empty 0, refl)
validate_total (some (c ∷ cs)) = loop_total (length (c ∷ cs)) 0 0 (c ∷ cs) (omega arith)
