-- ===== src/HeaderValue/Exact.antt =====
-- src/smtp_header_value.c: the validator accepts the values of the grammar.
use smtpc_cli.HeaderValue.Grammar.{
  IsPlain, HasShape, IsValue, nil, terminator, fold, char, word, IsTextChar,
}
use smtpc_cli.HeaderValue.{
  next, is_wsp, is_disallowed_control, step, step_text, step_word, step_handle_fold, counted,
  candidate, validate_loop, validate,
}
use smtpc_cli.HeaderValue.Locate.{candidate_sound, candidate_complete, Located}
use smtpc_cli.HeaderValue.Iteration.{step_sound, token-IsPlain, text-IsPlain}
use smtpc_cli.HeaderValue.Fuel.{Step-cases, loop_stop, loop_next}
use smtpc_cli.HeaderEncoding.{validate_encoded_word}
use smtpc_cli.HeaderEncoding.Exact.{validate_encoded_word_iff}
use smtpc_cli.HeaderEncoding.Grammar.{EncodedWord, render, IsEncodedWord}
use smtpc_cli.Common.Checked.{ok}
use smtpc_cli.Common.{
  arith, ℕ, zero, suc, ◌+◌, ◌-◌, ◌≤◌, ◌≡◌, ◌≢◌, ◌↔◌, refl, inl, inr, ap, ◌∙◌, [], ◌∷◌, ◌++◌, Bytes,
  All, length, sym, some, cr, lf, length-append, Option-cases, subst, subst⁻¹, take, take-append,
}

loop_sound : (fuel i l : ℕ) (cs : Bytes) → validate_loop fuel i l cs ≡ some (ok tt) → IsValue l cs
unfolding validate_loop
loop_sound fuel i l [] h = nil l
loop_sound zero i l (c ∷ cs) h = cc
loop_sound (suc fuel) i l (c ∷ cs) h = elim (Step-cases (step i l c cs)) [
  | inl (e, o, s) ↦ (let k = loop_stop fuel i l c o e cs s in cc)
  | inr (i', l', rest, s) ↦
      step_sound i l i' l' c cs rest s
        (loop_sound fuel i' l' rest (sym (loop_next fuel i l c i' l' cs rest s) ∙ h))
]

step_found :
    (i l end c : ℕ) (cs rest w : Bytes)
    → c ≡ b'='
    → candidate i (c ∷ cs) ≡ some (end, rest)
    → take (end - i) (c ∷ cs) ≡ w
    → validate_encoded_word (some w) ≡ ok tt
    → l + (end - i) ≤ 998
    → step i l c cs ≡ next end (l + (end - i)) rest
unfolding step is_disallowed_control step_text step_word counted
step_found i l end c cs rest w p s t v h =
    let u = ap (λ xs. validate_encoded_word (some xs)) t in ground arith

-- An encoded-word at the head is found whole.
step-render :
    (i l c : ℕ) (cs rest : Bytes) (w : EncodedWord)
    → IsEncodedWord (render w)
    → All IsPlain w.charset
    → All IsPlain w.text
    → l + length (render w) ≤ 998
    → c ∷ cs ≡ render w ++ rest
    → (i' : ℕ) × (step i l c cs ≡ next i' (l + length (render w)) rest)
step-render i l c cs rest w e a b h p =
    let s = ap (candidate i) p ∙ candidate_complete i w rest a b in
    let d : i + length (render w) - i ≡ length (render w) = omega arith in
    let t =
      ap (take (i + length (render w) - i)) p
      ∙ ap (λ n. take n (render w ++ rest)) d
      ∙ take-append (render w) rest in
    let v = (validate_encoded_word_iff (render w)).1 e in
    let r =
      step_found i l (i + length (render w)) c cs rest (render w) (ground arith) s t v
        (omega (arith, h)) in
    (i + length (render w), r ∙ ap (λ n. next (i + length (render w)) (l + n) rest) d)

-- The loop goes on behind the word `w`, with fuel enough.
abbrev Passed : (fuel i l : ℕ) (rest cs w : Bytes) → Type 0
Passed fuel i l rest cs w =
    (fuel' : ℕ) × (i' : ℕ) × (length rest ≤ fuel')
    × (validate_loop fuel i l cs ≡ validate_loop fuel' i' (l + length w) rest)

render_loop :
    (fuel i l : ℕ) (x : EncodedWord) (rest cs : Bytes)
    → IsEncodedWord (render x)
    → All IsPlain x.charset
    → All IsPlain x.text
    → length cs ≤ fuel
    → cs ≡ render x ++ rest
    → l + length (render x) ≤ 998
    → Passed fuel i l rest cs (render x)
render_loop fuel i l x rest [] e a b k p h = cc
render_loop zero i l x rest (c ∷ cs) e a b k p h = absurd (omega (arith, k))
render_loop (suc fuel) i l x rest (c ∷ cs) e a b k p h =
    let (i', s) = step-render i l c cs rest x e a b h p in
    let q = length-append (render x) rest in
    let r = ap length p in
    (fuel, i', omega (arith, k, q, r), loop_next fuel i l c i' (l + length (render x)) cs rest s)

word_loop :
    (fuel i l : ℕ) (w rest cs : Bytes)
    → IsEncodedWord w
    → length cs ≤ fuel
    → cs ≡ w ++ rest
    → l + length w ≤ 998
    → Passed fuel i l rest cs w
word_loop fuel i l w rest cs e k =
    subst⁻¹ (λ v. cs ≡ v ++ rest → l + length v ≤ 998 → Passed fuel i l rest cs v) e.written
      (render_loop fuel i l e.parts rest cs (subst IsEncodedWord e.written e)
        (token-IsPlain e.parts.charset e.charset_token)
        (text-IsPlain e.parts.encoding e.parts.text e.text_ok) k)

shape_of : (i end : ℕ) (value rest : Bytes) → Located i value end rest → HasShape value
shape_of i end value rest t = record {
  word = t.word;
  rest = rest;
  written = t.written;
  charset_plain = t.charset_plain;
  text_plain = t.text_plain;
}

step_char :
    (i l c : ℕ) (cs : Bytes)
    → IsTextChar c
    → ¬ HasShape (c ∷ cs)
    → l + 1 ≤ 998
    → step i l c cs ≡ next (i + 1) (l + 1) cs
unfolding step is_disallowed_control step_text counted
step_char i l c cs t n h = elim (Option-cases (candidate i (c ∷ cs))) [
  | inl e ↦ ground arith
  | inr ((end, behind), e) ↦
      absurd (n (shape_of i end (c ∷ cs) behind (candidate_sound i end (c ∷ cs) behind e)))
]

pub loop_complete :
    (fuel i l : ℕ) (cs : Bytes)
    → IsValue l cs
    → length cs ≤ fuel
    → validate_loop fuel i l cs ≡ some (ok tt)
unfolding validate_loop step step_handle_fold is_wsp
loop_complete fuel i l _ (nil _) h = refl
loop_complete zero i l _ (terminator _) h = absurd (omega (arith, h))
loop_complete (suc fuel) i l _ (terminator _) h = refl
loop_complete zero i l _ (fold _ w cs p v) h = absurd (omega (arith, h))
loop_complete (suc fuel) i l _ (fold _ w cs p v) h =
    loop_next fuel i l cr (i + 2) 0 (lf ∷ w ∷ cs) (w ∷ cs) (ground arith)
    ∙ loop_complete fuel (i + 2) 0 (w ∷ cs) v (omega (arith, h))
loop_complete zero i l _ (char _ c cs t n b v) h = absurd (omega (arith, h))
loop_complete (suc fuel) i l _ (char _ c cs t n b v) h =
    loop_next fuel i l c (i + 1) (l + 1) cs cs (step_char i l c cs t n b)
    ∙ loop_complete fuel (i + 1) (l + 1) cs v (omega (arith, h))
loop_complete fuel i l _ (word _ w rest e b v) h =
    let (fuel', i', k, s) = word_loop fuel i l w rest (w ++ rest) e h refl b in
    s ∙ loop_complete fuel' i' (l + length w) rest v k

-- A header value is accepted exactly if it is not empty and its bytes are, from the start on:
-- characters that start no `=?...?x?...?=`, encoded-words of RFC 2047, CRLFs with SPACE or TAB
-- behind them, or a CRLF at the end; with at most 998 characters before, between and behind the
-- CRLFs.
pub validate-IsValue :
    (value : Bytes) → (validate (some value) ≡ some (ok tt)) ↔ (value ≢ []) × IsValue 0 value
unfolding validate
validate-IsValue [] = (λ h. cc, λ h. absurd (h.0 refl))
validate-IsValue (c ∷ cs) = (
  λ h. (λ e. cc, loop_sound (length (c ∷ cs)) 0 0 (c ∷ cs) h),
  λ h. loop_complete (length (c ∷ cs)) 0 0 (c ∷ cs) h.1 (omega arith),
)
