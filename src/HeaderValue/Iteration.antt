-- ===== src/HeaderValue/Iteration.antt =====
-- src/smtp_header_value.c: one iteration of the loop against the grammar.
use smtpc_cli.HeaderValue.Grammar.{
  IsPlain, HasShape, IsValue, terminator, fold, char, word, IsWsp, IsTextChar,
}
use smtpc_cli.HeaderValue.{
  next, is_wsp, is_disallowed_control, step, step_text, step_word, step_handle_fold, counted,
  candidate,
}
use smtpc_cli.HeaderValue.Locate.{candidate_sound, candidate_complete, Located}
use smtpc_cli.HeaderEncoding.{validate_encoded_word}
use smtpc_cli.HeaderEncoding.Exact.{validate_encoded_word_iff}
use smtpc_cli.HeaderEncoding.Grammar.{
  EncodedWord, render, IsToken, IsText, IsQText, IsBase64, padding, IsEncodedWord,
}
use smtpc_cli.Common.Checked.{ok, Checked-cases}
use smtpc_cli.Common.{
  arith, ℕ, zero, suc, ◌+◌, ◌-◌, ◌≤◌, ◌≡◌, ◌≢◌, inl, inr, ap, ◌∙◌, false, Bool-cases, [], ◌∷◌, ◌++◌,
  Bytes, All, length, ◌==◌, some, none, cr, lf, Option-cases, All-append, subst, subst⁻¹, take,
  take-append,
}

pub token-IsPlain : (cs : Bytes) → All IsToken cs → All IsPlain cs
token-IsPlain [] a = tt
token-IsPlain (c ∷ cs) (t, a) = (ground arith, token-IsPlain cs a)

base64-IsPlain : (cs : Bytes) → All IsBase64 cs → All IsPlain cs
base64-IsPlain [] a = tt
base64-IsPlain (c ∷ cs) (t, a) = (ground arith, base64-IsPlain cs a)

padding-IsPlain : (n : ℕ) → All IsPlain (padding n)
padding-IsPlain zero = tt
padding-IsPlain (suc n) = (ground arith, padding-IsPlain n)

q-IsPlain : (cs : Bytes) → IsQText cs → All IsPlain cs
q-IsPlain _ IsQText.nil = tt
q-IsPlain _ (IsQText.char c cs h n t) = (ground arith, q-IsPlain cs t)
q-IsPlain _ (IsQText.escape d e cs h k t) =
    (ground arith, (ground arith, (ground arith, q-IsPlain cs t)))

pub text-IsPlain : (e : ℕ) (text : Bytes) → IsText e text → All IsPlain text
text-IsPlain e text (inl (q, t)) = q-IsPlain text t
text-IsPlain e text (inr (q, t)) =
    subst⁻¹ (λ xs. All IsPlain xs) t.split
      (All-append IsPlain t.body (padding t.pads) (base64-IsPlain t.body t.alphabet)
        (padding-IsPlain t.pads))

fold_end : (l c d : ℕ) → c ≡ cr → d ≡ lf → IsValue l (c ∷ d ∷ [])
fold_end l c d p q = rw (p, q) (terminator l)

fold_next :
    (l c d e : ℕ) (cs : Bytes)
    → c ≡ cr
    → d ≡ lf
    → IsWsp e
    → IsValue 0 (e ∷ cs)
    → IsValue l (c ∷ d ∷ e ∷ cs)
fold_next l c d e cs p q w v = rw (p, q) (fold l e cs w v)

fold_sound :
    (i l i' l' c : ℕ) (cs rest : Bytes)
    → c ≡ cr
    → step_handle_fold i l cs ≡ next i' l' rest
    → IsValue l' rest
    → IsValue l (c ∷ cs)
unfolding step_handle_fold is_wsp
fold_sound i l i' l' c [] rest p h v = cc
fold_sound i l i' l' c (d ∷ []) rest p h v = fold_end l c d p (ground arith)
fold_sound i l i' l' c (d ∷ e ∷ cs) rest p h v =
    let a : l' ≡ 0 = ground arith in
    let b : rest ≡ e ∷ cs = ground arith in
    fold_next l c d e cs p (ground arith) (ground arith)
      (subst (λ n. IsValue n (e ∷ cs)) a (subst (λ xs. IsValue l' xs) b v))

-- A word that stands at the head, and has passed its validator.
word_here :
    (l l' : ℕ) (w : EncodedWord) (value rest : Bytes)
    → value ≡ render w ++ rest
    → IsEncodedWord (render w)
    → l' ≡ l + length (render w)
    → l' ≤ 998
    → IsValue l' rest
    → IsValue l value
word_here l l' w value rest s e p q v =
    subst⁻¹ (λ xs. IsValue l xs) s
      (word l (render w) rest e (omega (arith, p, q)) (subst (λ n. IsValue n rest) p v))

taken :
    (i end : ℕ) (value rest : Bytes) (t : Located i value end rest)
    → take (end - i) value ≡ render t.word
taken i end value rest t =
    ap (take (end - i)) t.written
    ∙ ap (λ n. take n (render t.word ++ rest)) span
    ∙ take-append (render t.word) rest
  where
    span : end - i ≡ length (render t.word)
    span = omega (arith, t.ends)

word_sound :
    (i l end i' l' : ℕ) (value rest rest' : Bytes)
    → Located i value end rest
    → step_word i l value end rest ≡ next i' l' rest'
    → IsValue l' rest'
    → IsValue l value
unfolding step_word counted
word_sound i l end i' l' value rest rest' t h v =
    let u = taken i end value rest t in
    elim (Checked-cases (validate_encoded_word (some (take (end - i) value)))) [
      | inl (_, e) ↦
          let r : rest' ≡ rest = ground arith in
          let e' = subst (λ xs. validate_encoded_word (some xs) ≡ ok tt) u e in
          let m = t.ends in
          word_here l l' t.word value rest t.written
            ((validate_encoded_word_iff (render t.word)).0 e') (ground arith) (ground arith)
            (subst (λ xs. IsValue l' xs) r v)
      | inr (_, _, e) ↦ cc
    ]

none_no_shape : (i : ℕ) (value : Bytes) → candidate i value ≡ none → ¬ HasShape value
none_no_shape i value h s =
    let k =
      ap (candidate i) s.written
      ∙ candidate_complete i s.word s.rest s.charset_plain s.text_plain in
    cc

text_sound :
    (i l i' l' c : ℕ) (cs rest : Bytes)
    → IsTextChar c
    → step_text i l c cs ≡ next i' l' rest
    → IsValue l' rest
    → IsValue l (c ∷ cs)
unfolding step_text counted
text_sound i l i' l' c cs rest t h v = elim (Option-cases (candidate i (c ∷ cs))) [
  | inl n ↦
      let r : rest ≡ cs = ground arith in
      let m : l' ≡ l + 1 = ground arith in
      char l c cs t (none_no_shape i (c ∷ cs) n) (ground arith)
        (subst (λ n. IsValue n cs) m (subst (λ xs. IsValue l' xs) r v))
  | inr ((end, behind), e) ↦
      word_sound i l end i' l' (c ∷ cs) behind rest (candidate_sound i end (c ∷ cs) behind e)
        (ground arith) v
]

text_char : (c : ℕ) → c ≢ cr → c ≢ lf → is_disallowed_control c ≡ false → IsTextChar c
unfolding is_disallowed_control
text_char c p q h = ground arith

-- What an iteration goes on with decides what it has taken.
pub step_sound :
    (i l i' l' c : ℕ) (cs rest : Bytes)
    → step i l c cs ≡ next i' l' rest
    → IsValue l' rest
    → IsValue l (c ∷ cs)
unfolding step
step_sound i l i' l' c cs rest h v = elim (Bool-cases (c == cr)) [
  | inl t ↦ fold_sound i l i' l' c cs rest (ground arith) (ground arith) v
  | inr f ↦
      text_sound i l i' l' c cs rest (text_char c (ground arith) (ground arith) (ground arith))
        (ground arith) v
]
