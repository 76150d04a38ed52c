-- ===== src/BodyValidator/Terminator.antt =====
-- The purpose of the module: no accepted body ends the DATA transaction early (RFC 5321 Sec 4.5.2).
use smtpc_cli.Common.{sym, ℕ, Bool, [], ◌∷◌, ◌++◌, List, Bytes, cr, lf, All, arith, ◌≡◌, ◌≢◌, some}
use smtpc_cli.Common.Checked.{ok}
use smtpc_cli.BodyValidator.{validate}
use smtpc_cli.BodyValidator.Content.{IsContent, IsBodyLine, IsBody, joined}
use smtpc_cli.BodyValidator.Exact.{validate_iff}

IsContent-ne-cr : (allow : Bool) (c : ℕ) → IsContent allow c → c ≢ cr
IsContent-ne-cr allow c h e = omega arith

no_cr : (allow : Bool) (l x y : Bytes) → All (IsContent allow) l → l ≢ x ++ (cr ∷ y)
no_cr allow [] [] y a e = ground arith
no_cr allow [] (d ∷ x) y a e = ground arith
no_cr allow (c ∷ l) [] y a e = ground (arith, IsContent-ne-cr allow c a.0)
no_cr allow (c ∷ l) (d ∷ x) y a e = no_cr allow l x y a.1 (ground arith)

-- Behind a CRLF of a well-formed text the text is well formed.
joined-suffix :
    (allow : Bool) (x y l : Bytes) (ls : List Bytes) (last : Bytes)
    → All (IsContent allow) l
    → All (IsBodyLine allow) ls
    → IsBodyLine allow last
    → joined (l ∷ ls) last ≡ x ++ (cr ∷ lf ∷ y)
    → IsBody allow y
joined-suffix allow [] y [] ls last a b k e = record {
  lines = ls;
  last = last;
  splits = ground arith;
  lines_ok = b;
  last_ok = k;
}
joined-suffix allow [] y (c ∷ l) ls last a b k e =
    absurd (ground (arith, IsContent-ne-cr allow c a.0))
joined-suffix allow (d ∷ x) y (c ∷ l) ls last a b k e =
    joined-suffix allow x y l ls last a.1 b k (ground arith)
joined-suffix allow (d ∷ []) y [] ls last a b k e = absurd (ground arith)
joined-suffix allow (d ∷ d' ∷ x) y [] [] last a b k e =
    absurd (no_cr allow last x (lf ∷ y) k.content (ground arith))
joined-suffix allow (d ∷ d' ∷ x) y [] (l ∷ ls) last a b k e =
    joined-suffix allow x y l ls last b.0.content b.1 k (ground arith)

IsBody-suffix : (allow : Bool) (x y : Bytes) → IsBody allow (x ++ (cr ∷ lf ∷ y)) → IsBody allow y
IsBody-suffix allow x y b = go b.lines b.lines_ok b.splits
  where
    go :
        (ls : List Bytes)
        → All (IsBodyLine allow) ls
        → x ++ (cr ∷ lf ∷ y) ≡ joined ls b.last
        → IsBody allow y
    go [] h e = absurd (no_cr allow b.last x (lf ∷ y) b.last_ok.content (sym e))
    go (l ∷ ls) h e = joined-suffix allow x y l ls b.last h.0.content h.1 b.last_ok (sym e)

dot_first : (allow : Bool) (y : Bytes) → ¬ IsBody allow (b'.' ∷ cr ∷ lf ∷ y)
dot_first allow y b = go b.lines b.lines_ok b.splits
  where
    go : (ls : List Bytes) → All (IsBodyLine allow) ls → b'.' ∷ cr ∷ lf ∷ y ≡ joined ls b.last → ⊥
    go [] h e = no_cr allow b.last (b'.' ∷ []) (lf ∷ y) b.last_ok.content (sym e)
    go ([] ∷ ls) h e = ground arith
    go ((c ∷ []) ∷ ls) h e = h.0.no_dot (ground arith)
    go ((c ∷ d ∷ l) ∷ ls) h e = ground (arith, IsContent-ne-cr allow d h.0.content.1.0)

-- No body that holds CRLF dot CRLF anywhere, or begins with dot CRLF, is accepted: accepted
-- content cannot end the DATA transaction early.
pub validate_no_terminator :
    (allow : Bool) (x y : Bytes)
    → (validate (some (x ++ (cr ∷ lf ∷ b'.' ∷ cr ∷ lf ∷ y))) allow ≢ ok tt)
      × (validate (some (b'.' ∷ cr ∷ lf ∷ y)) allow ≢ ok tt)
validate_no_terminator allow x y = (
  (λ v.
      dot_first allow y
        (IsBody-suffix allow x (b'.' ∷ cr ∷ lf ∷ y) ((validate_iff _ allow).0 v).1)),
  (λ v. dot_first allow y ((validate_iff _ allow).0 v).1),
)
