-- ===== src/ReplyReader/Lines.antt =====
-- Replies as lists of reply lines, their bytes, and the line parser on such bytes.
use smtpc_cli.ReplyParser.{ok, parse_line, LastError}
use smtpc_cli.ReplyParser.Wire.{
  Line, Tail, more, last, bare, tail_bytes, crlf, wire, report, report_tail, code_of, IsLine,
}
use smtpc_cli.ReplyParser.Exact.{parse_buffer-wire}
use smtpc_cli.Common.{
  ℕ, suc, ◌+◌, ◌≡◌, refl, [], ◌∷◌, ◌++◌, List, true, false, arith, Bytes, length, drop, some,
}

abbrev pub wires : List Line → Bytes → Bytes
wires [] rest = rest
wires (l ∷ ls) rest = wire l (wires ls rest)

-- The octets that the lines take on the wire.
abbrev pub size : List Line → ℕ
size [] = 0
size (l ∷ ls) = (report l).consumed + size ls

-- One code throughout, "-" lines, and a final line at the end.
abbrev pub IsReply : ℕ → List Line → Type 0
IsReply code [] = ⊥
IsReply code (l ∷ []) = IsLine l × (code_of l ≡ code) × ((report l).is_final ≡ true)
IsReply code (l ∷ m ∷ ls) =
    IsLine l × (code_of l ≡ code) × ((report l).is_final ≡ false) × IsReply code (m ∷ ls)

pub report-code : (n : ℕ) (t : Tail) → (report_tail n t).code ≡ n
report-code n (more text) = refl
report-code n (last text) = refl
report-code n bare = refl

drop-crlf : (text rest : Bytes) → drop (length text + 2) (text ++ crlf rest) ≡ rest
drop-crlf [] rest = refl
drop-crlf (c ∷ cs) rest =
    let e : suc (length cs) + 2 ≡ suc (length cs + 2) = omega arith in rw e (drop-crlf cs rest)

drop-tail :
    (d0 d1 d2 n : ℕ) (t : Tail) (rest : Bytes)
    → drop (report_tail n t).consumed (d0 ∷ d1 ∷ d2 ∷ (tail_bytes t ++ crlf rest)) ≡ rest
drop-tail d0 d1 d2 n (more text) rest =
    let e : length text + 6 ≡ suc (suc (suc (suc (length text + 2)))) = omega arith in
    rw e (drop-crlf text rest)
drop-tail d0 d1 d2 n (last text) rest =
    let e : length text + 6 ≡ suc (suc (suc (suc (length text + 2)))) = omega arith in
    rw e (drop-crlf text rest)
drop-tail d0 d1 d2 n bare rest = refl

-- Moving the pointer past a line leads to what stands behind it.
pub drop-wire : (l : Line) (rest : Bytes) → drop (report l).consumed (wire l rest) ≡ rest
drop-wire l rest = drop-tail l.d0 l.d1 l.d2 (code_of l) l.tail rest

pub parse_line-wire :
    (l : Line) (rest : Bytes) (g : LastError)
    → IsLine l
    → (parse_line (some (wire l rest)) g).0 ≡ ok (report l)
unfolding parse_line
parse_line-wire l rest g h = parse_buffer-wire l rest h
