-- ===== src/Log/Clean.antt =====
-- src/smtp_log.c: the hex dump fits its buffer and holds no line break.
use smtpc_cli.Log.Dump.{
  append, append_char, append_str, append_hex_byte, append_uint, uint_digits, hex_digit, dump_loop,
  append_more, hex_dump,
}
use smtpc_cli.Connection.State.{contains_cr_or_lf}
use smtpc_cli.Common.{
  arith, ℕ, zero, suc, ◌+◌, ◌-◌, ◌/◌, ◌%◌, ◌≤◌, ◌<◌, ◌≡◌, ◌≢◌, Bool, true, false, [], ◌∷◌, Bytes,
  ltb, ◌==◌, if◌then◌else◌, codes, length, All, All-append, length-append, Bool-cases, inl, inr, cr,
  lf, refl,
}

-- No CR and no LF.
abbrev pub IsClean : ℕ → Type 0
IsClean c = (c ≢ cr) × (c ≢ lf)

pub All-contains : (cs : Bytes) → All IsClean cs → contains_cr_or_lf cs ≡ false
unfolding contains_cr_or_lf
All-contains [] a = refl
All-contains (c ∷ cs) (h, a) = let e = All-contains cs a in ground arith

pub contains-All : (cs : Bytes) → contains_cr_or_lf cs ≡ false → All IsClean cs
unfolding contains_cr_or_lf
contains-All [] h = tt
contains-All (c ∷ cs) h = (ground arith, contains-All cs (ground arith))

-- A text that fits the buffer, with its terminator, and breaks no line.
pub record IsFitting (dst_size : ℕ) (dst : Bytes) : Type 0 where
  pub fits : length dst ≤ dst_size - 1
  pub clean : All IsClean dst

append-IsFitting :
    (dst_size : ℕ) (text dst : Bytes)
    → All IsClean text
    → IsFitting dst_size dst
    → IsFitting dst_size (append dst_size text dst).0
append-IsFitting dst_size text dst a h =
    elim (Bool-cases (ltb (dst_size - 1) (length dst + length text))) [
      | inl t ↦ rw t h
      | inr f ↦ rw f (record {
        fits = (let e = length-append dst text in ground arith);
        clean = All-append IsClean dst text h.clean a;
      })
    ]

hex_digit-IsClean : (n : ℕ) → IsClean (hex_digit n)
hex_digit-IsClean n = ground arith

uint_digits-IsClean :
    (room value : ℕ) (tmp : Bytes) → All IsClean tmp → All IsClean (uint_digits room value tmp)
unfolding uint_digits
uint_digits-IsClean zero value tmp a = a
uint_digits-IsClean (suc room) value tmp a = elim (Bool-cases (value == 0)) [
  | inl t ↦ rw t a
  | inr f ↦
      rw f (uint_digits-IsClean room (value / 10) ((b'0' + value % 10) ∷ tmp) (ground arith, a))
]

either-IsFitting :
    (dst_size : ℕ) (b : Bool) (x y : Bytes)
    → IsFitting dst_size x
    → IsFitting dst_size y
    → IsFitting dst_size (if b then x else y)
either-IsFitting dst_size true x y h k = h
either-IsFitting dst_size false x y h k = k

char-IsFitting :
    (dst_size c : ℕ) (dst : Bytes)
    → IsClean c
    → IsFitting dst_size dst
    → IsFitting dst_size (append_char dst_size c dst).0
unfolding append_char
char-IsFitting dst_size c dst a h = append-IsFitting dst_size (c ∷ []) dst (a, tt) h

spaced-IsFitting :
    (dst_size : ℕ) (first : Bool) (dst : Bytes)
    → IsFitting dst_size dst
    → IsFitting dst_size (if first then (dst, true) else append_char dst_size 32 dst).0
spaced-IsFitting dst_size true dst h = h
spaced-IsFitting dst_size false dst h = char-IsFitting dst_size 32 dst (ground arith) h

hex_byte-IsFitting :
    (dst_size b : ℕ) (dst : Bytes)
    → IsFitting dst_size dst
    → IsFitting dst_size (append_hex_byte dst_size b dst).0
unfolding append_hex_byte
hex_byte-IsFitting dst_size b dst h =
    append-IsFitting dst_size (hex_digit (b / 16 % 16) ∷ hex_digit (b % 16) ∷ []) dst
      (hex_digit-IsClean (b / 16 % 16), (hex_digit-IsClean (b % 16), tt)) h

dump_loop-IsFitting :
    (dst_size : ℕ) (first : Bool) (bs dst : Bytes)
    → IsFitting dst_size dst
    → IsFitting dst_size (dump_loop dst_size first bs dst)
unfolding dump_loop
dump_loop-IsFitting dst_size first [] dst h = h
dump_loop-IsFitting dst_size first (b ∷ bs) dst h =
    let s = spaced-IsFitting dst_size first dst h in
    let t = hex_byte-IsFitting dst_size b _ s in
    either-IsFitting dst_size _ _ _ s
      (either-IsFitting dst_size _ _ _ t (dump_loop-IsFitting dst_size false bs _ t))

uint-IsFitting :
    (dst_size value : ℕ) (dst : Bytes)
    → IsFitting dst_size dst
    → IsFitting dst_size (append_uint dst_size value dst).0
unfolding append_uint
uint-IsFitting dst_size value dst h = append-IsFitting dst_size _ dst (shown (value == 0)) h
  where
    shown : (b : Bool) → All IsClean (if b then codes "0" else uint_digits 24 value [])
    shown true = ground arith
    shown false = uint_digits-IsClean 24 value [] tt

more-IsFitting :
    (dst_size dump_count left_out : ℕ) (dst : Bytes)
    → IsFitting dst_size dst
    → IsFitting dst_size (append_more dst_size dump_count left_out dst)
unfolding append_more append_str
more-IsFitting dst_size dump_count left_out dst h =
    append-IsFitting dst_size (codes " more bytes") _ (ground arith) (
      uint-IsFitting dst_size left_out _ (
        char-IsFitting dst_size b'+' _ (ground arith)
          (either-IsFitting dst_size _ _ _ (char-IsFitting dst_size 32 dst (ground arith) h) h)))

-- A hex dump into a buffer that is not empty is shorter than the buffer, which leaves room for its
-- terminator, and holds neither CR nor LF, whatever the bytes.
pub hex_dump-contains_cr_or_lf :
    (dst_size : ℕ) (src : Bytes) (max_bytes : ℕ)
    → 0 < dst_size
    → (length (hex_dump dst_size src max_bytes) < dst_size)
      × (contains_cr_or_lf (hex_dump dst_size src max_bytes) ≡ false)
unfolding hex_dump
hex_dump-contains_cr_or_lf dst_size src max_bytes p =
    let d₀ =
      char-IsFitting dst_size b'[' [] (ground arith) (record { fits = omega arith; clean = tt }) in
    let d₁ = dump_loop-IsFitting dst_size true _ _ d₀ in
    let d₂ = either-IsFitting dst_size _ _ _ (more-IsFitting dst_size _ _ _ d₁) d₁ in
    let shown =
      either-IsFitting dst_size (dst_size == 0) [] _ (record { fits = omega arith; clean = tt })
        (char-IsFitting dst_size b']' _ (ground arith) d₂) in
    (omega (arith, shown.fits, p), All-contains _ shown.clean)
