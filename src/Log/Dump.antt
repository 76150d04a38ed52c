-- ===== src/Log/Dump.antt =====
-- src/smtp_log.c: the append helpers and the hex dump. A buffer is the bytes in it so far, `*pos` their
-- number.
use smtpc_cli.Common.{
  ℕ, zero, suc, ◌+◌, ◌-◌, ◌/◌, ◌%◌, Bool, true, false, not, [], ◌∷◌, ◌++◌, Bytes, ltb, ◌==◌,
  if◌then◌else◌, codes, take, length,
}

-- What all four helpers do: append the whole text, or nothing where it does not fit.
abbrev pub append : (dst_size : ℕ) → (text dst : Bytes) → Bytes × Bool
append dst_size text dst =
    if ltb (dst_size - 1) (length dst + length text) then (dst, false) else (dst ++ text, true)

-- `smtp_log_append_char`
unfoldable pub append_char : (dst_size c : ℕ) → Bytes → Bytes × Bool
append_char dst_size c dst = append dst_size (c ∷ []) dst

-- `smtp_log_append_str`
unfoldable pub append_str : (dst_size : ℕ) → Bytes → Bytes → Bytes × Bool
append_str dst_size s dst = append dst_size s dst

-- An element of `g_hex_digits`.
abbrev pub hex_digit : ℕ → ℕ
hex_digit n = if ltb n 10 then b'0' + n else b'A' + (n - 10)

-- `smtp_log_append_hex_byte`
unfoldable pub append_hex_byte : (dst_size b : ℕ) → Bytes → Bytes × Bool
append_hex_byte dst_size b dst =
    append dst_size (hex_digit (b / 16 % 16) ∷ hex_digit (b % 16) ∷ []) dst

-- The digits that the loop of `smtp_log_append_uint` puts into `tmp[24]`, in the order of printing.
unfoldable pub uint_digits : (room value : ℕ) → Bytes → Bytes
uint_digits zero value tmp = tmp
uint_digits (suc room) value tmp =
    let more = uint_digits room (value / 10) ((b'0' + value % 10) ∷ tmp) in
    if value == 0 then tmp else more

-- `smtp_log_append_uint`
unfoldable pub append_uint : (dst_size value : ℕ) → Bytes → Bytes × Bool
append_uint dst_size value dst =
    append dst_size (if value == 0 then codes "0" else uint_digits 24 value []) dst

-- The loop of `smtp_log_hex_dump` over the bytes from `src[i]` on; `first` is `i == 0`.
unfoldable pub dump_loop : (dst_size : ℕ) → (first : Bool) → Bytes → Bytes → Bytes
dump_loop dst_size first [] dst = dst
dump_loop dst_size first (b ∷ bs) dst =
    let spaced = if first then (dst, true) else append_char dst_size 32 dst in
    let shown = append_hex_byte dst_size b spaced.0 in
    let rest = dump_loop dst_size false bs shown.0 in
    if not spaced.1 then spaced.0 else if not shown.1 then shown.0 else rest

-- The tail of a dump that leaves bytes out.
unfoldable pub append_more : (dst_size dump_count left_out : ℕ) → Bytes → Bytes
append_more dst_size dump_count left_out dst =
    let d₀ = if ltb 0 dump_count then (append_char dst_size 32 dst).0 else dst in
    let d₁ = (append_char dst_size b'+' d₀).0 in
    let d₂ = (append_uint dst_size left_out d₁).0 in
    (append_str dst_size (codes " more bytes") d₂).0

-- `smtp_log_hex_dump`: the text in the buffer, whose length is returned. A null or empty buffer is
-- `dst_size` 0; a null source holds no bytes.
unfoldable pub hex_dump : (dst_size : ℕ) → (src : Bytes) → (max_bytes : ℕ) → Bytes
hex_dump dst_size src max_bytes =
    let dump_count = if ltb (length src) max_bytes then length src else max_bytes in
    let d₀ = (append_char dst_size b'[' []).0 in
    let d₁ = dump_loop dst_size true (take dump_count src) d₀ in
    let d₂ =
      if ltb dump_count (length src)
      then append_more dst_size dump_count (length src - dump_count) d₁
      else d₁ in
    if dst_size == 0 then [] else (append_char dst_size b']' d₂).0
