-- ===== src/Connection/Bounds.antt =====
-- src/smtp_connection.c: the received bytes fit the read buffer.
use smtpc_cli.Connection.State.{Platform, World, Holds, read_buf_size}
use smtpc_cli.Connection.Handlers.{IoResult}
use smtpc_cli.Connection.Machine.{on_io, is_read}
use smtpc_cli.Connection.Frame.{Frame}
use smtpc_cli.Connection.Frame.Machine.{on_io-Keeps}
use smtpc_cli.Common.{arith, ℕ, ◌-◌, ◌≤◌, true, Bytes, ◌++◌, ◌≡◌, none, length, length-append}

abbrev Fits : Bytes → Type 0
Fits received = length received ≤ read_buf_size

-- The documented contract of `smtp_tls_decrypt`: no more plaintext than the output has room for.
abbrev pub DecryptsInto : Platform → Type 0
DecryptsInto p =
    (engine : p.Engine) (input : Bytes) (room : ℕ) → length (p.decrypt engine input room).out ≤ room

abbrev FitsBuffer : Frame
FitsBuffer = record {
  holds = λ received _ _ _. Fits received;
  emptied = λ received mode actor trust h. omega arith;
}

Fits-append :
    (received chunk : Bytes)
    → Fits received
    → length chunk ≤ read_buf_size - length received
    → Fits (received ++ chunk)
Fits-append received chunk h c = let e = length-append received chunk in omega arith

-- Where decryption keeps to the room it is given and a read in the clear to the rest of the
-- buffer, the received bytes fit the read buffer of 4096 bytes behind every completion that
-- returns.
pub on_io-Fits :
    (p : Platform) (result : IoResult) (identity : Bytes) (now_ms : ℕ) (w : World p.Engine)
    → DecryptsInto p
    → length w.conn.received ≤ read_buf_size
    → (w.conn.tls ≡ none
        → is_read result.kind ≡ true
        → length result.chunk ≤ read_buf_size - length w.conn.received)
    → Holds (on_io p result identity now_ms w) (λ v. length v.conn.received ≤ read_buf_size)
on_io-Fits p result identity now_ms w d h c =
    on_io-Keeps FitsBuffer p result identity now_ms w h
      (λ t k _. Fits-append w.conn.received result.chunk h (c t k))
      (λ engine _ _. Fits-append w.conn.received _ h (d engine result.chunk _))
