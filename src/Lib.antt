-- ===== src/Lib.antt =====
-- smtpc-cli in antt: the SMTP client, from the bytes it receives to the loop that drives its connections.
--
-- The program (src/*.c, include/*.h of the repository) opens many SMTP connections from one thread.
-- The orchestrator fills its slots with attempts, polls the reactor and passes each completion to
-- `smtp_connection_on_io`, which decrypts where TLS is active, has the received bytes parsed as a
-- reply or as an EHLO response, logs and submits the next read or write. The validators of addresses,
-- header values and bodies are for what is to be sent.
--
-- Parts and files:
-- - Common: names of the libraries, Boolean tests, lists over the native numbers, byte ranges;
--   Common.Checked is the result `ok` or `fail` with an error and an offset of a validator,
--   Common.Ledger a list of resources taken and given back.
-- - ReplyParser: src/smtp_reply_parser.c. `parse_line` is `smtp_reply_parse_line`; its helpers keep
--   their names without the prefix. A pointer with a length is a list of bytes, an error leaves its
--   code and offset in the thread's last error, which is passed along. ReplyParser.Wire has the
--   grammar of a reply line.
-- - ReplyReader: src/smtp_reply_reader.c. `read` is `smtp_reply_read`.
-- - BodyValidator: src/smtp_body_validator.c. `validate` is `smtp_body_validate`.
-- - AddressValidator: src/smtp_address_validator.c, one module for the character classes (Chars), one
--   for each state machine (Local, Domain). `validate` is `smtp_address_validate`.
-- - Capabilities: src/smtp_capabilities.c, one module for keywords (Keys), one for parameters
--   (Params), one for the log summary (Summary). `parse_ehlo_response` is
--   `smtp_cap_parse_ehlo_response`, `parse_cap_line` is `smtp_cap_parse_line`.
-- - Connection: src/smtp_connection.c. State holds the structures and the interface `Platform`, Io the
--   submissions and log lines, Handlers one function for each handler (those of EHLO and STARTTLS and of
--   the handshake in its children), Machine `connection_start`,
--   `on_io` and `check_timeout`. A world is a connection, the capabilities that the thread shares and
--   the list of events so far; a failed assertion is the run `aborted`. Connection.Reachable has the
--   worlds that starts, completions and deadline checks reach, in any order; other connections of the
--   thread write the capabilities in between. Security, Frame, Finished, Forgets, Progress and Bounds
--   carry an invariant each through all handlers, by the cases of Runs; Greeting is about the
--   greeting's log line.
-- - HeaderEncoding: src/smtp_header_encoding.c. `validate_encoded_word` is
--   `smtp_hdr_validate_encoded_word`; HeaderEncoding.Grammar is RFC 2047's encoded-word.
-- - HeaderValue: src/smtp_header_value.c. `validate` is `smtp_hdrval_validate`, its loop is on fuel, the
--   length of the value, of which each iteration takes one byte at least. HeaderValue.Grammar is a
--   value as a sequence of characters, encoded-words and folds.
-- - Orchestrator: src/smtp_orchestrator.c. `start_slot` and `finish_slot` are an attempt's begin and
--   end, Orchestrator.Loop is `smtp_orchestrator_run`, Orchestrator.Lifecycle its creation, its
--   destruction and the text of the actor. What comes from outside is an argument: a `Turn` is the
--   clock's answers, the sockets, the completions and the stop requests that one iteration sees, a run
--   is a list of turns. Its connections are those of Connection, over the same `Platform`.
--   Orchestrator.Pool is an abstract machine that only counts attempts; Slots, Refines and Turns relate
--   the code to it, Balance, Bounded and Timeouts are about whole runs, Resources about creation.
--   `IsPolled` and `IsServed` are what the orchestrator needs of its reactor: it completes submissions
--   of slots in use, one for each at most.
-- - Reactor: src/smtp_reactor_linux.c, src/smtp_reactor_unix.c and smtp_reactor_windows.c, over a `Kernel`, the system calls as
--   any functions on any state. Reactor has the types, the creation and the handlers that both files
--   have, Epoll and Kqueue the submissions and `smtp_reactor_poll` of each. Reactor.OneShot and
--   Reactor.Submissions take the kernel's interest list as `Keeps` says: a disarmed key is not armed,
--   and nothing else that a poll calls changes the list. Reactor.Iocp is src/smtp_reactor_windows.c over
--   a `Port`. Reactor.Live is about the count, Reactor.Holdings about the resources of a creation.
-- - Tls: src/smtp_tls_openssl.c over `Openssl`, the calls of OpenSSL as any functions on a session.
--   Engine has the calls on an engine, which return a step and what they set the last error to; where
--   an assertion fails they return nothing. Lifecycle has contexts and engines with their resources.
--   Tls.Reached has the engines that any calls reach; Verify, Usable, Strict and Holdings are about
--   them. Bridge is the `Platform` of a connection over these engines, Session is about such a
--   connection; where an assertion fails Bridge has an error step, as the process ends there.
-- - Resolve: src/smtp_resolve.c. `resolve_host` is `smtp_resolve_host` on both platforms.
-- - Log: src/smtp_log.c. `emit_line` is the line that `smtp_log_emit` writes, Log.Dump the append
--   helpers and `smtp_log_hex_dump`. A buffer is the bytes in it so far.
-- - Examples: tests on concrete inputs and instances of the theorems.
--
-- Bytes are natural numbers; a theorem that needs them below 256 says so. Deadlines and the counters
-- of the orchestrator wrap at 2 ^ 64.
-- Loops over bytes are recursions on the list. The reply reader's loop and the second pass over an
-- EHLO response are recursions on the number of lines that they may still read, `max_lines` and
-- the reply's line count, as in the source, so no fuel is added; the digits of a 64-bit number are
-- 20 at most. The orchestrator's loop, which has no bound of its own, is a recursion on the turns.
--
-- To a connection the TLS engine and the reactor are the interface `Platform`, any functions at all;
-- Connection.Bounds takes the contract of `smtp_tls_decrypt` on its output size as a hypothesis,
-- `DecryptsInto`, and that a read brings no more than the room it was submitted with. In an engine call
-- only the status, the output and the engine behind it are seen. Tls.Bridge fills the interface with
-- src/smtp_tls_openssl.c.
--
-- Not modelled: src/smtp_tls_schannel.c; the error strings. Assertions that a pointer is not null have
-- no counterpart, and a value that the code only passes through, such as a target's address, is left
-- out.
pub mod Common
pub mod ReplyParser
pub mod ReplyReader
pub mod BodyValidator
pub mod AddressValidator
pub mod HeaderEncoding
pub mod HeaderValue
pub mod Capabilities
pub mod Connection
pub mod Log
pub mod Reactor
pub mod Orchestrator
pub mod Examples
pub mod Tls
pub mod Resolve
