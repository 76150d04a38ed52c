-- ===== src/Connection/Runs.antt =====
-- src/smtp_connection.c: what holds of a run by cases on a test, behind a log line, behind an assertion.
use smtpc_cli.Connection.State.{
  LogEvent, Detail, logged, World, Run, done, aborted, Holds, ◌>>=◌, contains_cr_or_lf,
}
use smtpc_cli.Connection.Io.{emit, add_event, detail_is_bad}
use smtpc_cli.Connection.Machine.{asserting}
use smtpc_cli.Common.{Bool, true, false, ◌||◌, ◌≡◌, refl, if◌then◌else◌}

module _ {E : Type 0} (P : World E → Type 0) where
  pub either : (b : Bool) (r s : Run E) → Holds r P → Holds s P → Holds (if b then r else s) P
  either true r s h k = h
  either false r s h k = k

  pub either_under :
      (b : Bool) (r s : Run E)
      → (b ≡ true → Holds r P)
      → (b ≡ false → Holds s P)
      → Holds (if b then r else s) P
  either_under true r s h k = h refl
  either_under false r s h k = k refl

  held :
      (bad : Bool) (r : Run E) (f : World E → Run E)
      → Holds (r >>= f) P
      → Holds ((if bad then aborted else r) >>= f) P
  held true r f h = tt
  held false r f h = h

  pub after :
      (e : LogEvent) (d : Detail) (w : World E) (f : World E → Run E)
      → Holds (f (add_event (logged e d) w)) P
      → Holds (emit e d w >>= f) P
  unfolding emit
  after e d w f h =
      held (contains_cr_or_lf w.conn.actor || detail_is_bad d) (done (add_event (logged e d) w)) f h

  pub asserting_under : (b : Bool) (r : Run E) → (b ≡ true → Holds r P) → Holds (asserting b r) P
  asserting_under true r h = h refl
  asserting_under false r h = tt

  pub after_either :
      (b : Bool) (e e' : LogEvent) (d d' : Detail) (w : World E) (f : World E → Run E)
      → Holds (f (add_event (logged e d) w)) P
      → Holds (f (add_event (logged e' d') w)) P
      → Holds ((if b then emit e d w else emit e' d' w) >>= f) P
  after_either true e e' d d' w f h n = after e d w f h
  after_either false e e' d d' w f h n = after e' d' w f n
