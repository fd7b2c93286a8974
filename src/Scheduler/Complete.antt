-- ===== src/Scheduler/Complete.antt =====
-- No callback of an event is lost.
use outbox_dispatcher.Text.{Text}
use outbox_dispatcher.Callbacks.Url.{Url}
