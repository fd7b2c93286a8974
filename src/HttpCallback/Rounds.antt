-- ===== src/HttpCallback/Rounds.antt =====
-- The webhook client as the `Callback` of the dispatcher, as crates/bin/src/main.rs wires it.
use outbox_dispatcher.Base.{ℕ, ◌+◌, ◌≤◌, min, leb, if◌then◌else◌, Result, ok, err}
use outbox_dispatcher.Schema.{Duration, DueDelivery, CallbackError}
use outbox_dispatcher.Repo.Db.{Db}
use outbox_dispatcher.Dispatch.{
  Outcome, delivered, failed, timed_out, Callback, build_event_for_delivery,
}
use outbox_dispatcher.Keyring.{KeyRing}
use outbox_dispatcher.HttpCallback.Signing.{Crypto}
use outbox_dispatcher.HttpCallback.{Web, deliver}
use outbox_dispatcher.HttpCallback.Requests.{IsAccepted}

abbrev outcome_of : Result CallbackError (Unit {0}) → Outcome
outcome_of (ok _) = delivered
outcome_of (err e) = failed e

-- `elapsed` is the time that the exchange takes, `random` what the write-back draws; nobody else
-- writes to the database meanwhile.
module _ (web : Web) (crypto : Crypto) (keyring : KeyRing) (elapsed : Duration) (random : ℕ) where
  -- The call under the timeout of its target.
  unfoldable pub http_callback : Callback
  http_callback target event db = record {
    outcome =
        if leb elapsed target.timeout
        then outcome_of (deliver web crypto keyring target event db.now (db.now + elapsed))
        else timed_out;
    database = record db { now = db.now + min elapsed target.timeout };
    random = random;
  }

  -- The receiver accepts the delivery before its timeout.
  abbrev pub Accepts : DueDelivery → Db → Type 0
  Accepts due db =
      (elapsed ≤ due.target.timeout)
      × IsAccepted web crypto keyring due.target (build_event_for_delivery due) db.now
