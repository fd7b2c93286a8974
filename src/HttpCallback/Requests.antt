-- ===== src/HttpCallback/Requests.antt =====
-- The request that is sent, and what its response means.
use outbox_dispatcher.Base.{◌≤◌, ◌≡◌, ◌↔◌, Bool, Result, ok, err, Result-cases, inl, inr, arith}
use outbox_dispatcher.Text.{Text, chars, text_eq, to_ascii_lowercase}
use outbox_dispatcher.Schema.{Time, CallbackTarget, EventForDelivery, CallbackError}
use outbox_dispatcher.Keyring.{KeyRing}
use outbox_dispatcher.HttpCallback.{Web, Request, Response, build_request, interpret, deliver}
use outbox_dispatcher.HttpCallback.Signing.{Crypto}

-- The name of a header, whatever its case, is a given one.
abbrev pub is_named : Text → Text × Text → Bool
is_named name h = text_eq (to_ascii_lowercase h.0) name

abbrev signature_name : Text
signature_name = chars "x-outbox-signature"

module _ (web : Web) (crypto : Crypto) (keyring : KeyRing) where
  -- The request can be built, and the receiver answers it with a status of success.
  abbrev pub IsAccepted : CallbackTarget → EventForDelivery → Time → Type 0
  IsAccepted target event now =
      (request : Request) × (response : Response) × (build_request web crypto keyring target event
          now
        ≡ ok request)
      × (web.send request ≡ ok response)
      × (200 ≤ response.status)
      × (response.status ≤ 299)

  interpret_ok :
      (url : Text) (later : Time) (response : Response)
      → interpret web url later response ≡ ok tt
      → (200 ≤ response.status) × (response.status ≤ 299)
  unfolding interpret
  interpret_ok url later response h = ground arith

  interpret_success :
      (url : Text) (later : Time) (response : Response)
      → 200 ≤ response.status
      → response.status ≤ 299
      → interpret web url later response ≡ ok tt
  unfolding interpret
  interpret_success url later response lo hi = ground arith

  deliver_only_if :
      (target : CallbackTarget) (event : EventForDelivery) (now later : Time)
      → deliver web crypto keyring target event now later ≡ ok tt
      → IsAccepted target event now
  unfolding deliver
  deliver_only_if target event now later h =
      elim (Result-cases (build_request web crypto keyring target event now)) [
        | inr (e, failed) ↦ absurd (never (rw (failed, deliver) at h))
        | inl (request, built) ↦
            let sent = rw (built, deliver) at h in
            elim (Result-cases (web.send request)) [
              | inr (e, failed) ↦ absurd (never (rw failed at sent))
              | inl (response, answered) ↦
                  let ends = rw answered at sent in
                  let (lo, hi) = interpret_ok target.url later response ends in
                  (request, response, built, answered, lo, hi)
            ]
      ]
    where
      never : {e : CallbackError} → ◌≡◌ {A = Result CallbackError (Unit {0})} (err e) (ok tt) → ⊥
      never h = cc

  -- A delivery succeeds exactly where the request could be built, the receiver answered, and its
  -- status is 200 to 299.
  pub deliver_iff :
      (target : CallbackTarget) (event : EventForDelivery) (now later : Time)
      → (deliver web crypto keyring target event now later ≡ ok tt) ↔ IsAccepted target event now
  unfolding deliver
  deliver_iff target event now later = (
    deliver_only_if target event now later,
    λ (request, response, built, answered, lo, hi).
        rw (built, deliver) (rw answered (interpret_success target.url later response lo hi)),
  )
