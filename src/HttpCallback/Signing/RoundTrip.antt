-- ===== src/HttpCallback/Signing/RoundTrip.antt =====
-- What is signed verifies, and what verifies is signed.
use outbox_dispatcher.Base.{
  ℕ, ◌-◌, ◌/◌, ◌≤◌, ◌≡◌, ◌∙◌, ap, true, false, some, List, ◌++◌, arith, ltb, Option-cases, inl, inr,
  Bool-cases,
}
use outbox_dispatcher.Text.{Text, chars, show}
use outbox_dispatcher.Schema.{Duration}
use outbox_dispatcher.HttpCallback.Signing.{
  Crypto, signed, parse_t_field, parse_v1_digest, verify, verify_header,
}

t_part : ℕ → Text
t_part ts = chars "t=" ++ show ts

v1_part : Text → Text
v1_part hex = chars "v1=" ++ hex

module _ (c : Crypto) where
  verify_sound :
      (secret : List ℕ) (ts : ℕ) (body : List ℕ) (header_value : Text)
      → verify c secret ts body header_value ≡ true
      → (hex : Text) × (parse_v1_digest header_value ≡ some hex)
        × (c.decode hex ≡ some (c.finalize secret (signed ts body)))
  unfolding verify
  verify_sound secret ts body header_value valid =
      elim (Option-cases (parse_v1_digest header_value)) [
        | inl missing ↦ let e : false ≡ true = rw (missing, verify) at valid in absurd (cc)
        | inr (hex, v1) ↦
            let found = rw (v1, verify) at valid in
            elim (Option-cases (c.decode hex)) [
              | inl garbled ↦ let e : false ≡ true = rw garbled at found in absurd (cc)
              | inr (tag, d) ↦
                  let same : c.verify_slice secret (signed ts body) tag ≡ true = rw d at found in
                  (hex, v1, d ∙ ap some ((c.verify_slice_iff secret (signed ts body) tag).0 same))
            ]
      ]

  -- A header that is accepted names a time no older than the receiver allows, and the digest of this
  -- time and this body under the secret.
  pub verify_header_sound :
      (now : ℕ) (secret body : List ℕ) (header_value : Text) (max_age : Duration)
      → verify_header c now secret body header_value max_age ≡ true
      → (ts : ℕ) × (hex : Text) × (parse_t_field header_value ≡ some ts)
        × (now - ts ≤ max_age / 1_000_000_000)
        × (parse_v1_digest header_value ≡ some hex)
        × (c.decode hex ≡ some (c.finalize secret (signed ts body)))
  unfolding verify_header verify
  verify_header_sound now secret body header_value max_age accepted =
      elim (Option-cases (parse_t_field header_value)) [
        | inl missing ↦
            let e : false ≡ true = rw (missing, verify_header) at accepted in absurd (cc)
        | inr (ts, t) ↦
            let in_time = rw (t, verify_header) at accepted in
            elim (Bool-cases (ltb (max_age / 1_000_000_000) (now - ts))) [
              | inl old ↦ let e : false ≡ true = rw old at in_time in absurd (cc)
              | inr young ↦
                  let valid : verify c secret ts body header_value ≡ true = rw young at in_time in
                  let (hex, v1, decoded) = verify_sound secret ts body header_value valid in
                  (ts, hex, t, ground arith, v1, decoded)
            ]
      ]
