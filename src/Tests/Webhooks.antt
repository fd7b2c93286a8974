-- ===== src/Tests/Webhooks.antt =====
-- Webhooks are signed, sent and verified, with a stand-in for HMAC and a hex codec.
use outbox_dispatcher.Base.{
  ℕ, ◌+◌, ◌-◌, ◌*◌, ◌/◌, ◌%◌, ◌≤◌, ◌<◌, ◌≡◌, refl, ap, ◌∙◌, true, Option, none, some, List, [], ◌∷◌,
  ◌++◌, length, ltb, if◌then◌else◌, All, ok, arith,
}
use outbox_dispatcher.Text.Parsing.{split, strip_prefix, trim, is_whitespace, parse_u64}
use outbox_dispatcher.Text.{Text, chars, bytes, show, text_eq, text_eq_iff}
use outbox_dispatcher.Schema.{managed, from_secs, EventForDelivery}
use outbox_dispatcher.Json.{null}
use outbox_dispatcher.Keyring.{KeyRing, with_key}
use outbox_dispatcher.HttpCallback.{Web, Request, event_headers}
use outbox_dispatcher.HttpCallback.Signing.{
  Crypto, Octets, is_hex_digit, sign, signed, verify_header, parse_t_field, parse_v1_digest,
}
use outbox_dispatcher.HttpCallback.Signing.RoundTrip.{verify_header_sound}
use outbox_dispatcher.Tests.Data.{billing}

abbrev hex_digit : ℕ → ℕ
hex_digit n = if ltb n 10 then b'0' + n else b'a' + (n - 10)

abbrev from_hex : ℕ → ℕ
from_hex c = if ltb c b'a' then c - b'0' else c - b'a' + 10

encode : List ℕ → Text
encode [] = []
encode (b ∷ bs) = hex_digit (b / 16 % 16) ∷ hex_digit (b % 16) ∷ encode bs

abbrev add_octet : ℕ → Option (List ℕ) → Option (List ℕ)
add_octet b none = none
add_octet b (some bs) = some (b ∷ bs)

decode : Text → Option (List ℕ)
decode [] = some []
decode (c ∷ []) = none
decode (c ∷ d ∷ s) = add_octet (from_hex c * 16 + from_hex d) (decode s)

hex_digit_hex : (n : ℕ) → n < 16 → is_hex_digit (hex_digit n) ≡ true
hex_digit_hex n h = ground arith

from_hex-hex_digit : (n : ℕ) → n < 16 → from_hex (hex_digit n) ≡ n
from_hex-hex_digit n h = ground arith

encode_digits : (bs : List ℕ) → All (λ c. is_hex_digit c ≡ true) (encode bs)
unfolding encode
encode_digits [] = tt
encode_digits (b ∷ bs) = (
  hex_digit_hex (b / 16 % 16) (omega arith),
  (hex_digit_hex (b % 16) (omega arith), encode_digits bs),
)

decode-encode : (bs : List ℕ) → Octets bs → decode (encode bs) ≡ some bs
unfolding encode decode
decode-encode [] h = refl
decode-encode (b ∷ bs) h =
    let octet : from_hex (hex_digit (b / 16 % 16)) * 16 + from_hex (hex_digit (b % 16)) ≡ b =
      omega (
        arith,
        h.0,
        from_hex-hex_digit (b / 16 % 16) (omega arith),
        from_hex-hex_digit (b % 16) (omega arith),
      ) in
    ap (add_octet _) (decode-encode bs h.1) ∙ ap (λ n. some (n ∷ bs)) octet

-- One octet in place of a digest.
abbrev finalize : List ℕ → List ℕ → List ℕ
finalize secret message = ((length secret + 3 * length message) % 256) ∷ []

finalize-Octets : (secret message : List ℕ) → Octets (finalize secret message)
finalize-Octets secret message = (omega arith, tt)

abbrev crypto : Crypto
crypto = record {
  finalize = finalize;
  verify_slice = λ secret message tag. text_eq tag (finalize secret message);
  encode = encode;
  decode = decode;
  finalize-Octets = finalize-Octets;
  verify_slice_iff = λ secret message tag. text_eq_iff tag (finalize secret message);
  encode_digits = encode_digits;
  decode-encode = decode-encode;
}

abbrev secret : List ℕ
secret = 7 ∷ 8 ∷ 9 ∷ []

abbrev body : List ℕ
body = 123 ∷ 125 ∷ []

-- The stand-in's octet for time 1000: 3 for the secret, and 3 for each of the 7 octets signed.
abbrev header : Text
header = chars "t=1000,v1=18"

accepted : verify_header crypto 1300 secret body header (from_secs 300) ≡ true
unfolding verify_header split strip_prefix trim is_whitespace parse_u64 decode text_eq bytes show
accepted = refl

verify_header_sound_example :
    (ts : ℕ) × (hex : Text) × (parse_t_field header ≡ some ts)
    × (1300 - ts ≤ from_secs 300 / 1_000_000_000)
    × (parse_v1_digest header ≡ some hex)
    × (decode hex ≡ some (finalize secret (signed ts body)))
verify_header_sound_example =
    verify_header_sound crypto 1300 secret body header (from_secs 300) accepted

abbrev keyring : KeyRing
keyring = with_key (chars "key") secret

abbrev web : Web
web = record {
  to_vec = λ _. ok body;
  show_uuid = show;
  show_time = show;
  parse_http_date = λ _. none;
  send = λ _. ok (record { status = 204; retry_after = none });
}

abbrev event : EventForDelivery
event = record {
  delivery_id = 1;
  event_id = 700;
  kind = chars "paid";
  callback_name = billing;
  mode = managed;
  aggregate_type = chars "order";
  aggregate_id = 9;
  payload = null;
  metadata = null;
  actor_id = none;
  correlation_id = none;
  causation_id = none;
  created_at = 1000;
  attempt = 1;
}

abbrev request : Request
request = record {
  url = chars "https://a.io/h";
  timeout = from_secs 30;
  headers =
      event_headers web event
      ++ (chars "X-Outbox-Signing-Key-Id", chars "key")
        ∷ (chars "X-Outbox-Signature", sign crypto secret 2 body)
        ∷ [];
  body = body;
}
