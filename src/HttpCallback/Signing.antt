-- ===== src/HttpCallback/Signing.antt =====
-- Signatures of webhooks: crates/http-callback/src/signing.rs. HMAC-SHA256 and the hex codec are
-- parameters.
pub mod RoundTrip
use outbox_dispatcher.Base.{
  ℕ, ◌-◌, ◌/◌, ◌<◌, ◌≡◌, ◌↔◌, Bool, true, false, Option, none, some, List, [], ◌∷◌, ◌++◌, ltb, leb,
  if◌then◌else◌, ◌&&◌, ◌||◌, All,
}
use outbox_dispatcher.Text.{Text, chars, bytes, show, is_ascii_digit}
use outbox_dispatcher.Text.Parsing.{split, trim, strip_prefix, parse_u64}
use outbox_dispatcher.Schema.{Duration}

-- Each byte is an octet.
abbrev pub Octets : List ℕ → Type 0
Octets = All (λ b. b < 256)

abbrev pub is_hex_digit : ℕ → Bool
is_hex_digit c = is_ascii_digit c || (leb b'a' c && leb c b'f')

-- The crates `hmac` with `sha2`, and `hex`, with what they document: a digest consists of octets,
-- `verify_slice` accepts that digest and no other, and a digest that is encoded, in hexadecimal
-- digits, is decoded to itself.
pub record Crypto : Type 0 where
  pub finalize : List ℕ → List ℕ → List ℕ
  pub verify_slice : List ℕ → List ℕ → List ℕ → Bool
  pub encode : List ℕ → Text
  pub decode : Text → Option (List ℕ)
  pub finalize-Octets : (secret message : List ℕ) → Octets (finalize secret message)
  pub verify_slice_iff :
      (secret message tag : List ℕ)
      → (verify_slice secret message tag ≡ true) ↔ (tag ≡ finalize secret message)
  pub encode_digits : (bs : List ℕ) → All (λ c. is_hex_digit c ≡ true) (encode bs)
  pub decode-encode : (bs : List ℕ) → Octets bs → decode (encode bs) ≡ some bs

-- What is signed: `mac.update(format!("{timestamp_secs}.").as_bytes()); mac.update(body)`.
abbrev pub signed : ℕ → List ℕ → List ℕ
signed timestamp_secs body = bytes (show timestamp_secs ++ chars ".") ++ body

parse_t_parts : List Text → Option ℕ
parse_t_parts [] = none
parse_t_parts (part ∷ parts) = elim (strip_prefix (trim part) (chars "t=")) [
  | some ts ↦ parse_u64 ts
  | none ↦ parse_t_parts parts
]

pub parse_t_field : Text → Option ℕ
unfolding parse_t_parts
parse_t_field header_value = parse_t_parts (split b',' header_value)

parse_v1_parts : List Text → Option Text
parse_v1_parts [] = none
parse_v1_parts (part ∷ parts) = elim (strip_prefix (trim part) (chars "v1=")) [
  | some hex ↦ some hex
  | none ↦ parse_v1_parts parts
]

pub parse_v1_digest : Text → Option Text
unfolding parse_v1_parts
parse_v1_digest header_value = parse_v1_parts (split b',' header_value)

module _ (c : Crypto) where
  unfoldable pub sign : List ℕ → ℕ → List ℕ → Text
  sign secret timestamp_secs body =
      chars "t="
      ++ (show timestamp_secs
          ++ (chars ",v1=" ++ c.encode (c.finalize secret (signed timestamp_secs body))))

  verify : List ℕ → ℕ → List ℕ → Text → Bool
  unfolding parse_v1_digest
  verify secret timestamp_secs body header_value = elim (parse_v1_digest header_value) [
    | none ↦ false
    | some hex_digest ↦ elim (c.decode hex_digest) [
      | none ↦ false
      | some decoded ↦ c.verify_slice secret (signed timestamp_secs body) decoded
    ]
  ]

  -- `now` is the clock in seconds since the epoch; the subtraction saturates.
  unfoldable pub verify_header : ℕ → List ℕ → List ℕ → Text → Duration → Bool
  unfolding parse_t_field verify
  verify_header now secret body header_value max_age = elim (parse_t_field header_value) [
    | none ↦ false
    | some ts ↦
        if ltb (max_age / 1_000_000_000) (now - ts)
        then false
        else verify secret ts body header_value
  ]
