-- ===== src/Callbacks/Headers.antt =====
-- `parse_headers` with the header-name syntax and the reserved names.
pub mod Safety
use outbox_dispatcher.Base.{
  ℕ, Bool, true, false, not, ◌&&◌, ◌||◌, Option, none, some, List, [], ◌∷◌, leb, ltb, ◌==◌,
  if◌then◌else◌, is_empty, all, any, Result, ok, err, ok_or, fail_if, ◌>>=◌, ◌>>◌,
}
use outbox_dispatcher.Text.{
  Text, chars, bytes, text_eq, contains, to_ascii_lowercase, starts_with, is_ascii_lowercase,
  is_ascii_uppercase, is_ascii_digit,
}
use outbox_dispatcher.Json.{Value, as_object, as_str}
use outbox_dispatcher.Callbacks.Reason.{
  InvalidReason, headers_not_object, header_name_invalid, header_reserved, header_duplicate,
  header_value_invalid,
}
use outbox_dispatcher.Callbacks.Messages.{
  headers_not_object_text, header_name_text, header_reserved_text, header_duplicate_text,
  header_not_string_text, header_value_text,
}

-- RFC 7230 tchar.
unfoldable pub is_tchar : ℕ → Bool
is_tchar b =
    b == b'!'
    || b == b'#'
    || b == b'$'
    || b == b'%'
    || b == b'&'
    || b == 39
    || b == b'*'
    || b == b'+'
    || b == b'-'
    || b == b'.'
    || b == b'^'
    || b == b'_'
    || b == 96
    || b == b'|'
    || b == b'~'
    || is_ascii_digit b
    || is_ascii_uppercase b
    || is_ascii_lowercase b

unfoldable pub is_valid_header_name : Text → Bool
is_valid_header_name name = not (is_empty name) && all is_tchar (bytes name)

abbrev reserved_headers : List Text
reserved_headers =
    chars "authorization"
    ∷ chars "cookie"
    ∷ chars "host"
    ∷ chars "content-length"
    ∷ chars "content-type"
    ∷ chars "transfer-encoding"
    ∷ chars "connection"
    ∷ chars "upgrade"
    ∷ chars "expect"
    ∷ chars "te"
    ∷ chars "trailer"
    ∷ chars "proxy-authorization"
    ∷ []

-- Of a name in lower case.
unfoldable pub is_reserved : Text → Bool
is_reserved k_lower = contains reserved_headers k_lower || starts_with k_lower (chars "x-outbox-")

-- A byte that a header value must not hold.
unfoldable pub illegal_byte : ℕ → Bool
illegal_byte b = ltb b 0x20 && not (b == 9) || leb 0x7f b

abbrev pub Headers : Type 0
Headers = List (Text × Text)

-- `HashMap::insert`.
unfoldable pub insert : Text → Text → Headers → Headers
insert k v [] = (k, v) ∷ []
insert k v ((j, w) ∷ hs) = if text_eq j k then (k, v) ∷ hs else (j, w) ∷ insert k v hs

-- One round of the loop: the value that may be inserted under `k`.
unfoldable pub check_header : List Text → Text → Value → Result (InvalidReason × Text) Text
check_header seen_lower k v = do
  fail_if (not (is_valid_header_name k)) (header_name_invalid, header_name_text k)
  let k_lower = to_ascii_lowercase k
  fail_if (is_reserved k_lower) (header_reserved, header_reserved_text k)
  fail_if (contains seen_lower k_lower) (header_duplicate, header_duplicate_text k)
  val_str ← ok_or (as_str v) (header_value_invalid, header_not_string_text k)
  fail_if (any illegal_byte (bytes val_str)) (header_value_invalid, header_value_text k)
  ok val_str

-- The loop over the members, with `headers` and `seen_lower`.
unfoldable pub header_loop :
    List (Text × Value) → Headers → List Text → Result (InvalidReason × Text) Headers
header_loop [] headers seen_lower = ok headers
header_loop ((k, v) ∷ rest) headers seen_lower = check_header seen_lower k v >>= λ val_str.
    header_loop rest (insert k val_str headers) (to_ascii_lowercase k ∷ seen_lower)

unfoldable pub parse_headers : Option Value → Result (InvalidReason × Text) Headers
parse_headers none = ok []
parse_headers (some v) = do
  obj ← ok_or (as_object v) (headers_not_object, headers_not_object_text)
  header_loop obj [] []
