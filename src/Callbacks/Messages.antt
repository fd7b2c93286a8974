-- ===== src/Callbacks/Messages.antt =====
-- The error texts of the validation, which reach `outbox_deliveries.last_error`.
use outbox_dispatcher.Base.{ℕ, Bool, if◌then◌else◌, ◌++◌}
use outbox_dispatcher.Text.{Text, chars, show}

pub root : Text
root = chars "<root>"

-- `format!("[{index}]")`.
unfoldable pub positional : ℕ → Text
positional i = chars "[" ++ (show i ++ chars "]")

pub not_array_text : Text
not_array_text = chars "invalid_callback: top-level callbacks value is not a JSON array"

pub too_many_text : ℕ → ℕ → Text
too_many_text n limit =
    chars "invalid_callback: too many callbacks in event ("
    ++ (show n ++ (chars "); max is " ++ show limit))

pub duplicate_name_text : Text
duplicate_name_text = chars "invalid_callback: duplicate callback name within event"

unfoldable pub payload_too_large_error : ℕ → ℕ → Text
payload_too_large_error actual limit =
    chars "source_payload_too_large: "
    ++ (show actual
        ++ (chars " bytes > "
            ++ (show limit ++ chars " bytes (rejected by dispatcher before send)")))

pub not_an_object_text : Text
not_an_object_text = chars "invalid_callback: element is not an object"

pub missing_name_text : Text
missing_name_text = chars "invalid_callback: missing required field 'name'"

pub name_not_string_text : Text
name_not_string_text = chars "invalid_callback: 'name' must be a string"

pub name_invalid_text : Text
name_invalid_text = chars "invalid_callback: name must match ^[a-z][a-z0-9_]{2,63}$"

pub missing_url_text : Text
missing_url_text = chars "invalid_callback: missing required field 'url'"

pub url_not_string_text : Text
url_not_string_text = chars "invalid_callback: 'url' must be a string"

pub missing_signing_key_text : Text
missing_signing_key_text =
    chars
      "invalid_callback: missing required field 'signing_key_id' (set allow_unsigned_callbacks=true to omit)"

pub external_missing_timeout_text : Text
external_missing_timeout_text =
    chars "invalid_callback: mode='external' requires 'external_completion_timeout_seconds'"

pub url_malformed_text : Text → Text
url_malformed_text url =
    chars "invalid_callback: url '" ++ (url ++ chars "' is structurally malformed")

pub url_userinfo_text : Text → Text
url_userinfo_text url =
    chars "invalid_callback: url '"
    ++ (url ++ chars "' must not contain userinfo (username/password)")

pub url_scheme_text : Bool → Text → Text
url_scheme_text allow_insecure url =
    if allow_insecure
    then chars "invalid_callback: url must use http:// or https:// scheme; got '"
      ++ (url ++ chars "'")
    else chars "invalid_callback: url must use https:// scheme; got '" ++ (url ++ chars "'")

pub url_no_host_text : Text → Text
url_no_host_text url = chars "invalid_callback: url '" ++ (url ++ chars "' has no host")

pub url_private_text : Text → Text
url_private_text url =
    chars "invalid_callback: url '"
    ++ (url
        ++ chars
            "' targets a private or loopback address (set allow_private_ip_targets=true to allow local targets)")

pub invalid_mode_text : Text → Text
invalid_mode_text other =
    chars "invalid_callback: mode must be 'managed' or 'external'; got '" ++ (other ++ chars "'")

pub headers_not_object_text : Text
headers_not_object_text = chars "invalid_callback: headers must be a JSON object"

pub header_name_text : Text → Text
header_name_text k =
    chars "invalid_callback: header name '" ++ (k ++ chars "' contains invalid characters")

pub header_reserved_text : Text → Text
header_reserved_text k =
    chars "invalid_callback: header '" ++ (k ++ chars "' is reserved and cannot be set")

pub header_duplicate_text : Text → Text
header_duplicate_text k =
    chars "invalid_callback: header '"
    ++ (k ++ chars "' is a duplicate (header names are case-insensitive)")

pub header_not_string_text : Text → Text
header_not_string_text k =
    chars "invalid_callback: header '" ++ (k ++ chars "' value must be a string")

pub header_value_text : Text → Text
header_value_text k =
    chars "invalid_callback: header '"
    ++ (k
        ++ chars
            "' value contains illegal characters (control characters and non-ASCII bytes are not allowed)")

-- `"invalid_callback: {field} must be a positive integer"`.
pub not_integer_text : Text → Text
not_integer_text field =
    chars "invalid_callback: " ++ (field ++ chars " must be a positive integer")

-- `"invalid_callback: {field} must be between 1 and {limit}; got {n}"`.
pub out_of_range_text : Text → ℕ → ℕ → Text
out_of_range_text field limit n =
    chars "invalid_callback: "
    ++ (field ++ (chars " must be between 1 and " ++ (show limit ++ (chars "; got " ++ show n))))

pub backoff_not_array_text : Text
backoff_not_array_text = chars "invalid_callback: backoff_seconds must be an array"

pub backoff_empty_text : Text
backoff_empty_text = chars "invalid_callback: backoff_seconds must not be empty"

pub backoff_element_text : Text
backoff_element_text = chars "invalid_callback: backoff_seconds elements must be positive integers"

pub backoff_zero_text : Text
backoff_zero_text = chars "invalid_callback: backoff_seconds elements must be > 0"

pub backoff_range_text : ℕ → ℕ → Text
backoff_range_text limit n =
    chars "invalid_callback: backoff_seconds elements must be <= "
    ++ (show limit ++ (chars "; got " ++ show n))
