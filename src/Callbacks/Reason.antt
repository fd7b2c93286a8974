-- ===== src/Callbacks/Reason.antt =====
-- `InvalidReason` and its Prometheus label.
use outbox_dispatcher.Text.{Text, chars}

pub data InvalidReason : Type 0 where
  not_array : InvalidReason
  too_many_callbacks : InvalidReason
  not_an_object : InvalidReason
  missing_name : InvalidReason
  name_not_string : InvalidReason
  name_invalid : InvalidReason
  missing_url : InvalidReason
  url_not_string : InvalidReason
  url_malformed : InvalidReason
  url_has_userinfo : InvalidReason
  url_bad_scheme : InvalidReason
  url_no_host : InvalidReason
  url_private_host : InvalidReason
  missing_signing_key_id : InvalidReason
  invalid_mode : InvalidReason
  headers_not_object : InvalidReason
  header_name_invalid : InvalidReason
  header_reserved : InvalidReason
  header_duplicate : InvalidReason
  header_value_invalid : InvalidReason
  max_attempts_not_integer : InvalidReason
  max_attempts_out_of_range : InvalidReason
  backoff_not_array : InvalidReason
  backoff_empty : InvalidReason
  backoff_element_invalid : InvalidReason
  backoff_element_out_of_range : InvalidReason
  timeout_not_integer : InvalidReason
  timeout_out_of_range : InvalidReason
  external_timeout_not_integer : InvalidReason
  external_timeout_out_of_range : InvalidReason
  max_completion_cycles_not_integer : InvalidReason
  max_completion_cycles_out_of_range : InvalidReason
  external_missing_timeout : InvalidReason
  duplicate_name : InvalidReason
  other : InvalidReason

unfoldable metric_label : InvalidReason → Text
metric_label not_array = chars "not_array"
metric_label too_many_callbacks = chars "too_many_callbacks"
metric_label not_an_object = chars "not_an_object"
metric_label missing_name = chars "missing_name"
metric_label name_not_string = chars "name_not_string"
metric_label name_invalid = chars "name_invalid"
metric_label missing_url = chars "missing_url"
metric_label url_not_string = chars "url_not_string"
metric_label url_malformed = chars "url_malformed"
metric_label url_has_userinfo = chars "url_has_userinfo"
metric_label url_bad_scheme = chars "url_bad_scheme"
metric_label url_no_host = chars "url_no_host"
metric_label url_private_host = chars "url_private_host"
metric_label missing_signing_key_id = chars "missing_signing_key_id"
metric_label invalid_mode = chars "invalid_mode"
metric_label headers_not_object = chars "headers_not_object"
metric_label header_name_invalid = chars "header_name_invalid"
metric_label header_reserved = chars "header_reserved"
metric_label header_duplicate = chars "header_duplicate"
metric_label header_value_invalid = chars "header_value_invalid"
metric_label max_attempts_not_integer = chars "max_attempts_not_integer"
metric_label max_attempts_out_of_range = chars "max_attempts_out_of_range"
metric_label backoff_not_array = chars "backoff_not_array"
metric_label backoff_empty = chars "backoff_empty"
metric_label backoff_element_invalid = chars "backoff_element_invalid"
metric_label backoff_element_out_of_range = chars "backoff_element_out_of_range"
metric_label timeout_not_integer = chars "timeout_not_integer"
metric_label timeout_out_of_range = chars "timeout_out_of_range"
metric_label external_timeout_not_integer = chars "external_timeout_not_integer"
metric_label external_timeout_out_of_range = chars "external_timeout_out_of_range"
metric_label max_completion_cycles_not_integer = chars "max_completion_cycles_not_integer"
metric_label max_completion_cycles_out_of_range = chars "max_completion_cycles_out_of_range"
metric_label external_missing_timeout = chars "external_missing_timeout"
metric_label duplicate_name = chars "duplicate_name"
metric_label other = chars "other"
