-- ===== src/Repo/Error.antt =====
-- crates/core/src/error.rs.
use outbox_dispatcher.Base.{◌++◌}
use outbox_dispatcher.Text.{Text, chars}

pub data Error : Type 0 where
  database : Text → Error
  serialization : Text → Error
  callback_target_missing : Text → Error
  invalid_data : Text → Error

-- `impl Display`.
unfoldable pub display : Error → Text
display (database e) = chars "database error: " ++ e
display (serialization e) = chars "serialization error: " ++ e
display (callback_target_missing e) = chars "Callback target missing: " ++ e
display (invalid_data e) = chars "Invalid data: " ++ e
