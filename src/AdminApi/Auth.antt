-- ===== src/AdminApi/Auth.antt =====
-- The bearer token: crates/admin-api/src/auth.rs.
use outbox_dispatcher.Base.{Bool, false, ◌&&◌, Option, none, some}
use outbox_dispatcher.Text.{Text, chars, bytes, text_eq, to_ascii_lowercase}
use outbox_dispatcher.Text.Parsing.{split_once}

-- The scheme in any case, and the token byte for byte.
unfoldable pub accepts : Text → Option (Text × Text) → Bool
accepts expected none = false
accepts expected (some (scheme, provided)) =
    text_eq (to_ascii_lowercase scheme) (chars "bearer")
    && text_eq (bytes provided) (bytes expected)

-- `authorised`: the argument is the value of the header Authorization, where there is one that is
-- visible ASCII.
unfoldable pub is_authorised : Text → Option Text → Bool
is_authorised expected none = false
is_authorised expected (some value) = accepts expected (split_once b' ' value)
