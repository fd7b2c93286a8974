-- ===== src/Tests/Addresses.antt =====
-- URLs, truncation and retry times, run.
use outbox_dispatcher.Base.{◌≡◌, refl, true, false, some, [], ◌∷◌, Ensures, arith}
use outbox_dispatcher.Callbacks.Url.{
  Url, Ipv4Addr, ipv4, ipv6, is_private_host, validate_url, v4_is_denied,
}
use outbox_dispatcher.Callbacks.Url.Guard.{
  IsAllowedUrl, mapped, validate_url-Ensures, mapped-denied,
}
use outbox_dispatcher.Repo.Truncate.{truncate_at_char_boundary}
use outbox_dispatcher.Repo.Truncate.Longest.{longest_prefix, truncate-eq-longest_prefix}
use outbox_dispatcher.Tests.Data.{parse_url, url_text}

validate_url-Ensures_example :
    Ensures
      (λ _. (u : Url) × (parse_url url_text ≡ some u) × IsAllowedUrl u false false)
      (validate_url parse_url url_text false false)
validate_url-Ensures_example = validate_url-Ensures parse_url url_text false false

-- 10.0.0.7.
abbrev private_v4 : Ipv4Addr
private_v4 = record { a = 10; b = 0; c = 0; d = 7 }

private_v4_is_private : is_private_host (ipv4 private_v4) ≡ true
unfolding is_private_host v4_is_denied
private_v4_is_private = refl

mapped-denied_example : is_private_host (ipv6 (mapped private_v4)) ≡ true
mapped-denied_example = mapped-denied private_v4 (omega arith) (omega arith) private_v4_is_private

-- A text of a one-byte and a three-byte char, cut in the middle of the second.
truncate-eq-longest_prefix_example :
    truncate_at_char_boundary (97 ∷ 8364 ∷ []) 2 ≡ longest_prefix (97 ∷ 8364 ∷ []) 2
truncate-eq-longest_prefix_example = truncate-eq-longest_prefix (97 ∷ 8364 ∷ []) 2
