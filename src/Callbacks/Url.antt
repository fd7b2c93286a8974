-- ===== src/Callbacks/Url.antt =====
-- `validate_url` and the SSRF denylist. `Url::parse` is the `url` crate's: it is a parameter.
pub mod Guard
use outbox_dispatcher.Base.{
  ℕ, ◌+◌, ◌*◌, ◌/◌, ◌%◌, Bool, true, false, not, ◌&&◌, ◌||◌, Option, none, some, [], ◌∷◌, leb, ltb,
  ◌==◌, if◌then◌else◌, is_some, is_empty, Result, ok, err, ok_or, fail_if, ◌>>=◌, ◌>>◌,
}
use outbox_dispatcher.Text.{Text, chars, text_eq, to_ascii_lowercase, ends_with, trim_end_matches}
use outbox_dispatcher.Callbacks.Reason.{
  InvalidReason, url_malformed, url_has_userinfo, url_bad_scheme, url_no_host, url_private_host,
}
use outbox_dispatcher.Callbacks.Messages.{
  url_malformed_text, url_userinfo_text, url_scheme_text, url_no_host_text, url_private_text,
}

-- `std::net::Ipv4Addr` by its octets, `Ipv6Addr` by its segments.
pub record Ipv4Addr : Type 0 where
  pub a : ℕ
  pub b : ℕ
  pub c : ℕ
  pub d : ℕ

pub record Ipv6Addr : Type 0 where
  pub s0 : ℕ
  pub s1 : ℕ
  pub s2 : ℕ
  pub s3 : ℕ
  pub s4 : ℕ
  pub s5 : ℕ
  pub s6 : ℕ
  pub s7 : ℕ

pub data Host : Type 0 where
  ipv4 : Ipv4Addr → Host
  ipv6 : Ipv6Addr → Host
  domain : Text → Host

-- What the program reads of a parsed `url::Url`.
pub record Url : Type 0 where
  pub username : Text
  pub password : Option Text
  pub scheme : Text
  pub host : Option Host

-- 127/8; 10/8, 172.16/12 and 192.168/16; 169.254/16; 0.0.0.0.
abbrev pub v4_is_loopback : Ipv4Addr → Bool
v4_is_loopback ip = ip.a == 127

abbrev pub v4_is_private : Ipv4Addr → Bool
v4_is_private ip =
    ip.a == 10 || (ip.a == 172 && (leb 16 ip.b && leb ip.b 31)) || (ip.a == 192 && ip.b == 168)

abbrev pub v4_is_link_local : Ipv4Addr → Bool
v4_is_link_local ip = ip.a == 169 && ip.b == 254

abbrev pub v4_is_unspecified : Ipv4Addr → Bool
v4_is_unspecified ip = ip.a == 0 && (ip.b == 0 && (ip.c == 0 && ip.d == 0))

-- The four tests that both address families share.
unfoldable pub v4_is_denied : Ipv4Addr → Bool
v4_is_denied ip =
    v4_is_loopback ip || v4_is_private ip || v4_is_link_local ip || v4_is_unspecified ip

-- `Ipv6Addr::to_ipv4`: ::a.b.c.d and ::ffff:a.b.c.d.
unfoldable pub to_ipv4 : Ipv6Addr → Option Ipv4Addr
to_ipv4 ip =
    if (ip.s0 == 0 && (ip.s1 == 0 && (ip.s2 == 0 && (ip.s3 == 0 && ip.s4 == 0))))
      && (ip.s5 == 0 || ip.s5 == 0xffff)
    then some (record { a = ip.s6 / 256; b = ip.s6 % 256; c = ip.s7 / 256; d = ip.s7 % 256 })
    else none

abbrev pub v6_prefix_zero : Ipv6Addr → Bool
v6_prefix_zero ip =
    ip.s0 == 0
    && (ip.s1 == 0 && (ip.s2 == 0 && (ip.s3 == 0 && (ip.s4 == 0 && (ip.s5 == 0 && ip.s6 == 0)))))

-- `is_loopback` (::1), `is_unspecified` (::), `is_unique_local` (fc00::/7), `is_unicast_link_local`
-- (fe80::/10); a mask of the high bits is a division.
unfoldable pub v6_is_denied : Ipv6Addr → Bool
v6_is_denied ip =
    (v6_prefix_zero ip && ip.s7 == 1)
    || (v6_prefix_zero ip && ip.s7 == 0)
    || ip.s0 / 512 == 126
    || ip.s0 / 64 == 1018

unfoldable pub is_blocked_domain : Text → Bool
is_blocked_domain d =
    let lower = to_ascii_lowercase (trim_end_matches d b'.') in
    text_eq lower (chars "localhost")
    || ends_with lower (chars ".local")
    || ends_with lower (chars ".localhost")
    || ends_with lower (chars ".internal")
    || ends_with lower (chars ".lan")
    || ends_with lower (chars ".home.arpa")

-- The IPv4 address inside an IPv6 one, if any, is denied.
unfoldable pub embedded_is_denied : Option Ipv4Addr → Bool
embedded_is_denied none = false
embedded_is_denied (some v4) = v4_is_denied v4

unfoldable pub is_private_host : Host → Bool
unfolding embedded_is_denied
is_private_host (ipv4 ip) = v4_is_denied ip
is_private_host (ipv6 ip) = if embedded_is_denied (to_ipv4 ip) then true else v6_is_denied ip
is_private_host (domain d) = is_blocked_domain d

-- The `match (scheme, allow_insecure)`.
unfoldable pub scheme_allowed : Text → Bool → Bool
scheme_allowed scheme allow_insecure =
    text_eq scheme (chars "https") || (text_eq scheme (chars "http") && allow_insecure)

unfoldable pub validate_url :
    (Text → Option Url) → Text → Bool → Bool → Result (InvalidReason × Text) (Unit {0})
validate_url parse_url url_str allow_insecure allow_private_ip_targets = do
  parsed ← ok_or (parse_url url_str) (url_malformed, url_malformed_text url_str)
  fail_if (not (is_empty parsed.username) || is_some parsed.password)
      (url_has_userinfo, url_userinfo_text url_str)
  fail_if (not (scheme_allowed parsed.scheme allow_insecure))
      (url_bad_scheme, url_scheme_text allow_insecure url_str)
  host ← ok_or parsed.host (url_no_host, url_no_host_text url_str)
  fail_if (not allow_private_ip_targets && is_private_host host)
      (url_private_host, url_private_text url_str)
  ok tt
