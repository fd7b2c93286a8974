-- ===== src/Callbacks/Url/Guard.antt =====
-- What a URL that passes is, and that the denylist cannot be evaded by spelling.
use outbox_dispatcher.Base.{
  ℕ, ◌+◌, ◌*◌, ◌/◌, ◌%◌, ◌<◌, ◌≡◌, refl, ◌⊎◌, inl, inr, Bool, true, false, not, ◌&&◌, ◌||◌, Option,
  none, some, [], ◌∷◌, ◌++◌, arith, is_empty, is_some, Ensures, returns, bind-Ensures,
  ok_or-Ensures, fail_if-Ensures, ◌==◌,
}
use outbox_dispatcher.Text.{
  Text, chars, text_eq_iff, to_ascii_lower, to_ascii_lowercase, trim_end_matches,
}
use outbox_dispatcher.Callbacks.Url.{
  Ipv4Addr, Ipv6Addr, Host, ipv4, ipv6, Url, v4_is_denied, to_ipv4, is_blocked_domain,
  embedded_is_denied, is_private_host, scheme_allowed, validate_url,
}

-- A URL without userinfo, of an allowed scheme, to a host that is public unless private ones are
-- allowed.
pub record IsAllowedUrl (u : Url) (allow_insecure allow_private : Bool) : Type 0 where
  pub no_username : u.username ≡ []
  pub no_password : u.password ≡ none
  pub scheme_ok : (u.scheme ≡ chars "https") ⊎ ((u.scheme ≡ chars "http") × (allow_insecure ≡ true))
  pub host : Host
  pub has_host : u.host ≡ some host
  pub public_host : (allow_private ≡ true) ⊎ (is_private_host host ≡ false)

scheme_cases :
    (s : Text) (insecure : Bool)
    → not (scheme_allowed s insecure) ≡ false
    → (s ≡ chars "https") ⊎ ((s ≡ chars "http") × (insecure ≡ true))
unfolding scheme_allowed
scheme_cases s insecure h =
    ground (arith, text_eq_iff s (chars "https"), text_eq_iff s (chars "http"))

userinfo_empty :
    (u p : Text) (o : Option Text) → (not (is_empty u) || is_some o) ≡ false → (u ≡ []) × (o ≡ none)
userinfo_empty [] p none h = (refl, refl)
userinfo_empty [] p (some x) h = cc
userinfo_empty (c ∷ u) p o h = cc

host_cases :
    (allow_private : Bool) (h : Host)
    → (not allow_private && is_private_host h) ≡ false
    → (allow_private ≡ true) ⊎ (is_private_host h ≡ false)
host_cases true h e = inl refl
host_cases false h e = inr e

-- A URL that passes parses, names no user, has a permitted scheme and a host, and the host is not
-- private unless private targets are allowed.
pub validate_url-Ensures :
    (parse_url : Text → Option Url) (url : Text) (allow_insecure allow_private : Bool)
    → Ensures
        (λ _. (u : Url) × (parse_url url ≡ some u) × IsAllowedUrl u allow_insecure allow_private)
        (validate_url parse_url url allow_insecure allow_private)
unfolding validate_url
validate_url-Ensures parse_url url insecure private =
    bind-Ensures (ok_or-Ensures (parse_url url) _) λ u parsed.
      bind-Ensures (fail_if-Ensures (not (is_empty u.username) || is_some u.password) _)
        λ _ userinfo.
          bind-Ensures (fail_if-Ensures (not (scheme_allowed u.scheme insecure)) _) λ _ scheme.
            bind-Ensures (ok_or-Ensures u.host _) λ h has_host.
              bind-Ensures (fail_if-Ensures (not private && is_private_host h) _) λ _ host_ok.
                returns (
                  u,
                  parsed,
                  record {
                    no_username = (userinfo_empty u.username [] u.password userinfo).0;
                    no_password = (userinfo_empty u.username [] u.password userinfo).1;
                    scheme_ok = scheme_cases u.scheme insecure scheme;
                    host = h;
                    has_host = has_host;
                    public_host = host_cases private h host_ok;
                  },
                )

-- ::ffff:a.b.c.d.
abbrev pub mapped : Ipv4Addr → Ipv6Addr
mapped v4 = record {
  s0 = 0;
  s1 = 0;
  s2 = 0;
  s3 = 0;
  s4 = 0;
  s5 = 0xffff;
  s6 = v4.a * 256 + v4.b;
  s7 = v4.c * 256 + v4.d;
}

embedded_mapped :
    (v4 : Ipv4Addr)
    → v4.b < 256
    → v4.d < 256
    → embedded_is_denied (to_ipv4 (mapped v4)) ≡ v4_is_denied v4
unfolding to_ipv4 embedded_is_denied
embedded_mapped v4 hb hd =
    let ea : (v4.a * 256 + v4.b) / 256 ≡ v4.a = omega arith in
    let eb : (v4.a * 256 + v4.b) % 256 ≡ v4.b = omega arith in
    let ec : (v4.c * 256 + v4.d) / 256 ≡ v4.c = omega arith in
    let ed : (v4.c * 256 + v4.d) % 256 ≡ v4.d = omega arith in rw (ea, eb, ec, ed)

-- A denied IPv4 address is denied in its IPv6-mapped spelling too.
pub mapped-denied :
    (v4 : Ipv4Addr)
    → v4.b < 256
    → v4.d < 256
    → is_private_host (ipv4 v4) ≡ true
    → is_private_host (ipv6 (mapped v4)) ≡ true
unfolding is_private_host
mapped-denied v4 hb hd denied = ground (arith, embedded_mapped v4 hb hd)

trim-append_dot : (d : Text) → trim_end_matches (d ++ b'.' ∷ []) b'.' ≡ trim_end_matches d b'.'
unfolding trim_end_matches
trim-append_dot [] = refl
trim-append_dot (c ∷ d) = rw (trim-append_dot d)

lower_idem : (c : ℕ) → to_ascii_lower (to_ascii_lower c) ≡ to_ascii_lower c
unfolding to_ascii_lower
lower_idem c = ground arith

lower-dot : (c : ℕ) → (to_ascii_lower c == b'.') ≡ (c == b'.')
unfolding to_ascii_lower
lower-dot c = ground arith

lowercase_idem : (d : Text) → to_ascii_lowercase (to_ascii_lowercase d) ≡ to_ascii_lowercase d
unfolding to_ascii_lowercase
lowercase_idem [] = refl
lowercase_idem (c ∷ d) = cc (lower_idem c, lowercase_idem d)

trim-lowercase :
    (d : Text)
    → trim_end_matches (to_ascii_lowercase d) b'.' ≡ to_ascii_lowercase (trim_end_matches d b'.')
unfolding trim_end_matches to_ascii_lowercase
trim-lowercase [] = refl
trim-lowercase (c ∷ d) = ground (arith, trim-lowercase d, lower-dot c)

-- Neither a trailing dot nor upper case takes a name off the denylist.
pub is_blocked_domain_spelling :
    (d : Text)
    → (is_blocked_domain (d ++ b'.' ∷ []) ≡ is_blocked_domain d)
      × (is_blocked_domain (to_ascii_lowercase d) ≡ is_blocked_domain d)
unfolding is_blocked_domain
is_blocked_domain_spelling d =
    (rw (trim-append_dot d), rw (trim-lowercase d, lowercase_idem (trim_end_matches d b'.')))
