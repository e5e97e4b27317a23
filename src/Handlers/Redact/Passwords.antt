-- ===== src/Handlers/Redact/Passwords.antt =====
-- A password that holds an "@": what RedactURL leaves of it.
use mcp_searxng.Prelude.{◌≡◌, refl, ap, ◌∙◌, true, false, [], ◌∷◌, ◌++◌, arith, All}
use mcp_searxng.Text.{Str, str, contains_byte, index_byte}
use mcp_searxng.Text.Search.{Lacks}
use mcp_searxng.Text.{has_prefix}
use mcp_searxng.Handlers.Redact.{scheme_length, redact_from, redact_url}
use mcp_searxng.Handlers.Redact.Userinfo.{
  IsScheme, IsUserinfoByte, IsUserinfo, StartsWithMatch, redact_match,
}

-- A prefix with a "/" and no "@" is none of userinfo and its "@".
no_prefix :
    (p w r : Str)
    → contains_byte b'/' p ≡ true
    → Lacks b'@' p
    → All IsUserinfoByte w
    → has_prefix p (w ++ b'@' ∷ r) ≡ false
unfolding has_prefix index_byte
no_prefix [] w r h l a = absurd (cc h)
no_prefix (c ∷ p) [] r h (l, ls) a = ground arith
no_prefix (c ∷ p) (d ∷ w) r h (l, ls) (a, rest) = ground (arith, no_prefix p w r)

no_scheme_in_userinfo : (w r : Str) → All IsUserinfoByte w → scheme_length (w ++ b'@' ∷ r) ≡ 0
unfolding scheme_length index_byte
no_scheme_in_userinfo w r a =
    rw
      (
        no_prefix (str "http://") w r refl (omega arith) a,
        no_prefix (str "https://") w r refl (omega arith) a,
      )
      refl

userinfo_kept :
    (w r : Str)
    → All IsUserinfoByte w
    → redact_from 0 0 (w ++ b'@' ∷ r) ≡ w ++ b'@' ∷ redact_from 0 0 r
unfolding redact_from
userinfo_kept [] r a = rw (no_scheme_in_userinfo [] r tt) refl
userinfo_kept (c ∷ w) r (a, rest) =
    rw (no_scheme_in_userinfo (c ∷ w) r (a, rest)) (ap (◌∷◌ c) (userinfo_kept w r rest))

-- A URL whose password holds an "@", `u` being what stands before it and `v` the rest of the
-- password: RedactURL removes `u` and leaves `v`, so that the result still starts with credentials.
pub redact_url_leaks :
    (p u v rest : Str)
    → IsScheme p
    → IsUserinfo u
    → IsUserinfo v
    → (redact_url (p ++ (u ++ b'@' ∷ (v ++ b'@' ∷ rest))) ≡ p ++ (v ++ b'@' ∷ redact_url rest))
      × StartsWithMatch (redact_url (p ++ (u ++ b'@' ∷ (v ++ b'@' ∷ rest))))
unfolding redact_url
redact_url_leaks p u v rest scheme first last =
    let same : redact_from 0 0 (p ++ (u ++ b'@' ∷ (v ++ b'@' ∷ rest)))
        ≡ p ++ (v ++ b'@' ∷ redact_from 0 0 rest) =
      redact_match p u (v ++ b'@' ∷ rest) scheme first
      ∙ ap (◌++◌ p) (userinfo_kept v rest last.1) in
    (
      same,
      record {
        scheme = p;
        userinfo = v;
        rest = redact_from 0 0 rest;
        is_scheme = scheme;
        is_userinfo = last;
        splits = same;
      },
    )
