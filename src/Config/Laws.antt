-- ===== src/Config/Laws.antt =====
-- Which configurations the validation accepts, and what a loaded configuration is.
use mcp_searxng.Prelude.{
  ◌≡◌, ◌≢◌, ◌↔◌, ◌⊎◌, refl, subst, ap, sym, ◌∙◌, inl, inr, List, [], Option, none, some, All,
  Result, ok, err, arith, Option-cases, Bool-cases,
}
use mcp_searxng.Prelude.Int.{ℤ, pos, ltb_ℤ, ◌≤ℤ◌}
use mcp_searxng.Text.{Str, str, str_eq, str_eq_iff}
use mcp_searxng.Errors.{GoError}
use mcp_searxng.Packages.{Url, Letters}
use mcp_searxng.Log.{Level}
use mcp_searxng.Logging.{Formatter, parse_level, parse_format}
use mcp_searxng.Config.{
  Config, Check, Ozzo, error_of, validate_positive_int, validate_mode, validate_log_level,
  validate_log_format, validate_url_scheme, validate_url_host, validate, with_legacy, validated,
  load,
}

validate_positive_int-none : (n : ℤ) → (validate_positive_int n ≡ none) ↔ (pos 1 ≤ℤ n)
unfolding validate_positive_int ltb_ℤ
validate_positive_int-none n = ground arith

-- What the program relies on of ozzo-validation: Required accepts the strings that are not empty, Min
-- with the threshold 0 the numbers that are not negative, and ValidateStruct the structs of which no
-- rule of a field fails.
pub record IsOzzo (O : Ozzo) : Type 0 where
  pub required : (s : Str) → (O.required s ≡ none) ↔ (s ≢ [])
  pub min_zero : (n : ℤ) → (O.min_zero n ≡ none) ↔ (pos 0 ≤ℤ n)
  pub validate_struct :
      (fields : List (Str × List Check))
      → (O.validate_struct fields ≡ none)
        ↔ All (λ (f : Str × List Check). All (λ (check : Check). check ≡ none) f.1) fields

module _ (L : Letters) where
  validate_mode-none :
      (s : Str) → (validate_mode L s ≡ none) ↔ ((s ≡ str "http") ⊎ (s ≡ str "stdio"))
  unfolding validate_mode
  validate_mode-none s = ground (arith, str_eq_iff s (str "http"), str_eq_iff s (str "stdio"))

  -- A level that ParseLevel knows, if one is given.
  abbrev pub IsKnownLevel : Option Str → Type 0
  IsKnownLevel none = Unit
  IsKnownLevel (some s) = (level : Level) × (parse_level L s ≡ ok level)

  abbrev pub IsKnownFormat : Str → Type 0
  IsKnownFormat s = (formatter : Formatter) × (parse_format L s ≡ ok formatter)

  error_of-none : {A : Type 0} (r : Result GoError A) → (error_of r ≡ none) ↔ ((a : A) × (r ≡ ok a))
  error_of-none (ok a) = (λ h. (a, refl), λ h. refl)
  error_of-none (err e) = (λ h. absurd (cc h), λ (a, h). absurd (cc h))

  validate_log_level-none : (s : Option Str) → (validate_log_level L s ≡ none) ↔ IsKnownLevel s
  unfolding validate_log_level
  validate_log_level-none none = (λ h. tt, λ h. refl)
  validate_log_level-none (some s) = error_of-none (parse_level L s)

  validate_log_format-none : (s : Str) → (validate_log_format L s ≡ none) ↔ IsKnownFormat s
  unfolding validate_log_format
  validate_log_format-none s = error_of-none (parse_format L s)

module _ (U : Url) (L : Letters) where
  -- A URL of a server: it is not empty, and parses as http or https with a host.
  pub record IsServerUrl (s : Str) : Type 0 where
    pub nonempty : s ≢ []
    pub parsed : U.Parsed
    pub parses : U.parse s ≡ some parsed
    pub scheme : (U.scheme parsed ≡ str "http") ⊎ (U.scheme parsed ≡ str "https")
    pub host : U.host parsed ≢ []

  url_checks-IsServerUrl :
      (s : Str)
      → s ≢ []
      → validate_url_scheme U L s ≡ none
      → validate_url_host U L s ≡ none
      → IsServerUrl s
  unfolding validate_url_scheme validate_url_host
  url_checks-IsServerUrl s given h k = elim (Option-cases (U.parse s)) [
    | inl e ↦ absurd (ground arith)
    | inr (u, e) ↦ record {
      nonempty = given;
      parsed = u;
      parses = e;
      scheme =
          ground
            (arith, str_eq_iff (U.scheme u) (str "http"), str_eq_iff (U.scheme u) (str "https"));
      host = λ empty. ground (arith, (str_eq_iff (U.host u) []).1 empty);
    }
  ]

  server_url_checks :
      (s : Str)
      → IsServerUrl s
      → (validate_url_scheme U L s ≡ none) × (validate_url_host U L s ≡ none)
  unfolding validate_url_scheme validate_url_host
  server_url_checks s v = ground (
    arith,
    v.parses,
    v.scheme,
    str_eq_iff (U.scheme v.parsed) (str "http"),
    str_eq_iff (U.scheme v.parsed) (str "https"),
    str_eq_iff (U.host v.parsed) [],
    v.host,
  )

  pub record IsValid (c : Config) : Type 0 where
    pub searxng_url : IsServerUrl c.searxng_url
    pub rate_limit_global : pos 1 ≤ℤ c.rate_limit_global
    pub rate_limit_per_client : pos 1 ≤ℤ c.rate_limit_per_client
    pub write_timeout : pos 0 ≤ℤ c.write_timeout
    pub mode : (c.mode ≡ str "http") ⊎ (c.mode ≡ str "stdio")
    pub log_level : IsKnownLevel L c.log_level
    pub log_format : IsKnownFormat L c.log_format

-- The internal address of a loaded configuration: that of the legacy variable if it is set and the
-- new one is not, and otherwise what envconfig read.
abbrev pub IsInternalAddrOf : (Str → Str) → Config → Str → Type 0
IsInternalAddrOf getenv p addr =
    ((getenv (str "INTERNAL_ADDR") ≡ [])
      × (getenv (str "PROMETHEUS_METRICS_ADDR") ≢ [])
      × (addr ≡ getenv (str "PROMETHEUS_METRICS_ADDR")))
    ⊎ (((getenv (str "INTERNAL_ADDR") ≢ []) ⊎ (getenv (str "PROMETHEUS_METRICS_ADDR") ≡ []))
        × (addr ≡ p.internal_addr))

with_legacy-cases :
    (getenv : Str → Str) (p : Config)
    → IsInternalAddrOf getenv p (with_legacy getenv p).internal_addr
      × (with_legacy getenv p ≡ record p { internal_addr = (with_legacy getenv p).internal_addr })
unfolding with_legacy
with_legacy-cases getenv p = elim (Bool-cases (str_eq (getenv (str "INTERNAL_ADDR")) [])) [
  | inr set ↦ rw set (
    inr (inl (λ e. ground (arith, (str_eq_iff (getenv (str "INTERNAL_ADDR")) []).1 e)), refl),
    refl,
  )
  | inl unset ↦ elim (Bool-cases (str_eq (getenv (str "PROMETHEUS_METRICS_ADDR")) [])) [
    | inl none_either ↦
        rw (unset, none_either)
          (
            inr (
              inr ((str_eq_iff (getenv (str "PROMETHEUS_METRICS_ADDR")) []).0 none_either),
              refl,
            ),
            refl,
          )
    | inr legacy ↦
        rw (unset, legacy)
          (
            inl (
              (str_eq_iff (getenv (str "INTERNAL_ADDR")) []).0 unset,
              λ e. ground (arith, (str_eq_iff (getenv (str "PROMETHEUS_METRICS_ADDR")) []).1 e),
              refl,
            ),
            refl,
          )
  ]
]

module _ (O : Ozzo) (rules : IsOzzo O) (U : Url) (L : Letters) where
  -- If ozzo-validation's rules work as documented, the validation accepts exactly the configurations
  -- whose URL is not empty and parses as http or https with a host, whose rate limits are at least 1,
  -- whose write timeout is not negative, whose mode is http or stdio, and whose level, if given, and
  -- format are known to the logging package.
  pub validate_iff : (c : Config) → (validate O U L c ≡ none) ↔ IsValid U L c
  unfolding validate
  validate_iff c = (
    λ h.
        let (
          (given, (scheme, (host, _))),
          (
            (global, _),
            ((per_client, _), ((timeout, _), ((mode, _), ((level, _), ((format, _), _))))),
          ),
        ) =
          (rules.validate_struct _).0 h in
        record {
          searxng_url =
              url_checks-IsServerUrl U L c.searxng_url ((rules.required c.searxng_url).0 given)
                scheme host;
          rate_limit_global = (validate_positive_int-none c.rate_limit_global).0 global;
          rate_limit_per_client = (validate_positive_int-none c.rate_limit_per_client).0 per_client;
          write_timeout = (rules.min_zero c.write_timeout).0 timeout;
          mode = (validate_mode-none L c.mode).0 mode;
          log_level = (validate_log_level-none L c.log_level).0 level;
          log_format = (validate_log_format-none L c.log_format).0 format;
        },
    λ v.
        let (scheme, host) = server_url_checks U L c.searxng_url v.searxng_url in
        (rules.validate_struct _).1 (
          ((rules.required c.searxng_url).1 v.searxng_url.nonempty, (scheme, (host, tt))),
          (
            ((validate_positive_int-none c.rate_limit_global).1 v.rate_limit_global, tt),
            (
              ((validate_positive_int-none c.rate_limit_per_client).1 v.rate_limit_per_client, tt),
              (
                ((rules.min_zero c.write_timeout).1 v.write_timeout, tt),
                (
                  ((validate_mode-none L c.mode).1 v.mode, tt),
                  (
                    ((validate_log_level-none L c.log_level).1 v.log_level, tt),
                    (((validate_log_format-none L c.log_format).1 v.log_format, tt), tt),
                  ),
                ),
              ),
            ),
          ),
        ),
  )

  validated-ok : (p c : Config) → validated O U L p ≡ ok c → (validate O U L p ≡ none) × (c ≡ p)
  unfolding validated
  validated-ok p c h = ground arith

  -- If ozzo-validation's rules work as documented, a configuration that Load returns is valid, and is what envconfig read, but for an internal
  -- address that the legacy variable gives where the new one is not set.
  pub load-ok :
      (processed : Result GoError Config) (getenv : Str → Str) (c : Config)
      → load O U L processed getenv ≡ ok c
      → IsValid U L c
        × ((p : Config) × (processed ≡ ok p)
            × IsInternalAddrOf getenv p c.internal_addr
            × (c ≡ record p { internal_addr = c.internal_addr }))
  unfolding load
  load-ok (err e) getenv c h = absurd (cc h)
  load-ok (ok p) getenv c h =
      let (valid, same) = validated-ok (with_legacy getenv p) c h in
      let (addr, rest) = with_legacy-cases getenv p in
      (
        (validate_iff c).0 (ap (validate O U L) same ∙ valid),
        (
          p,
          refl,
          subst (λ (x : Config). IsInternalAddrOf getenv p x.internal_addr) (sym same) addr,
          subst (λ (x : Config). x ≡ record p { internal_addr = x.internal_addr }) (sym same) rest,
        ),
      )
