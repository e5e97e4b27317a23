-- ===== src/Handlers/Redact.antt =====
-- handlers/redact.go: the redaction of credentials in texts, values and structs.
pub mod Userinfo
pub mod Passwords
pub mod Structs
use mcp_searxng.Prelude.{
  ℕ, zero, suc, ◌+◌, ◌-◌, Bool, true, false, ◌&&◌, ◌||◌, not, List, [], ◌∷◌, Option, none, some,
  ◌==◌, drop, if◌then◌else◌,
}
use mcp_searxng.Prelude.Int.{ℤ, pos}
use mcp_searxng.Text.{Str, str, str_eq, has_prefix}
use mcp_searxng.Packages.{Url}

-- redactedMarker
abbrev pub redacted_marker : Str
redacted_marker = str "<redacted>"

-- urlUserinfoRe, `(https?://)[^/@\s]+@`, matched where a text starts: the length of its first group,
-- and that of the rest; 0 is no match.
unfoldable pub scheme_length : Str → ℕ
scheme_length s =
    if has_prefix (str "http://") s then 7 else if has_prefix (str "https://") s then 8 else 0

-- A byte of `[^/@\s]`.
unfoldable pub is_userinfo_byte : ℕ → Bool
is_userinfo_byte c =
    not (c == b'/' || c == b'@' || c == 9 || c == 10 || c == 12 || c == 13 || c == 32)

-- `[^/@\s]+@`, of which `n` bytes are read.
unfoldable pub userinfo_length : ℕ → Str → ℕ
unfolding is_userinfo_byte
userinfo_length n [] = 0
userinfo_length n (c ∷ s) =
    let rest = userinfo_length (suc n) s in
    if is_userinfo_byte c then rest else if c == b'@' && not (n == 0) then suc n else 0

-- ReplaceAllString with the first group: `keep` bytes of a match are still copied, and then `skip`
-- left out.
unfoldable pub redact_from : ℕ → ℕ → Str → Str
unfolding scheme_length userinfo_length
redact_from keep skip [] = []
redact_from (suc keep) skip (c ∷ s) = c ∷ redact_from keep skip s
redact_from zero (suc skip) (c ∷ s) = redact_from zero skip s
redact_from zero zero (c ∷ s) =
    let group = scheme_length (c ∷ s) in
    let rest = userinfo_length 0 (drop group (c ∷ s)) in
    let matched = not (group == 0) && not (rest == 0) in
    c ∷ redact_from (if matched then group - 1 else 0) (if matched then rest else 0) s

-- RedactURL
unfoldable pub redact_url : Str → Str
unfolding redact_from
redact_url s = redact_from 0 0 s

-- The values that the fields of the program's structs hold: a string, an int or a duration, a slice
-- of strings, a *string, a *uint64, and a struct. A field has its name, whether it is exported, and
-- whether its tag is secret:"true".
mutual
  pub data FieldValue : Type 0 where
    text : Str → FieldValue
    number : ℤ → FieldValue
    texts : List Str → FieldValue
    text_ptr : Option Str → FieldValue
    number_ptr : Option ℕ → FieldValue
    struct : Fields → FieldValue

  pub data Fields : Type 0 where
    end : Fields
    field : Str → Bool → Bool → FieldValue → Fields → Fields

-- reflect.Zero of the type of a value
unfoldable mutual
  pub zero_value : FieldValue → FieldValue
  zero_value (text s) = text []
  zero_value (number n) = number (pos 0)
  zero_value (texts ss) = texts []
  zero_value (text_ptr s) = text_ptr none
  zero_value (number_ptr n) = number_ptr none
  zero_value (struct fs) = struct (zero_fields fs)

  pub zero_fields : Fields → Fields
  zero_fields end = end
  zero_fields (field name exported secret v fs) =
      field name exported secret (zero_value v) (zero_fields fs)

module _ (U : Url) where
  -- RedactValue of a string
  unfoldable pub redact_text : Str → Str
  redact_text s = elim (U.parse s) [
    | none ↦ redacted_marker
    | some u ↦
        if (str_eq (U.scheme u) (str "http") || str_eq (U.scheme u) (str "https"))
          && not (str_eq (U.host u) [])
        then U.to_string (if U.has_user u then U.drop_user u else u)
        else redacted_marker
  ]

  -- RedactValue; what it returns is a string for every value.
  unfoldable pub redact_value : FieldValue → Str
  unfolding redact_text
  redact_value (text s) = redact_text s
  redact_value _ = redacted_marker

  -- A secret field: the redacted string where the field's type takes it, and else the zero value.
  unfoldable pub redact_secret : FieldValue → FieldValue
  unfolding redact_value
  redact_secret (text s) = text (redact_value (text s))
  redact_secret v = zero_value v

  -- RedactStruct; a field that is not exported is left at its zero value.
  unfoldable mutual
    unfolding redact_secret zero_value

    pub redact_struct : FieldValue → FieldValue
    redact_struct (struct fs) = struct (redact_fields fs)
    redact_struct (text s) = text s
    redact_struct (number n) = number n
    redact_struct (texts ss) = texts ss
    redact_struct (text_ptr s) = text_ptr s
    redact_struct (number_ptr n) = number_ptr n

    pub redact_fields : Fields → Fields
    redact_fields end = end
    redact_fields (field name false secret v fs) =
        field name false secret (zero_value v) (redact_fields fs)
    redact_fields (field name true true v fs) =
        field name true true (redact_secret v) (redact_fields fs)
    redact_fields (field name true false v fs) =
        field name true false (redact_struct v) (redact_fields fs)
