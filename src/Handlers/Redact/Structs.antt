-- ===== src/Handlers/Redact/Structs.antt =====
-- RedactStruct: what it hides.
use mcp_searxng.Prelude.{◌≡◌, ◌≢◌, ◌⊎◌, refl, sym, ap, ◌∙◌, Bool, true, false, [], some, arith}
use mcp_searxng.Text.{Str, str, str_eq_iff}
use mcp_searxng.Packages.{Url}
use mcp_searxng.Handlers.Redact.{
  FieldValue, text, number, texts, text_ptr, number_ptr, struct, Fields, end, field, zero_value,
  redact_text, redact_value, redact_secret, redact_struct, redact_fields,
}

module _ (U : Url) where
  -- A URL of http or https with a host.
  abbrev pub IsSite : U.Parsed → Type 0
  IsSite u = ((U.scheme u ≡ str "http") ⊎ (U.scheme u ≡ str "https")) × (U.host u ≢ [])

  -- A URL without a user is left as it is when its user is dropped.
  abbrev pub KeepsUserless : Type 0
  KeepsUserless = (u : U.Parsed) → U.has_user u ≡ false → U.drop_user u ≡ u

  redact_text_site :
      KeepsUserless
      → (s : Str) (u : U.Parsed) → U.parse s ≡ some u
      → IsSite u
      → redact_text U s ≡ U.to_string (U.drop_user u)
  unfolding redact_text
  redact_text_site keeps s u h (web, host) = ground (
    arith,
    str_eq_iff (U.scheme u) (str "http"),
    str_eq_iff (U.scheme u) (str "https"),
    str_eq_iff (U.host u) [],
    keeps u,
  )

  -- Two texts that are URLs of the same site, but perhaps with different users and passwords.
  pub record SameSite (s t : Str) : Type 0 where
    pub left : U.Parsed
    pub right : U.Parsed
    pub left_parses : U.parse s ≡ some left
    pub right_parses : U.parse t ≡ some right
    pub left_site : IsSite left
    pub right_site : IsSite right
    pub same : U.drop_user left ≡ U.drop_user right

  -- Two secrets that are told apart by nothing but what is to be hidden: texts of one site, or values
  -- other than texts, of one type.
  pub data SameSecret : FieldValue → FieldValue → Type 0 where
    site : {s t : Str} → SameSite s t → SameSecret (text s) (text t)
    same_type :
        {v w : FieldValue}
        → ((s : Str) → v ≢ text s)
        → ((s : Str) → w ≢ text s)
        → zero_value v ≡ zero_value w
        → SameSecret v w

  -- Two structs that differ in secrets only, and in fields that are not exported.
  mutual
    pub data SameButSecrets : FieldValue → FieldValue → Type 0 where
      same_value : {v : FieldValue} → SameButSecrets v v
      same_struct : {fs gs : Fields} → SameFields fs gs → SameButSecrets (struct fs) (struct gs)

    pub data SameFields : Fields → Fields → Type 0 where
      same_end : SameFields end end
      hidden :
          {name : Str} {secret : Bool} {v w : FieldValue} {fs gs : Fields}
          → zero_value v ≡ zero_value w
          → SameFields fs gs
          → SameFields (field name false secret v fs) (field name false secret w gs)
      secret :
          {name : Str} {v w : FieldValue} {fs gs : Fields}
          → SameSecret v w
          → SameFields fs gs
          → SameFields (field name true true v fs) (field name true true w gs)
      public :
          {name : Str} {v w : FieldValue} {fs gs : Fields}
          → SameButSecrets v w
          → SameFields fs gs
          → SameFields (field name true false v fs) (field name true false w gs)

module _ (U : Url) (keeps : KeepsUserless U) where
  redact_secret_zero :
      (v : FieldValue) → ((s : Str) → v ≢ text s) → redact_secret U v ≡ zero_value v
  unfolding redact_secret
  redact_secret_zero (text s) h = absurd (h s refl)
  redact_secret_zero (number n) h = refl
  redact_secret_zero (texts ss) h = refl
  redact_secret_zero (text_ptr s) h = refl
  redact_secret_zero (number_ptr n) h = refl
  redact_secret_zero (struct fs) h = refl

  redact_secret_same : {v w : FieldValue} → SameSecret U v w → redact_secret U v ≡ redact_secret U w
  unfolding redact_secret redact_value
  redact_secret_same (site {s} {t} h) = ap text (
      redact_text_site U keeps s h.left h.left_parses h.left_site
      ∙ (ap U.to_string h.same
          ∙ sym (redact_text_site U keeps t h.right h.right_parses h.right_site)))
  redact_secret_same (same_type {v} {w} h k same) =
      redact_secret_zero v h ∙ (same ∙ sym (redact_secret_zero w k))

  mutual
    unfolding redact_struct

    same_redacted_struct :
        {v w : FieldValue} → SameButSecrets U v w → redact_struct U v ≡ redact_struct U w
    same_redacted_struct same_value = refl
    same_redacted_struct (same_struct h) = ap struct (same_redacted_fields h)

    same_redacted_fields :
        {fs gs : Fields} → SameFields U fs gs → redact_fields U fs ≡ redact_fields U gs
    same_redacted_fields same_end = refl
    same_redacted_fields (hidden {name} {secret} e h) =
        λ i. field name false secret (e i) (same_redacted_fields h i)
    same_redacted_fields (secret {name} e h) =
        λ i. field name true true (redact_secret_same e i) (same_redacted_fields h i)
    same_redacted_fields (public {name} e h) =
        λ i. field name true false (same_redacted_struct e i) (same_redacted_fields h i)

  -- If dropping the user of a URL without one leaves it as it is: structs that differ only in
  -- secrets, or in fields that are not exported, look the same after RedactStruct, so nothing of a
  -- password can be read off the result. Texts count as the same secret if they are URLs of the same
  -- site, other values if they have the same type.
  pub redact_struct_hides :
      (v w : FieldValue) → SameButSecrets U v w → redact_struct U v ≡ redact_struct U w
  redact_struct_hides v w h = same_redacted_struct h
