-- ===== src/Handlers/Redact/Userinfo.antt =====
-- RedactURL against the meaning of its regular expression.
use mcp_searxng.Prelude.{
  ℕ, zero, suc, ◌+◌, ◌≤◌, ◌≡◌, ◌≢◌, ◌↔◌, ◌⊎◌, refl, sym, ap, subst, ◌∙◌, inl, inr, true, [], ◌∷◌,
  ◌++◌, arith, All, ◌==◌, length, length-append, drop, drop-append, Bool-cases,
}
use mcp_searxng.Text.{has_prefix, Str, str}
use mcp_searxng.Handlers.Redact.{
  scheme_length, is_userinfo_byte, userinfo_length, redact_from, redact_url,
}

-- The two parts of a match: `https?://`, and `[^/@\s]+`.
abbrev pub IsScheme : Str → Type 0
IsScheme p = (p ≡ str "http://") ⊎ (p ≡ str "https://")

abbrev pub IsUserinfoByte : ℕ → Type 0
IsUserinfoByte c = (c ≢ b'/') × (c ≢ b'@') × (c ≢ 9) × (c ≢ 10) × (c ≢ 12) × (c ≢ 13) × (c ≢ 32)

abbrev pub IsUserinfo : Str → Type 0
IsUserinfo u = (u ≢ []) × All IsUserinfoByte u

-- A text that starts with a match, before `rest`.
pub record StartsWithMatch (s : Str) : Type 0 where
  pub scheme : Str
  pub userinfo : Str
  pub rest : Str
  pub is_scheme : IsScheme scheme
  pub is_userinfo : IsUserinfo userinfo
  pub splits : s ≡ scheme ++ (userinfo ++ b'@' ∷ rest)

-- What ReplaceAllString("${1}") makes of a text: the leftmost match loses what is behind its scheme,
-- and the search goes on behind the match.
pub data Replaced : Str → Str → Type 0 where
  nothing : Replaced [] []
  match :
      {p u s t : Str}
      → IsScheme p
      → IsUserinfo u
      → Replaced s t
      → Replaced (p ++ (u ++ b'@' ∷ s)) (p ++ t)
  other : {c : ℕ} {s t : Str} → ¬ StartsWithMatch (c ∷ s) → Replaced s t → Replaced (c ∷ s) (c ∷ t)

is_userinfo_byte_iff : (c : ℕ) → (is_userinfo_byte c ≡ true) ↔ IsUserinfoByte c
unfolding is_userinfo_byte
is_userinfo_byte_iff c = ground arith

userinfo_length_of_All :
    (n : ℕ) (u r : Str)
    → All IsUserinfoByte u
    → n + length u ≢ 0
    → userinfo_length n (u ++ b'@' ∷ r) ≡ n + length u + 1
unfolding userinfo_length
userinfo_length_of_All n [] r h k = ground arith
userinfo_length_of_All n (c ∷ u) r (h, hs) k =
    ground (arith, userinfo_length_of_All (suc n) u r hs, (is_userinfo_byte_iff c).1 h)

-- Any length but 0 is that of userinfo and its "@".
userinfo_of_length :
    (n : ℕ) (s : Str)
    → userinfo_length n s ≢ 0
    → (u : Str) × (r : Str) × (s ≡ u ++ b'@' ∷ r) × All IsUserinfoByte u × (n + length u ≢ 0)
unfolding userinfo_length
userinfo_of_length n [] h = absurd (h refl)
userinfo_of_length n (c ∷ s) h = elim (Bool-cases (is_userinfo_byte c)) [
  | inl inside ↦
      let (u, r, same, all, some) = userinfo_of_length (suc n) s (ground arith) in
      (c ∷ u, r, ap (◌∷◌ c) same, ((is_userinfo_byte_iff c).0 inside, all), omega arith)
  | inr outside ↦ elim (Bool-cases (c == b'@')) [
    | inl at ↦ ([], s, ap (λ (d : ℕ). d ∷ s) (ground arith), tt, ground arith)
    | inr not_at ↦ absurd (ground arith)
  ]
]

has_prefix-append : (p s : Str) → has_prefix p s ≡ true → (r : Str) × (s ≡ p ++ r)
unfolding has_prefix
has_prefix-append [] s h = (s, refl)
has_prefix-append (c ∷ p) [] h = absurd (cc h)
has_prefix-append (c ∷ p) (d ∷ s) h =
    let (r, same) = has_prefix-append p s (ground arith) in (r, ground (arith, same))

IsScheme-of_length :
    (s : Str) → scheme_length s ≢ 0 → (p : Str) × (r : Str) × IsScheme p × (s ≡ p ++ r)
unfolding scheme_length
IsScheme-of_length s h = elim (Bool-cases (has_prefix (str "http://") s)) [
  | inl plain ↦ let (r, same) = has_prefix-append (str "http://") s plain in (_, r, inl refl, same)
  | inr not_plain ↦ elim (Bool-cases (has_prefix (str "https://") s)) [
    | inl secure ↦
        let (r, same) = has_prefix-append (str "https://") s secure in (_, r, inr refl, same)
    | inr neither ↦ absurd (ground arith)
  ]
]

scheme_length-scheme : (p s : Str) → IsScheme p → scheme_length (p ++ s) ≡ length p
unfolding scheme_length has_prefix
scheme_length-scheme p s (inl e) = rw e refl
scheme_length-scheme p s (inr e) = rw e refl

skip-append : (w s : Str) → redact_from 0 (length w) (w ++ s) ≡ redact_from 0 0 s
unfolding redact_from
skip-append [] s = refl
skip-append (c ∷ w) s = skip-append w s

userinfo_length-userinfo :
    (u s : Str) → IsUserinfo u → userinfo_length 0 (u ++ b'@' ∷ s) ≡ suc (length u)
userinfo_length-userinfo [] s (given, all) = absurd (given refl)
userinfo_length-userinfo (c ∷ u) s (given, all) =
    omega (arith, userinfo_length_of_All 0 (c ∷ u) s all (omega arith))

skip_userinfo : (u s : Str) → redact_from 0 (suc (length u)) (u ++ b'@' ∷ s) ≡ redact_from 0 0 s
unfolding redact_from
skip_userinfo [] s = refl
skip_userinfo (c ∷ u) s = skip_userinfo u s

keep_append :
    (w s : Str) (skip : ℕ) → redact_from (length w) skip (w ++ s) ≡ w ++ redact_from 0 skip s
unfolding redact_from
keep_append [] s skip = refl
keep_append (c ∷ w) s skip = ap (◌∷◌ c) (keep_append w s skip)

redact_first :
    (c : ℕ) (w s : Str) (k : ℕ)
    → scheme_length (c ∷ (w ++ s)) ≡ suc (length w)
    → userinfo_length 0 s ≡ suc k
    → redact_from 0 0 (c ∷ (w ++ s)) ≡ c ∷ (w ++ redact_from 0 (suc k) s)
unfolding redact_from
redact_first c w s k h e =
    let behind : userinfo_length 0 (drop (length w) (w ++ s)) ≡ suc k =
      ap (userinfo_length 0) (drop-append w s) ∙ e in
    rw h (rw behind (ground (arith, keep_append w s (suc k))))

-- A match at the front: the scheme stays, the userinfo goes.
pub redact_match :
    (p u s : Str)
    → IsScheme p
    → IsUserinfo u
    → redact_from 0 0 (p ++ (u ++ b'@' ∷ s)) ≡ p ++ redact_from 0 0 s
redact_match p u s (inl e) v = rw e (
    redact_first b'h' (str "ttp://") (u ++ b'@' ∷ s) (length u)
      (scheme_length-scheme (str "http://") (u ++ b'@' ∷ s) (inl refl))
      (userinfo_length-userinfo u s v)
    ∙ ap (◌++◌ (str "http://")) (skip_userinfo u s))
redact_match p u s (inr e) v = rw e (
    redact_first b'h' (str "ttps://") (u ++ b'@' ∷ s) (length u)
      (scheme_length-scheme (str "https://") (u ++ b'@' ∷ s) (inr refl))
      (userinfo_length-userinfo u s v)
    ∙ ap (◌++◌ (str "https://")) (skip_userinfo u s))

-- Where the two lengths say that there is a match, there is one.
match_of_lengths :
    (s : Str)
    → scheme_length s ≢ 0
    → userinfo_length 0 (drop (scheme_length s) s) ≢ 0
    → StartsWithMatch s
match_of_lengths s h k =
    let (p, r, scheme, split) = IsScheme-of_length s h in
    let len : scheme_length s ≡ length p =
      ap scheme_length split ∙ scheme_length-scheme p r scheme in
    let behind : drop (scheme_length s) s ≡ r =
      ap (λ (n : ℕ). drop n s) len ∙ (ap (drop (length p)) split ∙ drop-append p r) in
    let (u, rest, same, all, some) =
      userinfo_of_length 0 r (λ e. k (ap (userinfo_length 0) behind ∙ e)) in
    record {
      scheme = p;
      userinfo = u;
      rest = rest;
      is_scheme = scheme;
      is_userinfo = (λ e. some (omega (arith, ap (length {A = ℕ}) e)), all);
      splits = split ∙ ap (◌++◌ p) same;
    }

starts_with_match : (s : Str) → StartsWithMatch s ⊎ (¬ StartsWithMatch s)
starts_with_match s = elim (Bool-cases (scheme_length s == 0)) [
  | inl e ↦ inr (λ m. no_scheme m (ground arith))
  | inr e ↦ elim (Bool-cases (userinfo_length 0 (drop (scheme_length s) s) == 0)) [
    | inl f ↦ inr (λ m. no_userinfo m (ground arith))
    | inr f ↦ inl (match_of_lengths s (ground arith) (ground arith))
  ]
]
  where
    group_lem : (m : StartsWithMatch s) → scheme_length s ≡ length m.scheme
    group_lem m = ap scheme_length m.splits ∙ scheme_length-scheme m.scheme _ m.is_scheme

    scheme_given : (p : Str) → IsScheme p → length p ≢ 0
    scheme_given p (inl e) f = ground (arith, ap (length {A = ℕ}) e)
    scheme_given p (inr e) f = ground (arith, ap (length {A = ℕ}) e)

    no_scheme : (m : StartsWithMatch s) → scheme_length s ≢ 0
    no_scheme m e = scheme_given m.scheme m.is_scheme (sym (group_lem m) ∙ e)

    no_userinfo : (m : StartsWithMatch s) → userinfo_length 0 (drop (scheme_length s) s) ≢ 0
    no_userinfo m e =
        let behind : drop (scheme_length s) s ≡ m.userinfo ++ b'@' ∷ m.rest =
          ap (λ (n : ℕ). drop n s) (group_lem m)
          ∙ (ap (drop (length m.scheme)) m.splits
              ∙ drop-append m.scheme (m.userinfo ++ b'@' ∷ m.rest)) in
        ground (
          arith,
          ap (userinfo_length 0) behind,
          userinfo_length-userinfo m.userinfo m.rest m.is_userinfo,
        )

redact_other :
    (c : ℕ) (s : Str) → ¬ StartsWithMatch (c ∷ s) → redact_from 0 0 (c ∷ s) ≡ c ∷ redact_from 0 0 s
unfolding redact_from
redact_other c s h = elim (Bool-cases (scheme_length (c ∷ s) == 0)) [
  | inl e ↦ rw e refl
  | inr e ↦ elim (Bool-cases (userinfo_length 0 (drop (scheme_length (c ∷ s)) (c ∷ s)) == 0)) [
    | inl f ↦ rw f (ground arith)
    | inr f ↦ absurd (h (match_of_lengths (c ∷ s) (ground arith) (ground arith)))
  ]
]

-- The replacement is the one that the regular expression means.
Replaced-redact : {s t : Str} → Replaced s t → redact_from 0 0 s ≡ t
unfolding redact_from
Replaced-redact nothing = refl
Replaced-redact (match {p} {u} {s} {t} scheme userinfo r) =
    redact_match p u s scheme userinfo ∙ ap (◌++◌ p) (Replaced-redact r)
Replaced-redact (other {c} {s} {t} h r) = redact_other c s h ∙ ap (◌∷◌ c) (Replaced-redact r)

-- Every text has such a replacement, which is the function's: by induction on the length, since the
-- search goes on behind a match.
redact-Replaced_up_to : (n : ℕ) (s : Str) → length s ≤ n → Replaced s (redact_from 0 0 s)
unfolding redact_from
redact-Replaced_up_to n [] h = nothing
redact-Replaced_up_to zero (c ∷ s) h = absurd (omega arith)
redact-Replaced_up_to (suc n) (c ∷ s) h = elim (starts_with_match (c ∷ s)) [
  | inl m ↦
      subst (λ (x : Str). Replaced x (redact_from 0 0 x)) (sym m.splits)
        (subst (Replaced (m.scheme ++ (m.userinfo ++ b'@' ∷ m.rest)))
          (sym (redact_match m.scheme m.userinfo m.rest m.is_scheme m.is_userinfo))
          (match m.is_scheme m.is_userinfo (redact-Replaced_up_to n m.rest (shorter m))))
  | inr none ↦
      subst (Replaced (c ∷ s)) (sym (redact_other c s none))
        (other none (redact-Replaced_up_to n s (omega arith)))
]
  where
    shorter : (m : StartsWithMatch (c ∷ s)) → length m.rest ≤ n
    shorter m = omega (
      arith,
      ap (length {A = ℕ}) m.splits,
      length-append m.scheme (m.userinfo ++ b'@' ∷ m.rest),
      length-append m.userinfo (b'@' ∷ m.rest),
    )

-- RedactURL is the replacement that its regular expression means: it takes a text to its replacement
-- and to nothing else.
pub redact_url_iff : (s t : Str) → (redact_url s ≡ t) ↔ Replaced s t
unfolding redact_url
redact_url_iff s t =
    (λ e. subst (Replaced s) e (redact-Replaced_up_to (length s) s (omega arith)), Replaced-redact)
