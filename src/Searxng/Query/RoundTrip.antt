-- ===== src/Searxng/Query/RoundTrip.antt =====
-- What SearXNG reads back from a query.
use mcp_searxng.Prelude.{
  zero, suc, ◌≡◌, refl, Bool, true, false, List, [], ◌∷◌, ◌++◌, arith, if◌then◌else◌, append_assoc,
  Bool-cases, inl, inr, subst, append-nil,
}
use mcp_searxng.Prelude.Int.{ℤ, pos, negsuc, ltb_ℤ}
use mcp_searxng.Text.{Str, str, str_eq, str_eq_iff}
use mcp_searxng.Text.Decimal.{itoa, value, value-itoa}
use mcp_searxng.Domain.{SearchParams}
use mcp_searxng.Searxng.Query.{Values, values_of, set, add, add_each, build_search_query}

values_of-set :
    (j k v : Str) (q : Values)
    → values_of j (set k v q) ≡ (if str_eq k j then v ∷ [] else values_of j q)
unfolding values_of set
values_of-set j k v [] = refl
values_of-set j k v ((i, vs) ∷ q) =
    ground (arith, str_eq_iff k j, str_eq_iff i k, str_eq_iff i j, values_of-set j k v q)

values_of-add :
    (j k v : Str) (q : Values)
    → values_of j (add k v q) ≡ (if str_eq k j then values_of j q ++ v ∷ [] else values_of j q)
unfolding values_of add
values_of-add j k v [] = refl
values_of-add j k v ((i, vs) ∷ q) =
    ground (arith, str_eq_iff k j, str_eq_iff i k, str_eq_iff i j, values_of-add j k v q)

values_of-add_each :
    (j k : Str) (vs : List Str) (q : Values)
    → values_of j (add_each k vs q) ≡ (if str_eq k j then values_of j q ++ vs else values_of j q)
unfolding add_each
values_of-add_each j k [] q = ground (arith, append-nil (values_of j q))
values_of-add_each j k (v ∷ vs) q = ground (
  arith,
  values_of-add_each j k vs (add k v q),
  values_of-add j k v q,
  append_assoc (values_of j q) (v ∷ []) vs,
)

-- One text value, if it is not empty; one number, if it is positive.
abbrev pub text_value : Str → List Str
text_value s = if str_eq s [] then [] else s ∷ []

abbrev pub number_value : ℤ → List Str
number_value n = if ltb_ℤ (pos 0) n then itoa n ∷ [] else []

-- The values that a search sends under each key.
pub values_sent : SearchParams → Str → List Str
values_sent p key =
    if str_eq (str "format") key
    then str "json" ∷ []
    else if str_eq (str "safesearch") key
    then number_value p.safe_search
    else if str_eq (str "time_range") key
    then text_value p.time_range
    else if str_eq (str "pageno") key
    then number_value p.page
    else if str_eq (str "language") key
    then text_value p.language
    else if str_eq (str "categories") key
    then p.categories
    else if str_eq (str "q") key
    then text_value p.query
    else []

values_of-if :
    (b : Bool) (j : Str) (q r : Values)
    → values_of j (if b then q else r) ≡ (if b then values_of j q else values_of j r)
values_of-if true j q r = refl
values_of-if false j q r = refl

values_of-nil : (j : Str) → values_of j [] ≡ []
unfolding values_of
values_of-nil j = refl

if_same {ℓ} : {A : Type ℓ} (b : Bool) (x : A) → (if b then x else x) ≡ x
if_same true x = refl
if_same false x = refl

ruleset query_laws = (values_of-if, values_of-set, values_of-add_each, values_of-nil, if_same)

abbrev Sent : SearchParams → Str → Type 0
Sent p key = values_of key (build_search_query p) ≡ values_sent p key

-- Each key in turn, and a key that is none of them.
module _ (p : SearchParams) where
  format-Sent : Sent p (str "format")
  unfolding build_search_query str_eq ltb_ℤ values_sent
  format-Sent = simp query_laws

  safesearch-Sent : Sent p (str "safesearch")
  unfolding build_search_query str_eq ltb_ℤ values_sent
  safesearch-Sent = simp query_laws

  time_range-Sent : Sent p (str "time_range")
  unfolding build_search_query str_eq ltb_ℤ values_sent
  time_range-Sent = simp query_laws

  pageno-Sent : Sent p (str "pageno")
  unfolding build_search_query str_eq ltb_ℤ values_sent
  pageno-Sent = simp query_laws

  language-Sent : Sent p (str "language")
  unfolding build_search_query str_eq ltb_ℤ values_sent
  language-Sent = simp query_laws

  categories-Sent : Sent p (str "categories")
  unfolding build_search_query str_eq ltb_ℤ values_sent
  categories-Sent = simp query_laws

  q-Sent : Sent p (str "q")
  unfolding build_search_query str_eq ltb_ℤ values_sent
  q-Sent = simp query_laws

  other-Sent :
      (key : Str)
      → str_eq (str "format") key ≡ false
      → str_eq (str "safesearch") key ≡ false
      → str_eq (str "time_range") key ≡ false
      → str_eq (str "pageno") key ≡ false
      → str_eq (str "language") key ≡ false
      → str_eq (str "categories") key ≡ false
      → str_eq (str "q") key ≡ false
      → Sent p key
  unfolding build_search_query values_sent
  other-Sent key f s t g l c q = simp (query_laws, f, s, t, g, l, c, q)

-- A property of a key that is proved at a literal holds wherever the key equals the literal.
at_literal : (P : Str → Type 0) (lit key : Str) → P lit → (str_eq lit key ≡ false → P key) → P key
at_literal P lit key here other = elim (Bool-cases (str_eq lit key)) [
  | inl e ↦ subst P ((str_eq_iff lit key).0 e) here
  | inr e ↦ other e
]

-- Under each key the query holds exactly the values that the search sends.
pub values_of-build_search_query :
    (p : SearchParams) (key : Str) → values_of key (build_search_query p) ≡ values_sent p key
values_of-build_search_query p key = at_literal (Sent p) (str "format") key (format-Sent p) λ f.
    at_literal (Sent p) (str "safesearch") key (safesearch-Sent p) λ s.
      at_literal (Sent p) (str "time_range") key (time_range-Sent p) λ t.
        at_literal (Sent p) (str "pageno") key (pageno-Sent p) λ g.
          at_literal (Sent p) (str "language") key (language-Sent p) λ l.
            at_literal (Sent p) (str "categories") key (categories-Sent p)
              λ c. at_literal (Sent p) (str "q") key (q-Sent p) λ q. other-Sent p key f s t g l c q

-- The parameters as the other side reads them: the first value of a key, numbers by their digits.
abbrev first : List Str → Str
first [] = []
first (v ∷ vs) = v

abbrev first_number : List Str → ℤ
first_number [] = pos 0
first_number (v ∷ vs) = pos (value 0 v)

pub read_params : Values → SearchParams
read_params q = record {
  query = first (values_of (str "q") q);
  categories = values_of (str "categories") q;
  language = first (values_of (str "language") q);
  page = first_number (values_of (str "pageno") q);
  time_range = first (values_of (str "time_range") q);
  safe_search = first_number (values_of (str "safesearch") q);
}

-- A number that is not positive is not sent, which reads as 0.
abbrev pub nonnegative : ℤ → ℤ
nonnegative (pos n) = pos n
nonnegative (negsuc n) = pos 0

abbrev pub as_sent : SearchParams → SearchParams
as_sent p = record p { page = nonnegative p.page; safe_search = nonnegative p.safe_search }

first_text : (s : Str) → first (text_value s) ≡ s
unfolding str_eq
first_text [] = refl
first_text (c ∷ s) = refl

first_number_value : (n : ℤ) → first_number (number_value n) ≡ nonnegative n
unfolding ltb_ℤ
first_number_value (pos zero) = refl
first_number_value (pos (suc n)) = ground (arith, value-itoa (suc n))
first_number_value (negsuc n) = ground arith

-- The query spells the search: read back, it gives every parameter.
pub read_params-build_search_query :
    (p : SearchParams) → read_params (build_search_query p) ≡ as_sent p
unfolding read_params values_sent str_eq
read_params-build_search_query p = simp values_of-build_search_query (λ i. record p {
  query = first_text p.query i;
  language = first_text p.language i;
  page = first_number_value p.page i;
  time_range = first_text p.time_range i;
  safe_search = first_number_value p.safe_search i;
})
