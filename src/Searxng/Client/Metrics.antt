-- ===== src/Searxng/Client/Metrics.antt =====
-- The upstream metrics of a request, and their labels.
use mcp_searxng.Prelude.{
  ℕ, ◌+◌, ◌/◌, ◌≤◌, ◌≡◌, ◌⊎◌, refl, ap, suc, inl, inr, ◌∷◌, none, some, Result, ok, err, arith, All,
  length, Result-cases, if◌then◌else◌, Bool-cases, ltb,
}
use mcp_searxng.Prelude.Int.{ℤ, pos, ltb_ℤ}
use mcp_searxng.Text.{Str, str}
use mcp_searxng.Context.{Context}
use mcp_searxng.Domain.{SearchParams}
use mcp_searxng.Searxng.Client.Laws.{search_request}
use mcp_searxng.Searxng.Client.{
  UpstreamMetrics, status_class, Reply, answered, failed, Client, ClientState, reply_class, search,
  do_request, record_request,
}

-- The labels of the request counter.
abbrev pub IsLabel : Str → Type 0
IsLabel s =
    (s ≡ str "2xx") ⊎ ((s ≡ str "3xx") ⊎ ((s ≡ str "4xx") ⊎ ((s ≡ str "5xx") ⊎ (s ≡ str "error"))))

status_class-IsLabel : (code : ℤ) → IsLabel (status_class code)
unfolding status_class ltb_ℤ
status_class-IsLabel code = elim (Bool-cases (ltb_ℤ code (pos 300))) [
  | inl e ↦ rw e (inl refl)
  | inr e ↦ rw e (elim (Bool-cases (ltb_ℤ code (pos 400))) [
    | inl f ↦ rw f (inr (inl refl))
    | inr f ↦ rw f (elim (Bool-cases (ltb_ℤ code (pos 500))) [
      | inl g ↦ rw g (inr (inr (inl refl)))
      | inr g ↦ rw g (inr (inr (inr (inl refl))))
    ])
  ])
]

reply_class-IsLabel : (r : Reply) → IsLabel (reply_class r)
unfolding reply_class
reply_class-IsLabel (answered r) = status_class-IsLabel r.status
reply_class-IsLabel (failed (some code) e) = status_class-IsLabel code
reply_class-IsLabel (failed none e) = inr (inr (inr (inr refl)))

-- From 200 to 599 the label is the first digit of the status and "xx"; below, it is "2xx".
pub status_class_lem :
    (n : ℕ)
    → n ≤ 599
    → status_class (pos n) ≡ (if ltb n 200 then b'2' else b'0' + n / 100) ∷ str "xx"
unfolding status_class ltb_ℤ
status_class_lem n h = ground arith

-- Every count has a duration, and a label of the set.
pub record IsCounted (m : UpstreamMetrics) : Type 0 where
  pub paired : length m.requests_total ≡ length m.duration
  pub labelled : All IsLabel m.requests_total

abbrev sent {ℓ κ} : {E : Type ℓ} {A : Type κ} → Result E A → ℕ
sent (ok a) = 1
sent (err e) = 0

-- A search on a client with metrics counts one request if the URL could be built, and none
-- otherwise, whatever the reply; the counts stay paired with durations and within the labels.
pub search_counts :
    {N : Type 0} (c : Client N) (ctx : Context) (params : SearchParams) (st : ClientState N)
    (m : UpstreamMetrics)
    → st.metrics ≡ some m
    → IsCounted m
    → (m' : UpstreamMetrics) × ((search c ctx params st).1.metrics ≡ some m')
      × IsCounted m'
      × (length m'.requests_total
          ≡ length m.requests_total + sent (c.http.join_path c.base_url (str "/search")))
unfolding search do_request record_request
search_counts c ctx params st m h v =
    elim (Result-cases (c.http.join_path c.base_url (str "/search"))) [
      | inr (e, failed_url) ↦ (m, ground arith, v, ground arith)
      | inl (url, joined) ↦
          let answer = c.http.get (search_request ctx params url) st.net in
          let m' : UpstreamMetrics = record {
            requests_total = reply_class answer.0.0 ∷ m.requests_total;
            duration = answer.0.1 ∷ m.duration;
          } in
          (
            m',
            ground arith,
            record {
              paired = ap suc v.paired;
              labelled = (reply_class-IsLabel answer.0.0, v.labelled);
            },
            ground arith,
          )
    ]
