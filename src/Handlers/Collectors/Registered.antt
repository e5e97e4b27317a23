-- ===== src/Handlers/Collectors/Registered.antt =====
-- The registrations of the collectors at the start.
use mcp_searxng.Prelude.{
  ◌≡◌, refl, sym, ap, ◌∙◌, Bool, true, false, ◌||◌, List, [], ◌∷◌, ◌++◌, some, arith, All,
  All-append,
}
use mcp_searxng.Text.{Str, str, str_eq, str_eq_iff, has_prefix}
use mcp_searxng.Handlers.Collectors.{
  upstream_collectors, tool_collectors, server_collectors, Collector, counter_vec, histogram_vec,
  gauge, go_collector, process_collector, Prometheus, new_upstream_metrics, new_metrics,
  instrument_server, register_metrics_on_registry, build_registry, http_registry, stdio_registry,
}

abbrev pub is_one_of : Str → List Str → Bool
is_one_of n [] = false
is_one_of n (m ∷ ms) = str_eq m n || is_one_of n ms

module _ (P : Prometheus) where
  open P use {Registry, must_register}

  -- The names of the metrics of a collector.
  abbrev pub names_of : Collector → List Str
  names_of (counter_vec name labels) = name ∷ []
  names_of (histogram_vec name labels) = name ∷ []
  names_of (gauge name) = name ∷ []
  names_of go_collector = P.go_names
  names_of process_collector = P.process_names

  -- The documented behaviour: a registry knows the names that were registered with it, registers a
  -- collector none of whose names it knows, and takes several collectors one by one; the metrics of
  -- the Go runtime are named go_ and those of the process process_.
  pub record IsPrometheus : Type 0 where
    pub knows : Registry → Str → Bool
    pub empty : (n : Str) → knows P.new_registry n ≡ false
    pub nothing : (reg : Registry) → must_register [] reg ≡ some reg
    pub one_by_one :
        (c : Collector) (cs : List Collector) (reg reg' : Registry)
        → must_register (c ∷ []) reg ≡ some reg'
        → must_register (c ∷ cs) reg ≡ must_register cs reg'
    pub fresh :
        (c : Collector) (reg : Registry)
        → All (λ n. knows reg n ≡ false) (names_of c)
        → (reg' : Registry) × (must_register (c ∷ []) reg ≡ some reg')
          × ((n : Str) → knows reg' n ≡ knows reg n || is_one_of n (names_of c))
    pub go_prefix : All (λ n. has_prefix (str "go_") n ≡ true) P.go_names
    pub process_prefix : All (λ n. has_prefix (str "process_") n ≡ true) P.process_names

  -- The names that are known after some registrations, and that they do not meet.
  abbrev names_after : List Str → List Collector → List Str
  names_after ms [] = ms
  names_after ms (c ∷ cs) = names_after (ms ++ names_of c) cs

  abbrev IsApart : List Str → List Collector → Type 0
  IsApart ms [] = Unit
  IsApart ms (c ∷ cs) =
      All (λ n. is_one_of n ms ≡ false) (names_of c) × IsApart (ms ++ names_of c) cs

pub is_one_of-append :
    (n : Str) (xs ys : List Str) → is_one_of n (xs ++ ys) ≡ is_one_of n xs || is_one_of n ys
is_one_of-append n [] ys = refl
is_one_of-append n (x ∷ xs) ys = ground (arith, is_one_of-append n xs ys)

-- A text with a prefix is none of the texts without it.
is_one_of-no_prefix :
    (p n : Str) (ms : List Str)
    → has_prefix p n ≡ true
    → All (λ m. has_prefix p m ≡ false) ms
    → is_one_of n ms ≡ false
is_one_of-no_prefix p n [] h all = refl
is_one_of-no_prefix p n (m ∷ ms) h (other, all) =
    ground (arith, is_one_of-no_prefix p n ms h all, str_eq_iff m n)

All-no_prefix :
    (p : Str) (ns ms : List Str)
    → All (λ n. has_prefix p n ≡ true) ns
    → All (λ m. has_prefix p m ≡ false) ms
    → All (λ n. is_one_of n ms ≡ false) ns
All-no_prefix p [] ms h all = tt
All-no_prefix p (n ∷ ns) ms (first, h) all =
    (is_one_of-no_prefix p n ms first all, All-no_prefix p ns ms h all)

-- The prefixes of the two collectors differ.
go_no_process :
    (ns : List Str)
    → All (λ n. has_prefix (str "go_") n ≡ true) ns
    → All (λ n. has_prefix (str "process_") n ≡ false) ns
unfolding has_prefix
go_no_process [] h = tt
go_no_process (n ∷ ns) (first, h) = (ground arith, go_no_process ns h)

-- The names that buildServer registers, and those that InstrumentServer adds.
abbrev pub service_names : List Str
service_names =
    str "mcp_searxng_upstream_requests_total"
    ∷ str "mcp_searxng_upstream_duration_seconds"
    ∷ str "mcp_tool_requests_total"
    ∷ str "mcp_tool_duration_seconds"
    ∷ str "mcp_active_requests"
    ∷ []

abbrev pub server_names : List Str
server_names =
    str "http_request_duration_seconds"
    ∷ str "http_requests_total"
    ∷ str "http_response_size_bytes"
    ∷ []

module _ (P : Prometheus) (W : IsPrometheus P) where
  open P use {Registry, must_register}

  -- A registry knows these names and no others.
  abbrev pub Holds : Registry → List Str → Type 0
  Holds reg ms = (n : Str) → W.knows reg n ≡ is_one_of n ms

  All-Holds :
      (reg : Registry) (ms ns : List Str)
      → Holds reg ms
      → All (λ n. is_one_of n ms ≡ false) ns
      → All (λ n. W.knows reg n ≡ false) ns
  All-Holds reg ms [] h all = tt
  All-Holds reg ms (n ∷ ns) h (first, all) = (h n ∙ first, All-Holds reg ms ns h all)

  register-Holds :
      (cs : List Collector) (reg : Registry) (ms : List Str)
      → Holds reg ms
      → IsApart P ms cs
      → (reg' : Registry) × (must_register cs reg ≡ some reg') × Holds reg' (names_after P ms cs)
  register-Holds [] reg ms h apart = (reg, W.nothing reg, h)
  register-Holds (c ∷ cs) reg ms h (first, apart) =
      let (reg1, done, knows1) = W.fresh c reg (All-Holds reg ms (names_of P c) h first) in
      let h1 : Holds reg1 (ms ++ names_of P c) = λ n.
        knows1 n
        ∙ (ap (λ b. b || is_one_of n (names_of P c)) (h n)
            ∙ sym (is_one_of-append n ms (names_of P c))) in
      let (reg2, rest, h2) = register-Holds cs reg1 (ms ++ names_of P c) h1 apart in
      (reg2, W.one_by_one c cs reg reg1 done ∙ rest, h2)

  built : (reg : Registry) × (build_registry P ≡ some reg) × Holds reg service_names
  unfolding build_registry new_upstream_metrics new_metrics str_eq
  built =
      let (reg, done, h) =
        register-Holds upstream_collectors P.new_registry [] W.empty (ground arith) in
      let (reg', done', h') =
        register-Holds tool_collectors reg (names_after P [] upstream_collectors) h
          (ground arith) in
      (reg', rw (build_registry, new_upstream_metrics, done, new_metrics, done') refl, h')

  runtime :
      (reg : Registry) (ms : List Str)
      → Holds reg ms
      → All (λ m. has_prefix (str "go_") m ≡ false) ms
      → All (λ m. has_prefix (str "process_") m ≡ false) ms
      → (reg' : Registry) × (register_metrics_on_registry P reg ≡ some reg')
        × Holds reg' ((ms ++ P.go_names) ++ P.process_names)
  unfolding register_metrics_on_registry
  runtime reg ms h no_go no_process =
      let (reg1, done, h1) =
        register-Holds (go_collector ∷ []) reg ms h
          (All-no_prefix (str "go_") P.go_names ms W.go_prefix no_go, tt) in
      let apart =
        All-append (λ (m : Str). has_prefix (str "process_") m ≡ false) ms P.go_names no_process
          (go_no_process P.go_names W.go_prefix) in
      let (reg2, done', h2) = register-Holds (process_collector ∷ []) reg1 (ms ++ P.go_names) h1 (
        All-no_prefix (str "process_") P.process_names (ms ++ P.go_names) W.process_prefix apart,
        tt,
      ) in
      (reg2, rw (register_metrics_on_registry, done) done', h2)

  -- If prometheus works as documented: the registrations of a start do not panic, in either mode, and
  -- the registry then knows the metrics of the service, in http mode those of the server, and those of
  -- the Go runtime and the process.
  pub registrations :
      ((reg : Registry) × (http_registry P ≡ some reg)
        × Holds reg (((service_names ++ server_names) ++ P.go_names) ++ P.process_names))
      × ((reg : Registry) × (stdio_registry P ≡ some reg)
          × Holds reg ((service_names ++ P.go_names) ++ P.process_names))
  unfolding http_registry stdio_registry instrument_server str_eq has_prefix
  registrations =
      let (reg, done, h) = built in
      let (reg1, done1, h1) = register-Holds server_collectors reg service_names h (ground arith) in
      let (reg2, done2, h2) =
        runtime reg1 (names_after P service_names server_collectors) h1 (ground arith)
          (ground arith) in
      let (reg3, done3, h3) = runtime reg service_names h (ground arith) (ground arith) in
      (
        (reg2, rw (http_registry, done, instrument_server, done1) done2, h2),
        (reg3, rw (stdio_registry, done) done3, h3),
      )
