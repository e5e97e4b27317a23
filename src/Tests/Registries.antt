-- ===== src/Tests/Registries.antt =====
-- A registry that is the list of its names.
use mcp_searxng.Prelude.{
  ◌≡◌, refl, Bool, false, ◌||◌, List, [], ◌∷◌, ◌++◌, Option, none, some, arith, All, if◌then◌else◌,
}
use mcp_searxng.Text.{Str, str, has_prefix}
use mcp_searxng.Handlers.Collectors.{
  Collector, counter_vec, histogram_vec, gauge, go_collector, process_collector, Prometheus,
  http_registry, stdio_registry,
}
use mcp_searxng.Handlers.Collectors.Registered.{
  names_of, is_one_of, is_one_of-append, IsPrometheus, Holds, service_names, server_names,
  registrations,
}

abbrev go_metrics : List Str
go_metrics = str "go_goroutines" ∷ str "go_threads" ∷ []

abbrev process_metrics : List Str
process_metrics = str "process_open_fds" ∷ []

abbrev metrics_of : Collector → List Str
metrics_of (counter_vec name labels) = name ∷ []
metrics_of (histogram_vec name labels) = name ∷ []
metrics_of (gauge name) = name ∷ []
metrics_of go_collector = go_metrics
metrics_of process_collector = process_metrics

abbrev any_known : List Str → List Str → Bool
any_known [] reg = false
any_known (n ∷ ns) reg = is_one_of n reg || any_known ns reg

abbrev register : Collector → List Str → Option (List Str)
register c reg = if any_known (metrics_of c) reg then none else some (reg ++ metrics_of c)

abbrev register_all : List Collector → List Str → Option (List Str)
register_all [] reg = some reg
register_all (c ∷ cs) reg = elim (register c reg) [ none ↦ none | some reg' ↦ register_all cs reg' ]

abbrev name_registry : Prometheus
name_registry = record {
  Registry = List Str;
  new_registry = [];
  must_register = register_all;
  go_names = go_metrics;
  process_names = process_metrics;
}

none_known : (ns reg : List Str) → All (λ n. is_one_of n reg ≡ false) ns → any_known ns reg ≡ false
none_known [] reg h = refl
none_known (n ∷ ns) reg (first, h) = rw (first, none_known ns reg h)

names_same : (c : Collector) → names_of name_registry c ≡ metrics_of c
names_same (counter_vec name labels) = refl
names_same (histogram_vec name labels) = refl
names_same (gauge name) = refl
names_same go_collector = refl
names_same process_collector = refl

registers :
    (c : Collector) (reg : List Str)
    → All (λ n. is_one_of n reg ≡ false) (names_of name_registry c)
    → (reg' : List Str) × (register_all (c ∷ []) reg ≡ some reg')
      × ((n : Str) → is_one_of n reg' ≡ is_one_of n reg || is_one_of n (names_of name_registry c))
registers c reg h = (
  reg ++ metrics_of c,
  rw (register_all, none_known (metrics_of c) reg (rw⁻¹ (names_same c) h)) refl,
  λ n. rw (names_same c) (is_one_of-append n reg (metrics_of c)),
)

name_registry-IsPrometheus : IsPrometheus name_registry
unfolding has_prefix
name_registry-IsPrometheus = record {
  knows = λ reg n. is_one_of n reg;
  empty = λ n. refl;
  nothing = λ reg. refl;
  one_by_one = λ c cs reg reg' h. ground (arith, h);
  fresh = λ c reg h. registers c reg h;
  go_prefix = (refl, (refl, tt));
  process_prefix = (refl, tt);
}

registrations_example :
    ((reg : List Str) × (http_registry name_registry ≡ some reg)
      × Holds name_registry name_registry-IsPrometheus reg
          (((service_names ++ server_names) ++ go_metrics) ++ process_metrics))
    × ((reg : List Str) × (stdio_registry name_registry ≡ some reg)
        × Holds name_registry name_registry-IsPrometheus reg
            ((service_names ++ go_metrics) ++ process_metrics))
registrations_example = registrations name_registry name_registry-IsPrometheus
