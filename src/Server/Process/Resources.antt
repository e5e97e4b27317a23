-- ===== src/Server/Process/Resources.antt =====
-- When Run returns, what it returns, and what it has done to its listeners and servers by then.
use mcp_searxng.Prelude.{
  ◌≡◌, ◌≢◌, ◌↔◌, ◌⊎◌, sym, ap, ◌∙◌, Bool, true, false, List, [], ◌∷◌, Option, some, err, arith,
  subst, Option-cases, ◌++◌, inl, inr,
}
use mcp_searxng.Text.{str, str_eq}
use mcp_searxng.Errors.{GoError, wrap}
use mcp_searxng.Packages.{Url}
use mcp_searxng.Log.{Log}
use mcp_searxng.Config.{Config}
use mcp_searxng.Server.{Build}
use mcp_searxng.Server.Process.{
  Site, main_site, metrics_site, Effect, listened, closed, Process, Surroundings, Outcome, waiting,
  panicked, returned, run,
}
use mcp_searxng.Server.Process.Outcomes.{Seen, seen, has_failed, table, run-table}

abbrev pub is_stdio : Config → Bool
is_stdio cfg = str_eq cfg.mode (str "stdio")

-- What lets Run return: the internal listener cannot be bound; in stdio mode the session ends; in
-- http mode the main listener cannot be bound, a signal comes, or a server fails.
abbrev pub IsOver : Config → Surroundings → Type 0
IsOver cfg sur =
    ((e : GoError) × (sur.listen metrics_site ≡ err e))
    ⊎ ((is_stdio cfg ≡ true) × ((e : Option GoError) × (sur.session_ended ≡ some e)))
    ⊎ ((is_stdio cfg ≡ false)
        × (((e : GoError) × (sur.listen main_site ≡ err e))
            ⊎ (sur.cancelled ≡ true)
            ⊎ (has_failed sur.main_ended ≡ true)
            ⊎ (has_failed sur.metrics_ended ≡ true)))

-- Whether a listener is open after some effects.
pub is_open_after : Site → Bool → List Effect → Bool
is_open_after site before [] = before
is_open_after main_site before (listened main_site ∷ es) = is_open_after main_site true es
is_open_after metrics_site before (listened metrics_site ∷ es) = is_open_after metrics_site true es
is_open_after main_site before (closed main_site ∷ es) = is_open_after main_site false es
is_open_after metrics_site before (closed metrics_site ∷ es) = is_open_after metrics_site false es
is_open_after site before (_ ∷ es) = is_open_after site before es

some_inj : {A : Type 0} (a b : A) → some a ≡ some b → a ≡ b
some_inj a b h = ground (arith, h)

seen_returned :
    (o : Outcome) (s : Seen) (e : Option GoError)
    → seen o ≡ some s
    → s.result ≡ some e
    → (p : Process) × (o ≡ returned e p)
seen_returned (waiting p) s e h k = absurd (ground (arith, h, k))
seen_returned panicked s e h k = absurd (ground (arith, h, k))
seen_returned (returned d p) s e h k = (p, ground (arith, h, k))

module _ (U : Url) (b : Build) (cfg : Config) (sur : Surroundings) (log : Log) where
  -- Run from the start of the process.
  abbrev pub started : Outcome
  started = run U b cfg sur (record { effects = []; log = log })

  returned_table :
      (e : Option GoError) (p : Process)
      → started ≡ returned e p
      → table cfg sur ≡ record { result = some e; effects = p.effects }
  returned_table e p h = some_inj _ _ (sym (run-table U b cfg sur log) ∙ ap seen h)

  table-IsOver : (e : Option GoError) → (table cfg sur).result ≡ some e → IsOver cfg sur
  table-IsOver e h = ground arith

  IsOver-table : IsOver cfg sur → (e : Option GoError) × ((table cfg sur).result ≡ some e)
  IsOver-table h = elim (Option-cases (table cfg sur).result) [
    | inl e ↦ absurd (ground (arith, e, h))
    | inr found ↦ found
  ]

  -- Run returns exactly if the internal listener cannot be bound, or, in stdio mode, the session ends,
  -- or, in http mode, the main listener cannot be bound, a signal comes or one of the servers fails.
  -- It does not panic.
  pub run_returns_iff :
      (((e : Option GoError) × (p : Process) × (started ≡ returned e p)) ↔ IsOver cfg sur)
      × (started ≢ panicked)
  run_returns_iff = (
    (
      λ (e, p, h). table-IsOver e (ap (λ (s : Seen). s.result) (returned_table e p h)),
      λ over.
          let (e, h) = IsOver-table over in
          let (p, same) = seen_returned started (table cfg sur) e (run-table U b cfg sur log) h in
          (e, p, same),
    ),
    λ h. ground (arith, run-table U b cfg sur log, h),
  )

  table_closed :
      (site : Site) (e : Option GoError)
      → (table cfg sur).result ≡ some e
      → is_open_after site false (table cfg sur).effects ≡ false
  unfolding is_open_after
  table_closed main_site e h = ground arith
  table_closed metrics_site e h = ground arith

  -- When Run returns, by whatever way, both listeners are closed again, if they were bound.
  pub run_closes :
      (site : Site) (e : Option GoError) (p : Process)
      → started ≡ returned e p
      → is_open_after site false p.effects ≡ false
  run_closes site e p h =
      let same = returned_table e p h in
      subst (λ (s : Seen). is_open_after site false s.effects ≡ false) same
        (table_closed site e (ap (λ (s : Seen). s.result) same))

  -- An error that Run returns is that of a listener that cannot be bound, or in stdio mode the error
  -- of the session, if there was no signal; in http mode the failure of a server is not returned.
  pub run_error :
      (e : GoError) (p : Process)
      → started ≡ returned (some e) p
      → ((d : GoError) × (sur.listen metrics_site ≡ err d)
          × (e ≡ wrap (str "listen on " ++ cfg.internal_addr) d))
        ⊎ ((is_stdio cfg ≡ false)
            × ((d : GoError) × (sur.listen main_site ≡ err d)
                × (e ≡ wrap (str "listen on " ++ cfg.listen_addr) d)))
        ⊎ ((is_stdio cfg ≡ true) × (sur.cancelled ≡ false) × (sur.session_ended ≡ some (some e)))
  run_error e p h =
      let same = ap (λ (s : Seen). s.result) (returned_table (some e) p h) in ground (arith, same)
