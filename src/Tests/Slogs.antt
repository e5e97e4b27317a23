-- ===== src/Tests/Slogs.antt =====
-- The slog bridge on a derived logger.
use mcp_searxng.Prelude.{◌≡◌, refl, List, [], ◌∷◌}
use mcp_searxng.Prelude.Int.{pos}
use mcp_searxng.Text.{Str, str, str_eq, join_dot}
use mcp_searxng.Assoc.{put}
use mcp_searxng.Log.{number}
use mcp_searxng.Logging.Slog.{
  Attrs, plain, group, attr, no_attrs, new_slog_handler, append_attr, append_attrs, append_entries,
  attr_fields, entries_of, with_attrs, with_group, dotted,
}
use mcp_searxng.Logging.Slog.Groups.{
  Derivation, attrs_added, group_opened, derived, tree, slog_tree,
}

abbrev one : Str → Attrs
one key = attr key (plain (number (pos 1))) no_attrs

-- log.With("a", 1).WithGroup("g").With("b", 1)
abbrev steps : List Derivation
steps = attrs_added (one (str "a")) ∷ group_opened (str "g") ∷ attrs_added (one (str "b")) ∷ []

fields_made :
    attr_fields
      (with_attrs
        (one (str "b"))
        (with_group (str "g") (with_attrs (one (str "a")) new_slog_handler)))
      (attr (str "h") (group (one (str "c"))) no_attrs)
    ≡ (str "a", number (pos 1)) ∷ (str "g.b", number (pos 1)) ∷ (str "g.h.c", number (pos 1)) ∷ []
unfolding attr_fields with_attrs with_group entries_of append_entries append_attr put dotted
    join_dot str_eq
fields_made = refl

slog_tree_example :
    attr_fields (derived steps new_slog_handler) (one (str "c"))
    ≡ append_attrs (tree steps (one (str "c"))) [] []
slog_tree_example = slog_tree steps (one (str "c"))
