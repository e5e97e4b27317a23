-- ===== src/Logging/Slog/Groups.antt =====
-- The handler against the meaning of slog's With and WithGroup: a tree of attributes, in which a
-- group holds all that is added after it was opened.
use mcp_searxng.Prelude.{
  ◌≡◌, refl, sym, ap, ◌∙◌, List, [], ◌∷◌, ◌++◌, if◌then◌else◌, Bool-cases, inl, inr,
}
use mcp_searxng.Text.{Str, str_eq}
use mcp_searxng.Logging.Slog.{
  group, Attrs, no_attrs, attr, AttrEntry, LogrusHandler, new_slog_handler, LogFields, append_attr,
  append_attrs, append_entries, attr_fields, entries_of, with_attrs, with_group,
}

-- What is done to a logger before it logs a record.
pub data Derivation : Type 0 where
  attrs_added : Attrs → Derivation
  group_opened : Str → Derivation

-- The handler after these derivations.
pub derived : List Derivation → LogrusHandler → LogrusHandler
derived [] h = h
derived (attrs_added attrs ∷ ds) h = derived ds (with_attrs attrs h)
derived (group_opened name ∷ ds) h = derived ds (with_group name h)

pub append_tree : Attrs → Attrs → Attrs
append_tree no_attrs ys = ys
append_tree (attr key v xs) ys = attr key v (append_tree xs ys)

-- The tree that a record stands for: attributes that were added stand before what follows, and a
-- group that was opened round it. A group without a name is none.
pub tree : List Derivation → Attrs → Attrs
tree [] attrs = attrs
tree (attrs_added added ∷ ds) attrs = append_tree added (tree ds attrs)
tree (group_opened name ∷ ds) attrs =
    let inside = tree ds attrs in
    if str_eq name [] then inside else attr name (group inside) no_attrs

append_attrs-append_tree :
    (xs ys : Attrs) (groups : List Str) (fields : LogFields)
    → append_attrs (append_tree xs ys) groups fields
      ≡ append_attrs ys groups (append_attrs xs groups fields)
unfolding append_attr append_tree
append_attrs-append_tree no_attrs ys groups fields = refl
append_attrs-append_tree (attr key v xs) ys groups fields =
    append_attrs-append_tree xs ys groups (append_attr key v groups fields)

append_entries-append :
    (es fs : List AttrEntry) (fields : LogFields)
    → append_entries (es ++ fs) fields ≡ append_entries fs (append_entries es fields)
unfolding append_entries
append_entries-append [] fs fields = refl
append_entries-append (e ∷ es) fs fields =
    append_entries-append es fs (append_attr e.key e.value e.groups fields)

append_entries-entries_of :
    (attrs : Attrs) (groups : List Str) (fields : LogFields)
    → append_entries (entries_of attrs groups) fields ≡ append_attrs attrs groups fields
unfolding append_entries entries_of append_attr
append_entries-entries_of no_attrs groups fields = refl
append_entries-entries_of (attr key v rest) groups fields =
    append_entries-entries_of rest groups (append_attr key v groups fields)

-- The fields of a record are those of its tree, flattened from the handler's groups.
attr_fields-derived :
    (ds : List Derivation) (h : LogrusHandler) (attrs : Attrs)
    → attr_fields (derived ds h) attrs
      ≡ append_attrs (tree ds attrs) h.groups (append_entries h.attrs [])
unfolding attr_fields derived tree with_attrs with_group append_attr
attr_fields-derived [] h attrs = refl
attr_fields-derived (attrs_added added ∷ ds) h attrs =
    attr_fields-derived ds (with_attrs added h) attrs
    ∙ (ap (append_attrs (tree ds attrs) h.groups) (
          append_entries-append h.attrs (entries_of added h.groups) []
          ∙ append_entries-entries_of added h.groups (append_entries h.attrs []))
        ∙ sym (append_attrs-append_tree added (tree ds attrs) h.groups (append_entries h.attrs [])))
attr_fields-derived (group_opened name ∷ ds) h attrs = elim (Bool-cases (str_eq name [])) [
  | inl e ↦ attr_fields-derived ds (with_group name h) attrs ∙ rw e refl
  | inr e ↦ attr_fields-derived ds (with_group name h) attrs ∙ rw e refl
]

-- However a logger is derived by With and WithGroup, the fields of its records are those of the tree
-- that slog gives them, flattened to keys with dots.
pub slog_tree :
    (ds : List Derivation) (attrs : Attrs)
    → attr_fields (derived ds new_slog_handler) attrs ≡ append_attrs (tree ds attrs) [] []
unfolding append_entries
slog_tree ds attrs = attr_fields-derived ds new_slog_handler attrs
