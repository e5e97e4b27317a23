-- ===== src/Handlers/Registration/Names.antt =====
-- Which tools can be registered.
use mcp_searxng.Prelude.{
  ◌≡◌, ◌↔◌, refl, sym, ◌∙◌, ap, List, [], ◌∷◌, ◌++◌, append_assoc, append-nil, some, arith,
  Option-cases, inl, inr,
}
use mcp_searxng.Text.{Str, str, str_eq, str_eq_iff}
use mcp_searxng.Handlers.Registration.{
  Tool, ToolKind, search, search_news, search_images, search_videos, search_music, kind_named,
  Registered, register_tool, register_each,
}

-- The name that a handler is registered under.
abbrev pub name_of : ToolKind → Str
name_of search = str "search"
name_of search_news = str "search_news"
name_of search_images = str "search_images"
name_of search_videos = str "search_videos"
name_of search_music = str "search_music"

kind_named-name_of : (kind : ToolKind) → kind_named (name_of kind) ≡ some kind
unfolding kind_named str_eq
kind_named-name_of search = refl
kind_named-name_of search_news = refl
kind_named-name_of search_images = refl
kind_named-name_of search_videos = refl
kind_named-name_of search_music = refl

-- registerTool chooses a handler for its name and for no other.
kind_named_iff : (s : Str) (kind : ToolKind) → (kind_named s ≡ some kind) ↔ (s ≡ name_of kind)
unfolding kind_named
kind_named_iff s kind = (
  λ h. ground (
    arith,
    h,
    str_eq_iff s (str "search"),
    str_eq_iff s (str "search_news"),
    str_eq_iff s (str "search_images"),
    str_eq_iff s (str "search_videos"),
    str_eq_iff s (str "search_music"),
  ),
  λ e. ap kind_named e ∙ kind_named-name_of kind,
)

-- Each tool with the handler of its name, in order.
pub data RegisteredAs : List Tool → Registered → Type 0 where
  no_tool : RegisteredAs [] []
  next_tool :
      {tool : Tool} {kind : ToolKind} {tools : List Tool} {added : Registered}
      → tool.name ≡ name_of kind
      → RegisteredAs tools added
      → RegisteredAs (tool ∷ tools) ((tool, kind) ∷ added)

register_each-RegisteredAs :
    (tools : List Tool) (server out : Registered)
    → register_each tools server ≡ some out
    → (added : Registered) × RegisteredAs tools added × (out ≡ server ++ added)
unfolding register_each register_tool
register_each-RegisteredAs [] server out h = ([], no_tool, ground (arith, append-nil server))
register_each-RegisteredAs (tool ∷ tools) server out h =
    elim (Option-cases (kind_named tool.name)) [
      | inl e ↦ absurd (ground arith)
      | inr (kind, e) ↦
          let (added, as_named, same) =
            register_each-RegisteredAs tools (server ++ (tool, kind) ∷ []) out (ground arith) in
          (
            (tool, kind) ∷ added,
            next_tool ((kind_named_iff tool.name kind).0 e) as_named,
            same ∙ append_assoc server ((tool, kind) ∷ []) added,
          )
    ]

RegisteredAs-register_each :
    {tools : List Tool} {added : Registered}
    → RegisteredAs tools added
    → (server : Registered) → register_each tools server ≡ some (server ++ added)
unfolding register_each register_tool
RegisteredAs-register_each no_tool server = ground (arith, append-nil server)
RegisteredAs-register_each (next_tool {tool} {kind} {tools} {added} e r) server = ground (
  arith,
  (kind_named_iff tool.name kind).1 e,
  RegisteredAs-register_each r (server ++ (tool, kind) ∷ []),
  append_assoc server ((tool, kind) ∷ []) added,
)

-- Registering tools does not panic exactly if every tool has one of the five names; it then adds
-- each tool, in order, with the handler of its name, to those that the server has.
pub register_each_iff :
    (tools : List Tool) (server out : Registered)
    → (register_each tools server ≡ some out)
      ↔ ((added : Registered) × RegisteredAs tools added × (out ≡ server ++ added))
register_each_iff tools server out = (
  register_each-RegisteredAs tools server out,
  λ (added, r, same). RegisteredAs-register_each r server ∙ ap some (sym same),
)
