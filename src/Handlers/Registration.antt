-- ===== src/Handlers/Registration.antt =====
-- handlers/registration.go: the tools and their registration.
pub mod Names
use mcp_searxng.Prelude.{Bool, true, List, [], ◌∷◌, ◌++◌, Option, none, some, if◌then◌else◌}
use mcp_searxng.Text.{Str, str, str_eq}
use mcp_searxng.Log
use mcp_searxng.Log.{Log, boolean, log_fields}

-- mcp.ToolAnnotations, of which a hint may be nil.
pub record ToolAnnotations : Type 0 where
  pub read_only_hint : Bool
  pub idempotent_hint : Bool
  pub open_world_hint : Option Bool
  pub destructive_hint : Option Bool

pub record Tool : Type 0 where
  pub name : Str
  pub title : Str
  pub description : Str
  pub annotations : ToolAnnotations

-- toolAnnotations
abbrev pub tool_annotations : ToolAnnotations
tool_annotations = record {
  read_only_hint = true;
  idempotent_hint = true;
  open_world_hint = some true;
  destructive_hint = none;
}

-- ToolDefinitions
unfoldable pub tool_definitions : List Tool
tool_definitions =
    record {
      name = str "search";
      title = str "Search the web";
      description =
          str
            "Search the web using SearXNG. Returns search results, answers, suggestions, and infoboxes. Use for general web queries when you need current information, definitions, facts, or links. Provide a concise query; optionally narrow with categories, language, time_range, safesearch, or max_results. Prefer this tool unless the user clearly wants news, images, videos, or music.";
      annotations = tool_annotations;
    }
    ∷ record {
      name = str "search_news";
      title = str "Search news";
      description =
          str
            "Search news using SearXNG. Convenience wrapper around search with categories=[news], time_range=day. Use when the user wants recent news or time-sensitive current events. Pass a targeted query and optional language/max_results.";
      annotations = tool_annotations;
    }
    ∷ record {
      name = str "search_images";
      title = str "Search images";
      description =
          str
            "Search images using SearXNG. Convenience wrapper around search with categories=[images]. Use when the user wants pictures, photos, or visual content. Pass a descriptive query and optional language/max_results.";
      annotations = tool_annotations;
    }
    ∷ record {
      name = str "search_videos";
      title = str "Search videos";
      description =
          str
            "Search videos using SearXNG. Convenience wrapper around search with categories=[videos]. Use when the user wants video content or clips. Pass a descriptive query and optional language/max_results.";
      annotations = tool_annotations;
    }
    ∷ record {
      name = str "search_music";
      title = str "Search music";
      description =
          str
            "Search music using SearXNG. Convenience wrapper around search with categories=[music]. Use when the user wants songs, artists, albums, or audio content. Pass a descriptive query and optional language/max_results.";
      annotations = tool_annotations;
    }
    ∷ []

-- The handlers that registerTool knows.
pub data ToolKind : Type 0 where
  search search_news search_images search_videos search_music : ToolKind

-- The switch of registerTool; `none` is its default branch, which panics.
unfoldable pub kind_named : Str → Option ToolKind
kind_named name =
    if str_eq name (str "search")
    then some search
    else if str_eq name (str "search_news")
    then some search_news
    else if str_eq name (str "search_images")
    then some search_images
    else if str_eq name (str "search_videos")
    then some search_videos
    else if str_eq name (str "search_music")
    then some search_music
    else none

-- What the calls of mcp.AddTool have added to the server.
abbrev pub Registered : Type 0
Registered = List (Tool × ToolKind)

-- registerTool; `none` is a panic.
unfoldable pub register_tool : Tool → Registered → Option Registered
unfolding kind_named
register_tool tool server = elim (kind_named tool.name) [
  | none ↦ none
  | some kind ↦ some (server ++ (tool, kind) ∷ [])
]

-- The loop of RegisterToolsWithSource
unfoldable pub register_each : List Tool → Registered → Option Registered
unfolding register_tool
register_each [] server = some server
register_each (tool ∷ tools) server = elim (register_tool tool server) [
  | none ↦ none
  | some server' ↦ register_each tools server'
]

-- logToolSurface; the log of a nil logger is `none`.
unfoldable pub log_tool_surface : List Tool → Option Log → Option Log
log_tool_surface tools none = none
log_tool_surface [] (some log) = some log
log_tool_surface (tool ∷ tools) (some log) = log_tool_surface tools (
    some (
      log_fields Log.info (str "mcp_tool_surface")
        ((str "tool", Log.text tool.name)
          ∷ (str "title", Log.text tool.title)
          ∷ (str "always_present", boolean true)
          ∷ [])
        log))

-- RegisterToolsWithSource
unfoldable pub register_tools_with_source :
    Registered → Option Log → Option (Registered × Option Log)
unfolding register_each log_tool_surface tool_definitions
register_tools_with_source server log = elim (register_each tool_definitions server) [
  | none ↦ none
  | some server' ↦ some (server', log_tool_surface tool_definitions log)
]
