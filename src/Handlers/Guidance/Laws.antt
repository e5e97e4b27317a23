-- ===== src/Handlers/Guidance/Laws.antt =====
-- The guidance resources, and the tools that the instructions name.
use mcp_searxng.Prelude.{◌≡◌, refl, Bool, true, ◌||◌, List, [], ◌∷◌, Result, ok, All, All-append}
use mcp_searxng.Text.{Str, has_prefix}
use mcp_searxng.Text.Utf8.{encode}
use mcp_searxng.Errors.{GoError}
use mcp_searxng.Handlers.Registration.{Tool, tool_definitions}
use mcp_searxng.Handlers.Guidance.{
  Resource, ResourceContents, Resources, guidance_base_uri, server_instructions,
  add_guidance_resources,
}

-- A resource below the base URI whose handler gives contents with its own URI and type.
abbrev pub IsServed : Resource × Result GoError (List ResourceContents) → Type 0
IsServed (r, result) =
    (has_prefix guidance_base_uri r.uri ≡ true)
    × ((contents : List ResourceContents) × (result ≡ ok contents)
        × All (λ (c : ResourceContents). (c.uri ≡ r.uri) × (c.mime_type ≡ r.mime_type)) contents)

-- Registering the guidance adds a resource that is served as it is registered.
pub add_guidance_resources-IsServed :
    (server : Resources) → All IsServed server → All IsServed (add_guidance_resources server)
unfolding add_guidance_resources has_prefix
add_guidance_resources-IsServed server h =
    All-append IsServed server _ h ((refl, (_, refl, ((refl, refl), tt))), tt)

-- A text occurs in another.
unfoldable pub mentions : Str → Str → Bool
mentions word [] = has_prefix word []
mentions word (c ∷ s) = has_prefix word (c ∷ s) || mentions word s

-- The instructions for the client name every tool, and the base of the guidance.
pub instructions_name_tools :
    All (λ (tool : Tool). mentions tool.name server_instructions ≡ true) tool_definitions
    × (mentions guidance_base_uri server_instructions ≡ true)
unfolding mentions has_prefix server_instructions encode tool_definitions
instructions_name_tools = ((refl, (refl, (refl, (refl, (refl, tt))))), refl)
