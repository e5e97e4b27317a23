-- ===== src/Errors.antt =====
-- Error values: the sentinels of handlers/tools.go and infrastructure/searxng/client.go, and the
-- wrapping that `fmt.Errorf("…: %w", …, err)` makes.
use mcp_searxng.Prelude.{Bool, true, false, ◌++◌, Result, err}
use mcp_searxng.Text.{Str, str}

pub data Sentinel : Type 0 where
  search_failed query_too_long page_too_large invalid_query api_client : Sentinel

pub data GoError : Type 0 where
  sentinel : Sentinel → GoError
  wrap : Str → GoError → GoError
  -- An error of another package, by its text.
  other : Str → GoError

unfoldable pub sentinel_text : Sentinel → Str
sentinel_text search_failed = str "search failed"
sentinel_text query_too_long = str "query exceeds maximum length"
sentinel_text page_too_large = str "page number exceeds maximum"
sentinel_text invalid_query = str "query contains invalid characters"
sentinel_text api_client = str "API error"

-- err.Error()
unfoldable pub error_text : GoError → Str
unfolding sentinel_text
error_text (sentinel s) = sentinel_text s
error_text (wrap prefix e) = prefix ++ (str ": " ++ error_text e)
error_text (other text) = text

-- Two sentinels are the same value.
unfoldable pub same : Sentinel → Sentinel → Bool
same search_failed search_failed = true
same query_too_long query_too_long = true
same page_too_large page_too_large = true
same invalid_query invalid_query = true
same api_client api_client = true
same _ _ = false

-- errors.Is
unfoldable pub is_error : GoError → Sentinel → Bool
unfolding same
is_error (sentinel s) t = same s t
is_error (wrap prefix e) t = is_error e t
is_error (other text) t = false

-- A call that fails with its error wrapped: `return nil, fmt.Errorf("prefix: %w", err)`.
abbrev pub fail {ℓ} : {A : Type ℓ} → Str → GoError → Result GoError A
fail prefix e = err (wrap prefix e)
