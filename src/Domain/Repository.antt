-- ===== src/Domain/Repository.antt =====
-- domain/repository.go: what the search service asks of its repository. A repository keeps a state of
-- its own; a search may change it and returns a response or an error.
use mcp_searxng.Prelude.{Result}
use mcp_searxng.Errors.{GoError}
use mcp_searxng.Context.{Context}
use mcp_searxng.Domain.{SearchParams, SearchResponse}

pub record SearchRepository (S : Type 0) : Type 0 where
  pub search : Context → SearchParams → S → Result GoError SearchResponse × S
