-- ===== src/Service.antt =====
-- application/service.go: the search use case.
use mcp_searxng.Prelude.{Result, map_err}
use mcp_searxng.Errors.{GoError, wrap}
use mcp_searxng.Text.{str}
use mcp_searxng.Context.{Context}
use mcp_searxng.Domain.{SearchParams, SearchResponse}
use mcp_searxng.Domain.Repository.{SearchRepository}

pub record SearchService (S : Type 0) : Type 0 where
  pub repo : SearchRepository S

-- NewSearchService
abbrev pub new_search_service : {S : Type 0} → SearchRepository S → SearchService S
new_search_service repo = record { repo = repo }

-- SearchService.Search
unfoldable pub search :
    {S : Type 0} → SearchService S → Context → SearchParams → S → Result GoError SearchResponse × S
search s ctx params state =
    let (result, state') = s.repo.search ctx params state in
    (map_err (wrap (str "search")) result, state')
