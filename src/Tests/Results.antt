-- ===== src/Tests/Results.antt =====
-- A clean result on its way to the client.
use mcp_searxng.Prelude.{ℕ, ok, none, ◌≡◌, refl, inl, inr, [], ◌∷◌, some, map, arith}
use mcp_searxng.Text.{str, index_byte}
use mcp_searxng.Text.Utf8.{encode}
use mcp_searxng.Searxng.Wire.{RawSearchResult, RawSearchResponse}
use mcp_searxng.Handlers.Tools.Fidelity.{IsClean, IsWeb, IsCleanResult, verbatim, first}
use mcp_searxng.Handlers.Tools.Answered.{IsWhole, call_verbatim}
use mcp_searxng.Handlers.Tools.Errors.{IsAccepted, called}
use mcp_searxng.Handlers.Tools.Calls.{tool_params}
use mcp_searxng.Handlers.Tools.Types.{SearchOutput}
use mcp_searxng.Service.{new_search_service}
use mcp_searxng.Context.{background}
use mcp_searxng.Prelude.Int.{pos}
use mcp_searxng.Searxng.Client.{Client, Response, client_repository}
use mcp_searxng.Tests.ToolCalls.{good_reply, go_call, start}
use mcp_searxng.Tests.Samples.{
  text_url, text_clock, sample_json, sample_result, sample_response, steady_client,
}

abbrev clean_result : RawSearchResult
clean_result = record sample_result { url = str "http://h"; content = str "two words" }

abbrev clean_response : RawSearchResponse
clean_response = record sample_response { results = clean_result ∷ clean_result ∷ [] }

title-IsClean : IsClean (str "Go")
unfolding encode
title-IsClean = (str "Go", (refl, ground arith, ground arith))

content-IsClean : IsClean (str "two words")
unfolding encode
content-IsClean = (str "two words", (refl, ground arith, ground arith))

engine-IsClean : IsClean (str "ddg")
unfolding encode
engine-IsClean = (str "ddg", (refl, ground arith, ground arith))

category-IsClean : IsClean (str "general")
unfolding encode
category-IsClean = (str "general", (refl, ground arith, ground arith))

link-IsWeb : IsWeb text_url (str "http://h")
unfolding index_byte
link-IsWeb = (str "http://h", (refl, refl, inl refl))

image-IsWeb : IsWeb text_url (str "https://i")
unfolding index_byte
image-IsWeb = (str "https://i", (refl, refl, inr refl))

clean_result-IsCleanResult : IsCleanResult text_url clean_result
clean_result-IsCleanResult =
    (title-IsClean, link-IsWeb, content-IsClean, engine-IsClean, category-IsClean, image-IsWeb, tt)

abbrev clean_client : Client ℕ
clean_client = record (steady_client good_reply) {
  json = record sample_json { unmarshal_response = λ s. ok clean_response };
}

abbrev good_response : Response
good_response = record { status = pos 200; body = record { bytes = str "{}"; fault = none } }

good_response-IsWhole : IsWhole good_response
good_response-IsWhole = ((ground arith, ground arith), refl, omega arith)

go_call-IsAccepted : IsAccepted (tool_params go_call)
go_call-IsAccepted = ((λ e. cc e), omega arith, ground arith)

call_verbatim_example :
    (output : SearchOutput) × ((called text_url text_clock
        (new_search_service (client_repository clean_client))
        go_call
        background
        start).0
      ≡ ok output)
    × (output.results ≡ map (verbatim text_clock) (first (some 1) clean_response.results))
call_verbatim_example =
    call_verbatim text_url text_clock clean_client go_call background start
      (str "http://searxng/search") good_response clean_response go_call-IsAccepted refl refl
      good_response-IsWhole refl (clean_result-IsCleanResult, (clean_result-IsCleanResult, tt))
