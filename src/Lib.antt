-- ===== src/Lib.antt =====
-- mcp-searxng: an MCP server that offers the search of a SearXNG instance as five tools.
--
-- A tool call runs through the layers of the program. A tool handler (handlers/tools.go) checks
-- the input and asks the search service (application/service.go), which asks a repository
-- (domain/repository.go), which is the SearXNG client (infrastructure/searxng/client.go): it
-- writes the search as a query, sends it, and decodes the answer
-- (infrastructure/searxng/models.go). On the way back the service wraps an error, and the
-- handler turns a response into an output, with its texts and links sanitized, or an error into
-- a log line and a fixed public error. Round the handler stand the counts of the calls
-- (handlers/metrics.go) and the access log (handlers/accesslog.go), which gives the call its
-- request id and writes its arguments redacted (handlers/redact.go). In front of the tools
-- stand the HTTP middleware, with a rate limiter for all clients and for each
-- (handlers/ratelimit.go) that knows a client by its address (handlers/clientip.go).
-- cmd/server/main.go loads the configuration, wires these parts, and runs them over HTTP or
-- stdio, with an internal server for metrics (handlers/observability.go), until a signal.
--
-- The files and the code that they model:
-- - Errors: the sentinel errors and `fmt.Errorf` with %w, `err.Error()` and `errors.Is`.
-- - Domain, Domain/Repository: domain/models.go and domain/repository.go. A repository is a
--   record with the function `search`, over a state of its own.
-- - Service: application/service.go.
-- - Context: requestid/requestid.go (its bytes of crypto/rand are an argument; Context/Ids has
--   the buffers and the texts of ids as types), and the context values of handlers/clientip.go.
-- - Searxng/Wire: infrastructure/searxng/models.go. Searxng/Query: buildSearchQuery over
--   url.Values. Searxng/Client: the rest of client.go; `search` is Client.Search, `do_request`
--   doRequest, `read_reply` its second half, and the state is the metrics and the network.
-- - Handlers/Sanitize: SanitizeLog of handlers/middleware.go and sanitizeOutput of
--   handlers/tools.go. Handlers/ClientIp: extractClientIP and handlers/clientip.go.
--   Handlers/RateLimit: handlers/ratelimit.go; `allow_request` is Allow.
-- - Handlers/Middleware: handlers/middleware.go, RateLimitMiddleware of handlers/ratelimit.go,
--   MetricsMiddleware of handlers/metrics.go and buildHTTPHandler of cmd/server/main.go. A
--   handler takes a request and a state and gives its calls on the response writer and the
--   panic that it ends in, if any. Middleware/Flight cuts the chain behind Allow (`begin` and
--   `finish`), and Middleware/Life is a server with requests in flight: any of them may come to
--   its end next.
-- - Handlers/Redact: handlers/redact.go; a struct is a tree of named fields with their tags.
--   Handlers/Metrics: WrapToolHandler of handlers/metrics.go. Handlers/AccessLog:
--   handlers/accesslog.go. Handlers/Registration: handlers/registration.go; Handlers/ToolCall:
--   the handlers that it adds to the MCP server, each in its two wrappers.
--   Handlers/Observability: handlers/observability.go, with net/http's ServeMux in Mux.
--   Handlers/Guidance: handlers/guidance.go. Handlers/Collectors: what NewMetrics,
--   NewUpstreamMetrics, InstrumentServer and RegisterMetricsOnRegistry register with
--   prometheus.
-- - Handlers/RateLimit/Lifecycle: the rate limiter over time, as a relation whose steps are
--   calls of Allow and Stop and passes of the loop of evictStaleClients; Lifecycle/History
--   reads off such a run when an address was last used, Lifecycle/Refill says of a limiter that
--   it refills, by what those who ask it can see, and Lifecycle/Remembering sets it next to an
--   abstract limiter without eviction.
-- - Config: config/config.go. Logging: logging/logging.go. Logging/Slog: logging/slog.go, whose
--   With and WithGroup are `with_attrs` and `with_group`.
-- - Server: cmd/server/main.go: the -mode flag, the logger's options, the rate limits and the
--   startup banner. Server/Http: its two http.Servers and their muxes. Server/Process: Run,
--   runHTTP, runStdio and the shutdown, on a record of what happens around the process
--   (Surroundings), the lines that the served requests log among it; what they do to listeners,
--   servers, the rate limiter and the client is a list of effects, and a wait that does not end
--   is the outcome `waiting`. Server/Main: main. Server/Mcp: the handler that runHTTP makes
--   with the SDK, which finds the tool calls in a request and answers with their results, one
--   call after the other; Server/Mcp/Logs and Server/Mcp/Capacity put it behind the middleware.
-- - Handlers/Tools: handlers/tools.go. Types has its inputs and output, Output the conversion
--   of a response, Calls the validation and the handlers; `handle` is a tool's handler on an
--   input of that tool. The state is that of the repository and the log.
-- - Packages, Log: what is used of Go's library and of logrus. Text, Text/Utf8, Text/HostPort,
--   Text/Trim and Text/Decimal: strings as lists of bytes, and the functions of strings,
--   unicode/utf8, net and strconv that the program uses. Assoc: maps. Prelude: integers, lists
--   and results.
-- - Tests: the theorems at concrete inputs, and runs of the definitions.
--
-- A Go string is the list of its bytes, an `int` an integer without bounds except where the
-- program computes with one (`double64` wraps at 64 bits), a nil pointer `none`, and a call
-- that fails an `err`. strconv.Itoa runs on fuel of one more than the number, which each round
-- divides by ten; the loop of the eviction goroutine is a step of a relation, and every other
-- loop is over a list. net/url, the parsing of time, encoding/json (of bodies and of logged
-- arguments), net/http with resty, the lowering and quoting of text, envconfig, ozzo-
-- validation, prometheus, golang.org/x/time/rate, and the MCP SDK's reading of a request are
-- parameters: records of the functions that the program calls.
--
-- Not modelled: the buckets and help texts of the collectors, the wrapping of InstrumentServer
-- and the rest of promhttp, and what else the MCP SDK does. The mutex of the rate limiter is
-- modelled by the atomicity of the operations; requests interleave at two points only: up to
-- the answer of Allow a request is one step, and the rest of it is another; and the goroutines
-- of the servers by what they send before the wait ends; their lines in the log stand in one
-- order. The mux is that of clean paths and of patterns without wildcards. Panics are modelled
-- where a handler of the HTTP chain ends in one, for a tool without a handler and for a second
-- Stop. http.Error is one call on the writer, and the number of bytes that a Write takes is
-- part of the call.
pub mod Prelude
pub mod Text
pub mod Assoc
pub mod Domain
pub mod Errors
pub mod Packages
pub mod Log
pub mod Context
pub mod Service
pub mod Searxng
pub mod Handlers
pub mod Logging
pub mod Config
pub mod Server
pub mod Tests
