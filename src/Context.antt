-- ===== src/Context.antt =====
-- The values that a context.Context carries: the request id of requestid/requestid.go and the client
-- address of handlers/clientip.go. Each package has a key type of its own.
pub mod Laws
pub mod Ids
use mcp_searxng.Prelude.{
  ℕ, zero, suc, ◌+◌, ◌-◌, ◌/◌, ◌%◌, List, [], ◌∷◌, Option, none, some, ltb, if◌then◌else◌,
}
use mcp_searxng.Text.{Str}

pub record Context : Type 0 where
  pub request_id : Option Str
  pub client_ip : Option Str

-- context.Background()
abbrev pub background : Context
background = record { request_id = none; client_ip = none }

abbrev or_empty : Option Str → Str
or_empty none = []
or_empty (some s) = s

-- requestid.With
unfoldable pub with_request_id : Context → Str → Context
with_request_id ctx id = record ctx { request_id = some id }

-- requestid.From
unfoldable pub request_id_from : Context → Str
request_id_from ctx = or_empty ctx.request_id

-- handlers.WithClientIP
unfoldable pub with_client_ip : Context → Str → Context
with_client_ip ctx ip = record ctx { client_ip = some ip }

-- handlers.ClientIPFrom
unfoldable pub client_ip_from : Context → Str
client_ip_from ctx = or_empty ctx.client_ip

-- A digit of hex.EncodeToString.
unfoldable pub hex_digit : ℕ → ℕ
hex_digit d = if ltb d 10 then b'0' + d else b'a' + (d - 10)

-- hex.EncodeToString
unfoldable pub hex_encode : List ℕ → Str
unfolding hex_digit
hex_encode [] = []
hex_encode (b ∷ bs) = hex_digit (b / 16) ∷ hex_digit (b % 16) ∷ hex_encode bs

-- requestIDBytes
abbrev pub request_id_bytes : ℕ
request_id_bytes = 16

-- make([]byte, n)
unfoldable pub make_bytes : ℕ → List ℕ
make_bytes zero = []
make_bytes (suc n) = 0 ∷ make_bytes n

-- rand.Read, which overwrites a buffer with the bytes that crypto/rand gives.
unfoldable pub read_random : List ℕ → List ℕ → List ℕ
read_random [] random = []
read_random (b ∷ bs) [] = b ∷ bs
read_random (b ∷ bs) (r ∷ random) = r ∷ read_random bs random

-- requestid.New, where crypto/rand gives these bytes.
unfoldable pub new_request_id : List ℕ → Str
new_request_id random = hex_encode (read_random (make_bytes request_id_bytes) random)
