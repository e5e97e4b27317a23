-- ===== src/Text/HostPort.antt =====
-- net.SplitHostPort. An error is `none`: its callers only test for it.
pub mod Laws
use mcp_searxng.Prelude.{ℕ, ◌+◌, ◌-◌, Option, none, some, ◌==◌, if◌then◌else◌, length, take, drop}
use mcp_searxng.Text.{Str, index_byte, last_index_byte, contains_byte, begins_with}

-- The last two tests, from the places where each bracket may not stand any more.
finish : Str → Str → ℕ → ℕ → ℕ → Option (Str × Str)
finish hostport host j k i =
    if contains_byte b'[' (drop j hostport)
    then none
    else if contains_byte b']' (drop k hostport)
    then none
    else some (host, drop (i + 1) hostport)

-- "[host]:port", with the last colon at `i`
bracketed : Str → ℕ → Option (Str × Str)
bracketed hostport i = elim (index_byte b']' hostport) [
  | none ↦ none
  | some end ↦
      if end + 1 == length hostport
      then none
      else if end + 1 == i
      then finish hostport (take (end - 1) (drop 1 hostport)) 1 (end + 1) i
      else none
]

-- "host:port", with the last colon at `i`
plain : Str → ℕ → Option (Str × Str)
plain hostport i =
    if contains_byte b':' (take i hostport) then none else finish hostport (take i hostport) 0 0 i

unfoldable pub split_host_port : Str → Option (Str × Str)
unfolding finish bracketed plain index_byte last_index_byte
split_host_port hostport = elim (last_index_byte b':' hostport) [
  | none ↦ none
  | some i ↦ if begins_with b'[' hostport then bracketed hostport i else plain hostport i
]
