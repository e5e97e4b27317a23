-- ===== src/Text/HostPort/Laws.antt =====
-- What net.SplitHostPort returns on the addresses that net/http and proxies write.
use native.Mathlib.Numerals.{add-one}
use mcp_searxng.Prelude.{
  ℕ, suc, ◌≡◌, ◌≢◌, refl, [], ◌∷◌, ◌++◌, none, some, arith, sym, ap, ◌∙◌, false, ◌+◌, ◌-◌,
  All-append, length, take, drop, take-append, length-append, append_assoc,
}
use mcp_searxng.Text.{Str, str, begins_with, index_byte, last_index_byte}
use mcp_searxng.Text.Search.{
  Lacks, index_byte-append, last_index_byte-append, contains_byte_of_Lacks,
}
use mcp_searxng.Text.HostPort.{finish, plain, bracketed, split_host_port}

-- A part of an address with no colon and no bracket.
abbrev pub IsPlain : Str → Type 0
IsPlain s = Lacks b':' s × Lacks b'[' s × Lacks b']' s

Lacks-join : (c d : ℕ) (s t : Str) → Lacks c s → d ≢ c → Lacks c t → Lacks c (s ++ d ∷ t)
Lacks-join c d s t h e k = All-append (λ b. b ≢ c) s (d ∷ t) h (e, k)

drop_past : (s t : Str) (d : ℕ) → drop (length s + 1) (s ++ d ∷ t) ≡ t
drop_past [] t d = refl
drop_past (b ∷ s) t d = rw (sym (suc_shift (length s))) (drop_past s t d)
  where
    suc_shift : (n : ℕ) → suc (n + 1) ≡ suc n + 1
    suc_shift n = omega arith

drop_past_two : (s t : Str) (d e : ℕ) → drop (length s + 2) (s ++ d ∷ e ∷ t) ≡ t
drop_past_two [] t d e = refl
drop_past_two (b ∷ s) t d e = rw (sym (suc_shift (length s))) (drop_past_two s t d e)
  where
    suc_shift : (n : ℕ) → suc (n + 2) ≡ suc n + 2
    suc_shift n = omega arith

finish_lem :
    (s host : Str) (j k i : ℕ)
    → Lacks b'[' (drop j s)
    → Lacks b']' (drop k s)
    → finish s host j k i ≡ some (host, drop (i + 1) s)
unfolding finish
finish_lem s host j k i h l =
    ground
      (arith, contains_byte_of_Lacks b'[' (drop j s) h, contains_byte_of_Lacks b']' (drop k s) l)

plain_lem :
    (host port : Str)
    → IsPlain host
    → IsPlain port
    → plain (host ++ b':' ∷ port) (length host) ≡ some (host, port)
unfolding plain
plain_lem host port (hc, hl, hr) (pc, pl, pr) =
    rw (take-append host (b':' ∷ port), contains_byte_of_Lacks b':' host hc)
      (finish_lem (host ++ b':' ∷ port) host 0 0 (length host)
          (Lacks-join b'[' b':' host port hl (omega arith) pl)
          (Lacks-join b']' b':' host port hr (omega arith) pr)
        ∙ ap (λ (p : Str). some (host, p)) (drop_past host port b':'))

begins_with_of_Lacks :
    (c d : ℕ) (s t : Str) → Lacks c s → d ≢ c → begins_with c (s ++ d ∷ t) ≡ false
begins_with_of_Lacks c d [] t h e = ground arith
begins_with_of_Lacks c d (b ∷ s) t h e = ground arith

-- A host name or an IPv4 address, with its port.
pub split_host_port_plain :
    (host port : Str)
    → IsPlain host
    → IsPlain port
    → split_host_port (host ++ b':' ∷ port) ≡ some (host, port)
unfolding split_host_port
split_host_port_plain host port h p = ground (
  arith,
  last_index_byte-append b':' host port p.0,
  begins_with_of_Lacks b'[' b':' host port h.1 (omega arith),
  plain_lem host port h p,
)

module _ (host port : Str) (hl : Lacks b'[' host) (hr : Lacks b']' host) (h : IsPlain port) where
  abbrev address : Str
  address = b'[' ∷ host ++ b']' ∷ b':' ∷ port

  drop_port : drop (length host + 2 + 1) address ≡ port
  drop_port = rw (add-one (length host + 2)) (drop_past_two host port b']' b':')

  closing : index_byte b']' address ≡ some (length host + 1)
  closing =
      index_byte-append b']' (b'[' ∷ host) (b':' ∷ port) (omega arith, hr)
      ∙ ap (λ (n : ℕ). some n) (sym (add-one (length host)))

  host_part : take (length host + 1 - 1) (drop 1 address) ≡ host
  host_part =
      let e : length host + 1 - 1 ≡ length host = omega arith in
      rw e (take-append host (b']' ∷ b':' ∷ port))

  no_bracket : Lacks b'[' (drop 1 address)
  no_bracket = Lacks-join b'[' b']' host (b':' ∷ port) hl (omega arith) (omega arith, h.1)

  no_closing : Lacks b']' (drop (length host + 1 + 1) address)
  no_closing =
      rw (add-one (length host + 1)) (rw (drop_past host (b':' ∷ port) b']') (omega arith, h.2))

  long_enough : length address ≡ length host + 3 + length port
  long_enough = omega (arith, length-append host (b']' ∷ b':' ∷ port))

  bracketed_lem : bracketed address (length host + 2) ≡ some (host, port)
  unfolding bracketed
  bracketed_lem = ground (
    arith,
    closing,
    long_enough,
    host_part,
    drop_port,
    finish_lem address host 1 (length host + 1 + 1) (length host + 2) no_bracket no_closing,
  )

  -- An IPv6 address in brackets, with its port.
  pub split_host_port_bracketed : split_host_port address ≡ some (host, port)
  unfolding split_host_port
  split_host_port_bracketed = ground (arith, last_colon, bracketed_lem)
    where
      last_colon : last_index_byte b':' address ≡ some (length host + 2)
      last_colon =
          ap (last_index_byte b':') (sym (append_assoc (b'[' ∷ host) (b']' ∷ []) (b':' ∷ port)))
          ∙ last_index_byte-append b':' (b'[' ∷ host ++ b']' ∷ []) port h.0
          ∙ ap (λ (n : ℕ). some n) (omega (arith, length-append host (b']' ∷ [])))

split_host_port_tests :
    (split_host_port (str "10.0.0.1:80") ≡ some (str "10.0.0.1", str "80"))
    × (split_host_port (str "[::1]:80") ≡ some (str "::1", str "80"))
    × (split_host_port (str "::1") ≡ none)
    × (split_host_port (str "10.0.0.1") ≡ none)
    × (split_host_port (str "[::1]") ≡ none)
unfolding split_host_port
split_host_port_tests = (refl, refl, refl, refl, refl)
