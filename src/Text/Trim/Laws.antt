-- ===== src/Text/Trim/Laws.antt =====
-- Trimming on texts of visible ASCII characters.
use mathlib.Core.List.{reverse-reverse, reverse-cons, reverse_aux}
use mcp_searxng.Prelude.{
  ℕ, zero, ◌≤◌, ◌<◌, ◌≡◌, refl, ap, [], ◌∷◌, false, arith, All, reverse, map, All-append,
}
use mcp_searxng.Text.{Str}
use mcp_searxng.Text.Utf8.{decode_rune}
use mcp_searxng.Text.Trim.{is_space, pieces_from, drop_space, joined, trim_space}

abbrev pub IsVisible : ℕ → Type 0
IsVisible c = (0x21 ≤ c) × (c < 0x7f)

abbrev one_piece : ℕ → ℕ × Str
one_piece c = (c, c ∷ [])

pieces_of_visible : (s : Str) → All IsVisible s → pieces_from zero s ≡ map one_piece s
unfolding pieces_from
pieces_of_visible [] h = refl
pieces_of_visible (c ∷ s) (h, hs) = ground (arith, decode_visible, pieces_of_visible s hs)
  where
    decode_visible : decode_rune c s ≡ (c, 1)
    decode_visible = unfold decode_rune in ground arith

is_space_of_visible : (c : ℕ) → IsVisible c → is_space c ≡ false
unfolding is_space
is_space_of_visible c h = ground arith

-- Nothing is dropped from the front if the first piece is visible.
drop_space_of_visible : (s : Str) → All IsVisible s → drop_space (map one_piece s) ≡ map one_piece s
unfolding drop_space
drop_space_of_visible [] h = refl
drop_space_of_visible (c ∷ s) (h, hs) = ground (arith, is_space_of_visible c h)

joined_pieces : (s : Str) → joined (map one_piece s) ≡ s
unfolding joined
joined_pieces [] = refl
joined_pieces (c ∷ s) = ap (◌∷◌ c) (joined_pieces s)

All-reverse : (s : Str) → All IsVisible s → All IsVisible (reverse s)
All-reverse [] h = tt
All-reverse (c ∷ s) (h, hs) =
    rw (reverse-cons c s) (All-append IsVisible (reverse s) (c ∷ []) (All-reverse s hs) (h, tt))

map-reverse_aux :
    (s t : Str) → reverse_aux (map one_piece s) (map one_piece t) ≡ map one_piece (reverse_aux s t)
map-reverse_aux [] t = refl
map-reverse_aux (c ∷ s) t = map-reverse_aux s (c ∷ t)

map-reverse : (s : Str) → reverse (map one_piece s) ≡ map one_piece (reverse s)
map-reverse s = map-reverse_aux s []

pub trim_space_of_visible : (s : Str) → All IsVisible s → trim_space s ≡ s
unfolding trim_space
trim_space_of_visible s h =
    rw
      (
        pieces_of_visible s h,
        drop_space_of_visible s h,
        map-reverse s,
        drop_space_of_visible (reverse s) (All-reverse s h),
        ← map-reverse s,
        reverse-reverse (map one_piece s),
      )
      (joined_pieces s)
