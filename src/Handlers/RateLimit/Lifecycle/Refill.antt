-- ===== src/Handlers/RateLimit/Lifecycle/Refill.antt =====
-- What an unused token bucket is to those who ask it.
use mcp_searxng.Prelude.{
  ℕ, suc, All, true, false, ◌+◌, ◌-◌, ◌≤◌, ◌≡◌, refl, sym, ◌∙◌, ap, Bool, List, [], ◌∷◌, arith,
}
use mcp_searxng.Prelude.Int.{ℤ}
use mcp_searxng.Handlers.RateLimit.{Rate}

-- The times do not go back, and begin at a time or later.
abbrev pub IsSorted : ℕ → List ℕ → Type 0
IsSorted now [] = Unit
IsSorted now (t ∷ ts) = (now ≤ t) × IsSorted t ts

pub IsSorted-earlier : (m n : ℕ) (ts : List ℕ) → m ≤ n → IsSorted n ts → IsSorted m ts
IsSorted-earlier m n [] h sorted = tt
IsSorted-earlier m n (t ∷ ts) h (first, rest) = (omega (arith, h, first), rest)

abbrev pub count_true : List Bool → ℕ
count_true [] = 0
count_true (true ∷ bs) = suc (count_true bs)
count_true (false ∷ bs) = count_true bs

module _ (R : Rate) where
  open R use {Limit, Limiter, new_limiter, allow}

  -- What a limiter answers at the times.
  unfoldable pub answers : Limiter → List ℕ → List Bool
  answers l [] = []
  answers l (t ∷ ts) = (allow t l).0 ∷ answers (allow t l).1 ts

  -- From a time on, two limiters answer alike.
  abbrev pub Alike : ℕ → Limiter → Limiter → Type 0
  Alike now l k = (ts : List ℕ) → IsSorted now ts → answers l ts ≡ answers k ts

  -- What becomes of a new limiter that is asked at times that do not go back, the last of them by a
  -- time.
  pub data Used (limit : Limit) (burst : ℤ) : ℕ → Limiter → Type 0 where
    fresh : {n : ℕ} → Used limit burst n (new_limiter limit burst)
    asked :
        {m n t : ℕ} {l : Limiter}
        → Used limit burst m l
        → m ≤ t
        → t ≤ n
        → Used limit burst n (allow t l).1

  -- A bucket that is not asked for a while is full again: from then on it answers as a new one.
  abbrev pub Refills : Limit → ℤ → ℕ → Type 0
  Refills limit burst wait =
      (n now : ℕ) (l : Limiter)
      → Used limit burst n l
      → n + wait ≤ now
      → Alike now l (new_limiter limit burst)

  head_of : Bool → List Bool → Bool
  head_of b [] = b
  head_of b (c ∷ cs) = c

  tail_of : List Bool → List Bool
  tail_of [] = []
  tail_of (c ∷ cs) = cs

  -- Limiters that answer alike make the same decision, and answer alike after it.
  pub Alike-allow :
      (now t : ℕ) (l k : Limiter)
      → now ≤ t
      → Alike now l k
      → ((allow t l).0 ≡ (allow t k).0) × Alike t (allow t l).1 (allow t k).1
  unfolding answers head_of tail_of
  Alike-allow now t l k h alike = (
    ap (head_of (allow t l).0) (alike (t ∷ []) (h, tt)),
    λ ts sorted. ap tail_of (alike (t ∷ ts) (h, sorted)),
  )

  pub Alike-later : (m n : ℕ) (l k : Limiter) → m ≤ n → Alike m l k → Alike n l k
  Alike-later m n l k h alike ts sorted = alike ts (IsSorted-earlier m n ts h sorted)

  pub Alike-refl : (n : ℕ) (l : Limiter) → Alike n l l
  Alike-refl n l ts sorted = refl

  -- A full limiter in the place of one that has refilled.
  pub Alike-refilled :
      (limit : Limit) (burst : ℤ) (wait n now : ℕ) (l k : Limiter)
      → Refills limit burst wait
      → Used limit burst n l
      → n + wait ≤ now
      → Alike now l k
      → Alike now (new_limiter limit burst) k
  Alike-refilled limit burst wait n now l k refills used h alike ts sorted =
      sym (refills n now l used h ts sorted) ∙ alike ts sorted

  pub Used-later :
      (limit : Limit) (burst : ℤ) (m n : ℕ) (l : Limiter)
      → m ≤ n
      → Used limit burst m l
      → Used limit burst n l
  Used-later limit burst m n _ h fresh = fresh
  Used-later limit burst m n _ h (asked used past soon) = asked used past (omega (arith, h, soon))

  -- A rate holds: of the answers to times in a period, at most a number that its length bounds are
  -- positive, whatever was asked before.
  abbrev pub Bounded : Limit → ℤ → (ℕ → ℕ) → Type 0
  Bounded limit burst most =
      (n m : ℕ) (l : Limiter)
      → Used limit burst n l
      → (ts : List ℕ) → IsSorted n ts
      → All (λ t. t ≤ m) ts
      → count_true (answers l ts) ≤ most (m - n)
