-- ===== src/Rez/Queue.antt =====
-- About the loop of Release of internal/rez/mercy.go over the queue.
use btrdb_server.Base.{
  ℕ, ◌≡◌, refl, Bool, true, false, Option, none, some, List, [], ◌∷◌, ◌++◌, All, ap, if_both,
}
use btrdb_server.Rez.{winner}

-- The queue has requests with an error, then c, which has none, and then the rest.
abbrev pub IsFirstLive : (ℕ → Bool) → ℕ → List ℕ → List ℕ → Type 0
IsFirstLive expired c rest cs =
    (before : List ℕ) × (cs ≡ before ++ c ∷ rest)
    × All (λ d. expired d ≡ true) before
    × (expired c ≡ false)

-- What the loop over the queue finds.
abbrev pub Found : (ℕ → Bool) → List ℕ → Option (ℕ × List ℕ) → Type 0
Found expired cs none = All (λ d. expired d ≡ true) cs
Found expired cs (some (c, rest)) = IsFirstLive expired c rest cs

Found-skip :
    (expired : ℕ → Bool) (c : ℕ) (cs : List ℕ) (res : Option (ℕ × List ℕ))
    → expired c ≡ true
    → Found expired cs res
    → Found expired (c ∷ cs) res
Found-skip expired c cs none e f = (e, f)
Found-skip expired c cs (some (d, rest)) e (before, q, a, l) =
    (c ∷ before, ap (λ ds. c ∷ ds) q, (e, a), l)

pub winner-Found : (expired : ℕ → Bool) (cs : List ℕ) → Found expired cs (winner expired cs)
unfolding winner
winner-Found expired [] = tt
winner-Found expired (c ∷ cs) =
    if_both (Found expired (c ∷ cs)) (expired c)
      (λ e. Found-skip expired c cs (winner expired cs) e (winner-Found expired cs))
      (λ e. ([], refl, tt, e))
