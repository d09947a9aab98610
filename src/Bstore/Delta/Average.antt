-- ===== src/Bstore/Delta/Average.antt =====
-- About the running average of the delta coder of internal/bstore/blocktypes.go.
use btrdb_server.Base.{ℕ, zero, suc, ◌+◌, ◌*◌, ◌^◌, ◌≤◌, ◌<◌, List, [], ◌∷◌, arith, set, inl}
use btrdb_server.Base.Word.{Within, IsWord, add64, div64, sub64, add64-IsWord}
use native.Mathlib.Decide.{dec_lt}
use btrdb_server.Bstore.Delta.{sum_deltas, average, cap_deltas, next_idx, no_deltas}

-- A history of three deltas, each between -b and b.
abbrev pub ThreeWithin : ℕ → List ℕ → Type 0
ThreeWithin b (x ∷ y ∷ z ∷ []) = Within b x × Within b y × Within b z
ThreeWithin b _ = ⊥

pub ThreeWithin-set :
    (b : ℕ) (h : List ℕ) (i d : ℕ) → ThreeWithin b h → Within b d → ThreeWithin b (set h i d)
ThreeWithin-set b (x ∷ y ∷ z ∷ []) zero d (p, q, r) w = (w, q, r)
ThreeWithin-set b (x ∷ y ∷ z ∷ []) (suc zero) d (p, q, r) w = (p, w, r)
ThreeWithin-set b (x ∷ y ∷ z ∷ []) (suc (suc zero)) d (p, q, r) w = (p, q, w)
ThreeWithin-set b (x ∷ y ∷ z ∷ []) (suc (suc (suc i))) d (p, q, r) w = (p, q, r)
ThreeWithin-set b [] i d h w = absurd h
ThreeWithin-set b (x ∷ []) i d h w = absurd h
ThreeWithin-set b (x ∷ y ∷ []) i d h w = absurd h
ThreeWithin-set b (x ∷ y ∷ z ∷ t ∷ l) i d h w = absurd h

pub ThreeWithin-no_deltas : (b : ℕ) → ThreeWithin b no_deltas
ThreeWithin-no_deltas b = ground arith

sum_one : (b x : ℕ) → 2 * b < 2 ^ 63 → Within b x → Within b (add64 0 x)
unfolding add64
sum_one b x h p = ground arith

sum_more : (b c x y : ℕ) → b + c < 2 ^ 63 → Within b x → Within c y → Within (b + c) (add64 x y)
unfolding add64
sum_more b c x y h p q = ground arith

div_two : (b s : ℕ) → 2 * b < 2 ^ 63 → Within (b + b) s → Within b (div64 s 2)
unfolding div64
div_two b s h p = ground arith

div_three : (b s : ℕ) → 3 * b < 2 ^ 63 → Within (b + b + b) s → Within b (div64 s 3)
unfolding div64
div_three b s h p = ground arith

-- A third of any int64, wrapped around or not.
div_three_any : (b s : ℕ) → 2 ^ 63 ≤ 3 * b → b < 2 ^ 63 → IsWord s → Within b (div64 s 3)
unfolding div64
div_three_any b s h k p = ground arith

third :
    (b x y z : ℕ)
    → 2 * b < 2 ^ 63
    → Within b x
    → Within b y
    → Within b z
    → Within b (div64 (add64 (add64 (add64 0 x) y) z) 3)
third b x y z h p q r = elim (dec_lt (3 * b) (2 ^ 63)) [
  | yes k ↦
      div_three b _ k (
        sum_more (b + b) b _ z (omega arith) (sum_more b b _ y (omega arith) (sum_one b x h p) q) r)
  | no k ↦ div_three_any b _ (omega arith) (omega arith) (add64-IsWord _ z)
]

-- The average of the first d of three deltas, where d is at most 3 and all lie between -b and b with
-- 2 * b < 2 ^ 63, lies between -b and b, also where their sum wraps around.
pub average-Within :
    (b d : ℕ) (h : List ℕ) → 2 * b < 2 ^ 63 → d ≤ 3 → ThreeWithin b h → Within b (average d h)
unfolding average sum_deltas
average-Within b zero h k l t = inl (omega arith)
average-Within b (suc zero) (x ∷ y ∷ z ∷ []) k l (p, q, r) =
    unfold div64 in ground (arith, sum_one b x k p)
average-Within b (suc (suc zero)) (x ∷ y ∷ z ∷ []) k l (p, q, r) =
    div_two b _ k (sum_more b b _ y (omega arith) (sum_one b x k p) q)
average-Within b (suc (suc (suc zero))) (x ∷ y ∷ z ∷ []) k l (p, q, r) = third b x y z k p q r
average-Within b (suc (suc (suc (suc d)))) h k l t = absurd (omega arith)
average-Within b (suc d) [] k l t = absurd t
average-Within b (suc d) (x ∷ []) k l t = absurd t
average-Within b (suc d) (x ∷ y ∷ []) k l t = absurd t
average-Within b (suc d) (x ∷ y ∷ z ∷ w ∷ h) k l t = absurd t

pub cap_deltas-le : (n : ℕ) → cap_deltas n ≤ 3
unfolding cap_deltas
cap_deltas-le n = ground arith

pub next_idx-lt : (i : ℕ) → i < 3 → next_idx i < 3
unfolding next_idx
next_idx-lt i h = ground arith

-- The difference of two values.
pub sub64-Within :
    (b c x y : ℕ) → b + c < 2 ^ 63 → Within b x → Within c y → Within (b + c) (sub64 x y)
unfolding sub64
sub64-Within b c x y h p q = ground arith
