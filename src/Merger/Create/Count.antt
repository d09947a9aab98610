-- ===== src/Merger/Create/Count.antt =====
-- About CreateStatWindows of merger.go and the number of points in its windows.
use mathlib.Core.Path.{subst}
use native.Mathlib.Nat.{div-add-mod', mod-lt, mul-le-mul_right, mul-mod_left, suc-mul}
use btrdb_server.Base.{
  ap, ◌∙◌, Bool, true, false, ◌&&◌, leb, ◌%◌, ◌-◌, ◌*◌, ◌/◌, Bool-cases, inl, inr, Option, some, ℕ,
  suc, ◌+◌, ◌^◌, ◌≤◌, ◌<◌, ◌≡◌, refl, List, [], ◌∷◌, ltb, ◌==◌, if◌then◌else◌, ◌||◌, arith, if_both,
  length, sym, ==_iff,
}
use btrdb_server.Base.Word.{add64}
use btrdb_server.Qtree.Node.{Rec}
use btrdb_server.Qtree.Stats.{Floats}
use btrdb_server.Merger.Windows.{StatRecord}
use btrdb_server.Merger.Windows.Correct.{StrictFrom}
use btrdb_server.Merger.Create.{
  first_of_window, update_window, add_record, window_time, create_stat_windows,
}

-- A window of width w starts at t, a multiple of w from tStart on, and time is in it.
abbrev pub is_window_of : ℕ → ℕ → ℕ → ℕ → Bool
is_window_of t_start w t time =
    (leb t_start t && (t - t_start) % w == 0) && (leb t time && ltb time (t + w))

module _ {V : Type 0} where
  -- The counts of the windows that start at t.
  abbrev pub count_at : ℕ → List (StatRecord V) → ℕ
  count_at t [] = 0
  count_at t (x ∷ xs) = (if x.time == t then x.count else 0) + count_at t xs

  -- The records from the cutoff to the end, which is included, that are in the window that starts at t.
  abbrev pub falls_into : ℕ → ℕ → ℕ → ℕ → ℕ → List (Rec V) → ℕ
  falls_into cutoff t_start t_end w t [] = 0
  falls_into cutoff t_start t_end w t (r ∷ rz) =
      (if ltb r.time cutoff || ltb t_end r.time
        then 0
        else if is_window_of t_start w t r.time
        then 1
        else 0)
      + falls_into cutoff t_start t_end w t rz

  abbrev UpTo : ℕ → List (StatRecord V) → Type 0
  UpTo n [] = Unit
  UpTo n (x ∷ xs) = (x.count ≤ n) × UpTo n xs

  UpTo-weaken : (n m : ℕ) (xs : List (StatRecord V)) → n ≤ m → UpTo n xs → UpTo m xs
  UpTo-weaken n m [] h u = tt
  UpTo-weaken n m (x ∷ xs) h (u, us) = (omega arith, UpTo-weaken n m xs h us)

module _ {V : Type 0} (F : Floats V) (n : ℕ) (small : suc n < 2 ^ 64) (t : ℕ) (r : Rec V) where
  StrictFrom-add :
      (lo : ℕ) (xs : List (StatRecord V))
      → lo ≤ t
      → StrictFrom lo xs
      → StrictFrom lo (add_record F t r xs)
  unfolding add_record first_of_window update_window
  StrictFrom-add lo [] h s = (h, tt)
  StrictFrom-add lo (x ∷ xs) h (p, s) =
      if_both (StrictFrom lo) (ltb t x.time) (λ e. (h, (ground arith, s)))
        (λ e.
          if_both (StrictFrom lo) (t == x.time)
            (λ e'.
              if_both (λ y. StrictFrom lo (y ∷ xs)) (x.count == 0)
                (λ z. (h, subst (λ v. StrictFrom (suc v) xs) (sym ((==_iff t x.time).0 e')) s))
                (λ z. (p, s)))
            (λ e'. (p, StrictFrom-add (suc x.time) xs (ground arith) s)))

  UpTo-add : (xs : List (StatRecord V)) → UpTo n xs → UpTo (suc n) (add_record F t r xs)
  unfolding add_record first_of_window update_window add64
  UpTo-add [] u = (omega arith, tt)
  UpTo-add (x ∷ xs) (u, us) =
      if_both (UpTo (suc n)) (ltb t x.time)
        (λ e. (omega arith, (omega arith, UpTo-weaken n (suc n) xs (omega arith) us)))
        (λ e.
          if_both (UpTo (suc n)) (t == x.time)
            (λ e'. (ground arith, UpTo-weaken n (suc n) xs (omega arith) us))
            (λ e'. (omega arith, UpTo-add xs us)))

  count_at-add :
      (u : ℕ) (xs : List (StatRecord V))
      → UpTo n xs
      → count_at u (add_record F t r xs) ≡ (if t == u then 1 else 0) + count_at u xs
  unfolding add_record first_of_window update_window add64
  count_at-add u [] h = refl
  count_at-add u (x ∷ xs) (h, hs) = ground (arith, count_at-add u xs hs)

-- The multiples of w from a on and from b on that a number lies between are the same.
multiple-le : (w a b r : ℕ) → a * w ≤ b * w + r → r < w → a ≤ b
multiple-le w a b r h k = elim (Bool-cases (ltb b a)) [
  | inl e ↦
      let m : suc b * w ≤ a * w = mul-le-mul_right w (ground (arith, e)) in
      absurd (omega (arith, m, suc-mul b w))
  | inr e ↦ ground (arith, e)
]

window_time-window_of :
    (t_start w t time : ℕ)
    → 0 < w
    → t_start ≤ time
    → (window_time t_start w time == t) ≡ is_window_of t_start w t time
unfolding window_time
window_time-window_of t_start w t time p h = ground (arith, forward, backward)
  where
    d : ℕ
    d = (time - t_start) / w

    parts : d * w + (time - t_start) % w ≡ time - t_start
    parts = div-add-mod' (time - t_start) w

    below : (time - t_start) % w < w
    below = mod-lt (time - t_start) p

    forward : d * w + t_start ≡ t → is_window_of t_start w t time ≡ true
    forward e =
        let m : (t - t_start) % w ≡ 0 =
          ap (λ (i : ℕ). i % w) (omega (arith, e)) ∙ mul-mod_left d w in
        ground (arith, e, m, parts, below)

    backward : is_window_of t_start w t time ≡ true → d * w + t_start ≡ t
    backward e =
        let k = (t - t_start) / w in
        let q = div-add-mod' (t - t_start) w in
        let z : (t - t_start) % w ≡ 0 = ground (arith, e) in
        let f : t_start ≤ t = ground (arith, e) in
        let g : t ≤ time = ground (arith, e) in
        let u : time < t + w = ground (arith, e) in
        let l = multiple-le w k d ((time - t_start) % w) (omega arith) below in
        let l' = multiple-le w d k (time - t) (omega arith) (omega arith) in
        let same : k ≡ d = omega (arith, l, l') in omega (arith, ap (λ (i : ℕ). i * w) same, q)

-- What CreateStatWindows returns, when wz are the windows so far.
abbrev Created : {V : Type 0} → ℕ → ℕ → Option (List (StatRecord V)) → Type 0
Created {V} t n res =
    (out : List (StatRecord V)) × (res ≡ some out) × StrictFrom 0 out × (count_at t out ≡ n)

module _ {V : Type 0} (F : Floats V) (cutoff t_start t_end w : ℕ) (p : 0 < w)
    (q : t_start ≤ cutoff) where
  create-Created :
      (t n : ℕ) (wz : List (StatRecord V)) (rz : List (Rec V))
      → n + length rz < 2 ^ 64
      → UpTo n wz
      → StrictFrom 0 wz
      → (k : ℕ) → count_at t wz + falls_into cutoff t_start t_end w t rz ≡ k
      → Created t k (create_stat_windows F cutoff t_start t_end w wz rz)
  unfolding create_stat_windows
  create-Created t n wz [] h u s k c = (wz, refl, s, omega (arith, c))
  create-Created t n wz (r ∷ rz) h u s k c =
      elim (Bool-cases (ltb r.time cutoff || ltb t_end r.time)) [
        | inl e ↦ rw e (create-Created t n wz rz (omega arith) u s k (ground (arith, e, c)))
        | inr e ↦
            let v = window_time t_start w r.time in
            let positive : (w == 0) ≡ false = ground arith in
            let same = window_time-window_of t_start w t r.time p (ground (arith, e)) in
            rw (e, positive)
              (create-Created t (suc n) (add_record F v r wz) rz (omega arith)
                (UpTo-add F n (omega arith) v r wz u)
                (StrictFrom-add F n (omega arith) v r 0 wz (omega arith) s) k
                (ground (arith, e, same, c, count_at-add F n (omega arith) v r t wz u)))
      ]

  -- From fewer than 2 ^ 64 records, with 0 < w < 2 ^ 63 and tStart at most tCutoffStart, CreateStatWindows
  -- returns windows that ascend strictly in time. For each t, the windows at t count the records from
  -- tCutoffStart to tEnd, included, whose time is at least t and below t + w, if t is tStart or a multiple of
  -- w after it, and no records otherwise.
  pub create_stat_windows_lem :
      (t : ℕ) (rz : List (Rec V))
      → w < 2 ^ 63
      → length rz < 2 ^ 64
      → (out : List (StatRecord V)) × (create_stat_windows F cutoff t_start t_end w [] rz
          ≡ some out)
        × StrictFrom 0 out
        × (count_at t out ≡ falls_into cutoff t_start t_end w t rz)
  create_stat_windows_lem t rz _ h = create-Created t 0 [] rz (omega arith) tt tt _ (omega arith)
