-- ===== src/Qtree/Insert/Children.antt =====
-- An insert into the children of a core node, one group of records after the other.
use mathlib.Core.Path.{subst}
use btrdb_server.Base.{
  ℕ, ◌+◌, ◌*◌, ◌≤◌, ◌<◌, ◌≡◌, refl, ap, sym, ◌∙◌, Option, none, some, List, [], ◌∷◌, ◌++◌, arith,
  length, inl, inr, false, ◌>>=◌, if_both, Option-cases,
}
use btrdb_server.Bstore.Consts.{kfactor}
use btrdb_server.Qtree.Node.{
  Rec, Header, Node, Slots, leaf, core, contents, slot_contents, slot_count,
}
use btrdb_server.Qtree.Window.{
  width, child_pw, clamp_bucket, child_start_time, end_time, child_pw-lt, arbitrary_start_time,
}
use btrdb_server.Qtree.Leaf.Sorted.{SortedFrom, Below}
use btrdb_server.Qtree.Stats.{Floats, stats_of}
use btrdb_server.Qtree.Tally.{tally, tally-append}
use btrdb_server.Qtree.Shape.{IsNode, AreSlots}
use btrdb_server.Qtree.Insert.{
  insert_core, insert_group, insert_groups, new_core_node, new_vector_node, child_at, wchild,
  put_child, child_is_leaf, run_groups, last_time,
}
use btrdb_server.Qtree.Insert.Entries.{
  Aligned, Spans, Spans-child, Aligned-child, Aligned-next, new_core_node-IsNode,
  new_vector_node-IsNode, tally-new_core_node, old_contents, put_child-AreSlots,
  slot_count-put_child, tally-put_child, child_at-IsNode,
}
use btrdb_server.Qtree.Insert.Groups.{
  IsGroup, AreGroups, tally_groups, tally-run_groups, first_groups, last_time-lt,
}
use btrdb_server.Qtree.Insert.Leaves.{Inserted}
use btrdb_server.Qtree.Insert.Crowded.{DroppedIf, DroppedIf-mono, DroppedIf-append, old_contents-le}

-- The rounds that an insert needs: a leaf may become a core node first.
abbrev pub rounds : {V : Type 0} → Node V → ℕ
rounds (leaf h rs) = 2 * h.pw + 2
rounds (core h sl) = 2 * h.pw + 1

pub rounds-le : {V : Type 0} (pw lo hi : ℕ) (n : Node V) → IsNode pw lo hi n → rounds n ≤ 2 * pw + 2
rounds-le pw lo hi (leaf h rs) w = omega arith
rounds-le pw lo hi (core h sl) w = omega arith

-- The child that wchild hands to the recursive call covers its bucket and holds what was there.
abbrev IsChild : {V : Type 0} → Header → ℕ → Slots V → Node V → Type 0
IsChild {V} h b sl n =
    IsNode (child_pw h.pw) (h.start + b * width h.pw) (h.start + b * width h.pw + width h.pw) n
    × ((φ : Rec V → ℕ) → tally φ (contents n) ≡ tally φ (old_contents b sl))

module _ {V : Type 0} (gen : ℕ) (h : Header) (b : ℕ) (sl : Slots V) (a : Aligned h.pw h.start) where
  bucket_Aligned : Aligned (child_pw h.pw) (h.start + b * width h.pw)
  bucket_Aligned = Aligned-child h.pw _ (Aligned-next h.pw h.start b a)

  no_contents : child_at b sl ≡ none → old_contents b sl ≡ []
  unfolding old_contents
  no_contents e = rw (e, old_contents) refl

  vector-IsChild :
      child_at b sl ≡ none
      → IsChild h b sl (new_vector_node gen (child_start_time h b) (child_pw h.pw))
  unfolding child_start_time arbitrary_start_time
  vector-IsChild e = (
    new_vector_node-IsNode V gen _ _ _ bucket_Aligned,
    λ φ. unfold new_vector_node contents in ap (tally φ) (sym (no_contents e)),
  )

  core-IsChild :
      child_at b sl ≡ none
      → 1 ≤ child_pw h.pw
      → IsChild h b sl (new_core_node gen (child_start_time h b) (child_pw h.pw))
  unfolding child_start_time arbitrary_start_time
  core-IsChild e p = (
    new_core_node-IsNode V gen _ _ _ bucket_Aligned p (((Spans-child h.pw _).0 p)),
    λ φ. tally-new_core_node φ gen (child_pw h.pw) _ ∙ ap (tally φ) (sym (no_contents e)),
  )

  wchild-IsChild :
      (g : List (Rec V))
      → AreSlots h.pw h.start sl
      → IsChild h b sl (wchild gen h b (child_is_leaf h g) sl)
  unfolding wchild old_contents contents
  wchild-IsChild g w = elim (Option-cases (child_at b sl)) [
    | inl e ↦
        rw (e, wchild)
          (if_both (IsChild h b sl) (child_is_leaf h g) (λ t. vector-IsChild e)
            (λ t. core-IsChild e (not_leaf t)))
    | inr (n, e) ↦
        rw (e, wchild)
          (child_at-IsNode b sl h.pw h.start n w e, λ φ. ap (tally φ) (sym (some_contents n e)))
  ]
    where
      not_leaf : child_is_leaf h g ≡ false → 1 ≤ child_pw h.pw
      not_leaf t = unfold child_is_leaf in ground arith

      some_contents : (n : Node V) → child_at b sl ≡ some n → old_contents b sl ≡ contents n
      some_contents n e = rw (e, old_contents) refl

-- A function that inserts with the fuel f left.
abbrev pub Works :
    {V : Type 0} → ℕ → (Node V → List (Rec V) → Option (Node V × List (Rec V))) → Type 0
Works {V} f ins =
    (n : Node V) (pw lo hi : ℕ) (rs : List (Rec V))
    → rounds n ≤ f
    → IsNode pw lo hi n
    → Aligned pw lo
    → Spans pw lo hi
    → SortedFrom lo rs
    → Below hi rs
    → 1 ≤ length rs
    → Inserted pw lo hi n rs (ins n rs)

-- The same for the entries of a core node.
abbrev InsertedSlots :
    {V : Type 0} → Header → Slots V → ((Rec V → ℕ) → ℕ) → Option (Slots V × List (Rec V)) → Type 0
InsertedSlots {V} h sl new result =
    (sl' : Slots V) × (d : List (Rec V)) × (result ≡ some (sl', d))
    × AreSlots h.pw h.start sl'
    × (slot_count sl' ≡ kfactor)
    × ((φ : Rec V → ℕ)
        → tally φ (slot_contents sl') + tally φ d ≡ tally φ (slot_contents sl) + new φ)
    × DroppedIf d (λ φ. tally φ (slot_contents sl) + new φ)

module _ {V : Type 0} (F : Floats V) (sort : List (Rec V) → List (Rec V)) (gen f : ℕ)
    (ins : Node V → List (Rec V) → Option (Node V × List (Rec V))) (works : Works f ins)
    (h : Header) (a : Aligned h.pw h.start) (p : 1 ≤ h.pw) (fuel : 2 * h.pw ≤ f) where
  insert_group-Inserted :
      (b : ℕ) (g : List (Rec V)) (sl : Slots V)
      → AreSlots h.pw h.start sl
      → slot_count sl ≡ kfactor
      → IsGroup h b g
      → InsertedSlots h sl (λ φ. tally φ g) (insert_group F sort gen ins h (b, g) sl)
  unfolding insert_group
  insert_group-Inserted b g sl w c k =
      let (cn, ct) = wchild-IsChild gen h b sl a g w in
      let (n', d, e, w', t, l) =
        works (wchild gen h b (child_is_leaf h g) sl) _ _ _ g
          (omega
            (arith, rounds-le _ _ _ (wchild gen h b (child_is_leaf h g) sl) cn, child_pw-lt h.pw p))
          cn (bucket_Aligned gen h b sl a) (Spans-child h.pw _) k.2 k.3 k.1 in
      rw e (
        put_child b (stats_of F n') gen n' sl,
        d,
        refl,
        put_child-AreSlots b sl h.pw h.start _ gen n' w w',
        slot_count-put_child b sl _ gen n' ∙ c,
        λ φ. omega (arith, t φ, ct φ, tally-put_child φ b sl (stats_of F n') gen n' (omega arith)),
        DroppedIf-mono d
            (λ φ. tally φ (contents (wchild gen h b (child_is_leaf h g) sl)) + tally φ g)
            (λ φ. tally φ (slot_contents sl) + tally φ g)
            (λ φ. omega (arith, ct φ, old_contents-le φ b sl)) l,
      )

  insert_groups-Inserted :
      (gs : List (ℕ × List (Rec V))) (sl : Slots V)
      → AreSlots h.pw h.start sl
      → slot_count sl ≡ kfactor
      → AreGroups h gs
      → InsertedSlots h sl (λ φ. tally_groups φ gs) (insert_groups F sort gen ins h gs sl)
  unfolding insert_groups
  insert_groups-Inserted [] sl w c k = (sl, [], refl, w, c, λ φ. omega arith, inl refl)
  insert_groups-Inserted ((b, g) ∷ gs) sl w c (k, ks) =
      let (sl', d, e, w', c', t, l) = insert_group-Inserted b g sl w c k in
      let (sl'', d', e', w'', c'', t', l') = insert_groups-Inserted gs sl' w' c' ks in
      rw (e, e')
        (
          sl'',
          d ++ d',
          refl,
          w'',
          c'',
          λ φ. omega (arith, t φ, t' φ, tally-append φ d d'),
          DroppedIf-append d d' (λ φ. tally φ (slot_contents sl) + tally_groups φ ((b, g) ∷ gs))
              (DroppedIf-mono d (λ φ. tally φ (slot_contents sl) + tally φ g)
                (λ φ. tally φ (slot_contents sl) + tally_groups φ ((b, g) ∷ gs)) (λ φ. omega arith)
                l)
              (DroppedIf-mono d' (λ φ. tally φ (slot_contents sl') + tally_groups φ gs)
                (λ φ. tally φ (slot_contents sl) + tally_groups φ ((b, g) ∷ gs))
                (λ φ. omega (arith, t φ)) l'),
        )

  -- Its window panics are not met.
  core_runs :
      (sl : Slots V) (r : Rec V) (rs : List (Rec V))
      → h.start ≤ r.time
      → last_time r.time rs < end_time h
      → insert_core F sort gen ins h sl (r ∷ rs) ≡ (
          insert_groups F sort gen ins h (run_groups h (clamp_bucket h r.time) (r ∷ []) rs) sl
          >>= λ res. some (core (record h { gen = gen }) res.0, res.1))
  unfolding insert_core
  core_runs sl r rs q l = ground arith

  pub insert_core-Inserted :
      (lo hi : ℕ) (sl : Slots V) (rs : List (Rec V))
      → IsNode h.pw lo hi (core h sl)
      → SortedFrom lo rs
      → Below hi rs
      → 1 ≤ length rs
      → Inserted h.pw lo hi (core h sl) rs (insert_core F sort gen ins h sl rs)
  unfolding contents
  insert_core-Inserted lo hi sl [] w s b k = absurd (omega arith)
  insert_core-Inserted lo hi sl (r ∷ rs) w s b k =
      let above : h.start ≤ r.time = omega arith in
      let end : hi ≡ end_time h = unfold end_time in omega arith in
      let b' : Below (end_time h) (r ∷ rs) = subst (λ t. Below t (r ∷ rs)) end b in
      let (sl', d, e, w', c', t, l) =
        insert_groups-Inserted (run_groups h (clamp_bucket h r.time) (r ∷ []) rs) sl
          (subst (λ t. AreSlots h.pw t sl) (sym w.0) w.5) w.4 (first_groups h r rs above s.1 b') in
      rw (core_runs sl r rs above (last_time-lt _ r.time rs b'.0 b'.1), e)
        (
          core (record h { gen = gen }) sl',
          d,
          refl,
          (w.0, refl, p, w.3, c', subst (λ t. AreSlots h.pw t sl') w.0 w'),
          λ φ. omega (arith, t φ, tally-run_groups φ h (clamp_bucket h r.time) (r ∷ []) rs),
          DroppedIf-mono d
              (λ φ.
                tally φ (slot_contents sl)
                + tally_groups φ (run_groups h (clamp_bucket h r.time) (r ∷ []) rs))
              (λ φ. tally φ (slot_contents sl) + tally φ (r ∷ rs))
              (λ φ. omega (arith, tally-run_groups φ h (clamp_bucket h r.time) (r ∷ []) rs)) l,
        )
