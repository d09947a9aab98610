-- ===== src/Bstore/Core/RoundTrip.antt =====
-- About Serialize and Deserialize of a Coreblock in internal/bstore/blocktypes.go, taken together.
use mathlib.Core.List.{append_assoc}
use btrdb_server.Base.{
  ℕ, suc, ◌^◌, ◌≤◌, ◌≡◌, ◌≢◌, Option, none, some, List, [], ◌∷◌, ◌++◌, arith, ◌∙◌, Bool, true,
  false, ◌&&◌, ◌==◌, if◌then◌else◌, Bool-cases, inl, inr, length, All, ap, refl,
}
use btrdb_server.Base.Word.{IsWord}
use btrdb_server.Bstore.Huff.{
  value, abs_zero, full_zero, write_signed_huff, read_signed_huff, write_abs_zero, write_full_zero,
  read_unsigned_huff, signed_of,
}
use btrdb_server.Bstore.Huff.RoundTrip.{read_signed_huff-write}
use btrdb_server.Bstore.Core.{
  Slot, Coreblock, Closures, new_closures, write_full, after_full, write_empty, after_empty,
  bottom_scan, is_index, write_slots, read_slots, clear_slots, serialize, deserialize,
}
use btrdb_server.Bstore.Core.Slots.{
  IsSlot, IsReady, IsReady-new, addr_dd, after_empty-IsReady, after_full-IsReady, read_full-write,
  read_empty-write,
}

-- What becomes of the entry `old` of the block that is filled: a written entry with an address
-- replaces it; one without clears its address and count and sets its generation.
unfoldable pub restored : Slot → Slot → Slot
restored s old =
    if s.addr == 0 then record old { addr = 0; count = 0; cgeneration = s.cgeneration } else s

unfoldable pub restored_all : List Slot → List Slot → List Slot
restored_all (s ∷ ss) (old ∷ olds) = restored s old ∷ restored_all ss olds
restored_all _ _ = []

abbrev IsBottom : Slot → Type 0
IsBottom s = (s.addr ≡ 0) × (s.cgeneration ≡ 0)

abbrev AtLeast : ℕ → Option ℕ → Type 0
AtLeast i none = Unit {0}
AtLeast i (some b) = i ≤ b

-- The scan is still running only over entries without address and generation.
scan_running : (l : List Slot) (i : ℕ) → (bottom_scan l i).0 ≡ true → All IsBottom l
unfolding bottom_scan
scan_running [] i h = tt
scan_running (s ∷ l) i h = ground (arith, scan_running l (suc i))

scan_index : (l : List Slot) (i : ℕ) → AtLeast i (bottom_scan l i).1
unfolding bottom_scan
scan_index [] i = tt
scan_index (s ∷ l) i = ground (arith, scan_index l (suc i))

not_index : (o : Option ℕ) (i : ℕ) → AtLeast (suc i) o → is_index o i ≡ false
unfolding is_index
not_index none i h = refl
not_index (some b) i h = ground arith

-- At bottomidx the entries that are left are cleared.
clear-restored :
    (l olds : List Slot)
    → length l ≡ length olds
    → All IsBottom l
    → clear_slots olds ≡ restored_all l olds
unfolding clear_slots restored_all restored
clear-restored [] [] e h = refl
clear-restored [] (o ∷ olds) e h = absurd (omega arith)
clear-restored (s ∷ l) [] e h = absurd (omega arith)
clear-restored (s ∷ l) (o ∷ olds) e ((a, g), h) =
    ground (arith, clear-restored l olds (omega arith) h)

read_abs_zero : (src : List ℕ) → read_signed_huff (write_abs_zero ++ src) ≡ some (0, src, abs_zero)
unfolding read_signed_huff read_unsigned_huff write_abs_zero signed_of
read_abs_zero src = refl

read_full_zero :
    (src : List ℕ) → read_signed_huff (write_full_zero ++ src) ≡ some (0, src, full_zero)
unfolding read_signed_huff read_unsigned_huff write_full_zero signed_of
read_full_zero src = refl

read_value :
    (v : ℕ) (rest : List ℕ)
    → IsWord v
    → v ≢ 2 ^ 63
    → read_signed_huff (write_signed_huff v ++ rest) ≡ some (v, rest, value)
read_value v rest h k = rw (read_signed_huff-write v rest h) (ground arith)

module _ (c : Closures) (ok : IsReady c) (s o : Slot) (hs : IsSlot s) (l olds : List Slot)
    (bottom : Option ℕ) (i : ℕ) (rest : List ℕ) where
  step_end :
      is_index bottom i ≡ true
      → read_slots c (o ∷ olds) (write_slots c bottom i (s ∷ l) ++ rest)
        ≡ some (clear_slots (o ∷ olds))
  unfolding write_slots read_slots
  step_end t = rw (t, read_full_zero rest)

  step_empty :
      (ss : List Slot)
      → is_index bottom i ≡ false
      → (s.addr == 0) ≡ true
      → read_slots (after_empty c s) olds (write_slots (after_empty c s) bottom (suc i) l ++ rest)
        ≡ some ss
      → read_slots c (o ∷ olds) (write_slots c bottom i (s ∷ l) ++ rest) ≡ some (restored s o ∷ ss)
  unfolding write_slots read_slots write_empty restored
  step_empty ss t z ih =
      rw (t, z, append_assoc, append_assoc, read_abs_zero _, read_empty-write c ok s hs o _, ih)

  step_full :
      (ss : List Slot)
      → is_index bottom i ≡ false
      → (s.addr == 0) ≡ false
      → read_slots (after_full c s) olds (write_slots (after_full c s) bottom (suc i) l ++ rest)
        ≡ some ss
      → read_slots c (o ∷ olds) (write_slots c bottom i (s ∷ l) ++ rest) ≡ some (restored s o ∷ ss)
  unfolding write_slots read_slots write_full restored
  step_full ss t z ih =
      let (w, k) = addr_dd c ok s hs in
      rw (t, z, append_assoc, append_assoc, read_value _ _ w k, read_full-write c ok s hs _, ih)

-- The loops, from entry i on.
read_slots-write :
    (l olds : List Slot) (c : Closures) (bottom : Option ℕ) (i : ℕ) (rest : List ℕ)
    → length l ≡ length olds
    → IsReady c
    → All IsSlot l
    → bottom ≡ (bottom_scan l i).1
    → read_slots c olds (write_slots c bottom i l ++ rest) ≡ some (restored_all l olds)
read_slots-write [] [] c bottom i rest n ok h e = unfold write_slots read_slots restored_all in refl
read_slots-write [] (o ∷ olds) c bottom i rest n ok h e = absurd (omega arith)
read_slots-write (s ∷ l) [] c bottom i rest n ok h e = absurd (omega arith)
read_slots-write (s ∷ l) (o ∷ olds) c bottom i rest n ok (hs, h) e =
    elim (Bool-cases ((bottom_scan l (suc i)).0 && (s.addr == 0 && s.cgeneration == 0))) [
      | inl t ↦
          step_end c ok s o hs l olds bottom i rest (found t)
          ∙ ap some (clear-restored (s ∷ l) (o ∷ olds) n (scan_running (s ∷ l) i (whole t)))
      | inr t ↦ elim (Bool-cases (s.addr == 0)) [
        | inl z ↦
            step_empty c ok s o hs l olds bottom i rest (restored_all l olds) (passed t) z (
              read_slots-write l olds (after_empty c s) bottom (suc i) rest (omega arith)
                (after_empty-IsReady c ok s hs) h (later t))
            ∙ tail
        | inr z ↦
            step_full c ok s o hs l olds bottom i rest (restored_all l olds) (passed t) z (
              read_slots-write l olds (after_full c s) bottom (suc i) rest (omega arith)
                (after_full-IsReady c ok s hs) h (later t))
            ∙ tail
      ]
    ]
  where
    test : Bool
    test = (bottom_scan l (suc i)).0 && (s.addr == 0 && s.cgeneration == 0)

    whole : test ≡ true → (bottom_scan (s ∷ l) i).0 ≡ true
    whole t = unfold bottom_scan in rw t

    found : test ≡ true → is_index bottom i ≡ true
    found t = rw e (unfold is_index bottom_scan in rw t (ground arith))

    later : test ≡ false → bottom ≡ (bottom_scan l (suc i)).1
    later t = e ∙ (unfold bottom_scan in rw t)

    passed : test ≡ false → is_index bottom i ≡ false
    passed t = rw (later t) (not_index _ i (scan_index l (suc i)))

    tail : some (restored s o ∷ restored_all l olds) ≡ some (restored_all (s ∷ l) (o ∷ olds))
    tail = unfold restored_all in refl

-- From a block whose addresses and generations are below 2 ^ 62 and whose counts are below 2 ^ 61,
-- with any float64 statistics, every entry with an address comes back bit for bit, whatever follows
-- in the buffer. An entry without comes back with address and count 0 and its own generation, and
-- with the statistics of the block that is filled, whose other fields stay.
pub deserialize-serialize_core :
    (src dst : Coreblock) (rest : List ℕ)
    → length src.slots ≡ length dst.slots
    → All IsSlot src.slots
    → deserialize dst (serialize src ++ rest)
      ≡ some (record dst { slots = restored_all src.slots dst.slots })
unfolding deserialize serialize
deserialize-serialize_core src dst rest n h =
    rw (read_slots-write src.slots dst.slots new_closures _ 0 rest n IsReady-new h refl)
