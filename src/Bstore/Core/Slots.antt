-- ===== src/Bstore/Core/Slots.antt =====
-- About the slots of a Coreblock of internal/bstore/blocktypes.go.
use mathlib.Core.List.{append_assoc}
use btrdb_server.Base.{ℕ, ◌+◌, ◌-◌, ◌^◌, ◌≤◌, ◌≡◌, ◌≢◌, some, List, ◌++◌, arith}
use btrdb_server.Base.Word.{IsWord, Within}
use btrdb_server.Bstore.Delta.{deltarize}
use btrdb_server.Bstore.Delta.Coder.{
  IsBounded, IsBounded-new, deltarize-Within, deltarize-IsBounded, dedeltarize-deltarize,
}
use btrdb_server.Bstore.Huff.{write_signed_huff}
use btrdb_server.Bstore.Vector.{write_nonzero}
use btrdb_server.Bstore.Vector.Step.{read_write, read_nonzero-write}
use btrdb_server.Bstore.Core.{
  Slot, Closures, new_closures, write_float, after_full, read_full, after_empty, read_empty,
  flag_bit,
}
use btrdb_server.Bstore.Core.Fields.{
  flag_bit_fields, Within-IsWord, after_m-IsBounded, after_e-IsBounded, read_float-write,
}

-- The largest address and generation, and the largest count, that the codec carries.
abbrev pub max_addr : ℕ
max_addr = 2 ^ 62 - 1

abbrev pub max_count : ℕ
max_count = 2 ^ 61 - 1

-- An entry whose numbers the codec carries; the statistics are any float64.
pub record IsSlot (s : Slot) : Type 0 where
  pub addr_le : s.addr ≤ max_addr
  pub cgen_le : s.cgeneration ≤ max_addr
  pub count_le : s.count ≤ max_count
  pub min_ok : IsWord s.min
  pub mean_ok : IsWord s.mean
  pub max_ok : IsWord s.max

pub record IsReady (c : Closures) : Type 0 where
  pub addr_ok : IsBounded max_addr c.dd_addr
  pub cgen_ok : IsBounded max_addr c.dd_cgen
  pub count_ok : IsBounded max_count c.dd_count
  pub mean_m_ok : IsBounded (2 ^ 56 - 1) c.dd_mean_m
  pub mean_e_ok : IsBounded 4095 c.dd_mean_e
  pub min_m_ok : IsBounded (2 ^ 56 - 1) c.dd_min_m
  pub min_e_ok : IsBounded 4095 c.dd_min_e
  pub max_m_ok : IsBounded (2 ^ 56 - 1) c.dd_max_m
  pub max_e_ok : IsBounded 4095 c.dd_max_e

pub IsReady-new : IsReady new_closures
unfolding new_closures
IsReady-new = record {
  addr_ok = IsBounded-new _;
  cgen_ok = IsBounded-new _;
  count_ok = IsBounded-new _;
  mean_m_ok = IsBounded-new _;
  mean_e_ok = IsBounded-new _;
  min_m_ok = IsBounded-new _;
  min_e_ok = IsBounded-new _;
  max_m_ok = IsBounded-new _;
  max_e_ok = IsBounded-new _;
}

module _ (c : Closures) (ok : IsReady c) (s : Slot) (fits : IsSlot s) where
  pub addr_dd : IsWord (deltarize c.dd_addr s.addr).0 × ((deltarize c.dd_addr s.addr).0 ≢ 2 ^ 63)
  addr_dd =
      Within-IsWord _ _ (omega arith)
        (deltarize-Within _ (omega arith) c.dd_addr ok.addr_ok s.addr fits.addr_le)

  cgen_dd :
      IsWord (deltarize c.dd_cgen s.cgeneration).0
      × ((deltarize c.dd_cgen s.cgeneration).0 ≢ 2 ^ 63)
  cgen_dd =
      Within-IsWord _ _ (omega arith)
        (deltarize-Within _ (omega arith) c.dd_cgen ok.cgen_ok s.cgeneration fits.cgen_le)

  count_Within : Within (max_count + max_count) (deltarize c.dd_count s.count).0
  count_Within = deltarize-Within _ (omega arith) c.dd_count ok.count_ok s.count fits.count_le

  pub after_empty-IsReady : IsReady (after_empty c s)
  unfolding after_empty
  after_empty-IsReady = record {
    addr_ok = ok.addr_ok;
    count_ok = ok.count_ok;
    cgen_ok = deltarize-IsBounded _ (omega arith) c.dd_cgen ok.cgen_ok s.cgeneration fits.cgen_le;
    mean_m_ok = ok.mean_m_ok;
    mean_e_ok = ok.mean_e_ok;
    min_m_ok = ok.min_m_ok;
    min_e_ok = ok.min_e_ok;
    max_m_ok = ok.max_m_ok;
    max_e_ok = ok.max_e_ok;
  }

  pub after_full-IsReady : IsReady (after_full c s)
  unfolding after_full
  after_full-IsReady = record {
    addr_ok = deltarize-IsBounded _ (omega arith) c.dd_addr ok.addr_ok s.addr fits.addr_le;
    cgen_ok = deltarize-IsBounded _ (omega arith) c.dd_cgen ok.cgen_ok s.cgeneration fits.cgen_le;
    count_ok = deltarize-IsBounded _ (omega arith) c.dd_count ok.count_ok s.count fits.count_le;
    mean_m_ok =
        after_m-IsBounded c.dd_mean_m c.dd_mean_e ok.mean_m_ok ok.mean_e_ok s.mean fits.mean_ok;
    mean_e_ok =
        after_e-IsBounded c.dd_mean_m c.dd_mean_e ok.mean_m_ok ok.mean_e_ok s.mean fits.mean_ok;
    min_m_ok = after_m-IsBounded c.dd_min_m c.dd_min_e ok.min_m_ok ok.min_e_ok s.min fits.min_ok;
    min_e_ok = after_e-IsBounded c.dd_min_m c.dd_min_e ok.min_m_ok ok.min_e_ok s.min fits.min_ok;
    max_m_ok = after_m-IsBounded c.dd_max_m c.dd_max_e ok.max_m_ok ok.max_e_ok s.max fits.max_ok;
    max_e_ok = after_e-IsBounded c.dd_max_m c.dd_max_e ok.max_m_ok ok.max_e_ok s.max fits.max_ok;
  }

  -- Everything behind the address delta of an entry.
  abbrev full_tail : List ℕ
  full_tail =
      write_signed_huff
        (flag_bit (deltarize c.dd_count s.count).0 (deltarize c.dd_cgen s.cgeneration).0)
      ++ (write_nonzero (deltarize c.dd_cgen s.cgeneration).0
          ++ (write_float c.dd_min_m c.dd_min_e s.min
              ++ (write_float c.dd_mean_m c.dd_mean_e s.mean
                  ++ write_float c.dd_max_m c.dd_max_e s.max)))

  pub read_full-write :
      (rest : List ℕ)
      → read_full c (deltarize c.dd_addr s.addr).0 (full_tail ++ rest)
        ≡ some ((after_full c s, s), rest)
  unfolding read_full after_full
  read_full-write rest =
      let (word, bit, w, k) =
        flag_bit_fields (deltarize c.dd_count s.count).0 (deltarize c.dd_cgen s.cgeneration).0
          (omega (arith, count_Within)) in
      rw (
        append_assoc,
        append_assoc,
        append_assoc,
        append_assoc,
        read_write _ _ w k,
        read_nonzero-write (deltarize c.dd_cgen s.cgeneration).0 _ _ cgen_dd.0 cgen_dd.1 bit,
        read_float-write c.dd_min_m c.dd_min_e ok.min_m_ok ok.min_e_ok s.min fits.min_ok _,
        read_float-write c.dd_mean_m c.dd_mean_e ok.mean_m_ok ok.mean_e_ok s.mean fits.mean_ok _,
        read_float-write c.dd_max_m c.dd_max_e ok.max_m_ok ok.max_e_ok s.max fits.max_ok rest,
        word,
        dedeltarize-deltarize _ (omega arith) c.dd_addr ok.addr_ok s.addr fits.addr_le,
        dedeltarize-deltarize _ (omega arith) c.dd_cgen ok.cgen_ok s.cgeneration fits.cgen_le,
        dedeltarize-deltarize _ (omega arith) c.dd_count ok.count_ok s.count fits.count_le,
      )

  pub read_empty-write :
      (old : Slot) (rest : List ℕ)
      → read_empty c old (write_signed_huff (deltarize c.dd_cgen s.cgeneration).0 ++ rest)
        ≡ some (
          (after_empty c s, record old { addr = 0; count = 0; cgeneration = s.cgeneration }),
          rest,
        )
  unfolding read_empty after_empty
  read_empty-write old rest = rw (
    read_write _ rest cgen_dd.0 cgen_dd.1,
    dedeltarize-deltarize _ (omega arith) c.dd_cgen ok.cgen_ok s.cgeneration fits.cgen_le,
  )
