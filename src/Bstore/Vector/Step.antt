-- ===== src/Bstore/Vector/Step.antt =====
-- One record: what the decoder undoes, given that the numbers keep the codec's bounds.
use btrdb_server.Base.{
  ℕ, ◌-◌, ◌/◌, ◌%◌, ◌^◌, ◌≡◌, ◌≢◌, some, List, ◌++◌, arith, if◌then◌else◌, ◌==◌, Bool-cases, inl,
  inr, true, false, Bool,
}
use mathlib.Core.List.{append_assoc}
use btrdb_server.Base.Word.{IsWord, Within, shl64, sar64}
use btrdb_server.Bstore.Huff.{write_signed_huff, read_signed_huff}
use btrdb_server.Bstore.Huff.RoundTrip.{read_signed_huff-write}
use btrdb_server.Bstore.Vector.{
  Deltas, flag_word, write_nonzero, write_record, read_nonzero, drop_kind, decode_record,
  decode_values,
}

pub read_write :
    (v : ℕ) (rest : List ℕ)
    → IsWord v
    → v ≢ 2 ^ 63
    → drop_kind (read_signed_huff (write_signed_huff v ++ rest)) ≡ some (v, rest)
read_write v rest h k = rw (read_signed_huff-write v rest h) (ground arith)

pub read_nonzero-write :
    (dd : ℕ) (b : Bool) (rest : List ℕ)
    → IsWord dd
    → dd ≢ 2 ^ 63
    → b ≡ (if dd == 0 then false else true)
    → read_nonzero b (write_nonzero dd ++ rest) ≡ some (dd, rest)
unfolding read_nonzero write_nonzero
read_nonzero-write dd b rest h k e = elim (Bool-cases (dd == 0)) [
  | inl z ↦ rw (e, z) (ground arith)
  | inr z ↦ rw (e, z) (read_write dd rest h k)
]

flag_word_fields :
    (ddm dde ddt : ℕ)
    → Within (2 ^ 61 - 1) ddm
    → (sar64 (flag_word ddm dde ddt) 2 ≡ ddm)
      × ((flag_word ddm dde ddt / 2 % 2 == 1) ≡ (if dde == 0 then false else true))
      × ((flag_word ddm dde ddt % 2 == 1) ≡ (if ddt == 0 then false else true))
      × IsWord (flag_word ddm dde ddt)
      × (flag_word ddm dde ddt ≢ 2 ^ 63)
unfolding flag_word sar64 shl64
flag_word_fields ddm dde ddt h =
    (ground arith, ground arith, ground arith, ground arith, ground arith)

-- The delta deltas of a record are read back.
pub decode_record-write :
    (s : Deltas) (ddm dde ddt : ℕ) (rest : List ℕ)
    → Within (2 ^ 61 - 1) ddm
    → IsWord dde
    → dde ≢ 2 ^ 63
    → IsWord ddt
    → ddt ≢ 2 ^ 63
    → decode_record s (write_record ddm dde ddt ++ rest) ≡ some (decode_values s ddm dde ddt, rest)
unfolding decode_record write_record
decode_record-write s ddm dde ddt rest hm he ke ht kt =
    let (word, bit_e, bit_t, w, k) = flag_word_fields ddm dde ddt hm in
    rw (
      append_assoc,
      append_assoc,
      read_write _ (write_nonzero dde ++ (write_nonzero ddt ++ rest)) w k,
      read_nonzero-write dde _ (write_nonzero ddt ++ rest) he ke bit_e,
      read_nonzero-write ddt _ rest ht kt bit_t,
      word,
    )
