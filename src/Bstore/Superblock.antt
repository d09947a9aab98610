-- ===== src/Bstore/Superblock.antt =====
-- Superblock of internal/bstore/blocktypes.go. The wall time is an int64 as a bit pattern, and what time.Now()
-- answers is a parameter. A UUID is a number. binary.LittleEndian writes the low byte first.
use btrdb_server.Base.{
  ℕ, ◌+◌, ◌*◌, ◌/◌, ◌%◌, ◌^◌, ◌≡◌, List, [], ◌∷◌, ◌++◌, arith, Option, none, some,
}
use btrdb_server.Base.Word.{IsWord, add64}

pub record Superblock : Type 0 where
  pub uuid : ℕ
  pub gen : ℕ
  pub root : ℕ
  pub walltime : ℕ

-- SpecialVersionCreated and SpecialVersionFirst of internal/bprovider/bprovider.go.
abbrev pub special_version_created : ℕ
special_version_created = 9

abbrev pub special_version_first : ℕ
special_version_first = 10

unfoldable pub new_superblock : ℕ → ℕ → Superblock
new_superblock now id = record { uuid = id; gen = special_version_first; root = 0; walltime = now }

unfoldable pub clone_inc : ℕ → Superblock → Superblock
clone_inc now s = record s { gen = add64 s.gen 1; walltime = now }

-- binary.LittleEndian.PutUint64 and Uint64, which panics on fewer than 8 bytes.
unfoldable pub put_uint64 : ℕ → List ℕ
put_uint64 v =
    (v % 256)
    ∷ (v / 2 ^ 8 % 256)
    ∷ (v / 2 ^ 16 % 256)
    ∷ (v / 2 ^ 24 % 256)
    ∷ (v / 2 ^ 32 % 256)
    ∷ (v / 2 ^ 40 % 256)
    ∷ (v / 2 ^ 48 % 256)
    ∷ (v / 2 ^ 56 % 256)
    ∷ []

unfoldable pub uint64 : List ℕ → Option (ℕ × List ℕ)
uint64 (a ∷ b ∷ c ∷ d ∷ e ∷ f ∷ g ∷ h ∷ rest) = some (
  a + b * 2 ^ 8 + c * 2 ^ 16 + d * 2 ^ 24 + e * 2 ^ 32 + f * 2 ^ 40 + g * 2 ^ 48 + h * 2 ^ 56,
  rest,
)
uint64 _ = none

unfoldable pub serialize : Superblock → List ℕ
serialize s = put_uint64 s.root ++ put_uint64 s.walltime

unfoldable pub deserialize_superblock : ℕ → ℕ → List ℕ → Option Superblock
deserialize_superblock id gen arr = elim (uint64 arr) [
  | none ↦ none
  | some t ↦ elim (uint64 t.1) [
    | none ↦ none
    | some u ↦ some (record { uuid = id; gen = gen; root = t.0; walltime = u.0 })
  ]
]

word_bytes :
    (v : ℕ)
    → IsWord v
    → v % 256
        + v / 2 ^ 8 % 256 * 2 ^ 8
        + v / 2 ^ 16 % 256 * 2 ^ 16
        + v / 2 ^ 24 % 256 * 2 ^ 24
        + v / 2 ^ 32 % 256 * 2 ^ 32
        + v / 2 ^ 40 % 256 * 2 ^ 40
        + v / 2 ^ 48 % 256 * 2 ^ 48
        + v / 2 ^ 56 % 256 * 2 ^ 56
      ≡ v
word_bytes v h = omega arith

-- A superblock whose root and wall time are words is read back under its UUID and generation.
pub deserialize_superblock-serialize :
    (s : Superblock)
    → IsWord s.root
    → IsWord s.walltime
    → deserialize_superblock s.uuid s.gen (serialize s) ≡ some s
unfolding deserialize_superblock serialize uint64 put_uint64
deserialize_superblock-serialize s h k = rw (word_bytes s.root h, word_bytes s.walltime k)
