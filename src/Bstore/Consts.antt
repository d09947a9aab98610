-- ===== src/Bstore/Consts.antt =====
-- The constants of internal/bstore/bstore.go.
use btrdb_server.Base.{ℕ, ◌+◌, ◌*◌}

abbrev pub vsize : ℕ
vsize = 1024

abbrev pub kfactor : ℕ
kfactor = 64

-- Worst case with huffman.
abbrev pub vbsize : ℕ
vbsize = 2 + 9 * vsize + 9 * vsize + 2 * vsize

abbrev pub dbsize : ℕ
dbsize = vbsize

abbrev pub pwfactor : ℕ
pwfactor = 6

abbrev pub relocation_base : ℕ
relocation_base = 0xFF00000000000000
