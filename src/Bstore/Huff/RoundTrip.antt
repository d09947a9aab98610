-- ===== src/Bstore/Huff/RoundTrip.antt =====
-- About the writers and readers of a variable-length number of internal/bstore/blocktypes.go.
use native.Mathlib.Numerals.{towards_suc}
use native.Mathlib.Nat.{div-add-mod', div-div-eq-div-mul, mul_comm, pow-suc}
use btrdb_server.Base.{
  ℕ, zero, suc, ◌+◌, ◌*◌, ◌/◌, ◌%◌, ◌^◌, ◌≤◌, ◌<◌, ◌≡◌, ◌++◌, some, List, ◌∷◌, arith, ap,
  if◌then◌else◌, ◌==◌, ◌∙◌, refl, ltb, ltb→lt, if_both,
}
use btrdb_server.Base.Word.{IsWord, shl64, neg64, is_neg}
use btrdb_server.Bstore.Huff.{
  value, put_rest, get_rest, write_unsigned_huff, read_unsigned_huff, write_signed_huff,
  read_signed_huff, signed_of,
}

pow_step : (n : ℕ) → 2 ^ (suc n * 8) ≡ 256 * 2 ^ (n * 8)
pow_step n = rw (eight n) (simp towards_suc (omega arith))
  where
    eight : (n : ℕ) → suc n * 8 ≡ n * 8 + 8
    eight n = omega arith

-- A number below 256 * p, from its top byte and the rest.
mod_step : (v p : ℕ) → v % (p * 256) ≡ v / p % 256 * p + v % p
mod_step v p = omega (
  arith,
  div-add-mod' v p,
  div-add-mod' v (p * 256),
  ap (λ (t : ℕ). t * p) (div-add-mod' (v / p) 256),
  ap (λ (t : ℕ). t * 256 * p) (div-div-eq-div-mul v p 256),
)

room_step : (r p k : ℕ) → 1 ≤ p → (r + 1) * (256 * p) ≤ k → (r + 1) * 256 ≤ k
room_step r p k h e = grind arith

room_byte : (r b p k : ℕ) → b < 256 → (r + 1) * (256 * p) ≤ k → (r * 256 + b + 1) * p ≤ k
room_byte r b p k h e = grind arith

pow_pos : (n : ℕ) → 1 ≤ 2 ^ n
pow_pos zero = omega arith
pow_pos (suc n) = omega (arith, pow_pos n, pow-suc 2 n)

shl_step : (r : ℕ) → (r + 1) * 256 ≤ 2 ^ 64 → shl64 r 8 ≡ r * 256
unfolding shl64
shl_step r h = omega arith

-- The bytes that the writer's do_rest wrote, behind what the lead byte gave.
value_step :
    (n v rv : ℕ)
    → (rv * 256 + v / 2 ^ (n * 8) % 256) * 2 ^ (n * 8) + v % 2 ^ (n * 8)
      ≡ rv * 2 ^ (suc n * 8) + v % 2 ^ (suc n * 8)
value_step n v rv =
    rw (pow_step n)
      (omega (arith, ap (λ (t : ℕ). v % t) (mul_comm 256 (2 ^ (n * 8))), mod_step v (2 ^ (n * 8))))

-- `rv` is what the lead byte gave.
get_rest-put :
    (n v rv : ℕ) (rest : List ℕ)
    → (rv + 1) * 2 ^ (n * 8) ≤ 2 ^ 64
    → get_rest n rv (put_rest v n ++ rest) ≡ some (rv * 2 ^ (n * 8) + v % 2 ^ (n * 8), rest, value)
unfolding get_rest put_rest
get_rest-put zero v rv rest h = ground arith
get_rest-put (suc n) v rv rest h =
    let room : (rv + 1) * (256 * 2 ^ (n * 8)) ≤ 2 ^ 64 = rw (pow_step n) at h in
    let b : ℕ = v / 2 ^ (n * 8) % 256 in
    rw (shl_step rv (room_step rv (2 ^ (n * 8)) _ (pow_pos (n * 8)) room)) (
      get_rest-put n v (rv * 256 + b) rest (room_byte rv b (2 ^ (n * 8)) _ (omega arith) room)
      ∙ ap (λ (t : ℕ). some (t, rest, value)) (value_step n v rv))

lead0 :
    (hi : ℕ) (s : List ℕ) → hi < 64 → read_unsigned_huff ((0x80 + hi) % 256 ∷ s) ≡ get_rest 1 hi s
unfolding read_unsigned_huff
lead0 hi s h = ground arith

lead1 :
    (hi : ℕ) (s : List ℕ) → hi < 16 → read_unsigned_huff ((0xc0 + hi) % 256 ∷ s) ≡ get_rest 2 hi s
unfolding read_unsigned_huff
lead1 hi s h = ground arith

lead2 :
    (hi : ℕ) (s : List ℕ) → hi < 16 → read_unsigned_huff ((0xd0 + hi) % 256 ∷ s) ≡ get_rest 3 hi s
unfolding read_unsigned_huff
lead2 hi s h = ground arith

lead3 :
    (hi : ℕ) (s : List ℕ) → hi < 16 → read_unsigned_huff ((0xe0 + hi) % 256 ∷ s) ≡ get_rest 4 hi s
unfolding read_unsigned_huff
lead3 hi s h = ground arith

lead4 :
    (hi : ℕ) (s : List ℕ) → hi < 4 → read_unsigned_huff ((0xf0 + hi) % 256 ∷ s) ≡ get_rest 5 hi s
unfolding read_unsigned_huff
lead4 hi s h = ground arith

lead5 :
    (hi : ℕ) (s : List ℕ) → hi < 4 → read_unsigned_huff ((0xf4 + hi) % 256 ∷ s) ≡ get_rest 6 hi s
unfolding read_unsigned_huff
lead5 hi s h = ground arith

lead6 :
    (hi : ℕ) (s : List ℕ) → hi < 4 → read_unsigned_huff ((0xf8 + hi) % 256 ∷ s) ≡ get_rest 7 hi s
unfolding read_unsigned_huff
lead6 hi s h = ground arith

lead_full : (s : List ℕ) → read_unsigned_huff (0xFC ∷ s) ≡ get_rest 8 0 s
unfolding read_unsigned_huff
lead_full s = refl

-- A tier of the code: lead byte `pre + hi`, n more bytes.
tier :
    (pre n v : ℕ) (rest : List ℕ)
    → ((s : List ℕ)
        → read_unsigned_huff ((pre + v / 2 ^ (n * 8)) % 256 ∷ s) ≡ get_rest n (v / 2 ^ (n * 8)) s)
    → (v / 2 ^ (n * 8) + 1) * 2 ^ (n * 8) ≤ 2 ^ 64
    → read_unsigned_huff ((pre + v / 2 ^ (n * 8)) % 256 ∷ put_rest v n ++ rest)
      ≡ some (v, rest, value)
tier pre n v rest lead room =
    lead (put_rest v n ++ rest)
    ∙ get_rest-put n v (v / 2 ^ (n * 8)) rest room
    ∙ ap (λ (t : ℕ). some (t, rest, value)) (div-add-mod' v (2 ^ (n * 8)))

one_byte :
    (v : ℕ) (rest : List ℕ)
    → v < 2 ^ 7
    → read_unsigned_huff (v % 256 ∷ rest) ≡ some (v, rest, value)
unfolding read_unsigned_huff
one_byte v rest h = ground arith

full :
    (v : ℕ) (rest : List ℕ)
    → IsWord v
    → read_unsigned_huff (0xFC ∷ put_rest v 8 ++ rest) ≡ some (v, rest, value)
full v rest h =
    lead_full (put_rest v 8 ++ rest)
    ∙ get_rest-put 8 v 0 rest (omega arith)
    ∙ ap (λ (t : ℕ). some (t, rest, value)) (omega arith)

-- Every uint64 is read back, with what follows it.
pub read_unsigned_huff-write :
    (v : ℕ) (rest : List ℕ)
    → IsWord v
    → read_unsigned_huff (write_unsigned_huff v ++ rest) ≡ some (v, rest, value)
unfolding write_unsigned_huff
read_unsigned_huff-write v rest h =
    if_both P (ltb v (2 ^ 7)) (λ t. one_byte v rest (ltb→lt v (2 ^ 7) t))
      λ _.
        if_both P (ltb v (2 ^ 14))
          (λ t.
            tier 0x80 1 v rest (λ s. lead0 _ s (omega (arith, ltb→lt v (2 ^ 14) t)))
              (omega (arith, ltb→lt v (2 ^ 14) t)))
          λ _.
            if_both P (ltb v (2 ^ 20))
              (λ t.
                tier 0xc0 2 v rest (λ s. lead1 _ s (omega (arith, ltb→lt v (2 ^ 20) t)))
                  (omega (arith, ltb→lt v (2 ^ 20) t)))
              λ _.
                if_both P (ltb v (2 ^ 28))
                  (λ t.
                    tier 0xd0 3 v rest (λ s. lead2 _ s (omega (arith, ltb→lt v (2 ^ 28) t)))
                      (omega (arith, ltb→lt v (2 ^ 28) t)))
                  λ _.
                    if_both P (ltb v (2 ^ 36))
                      (λ t.
                        tier 0xe0 4 v rest (λ s. lead3 _ s (omega (arith, ltb→lt v (2 ^ 36) t)))
                          (omega (arith, ltb→lt v (2 ^ 36) t)))
                      λ _.
                        if_both P (ltb v (2 ^ 42))
                          (λ t.
                            tier 0xf0 5 v rest (λ s. lead4 _ s (omega (arith, ltb→lt v (2 ^ 42) t)))
                              (omega (arith, ltb→lt v (2 ^ 42) t)))
                          λ _.
                            if_both P (ltb v (2 ^ 50))
                              (λ t.
                                tier 0xf4 6 v rest
                                  (λ s. lead5 _ s (omega (arith, ltb→lt v (2 ^ 50) t)))
                                  (omega (arith, ltb→lt v (2 ^ 50) t)))
                              λ _.
                                if_both P (ltb v (2 ^ 58))
                                  (λ t.
                                    tier 0xf8 7 v rest
                                      (λ s. lead6 _ s (omega (arith, ltb→lt v (2 ^ 58) t)))
                                      (omega (arith, ltb→lt v (2 ^ 58) t)))
                                  λ _. full v rest h
  where
    P : List ℕ → Type 0
    P l = read_unsigned_huff (l ++ rest) ≡ some (v, rest, value)

magnitude-IsWord : (v : ℕ) → IsWord (if is_neg v then shl64 (neg64 v) 1 + 1 else shl64 v 1)
unfolding shl64 neg64
magnitude-IsWord v = ground arith

-- Every int64 but the least is read back, with what follows it; the least one is read back as 0.
pub read_signed_huff-write :
    (v : ℕ) (rest : List ℕ)
    → IsWord v
    → read_signed_huff (write_signed_huff v ++ rest)
      ≡ some (if v == 2 ^ 63 then 0 else v, rest, value)
unfolding read_signed_huff write_signed_huff signed_of
read_signed_huff-write v rest h =
    rw (read_unsigned_huff-write _ rest (magnitude-IsWord v), read_signed_huff) (sign v h)
  where
    sign :
        (v : ℕ)
        → IsWord v
        → some (signed_of (if is_neg v then shl64 (neg64 v) 1 + 1 else shl64 v 1, rest, value))
          ≡ some (if v == 2 ^ 63 then 0 else v, rest, value)
    sign v h = unfold shl64 neg64 in ground arith
