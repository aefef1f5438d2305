-- ===== src/Tools/Hash.antt =====
-- `hash` and `hash_safe` of src/tools.c, on 32-bit words.
use Prim.Native.Nat.{bit_xor, bit_or}
use native.Mathlib.Nat.{mod-lt}
use omega_services.Prelude.{
  ℕ, ◌+◌, ◌-◌, ◌*◌, ◌/◌, ◌%◌, ◌^◌, ◌<◌, ◌≡◌, ap, true, [], ◌∷◌, Bytes, map, tolower, eq_nocase,
  eq_nocase_iff,
}

abbrev pub word : ℕ
word = 2 ^ 32

-- `x << k` on a word
abbrev shl : ℕ → ℕ → ℕ
shl x k = x * 2 ^ k % word

abbrev shr : ℕ → ℕ → ℕ
shr x k = x / 2 ^ k

abbrev add : ℕ → ℕ → ℕ
add x y = (x + y) % word

-- One round of the loop of `hash`, for the byte `tolower (item[i])`.
unfoldable pub hash_round : ℕ → ℕ → ℕ
hash_round h c = let h1 = add h c in let h2 = add h1 (shl h1 10) in bit_xor h2 (shr h2 5)

unfoldable pub hash_loop : ℕ → Bytes → ℕ
hash_loop h [] = h
hash_loop h (c ∷ s) = hash_loop (hash_round h c) s

unfoldable pub hash_finish : ℕ → ℕ
hash_finish h = let h1 = add h (shl h 3) in let h2 = bit_xor h1 (shr h1 11) in add h2 (shl h2 15)

unfoldable pub hash : Bytes → ℕ
unfolding hash_loop hash_round hash_finish
hash item = hash_finish (hash_loop 0 (map tolower item))

-- `i += ~(i << 9)` and so on
unfoldable pub rehash : ℕ → ℕ
rehash i =
    let i1 = add i (word - 1 - shl i 9) in
    let i2 = bit_xor i1 (bit_or (shr i1 14) (shl i1 18)) in
    let i3 = add i2 (shl i2 4) in bit_xor i3 (bit_or (shr i3 10) (shl i3 22))

unfoldable pub hash_safe : Bytes → ℕ → ℕ
unfolding hash rehash
hash_safe item len = rehash (hash item) % len

-- Texts that are equal up to case fall into the same bucket, and the bucket is in the table.
pub hash_safe-bucket :
    (a b : Bytes) (len : ℕ)
    → 0 < len
    → eq_nocase a b ≡ true
    → (hash_safe a len ≡ hash_safe b len) × (hash_safe a len < len)
unfolding hash_safe hash
hash_safe-bucket a b len pos h = (
  ap (λ (t : Bytes). rehash (hash_finish (hash_loop 0 t)) % len) ((eq_nocase_iff a b).0 h),
  mod-lt _ pos,
)
