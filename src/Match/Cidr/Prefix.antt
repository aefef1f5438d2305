-- ===== src/Match/Cidr/Prefix.antt =====
-- What `match_cidr` decides.
use Prim.Native.Nat.{bit_xor}
use mathlib.Core.Path.{subst}
use omega_services.Prelude.{
  ℕ, zero, suc, ◌-◌, ◌*◌, ◌/◌, ◌%◌, ◌^◌, ◌≤◌, ◌<◌, ◌≡◌, refl, ◌↔◌, List, [], ◌∷◌, ◌++◌, All, length,
  take, ltb, lt→ltb, ltb→lt, ◌==◌, ==_iff, not, ℤ, pos, if◌then◌else◌, Bool-cases, inl, inr, false,
  arith,
}
use omega_services.Match.Cidr.{match_cidr, to_int}
use omega_services.Match.Cidr.Bits.{bit_xor_iff}

-- The bits of a byte, the first one first, and those of an address.
abbrev pub byte_bits : ℕ → List ℕ
byte_bits a =
    a / 128 % 2
    ∷ a / 64 % 2
    ∷ a / 32 % 2
    ∷ a / 16 % 2
    ∷ a / 8 % 2
    ∷ a / 4 % 2
    ∷ a / 2 % 2
    ∷ a % 2
    ∷ []

abbrev pub addr_bits : List ℕ → List ℕ
addr_bits [] = []
addr_bits (a ∷ addr) = byte_bits a ++ addr_bits addr

-- The first bits of a byte are what a shift leaves.
take-byte_bits :
    (bits a m : ℕ) (s t : List ℕ)
    → bits < 8
    → a < 256
    → m < 256
    → (take bits (byte_bits a ++ s) ≡ take bits (byte_bits m ++ t))
      ↔ (a / 2 ^ (8 - bits) ≡ m / 2 ^ (8 - bits))
take-byte_bits zero a m s t h ha hm = (λ e. omega arith, λ e. refl)
take-byte_bits (suc zero) a m s t h ha hm = ground arith
take-byte_bits (suc (suc zero)) a m s t h ha hm = ground arith
take-byte_bits (suc (suc (suc zero))) a m s t h ha hm = ground arith
take-byte_bits (suc (suc (suc (suc zero)))) a m s t h ha hm = ground arith
take-byte_bits (suc (suc (suc (suc (suc zero))))) a m s t h ha hm = ground arith
take-byte_bits (suc (suc (suc (suc (suc (suc zero)))))) a m s t h ha hm = ground arith
take-byte_bits (suc (suc (suc (suc (suc (suc (suc zero))))))) a m s t h ha hm = ground arith
take-byte_bits (suc (suc (suc (suc (suc (suc (suc (suc bits)))))))) a m s t h ha hm =
    absurd (omega arith)

whole_byte :
    (a m : ℕ) (s t : List ℕ)
    → a < 256
    → m < 256
    → (byte_bits a ++ s ≡ byte_bits m ++ t) ↔ (a ≡ m) × (s ≡ t)
whole_byte a m s t ha hm = ground arith

to_int_iff : (x : ℕ) → (to_int (x == 0) ≡ pos 1) ↔ (x ≡ 0)
to_int_iff x = ground arith

abbrev from_8 : ℕ → ℕ
from_8 k = suc (suc (suc (suc (suc (suc (suc (suc k)))))))

-- A first byte that counts in full.
pass_byte :
    (k a m : ℕ) (addr mask : List ℕ)
    → match_cidr (a ∷ addr) (m ∷ mask) (from_8 k)
      ≡ (if not (a == m) then pos 0 else if k == 0 then pos 1 else match_cidr addr mask k)
unfolding match_cidr
pass_byte k a m addr mask =
    let long : ltb (from_8 k) 8 ≡ false = ground arith in
    let last : (from_8 k == 8) ≡ (k == 0) = ground arith in
    let left : from_8 k - 8 ≡ k = omega arith in rw (long, last, left) refl

-- The test of a whole byte, and then of the rest.
decide_byte :
    (a m : ℕ) (rest : ℤ) (s t : List ℕ)
    → a < 256
    → m < 256
    → (rest ≡ pos 1) ↔ (s ≡ t)
    → ((if not (a == m) then pos 0 else rest) ≡ pos 1) ↔ (byte_bits a ++ s ≡ byte_bits m ++ t)
decide_byte a m rest s t ha hm r = elim (Bool-cases (a == m)) [
  | inl e ↦ rw e (
    λ h. (whole_byte a m s t ha hm).1 ((==_iff a m).0 e, r.0 h),
    λ h. r.1 ((whole_byte a m s t ha hm).0 h).1,
  )
  | inr e ↦ rw e (λ h. cc h, λ h. cc (e, (==_iff a m).1 ((whole_byte a m s t ha hm).0 h).0))
]

abbrev Decides : List ℕ → List ℕ → ℕ → Type 0
Decides addr mask bits =
    (match_cidr addr mask bits ≡ pos 1) ↔ (take bits (addr_bits addr) ≡ take bits (addr_bits mask))

Decides-whole :
    (k a m : ℕ) (addr mask : List ℕ)
    → a < 256
    → m < 256
    → (0 < k → Decides addr mask k)
    → Decides (a ∷ addr) (m ∷ mask) (from_8 k)
Decides-whole zero a m addr mask ha hm ih =
    rw (pass_byte zero a m addr mask) (decide_byte a m (pos 1) [] [] ha hm (λ e. refl, λ e. refl))
Decides-whole (suc k) a m addr mask ha hm ih =
    let more : (suc k == 0) ≡ false = ground arith in
    rw (pass_byte (suc k) a m addr mask, more)
      (decide_byte a m (match_cidr addr mask (suc k)) (take (suc k) (addr_bits addr))
        (take (suc k) (addr_bits mask)) ha hm (ih (omega arith)))

Decides-part :
    (bits a m : ℕ) (addr mask : List ℕ)
    → bits < 8
    → a < 256
    → m < 256
    → Decides (a ∷ addr) (m ∷ mask) bits
unfolding match_cidr
Decides-part bits a m addr mask h ha hm =
    let split = take-byte_bits bits a m (addr_bits addr) (addr_bits mask) h ha hm in
    let xor = bit_xor_iff (8 - bits) a m in
    let test = to_int_iff (bit_xor a m / 2 ^ (8 - bits)) in
    rw (lt→ltb bits 8 h) (λ e. split.1 (xor.0 (test.0 e)), λ e. test.1 (xor.1 (split.0 e)))

-- For two addresses of the same number of bytes, at least one, and at most all their bits, `match_cidr`
-- returns 1 exactly if the addresses begin with the same bits, as many as asked.
pub match_cidr_iff :
    (bits : ℕ) (addr mask : List ℕ)
    → length addr ≡ length mask
    → 0 < length addr
    → bits ≤ 8 * length addr
    → All (λ a. a < 256) addr
    → All (λ m. m < 256) mask
    → (match_cidr addr mask bits ≡ pos 1)
      ↔ (take bits (addr_bits addr) ≡ take bits (addr_bits mask))
match_cidr_iff bits [] mask same some_byte within ha hm = absurd (omega arith)
match_cidr_iff bits (a ∷ addr) [] same some_byte within ha hm = absurd (omega arith)
match_cidr_iff bits (a ∷ addr) (m ∷ mask) same some_byte within ha hm =
    elim (Bool-cases (ltb bits 8)) [
      | inl short ↦ Decides-part bits a m addr mask (ltb→lt bits 8 short) ha.0 hm.0
      | inr long ↦
          let left : from_8 (bits - 8) ≡ bits = ground (arith, long) in
          subst (Decides (a ∷ addr) (m ∷ mask)) left (
            Decides-whole (bits - 8) a m addr mask ha.0 hm.0 (λ p.
              match_cidr_iff (bits - 8) addr mask (omega arith) (omega (arith, left))
                (omega (arith, left)) ha.1 hm.1))
    ]
