-- ===== src/Match/Cidr/Bits.antt =====
-- The exclusive or of two numbers, and the bits that they share.
use Prim.Native.Nat.{bit_xor, bit_xor-bitwise, digits, differ}
use native.Mathlib.Nat.{zero-div, div-div-eq-div-mul}
use omega_services.Prelude.{
  ℕ, zero, suc, ◌+◌, ◌*◌, ◌/◌, ◌%◌, ◌^◌, ◌≤◌, ◌<◌, ◌≡◌, sym, ap, ◌∙◌, ◌↔◌, arith,
}

abbrev xor_digits : ℕ → ℕ → ℕ → ℕ
xor_digits n a b = digits (λ b. b) differ n a b

differ_iff : (x y : ℕ) → (differ x y ≡ 0) ↔ (x ≡ y)
differ_iff zero y = ground arith
differ_iff (suc x) zero = ground arith
differ_iff (suc x) (suc y) = ground (arith, differ_iff x y)

differ-lt : (x y : ℕ) → x < 2 → y < 2 → differ x y < 2
differ-lt zero y h k = k
differ-lt (suc zero) zero h k = omega arith
differ-lt (suc zero) (suc zero) h k = omega arith
differ-lt (suc zero) (suc (suc y)) h k = absurd (omega arith)
differ-lt (suc (suc x)) y h k = absurd (omega arith)

same_iff : (n a b : ℕ) → a ≤ n → (xor_digits n a b ≡ 0) ↔ (a ≡ b)
same_iff zero zero b h = ground arith
same_iff zero (suc a) b h = absurd (omega arith)
same_iff (suc n) zero b h = ground arith
same_iff (suc n) (suc a) b h =
    let ih = same_iff n (suc a / 2) (b / 2) (omega arith) in
    let last = differ_iff (suc a % 2) (b % 2) in ground (arith, ih, last)

halves : (k a : ℕ) → a / 2 ^ suc k ≡ a / 2 / 2 ^ k
halves k a = ap (λ (d : ℕ). a / d) power ∙ sym (div-div-eq-div-mul a 2 (2 ^ k))
  where
    power : 2 ^ suc k ≡ 2 * 2 ^ k
    power = omega arith

-- What is left of the exclusive or without its last `k` digits is 0 exactly if the numbers are the same
-- without theirs.
xor_digits_iff : (k n a b : ℕ) → a ≤ n → (xor_digits n a b / 2 ^ k ≡ 0) ↔ (a / 2 ^ k ≡ b / 2 ^ k)
xor_digits_iff zero n a b h = ground (arith, same_iff n a b)
xor_digits_iff (suc k) zero zero b h = rw (zero-div (2 ^ suc k)) (λ e. sym e, λ e. sym e)
xor_digits_iff (suc k) zero (suc a) b h = absurd (omega arith)
xor_digits_iff (suc k) (suc n) zero b h = rw (zero-div (2 ^ suc k)) (λ e. sym e, λ e. sym e)
xor_digits_iff (suc k) (suc n) (suc a) b h =
    let d : ℕ = xor_digits n (suc a / 2) (b / 2) in
    let e : ℕ = differ (suc a % 2) (b % 2) in
    let dropped : (d * 2 + e) / 2 ≡ d =
      omega (arith, differ-lt (suc a % 2) (b % 2) (omega arith) (omega arith)) in
    rw (halves k (d * 2 + e), dropped, halves k (suc a), halves k b)
      (xor_digits_iff k n (suc a / 2) (b / 2) (omega arith))

pub bit_xor_iff : (k a b : ℕ) → (bit_xor a b / 2 ^ k ≡ 0) ↔ (a / 2 ^ k ≡ b / 2 ^ k)
bit_xor_iff k a b =
    let e : bit_xor a b ≡ xor_digits a a b = bit_xor-bitwise a b in
    rw e (xor_digits_iff k a a b (omega arith))
