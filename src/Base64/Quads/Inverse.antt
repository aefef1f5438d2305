-- ===== src/Base64/Quads/Inverse.antt =====
-- `b64_decode` undoes `b64_encode`, and when the encoding fits its buffer.
use omega_services.Prelude.{
  ℕ, suc, ◌+◌, ◌*◌, ◌/◌, ◌%◌, ◌<◌, ◌≡◌, ◌∙◌, refl, Bool, true, false, ◌&&◌, Option, none, some, [],
  ◌∷◌, Bytes, length, All, ltb, leb, ◌==◌, if◌then◌else◌, not, arith, passes, passes_each,
}
use mathlib.Core.Option
use native.Mathlib.Nat.{zero-add}
use Prim.Native.Nat.{bit_or}
use omega_services.Base64.Quads.{
  base64, digit, place, b64_encode_from, b64_encode, isspace, padded, second_pad, only_spaces,
  Phase, at0, at1, at2, at3, proceed, first, second, third, fourth, step, b64_decode_from,
  b64_decode,
}

lt→leb : (a b : ℕ) → a < b → leb b a ≡ false
lt→leb a b h = ground arith

-- A digit is neither whitespace nor the padding, and `strchr` finds it at its place.
abbrev found : Option ℕ → ℕ → Bool
found none i = false
found (some j) i = j == i

abbrev plain : ℕ → Bool
plain i = not (isspace (digit i)) && not (digit i == b'=') && found (place base64 (digit i)) i

digits_table : passes plain 64 ≡ true
unfolding passes digit place isspace
digits_table = refl

digit-IsPlain :
    (i : ℕ)
    → i < 64
    → (isspace (digit i) ≡ false) × ((digit i == b'=') ≡ false) × (place base64 (digit i) ≡ some i)
digit-IsPlain i h = ground (arith, passes_each plain {bound = 64} i digits_table h)

-- The bits of a byte that two digits hold, put together again.
abbrev joins : ℕ → Bool
joins a =
    (bit_or (a / 4 * 4 % 256) (a % 4) == a)
    && (bit_or (a / 16 * 16) (a % 16) == a)
    && (bit_or (a / 64 * 64) (a % 64) == a)

joins_table : passes joins 256 ≡ true
unfolding passes
joins_table = refl

byte_halves :
    (a : ℕ)
    → a < 256
    → (bit_or (a / 4 * 4 % 256) (a % 4) ≡ a)
      × (bit_or (a / 16 * 16) (a % 16) ≡ a)
      × (bit_or (a / 64 * 64) (a % 64) ≡ a)
byte_halves a h = ground (arith, passes_each joins {bound = 256} a joins_table h)

-- One round of the loop on the digit of `i`.
b64_decode_from-digit :
    (targsize i tarindex : ℕ) (src : Bytes) (phase : Phase)
    → i < 64
    → b64_decode_from targsize (digit i ∷ src) tarindex phase
      ≡ proceed (b64_decode_from targsize src) tarindex (step targsize phase tarindex i)
unfolding b64_decode_from
b64_decode_from-digit t i n src phase h =
    let (space, pad, at) = digit-IsPlain i h in rw (b64_decode_from, space, pad, at)

module _ (t a b c n : ℕ) (ha : a < 256) (hb : b < 256) (hc : c < 256) where
  step-first : n < t → step t at0 n (a / 4) ≡ some (none, at1 (a / 4 * 4 % 256))
  unfolding step
  step-first h = ground arith

  step-second :
      n + 1 < t
      → step t (at1 (a / 4 * 4 % 256)) n (a % 4 * 16 + b / 16) ≡ some (some a, at2 (b / 16 * 16))
  unfolding step
  step-second h =
      let e : (a % 4 * 16 + b / 16) / 16 ≡ a % 4 = omega arith in
      let f : (a % 4 * 16 + b / 16) % 16 ≡ b / 16 = omega arith in
      rw (lt→leb _ _ h, e, f, (byte_halves a ha).0)

  step-third :
      n + 1 < t
      → step t (at2 (b / 16 * 16)) n (b % 16 * 4 + c / 64) ≡ some (some b, at3 (c / 64 * 64))
  unfolding step
  step-third h =
      let e : (b % 16 * 4 + c / 64) / 4 ≡ b % 16 = omega arith in
      let f : (b % 16 * 4 + c / 64) % 4 ≡ c / 64 = omega arith in
      rw (lt→leb _ _ h, e, f, (byte_halves b hb).1)

  step-fourth : n < t → step t (at3 (c / 64 * 64)) n (c % 64) ≡ some (some c, at0)
  unfolding step
  step-fourth h = rw (lt→leb _ _ h, (byte_halves c hc).2)

module _ (t a b c n : ℕ) (src : Bytes) (ha : a < 256) (hb : b < 256) (hc : c < 256) where
  -- The first two digits of a group give its first byte.
  decode-two :
      n + 1 < t
      → b64_decode_from t (first a ∷ second a b ∷ src) n at0
        ≡ Option.map (λ s. a ∷ s) (b64_decode_from t src (n + 1) (at2 (b / 16 * 16)))
  decode-two h = rw (
    b64_decode_from-digit t (a / 4) n (second a b ∷ src) at0 (omega arith),
    step-first t a b c n ha hb hc (omega arith),
    b64_decode_from-digit t (a % 4 * 16 + b / 16) n src (at1 (a / 4 * 4 % 256)) (omega arith),
    step-second t a b c n ha hb hc h,
  )

  decode-third :
      n + 1 < t
      → b64_decode_from t (third b c ∷ src) n (at2 (b / 16 * 16))
        ≡ Option.map (λ s. b ∷ s) (b64_decode_from t src (n + 1) (at3 (c / 64 * 64)))
  decode-third h = rw (
    b64_decode_from-digit t (b % 16 * 4 + c / 64) n src (at2 (b / 16 * 16)) (omega arith),
    step-third t a b c n ha hb hc h,
  )

  decode-fourth :
      n < t
      → b64_decode_from t (fourth c ∷ src) n (at3 (c / 64 * 64))
        ≡ Option.map (λ s. c ∷ s) (b64_decode_from t src (n + 1) at0)
  decode-fourth h = rw (
    b64_decode_from-digit t (c % 64) n src (at3 (c / 64 * 64)) (omega arith),
    step-fourth t a b c n ha hb hc h,
  )

-- The encoding by RFC 1521, with no buffer: every group of three bytes as four digits, and the last one
-- padded.
quads : Bytes → Bytes
quads [] = []
quads (a ∷ []) = first a ∷ second a 0 ∷ b'=' ∷ b'=' ∷ []
quads (a ∷ b ∷ []) = first a ∷ second a b ∷ third b 0 ∷ b'=' ∷ []
quads (a ∷ b ∷ c ∷ src) = first a ∷ second a b ∷ third b c ∷ fourth c ∷ quads src

abbrev pub quads_length : ℕ → ℕ
quads_length n = 4 * ((n + 2) / 3)

no_room :
    (t l k : ℕ) (f : Bytes → Bytes) (rest : Bytes)
    → (if ltb t l then none else Option.map f (if ltb (l + k) t then some rest else none))
      ≡ (if ltb (l + k) t then some (f rest) else none)
no_room t l k f rest = ground arith

-- Room for a group and then for the rest is room for both.
room_for_group :
    (t l n : ℕ) (f : Bytes → Bytes) (rest : Bytes)
    → (if ltb t (l + 4)
        then none
        else Option.map f (if ltb (l + 4 + quads_length n) t then some rest else none))
      ≡ (if ltb (l + quads_length (suc (suc (suc n)))) t then some (f rest) else none)
room_for_group t l n f rest =
    let e : l + quads_length (suc (suc (suc n))) ≡ l + 4 + quads_length n = omega arith in
    rw e (no_room t (l + 4) (quads_length n) f rest)

-- The encoder gives the encoding if there is room for it and its NUL, and fails if not.
b64_encode_from-quads :
    (targsize l : ℕ) (src : Bytes)
    → b64_encode_from targsize l src
      ≡ (if ltb (l + quads_length (length src)) targsize then some (quads src) else none)
unfolding b64_encode_from quads
b64_encode_from-quads t l [] = ground arith
b64_encode_from-quads t l (a ∷ []) = ground arith
b64_encode_from-quads t l (a ∷ b ∷ []) = ground arith
b64_encode_from-quads t l (a ∷ b ∷ c ∷ src) =
    rw (b64_encode_from-quads t (l + 4) src) (room_for_group t l (length src) _ (quads src))

b64_decode_from-quads :
    (room n : ℕ) (src : Bytes)
    → All (λ a. a < 256) src
    → length src + n < room
    → b64_decode_from room (quads src) n at0 ≡ some src
unfolding quads
b64_decode_from-quads r n [] ha h = (unfold b64_decode_from in refl)
b64_decode_from-quads r n (a ∷ []) ha h =
    rw (decode-two r a 0 0 n (b'=' ∷ b'=' ∷ []) ha.0 (omega arith) (omega arith) (omega arith))
      (unfold b64_decode_from isspace padded second_pad only_spaces in refl)
b64_decode_from-quads r n (a ∷ b ∷ []) ha h =
    rw
      (
        decode-two r a b 0 n (third b 0 ∷ b'=' ∷ []) ha.0 ha.1.0 (omega arith) (omega arith),
        decode-third r a b 0 (n + 1) (b'=' ∷ []) ha.0 ha.1.0 (omega arith) (omega arith),
      )
      (unfold b64_decode_from isspace padded second_pad only_spaces in refl)
b64_decode_from-quads r n (a ∷ b ∷ c ∷ src) ha h = rw (
  decode-two r a b c n (third b c ∷ fourth c ∷ quads src) ha.0 ha.1.0 ha.1.1.0 (omega arith),
  decode-third r a b c (n + 1) (fourth c ∷ quads src) ha.0 ha.1.0 ha.1.1.0 (omega arith),
  decode-fourth r a b c (n + 1 + 1) (quads src) ha.0 ha.1.0 ha.1.1.0 (omega arith),
  b64_decode_from-quads r (n + 1 + 1 + 1) src ha.1.1.1 (omega arith),
)

-- For bytes `src` there is one text that `b64_encode` writes into every buffer with room for four
-- characters for each group of up to three bytes and for the NUL; in a smaller buffer it fails. And
-- `b64_decode` turns that text back into `src`, in every buffer with more bytes than `src`.
pub b64_decode-b64_encode :
    (src : Bytes)
    → All (λ a. a < 256) src
    → (text : Bytes) × ((targsize : ℕ)
        → b64_encode src targsize
          ≡ (if ltb (quads_length (length src)) targsize then some text else none))
      × ((targsize : ℕ) → length src < targsize → b64_decode text targsize ≡ some src)
unfolding b64_encode b64_decode
b64_decode-b64_encode src ha = (
  quads src,
  λ t. b64_encode_from-quads t 0 src ∙ rw (zero-add (quads_length (length src))),
  λ t h. b64_decode_from-quads t 0 src ha (omega arith),
)
