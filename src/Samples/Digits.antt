-- ===== src/Samples/Digits.antt =====
-- Base 64.
use omega_services.Prelude.{
  ◌≡◌, refl, ◌<◌, ltb, ℕ, some, none, [], ◌∷◌, Bytes, codes, pos, if◌then◌else◌, arith,
}
use omega_services.Base64.Numbers.{base64enc, base64dec, inttobase64}
use omega_services.Base64.Numbers.RoundTrip.{base64dec-base64enc}
use omega_services.Base64.Quads.{b64_encode, b64_decode}
use omega_services.Base64.Quads.Inverse.{b64_decode-b64_encode, quads_length}

timestamp : base64enc (pos 1330814089) ≡ some (codes "1FKfo9")
unfolding base64enc
timestamp = refl

numeric : inttobase64 70 2 ≡ codes "BG"
unfolding inttobase64
numeric = refl

encoded : b64_encode (codes "light w.") 25 ≡ some (codes "bGlnaHQgdy4=")
unfolding b64_encode
encoded = refl

decoded : b64_decode (codes "bGln aHQgdw = =") 25 ≡ some (codes "light w")
unfolding b64_decode
decoded = refl

-- Bits left in the last byte are refused.
leftover : b64_decode (codes "bGlnaHR=") 25 ≡ none
unfolding b64_decode
leftover = refl

base64dec-base64enc_example :
    (s : Bytes) × (base64enc (pos 1330814089) ≡ some s) × (base64dec s ≡ some 1330814089)
base64dec-base64enc_example = base64dec-base64enc 1330814089 (omega arith)

abbrev address : Bytes
address = 192 ∷ 0 ∷ 2 ∷ 7 ∷ []

b64_decode-b64_encode_example :
    (text : Bytes) × ((targsize : ℕ)
      → b64_encode address targsize ≡ (if ltb (quads_length 4) targsize then some text else none))
    × ((targsize : ℕ) → 4 < targsize → b64_decode text targsize ≡ some address)
b64_decode-b64_encode_example = b64_decode-b64_encode address (omega arith)
