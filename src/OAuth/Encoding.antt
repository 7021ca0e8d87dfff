-- ===== src/OAuth/Encoding.antt =====
-- The percent-encoding of src/oauth.rs, and the decoding that it is read back by.
use Prim.Native.Nat.{compare, Ordering}
use Prim.Native.Char.{Char, char, code, nul, IsScalar, IsLt}
use mathlib.Core.Logic.{dite}
use native.Mathlib.Decide.{dec_lt}
use shuttle_rs.Prelude.{
  ℕ, zero, suc, ◌+◌, ◌*◌, ◌/◌, ◌%◌, ◌-◌, ◌<◌, String, ◌≡◌, refl, ap, Option, none, some, List, [],
  ◌∷◌, Bool, true, false, ◌||◌, ◌==◌, ltb, if◌then◌else◌, All, All-append, all, codes, arith,
  if_cases,
}
use shuttle_rs.Prelude.Bytes.{as_bytes, encoded}
use shuttle_rs.OAuth.Redirect.{
  hex_digit, is_unreserved, ascii, ascii-IsScalar, encode_bytes, query_component,
}

abbrev hex_value : Char → ℕ
hex_value c = if ltb (code c) 58 then code c - 48 else code c - 55

-- The decoding outside an escape, after its `%`, and after its first digit.
unfoldable pub decode_from : Option (Option ℕ) → String → List ℕ
decode_from state String.[] = []
decode_from none (String.◌∷◌ c rest) =
    let escape = decode_from (some none) rest in
    let plain = decode_from none rest in if code c == 37 then escape else code c ∷ plain
decode_from (some none) (String.◌∷◌ c rest) = decode_from (some (some (hex_value c))) rest
decode_from (some (some high)) (String.◌∷◌ c rest) =
    (high * 16 + hex_value c) ∷ decode_from none rest

unfoldable pub decode : String → List ℕ
unfolding decode_from
decode text = decode_from none text

hex_value-hex_digit : (n : ℕ) → n < 16 → hex_value (hex_digit n) ≡ n
hex_value-hex_digit zero h = refl
hex_value-hex_digit (suc zero) h = refl
hex_value-hex_digit (suc (suc zero)) h = refl
hex_value-hex_digit (suc (suc (suc zero))) h = refl
hex_value-hex_digit (suc (suc (suc (suc zero)))) h = refl
hex_value-hex_digit (suc (suc (suc (suc (suc zero))))) h = refl
hex_value-hex_digit (suc (suc (suc (suc (suc (suc zero)))))) h = refl
hex_value-hex_digit (suc (suc (suc (suc (suc (suc (suc zero))))))) h = refl
hex_value-hex_digit (suc (suc (suc (suc (suc (suc (suc (suc zero)))))))) h = refl
hex_value-hex_digit (suc (suc (suc (suc (suc (suc (suc (suc (suc zero))))))))) h = refl
hex_value-hex_digit (suc (suc (suc (suc (suc (suc (suc (suc (suc (suc zero)))))))))) h = refl
hex_value-hex_digit (suc (suc (suc (suc (suc (suc (suc (suc (suc (suc (suc zero))))))))))) h = refl
hex_value-hex_digit (suc (suc (suc (suc (suc (suc (suc (suc (suc (suc (suc (suc zero)))))))))))) h =
    refl
hex_value-hex_digit
      (suc (suc (suc (suc (suc (suc (suc (suc (suc (suc (suc (suc (suc zero))))))))))))) h =
    refl
hex_value-hex_digit
      (suc (suc (suc (suc (suc (suc (suc (suc (suc (suc (suc (suc (suc (suc zero)))))))))))))) h =
    refl
hex_value-hex_digit
      (suc (suc (suc (suc (suc (suc (suc (suc (suc (suc (suc (suc (suc (suc (suc n)))))))))))))))
      h =
    omega (arith, h)

code-ascii : (byte : ℕ) → byte < 128 → code (ascii byte) ≡ byte
unfolding ascii
code-ascii byte h =
    elim (dec_lt byte 128)
      as (λ d. code (dite d (λ k. char byte (ascii-IsScalar byte k)) (λ _. nul)) ≡ byte) [
        | yes k ↦ refl
        | no k ↦ absurd (k h)
      ]

unreserved_ascii : (byte : ℕ) → is_unreserved byte ≡ true → (byte < 128) × ((byte == 37) ≡ false)
unreserved_ascii byte h = (ground (arith, h), ground (arith, h))

decode-encode_bytes :
    (bytes : List ℕ)
    → All (λ byte. byte < 256) bytes
    → decode_from none (encode_bytes bytes) ≡ bytes
unfolding decode_from encode_bytes
decode-encode_bytes [] h = refl
decode-encode_bytes (byte ∷ bytes) h =
    let rest = decode-encode_bytes bytes h.1 in
    if_cases (λ t. decode_from none t ≡ byte ∷ bytes) (is_unreserved byte) _ _
      (λ y.
        let (small, other) = unreserved_ascii byte y in
        let same = code-ascii byte small in rw same (rw other (ap (λ l. byte ∷ l) rest)))
      (λ n.
        let high = hex_value-hex_digit (byte / 16) (omega (arith, h.0)) in
        let low = hex_value-hex_digit (byte % 16) (omega arith) in
        let value : byte / 16 * 16 + byte % 16 ≡ byte = omega arith in
        rw high (rw low (cc (value, rest))))

IsLt-eq : (o : Ordering) → IsLt o → o ≡ Ordering.lt
IsLt-eq Ordering.lt h = refl
IsLt-eq Ordering.eq h = absurd h
IsLt-eq Ordering.gt h = absurd h

scalar_bound : (n : ℕ) → IsScalar n → n < 1114112
scalar_bound n h = elim (dec_lt n 1114112) [
  | yes k ↦ k
  | no k ↦
      let above : compare n 55296 ≡ Ordering.gt = ground (arith, k) in
      let beyond : compare 57343 n ≡ Ordering.lt = ground (arith, k) in
      let below = IsLt-eq (compare n 1114112) (rw (above, beyond) at h) in ground (arith, below)
]

encoded_bytes : (n : ℕ) → n < 1114112 → All (λ byte. byte < 256) (encoded n)
encoded_bytes n h =
    let P = All (λ byte. byte < 256) in
    if_cases P (ltb n 0x80) _ _ (λ y. (ground (arith, y), tt))
      (λ _.
        if_cases P (ltb n 0x800) _ _
          (λ y. let k : n < 0x800 = ground (arith, y) in (omega (arith, k), (omega arith, tt)))
          (λ _.
            if_cases P (ltb n 0x10000) _ _
              (λ y.
                let k : n < 0x10000 = ground (arith, y) in
                (omega (arith, k), (omega arith, (omega arith, tt))))
              (λ _. (omega (arith, h), (omega arith, (omega arith, (omega arith, tt)))))))

as_bytes_below : (text : String) → All (λ byte. byte < 256) (as_bytes text)
unfolding as_bytes
as_bytes_below String.[] = tt
as_bytes_below (String.◌∷◌ (char n p) rest) =
    All-append (λ byte. byte < 256) (encoded n) (as_bytes rest) (encoded_bytes n (scalar_bound n p))
      (as_bytes_below rest)

-- What may stand in the value of a query without ending it.
abbrev pub is_safe : ℕ → Bool
is_safe c = is_unreserved c || c == 37

is_safe-hex_digit : (n : ℕ) → is_safe (code (hex_digit n)) ≡ true
is_safe-hex_digit zero = refl
is_safe-hex_digit (suc zero) = refl
is_safe-hex_digit (suc (suc zero)) = refl
is_safe-hex_digit (suc (suc (suc zero))) = refl
is_safe-hex_digit (suc (suc (suc (suc zero)))) = refl
is_safe-hex_digit (suc (suc (suc (suc (suc zero))))) = refl
is_safe-hex_digit (suc (suc (suc (suc (suc (suc zero)))))) = refl
is_safe-hex_digit (suc (suc (suc (suc (suc (suc (suc zero))))))) = refl
is_safe-hex_digit (suc (suc (suc (suc (suc (suc (suc (suc zero)))))))) = refl
is_safe-hex_digit (suc (suc (suc (suc (suc (suc (suc (suc (suc zero))))))))) = refl
is_safe-hex_digit (suc (suc (suc (suc (suc (suc (suc (suc (suc (suc zero)))))))))) = refl
is_safe-hex_digit (suc (suc (suc (suc (suc (suc (suc (suc (suc (suc (suc zero))))))))))) = refl
is_safe-hex_digit (suc (suc (suc (suc (suc (suc (suc (suc (suc (suc (suc (suc zero)))))))))))) =
    refl
is_safe-hex_digit
      (suc (suc (suc (suc (suc (suc (suc (suc (suc (suc (suc (suc (suc zero))))))))))))) =
    refl
is_safe-hex_digit
      (suc (suc (suc (suc (suc (suc (suc (suc (suc (suc (suc (suc (suc (suc zero)))))))))))))) =
    refl
is_safe-hex_digit
      (suc (suc (suc (suc (suc (suc (suc (suc (suc (suc (suc (suc (suc (suc (suc n))))))))))))))) =
    refl

all-encode_bytes : (bytes : List ℕ) → all is_safe (codes (encode_bytes bytes)) ≡ true
unfolding encode_bytes
all-encode_bytes [] = refl
all-encode_bytes (byte ∷ bytes) =
    let rest = all-encode_bytes bytes in
    if_cases (λ t. all is_safe (codes t) ≡ true) (is_unreserved byte) _ _
      (λ y.
        let (small, other) = unreserved_ascii byte y in
        let same = code-ascii byte small in rw same (rw y rest))
      (λ n.
        let high = is_safe-hex_digit (byte / 16) in
        let low = is_safe-hex_digit (byte % 16) in rw high (rw low rest))

-- A value that is encoded for a query is decoded to its bytes, and consists of unreserved characters
-- and `%` only: it cannot end the value, or begin another.
pub decode-query_component :
    (value : String)
    → (decode (query_component value) ≡ as_bytes value)
      × (all is_safe (codes (query_component value)) ≡ true)
unfolding decode query_component
decode-query_component value =
    (decode-encode_bytes (as_bytes value) (as_bytes_below value), all-encode_bytes (as_bytes value))
