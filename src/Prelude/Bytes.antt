-- ===== src/Prelude/Bytes.antt =====
-- Operations of the source on bytes and machine words: `^` and `|`, bit by bit, and `str::as_bytes`.
use Prim.Native.Nat.{ℕ, zero, suc, ◌+◌, ◌*◌, ◌/◌, ◌%◌, ◌≤◌}
use Prim.Native.Char.{code}
use Prim.Native.String.{String}
use mathlib.Core.Path.{◌≡◌, refl}
use mathlib.Core.Logic.{◌↔◌}
use mathlib.Core.List.{List, [], ◌∷◌, ◌++◌}
use native.Mathlib.Omega.{arith}
use shuttle_rs.Prelude.Tests.{ltb, ◌==◌, if◌then◌else◌}

-- The lowest bits of `a ^ b` and of `a | b`; there are at most `a + b` to compute.
abbrev xor_bits : ℕ → ℕ → ℕ → ℕ
xor_bits zero a b = 0
xor_bits (suc fuel) a b = (a % 2 + b % 2) % 2 + 2 * xor_bits fuel (a / 2) (b / 2)

abbrev or_bits : ℕ → ℕ → ℕ → ℕ
or_bits zero a b = 0
or_bits (suc fuel) a b = (if a % 2 + b % 2 == 0 then 0 else 1) + 2 * or_bits fuel (a / 2) (b / 2)

unfoldable pub xor : ℕ → ℕ → ℕ
xor a b = xor_bits (a + b) a b

unfoldable pub or : ℕ → ℕ → ℕ
or a b = or_bits (a + b) a b

xor_bits-eq-zero : (fuel a b : ℕ) → a + b ≤ fuel → (xor_bits fuel a b ≡ 0) ↔ (a ≡ b)
xor_bits-eq-zero zero a b h = (λ _. omega (arith, h), λ _. refl)
xor_bits-eq-zero (suc fuel) a b h =
    let (down, up) = xor_bits-eq-zero fuel (a / 2) (b / 2) (omega (arith, h)) in
    (
      λ e. let k = down (omega (arith, e)) in omega (arith, e, k),
      λ e. let k = up (omega (arith, e)) in omega (arith, e, k),
    )

or_bits-eq-zero : (fuel a b : ℕ) → a + b ≤ fuel → (or_bits fuel a b ≡ 0) ↔ ((a ≡ 0) × (b ≡ 0))
or_bits-eq-zero zero a b h = (λ _. (omega (arith, h), omega (arith, h)), λ _. refl)
or_bits-eq-zero (suc fuel) a b h =
    let (down, up) = or_bits-eq-zero fuel (a / 2) (b / 2) (omega (arith, h)) in
    (
      λ e.
          let low : a % 2 + b % 2 ≡ 0 = ground (arith, e) in
          let k = down (ground (arith, e)) in (omega (arith, low, k.0), omega (arith, low, k.1)),
      λ e. let k = up (omega (arith, e.0), omega (arith, e.1)) in ground (arith, e.0, e.1, k),
    )

pub xor-eq-zero : (a b : ℕ) → (xor a b ≡ 0) ↔ (a ≡ b)
unfolding xor
xor-eq-zero a b = xor_bits-eq-zero (a + b) a b (omega arith)

pub or-eq-zero : (a b : ℕ) → (or a b ≡ 0) ↔ ((a ≡ 0) × (b ≡ 0))
unfolding or
or-eq-zero a b = or_bits-eq-zero (a + b) a b (omega arith)

-- The UTF-8 of one character.
abbrev pub encoded : ℕ → List ℕ
encoded n =
    if ltb n 0x80
    then n ∷ []
    else if ltb n 0x800
    then (0xc0 + n / 64) ∷ (0x80 + n % 64) ∷ []
    else if ltb n 0x10000
    then (0xe0 + n / 4096) ∷ (0x80 + n / 64 % 64) ∷ (0x80 + n % 64) ∷ []
    else (0xf0 + n / 262144) ∷ (0x80 + n / 4096 % 64) ∷ (0x80 + n / 64 % 64) ∷ (0x80 + n % 64) ∷ []

unfoldable pub as_bytes : String → List ℕ
as_bytes String.[] = []
as_bytes (String.◌∷◌ c rest) = encoded (code c) ++ as_bytes rest
