-- ===== src/Encoding/Fields.antt =====
-- The packed layout as arithmetic: what `|` makes of the fields is their sum, and each field is read
-- back from it.
use Prim.Native.Nat.{bit_or}
use refract_backend.Prelude.{subst, sym, refl, ◌∙◌, ap, ◌≡◌, ◌<◌, ◌≤◌, ◌^◌, ◌*◌, ◌+◌, ℕ, arith}
use refract_backend.Encoding.Provenance.{u128_max, field}
use refract_backend.Prelude.Bits.{bit_or_above}

abbrev pub joined : ℕ → ℕ → ℕ → ℕ → ℕ
joined t a s d = ((1 * 2 ^ 124 + t * 2 ^ 120) + a * 2 ^ 112) + s * 2 ^ 64 + d

above : (k q x r : ℕ) → x ≡ q * 2 ^ k → r < 2 ^ k → bit_or x r ≡ x + r
above k q x r field_of fits =
    subst (λ (y : ℕ). bit_or y r ≡ y + r) (sym field_of) (bit_or_above k q r fits)

pub or_of_fields :
    (t a s d : ℕ)
    → t < 2 ^ 4
    → a < 2 ^ 8
    → s < 2 ^ 40
    → d < 2 ^ 64
    → bit_or (bit_or (bit_or (bit_or (1 * 2 ^ 124) (t * 2 ^ 120)) (a * 2 ^ 112)) (s * 2 ^ 64)) d
      ≡ joined t a s d
or_of_fields t a s d ht ha hs hd =
    ap (λ (x : ℕ). bit_or (bit_or (bit_or x (a * 2 ^ 112)) (s * 2 ^ 64)) d)
      (above 124 1 (1 * 2 ^ 124) (t * 2 ^ 120) refl (omega arith))
    ∙ ap (λ (x : ℕ). bit_or (bit_or x (s * 2 ^ 64)) d)
        (above 120 (16 + t) (1 * 2 ^ 124 + t * 2 ^ 120) (a * 2 ^ 112) (omega arith) (omega arith))
    ∙ ap (λ (x : ℕ). bit_or x d)
        (above 112 (4096 + t * 256 + a) (1 * 2 ^ 124 + t * 2 ^ 120 + a * 2 ^ 112) (s * 2 ^ 64)
          (omega arith) (omega arith))
    ∙ above 64 (2 ^ 60 + t * 2 ^ 56 + a * 2 ^ 48 + s)
        (1 * 2 ^ 124 + t * 2 ^ 120 + a * 2 ^ 112 + s * 2 ^ 64) d (omega arith) hd

-- Each field of the sum.
pub fields-joined :
    (t a s d : ℕ)
    → t < 2 ^ 4
    → a < 2 ^ 8
    → s < 2 ^ 40
    → d < 2 ^ 64
    → (field (joined t a s d) 124 4 ≡ 1)
      × (field (joined t a s d) 120 4 ≡ t)
      × (field (joined t a s d) 112 8 ≡ a)
      × (field (joined t a s d) 104 8 ≡ 0)
      × (field (joined t a s d) 64 40 ≡ s)
      × (field (joined t a s d) 0 64 ≡ d)
fields-joined t a s d ht ha hs hd =
    (omega arith, omega arith, omega arith, omega arith, omega arith, omega arith)

-- A u128 is the sum of its fields.
pub joined-fields :
    (n : ℕ)
    → n ≤ u128_max
    → field n 124 4 ≡ 1
    → field n 104 8 ≡ 0
    → joined (field n 120 4) (field n 112 8) (field n 64 40) (field n 0 64) ≡ n
joined-fields n le version reserved = omega arith
