-- ===== src/Ledger/Hashes.antt =====
-- The hashes of the payload store (src/oracle/consensus/evidence-ledger.ts), which are its file names.
use Prim.Native.Char.{code}
use Prim.Native.String.{[], ◌∷◌, len}
use refract_backend.Prelude.{ℕ, String, Bool, true, leb, ◌==◌, ◌&&◌, ◌||◌}

-- `[0-9a-f]`.
abbrev is_hex_digit : ℕ → Bool
is_hex_digit c = (leb 48 c && leb c 57) || (leb 97 c && leb c 102)

unfoldable are_hex_digits : String → Bool
are_hex_digits [] = true
are_hex_digits (c ∷ s) = is_hex_digit (code c) && are_hex_digits s

-- The pattern of `assertHash`.
unfoldable pub is_hash : String → Bool
unfolding are_hex_digits
is_hash hash = (len hash == 64) && are_hex_digits hash
