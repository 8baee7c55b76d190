-- ===== src/Tests/Orders.antt =====
-- An order of texts by their code points, as an example of the string order that the code relies on.
use Prim.Native.Char.{code}
use text.Mathlib.TextEquality.{codes_equal}
use refract_backend.Prelude.{◌≡◌, refl, ap₂, String, Bool, true, false, arith, ltb, if◌then◌else◌}
use refract_backend.Staking.Findings.{StringOrder}

before : String → String → Bool
before String.[] String.[] = false
before String.[] (String.◌∷◌ d t) = true
before (String.◌∷◌ c s) String.[] = false
before (String.◌∷◌ c s) (String.◌∷◌ d t) =
    if ltb (code c) (code d) then true else if ltb (code d) (code c) then false else before s t

before_irrefl : (s : String) → before s s ≡ false
unfolding before
before_irrefl String.[] = refl
before_irrefl (String.◌∷◌ c s) = ground (arith, before_irrefl s)

before_asymm : (s t : String) → before s t ≡ true → before t s ≡ false
unfolding before
before_asymm String.[] String.[] h = refl
before_asymm String.[] (String.◌∷◌ d t) h = refl
before_asymm (String.◌∷◌ c s) String.[] h = cc
before_asymm (String.◌∷◌ c s) (String.◌∷◌ d t) h = ground (arith, before_asymm s t)

before_total : (s t : String) → before s t ≡ false → before t s ≡ false → s ≡ t
unfolding before
before_total String.[] String.[] h k = refl
before_total String.[] (String.◌∷◌ d t) h k = cc
before_total (String.◌∷◌ c s) String.[] h k = cc
before_total (String.◌∷◌ c s) (String.◌∷◌ d t) h k =
    ap₂ String.◌∷◌ (codes_equal c d (ground arith)) (before_total s t (ground arith) (ground arith))

pub code_order : StringOrder
unfolding before
code_order = record {
  before = before;
  before_irrefl = before_irrefl;
  before_asymm = before_asymm;
  before_total = before_total;
}
