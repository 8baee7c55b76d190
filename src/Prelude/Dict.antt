-- ===== src/Prelude/Dict.antt =====
-- A JavaScript `Map`: an association list in insertion order, with one entry for a key. A write to
-- a key that is present keeps its place, a new key goes to the end.
use Prim.Native.Nat.{◌+◌, ◌≤◌}
use mathlib.Core.List.{List, [], ◌∷◌}
use mathlib.Core.Logic.{◌≢◌, ite}
use mathlib.Core.Option.{Option, none, some}
use mathlib.Core.Path.{◌≡◌, refl}
use native.Mathlib.Omega.{arith}
use refract_backend.Prelude.Lists.{length}

abbrev pub Dict : Type 0 → Type 0 → Type 0
Dict K V = List (K × V)

module _ {K V : Type 0} (dec : Discrete K) where
  abbrev pub lookup : K → Dict K V → Option V
  lookup k [] = none
  lookup k ((j, v) ∷ d) = ite (dec j k) (some v) (lookup k d)

  abbrev pub insert : K → V → Dict K V → Dict K V
  insert k v [] = (k, v) ∷ []
  insert k v ((j, w) ∷ d) = ite (dec j k) ((j, v) ∷ d) ((j, w) ∷ insert k v d)

  abbrev pub delete : K → Dict K V → Dict K V
  delete k [] = []
  delete k ((j, v) ∷ d) = ite (dec j k) (delete k d) ((j, v) ∷ delete k d)

  pub lookup-insert :
      (k j : K) (v : V) (d : Dict K V)
      → lookup j (insert k v d) ≡ ite (dec k j) (some v) (lookup j d)
  lookup-insert k j v [] = refl
  lookup-insert k j v ((i, w) ∷ d) = ground (arith, lookup-insert k j v d)

  pub lookup-insert_self : (k : K) (v : V) (d : Dict K V) → lookup k (insert k v d) ≡ some v
  lookup-insert_self k v d = ground (arith, lookup-insert k k v d)

  pub lookup-insert_ne :
      (k j : K) (v : V) (d : Dict K V) → k ≢ j → lookup j (insert k v d) ≡ lookup j d
  lookup-insert_ne k j v d h = ground (arith, lookup-insert k j v d)

  pub lookup-delete_self : (k : K) (d : Dict K V) → lookup k (delete k d) ≡ none
  lookup-delete_self k [] = refl
  lookup-delete_self k ((i, w) ∷ d) = ground (arith, lookup-delete_self k d)

  pub lookup-delete_ne : (k j : K) (d : Dict K V) → k ≢ j → lookup j (delete k d) ≡ lookup j d
  lookup-delete_ne k j [] h = refl
  lookup-delete_ne k j ((i, w) ∷ d) h = ground (arith, lookup-delete_ne k j d h)

  pub length-insert-le : (k : K) (v : V) (d : Dict K V) → length (insert k v d) ≤ length d + 1
  length-insert-le k v [] = omega arith
  length-insert-le k v ((i, w) ∷ d) = ground (arith, length-insert-le k v d)

  pub length-insert :
      (k : K) (v : V) (d : Dict K V) (w : V)
      → lookup k d ≡ some w
      → length (insert k v d) ≡ length d
  length-insert k v [] w h = cc
  length-insert k v ((i, u) ∷ d) w h = ground (arith, length-insert k v d w)
