-- ===== src/Pages.antt =====
-- Keyset pagination, newest row first (src/common/pagination.ts). A time is a whole number of
-- milliseconds, an id is the list of its code units. A cursor is a text that only `print` and
-- `parse` look at, the JSON and base64 of the standard library: from a value, and back if the text
-- is well-formed.
pub mod Order
pub mod Sorted
pub mod Walk
use refract_backend.Prelude.{
  ◌>>=◌, or_fail, Result, ok, err, length, keep, sort_by, take, ◌∷◌, [], List, some, none, Option,
  not, false, true, Bool, String, if◌then◌else◌, ◌==◌, ltb, ℕ, arith,
}
use refract_backend.Prelude.Int.{sub_ℕ, ltb_ℤ, ℤ, pos, negsuc}

-- The ids' `<`: code unit by code unit.
abbrev pub text_lt : List ℕ → List ℕ → Bool
text_lt [] [] = false
text_lt [] (d ∷ ds) = true
text_lt (c ∷ cs) [] = false
text_lt (c ∷ cs) (d ∷ ds) =
    let rest = text_lt cs ds in if ltb c d then true else if ltb d c then false else rest

pub record PageKey : Type 0 where
  pub at : ℕ
  pub id : List ℕ

pub record Page (Cursor T : Type 0) : Type 0 where
  pub items : List T
  pub next_cursor : Option Cursor

pub record PageQuery (Cursor : Type 0) : Type 0 where
  pub limit : Option ℕ
  pub cursor : Option Cursor

pub data PageError : Type 0 where
  invalid_cursor no_last_item out_of_fuel : PageError

-- What a cursor's JSON can hold, as far as it is looked at.
pub data Scalar : Type 0 where
  finite_number : ℕ → Scalar
  string_value : List ℕ → Scalar
  other_scalar : Scalar

pub data Json : Type 0 where
  array : List Scalar → Json
  other_json : Json

-- Negative where the first key comes first: the newer one, and of two at one time the greater id.
unfoldable pub compare_desc : PageKey → PageKey → ℤ
compare_desc a b =
    if not (a.at == b.at)
    then sub_ℕ b.at a.at
    else if text_lt a.id b.id
    then pos 1
    else if text_lt b.id a.id
    then negsuc 0
    else pos 0

abbrev pub comes_first : PageKey → PageKey → Bool
comes_first a b = ltb_ℤ (compare_desc a b) (pos 0)

abbrev pub key_json : PageKey → Json
key_json k = array (finite_number k.at ∷ string_value k.id ∷ [])

unfoldable pub json_key : Option Json → Result PageError PageKey
json_key none = err invalid_cursor
json_key (some other_json) = err invalid_cursor
json_key (some (array [])) = err invalid_cursor
json_key (some (array (x ∷ []))) = err invalid_cursor
json_key (some (array (finite_number t ∷ string_value s ∷ []))) = ok (record { at = t; id = s })
json_key (some (array (x ∷ y ∷ rest))) = err invalid_cursor

abbrev pub last? : {T : Type 0} → List T → Option T
last? [] = none
last? (x ∷ []) = some x
last? (x ∷ y ∷ ys) = last? (y ∷ ys)

module _ {T : Type 0} (key_of : T → PageKey) where
  abbrev pub row_first : T → T → Bool
  row_first x y = comes_first (key_of x) (key_of y)

  -- The rows after the cursor's key.
  abbrev pub remaining_after : Option PageKey → List T → List T
  remaining_after none rows = rows
  remaining_after (some after) rows = keep (λ r. comes_first after (key_of r)) rows

module _ {Cursor : Type 0} (print : Json → Cursor) (parse : Cursor → Option Json) where
  abbrev pub encode_cursor : PageKey → Cursor
  encode_cursor k = print (key_json k)

  abbrev pub decode_cursor : Cursor → Result PageError PageKey
  decode_cursor cursor = json_key (parse cursor)

  abbrev pub after_of : Option Cursor → Result PageError (Option PageKey)
  after_of none = ok none
  after_of (some cursor) = decode_cursor cursor >>= λ k. ok (some k)

  module _ {T : Type 0} (key_of : T → PageKey) where
    -- `items[items.length - 1]` is undefined for no items, and its key throws.
    abbrev pub page_of : ℕ → List T → Result PageError (Page Cursor T)
    page_of limit remaining =
        if ltb limit (length remaining)
        then (or_fail (last? (take limit remaining)) no_last_item >>= λ x. ok (record {
          items = take limit remaining;
          next_cursor = some (encode_cursor (key_of x));
        }))
        else ok (record { items = take limit remaining; next_cursor = none })

    unfoldable pub paginate_desc : List T → PageQuery Cursor → ℕ → Result PageError (Page Cursor T)
    paginate_desc rows query default_limit = after_of query.cursor >>= λ after.
        page_of (elim query.limit [ none ↦ default_limit | some n ↦ n ])
          (remaining_after key_of after (sort_by (row_first key_of) rows))
