-- ===== src/Pages/Walk.antt =====
-- A client that follows the cursors, while newer rows arrive between its requests.
use refract_backend.Prelude.{
  length-sort_by, length-drop, ltb→lt, take-append-drop, take, inr, inl, ◌∙◌, subst, sym,
  Bool-cases, ltb→le, ltb, ok, Result, err, ◌>>=◌, Pairwise, length, keep, All, sort_by, drop, ◌++◌,
  ◌∷◌, [], List, some, none, Option, false, true, ◌≢◌, ap, refl, ◌≡◌, ◌<◌, ◌≤◌, suc, zero, ℕ, arith,
}
use refract_backend.Pages.{
  Page, page_of, last?, row_first, remaining_after, key_json, Json, out_of_fuel, json_key,
  encode_cursor, PageError, after_of, PageKey, comes_first, paginate_desc,
}
use refract_backend.Pages.Sorted.{
  All-drop, All-sort_by, Pairwise-imp, take_all, cut_at, Ordered-drop, keep-keep, Ordered,
  Ordered-sort_by, All-keep, All-imp, keep-sort_by-append,
}
use refract_backend.Pages.Order.{comes_first_total, comes_first_trans, comes_first_irrefl}

-- The rows when the next arrivals have come.
abbrev pub arrive : {T : Type 0} → List (List T) → List T → List T
arrive [] rows = rows
arrive (new ∷ later) rows = new ++ rows

module _ {Cursor T : Type 0} where
  -- A page's items, and those of the pages that its cursor leads to.
  abbrev pub follow :
      Page Cursor T → (Cursor → Result PageError (List T)) → Result PageError (List T)
  follow page go = elim page.next_cursor [
    | none ↦ ok page.items
    | some next ↦ go next >>= λ rest. ok (page.items ++ rest)
  ]

module _ {Cursor : Type 0} (print : Json → Cursor) (parse : Cursor → Option Json) {T : Type 0}
    (key_of : T → PageKey) (limit : ℕ) where
  -- One request for each unit of fuel, with arrivals between two requests.
  abbrev pub walk : ℕ → List (List T) → List T → Option Cursor → Result PageError (List T)
  walk zero arrivals rows cursor = err out_of_fuel
  walk (suc fuel) arrivals rows cursor =
      paginate_desc print parse key_of rows (record { limit = some limit; cursor = cursor }) limit
      >>= λ page.
          follow page (λ next. walk fuel (drop 1 arrivals) (arrive arrivals rows) (some next))

module _ {T : Type 0} (key_of : T → PageKey) where
  -- The rows that a request with this cursor pages through.
  abbrev seen : Option PageKey → List T → List T
  seen after rows = remaining_after key_of after (sort_by (row_first key_of) rows)

  first_irrefl : (x : T) → row_first key_of x x ≡ false
  first_irrefl x = comes_first_irrefl (key_of x)

  first_trans :
      (x y z : T)
      → row_first key_of x y ≡ true
      → row_first key_of y z ≡ true
      → row_first key_of x z ≡ true
  first_trans x y z = comes_first_trans (key_of x) (key_of y) (key_of z)

  first_asym : (x y : T) → row_first key_of x y ≡ true → row_first key_of y x ≡ false
  first_asym x y h = ground (arith, first_trans x y x h, first_irrefl x)

  -- Rows that came before a row are not after it.
  keep-arrive :
      (x : T) (arrivals : List (List T)) (rows : List T)
      → All (All (λ new. row_first key_of new x ≡ true)) arrivals
      → keep (row_first key_of x) (sort_by (row_first key_of) (arrive arrivals rows))
        ≡ keep (row_first key_of x) (sort_by (row_first key_of) rows)
  keep-arrive x [] rows h = refl
  keep-arrive x (new ∷ later) rows (h, _) =
      keep-sort_by-append (row_first key_of) (row_first key_of x) new rows
        (All-imp new (λ n. first_asym n x) h)

  -- The next request sees what this one left.
  keep-seen :
      (after : Option PageKey) (x : T) (rows : List T)
      → ((P : T → Type 0) → All P (seen after rows) → P x)
      → keep (row_first key_of x) (seen after rows)
        ≡ keep (row_first key_of x) (sort_by (row_first key_of) rows)
  keep-seen none x rows among = refl
  keep-seen (some k) x rows among =
      keep-keep (row_first key_of x) (λ r. comes_first k (key_of r))
        (sort_by (row_first key_of) rows)
        (λ y h.
          comes_first_trans k (key_of x) (key_of y)
            (among (λ z. comes_first k (key_of z) ≡ true)
              (All-keep (λ r. comes_first k (key_of r)) (sort_by (row_first key_of) rows)))
            h)

module _ {Cursor : Type 0} (print : Json → Cursor) (parse : Cursor → Option Json)
    (reads : (k : PageKey) → parse (print (key_json k)) ≡ some (key_json k)) where
  after-encoded :
      (k : PageKey) → after_of print parse (some (encode_cursor print parse k)) ≡ ok (some k)
  unfolding json_key
  after-encoded k = ap (λ j. json_key j >>= λ key. ok (some key)) (reads k)

  module _ {T : Type 0} (key_of : T → PageKey) (limit : ℕ) (positive : 1 ≤ limit) where
    page_last :
        (rows : List T)
        → ltb limit (length rows) ≡ false
        → page_of print parse key_of limit rows ≡ ok (record { items = rows; next_cursor = none })
    page_last rows last = ground (arith, take_all limit rows (ltb→le limit (length rows) last))

    page_more :
        (rows : List T) (x : T)
        → ltb limit (length rows) ≡ true
        → last? (take limit rows) ≡ some x
        → page_of print parse key_of limit rows
          ≡ ok (record {
            items = take limit rows;
            next_cursor = some (encode_cursor print parse (key_of x));
          })
    page_more rows x more ends = ground arith

    walk_from :
        (fuel : ℕ) (arrivals : List (List T)) (rows : List T) (cursor : Option Cursor)
        (after : Option PageKey)
        → after_of print parse cursor ≡ ok after
        → Ordered (row_first key_of) (seen key_of after rows)
        → All
            (All (λ new. All (λ x. row_first key_of new x ≡ true) (seen key_of after rows)))
            arrivals
        → length (seen key_of after rows) < fuel
        → walk print parse key_of limit fuel arrivals rows cursor ≡ ok (seen key_of after rows)
    unfolding paginate_desc
    walk_from zero arrivals rows cursor after at ordered newer enough = absurd (omega arith)
    walk_from (suc fuel) arrivals rows cursor after at ordered newer enough =
        elim (Bool-cases (ltb limit (length (seen key_of after rows)))) [
          | inr last ↦
              ap (λ r. r >>= λ page. follow page go)
                (answer ∙ page_last (seen key_of after rows) last)
          | inl more ↦
              let (x, ends, left, (among, _)) =
                cut_at (row_first key_of) (first_irrefl key_of) (first_trans key_of) limit
                  (seen key_of after rows) positive ordered (omega (arith, more_lt more)) in
              let left' : seen key_of (some (key_of x)) (arrive arrivals rows)
                  ≡ drop limit (seen key_of after rows) =
                keep-arrive key_of x arrivals rows
                  (All-imp arrivals (λ news. All-imp news (λ n h. among _ h)) newer)
                ∙ sym (keep-seen key_of after x rows among)
                ∙ left in
              ap (λ r. r >>= λ page. follow page go)
                (answer ∙ page_more (seen key_of after rows) x more ends)
              ∙ ap (λ r. r >>= λ rest. ok (take limit (seen key_of after rows) ++ rest))
                  (walk_from fuel (drop 1 arrivals) (arrive arrivals rows)
                    (some (encode_cursor print parse (key_of x))) (some (key_of x))
                    (after-encoded (key_of x))
                    (subst (Ordered (row_first key_of)) (sym left')
                      (Ordered-drop (row_first key_of) limit (seen key_of after rows) ordered))
                    (subst
                      (λ (rem : List T).
                        All (All (λ new. All (λ y. row_first key_of new y ≡ true) rem))
                          (drop 1 arrivals))
                      (sym left')
                      (All-drop _ 1 arrivals (
                        All-imp arrivals
                          (λ news.
                            All-imp news (λ n h. All-drop _ limit (seen key_of after rows) h))
                          newer)))
                    (omega (
                      arith,
                      ap length left',
                      length-drop limit (seen key_of after rows),
                      more_lt more,
                    )))
              ∙ ap (λ (rest : List T). ok (take limit (seen key_of after rows) ++ rest)) left'
              ∙ ap ok (take-append-drop limit (seen key_of after rows))
        ]
      where
        more_lt :
            ltb limit (length (seen key_of after rows)) ≡ true
            → limit < length (seen key_of after rows)
        more_lt h = ltb→lt limit (length (seen key_of after rows)) h

        go : Cursor → Result PageError (List T)
        go next =
            walk print parse key_of limit fuel (drop 1 arrivals) (arrive arrivals rows) (some next)

        answer :
            paginate_desc print parse key_of rows
              (record { limit = some limit; cursor = cursor })
              limit
            ≡ page_of print parse key_of limit (seen key_of after rows)
        answer =
            ap (λ r. r >>= λ found. page_of print parse key_of limit (seen key_of found rows)) at

    -- Where rows have distinct keys, the limit is positive and cursors read back, following the
    -- cursors ends within one request more than there are rows and gives each row once, newest
    -- first, also while rows newer than all of these arrive between the requests.
    pub walk-sort_by :
        (fuel : ℕ) (arrivals : List (List T)) (rows : List T)
        → Pairwise (λ x y. key_of x ≢ key_of y) rows
        → All (All (λ new. All (λ x. row_first key_of new x ≡ true) rows)) arrivals
        → length rows < fuel
        → walk print parse key_of limit fuel arrivals rows none
          ≡ ok (sort_by (row_first key_of) rows)
    walk-sort_by fuel arrivals rows distinct newer enough =
        walk_from fuel arrivals rows none none refl
          (Ordered-sort_by (row_first key_of) (first_irrefl key_of) (first_trans key_of) rows
            (Pairwise-imp rows (λ x y. comes_first_total (key_of x) (key_of y)) distinct))
          (All-imp arrivals (λ news. All-imp news (λ n h. All-sort_by (row_first key_of) _ rows h))
            newer)
          (omega (arith, length-sort_by (row_first key_of) rows))
