-- ===== src/State/Pages.antt =====
-- Reading the whole table page by page.
use mathlib.Core.List.{Permᴰ, append-nil, append_assoc, map-append}
use mathlib.Core.List.Permᴰ
use atlas_memory.Prelude.{
  ℕ, zero, suc, ◌+◌, ◌*◌, ◌≤◌, max, min, Bool, true, false, not, List, [], ◌∷◌, ◌++◌, map, ◌≡◌,
  refl, sym, ◌∙◌, ap, subst, arith, length, length-drop, take-append-drop, drop-drop, none_left,
  take, drop,
}
use atlas_memory.Prelude.Dict.{Dict, insert, listed, listed-append, Distinct}
use atlas_memory.Prelude.Sorting.{
  IsFalling, sort_falling-Permᴰ, sort_falling-IsFalling, length-Permᴰ,
}
use atlas_memory.Prelude.Text.{Str, str_eq, str_eq_iff, str_eq_refl, str_leb, str_leb_total}
use atlas_memory.State.Table.{Sql, Row, Database}
use atlas_memory.State.Reading.{Json, StateDict, row_to_state_dict, collect, by_key, get_all}
use atlas_memory.State.Mirror.{keys_of}

listed-Permᴰ : {xs ys : List Str} (k : Str) → Permᴰ xs ys → listed k xs ≡ listed k ys
listed-Permᴰ k Permᴰ.nil = refl
listed-Permᴰ k (Permᴰ.cons e q) = ground (arith, ap (λ z. str_eq z k) e, listed-Permᴰ k q)
listed-Permᴰ k (Permᴰ.swap e f) = ground (arith, ap (λ z. str_eq z k) e, ap (λ z. str_eq z k) f)
listed-Permᴰ k (Permᴰ.trans q r) = listed-Permᴰ k q ∙ listed-Permᴰ k r

Distinct-Permᴰ : {xs ys : List Str} → Permᴰ xs ys → Distinct xs → Distinct ys
Distinct-Permᴰ Permᴰ.nil d = tt
Distinct-Permᴰ (Permᴰ.cons {a} {b} {l₁} {l₂} e q) d =
    (sym (listed-Permᴰ b q) ∙ subst (λ z. listed z l₁ ≡ false) e d.0, Distinct-Permᴰ q d.1)
Distinct-Permᴰ (Permᴰ.swap {a} {b} {a'} {b'} {l} e f) d =
    let swapped : Distinct (b ∷ a ∷ l) = ground (arith, d.0, d.1, str_eq_iff a b, str_eq_iff b a) in
    subst (λ z. Distinct (z ∷ b' ∷ l)) f (subst (λ z. Distinct (b ∷ z ∷ l)) e swapped)
Distinct-Permᴰ (Permᴰ.trans q r) d = Distinct-Permᴰ r (Distinct-Permᴰ q d)

Distinct-page :
    (m n : ℕ) (rows : List Row)
    → Distinct (keys_of rows)
    → Distinct (keys_of (take m (drop n rows)))
Distinct-page m zero rows d = taken m rows d
  where
    taken-unlisted :
        (k : Str) (n : ℕ) (qs : List Row)
        → listed k (keys_of qs) ≡ false
        → listed k (keys_of (take n qs)) ≡ false
    taken-unlisted k zero qs h = refl
    taken-unlisted k (suc n) [] h = refl
    taken-unlisted k (suc n) (q ∷ qs) h = ground (arith, h, taken-unlisted k n qs)

    taken : (n : ℕ) (qs : List Row) → Distinct (keys_of qs) → Distinct (keys_of (take n qs))
    taken zero qs d = tt
    taken (suc n) [] d = tt
    taken (suc n) (q ∷ qs) d = (taken-unlisted q.key n qs d.0, taken n qs d.1)
Distinct-page zero (suc n) [] d = tt
Distinct-page (suc m) (suc n) [] d = tt
Distinct-page m (suc n) (r ∷ rows) d = Distinct-page m n rows d.1

-- Each key is at most the next.
abbrev pub IsRising : List Row → Type 0
IsRising [] = Unit
IsRising (r ∷ []) = Unit
IsRising (r ∷ q ∷ rows) = (str_leb r.key q.key ≡ true) × IsRising (q ∷ rows)

by_key-IsRising : (rows : List Row) → IsRising (by_key rows)
unfolding by_key
by_key-IsRising rows = rising _ (sort_falling-IsFalling later asym rows)
  where
    later : Row → Row → Bool
    later a b = not (str_leb a.key b.key)

    asym : (a b : Row) → later a b ≡ true → later b a ≡ false
    asym a b h = ground (arith, h, str_leb_total a.key b.key)

    rising : (qs : List Row) → IsFalling later qs → IsRising qs
    rising [] h = tt
    rising (q ∷ []) h = tt
    rising (q ∷ p ∷ qs) h = (ground (arith, h.0), rising (p ∷ qs) h.1)

module _ {V : Type 0} (s : Sql) (j : Json V) where
  -- Rows with different keys become entries in their order.
  abbrev pub read : List Row → Dict (StateDict V)
  read = map (λ r. (r.key, row_to_state_dict s j r))

  insert-unlisted :
      (k : Str) (v : StateDict V) (d : Dict (StateDict V))
      → listed k (map (λ e. e.0) d) ≡ false
      → insert k v d ≡ d ++ ((k, v) ∷ [])
  unfolding insert
  insert-unlisted k v [] h = refl
  insert-unlisted k v ((i, w) ∷ d) h = ground (arith, h, insert-unlisted k v d)

  collect-Distinct :
      (rows : List Row) (d : Dict (StateDict V))
      → Distinct (keys_of rows)
      → ((k : Str) → listed k (keys_of rows) ≡ true → listed k (map (λ e. e.0) d) ≡ false)
      → collect s j rows d ≡ d ++ read rows
  unfolding collect
  collect-Distinct [] d h new = sym (append-nil d)
  collect-Distinct (r ∷ rows) d h new =
      let v = row_to_state_dict s j r in
      let absent : listed r.key (map (λ e. e.0) d) ≡ false =
        new r.key (rw (str_eq_refl r.key) refl) in
      rw (insert-unlisted r.key v d absent) (
        collect-Distinct rows (d ++ ((r.key, v) ∷ [])) h.1 (λ k m.
          rw (map-append (λ (e : Str × StateDict V). e.0) d ((r.key, v) ∷ [])) (
            ground (
              arith,
              listed-append k (map (λ (e : Str × StateDict V). e.0) d) (r.key ∷ []),
              new k,
              m,
              h.0,
              str_eq_iff r.key k,
            )))
        ∙ append_assoc d ((r.key, v) ∷ []) (read rows))

  -- Pages of one limit, from an offset on, one behind the other.
  unfoldable pub scan : Database → ℕ → ℕ → ℕ → Dict (StateDict V)
  unfolding get_all
  scan db limit zero offset = []
  scan db limit (suc pages) offset =
      get_all s j db limit offset ++ scan db limit pages (offset + limit)

  sorted-Distinct :
      (db : Database) → Distinct (keys_of db.rows) → Distinct (keys_of (by_key db.rows))
  unfolding by_key
  sorted-Distinct db d =
      Distinct-Permᴰ
        (Permᴰ.map (λ (r : Row). r.key)
          (Permᴰ.symm (sort_falling-Permᴰ (λ (a b : Row). not (str_leb a.key b.key)) db.rows)))
        d

  get_all_lem :
      (db : Database) (limit offset : ℕ)
      → Distinct (keys_of db.rows)
      → 1 ≤ limit
      → limit ≤ 5000
      → get_all s j db limit offset ≡ read (take limit (drop offset (by_key db.rows)))
  unfolding get_all
  get_all_lem db limit offset d low high =
      let e : max 1 (min limit 5000) ≡ limit = omega arith in
      rw e (
        collect-Distinct (take limit (drop offset (by_key db.rows))) []
          (Distinct-page limit offset (by_key db.rows) (sorted-Distinct db d)) (λ k m. refl))

  scan_from :
      (db : Database) (limit pages offset : ℕ)
      → Distinct (keys_of db.rows)
      → 1 ≤ limit
      → limit ≤ 5000
      → length (drop offset (by_key db.rows)) ≤ pages * limit
      → scan db limit pages offset ≡ read (drop offset (by_key db.rows))
  unfolding scan
  scan_from db limit zero offset d low high m =
      sym (ap read (none_left (drop offset (by_key db.rows)) (omega (arith, m))))
  scan_from db limit (suc pages) offset d low high m =
      let rest = drop offset (by_key db.rows) in
      rw
        (
          get_all_lem db limit offset d low high,
          scan_from db limit pages (offset + limit) d low high (
              rw (drop-drop offset limit (by_key db.rows))
                (omega (arith, m, length-drop limit rest))),
        )
        (rw (drop-drop offset limit (by_key db.rows)) (
          sym (
            map-append (λ (r : Row). (r.key, row_to_state_dict s j r)) (take limit rest)
              (drop limit rest))
          ∙ ap read (take-append-drop limit rest)))

  -- Where no key stands twice, reading with a limit from 1 to 5000, page after page until there are
  -- enough of them, hands out every row of the table, each once and under its key, by rising key.
  scan_whole :
      (db : Database) (limit pages : ℕ)
      → Distinct (keys_of db.rows)
      → 1 ≤ limit
      → limit ≤ 5000
      → length db.rows ≤ pages * limit
      → (sorted : List Row) × (scan db limit pages 0 ≡ read sorted)
        × Permᴰ sorted db.rows
        × IsRising sorted
  unfolding by_key
  scan_whole db limit pages d low high m =
      let same = sort_falling-Permᴰ (λ (a b : Row). not (str_leb a.key b.key)) db.rows in
      (
        by_key db.rows,
        scan_from db limit pages 0 d low high (omega (arith, m, length-Permᴰ same)),
        same,
        by_key-IsRising db.rows,
      )
