-- ===== src/Graph/Scan.antt =====
-- A scan of a table that does not change ends, with all rows or with the failure of a smallest page.
use atlas_memory.Prelude.{
  ℕ, zero, suc, ◌+◌, ◌-◌, ◌/◌, ◌≤◌, ◌<◌, max, List, [], ◌∷◌, ◌++◌, none, some, ◌≡◌, refl, sym, ◌∙◌,
  ap, subst, ◌⊎◌, inl, inr, arith, leb, ltb, length, length-drop, take, drop, take-append-drop,
  drop-drop, none_left, Bool-cases,
}
use atlas_memory.Graph.Paging.{
  Engine, Outcome, failed, loaded, then_rows, scan_pages, hydrate_paged,
}

length-take {ℓ} :
    {A : Type ℓ} (n : ℕ) (xs : List A) → length (take n xs) + length (drop n xs) ≡ length xs
length-take zero xs = omega arith
length-take (suc n) [] = omega arith
length-take (suc n) (x ∷ xs) = omega (arith, length-take n xs)

module _ {W R : Type 0} (c : Engine W R) (rows : List R) where
  -- An engine over rows in a fixed order: a page that it answers at all is that page.
  abbrev pub IsStable : Type 0
  IsStable =
      (offset limit : ℕ) (w : W)
      → ((c.execute offset limit w).0 ≡ none)
        ⊎ ((c.execute offset limit w).0 ≡ some (take limit (drop offset rows)))

  -- A page of 64 rows that fails.
  abbrev pub Failure : Type 0
  Failure = (offset : ℕ) × (w : W) × ((c.execute offset 64 w).0 ≡ none)

  abbrev Ends : Outcome R → List R → Type 0
  Ends out rest = (out ≡ loaded rest) ⊎ ((out ≡ failed) × Failure)

  Ends-then_rows :
      (got rest : List R) (out : Outcome R) → Ends out rest → Ends (then_rows got out) (got ++ rest)
  Ends-then_rows got rest out (inl done) = inl (ap (λ z. then_rows got z) done)
  Ends-then_rows got rest out (inr (stopped, why)) = inr (ap (λ z. then_rows got z) stopped, why)

  module _ (stable : IsStable) where
    scan_pages_total :
        (fuel offset limit : ℕ) (w : W)
        → 64 ≤ limit
        → (limit - 64) + length (drop offset rows) < fuel
        → Ends (scan_pages c fuel offset limit w) (drop offset rows)
    unfolding scan_pages
    scan_pages_total zero offset limit w low m = absurd (omega arith)
    scan_pages_total (suc fuel) offset limit w low m =
        let rest = drop offset rows in
        let after = (c.execute offset limit w).1 in
        elim (stable offset limit w) [
          | inl fails ↦
              rw (fails, scan_pages)
                (elim (Bool-cases (leb limit 64)) [
                  | inl small ↦
                      let e : limit ≡ 64 = ground (arith, small) in
                      rw small (
                        inr
                          (refl, (offset, w, subst (λ z. (c.execute offset z w).0 ≡ none) e fails)))
                  | inr large ↦ rw large (
                      scan_pages_total fuel offset (max 64 (limit / 2)) after (omega arith)
                        (ground (arith, large, m)))
                ])
          | inr answers ↦
              rw (answers, scan_pages)
                (elim (Bool-cases (ltb (length (take limit rest)) limit)) [
                  | inl last ↦
                      let none_behind : drop limit rest ≡ [] =
                        none_left (drop limit rest)
                          (ground (arith, last, length-take limit rest, length-drop limit rest)) in
                      rw last (
                        inl (
                          ap (λ z. loaded (take limit rest ++ z)) (sym none_behind)
                          ∙ ap (λ z. loaded z) (take-append-drop limit rest)))
                  | inr full ↦
                      let e : length (take limit rest) ≡ limit =
                        ground (arith, full, length-take limit rest, length-drop limit rest) in
                      let same : drop (offset + limit) rows ≡ drop limit rest =
                        drop-drop offset limit rows in
                      let later =
                        scan_pages_total fuel (offset + limit) limit after low
                          (rw same (ground (arith, e, low, m, length-take limit rest))) in
                      rw (full, e)
                        (subst
                          (λ z.
                            Ends
                              (then_rows (take limit rest)
                                (scan_pages c fuel (offset + limit) limit after))
                              z)
                          (take-append-drop limit rest)
                          (Ends-then_rows (take limit rest) (drop limit rest) _ (
                            subst (Ends (scan_pages c fuel (offset + limit) limit after)) same
                              later)))
                ])
        ]

    -- For an engine over a table that does not change, which may fail on any page: with one attempt
    -- for each row and for each unit of the first page size above 64, and one more, the scan
    -- ends. It hands out all rows in their order, or it raises, and then a page of 64 rows failed.
    pub hydrate_paged_total :
        (fuel page : ℕ) (w : W)
        → length rows + (page - 64) < fuel
        → (hydrate_paged c fuel page w ≡ loaded rows)
          ⊎ ((hydrate_paged c fuel page w ≡ failed) × Failure)
    unfolding hydrate_paged
    hydrate_paged_total fuel page w m =
        scan_pages_total fuel 0 (max 64 page) w (omega arith) (omega (arith, m))
