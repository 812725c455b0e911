-- ===== src/State/Round.antt =====
-- What one round of `filter_existing_keys`, over at most 500 keys, finds and keeps.
use atlas_memory.Prelude.{
  ℕ, zero, suc, Bool, true, ◌&&◌, List, [], ◌∷◌, ◌++◌, map, ◌≡◌, refl, sym, ap, ◌⊎◌, inl, inr,
  arith, if◌then◌else◌, keep_if, take, drop, Bool-cases,
}
use atlas_memory.Prelude.Dict.{listed, listed-append}
use atlas_memory.Prelude.Text.{Str, str_eq, str_eq_iff, str_eq_refl}
use atlas_memory.State.Table.{Sql, Row}
use atlas_memory.State.Reading.{exact_keys, folded_keys, is_missing, find_chunk}
use atlas_memory.State.Mirror.{keys_of}

pub listed-take-drop :
    (n : ℕ) (k : Str) (ks : List Str)
    → listed k ks ≡ (if listed k (take n ks) then true else listed k (drop n ks))
listed-take-drop zero k ks = refl
listed-take-drop (suc n) k [] = refl
listed-take-drop (suc n) k (j ∷ ks) = ground (arith, listed-take-drop n k ks)

pub in_take : (n : ℕ) (k : Str) (ks : List Str) → listed k (take n ks) ≡ true → listed k ks ≡ true
in_take n k ks h = ground (arith, h, listed-take-drop n k ks)

pub in_drop : (n : ℕ) (k : Str) (ks : List Str) → listed k (drop n ks) ≡ true → listed k ks ≡ true
in_drop n k ks h = ground (arith, h, listed-take-drop n k ks)

pub listed-keep_if :
    (p : Str → Bool) (k : Str) (ks : List Str) → listed k (keep_if p ks) ≡ (listed k ks && p k)
listed-keep_if p k [] = refl
listed-keep_if p k (j ∷ ks) =
    let same : str_eq j k ≡ true → p j ≡ p k = λ e. ap p ((str_eq_iff j k).0 e) in
    ground (arith, same, listed-keep_if p k ks)

module _ (lower : Str → Str) where
  listed-map :
      (k : Str) (ks : List Str) → listed k ks ≡ true → listed (lower k) (map lower ks) ≡ true
  listed-map k [] h = absurd (ground (arith, h))
  listed-map k (j ∷ ks) h =
      let same : str_eq j k ≡ true → lower j ≡ lower k = λ e. ap lower ((str_eq_iff j k).0 e) in
      ground (arith, same, str_eq_iff (lower j) (lower k), listed-map k ks)

  listed-unmap :
      (t : Str) (ks : List Str)
      → listed t (map lower ks) ≡ true
      → (k : Str) × (listed k ks ≡ true) × (lower k ≡ t)
  listed-unmap t [] h = absurd (ground (arith, h))
  listed-unmap t (j ∷ ks) h = elim (Bool-cases (str_eq (lower j) t)) [
    | inl same ↦ (j, rw (str_eq_refl j) refl, (str_eq_iff (lower j) t).0 same)
    | inr other ↦
        let (k, m, e) = listed-unmap t ks (ground (arith, h, other)) in (k, ground (arith, m), e)
  ]

listed-keep_rows :
    (p : Str → Bool) (k : Str) (rows : List Row)
    → listed k (keys_of (keep_if (λ r. p r.key) rows)) ≡ (listed k (keys_of rows) && p k)
listed-keep_rows p k [] = refl
listed-keep_rows p k (r ∷ rows) =
    let same : str_eq r.key k ≡ true → p r.key ≡ p k = λ e. ap p ((str_eq_iff r.key k).0 e) in
    ground (arith, same, listed-keep_rows p k rows)

-- A key found that is `k` but for the case.
pub record Answer (s : Sql) (lower : Str → Str) (k : Str) (found : List Str) : Type 0 where
  pub key : Str
  pub is_found : listed key found ≡ true
  pub same : (lower key ≡ lower k) ⊎ (s.lower key ≡ lower k)

-- The key is one of those asked for, by itself or but for the case: what SQLite folds it to is what
-- Python folds one of them to.
abbrev pub IsAsked : Sql → (Str → Str) → List Str → Str → Type 0
IsAsked s lower keys x =
    (listed x keys ≡ true) ⊎ ((k : Str) × (listed k keys ≡ true) × (s.lower x ≡ lower k))

module _ (s : Sql) (lower : Str → Str) where
  pub IsAsked-mono :
      (ks keys : List Str) (x : Str)
      → ((k : Str) → listed k ks ≡ true → listed k keys ≡ true)
      → IsAsked s lower ks x
      → IsAsked s lower keys x
  IsAsked-mono ks keys x within (inl h) = inl (within x h)
  IsAsked-mono ks keys x within (inr (k, h, e)) = inr (k, within k h, e)

  grown :
      (k : Str) (found more : List Str) → Answer s lower k found → Answer s lower k (found ++ more)
  grown k found more a = record {
    key = a.key;
    is_found = ground (arith, listed-append a.key found more, a.is_found);
    same = a.same;
  }

  module _ (rows : List Row) where
    -- What a round finds, and that it keeps what was found.
    pub find_chunk_sound :
        (chunk found : List Str) (k : Str)
        → listed k (find_chunk s lower chunk rows found) ≡ true
        → (listed k found ≡ true) ⊎ (listed k (keys_of rows) ≡ true)
    unfolding find_chunk exact_keys folded_keys
    find_chunk_sound chunk found k h =
        let seen = found ++ exact_keys s lower chunk rows in
        let missing = keep_if (is_missing s lower seen) chunk in
        ground (
          arith,
          h,
          listed-append k seen (folded_keys s lower missing rows),
          listed-append k found (exact_keys s lower chunk rows),
          listed-keep_rows (λ t. listed t chunk) k rows,
          listed-keep_rows (λ t. listed (s.lower t) (map lower missing)) k rows,
        )

    -- What a round finds was asked for in it, or found before.
    pub find_chunk-IsAsked :
        (chunk found : List Str) (x : Str)
        → listed x (find_chunk s lower chunk rows found) ≡ true
        → (listed x found ≡ true) ⊎ IsAsked s lower chunk x
    unfolding find_chunk exact_keys folded_keys
    find_chunk-IsAsked chunk found x h =
        let seen = found ++ exact_keys s lower chunk rows in
        let missing = keep_if (is_missing s lower seen) chunk in
        let exact = listed-keep_rows (λ t. listed t chunk) x rows in
        let folds = listed-keep_rows (λ t. listed (s.lower t) (map lower missing)) x rows in
        let parts = listed-append x found (exact_keys s lower chunk rows) in
        let all = listed-append x seen (folded_keys s lower missing rows) in
        elim (Bool-cases (listed x found)) [
          | inl before ↦ inl before
          | inr new ↦ elim (Bool-cases (listed x chunk)) [
            | inl asked ↦ inr (inl asked)
            | inr other ↦
                let matches : listed (s.lower x) (map lower missing) ≡ true =
                  ground (arith, h, all, parts, exact, folds, new, other) in
                let (k, m, e) = listed-unmap lower (s.lower x) missing matches in
                inr (
                  inr
                    (k, ground (arith, m, listed-keep_if (is_missing s lower seen) k chunk), sym e))
          ]
        ]

    pub find_chunk_grows :
        (chunk found : List Str) (k : Str)
        → listed k found ≡ true
        → listed k (find_chunk s lower chunk rows found) ≡ true
    unfolding find_chunk
    find_chunk_grows chunk found k h =
        let seen = found ++ exact_keys s lower chunk rows in
        ground (
          arith,
          h,
          listed-append k seen (folded_keys s lower (keep_if (is_missing s lower seen) chunk) rows),
          listed-append k found (exact_keys s lower chunk rows),
        )

    pub find_chunk_exact :
        (chunk found : List Str) (k : Str)
        → listed k chunk ≡ true
        → listed k (keys_of rows) ≡ true
        → listed k (find_chunk s lower chunk rows found) ≡ true
    unfolding find_chunk exact_keys
    find_chunk_exact chunk found k asked stands =
        let seen = found ++ exact_keys s lower chunk rows in
        ground (
          arith,
          asked,
          stands,
          listed-append k seen (folded_keys s lower (keep_if (is_missing s lower seen) chunk) rows),
          listed-append k found (exact_keys s lower chunk rows),
          listed-keep_rows (λ t. listed t chunk) k rows,
        )

    pub find_chunk_answers :
        (chunk found : List Str) (k x : Str)
        → listed k chunk ≡ true
        → listed x (keys_of rows) ≡ true
        → s.lower x ≡ lower k
        → Answer s lower k (find_chunk s lower chunk rows found)
    unfolding find_chunk folded_keys is_missing
    find_chunk_answers chunk found k x asked stands same =
        let seen = found ++ exact_keys s lower chunk rows in
        let missing = keep_if (is_missing s lower seen) chunk in
        let folded = folded_keys s lower missing rows in
        elim (Bool-cases (listed k seen)) [
          | inl present ↦
              grown k seen folded (record { key = k; is_found = present; same = inl refl })
          | inr absent ↦ elim (Bool-cases (listed (lower k) (map lower seen))) [
            | inl folds ↦
                let (y, m, e) = listed-unmap lower (lower k) seen folds in
                grown k seen folded (record { key = y; is_found = m; same = inl e })
            | inr new ↦
                let open_key : listed k missing ≡ true =
                  ground
                    (arith, listed-keep_if (is_missing s lower seen) k chunk, asked, absent, new) in
                let asks : listed (s.lower x) (map lower missing) ≡ true =
                  rw same (listed-map lower k missing open_key) in
                record {
                  key = x;
                  is_found = ground (
                    arith,
                    stands,
                    asks,
                    listed-append x seen folded,
                    listed-keep_rows (λ t. listed (s.lower t) (map lower missing)) x rows,
                  );
                  same = inr same;
                }
          ]
        ]
