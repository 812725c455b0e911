-- ===== src/State/Limits.antt =====
-- How many candidates a search returns, and which.
use mathlib.Core.Option.{some_inj}
use atlas_memory.Prelude.{
  ℕ, zero, suc, ◌+◌, ◌≤◌, max, min, Bool, true, false, not, ◌&&◌, List, [], ◌∷◌, ◌++◌, some, ◌≡◌,
  refl, ap, ◌⊎◌, inl, inr, arith, leb, ltb, ◌==◌, if◌then◌else◌, length, keep_if, any_of, take, All,
  All-keep_if, Bool-cases, Option-cases,
}
use atlas_memory.Prelude.Dict.{Dict, insert, has_key}
use atlas_memory.Prelude.Text.{Str, codes, str_eq, str_eq_iff, is_empty, strip_space, before}
use atlas_memory.State.Table.{Sql, Row, Database}
use atlas_memory.State.Reading.{Json, StateDict, row_to_state_dict, first_row}
use atlas_memory.State.Query.{
  Matching, cap_of, is_token, joined_with, joined, add_new, add_capped, add_exact, add_like,
  add_matching, search_tokens, search_candidates, get_arbitration_candidates,
}

abbrev pub In : Row → List Row → Type 0
In r [] = ⊥
In r (q ∷ rows) = (q ≡ r) ⊎ In r rows

All-In : (rows : List Row) → All (λ r. In r rows) rows
All-In [] = tt
All-In (r ∷ rows) = (inl refl, weaken rows (All-In rows))
  where
    weaken : (qs : List Row) → All (λ q. In q rows) qs → All (λ q. In q (r ∷ rows)) qs
    weaken [] h = tt
    weaken (q ∷ qs) h = (inr h.0, weaken qs h.1)

All-take {ℓ} : (P : Row → Type ℓ) (n : ℕ) (rows : List Row) → All P rows → All P (take n rows)
All-take P zero rows h = tt
All-take P (suc n) [] h = tt
All-take P (suc n) (r ∷ rows) h = (h.0, All-take P n rows h.1)

length-take : (n : ℕ) (rows : List Row) → length (take n rows) ≤ n
length-take zero rows = omega arith
length-take (suc n) [] = omega arith
length-take (suc n) (r ∷ rows) = omega (arith, length-take n rows)

All-joined_with {ℓ} :
    (P : Row → Type ℓ) (p : Str × Str → Bool) (r : Row) (fts : Dict Str) (rest : List Row)
    → P r
    → All P rest
    → All P (joined_with p r fts rest)
unfolding joined_with
All-joined_with P p r [] rest h k = k
All-joined_with P p r (e ∷ fts) rest h k = ground (arith, h, All-joined_with P p r fts rest h k)

All-joined {ℓ} :
    (P : Row → Type ℓ) (p : Str × Str → Bool) (rows : List Row) (fts : Dict Str)
    → All P rows
    → All P (joined p rows fts)
unfolding joined
All-joined P p [] fts h = tt
All-joined P p (r ∷ rows) fts h =
    All-joined_with P p r fts (joined p rows fts) h.0 (All-joined P p rows fts h.1)

module _ {V : Type 0} (s : Sql) (j : Json V) (rows : List Row) where
  -- A row of the table under its key.
  abbrev pub IsRead : Str × StateDict V → Type 0
  IsRead e = (r : Row) × In r rows × (e ≡ (r.key, row_to_state_dict s j r))

  length-insert :
      (k : Str) (v : StateDict V) (d : Dict (StateDict V)) → length (insert k v d) ≤ length d + 1
  unfolding insert
  length-insert k v [] = omega arith
  length-insert k v ((i, w) ∷ d) = ground (arith, length-insert k v d)

  insert-IsRead :
      (r : Row) (d : Dict (StateDict V))
      → In r rows
      → All IsRead d
      → All IsRead (insert r.key (row_to_state_dict s j r) d)
  unfolding insert
  insert-IsRead r [] m h = ((r, m, refl), tt)
  insert-IsRead r ((i, w) ∷ d) m h = elim (Bool-cases (str_eq i r.key)) [
    | inl same ↦
        rw (same, insert)
          ((r, m, ap (λ z. (z, row_to_state_dict s j r)) ((str_eq_iff i r.key).0 same)), h.1)
    | inr other ↦ rw (other, insert) (h.0, insert-IsRead r d m h.1)
  ]

  -- At most `n` results, each a row of the table.
  abbrev pub IsBounded : ℕ → Dict (StateDict V) → Type 0
  IsBounded n d = (length d ≤ n) × All IsRead d

  add_new-IsBounded :
      (n : ℕ) (qs : List Row) (d : Dict (StateDict V))
      → All (λ q. In q rows) qs
      → IsBounded n d
      → IsBounded (n + length qs) (add_new s j qs d)
  unfolding add_new
  add_new-IsBounded n [] d m h = (omega (arith, h.0), h.1)
  add_new-IsBounded n (q ∷ qs) d m h = elim (Bool-cases (has_key q.key d)) [
    | inl old ↦
        let (few, reads) = add_new-IsBounded n qs d m.1 h in
        rw (old, add_new) (omega (arith, few), reads)
    | inr new ↦
        let added = insert q.key (row_to_state_dict s j q) d in
        let (few, reads) = add_new-IsBounded (n + 1) qs added m.1 (
          omega (arith, h.0, length-insert q.key (row_to_state_dict s j q) d),
          insert-IsRead q d m.0 h.1,
        ) in
        rw (new, add_new) (omega (arith, few), reads)
  ]

  add_capped-IsBounded :
      (n cap : ℕ) (qs : List Row) (d : Dict (StateDict V))
      → cap ≤ n
      → All (λ q. In q rows) qs
      → IsBounded n d
      → IsBounded n (add_capped s j cap qs d)
  unfolding add_capped
  add_capped-IsBounded n cap [] d c m h = h
  add_capped-IsBounded n cap (q ∷ qs) d c m h =
      elim (Bool-cases (not (has_key q.key d) && ltb (length d) cap)) [
        | inl room ↦
            let added = insert q.key (row_to_state_dict s j q) d in
            rw (room, add_capped)
              (add_capped-IsBounded n cap qs added c m.1 (
                ground (arith, room, length-insert q.key (row_to_state_dict s j q) d),
                insert-IsRead q d m.0 h.1,
              ))
        | inr full ↦ rw (full, add_capped) (add_capped-IsBounded n cap qs d c m.1 h)
      ]

In-first_row : (p : Row → Bool) (rows : List Row) (r : Row) → first_row p rows ≡ some r → In r rows
unfolding first_row
In-first_row p [] r h = absurd (ground (arith, h))
In-first_row p (q ∷ rows) r h = elim (Bool-cases (p q)) [
  | inl yes_q ↦ inl (some_inj.0 (rw yes_q at h))
  | inr no_q ↦ inr (In-first_row p rows r (rw no_q at h))
]

if_either {ℓ κ} :
    {A : Type ℓ} (P : A → Type κ) (b : Bool) (a c : A) → P a → P c → P (if b then a else c)
if_either P true a c h k = h
if_either P false a c h k = k

module _ {V : Type 0} (s : Sql) (j : Json V) (x : Matching) (db : Database) where
  add_exact-IsBounded : (k : Str) → IsBounded s j db.rows 1 (add_exact s j db k)
  unfolding add_exact insert
  add_exact-IsBounded k = elim (Option-cases (first_row (λ r. str_eq r.key k) db.rows)) [
    | inl missing ↦ rw (missing, add_exact) (omega arith, tt)
    | inr (r, present) ↦
        rw (present, add_exact)
          (omega arith, ((r, In-first_row (λ q. str_eq q.key k) db.rows r present, refl), tt))
  ]

  add_like-IsBounded :
      (cap n : ℕ) (pattern : Str) (d : Dict (StateDict V))
      → IsBounded s j db.rows n d
      → IsBounded s j db.rows (n + cap) (add_like s j db cap pattern d)
  unfolding add_like
  add_like-IsBounded cap n pattern d h =
      let hits = take cap (keep_if (λ r. s.like pattern r.key) db.rows) in
      let (few, reads) =
        add_new-IsBounded s j db.rows n hits d
          (All-take (λ r. In r db.rows) cap (keep_if (λ r. s.like pattern r.key) db.rows)
            (All-keep_if (λ r. In r db.rows) (λ r. s.like pattern r.key) db.rows (All-In db.rows)))
          h in
      (omega (arith, few, length-take cap (keep_if (λ r. s.like pattern r.key) db.rows)), reads)

  add_matching-IsBounded :
      (cap n : ℕ) (tokens : List Str) (d : Dict (StateDict V))
      → cap ≤ n
      → IsBounded s j db.rows n d
      → IsBounded s j db.rows n (add_matching s j x db cap tokens d)
  unfolding add_matching
  add_matching-IsBounded cap n [] d c h = h
  add_matching-IsBounded cap n (t ∷ tokens) d c h = elim (Bool-cases (ltb (length d) cap)) [
    | inr full ↦ rw (full, add_matching) h
    | inl room ↦
        rw (room, add_matching)
          (elim (Option-cases (x.matches (t ∷ tokens))) [
            | inl fails ↦ rw fails h
            | inr (p, runs) ↦ rw runs (
                add_capped-IsBounded s j db.rows n cap (take cap (joined p db.rows db.fts)) d c
                  (All-take (λ r. In r db.rows) cap (joined p db.rows db.fts)
                    (All-joined (λ r. In r db.rows) p db.rows db.fts (All-In db.rows)))
                  h)
          ])
  ]

  -- Both searches return at most one result more than their cap, the limit brought between 1 and
  -- 500, or 200; and each result is a row of the table, read, under its key.
  pub candidates_within :
      (limit : ℕ)
      → ((query : Str) (words stems : List Str)
          → IsBounded s j db.rows
              (1 + max 1 (min limit 500))
              (search_candidates s j x db query limit words stems))
        × ((key text : Str)
            → IsBounded s j db.rows
                (1 + max 1 (min limit 200))
                (get_arbitration_candidates s j x db key text limit))
  unfolding search_candidates get_arbitration_candidates
  candidates_within limit = (
    λ query words stems.
        let q_clean = strip_space query in
        let exact =
          if_either (IsBounded s j db.rows 1) (is_empty q_clean) [] (add_exact s j db q_clean)
            (omega arith, tt) (add_exact-IsBounded q_clean) in
        let cap = cap_of 500 limit in
        if_either (IsBounded s j db.rows (1 + cap))
          (is_empty query && leb (length words) 0 && leb (length stems) 0) [] _ (omega arith, tt)
          (add_matching-IsBounded cap (1 + cap) (take 8 (search_tokens x q_clean words stems)) _
            (omega arith)
            (if_either (IsBounded s j db.rows (1 + cap))
              (leb 3 (length q_clean) && any_of (λ c. c == 58) q_clean) _ _
              (add_like-IsBounded cap 1 (q_clean ++ codes "%") _ exact)
              (omega (arith, exact.0), exact.1))),
    λ key text.
        let cap = cap_of 200 limit in
        let exact = add_exact-IsBounded key in
        add_matching-IsBounded cap (1 + cap)
          (take 6 (keep_if (is_token 4) (x.words_of (key ++ codes " " ++ text)))) _ (omega arith)
          (if_either (IsBounded s j db.rows (1 + cap)) (leb 2 (length (before 58 key))) _ _
            (add_like-IsBounded cap 1 (before 58 key ++ codes ":%") _ exact)
            (omega (arith, exact.0), exact.1)),
  )
