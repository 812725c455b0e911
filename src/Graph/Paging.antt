-- ===== src/Graph/Paging.antt =====
-- `_hydrate_paged`: a scan by pages whose limit is halved when the engine fails.
use atlas_memory.Prelude.{
  ℕ, zero, suc, ◌+◌, ◌/◌, max, true, false, List, [], ◌++◌, Option, none, some, leb, ltb, length,
}

-- `conn.execute` of the statement with SKIP and LIMIT, drained: `none` where it raises. What it
-- answers may depend on a state of the engine, which each call changes.
pub record Engine (W R : Type 0) : Type 0 where
  pub execute : ℕ → ℕ → W → Option (List R) × W

-- The outcome of a scan: the exception of the last page, or the rows.
pub data Outcome (R : Type 0) : Type 0 where
  unfinished : Outcome R
  failed : Outcome R
  loaded : List R → Outcome R

abbrev pub then_rows : {R : Type 0} → List R → Outcome R → Outcome R
then_rows got unfinished = unfinished
then_rows got failed = failed
then_rows got (loaded rows) = loaded (got ++ rows)

module _ {W R : Type 0} (c : Engine W R) where
  -- `while True`, on fuel for the attempts: the rows from an offset on.
  unfoldable pub scan_pages : ℕ → ℕ → ℕ → W → Outcome R
  scan_pages zero offset limit w = unfinished
  scan_pages (suc fuel) offset limit w =
      let (answer, after) = c.execute offset limit w in
      elim answer [
        | none ↦ elim (leb limit 64) [
          | true ↦ failed
          | false ↦ scan_pages fuel offset (max 64 (limit / 2)) after
        ]
        | some got ↦ then_rows got (elim (ltb (length got) limit) [
          | true ↦ loaded []
          | false ↦ scan_pages fuel (offset + length got) limit after
        ])
      ]

  unfoldable pub hydrate_paged : ℕ → ℕ → W → Outcome R
  unfolding scan_pages
  hydrate_paged fuel page w = scan_pages fuel 0 (max 64 page) w
