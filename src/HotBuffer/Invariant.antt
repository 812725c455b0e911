-- ===== src/HotBuffer/Invariant.antt =====
-- The invariant of the buffer, and that every method keeps it.
use mathlib.Core.List.{map-append}
use atlas_memory.Prelude.{
  ℕ, zero, suc, ◌-◌, ◌≤◌, Bool, true, false, List, [], ◌∷◌, ◌++◌, map, ◌≡◌, refl, sym, ap, ap₂,
  subst, ◌∙◌, arith, length, drop, keep_if, length-drop, length-keep_if-le, Bool-cases, inl, inr,
}
use atlas_memory.Prelude.Text.{is_empty, Str, str_eq_iff}
use atlas_memory.Prelude.Dict.{listed, listed-append, Distinct}
use atlas_memory.HotBuffer.Session.{Metadata}
use atlas_memory.HotBuffer.Policy.{
  Entry, Policy, init, bounded, other_key, purge, append, update, mark_superseded,
  reconcile_superseded, seed_from_kv, clear, remember, note_superseded, seed_row,
}

abbrev pub keys_of : List Entry → List Str
keys_of = map (λ e. e.key)

-- No key stands twice, and the buffer is within its capacity.
pub record IsValid (p : Policy) : Type 0 where
  pub distinct : Distinct (keys_of p.buffer)
  pub within : length p.buffer ≤ p.maxlen

pub length-bounded {ℓ} : {A : Type ℓ} (n : ℕ) (xs : List A) → length (bounded n xs) ≤ n
unfolding bounded
length-bounded n xs = omega (arith, length-drop (length xs - n) xs)

pub bounded_short {ℓ} : {A : Type ℓ} (n : ℕ) (xs : List A) → length xs ≤ n → bounded n xs ≡ xs
unfolding bounded
bounded_short n xs h = let e : length xs - n ≡ 0 = omega arith in ap (λ k. drop k xs) e

listed-keep_if :
    (q : Entry → Bool) (k : Str) (es : List Entry)
    → listed k (keys_of es) ≡ false
    → listed k (keys_of (keep_if q es)) ≡ false
listed-keep_if q k [] h = refl
listed-keep_if q k (e ∷ es) h = ground (arith, listed-keep_if q k es)

pub Distinct-keep_if :
    (q : Entry → Bool) (es : List Entry) → Distinct (keys_of es) → Distinct (keys_of (keep_if q es))
Distinct-keep_if q [] d = tt
Distinct-keep_if q (e ∷ es) d = ground (arith, listed-keep_if q e.key es, Distinct-keep_if q es d.1)

Distinct-drop : (n : ℕ) (es : List Entry) → Distinct (keys_of es) → Distinct (keys_of (drop n es))
Distinct-drop zero es d = d
Distinct-drop (suc n) [] d = tt
Distinct-drop (suc n) (e ∷ es) d = Distinct-drop n es d.1

Distinct-bounded :
    (n : ℕ) (es : List Entry) → Distinct (keys_of es) → Distinct (keys_of (bounded n es))
unfolding bounded
Distinct-bounded n es d = Distinct-drop (length es - n) es d

pub listed-other_key :
    (k : Str) (es : List Entry) → listed k (keys_of (keep_if (other_key k) es)) ≡ false
listed-other_key k [] = refl
listed-other_key k (e ∷ es) = ground (arith, listed-other_key k es)

pub Distinct-snoc :
    (k : Str) (ks : List Str) → listed k ks ≡ false → Distinct ks → Distinct (ks ++ (k ∷ []))
Distinct-snoc k [] h d = (refl, tt)
Distinct-snoc k (j ∷ ks) h d =
    ground (arith, str_eq_iff j k, str_eq_iff k j, listed-append j ks (k ∷ []), Distinct-snoc k ks)

Distinct-add :
    (e : Entry) (es : List Entry)
    → listed e.key (keys_of es) ≡ false
    → Distinct (keys_of es)
    → Distinct (keys_of (es ++ (e ∷ [])))
Distinct-add e es h d =
    subst Distinct (sym (map-append (λ e. e.key) es (e ∷ [])))
      (Distinct-snoc e.key (keys_of es) h d)

-- On a valid buffer `purge` takes off exactly the entry of the key, if there is one.
pub purge_lem :
    (k : Str) (p : Policy)
    → length p.buffer ≤ p.maxlen
    → (purge k p).0.buffer ≡ keep_if (other_key k) p.buffer
unfolding purge
purge_lem k p h =
    bounded_short p.maxlen (keep_if (other_key k) p.buffer)
      (omega (arith, length-keep_if-le (other_key k) p.buffer))

pub purge-IsValid : (k : Str) {p : Policy} → IsValid p → IsValid (purge k p).0
unfolding purge
purge-IsValid k {p} v = record {
  distinct =
      Distinct-bounded p.maxlen (keep_if (other_key k) p.buffer)
        (Distinct-keep_if (other_key k) p.buffer v.distinct);
  within = length-bounded p.maxlen (keep_if (other_key k) p.buffer);
}

note_superseded_lem :
    (b : Bool) (k : Str) (p : Policy)
    → ((note_superseded b k p).buffer ≡ p.buffer)
      × ((note_superseded b k p).maxlen ≡ p.maxlen)
      × ((note_superseded b k p).ttl_seconds ≡ p.ttl_seconds)
unfolding note_superseded
note_superseded_lem true k p = (refl, refl, refl)
note_superseded_lem false k p = (refl, refl, refl)

-- `append` drops the old entry of the key, puts the new one last, and lets the oldest entries go
-- that are above the capacity.
pub append_lem :
    (e : Entry) (p : Policy)
    → length p.buffer ≤ p.maxlen
    → ((append e p).buffer ≡ bounded p.maxlen (keep_if (other_key e.key) p.buffer ++ (e ∷ [])))
      × ((append e p).maxlen ≡ p.maxlen)
      × ((append e p).ttl_seconds ≡ p.ttl_seconds)
unfolding append purge
append_lem e p h =
    let same =
      bounded_short p.maxlen (keep_if (other_key e.key) p.buffer)
        (omega (arith, length-keep_if-le (other_key e.key) p.buffer)) in
    let (notes, lens, times) = note_superseded_lem e.is_superseded e.key p in
    (
      ap₂ (λ n xs. bounded n (bounded n (keep_if (other_key e.key) xs) ++ (e ∷ []))) lens notes
          ∙ ap (λ xs. bounded p.maxlen (xs ++ (e ∷ []))) same,
      lens,
      times,
    )

pub append-IsValid : (e : Entry) {p : Policy} → IsValid p → IsValid (append e p)
append-IsValid e {p} v =
    let parts = append_lem e p v.within in
    let rest = keep_if (other_key e.key) p.buffer in
    record {
      distinct = rw parts.0 (
          Distinct-bounded p.maxlen (rest ++ (e ∷ [])) (
            Distinct-add e rest (listed-other_key e.key p.buffer)
              (Distinct-keep_if (other_key e.key) p.buffer v.distinct)));
      within = rw (parts.0, parts.1) (length-bounded p.maxlen (rest ++ (e ∷ [])));
    }

pub mark-IsValid : (k : Str) {p : Policy} → IsValid p → IsValid (mark_superseded k p).0
unfolding mark_superseded
mark-IsValid k {p} v =
    purge-IsValid k {p = record p { superseded_history = remember k p.superseded_history }}
      (record { distinct = v.distinct; within = v.within })

reconcile-IsValid : (ks : List Str) {p : Policy} → IsValid p → IsValid (reconcile_superseded ks p).0
unfolding reconcile_superseded
reconcile-IsValid [] v = v
reconcile-IsValid (k ∷ ks) {p} v = elim (Bool-cases (is_empty k)) [
  | inl blank ↦ rw (blank, reconcile_superseded) (reconcile-IsValid ks v)
  | inr named ↦ rw (named, reconcile_superseded) (reconcile-IsValid ks (mark-IsValid k v))
]

seed_row-IsValid : (b : Bool) (e : Entry) {p : Policy} → IsValid p → IsValid (seed_row b e p)
unfolding seed_row
seed_row-IsValid true e v = v
seed_row-IsValid false e v = append-IsValid (record e { is_superseded = false }) v

seed-IsValid : (es : List Entry) {p : Policy} → IsValid p → IsValid (seed_from_kv es p).0
unfolding seed_from_kv
seed-IsValid [] v = v
seed-IsValid (e ∷ es) v = seed-IsValid es (seed_row-IsValid e.metadata.is_superseded e v)

-- The calls that change a buffer.
pub data Call : Type 0 where
  appends : Entry → Call
  updates : Str → Str → ℕ → Metadata → Str → ℕ → Call
  purges marks : Str → Call
  reconciles : List Str → Call
  seeds : List Entry → Call
  clears : Call

unfoldable pub step : Call → Policy → Policy
step (appends e) p = append e p
step (updates k v c m source now) p = (update k v c m source now p).0
step (purges k) p = (purge k p).0
step (marks k) p = (mark_superseded k p).0
step (reconciles ks) p = (reconcile_superseded ks p).0
step (seeds es) p = (seed_from_kv es p).0
step clears p = clear p

unfoldable pub run : List Call → Policy → Policy
run [] p = p
run (c ∷ cs) p = run cs (step c p)

pub step-IsValid : (c : Call) {p : Policy} → IsValid p → IsValid (step c p)
unfolding step update clear
step-IsValid (appends e) v = append-IsValid e v
step-IsValid (updates k x c m source now) v = append-IsValid _ v
step-IsValid (purges k) v = purge-IsValid k v
step-IsValid (marks k) v = mark-IsValid k v
step-IsValid (reconciles ks) v = reconcile-IsValid ks v
step-IsValid (seeds es) v = seed-IsValid es v
step-IsValid clears v = record { distinct = tt; within = omega arith }

run-IsValid : (cs : List Call) {p : Policy} → IsValid p → IsValid (run cs p)
unfolding run
run-IsValid [] v = v
run-IsValid (c ∷ cs) v = run-IsValid cs (step-IsValid c v)

-- After any history of calls on a new buffer no key is held twice, and the buffer holds no more
-- entries than its capacity.
pub run-init-IsValid : (maxlen ttl : ℕ) (cs : List Call) → IsValid (run cs (init maxlen ttl))
unfolding init
run-init-IsValid maxlen ttl cs = run-IsValid cs (record { distinct = tt; within = omega arith })
