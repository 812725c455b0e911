-- ===== src/HotBuffer/Active.antt =====
-- What `get_active` returns: on a valid buffer, exactly the entries that pass its tests.
use mathlib.Core.List.{reverse-cons, reverse-reverse}
use atlas_memory.Prelude.{
  ℕ, zero, suc, ◌+◌, ◌-◌, ◌≤◌, ◌<◌, drop, ap₂, true, false, List, [], ◌∷◌, ◌++◌, reverse, Option,
  ◌≡◌, refl, sym, ap, subst, ◌∙◌, arith, length, keep_if, keep_if-append, length-append,
}
use atlas_memory.Prelude.Text.{Str, str_eq_iff}
use atlas_memory.Prelude.Dict.{listed, listed-append, Distinct}
use atlas_memory.HotBuffer.Session.{Unicode}
use atlas_memory.HotBuffer.Policy.{
  Entry, Policy, bounded, other_key, append, mark_superseded, purge, is_active, first_of_key,
  get_active, remember,
}
use atlas_memory.HotBuffer.Invariant.{
  IsValid, keys_of, Distinct-snoc, Distinct-keep_if, append_lem, append-IsValid, purge_lem,
  listed-other_key,
}

keys_of-append : (xs ys : List Entry) → keys_of (xs ++ ys) ≡ keys_of xs ++ keys_of ys
keys_of-append [] ys = refl
keys_of-append (x ∷ xs) ys = ap (◌∷◌ x.key) (keys_of-append xs ys)

listed-reverse :
    (k : Str) (es : List Entry) → listed k (keys_of (reverse es)) ≡ listed k (keys_of es)
listed-reverse k [] = refl
listed-reverse k (e ∷ es) = ground (
  arith,
  ap (λ xs. listed k (keys_of xs)) (reverse-cons e es),
  ap (listed k) (keys_of-append (reverse es) (e ∷ [])),
  listed-append k (keys_of (reverse es)) (e.key ∷ []),
  listed-reverse k es,
)

Distinct-reverse : (es : List Entry) → Distinct (keys_of es) → Distinct (keys_of (reverse es))
Distinct-reverse [] d = tt
Distinct-reverse (e ∷ es) d =
    subst Distinct (sym (ap keys_of (reverse-cons e es) ∙ keys_of-append (reverse es) (e ∷ []))) (
      Distinct-snoc e.key (keys_of (reverse es)) (listed-reverse e.key es ∙ d.0)
        (Distinct-reverse es d.1))

-- None of the keys was seen.
abbrev AreNew : List Str → List Entry → Type 0
AreNew seen [] = Unit
AreNew seen (e ∷ es) = (listed e.key seen ≡ false) × AreNew seen es

AreNew-cons :
    (k : Str) (seen : List Str) (es : List Entry)
    → listed k (keys_of es) ≡ false
    → AreNew seen es
    → AreNew (k ∷ seen) es
AreNew-cons k seen [] h n = tt
AreNew-cons k seen (e ∷ es) h n =
    ground (arith, str_eq_iff k e.key, str_eq_iff e.key k, AreNew-cons k seen es)

first_of_key-Distinct :
    (seen : List Str) (es : List Entry)
    → Distinct (keys_of es)
    → AreNew seen es
    → first_of_key seen es ≡ es
unfolding first_of_key
first_of_key-Distinct seen [] d n = refl
first_of_key-Distinct seen (e ∷ es) d n =
    ground (arith, first_of_key-Distinct (e.key ∷ seen) es d.1 (AreNew-cons e.key seen es d.0 n.1))

AreNew-nil : (es : List Entry) → AreNew [] es
AreNew-nil [] = tt
AreNew-nil (e ∷ es) = (refl, AreNew-nil es)

-- On a valid buffer `get_active` returns the entries that pass its tests, all of them and in their
-- order; the scan for repeated keys drops nothing.
pub get_active_lem :
    (u : Unicode) (session : Option Str) (now : ℕ) {p : Policy}
    → IsValid p
    → get_active u session now p ≡ keep_if (is_active u session now p.ttl_seconds) p.buffer
unfolding get_active
get_active_lem u session now {p} v =
    let kept = keep_if (is_active u session now p.ttl_seconds) p.buffer in
    let d = Distinct-reverse kept (Distinct-keep_if _ p.buffer v.distinct) in
    ap reverse (first_of_key-Distinct [] (reverse kept) d (AreNew-nil (reverse kept)))
    ∙ reverse-reverse kept

drop-snoc {ℓ} :
    {A : Type ℓ} (n : ℕ) (xs : List A) (x : A)
    → n ≤ length xs
    → drop n (xs ++ (x ∷ [])) ≡ drop n xs ++ (x ∷ [])
drop-snoc zero xs x h = refl
drop-snoc (suc n) [] x h = absurd (omega arith)
drop-snoc (suc n) (y ∷ xs) x h = drop-snoc n xs x (omega arith)

bounded-snoc :
    (n : ℕ) (xs : List Entry) (x : Entry)
    → 0 < n
    → bounded n (xs ++ (x ∷ [])) ≡ drop (length xs + 1 - n) xs ++ (x ∷ [])
unfolding bounded
bounded-snoc n xs x h =
    ap (λ k. drop (k - n) (xs ++ (x ∷ []))) (length-append xs (x ∷ []))
    ∙ drop-snoc (length xs + 1 - n) xs x (omega arith)

-- An entry that passes the tests at a moment is, right after it was appended to a valid buffer
-- with room for one entry, the last of what `get_active` returns at that moment.
append-then-active :
    (u : Unicode) (session : Option Str) (now : ℕ) (e : Entry) {p : Policy}
    → IsValid p
    → 0 < p.maxlen
    → is_active u session now p.ttl_seconds e ≡ true
    → (older : List Entry) × (get_active u session now (append e p) ≡ older ++ (e ∷ []))
append-then-active u session now e {p} v room active =
    let q = is_active u session now p.ttl_seconds in
    let rest = keep_if (other_key e.key) p.buffer in
    let parts = append_lem e p v.within in
    let older = drop (length rest + 1 - p.maxlen) rest in
    (
      keep_if q older,
      get_active_lem u session now (append-IsValid e v)
          ∙ ap₂ (λ ttl xs. keep_if (is_active u session now ttl) xs) parts.2
              (parts.0 ∙ bounded-snoc p.maxlen rest e room)
          ∙ keep_if-append q older (e ∷ [])
          ∙ ap (λ xs. keep_if q older ++ xs) (ground (arith, active)),
    )

listed-remember : (k : Str) (ks : List Str) → listed k (remember k ks) ≡ true
unfolding remember
listed-remember k ks = ground (arith, listed-append k ks (k ∷ []), str_eq_iff k k)

-- After `mark_superseded` the key is in the history, no entry of the key is left, so none is
-- returned for any session at any time, and every other entry stays in its place.
mark_superseded_lem :
    (k : Str) {p : Policy}
    → IsValid p
    → let q = (mark_superseded k p).0 in
      (listed k q.superseded_history ≡ true)
      × (listed k (keys_of q.buffer) ≡ false)
      × (q.buffer ≡ keep_if (other_key k) p.buffer)
unfolding mark_superseded purge
mark_superseded_lem k {p} v =
    let noted : Policy = record p { superseded_history = remember k p.superseded_history } in
    let same = purge_lem k noted v.within in
    (
      listed-remember k p.superseded_history,
      subst (λ xs. listed k (keys_of xs) ≡ false) (sym same) (listed-other_key k p.buffer),
      same,
    )
