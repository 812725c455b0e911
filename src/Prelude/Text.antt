-- ===== src/Prelude/Text.antt =====
-- Python's `str` as the list of its code points: equality, the lexicographic order, prefixes.
use Prim.Native.Nat.{ℕ, zero, suc}
use Prim.Native.Char.{code}
use Prim.Native.String.{String}
use mathlib.Core.Path.{◌≡◌, refl}
use mathlib.Core.Logic.{◌↔◌, ◌≢◌}
use mathlib.Core.Bool.{Bool, true, false, ◌&&◌, ◌||◌}
use mathlib.Core.Option.{Option, none, some}
use atlas_memory.Prelude.Lists.{length}
use mathlib.Core.List.{List, [], ◌∷◌, ◌++◌, reverse}
use native.Mathlib.Omega.{arith}
use atlas_memory.Prelude.Tests.{◌==◌, ltb, leb, if◌then◌else◌}

abbrev pub Str : Type 0
Str = List ℕ

abbrev pub codes : String → Str
codes String.[] = []
codes (String.◌∷◌ c s) = code c ∷ codes s

-- `a == b` on texts.
unfoldable pub str_eq : Str → Str → Bool
str_eq [] [] = true
str_eq [] (b ∷ t) = false
str_eq (a ∷ s) [] = false
str_eq (a ∷ s) (b ∷ t) = (a == b) && str_eq s t

-- `a <= b` on texts, by code points.
unfoldable pub str_leb : Str → Str → Bool
str_leb [] t = true
str_leb (a ∷ s) [] = false
str_leb (a ∷ s) (b ∷ t) = if ltb a b then true else (a == b) && str_leb s t

abbrev pub is_empty : Str → Bool
is_empty [] = true
is_empty (c ∷ s) = false

-- `s.startswith(p)`.
unfoldable pub starts_with : Str → Str → Bool
starts_with s [] = true
starts_with [] (b ∷ p) = false
starts_with (a ∷ s) (b ∷ p) = (a == b) && starts_with s p

eq_of_str_eq : (s t : Str) → str_eq s t ≡ true → s ≡ t
unfolding str_eq
eq_of_str_eq [] [] h = refl
eq_of_str_eq [] (b ∷ t) h = cc
eq_of_str_eq (a ∷ s) [] h = cc
eq_of_str_eq (a ∷ s) (b ∷ t) h = ground (arith, eq_of_str_eq s t)

pub str_eq_refl : (s : Str) → str_eq s s ≡ true
unfolding str_eq
str_eq_refl [] = refl
str_eq_refl (a ∷ s) = ground (arith, str_eq_refl s)

pub str_eq_iff : (s t : Str) → (str_eq s t ≡ true) ↔ (s ≡ t)
str_eq_iff s t = (eq_of_str_eq s t, λ e. rw (← e) (str_eq_refl s))

pub str_eq_ne : (s t : Str) → s ≢ t → str_eq s t ≡ false
str_eq_ne s t h = ground (arith, str_eq_iff s t)

pub str_leb_refl : (s : Str) → str_leb s s ≡ true
unfolding str_leb
str_leb_refl [] = refl
str_leb_refl (a ∷ s) = ground (arith, str_leb_refl s)

pub str_leb_total : (s t : Str) → str_leb s t ≡ false → str_leb t s ≡ true
unfolding str_leb
str_leb_total [] t h = cc
str_leb_total (a ∷ s) [] h = refl
str_leb_total (a ∷ s) (b ∷ t) h = ground (arith, str_leb_total s t)

pub str_leb_antisym : (s t : Str) → str_leb s t ≡ true → str_leb t s ≡ true → s ≡ t
unfolding str_leb
str_leb_antisym [] [] h k = refl
str_leb_antisym [] (b ∷ t) h k = cc
str_leb_antisym (a ∷ s) [] h k = cc
str_leb_antisym (a ∷ s) (b ∷ t) h k = ground (arith, str_leb_antisym s t)

pub str_leb_trans : (s t u : Str) → str_leb s t ≡ true → str_leb t u ≡ true → str_leb s u ≡ true
unfolding str_leb
str_leb_trans [] t u h k = refl
str_leb_trans (a ∷ s) [] u h k = cc
str_leb_trans (a ∷ s) (b ∷ t) [] h k = cc
str_leb_trans (a ∷ s) (b ∷ t) (c ∷ u) h k = ground (arith, str_leb_trans s t u)

-- The characters that `str.strip()` takes off.
unfoldable pub is_space : ℕ → Bool
is_space c =
    (leb 9 c && leb c 13)
    || ((leb 28 c && leb c 32)
        || ((c == 0x85)
            || ((c == 0xa0)
                || ((c == 0x1680)
                    || ((leb 0x2000 c && leb c 0x200a)
                        || ((c == 0x2028)
                            || ((c == 0x2029)
                                || ((c == 0x202f) || ((c == 0x205f) || (c == 0x3000))))))))))

unfoldable pub lstrip_if : (ℕ → Bool) → Str → Str
lstrip_if p [] = []
lstrip_if p (c ∷ s) = let rest = lstrip_if p s in if p c then rest else c ∷ s

-- `s.strip(…)` of the characters that pass a test, at both ends.
unfoldable pub strip_if : (ℕ → Bool) → Str → Str
unfolding lstrip_if
strip_if p s = reverse (lstrip_if p (reverse (lstrip_if p s)))

unfoldable pub strip_space : Str → Str
unfolding strip_if is_space
strip_space = strip_if is_space

-- `p in s`.
unfoldable pub occurs_in : Str → Str → Bool
unfolding starts_with
occurs_in p [] = starts_with [] p
occurs_in p (c ∷ s) = starts_with (c ∷ s) p || occurs_in p s

unfoldable pub skip_matches : Str → ℕ → ℕ → Str → Str
skip_matches p len zero [] = []
skip_matches p len (suc n) [] = []
skip_matches p len (suc n) (c ∷ s) = skip_matches p len n s
skip_matches p len zero (c ∷ s) =
    let kept = c ∷ skip_matches p len zero s in
    let cut = skip_matches p len len s in if starts_with (c ∷ s) p then cut else kept

-- `s.replace(c ∷ p, "")`: matches from the left that do not overlap. `len` is what is left of a
-- match behind its first character.
unfoldable pub remove_all : Str → Str → Str
unfolding skip_matches starts_with
remove_all [] s = s
remove_all (c ∷ p) s = skip_matches (c ∷ p) (length p) zero s

-- The text in front of the first separator.
unfoldable pub before : ℕ → Str → Str
before sep [] = []
before sep (c ∷ s) = if c == sep then [] else c ∷ before sep s

-- The text behind the first separator, if there is one.
unfoldable pub behind : ℕ → Str → Option Str
behind sep [] = none
behind sep (c ∷ s) = if c == sep then some s else behind sep s

-- `s.split(sep)` for a separator of one character.
unfoldable pub split : ℕ → Str → List Str
split sep [] = [] ∷ []
split sep (c ∷ s) =
    let rest = split sep s in
    if c == sep then [] ∷ rest else elim rest [ [] ↦ (c ∷ []) ∷ [] | p ∷ ps ↦ (c ∷ p) ∷ ps ]

-- `sep.join(parts)` for a separator of one character.
unfoldable pub join : ℕ → List Str → Str
join sep [] = []
join sep (p ∷ []) = p
join sep (p ∷ q ∷ ps) = p ++ (sep ∷ join sep (q ∷ ps))

-- `s.endswith(t)`.
unfoldable pub ends_with : Str → Str → Bool
unfolding starts_with
ends_with s t = starts_with (reverse s) (reverse t)
