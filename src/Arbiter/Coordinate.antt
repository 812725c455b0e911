-- ===== src/Arbiter/Coordinate.antt =====
-- `EpistemicCoordinate`: the namespace, entity and slot of a key, and the root of its entity.
use atlas_memory.Prelude.{
  Bool, true, false, not, ◌&&◌, ◌||◌, List, [], ◌∷◌, ◌++◌, leb, ◌==◌, if◌then◌else◌, length, any_of,
  take,
}
use atlas_memory.Prelude.Dict.{listed}
use atlas_memory.Prelude.Text.{Str, codes, str_eq, is_empty, strip_space, split, join}
use atlas_memory.Arbiter.Lexicon.{functional_slots, known_namespaces}

pub record Coordinate : Type 0 where
  pub namespace : Str
  pub entity_id : Str
  pub slot : Str
  pub is_functional : Bool
  pub raw_key : Str

-- `:` is the code point 58.
abbrev pub has_colon : Str → Bool
has_colon = any_of (λ c. c == 58)

-- `parts[0]`
abbrev pub first_part : List Str → Str
first_part [] = []
first_part (p ∷ ps) = p

unfoldable pub root_of_parts : List Str → Str
unfolding join
root_of_parts parts =
    let head = first_part parts in
    if str_eq head (codes "hermes") && leb 3 (length parts)
    then join 58 (take 3 parts)
    else if (listed head known_namespaces || leb 3 (length parts)) && leb 2 (length parts)
    then join 58 (take 2 parts)
    else head

-- The property `entity_root`.
unfoldable pub root_of : Coordinate → Str
unfolding root_of_parts split
root_of c = if not (has_colon c.raw_key) then c.raw_key else root_of_parts (split 58 c.raw_key)

-- `f"{p}:{rest}" if rest else p`
abbrev pub with_rest : Str → List Str → Str
with_rest p [] = p
with_rest p (r ∷ rs) = let rest = join 58 (r ∷ rs) in if is_empty rest then p else p ++ (58 ∷ rest)

-- The keys with a colon, in their parts.
unfoldable pub of_parts : (Str → Str) → Str → List Str → Coordinate
unfolding join
of_parts lower clean [] = record {
  namespace = [];
  entity_id = [];
  slot = [];
  is_functional = false;
  raw_key = clean;
}
of_parts lower clean (p0 ∷ []) = record {
  namespace = lower p0;
  entity_id = [];
  slot = [];
  is_functional = false;
  raw_key = clean;
}
of_parts lower clean (p0 ∷ p1 ∷ []) =
    let functional = listed p1 functional_slots in
    record {
      namespace = lower p0;
      entity_id = if functional then p0 else p1;
      slot = if functional then p1 else codes "value";
      is_functional = functional;
      raw_key = clean;
    }
of_parts lower clean (p0 ∷ p1 ∷ p2 ∷ rest) =
    if str_eq (lower p0) (codes "hermes")
    then record {
      namespace = codes "hermes";
      entity_id = p1;
      slot = join 58 (p2 ∷ rest);
      is_functional = true;
      raw_key = clean;
    }
    else if listed p1 functional_slots && not (listed p2 functional_slots)
    then record {
      namespace = lower p0;
      entity_id = with_rest p2 rest;
      slot = p1;
      is_functional = true;
      raw_key = clean;
    }
    else record {
      namespace = lower p0;
      entity_id = p1;
      slot = with_rest p2 rest;
      is_functional = listed p2 functional_slots || listed (with_rest p2 rest) functional_slots;
      raw_key = clean;
    }

unfoldable pub from_key : (Str → Str) → Str → Coordinate
unfolding of_parts split
from_key lower key =
    let clean = strip_space key in
    if not (has_colon clean)
    then record {
      namespace = codes "fact";
      entity_id = clean;
      slot = codes "value";
      is_functional = listed (lower clean) functional_slots;
      raw_key = clean;
    }
    else of_parts lower clean (split 58 clean)

unfoldable pub entity_root : (Str → Str) → Str → Str
unfolding from_key root_of
entity_root lower key = root_of (from_key lower key)
