-- ===== src/Arbiter/Profile.antt =====
-- What an arbitration reads: the lexical profiles of the two writes and the measures of their
-- overlap (`_incoming_profile`, `_existing_profile` and the guards of `_scan_cross_key`).
use atlas_memory.Prelude.{
  ℕ, ◌-◌, ◌*◌, max, min, Bool, true, false, not, ◌&&◌, ◌||◌, List, [], ◌∷◌, ◌++◌, map, leb, length,
  any_of, keep_if, take,
}
use atlas_memory.Prelude.Dict.{listed}
use atlas_memory.Prelude.Text.{Str, codes, str_eq, starts_with, ends_with, split}
use atlas_memory.Arbiter.Lexicon.{
  Language, without, common, union, distinct, some_word, control_words, exclusivity_words,
  prohibition_words, affirmative_words, generic_words, environment_tokens, polish_stem,
  extract_stems, extract_governed_action,
}
use atlas_memory.Arbiter.Coordinate.{Coordinate}

-- Sets of words are lists without duplicates.
pub record Profile : Type 0 where
  pub tokens : List Str
  pub topic_tokens : List Str
  pub topic_stems : List Str
  pub specific_tokens : List Str
  pub specific_stems : List Str
  pub has_excl : Bool
  pub has_prohib : Bool
  pub has_aff : Bool
  pub prohibited : List Str
  pub prohib_stems : List Str
  pub excl_targets : List Str
  pub gov_actions : List Str
  pub tools : List Str
  pub env : List Str

-- `:` is the code point 58, a blank 32.
unfoldable pub profile : Language → Str → Str → Profile
unfolding polish_stem split
profile lang key val_str =
    let text = key ++ (32 ∷ val_str) in
    let tokens = lang.extract_tokens text in
    let topic_tokens = without tokens control_words in
    let topic_stems = extract_stems lang.lower topic_tokens in
    let prohibited = lang.extract_prohibited_terms text in
    record {
      tokens = tokens;
      topic_tokens = topic_tokens;
      topic_stems = topic_stems;
      specific_tokens = without (without topic_tokens generic_words) lang.developer_tools;
      specific_stems =
          without topic_stems
            (map (polish_stem lang.lower) (union generic_words lang.developer_tools));
      has_excl = some_word (common tokens exclusivity_words);
      has_prohib = some_word (common tokens prohibition_words);
      has_aff = some_word (common tokens affirmative_words);
      prohibited = prohibited;
      prohib_stems = extract_stems lang.lower prohibited;
      excl_targets = lang.extract_exclusive_target text;
      gov_actions = extract_governed_action lang.lower topic_tokens;
      tools = common tokens lang.developer_tools;
      env =
          union (distinct (common (split 58 key) environment_tokens))
            (common tokens environment_tokens);
    }

abbrev episodic_prefixes : List Str
episodic_prefixes = map codes (
    "mnemosyne:mnemosyne_working_memory:" ∷ "mnemosyne:mnemosyne_episodic_memory:" ∷ "conversation"
    ∷ "fact:conversation" ∷ [])

unfoldable pub skip_episodic : Str → Bool
unfolding starts_with ends_with
skip_episodic ex_k =
    any_of (starts_with ex_k) episodic_prefixes || ends_with ex_k (codes ":episodic_event")

-- Both sets have words, and no common one.
unfoldable pub orthogonal : List Str → List Str → Bool
orthogonal xs ys = some_word xs && some_word ys && not (some_word (common xs ys))

abbrev names_eq : List Str → List Str → Bool
names_eq [] [] = true
names_eq [] (y ∷ ys) = false
names_eq (x ∷ xs) [] = false
names_eq (x ∷ xs) (y ∷ ys) = str_eq x y && names_eq xs ys

-- `[p for p in key.split(":")[:-1] if p not in GENERIC_WORDS]`
unfoldable pub namespace_of : Str → List Str
unfolding split
namespace_of key = let parts = split 58 key in without (take (length parts - 1) parts) generic_words

unfoldable pub same_namespace : Str → Str → Coordinate → Coordinate → Bool
unfolding namespace_of
same_namespace key ex_k coord_in coord_ex =
    str_eq coord_in.namespace coord_ex.namespace && str_eq coord_in.entity_id coord_ex.entity_id
    || some_word (namespace_of key) && names_eq (namespace_of key) (namespace_of ex_k)

-- `overlap_density` is `overlap_count / shorter_len`.
pub record Overlap : Type 0 where
  pub token_overlap : List Str
  pub stem_overlap : List Str
  pub specific_overlap : List Str
  pub specific_stem_overlap : List Str
  pub overlap_count : ℕ
  pub shorter_len : ℕ

unfoldable pub overlap_measures : (Str → Str) → Profile → Profile → Overlap
unfolding polish_stem
overlap_measures lower incoming exp =
    let specific = common incoming.specific_tokens exp.specific_tokens in
    let specific_stem = common incoming.specific_stems exp.specific_stems in
    record {
      token_overlap = without (common incoming.topic_tokens exp.topic_tokens) generic_words;
      stem_overlap =
          without (common incoming.topic_stems exp.topic_stems)
            (map (polish_stem lower) generic_words);
      specific_overlap = specific;
      specific_stem_overlap = specific_stem;
      overlap_count = length (union specific specific_stem);
      shorter_len = max 1 (
          min (length (union incoming.specific_tokens incoming.specific_stems))
            (length (union exp.specific_tokens exp.specific_stems)));
    }

-- A density of a quarter, without the division.
unfoldable pub has_topic_overlap : Overlap → Bool → Bool
has_topic_overlap ov same_ns =
    let left = same_ns && (some_word ov.token_overlap || some_word ov.stem_overlap) in
    let mid =
      leb 2 (length ov.specific_overlap)
      || leb 2 (length ov.specific_stem_overlap)
      || leb 2 (length ov.token_overlap) && some_word ov.specific_overlap in
    let right = same_ns || leb ov.shorter_len (4 * ov.overlap_count) || leb 4 ov.overlap_count in
    left || mid && right

unfoldable pub action_polarity_fallback : Profile → Profile → Bool
action_polarity_fallback incoming exp =
    some_word (common incoming.gov_actions exp.gov_actions)
    && (incoming.has_excl || exp.has_excl || incoming.has_prohib || exp.has_prohib)

-- The terms of which a set of stems has the stem.
unfoldable pub with_stem_in : (Str → Str) → List Str → List Str → List Str
unfolding polish_stem
with_stem_in lower stems = keep_if (λ t. listed (polish_stem lower t) stems)

unfoldable pub shared_prohib_of : (Str → Str) → Profile → Profile → List Str
unfolding with_stem_in
shared_prohib_of lower incoming exp =
    union (common incoming.prohibited exp.prohibited)
      (with_stem_in lower exp.prohib_stems incoming.prohibited)

unfoldable pub consensus_agreement : Profile → Profile → List Str → Bool
consensus_agreement incoming exp shared_prohib =
    incoming.has_prohib && exp.has_prohib && some_word shared_prohib
