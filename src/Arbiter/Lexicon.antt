-- ===== src/Arbiter/Lexicon.antt =====
-- The word lists of cognitive/lexicon.py and its stemmer. The tokenizers, which are regular
-- expressions over stop words from a file, and the registry of developer tools are parameters.
use Prim.Native.String.{String}
use atlas_memory.Prelude.{
  ◌+◌, ◌-◌, Bool, not, ◌&&◌, ◌||◌, List, [], ◌∷◌, ◌++◌, map, leb, if◌then◌else◌, length, keep_if,
  any_of, take,
}
use atlas_memory.Prelude.Dict.{listed}
use atlas_memory.Prelude.Text.{Str, codes, starts_with, ends_with}

abbrev map_codes : List String → List Str
map_codes = map codes

abbrev pub exclusivity_words : List Str
exclusivity_words =
    map_codes ("wyłącznie" ∷ "tylko" ∷ "jedynie" ∷ "sole" ∷ "solely" ∷ "exclusively" ∷ "only" ∷ [])

abbrev pub prohibition_words : List Str
prohibition_words = map_codes (
    "nie" ∷ "not" ∷ "brak" ∷ "never" ∷ "nigdy" ∷ "zabronione" ∷ "zabronił" ∷ "zabrania" ∷ "zakaz"
    ∷ "zakazane" ∷ "odrzucona" ∷ "bypasses" ∷ "usunięty" ∷ "forbid" ∷ "forbidden" ∷ "prohibited"
    ∷ "disallow" ∷ "disallowed" ∷ "bez" ∷ "zabraniać" ∷ "zabroniony" ∷ [])

abbrev pub affirmative_words : List Str
affirmative_words = map_codes (
    "uses" ∷ "używa" ∷ "używać" ∷ "używamy" ∷ "is" ∷ "jest" ∷ "requires" ∷ "enabled" ∷ "active"
    ∷ "zawsze" ∷ "always" ∷ "allow" ∷ "allowed" ∷ "wykonujemy" ∷ "zezwala" ∷ "pozwala" ∷ "zezwól"
    ∷ "stosujemy" ∷ "stosuje" ∷ "stosować" ∷ "dozwolone" ∷ "dozwolony" ∷ "dozwolona" ∷ "wykonaj"
    ∷ [])

abbrev pub generic_words : List Str
generic_words = map_codes (
    "narzędzia" ∷ "narzędzie" ∷ "narzędzi" ∷ "tool" ∷ "tools" ∷ "funkcja" ∷ "funkcji" ∷ "metoda"
    ∷ "metody" ∷ "sposób" ∷ "sposobu" ∷ "kod" ∷ "kodu" ∷ "rzecz" ∷ "rzeczy" ∷ "rule" ∷ "state"
    ∷ "fact" ∷ "config" ∷ "system" ∷ "memory" ∷ "atlas" ∷ "test" ∷ "variable" ∷ "item" ∷ "default"
    ∷ "wartość" ∷ "parametr" ∷ "opcja" ∷ "użytkownika" ∷ "action" ∷ "task" ∷ "preference" ∷ "sensor"
    ∷ "architecture" ∷ [])

abbrev pub action_prefixes : List Str
action_prefixes = map_codes (
    "wdraż" ∷ "deploy" ∷ "instal" ∷ "urucham" ∷ "commit" ∷ "push" ∷ "merge" ∷ "budow" ∷ "build"
    ∷ "test" ∷ "zapis" ∷ "sync" ∷ "read" ∷ "writ" ∷ "zarządz" ∷ "edycj" ∷ "logow" ∷ "pobier"
    ∷ "usuw" ∷ "dostęp" ∷ "access" ∷ "stor" ∷ [])

abbrev pub environment_tokens : List Str
environment_tokens =
    map_codes (
      "staging" ∷ "prod" ∷ "production" ∷ "dev" ∷ "development" ∷ "test" ∷ "testing" ∷ "local" ∷ [])

abbrev pub functional_slots : List Str
functional_slots = map_codes (
    "port" ∷ "ip" ∷ "status" ∷ "version" ∷ "email" ∷ "role" ∷ "active" ∷ "engine" ∷ "host" ∷ "state"
    ∷ "mode" ∷ "protocol" ∷ "timeout" ∷ "ttl" ∷ "temperature" ∷ "speed" ∷ "name" ∷ "license"
    ∷ "branch_strategy" ∷ "file_ops" ∷ "auth" ∷ [])

abbrev pub known_namespaces : List Str
known_namespaces = map_codes (
    "fact" ∷ "rule" ∷ "temp" ∷ "user" ∷ "system" ∷ "config" ∷ "session" ∷ "agent" ∷ "state"
    ∷ "service" ∷ "preference" ∷ "constraint" ∷ "metric" ∷ "observation" ∷ "incident" ∷ "probe"
    ∷ "sop" ∷ "atlas" ∷ "action" ∷ "architecture" ∷ [])

-- Sets are lists without duplicates.
abbrev pub without : List Str → List Str → List Str
without xs ys = keep_if (λ x. not (listed x ys)) xs

abbrev pub common : List Str → List Str → List Str
common xs ys = keep_if (λ x. listed x ys) xs

abbrev pub union : List Str → List Str → List Str
union xs ys = xs ++ without ys xs

abbrev pub add_word : Str → List Str → List Str
add_word x xs = if listed x xs then xs else x ∷ xs

abbrev pub distinct : List Str → List Str
distinct [] = []
distinct (x ∷ xs) = add_word x (distinct xs)

abbrev pub some_word : List Str → Bool
some_word xs = leb 1 (length xs)

abbrev pub control_words : List Str
control_words = union exclusivity_words (union prohibition_words affirmative_words)

abbrev pub suffixes : List Str
suffixes = map_codes (
    "owania" ∷ "owanie" ∷ "owaniu" ∷ "owaniach" ∷ "owaniami" ∷ "alności" ∷ "alność" ∷ "alnością"
    ∷ "ościach" ∷ "ościami" ∷ "ościom" ∷ "nością" ∷ "ności" ∷ "ność" ∷ "owemu" ∷ "owych" ∷ "owymi"
    ∷ "owego" ∷ "owej" ∷ "owym" ∷ "iach" ∷ "iami" ∷ "iom" ∷ "ach" ∷ "ami" ∷ "om" ∷ "cja" ∷ "cję"
    ∷ "cji" ∷ "cją" ∷ "cje" ∷ "cjo" ∷ "ego" ∷ "emu" ∷ "ych" ∷ "ymi" ∷ "ym" ∷ "em" ∷ "am" ∷ "om"
    ∷ "ie" ∷ "ej" ∷ "ze" ∷ "a" ∷ "e" ∷ "y" ∷ "i" ∷ "o" ∷ "u" ∷ "ę" ∷ "ą" ∷ [])

unfoldable pub first_cut : Str → List Str → Str
unfolding ends_with
first_cut w [] = w
first_cut w (suf ∷ sufs) =
    let later = first_cut w sufs in
    if ends_with w suf && leb (length suf + 4) (length w)
    then take (length w - length suf) w
    else later

-- `lower` is `str.lower`.
unfoldable pub polish_stem : (Str → Str) → Str → Str
unfolding starts_with first_cut
polish_stem lower word =
    let w = lower word in
    if starts_with w (codes "zewnątrz") || starts_with w (codes "zewnętrz")
    then codes "zewnątrz"
    else if leb (length w) 4
    then w
    else first_cut w suffixes

abbrev pub extract_stems : (Str → Str) → List Str → List Str
extract_stems lower tokens = distinct (map (polish_stem lower) tokens)

abbrev pub extract_governed_action : (Str → Str) → List Str → List Str
extract_governed_action lower tokens =
    keep_if (λ t. any_of (λ p. starts_with (polish_stem lower t) p) action_prefixes) tokens

-- `str.lower`, `extract_tokens`, `extract_prohibited_terms`, `extract_exclusive_target` and
-- `DEVELOPER_TOOLS`.
pub record Language : Type 0 where
  pub lower : Str → Str
  pub extract_tokens : Str → List Str
  pub extract_prohibited_terms : Str → List Str
  pub extract_exclusive_target : Str → List Str
  pub developer_tools : List Str
