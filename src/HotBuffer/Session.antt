-- ===== src/HotBuffer/Session.antt =====
-- Which session a record belongs to, who may see it, and what is conversational noise. Python's
-- `str.lower` and the digits of `\d` go by Unicode tables: they are a parameter.
use atlas_memory.Prelude.{
  ℕ, zero, suc, Bool, true, not, ◌&&◌, ◌||◌, ◌==◌, leb, List, [], ◌∷◌, Option, none, some,
  if◌then◌else◌, drop, any_of, ◌++◌, ◌>>=◌,
}
use atlas_memory.Prelude.Text.{
  Str, codes, str_eq, starts_with, occurs_in, remove_all, strip_space, before, behind, is_empty,
}

pub record Unicode : Type 0 where
  pub lower : Str → Str
  pub is_digit : ℕ → Bool

abbrev pub global_session : Str
global_session = codes "global"

abbrev pub default_session : Str
default_session = codes "hermes_default"

-- The metadata that the buffer reads; an absent text is empty, an absent flag false.
pub record Metadata : Type 0 where
  pub session_id : Str
  pub source_session_id : Str
  pub is_superseded : Bool
  pub l2_consolidated : Bool
  pub l2_consolidated_sessions : Option (List Str)
  pub seeded_from_kv : Bool

abbrev noise_indicators : List Str
noise_indicators =
    codes "[user]"
    ∷ codes "[assistant]"
    ∷ codes "mission order"
    ∷ codes "### session"
    ∷ codes "traceback (most recent call last)"
    ∷ codes "conversation___user"
    ∷ codes "chciałbym, abyś"
    ∷ codes "test 1: test"
    ∷ codes "test aktywnego użycia"
    ∷ []

abbrev noise_prefixes : List Str
noise_prefixes =
    codes "fact:conversation___user"
    ∷ codes "fact:conversation"
    ∷ codes "conversation___user"
    ∷ codes "conversation:"
    ∷ []

unfoldable pub is_conversational_churn : Unicode → Str → Str → Bool
is_conversational_churn u key content =
    let s_lower = u.lower key in
    let c_lower = u.lower content in
    any_of (λ ind. occurs_in ind s_lower || occurs_in ind c_lower) noise_indicators
    || any_of (starts_with s_lower) noise_prefixes

abbrev pub persistent_key_prefixes : List Str
persistent_key_prefixes =
    codes "fact:"
    ∷ codes "rule:"
    ∷ codes "preference:"
    ∷ codes "constraint:"
    ∷ codes "config:"
    ∷ codes "system:"
    ∷ codes "user:"
    ∷ codes "hermes:"
    ∷ codes "prompt-"
    ∷ codes "mnemosyne:"
    ∷ []

-- Exactly `n` digits, then the rest.
digits : Unicode → ℕ → Str → Option (Str × Str)
digits u zero s = some ([], s)
digits u (suc n) [] = none
digits u (suc n) (c ∷ s) = elim (digits u n s) [
  | none ↦ none
  | some (ds, rest) ↦ if u.is_digit c then some (c ∷ ds, rest) else none
]

underscore : Str → Option Str
underscore [] = none
underscore (c ∷ s) = if c == b'_' then some s else none

abbrev is_hex : ℕ → Bool
is_hex c = (leb b'0' c && leb c b'9') || ((leb b'a' c && leb c b'f') || (leb b'A' c && leb c b'F'))

hex_run : Str → Str
hex_run [] = []
hex_run (c ∷ s) = if is_hex c then c ∷ hex_run s else []

joined_id : Str → Str → Str → Option Str
joined_id day time [] = none
joined_id day time (c ∷ hex) = some (day ++ (b'_' ∷ (time ++ (b'_' ∷ (c ∷ hex)))))

-- The group of `^session_(\d{8}_\d{6}_[a-f0-9]+)`, on the text behind `session_`.
stamped_id : Unicode → Str → Option Str
unfolding digits underscore hex_run joined_id
stamped_id u s = do
  (day, after_day) ← digits u 8 s
  time_part ← underscore after_day
  (time, after_time) ← digits u 6 time_part
  hex_part ← underscore after_time
  joined_id day time (hex_run hex_part)

-- `key.split("_", 2)`: the second of three parts, or the text behind `session_`.
second_part : Unicode → Str → Str
second_part u key = elim (behind b'_' key) [
  | none ↦ drop 8 key
  | some rest ↦ elim (behind b'_' rest) [
    | none ↦ drop 8 key
    | some _ ↦
        if str_eq (u.lower (before b'_' key)) (codes "session")
        then before b'_' rest
        else drop 8 key
  ]
]

-- A key that begins with `session_`.
underscored_session : Unicode → Str → Str
unfolding stamped_id second_part
underscored_session u key = elim (behind b':' key) [
  | some _ ↦ before b':' (drop 8 key)
  | none ↦ elim (stamped_id u (drop 8 key)) [ some id ↦ id | none ↦ second_part u key ]
]

-- A key that begins with `session:`; the source falls through unless its first part is `session`.
colon_session : Unicode → Str → Option Str
colon_session u key = elim (behind b':' key) [
  | none ↦ none
  | some rest ↦
      if str_eq (u.lower (before b':' key)) (codes "session") then some (before b':' rest) else none
]

-- `meta.get("session_id") or meta.get("source_session_id")`
abbrev pub raw_session : Metadata → Str
raw_session m = elim m.session_id [ [] ↦ m.source_session_id | c ∷ s ↦ c ∷ s ]

metadata_session : Metadata → Option Str
metadata_session m = elim (raw_session m) [
  | [] ↦ none
  | c ∷ s ↦
      if any_of (str_eq (c ∷ s)) (codes "hermes_persistent" ∷ codes "global" ∷ global_session ∷ [])
      then some global_session
      else some (c ∷ s)
]

shared_or_metadata : Unicode → Str → Metadata → Option Str
unfolding metadata_session
shared_or_metadata u key m =
    if any_of (starts_with (u.lower key)) persistent_key_prefixes
    then some global_session
    else metadata_session m

unfoldable pub extract_effective_session : Unicode → Str → Metadata → Option Str
unfolding underscored_session colon_session shared_or_metadata
extract_effective_session u key m =
    if starts_with (u.lower key) (codes "session:")
    then (elim (colon_session u key) [ some s ↦ some s | none ↦ shared_or_metadata u key m ])
    else if starts_with (u.lower key) (codes "session_")
    then some (underscored_session u key)
    else shared_or_metadata u key m

-- `str(s).replace("session_", "").strip()`
unfoldable pub clean_session : Str → Str
clean_session s = strip_space (remove_all (codes "session_") s)

abbrev pub is_default : Str → Bool
is_default s = str_eq s default_session || str_eq s (codes "default")

-- The request `None` is cleaned to the empty text.
abbrev pub clean_request : Option Str → Str
clean_request none = []
clean_request (some r) = clean_session r

unfoldable pub is_session_accessible : Option Str → Option Str → Bool
is_session_accessible none requested = true
is_session_accessible (some eff) requested =
    let clean_req = clean_request requested in
    let clean_eff = clean_session eff in
    if str_eq eff global_session
    then true
    else if is_default clean_eff || is_empty clean_eff
    then is_default clean_req || is_empty clean_req
    else not (is_empty clean_req) && str_eq clean_req clean_eff
