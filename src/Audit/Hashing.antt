-- ===== src/Audit/Hashing.antt =====
-- `compute_entry_hash`, over what the repository takes from Python: `hashlib.sha256(…).hexdigest()`
-- and the formatting of a sequence number and of a timestamp.
use Prim.Native.Nat.{ℕ}
use mathlib.Core.List.{◌∷◌, ◌++◌}
use atlas_memory.Prelude.Text.{Str, codes}

pub record Hashing : Type 0 where
  pub sha256 : Str → Str
  pub show_seq : ℕ → Str
  pub show_time : ℕ → Str

abbrev pub colon : ℕ
colon = b':'

-- `f"{seq}:{timestamp}:{key}:{value_hash}:{prev_hash}"`
abbrev pub payload : Hashing → ℕ → ℕ → Str → Str → Str → Str
payload h seq timestamp key value_hash prev_hash =
    h.show_seq seq
    ++ (colon
        ∷ (h.show_time timestamp
            ++ (colon ∷ ((key ++ (colon ∷ value_hash)) ++ (colon ∷ prev_hash)))))

unfoldable pub compute_entry_hash : Hashing → ℕ → ℕ → Str → Str → Str → Str
compute_entry_hash h seq timestamp key value_hash prev_hash =
    h.sha256 (payload h seq timestamp key value_hash prev_hash)

-- `"0" * 64`
abbrev pub genesis : Str
genesis = codes "0000000000000000000000000000000000000000000000000000000000000000"
