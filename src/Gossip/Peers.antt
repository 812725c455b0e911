-- ===== src/Gossip/Peers.antt =====
-- The registry of public keys (`PeerIdentity`) and the history of validations
-- (`EpistemicReputation`), two dictionaries of at most a hundred peers. A score is compared with
-- its threshold, in billionths, as a fraction.
use atlas_memory.Prelude.{
  take, ℕ, ◌+◌, ◌*◌, Bool, true, false, not, ◌&&◌, List, [], ◌∷◌, Option, none, some, leb, ◌==◌,
  if◌then◌else◌, length, keep_if,
}
use atlas_memory.Prelude.Dict.{Dict, lookup, insert, delete, has_key}
use atlas_memory.Prelude.Text.{Str, str_eq}

abbrev pub max_peers : ℕ
max_peers = 100

-- `del d[next(iter(d))]`
unfoldable pub drop_oldest {ℓ} : {V : Type ℓ} → Dict V → Dict V
drop_oldest [] = []
drop_oldest ((k, v) ∷ d) = delete k d

-- The eviction before a write of `k`.
unfoldable pub make_room {ℓ} : {V : Type ℓ} → Str → Dict V → Dict V
unfolding drop_oldest
make_room k d = if leb max_peers (length d) && not (has_key k d) then drop_oldest d else d

-- Ed25519: the check of a signature by the raw bytes of a public key, which is `none` where they
-- are no key.
pub record Ed25519 : Type 0 where
  pub check_signature : Str → Str → Str → Option Bool

pub record PeerIdentity : Type 0 where
  pub node_id : Str
  pub own_public_key : Str
  pub peer_public_keys : Dict Str

unfoldable pub register_peer : Str → Str → PeerIdentity → PeerIdentity
unfolding make_room
register_peer peer key p = record p {
  peer_public_keys = insert peer (take 32 key) (make_room peer p.peer_public_keys);
}

unfoldable pub is_peer_registered : Str → PeerIdentity → Bool
is_peer_registered peer p = if has_key peer p.peer_public_keys then true else str_eq peer p.node_id

-- `none` where `from_public_bytes` raises; a signature that cannot be checked is false.
unfoldable pub verify : Ed25519 → Str → Str → Str → PeerIdentity → Option Bool
verify e peer message signature p =
    if str_eq peer p.node_id
    then e.check_signature p.own_public_key message signature
    else elim (lookup peer p.peer_public_keys) [
      | none ↦ some false
      | some key ↦ e.check_signature key message signature
    ]

-- The counts of validated and of all operations.
pub record Counts : Type 0 where
  pub validated : ℕ
  pub total : ℕ

pub record EpistemicReputation : Type 0 where
  pub threshold : ℕ
  pub history : Dict Counts

abbrev pub counts_of : Option Counts → Counts
counts_of none = record { validated = 0; total = 0 }
counts_of (some c) = c

unfoldable pub counted : Bool → Counts → Counts
counted validated c = record {
  validated = c.validated + (if validated then 1 else 0);
  total = c.total + 1;
}

unfoldable pub note_result : Str → Bool → EpistemicReputation → EpistemicReputation
unfolding make_room counted
note_result peer validated r =
    let kept = make_room peer r.history in
    record r { history = insert peer (counted validated (counts_of (lookup peer kept))) kept }

-- `abs(msg_timestamp - now) <= drift_limit`
unfoldable pub validate_timestamp : ℕ → ℕ → ℕ → Bool
validate_timestamp msg now drift = leb msg (now + drift) && leb now (msg + drift)

-- `score(peer_id) >= threshold`, where no data score 0.
unfoldable pub is_trusted : EpistemicReputation → Str → Bool
is_trusted r peer =
    let c = counts_of (lookup peer r.history) in
    if c.total == 0
    then leb r.threshold 0
    else leb (r.threshold * c.total) (1_000_000_000 * c.validated)

unfoldable pub disconnect_untrusted : EpistemicReputation → List Str → List Str
disconnect_untrusted r = keep_if (λ peer. not (is_trusted r peer))
