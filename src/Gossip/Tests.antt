-- ===== src/Gossip/Tests.antt =====
-- The gate and the history with libraries that read every request as one.
use atlas_memory.Prelude.{◌≡◌, refl, true, false, [], ◌∷◌, none, some}
use atlas_memory.Prelude.Dict.{lookup, insert, delete}
use atlas_memory.Prelude.Text.{Str, codes, str_eq}
use atlas_memory.Bridge.Apply.{Wiring, returned}
use atlas_memory.Gossip.Peers.{
  PeerIdentity, EpistemicReputation, verify, note_result, make_room, counted, is_trusted,
}
use atlas_memory.Gossip.Protocol.{
  Codec, Message, GossipProtocol, open_request, signature_holds, note_reputation, check_signature,
  verify_envelope_signature, admit, process_opened, process_sync_response,
}
use atlas_memory.Gossip.Gate.{IsUntouched, IsAuthentic, process-gate}

program : Unit {0}
unfolding lookup insert delete str_eq verify note_result make_room counted is_trusted open_request
    signature_holds note_reputation check_signature verify_envelope_signature admit process_opened
    process_sync_response
program = tt

abbrev message : Message
message = record {
  delta = record { source_node = codes "p"; vector_clock = []; payload = [] };
  mutations = none;
}

-- The text of a request is its signature, and the signature "s" is the only good one.
abbrev codec : Codec
codec = record {
  read_envelope = λ t. some (record {
    source_node = some (codes "p");
    aad = [];
    ciphertext_hex = t;
    signature_hex = some t;
  });
  from_hex = λ t. some t;
  decrypt = λ t aad. some t;
  read_message = λ t. some message;
  check = record { check_signature = λ key text sig. some (str_eq sig (codes "s")) };
}

abbrev wiring : Wiring (Unit {0}) Str
wiring = record {
  has_kv_store = false;
  has_write_path = false;
  get_sync = λ k s. some none;
  delete_sync = λ k s. returned s;
  set_sync = λ x s. returned s;
  write_async = λ x s. returned s;
  delete_by_upsert_key = λ k s. returned s;
  loads = λ t. none;
  text_value = λ t. t;
  null_value = [];
  str_of = λ t. t;
}

abbrev me : PeerIdentity
me = record {
  node_id = codes "q";
  own_public_key = codes "k";
  peer_public_keys = (codes "p", codes "l") ∷ [];
}

abbrev no_history : EpistemicReputation
no_history = record { threshold = 500_000_000; history = [] }

abbrev protocol : GossipProtocol (Unit {0})
protocol = record {
  local_node_id = codes "q";
  crdt = record { node_id = codes "q"; clock = (codes "q", 0) ∷ []; state = [] };
  bridge = none;
  identity = some me;
  reputation = some no_history;
  peers = [];
  peer_cursors = [];
}

test_forged : (process_sync_response codec wiring 0 (codes "x") protocol).1 ≡ false
unfolding program
test_forged = refl

test_signed : (process_sync_response codec wiring 0 (codes "s") protocol).1 ≡ true
unfolding program
test_signed = refl

test_trusted : is_trusted (note_result (codes "p") true no_history) (codes "p") ≡ true
unfolding program
test_trusted = refl

process-gate_example :
    let (g', passed) = process_sync_response codec wiring 0 (codes "x") protocol in
    (passed ≡ false → IsUntouched protocol g') × (passed ≡ true → IsAuthentic codec me (codes "x"))
process-gate_example = process-gate codec wiring (codes "x") 0 me protocol refl
