-- ===== src/Gossip/Gate.antt =====
-- The gate in front of the stores: what passes it, and what a refusal leaves as it was.
use atlas_memory.Prelude.{
  ℕ, Bool, true, false, Option, none, some, ◌≡◌, arith, refl, subst, Bool-cases, inl, inr,
}
use atlas_memory.Prelude.Text.{Str}
use atlas_memory.Bridge.Apply.{Wiring}
use atlas_memory.Gossip.Peers.{Ed25519, PeerIdentity, verify, is_peer_registered}
use atlas_memory.Gossip.Protocol.{
  Codec, Opened, open_request, signature_holds, GossipProtocol, note_reputation, check_signature,
  verify_envelope_signature, admit, process_opened, process_sync_response,
}

-- Everything but the reputation is as before.
abbrev pub IsUntouched : {S : Type 0} → GossipProtocol S → GossipProtocol S → Type 0
IsUntouched g g' =
    (g'.crdt ≡ g.crdt)
    × (g'.bridge ≡ g.bridge)
    × (g'.identity ≡ g.identity)
    × (g'.peers ≡ g.peers)
    × (g'.peer_cursors ≡ g.peer_cursors)

-- A request of a registered source, signed over its plain text.
abbrev pub IsAuthentic : Codec → PeerIdentity → Str → Type 0
IsAuthentic c p request =
    (o : Opened) × (sig : Str) × (open_request c request ≡ some o)
    × (o.envelope.signature_hex ≡ some sig)
    × (signature_holds c p o.source o.plain sig ≡ true)
    × (is_peer_registered o.source p ≡ true)

verify-registered :
    (e : Ed25519) (peer message sig : Str) (p : PeerIdentity)
    → verify e peer message sig p ≡ some true
    → is_peer_registered peer p ≡ true
unfolding verify is_peer_registered
verify-registered e peer message sig p h = ground arith

signature_holds-registered :
    (c : Codec) (p : PeerIdentity) (source message sig : Str)
    → signature_holds c p source message sig ≡ true
    → is_peer_registered source p ≡ true
unfolding signature_holds
signature_holds-registered c p source message sig h = read (c.from_hex sig) refl
  where
    checked :
        (raw : Str) (v : Option Bool)
        → c.from_hex sig ≡ some raw
        → verify c.check source message raw p ≡ v
        → is_peer_registered source p ≡ true
    checked raw none e f = ground arith
    checked raw (some false) e f = ground arith
    checked raw (some true) e f = verify-registered c.check source message raw p f

    read : (x : Option Str) → c.from_hex sig ≡ x → is_peer_registered source p ≡ true
    read none e = ground arith
    read (some raw) e = checked raw (verify c.check source message raw p) e refl

module _ {S J : Type 0} (c : Codec) (w : Wiring S J) where
  note_reputation-IsUntouched :
      (source : Str) (b : Bool) (g : GossipProtocol S) → IsUntouched g (note_reputation source b g)
  unfolding note_reputation
  note_reputation-IsUntouched source b g = (refl, refl, refl, refl, refl)

  -- Passing or not, the checks touch the reputation only.
  check_signature-IsUntouched :
      (i : Option PeerIdentity) (s : Option Str) (source message : Str) (g : GossipProtocol S)
      → IsUntouched g (check_signature c i s source message g).0
  unfolding check_signature
  check_signature-IsUntouched none s source message g = (refl, refl, refl, refl, refl)
  check_signature-IsUntouched (some p) none source message g =
      note_reputation-IsUntouched source false g
  check_signature-IsUntouched (some p) (some sig) source message g =
      note_reputation-IsUntouched source (signature_holds c p source message sig) g

  check_signature-passes :
      (p : PeerIdentity) (s : Option Str) (source message : Str) (g : GossipProtocol S)
      → (check_signature c (some p) s source message g).1 ≡ true
      → (sig : Str) × (s ≡ some sig) × (signature_holds c p source message sig ≡ true)
  unfolding check_signature
  check_signature-passes p none source message g h = absurd (ground arith)
  check_signature-passes p (some sig) source message g h = (sig, refl, h)

  -- A protocol with an identity takes in an opened request only if it is signed, with the key that
  -- stands in the registry for its source; else nothing but the reputation changes.
  admit-gate :
      (o : Opened) (now : ℕ) (p : PeerIdentity) (g : GossipProtocol S)
      → g.identity ≡ some p
      → let (g', passed) = admit c w now o g in
        (passed ≡ false → IsUntouched g g')
        × (passed ≡ true
            → (sig : Str) × (o.envelope.signature_hex ≡ some sig)
              × (signature_holds c p o.source o.plain sig ≡ true))
  unfolding admit verify_envelope_signature
  admit-gate o now p g has =
      let sig_hex = o.envelope.signature_hex in
      elim (Bool-cases (check_signature c g.identity sig_hex o.source o.plain g).1) [
        | inl passed ↦ rw passed (
          λ h. absurd (ground arith),
          λ h.
              check_signature-passes p sig_hex o.source o.plain g
                (subst (λ i. (check_signature c i sig_hex o.source o.plain g).1 ≡ true) has passed),
        )
        | inr refused ↦ rw refused (
          λ h. check_signature-IsUntouched g.identity sig_hex o.source o.plain g,
          λ h. absurd (ground arith),
        )
      ]

  -- A protocol with an identity takes a request in only if the request can be opened, its source is
  -- registered, and it carries a signature that holds for that source and the decrypted text. Any
  -- other request leaves the sets, the bridge, the peers and the cursors as they were.
  pub process-gate :
      (request : Str) (now : ℕ) (p : PeerIdentity) (g : GossipProtocol S)
      → g.identity ≡ some p
      → let (g', passed) = process_sync_response c w now request g in
        (passed ≡ false → IsUntouched g g') × (passed ≡ true → IsAuthentic c p request)
  unfolding process_sync_response process_opened
  process-gate request now p g has = opened (open_request c request)
    where
      opened :
          (x : Option Opened)
          → let (g', passed) = process_opened c w now x g in
            (passed ≡ false → IsUntouched g g')
            × (passed ≡ true
                → (o : Opened) × (sig : Str) × (x ≡ some o)
                  × (o.envelope.signature_hex ≡ some sig)
                  × (signature_holds c p o.source o.plain sig ≡ true)
                  × (is_peer_registered o.source p ≡ true))
      opened none = (λ h. (refl, refl, refl, refl, refl), λ h. absurd (ground arith))
      opened (some o) =
          let (kept, taken) = admit-gate o now p g has in
          (
            kept,
            λ h.
                let (sig, there, holds) = taken h in
                (
                  o,
                  sig,
                  refl,
                  there,
                  holds,
                  signature_holds-registered c p o.source o.plain sig holds,
                ),
          )
