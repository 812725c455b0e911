-- ===== src/Audit/Tamper.antt =====
-- Tamper evidence: two logs with one tip record the same, or show a collision of SHA-256.
use atlas_memory.Prelude.{
  ℕ, true, false, List, [], ◌∷◌, ◌++◌, ◌≡◌, ◌≢◌, ◌⊎◌, inl, inr, refl, sym, ◌∙◌, arith, length, All,
  Bool-cases, subst,
}
use atlas_memory.Prelude.Text.{Str, str_eq, str_eq_iff}
use atlas_memory.Audit.Hashing.{Hashing, colon, payload, compute_entry_hash, genesis}
use atlas_memory.Audit.Ledger.{Row, Ledger}
use atlas_memory.Audit.Verify.{row_hash, verify_rows, verify_audit_log}
use atlas_memory.Audit.Chain.{IsChain, tip_of, verify_rows_iff, verify_rows-tip}

abbrev pub HasNoColon : Str → Type 0
HasNoColon [] = Unit
HasNoColon (c ∷ s) = (c ≢ colon) × HasNoColon s

-- What is relied on of the printed parts: none holds the separator, and numbers print differently.
pub record IsPlain (h : Hashing) : Type 0 where
  pub digest_plain : (s : Str) → HasNoColon (h.sha256 s)
  pub seq_plain : (n : ℕ) → HasNoColon (h.show_seq n)
  pub time_plain : (n : ℕ) → HasNoColon (h.show_time n)
  pub seq_injective : (m n : ℕ) → h.show_seq m ≡ h.show_seq n → m ≡ n
  pub time_injective : (m n : ℕ) → h.show_time m ≡ h.show_time n → m ≡ n

-- Two different texts with one digest.
abbrev pub Collision : Hashing → Type 0
Collision h = (s : Str) × (t : Str) × (s ≢ t) × (h.sha256 s ≡ h.sha256 t)

same_or_Collision : (h : Hashing) (s t : Str) → h.sha256 s ≡ h.sha256 t → (s ≡ t) ⊎ Collision h
same_or_Collision h s t e = elim (Bool-cases (str_eq s t)) [
  | inl same ↦ inl ((str_eq_iff s t).0 same)
  | inr differ ↦ inr (s, t, (λ p. ground (arith, str_eq_iff s t)), e)
]

-- Texts without the separator are told apart in front of it.
split_first :
    (s s' t t' : Str)
    → HasNoColon s
    → HasNoColon s'
    → s ++ (colon ∷ t) ≡ s' ++ (colon ∷ t')
    → (s ≡ s') × (t ≡ t')
split_first [] [] t t' a b e = ground arith
split_first [] (c ∷ s') t t' a b e = absurd (b.0 (ground arith))
split_first (c ∷ s) [] t t' a b e = absurd (a.0 (ground arith))
split_first (c ∷ s) (c' ∷ s') t t' a b e = ground (arith, split_first s s' t t' a.1 b.1)

no_colon_inside : (s t : Str) → ¬ HasNoColon (s ++ (colon ∷ t))
no_colon_inside [] t h = h.0 refl
no_colon_inside (c ∷ s) t h = no_colon_inside s t h.1

-- And behind it.
split_last :
    (s s' t t' : Str)
    → HasNoColon t
    → HasNoColon t'
    → s ++ (colon ∷ t) ≡ s' ++ (colon ∷ t')
    → (s ≡ s') × (t ≡ t')
split_last [] [] t t' a b e = ground arith
split_last [] (c ∷ s') t t' a b e =
    let inside : t ≡ s' ++ (colon ∷ t') = ground arith in
    absurd (no_colon_inside s' t' (subst HasNoColon inside a))
split_last (c ∷ s) [] t t' a b e =
    let inside : t' ≡ s ++ (colon ∷ t) = ground arith in
    absurd (no_colon_inside s t (subst HasNoColon inside b))
split_last (c ∷ s) (c' ∷ s') t t' a b e = ground (arith, split_last s s' t t' a b)

-- What a row's hash covers.
pub record SameRecord (r s : Row) : Type 0 where
  pub same_seq : r.seq ≡ s.seq
  pub same_timestamp : r.timestamp ≡ s.timestamp
  pub same_key : r.key ≡ s.key
  pub same_value_hash : r.value_hash ≡ s.value_hash
  pub same_prev_hash : r.prev_hash ≡ s.prev_hash

abbrev pub row_payload : Hashing → Row → Str
row_payload h r = payload h r.seq r.timestamp r.key r.value_hash r.prev_hash

payload_injective :
    (h : Hashing) (r s : Row)
    → IsPlain h
    → HasNoColon r.value_hash
    → HasNoColon s.value_hash
    → HasNoColon r.prev_hash
    → HasNoColon s.prev_hash
    → row_payload h r ≡ row_payload h s
    → SameRecord r s
payload_injective h r s p vr vs pr ps e =
    let (seqs, e₁) =
      split_first (h.show_seq r.seq) (h.show_seq s.seq) _ _ (p.seq_plain r.seq) (p.seq_plain s.seq)
        e in
    let (times, e₂) =
      split_first (h.show_time r.timestamp) (h.show_time s.timestamp) _ _ (p.time_plain r.timestamp)
        (p.time_plain s.timestamp) e₁ in
    let (front, prevs) = split_last _ _ r.prev_hash s.prev_hash pr ps e₂ in
    let (names, values) = split_last r.key s.key r.value_hash s.value_hash vr vs front in
    record {
      same_seq = p.seq_injective r.seq s.seq seqs;
      same_timestamp = p.time_injective r.timestamp s.timestamp times;
      same_key = names;
      same_value_hash = values;
      same_prev_hash = prevs;
    }

abbrev pub SameRecords : List Row → List Row → Type 0
SameRecords [] [] = Unit
SameRecords [] (s ∷ ss) = ⊥
SameRecords (r ∷ rs) [] = ⊥
SameRecords (r ∷ rs) (s ∷ ss) = SameRecord r s × SameRecords rs ss

abbrev pub HashesArePlain : List Row → Type 0
HashesArePlain = All (λ r. HasNoColon r.value_hash)

entry_plain :
    (h : Hashing) (r : Row) → IsPlain h → row_hash h r ≡ r.entry_hash → HasNoColon r.entry_hash
unfolding compute_entry_hash
entry_plain h r p e = subst HasNoColon e (p.digest_plain (row_payload h r))

chains_agree :
    (h : Hashing) (rs ss : List Row) (p q : Str)
    → IsPlain h
    → HasNoColon p
    → HasNoColon q
    → HashesArePlain rs
    → HashesArePlain ss
    → IsChain h rs p
    → IsChain h ss q
    → length rs ≡ length ss
    → tip_of p rs ≡ tip_of q ss
    → ((p ≡ q) × SameRecords rs ss) ⊎ Collision h
unfolding tip_of compute_entry_hash
chains_agree h [] [] p q plain np nq vr vs c d n e = inl (e, tt)
chains_agree h [] (s ∷ ss) p q plain np nq vr vs c d n e = absurd (omega arith)
chains_agree h (r ∷ rs) [] p q plain np nq vr vs c d n e = absurd (omega arith)
chains_agree h (r ∷ rs) (s ∷ ss) p q plain np nq vr vs c d n e =
    elim (chains_agree h rs ss r.entry_hash s.entry_hash plain (entry_plain h r plain c.1)
      (entry_plain h s plain d.1) vr.1 vs.1 c.2 d.2 (omega arith) e) [
        | inr found ↦ inr found
        | inl (tips, rest) ↦
            elim (same_or_Collision h (row_payload h r) (row_payload h s) (c.1 ∙ tips ∙ sym d.1)) [
              | inr found ↦ inr found
              | inl texts ↦
                  let same : SameRecord r s =
                    payload_injective h r s plain vr.0 vs.0 (subst HasNoColon (sym c.0) np)
                      (subst HasNoColon (sym d.0) nq) texts in
                  inl (sym c.0 ∙ same.same_prev_hash ∙ d.0, (same, rest))
            ]
      ]

genesis_plain : HasNoColon genesis
genesis_plain = omega arith

-- Two logs of one length that both pass the shallow check and end in one tip record, row by row,
-- the same sequence numbers, times, keys, value hashes and links, or there are two texts of one
-- SHA-256 digest. The condition is that no value hash of either log has a colon: a digest has none,
-- but one that an entry brings with it could have; a key may have one. Digests and printed numbers have no colon, and
-- two numbers are not printed alike.
pub same_tip-SameRecords :
    (h : Hashing) (l m : Ledger)
    → IsPlain h
    → HashesArePlain l.rows
    → HashesArePlain m.rows
    → (verify_audit_log h false l).passed ≡ true
    → (verify_audit_log h false m).passed ≡ true
    → length l.rows ≡ length m.rows
    → (verify_audit_log h false l).tip ≡ (verify_audit_log h false m).tip
    → SameRecords l.rows m.rows ⊎ Collision h
unfolding verify_audit_log
same_tip-SameRecords h l m plain vl vm pl pm n e =
    let pass_l : (verify_rows h false l l.rows genesis).passed ≡ true = ground (arith, pl) in
    let pass_m : (verify_rows h false m m.rows genesis).passed ≡ true = ground (arith, pm) in
    let tips : tip_of genesis l.rows ≡ tip_of genesis m.rows = ground (
      arith,
      verify_rows-tip h false l l.rows genesis pass_l,
      verify_rows-tip h false m m.rows genesis pass_m,
    ) in
    elim (chains_agree h l.rows m.rows genesis genesis plain genesis_plain genesis_plain vl vm
      ((verify_rows_iff h false l l.rows genesis).0 pass_l).0
      ((verify_rows_iff h false m m.rows genesis).0 pass_m).0 n tips) [
        | inl agreed ↦ inl agreed.1
        | inr found ↦ inr found
      ]
