-- ===== src/Arbiter/Established.antt =====
-- What the arbiter does not accept in silence: a write that lowers the confidence of an established
-- fact, or that contradicts a fact of its own namespace.
use atlas_memory.Prelude.{
  ℕ, ◌+◌, ◌≤◌, ◌<◌, ◌≡◌, ◌≢◌, refl, ap, ◌∙◌, Bool, true, false, Option, none, some, ◌∷◌, ◌++◌,
  lt→ltb, le→leb, if◌then◌else◌, ◌>>=◌, arith,
}
use atlas_memory.Prelude.Dict.{Dict}
use atlas_memory.Prelude.Text.{Str, str_eq, str_eq_refl, str_eq_ne}
use atlas_memory.Arbiter.Coordinate.{from_key}
use atlas_memory.Arbiter.Kernel.{accept, confidence_inversion, belief_revision, warning_score}
use atlas_memory.Arbiter.Profile.{Profile, same_namespace}
use atlas_memory.Arbiter.Candidate.{
  Item, Candidate, Write, Parsed, parse_existing_item, whole_key_candidate,
  confidence_inversion_candidate,
}
use atlas_memory.Arbiter.Scan.{
  Arbiter, val_str, handled_if_found, evaluate_same_key, scan_cross_key, scan_parsed,
  scan_existing_item,
}
use atlas_memory.Arbiter.Semantic.{scan_cross_key-IsCross}
use atlas_memory.Arbiter.Arbitrate.{arbitrate}
use atlas_memory.Arbiter.Ranking.{AllFound-some, incoming_profile, conflict_not_accepted}

pub scan_existing :
    (arb : Arbiter) (w : Write) (ex_k : Str) (item : Item) (incoming : Profile) (ex : Parsed)
    → parse_existing_item item ≡ some ex
    → scan_existing_item arb ex_k item w incoming ≡ scan_parsed arb ex_k ex w incoming
unfolding scan_existing_item
scan_existing arb w ex_k item incoming ex p =
    ap (λ o. o >>= λ e. scan_parsed arb ex_k e w incoming) p

-- A candidate with that score at least.
abbrev Scores : ℕ → Option Candidate → Type 0
Scores n o = (c : Candidate) × (o ≡ some c) × (n ≤ c.score)

-- A score of 90.
abbrev ScoresHigh : Option Candidate → Type 0
ScoresHigh = Scores 130_000_000_000

abbrev HandledHigh : Option (Option Candidate) → Type 0
HandledHigh o = (c : Candidate) × (o ≡ some (some c)) × (130_000_000_000 ≤ c.score)

handled_if_found-HandledHigh :
    (o : Option Candidate) → ScoresHigh o → HandledHigh (handled_if_found o)
handled_if_found-HandledHigh o (c, e, m) = (c, rw e refl, m)

handled_unless :
    (b : Bool) (o p : Option (Option Candidate))
    → b ≡ false
    → HandledHigh p
    → HandledHigh (if b then o else p)
handled_unless true o p h k = cc
handled_unless false o p h k = k

handled_if :
    (b : Bool) (o p : Option (Option Candidate))
    → HandledHigh o
    → HandledHigh p
    → HandledHigh (if b then o else p)
handled_if true o p h k = h
handled_if false o p h k = k

revision_high :
    (ex_k : Str) (ex : Parsed) (w : Write) (melted : Bool)
    → HandledHigh
        (some (some (whole_key_candidate belief_revision 135_000_000_000 ex_k ex w melted)))
unfolding whole_key_candidate
revision_high ex_k ex w melted = (_, refl, omega arith)

inversion_high :
    (ex_k : Str) (ex : Parsed) (w : Write)
    → 900_000_000 ≤ ex.ex_conf
    → w.confidence < ex.ex_conf
    → ScoresHigh (confidence_inversion_candidate ex_k ex w false)
unfolding confidence_inversion_candidate whole_key_candidate
inversion_high ex_k ex w e l =
    let m : w.confidence + 0 < ex.ex_conf = omega (arith, l) in
    (
      whole_key_candidate confidence_inversion 130_000_000_000 ex_k ex w false,
      rw (le→leb _ _ e, lt→ltb _ _ m) refl,
      omega arith,
    )

evaluate_same_key-HandledHigh :
    (arb : Arbiter) (ex_k : Str) (ex : Parsed) (w : Write)
    → str_eq (arb.lang.lower ex.ex_val) (val_str arb w) ≡ false
    → 900_000_000 ≤ ex.ex_conf
    → w.confidence < ex.ex_conf
    → HandledHigh (evaluate_same_key arb ex_k ex w)
unfolding evaluate_same_key
evaluate_same_key-HandledHigh arb ex_k ex w d e l = search (
  handled_unless, handled_if, handled_if_found-HandledHigh, revision_high, inversion_high, d, e, l,
)

high_if :
    (n : ℕ) (b : Bool) (o p : Option Candidate)
    → Scores n o
    → Scores n p
    → Scores n (if b then o else p)
high_if n true o p h k = h
high_if n false o p h k = k

high_when :
    (n : ℕ) (b : Bool) (o p : Option Candidate)
    → b ≡ true
    → Scores n o
    → Scores n (if b then o else p)
high_when n true o p h k = k
high_when n false o p h k = cc

high_unless :
    (n : ℕ) (b : Bool) (o p : Option Candidate)
    → b ≡ false
    → Scores n p
    → Scores n (if b then o else p)
high_unless n true o p h k = cc
high_unless n false o p h k = k

named_high :
    (n : ℕ) (ex_k : Str) (ex : Parsed) (w : Write)
    → n ≤ 140_000_000_000
    → Scores n (some (whole_key_candidate belief_revision 140_000_000_000 ex_k ex w false))
unfolding whole_key_candidate
named_high n ex_k ex w m = (_, refl, m)

same_key_high :
    (o : Option (Option Candidate)) (cross : Option Candidate)
    → HandledHigh o
    → ScoresHigh (elim o [ none ↦ cross | some handled ↦ handled ])
same_key_high o cross (c, e, m) = (c, rw e refl, m)

scan_parsed-ScoresHigh :
    (arb : Arbiter) (ex : Parsed) (w : Write) (incoming : Profile)
    → str_eq (arb.lang.lower ex.ex_val) (val_str arb w) ≡ false
    → 900_000_000 ≤ ex.ex_conf
    → w.confidence < ex.ex_conf
    → ScoresHigh (scan_parsed arb w.key ex w incoming)
unfolding scan_parsed
scan_parsed-ScoresHigh arb ex w incoming d e l =
    let same = str_eq_refl w.key in
    let handled =
      same_key_high _ (scan_cross_key arb w.key ex w incoming)
        (evaluate_same_key-HandledHigh arb w.key ex w d e l) in
    let m : 130_000_000_000 ≤ 140_000_000_000 = omega arith in
    search (high_if, high_when, named_high, m, same, handled)

-- A fact of confidence 0.9 or more is established. A write of another value to its key with less
-- confidence is not accepted in silence, wherever the fact stands among the stored items, when the
-- score threshold of the configuration is at most 90.
pub established_fact_reported :
    (arb : Arbiter) (w : Write) (bs : Dict Item) (item : Item) (later : Dict Item) (ex : Parsed)
    → arb.config.high_score_threshold ≤ 130_000_000_000
    → parse_existing_item item ≡ some ex
    → str_eq (arb.lang.lower ex.ex_val) (val_str arb w) ≡ false
    → 900_000_000 ≤ ex.ex_conf
    → w.confidence < ex.ex_conf
    → (arbitrate arb w (bs ++ ((w.key, item) ∷ later))).action ≢ accept
established_fact_reported arb w bs item later ex t p d e l =
    let (c, found, m) = scan_parsed-ScoresHigh arb ex w (incoming_profile arb w) d e l in
    conflict_not_accepted arb w bs w.key item later c
      (scan_existing arb w w.key item _ ex p ∙ found) (omega (arith, t, m))

scan_parsed-Scores :
    (arb : Arbiter) (ex_k : Str) (ex : Parsed) (w : Write) (incoming : Profile)
    → str_eq ex_k w.key ≡ false
    → Scores warning_score (scan_cross_key arb ex_k ex w incoming)
    → Scores warning_score (scan_parsed arb ex_k ex w incoming)
unfolding scan_parsed
scan_parsed-Scores arb ex_k ex w incoming other cross =
    let m : warning_score ≤ 140_000_000_000 = omega arith in
    search (high_if, high_unless, named_high, m, other, cross)

-- When the scan of a stored item under another key finds a conflict and the two keys share a
-- namespace, the write is not accepted in silence, wherever the item stands, when the score
-- threshold of the configuration is at most 35.
pub namespace_conflict_reported :
    (arb : Arbiter) (w : Write) (bs : Dict Item) (ex_k : Str) (item : Item) (later : Dict Item)
    (ex : Parsed) (c : Candidate)
    → arb.config.high_score_threshold ≤ warning_score
    → parse_existing_item item ≡ some ex
    → ex_k ≢ w.key
    → same_namespace w.key ex_k (from_key arb.lang.lower w.key) (from_key arb.lang.lower ex_k)
      ≡ true
    → scan_cross_key arb ex_k ex w (incoming_profile arb w) ≡ some c
    → (arbitrate arb w (bs ++ ((ex_k, item) ∷ later))).action ≢ accept
namespace_conflict_reported arb w bs ex_k item later ex c t p other near found =
    let cross = scan_cross_key-IsCross arb ex_k ex w (incoming_profile arb w) in
    let m : warning_score ≤ c.score = (AllFound-some _ _ c found cross).2 near in
    let (d, e, n) =
      scan_parsed-Scores arb ex_k ex w (incoming_profile arb w) (str_eq_ne ex_k w.key other)
        (c, found, m) in
    conflict_not_accepted arb w bs ex_k item later d (scan_existing arb w ex_k item _ ex p ∙ e)
      (omega (arith, t, n))
