-- ===== src/Scoring/Bounds.antt =====
-- The ranges of the scores.
use cann_o_call.Prelude.{
  ℕ, ◌+◌, ◌*◌, ◌≤◌, ◌≡◌, ◌⊎◌, refl, String, Bool, true, false, inl, inr, List, [], ◌∷◌, arith, ltb,
  if◌then◌else◌,
}
use cann_o_call.Ingest.{Lib, SourcePacket}
use cann_o_call.Graph.{Node}
use cann_o_call.Scoring.{
  Unicode, Components, at_most, zero_components, dedup_sorted, count_matches, tokenize,
  meta_token_set, source_confidence, combined, score,
}

-- The ranges of the components, which are counted in halves, quarters and eightieths.
pub record IsBounded (c : Components) : Type 0 where
  pub semantic_sum : c.semantic_score ≡ c.primary_matches * 2 + c.secondary_matches
  pub semantic_le : c.semantic_score ≤ 16
  pub raw_sum : c.raw_score ≡ c.semantic_score * 2 + c.meta_matches
  pub raw_le : c.raw_score ≤ 48
  pub activation_le : c.activation_score ≤ c.semantic_score * 40
  pub metadata_alone : c.primary_matches ≡ 0 → c.secondary_matches ≡ 0 → c.activation_score ≡ 0

at_most_le : (top x : ℕ) → at_most top x ≤ top
unfolding at_most
at_most_le top x = ground arith

at_most_id : (top x : ℕ) → x ≤ top → at_most top x ≡ x
unfolding at_most
at_most_id top x h = ground (arith, h)

-- A semantic score times its two factors, of which there are two each.
product_le :
    (s c : ℕ) (b : Bool) → (c ≡ 1) ⊎ (c ≡ 2) → s * (if b then 20 else 17) * 1 * c * 1 ≤ s * 40
product_le s c true (inl e) = rw e (omega arith)
product_le s c true (inr e) = rw e (omega arith)
product_le s c false (inl e) = rw e (omega arith)
product_le s c false (inr e) = rw e (omega arith)

combined-IsBounded :
    (lib : Lib) (u : Unicode) (primary secondary meta confidence : ℕ)
    → (confidence ≡ 1) ⊎ (confidence ≡ 2)
    → IsBounded (combined lib u primary secondary meta confidence)
unfolding combined
combined-IsBounded lib u primary secondary meta confidence h =
    let p = at_most 4 primary in
    let s = at_most 8 secondary in
    let m = at_most 16 meta in
    let p_le = at_most_le 4 primary in
    let s_le = at_most_le 8 secondary in
    let m_le = at_most_le 16 meta in
    let semantic = at_most_id 16 (p * 2 + s) (omega (arith, p_le, s_le)) in
    let raw =
      at_most_id 48 (at_most 16 (p * 2 + s) * 2 + m) (omega (arith, p_le, s_le, m_le, semantic)) in
    record {
      semantic_sum = semantic;
      semantic_le = at_most_le 16 (p * 2 + s);
      raw_sum = raw;
      raw_le = at_most_le 48 (at_most 16 (p * 2 + s) * 2 + m);
      activation_le = product_le (at_most 16 (p * 2 + s)) confidence (ltb 0 s) h;
      metadata_alone = λ np ns.
          let none_left : at_most 16 (p * 2 + s) ≡ 0 = omega (arith, semantic, np, ns) in
          omega (arith, product_le (at_most 16 (p * 2 + s)) confidence (ltb 0 s) h, none_left);
    }

source_confidence-cases :
    (lib : Lib) (u : Unicode) (node packet : String)
    → (source_confidence lib u node packet ≡ 1) ⊎ (source_confidence lib u node packet ≡ 2)
unfolding source_confidence
source_confidence-cases lib u node packet = choice _
  where
    halves : Bool → ℕ
    halves b = if b then 1 else 2

    choice : (b : Bool) → (halves b ≡ 1) ⊎ (halves b ≡ 2)
    choice true = inl refl
    choice false = inr refl

zero_components-IsBounded : IsBounded zero_components
unfolding zero_components
zero_components-IsBounded = record {
  semantic_sum = refl;
  semantic_le = omega arith;
  raw_sum = refl;
  raw_le = omega arith;
  activation_le = omega arith;
  metadata_alone = λ p s. refl;
}

-- The semantic score of a node is its primary matches and half its secondary ones, and at most 8;
-- the raw score adds a quarter of the metadata matches, and is at most 12; the activation score is
-- at most the semantic one, and zero where only the metadata match.
pub score-IsBounded :
    (lib : Lib) (u : Unicode) (node : Node) (packet : SourcePacket) (tokens : List String)
    → IsBounded (score lib u node packet tokens)
unfolding score
score-IsBounded lib u node packet tokens = cases (dedup_sorted lib u tokens)
  where
    cases :
        (words : List String)
        → IsBounded (elim words [
          | [] ↦ zero_components
          | q ∷ l ↦
              combined lib u
                (count_matches (q ∷ l) (tokenize lib u packet.content.normalized_text))
                (count_matches (q ∷ l) (tokenize lib u node.source_locator))
                (count_matches (q ∷ l) (meta_token_set lib u packet.metadata))
                (source_confidence lib u node.content_hash packet.content.content_hash)
        ])
    cases [] = zero_components-IsBounded
    cases (q ∷ l) =
        combined-IsBounded lib u
          (count_matches (q ∷ l) (tokenize lib u packet.content.normalized_text))
          (count_matches (q ∷ l) (tokenize lib u node.source_locator))
          (count_matches (q ∷ l) (meta_token_set lib u packet.metadata))
          (source_confidence lib u node.content_hash packet.content.content_hash)
          (source_confidence-cases lib u node.content_hash packet.content.content_hash)
