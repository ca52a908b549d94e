-- ===== src/Receipts/Restart.antt =====
-- internal/receipts/receipts.go: `New` and `Verify`.
use cann_o_call.Prelude.{
  ℕ, suc, ◌<◌, ◌≡◌, sym, ap, ◌∙◌, subst, String, true, List, [], ◌∷◌, inl, inr, length, arith,
}
use cann_o_call.Prelude.Int64.{pos, ltb_ℤ, limit}
use cann_o_call.Prelude.Result.{ok, Result-cases}
use cann_o_call.Receipts.{
  Receipt, Codec, Entry, genesis, values, in_order, legacy_of, track, rebuild_chain_state,
  load_from_disk, new, verify, check_chain, check_legacy, conclude,
}
use cann_o_call.Receipts.Chain.{
  Sound, check_chain-err, check_chain-next, check_link-seq, check_legacy-chain,
}

module _ (codec : Codec) where
  -- The number and the hash that the restart ends with are those of the walk of `Verify`.
  track-chain :
      (legacy : ℕ) (prev : String) (n : ℕ) (l : List Receipt) (h : String) (m : ℕ)
      → check_chain codec legacy prev (pos (suc n)) n l ≡ ok (h, m)
      → suc m < limit
      → track codec (pos n) prev l ≡ (pos m, h)
  unfolding track check_chain
  track-chain legacy prev n [] h m q range = ground (arith)
  track-chain legacy prev n (r ∷ rs) h m q range =
      let (link, rest, below) = check_chain-next codec legacy prev n r rs h m q range in
      let numbered = check_link-seq codec prev (pos (suc n)) r link in
      let later : ltb_ℤ (pos n) r.seq ≡ true = ground (arith, numbered) in
      rw later (
        subst (λ k. track codec k r.hash rs ≡ (pos m, h)) (sym numbered)
          (track-chain legacy r.hash (suc n) rs h m rest range))

  -- If the receipts that a restart loads pass `Verify`, with fewer of them than `int64` counts,
  -- then the restarted service is at the end of their chain.
  pub new-Sound :
      (entries : List Entry)
      → (verify codec (new codec entries)).ok ≡ true
      → suc (verify codec (new codec entries)).chained_checked < limit
      → Sound codec (new codec entries)
  unfolding new rebuild_chain_state verify conclude
  new-Sound entries passes range =
      let loaded = load_from_disk codec entries [] in
      let l = in_order (values loaded) in
      let legacy = legacy_of (values loaded) in
      elim (Result-cases (check_chain codec (length legacy) genesis (pos 1) 0 l)) [
        | inl (r, f) ↦
            absurd
              (ground (arith, f, check_chain-err codec (length legacy) genesis (pos 1) 0 l r f))
        | inr ((head, m), f) ↦
            let (hash, count) = check_legacy-chain codec head m 0 legacy in
            let reported : verify codec (new codec entries) ≡ check_legacy codec head m 0 legacy =
              rw f in
            let room : suc m < limit = ground (arith, reported, count) in
            let tracked = track-chain (length legacy) genesis 0 l head m f room in
            record {
              passes = passes;
              at_hash = ap (λ k. k.last_hash) reported ∙ hash ∙ sym (ap (λ p. p.1) tracked);
              at_seq =
                  ap (λ k. pos k.chained_checked) reported
                  ∙ ap pos count
                  ∙ sym (ap (λ p. p.0) tracked);
            }
      ]
