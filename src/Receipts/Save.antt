-- ===== src/Receipts/Save.antt =====
-- internal/receipts/receipts.go: `Save`, and what `Verify` finds after it.
use cann_o_call.Prelude.{
  ℕ, suc, ◌<◌, ◌≡◌, ◌≢◌, refl, sym, ap, ◌∙◌, subst, String, true, false, List, [], ◌∷◌, none, some,
  ◌==◌, length, arith, inl, inr, Bool-cases, Option-cases, eq_iff, eq_refl,
}
use cann_o_call.Prelude.Assoc.{find, put, remove}
use cann_o_call.Prelude.Int64.{ℤ, pos, inc, limit, inc-pos, int_eq_iff}
use cann_o_call.Prelude.Result.{ok, err, Result-cases}
use cann_o_call.Prelude.Sort.{sort, insert}
use cann_o_call.Receipts.{
  Receipt, Service, Codec, World, SaveError, id_required, genesis, values, is_chained, chained_of,
  legacy_of, place, before, in_order, hash_receipt, with_defaults, take_number, write_receipt, keep,
  finish, number_and_write, save, failure, check_link, next_link, check_chain, check_legacy,
  conclude, verify,
}
use cann_o_call.Receipts.Chain.{
  Walked, Sound, chain_of, check_chain-snoc, check_chain-Below, check_link-seq, check_legacy-ok,
  insert-last, Below-before, Sound-Walked, Walked-Sound,
}

remove-absent {ℓ} :
    {A : Type ℓ} (k : String) (m : List (String × A)) → find k m ≡ none → remove k m ≡ m
unfolding find remove
remove-absent k [] h = refl
remove-absent k ((j, x) ∷ m) h = elim (Bool-cases (k == j)) [
  | inl e ↦ absurd (ground (arith, e))
  | inr e ↦ rw e (ap (λ l. (j, x) ∷ l) (remove-absent k m (ground (arith, e))))
]

module _ (codec : Codec) where
  kept : Service → Receipt → ℕ → Service
  kept s x m = record { receipts = (x.id, x) ∷ s.receipts; last_hash = x.hash; seq = pos (suc m) }

  keep-new :
      (s : Service) (x : Receipt) (m : ℕ)
      → find x.id s.receipts ≡ none
      → x.seq ≡ pos (suc m)
      → keep codec (record s { seq = pos (suc m) }) x ≡ kept s x m
  unfolding keep kept put
  keep-new s x m fresh numbered = ground (arith, numbered, remove-absent x.id s.receipts fresh)

  check_link-ok :
      (prev : String) (e : ℤ) (x : Receipt)
      → x.seq ≡ e
      → x.prev_hash ≡ prev
      → hash_receipt codec x ≡ some x.hash
      → check_link codec prev e x ≡ ok tt
  unfolding check_link
  check_link-ok prev e x numbered linked hashed =
      rw (
        (int_eq_iff x.seq e).1 numbered,
        (eq_iff x.prev_hash prev).1 linked,
        hashed,
        eq_refl x.hash,
      )

  -- A chained receipt goes in front of the list of values, and into the order where it belongs.
  chain_of-kept :
      (s : Service) (x : Receipt) (m : ℕ)
      → is_chained x ≡ true
      → chain_of codec (kept s x m)
        ≡ check_chain codec
            (length (legacy_of (values s.receipts)))
            genesis
            (pos 1)
            0
            (insert before place x (in_order (values s.receipts)))
  unfolding kept values in_order sort chained_of legacy_of
  chain_of-kept s x m c = rw c refl

  legacy_of-kept :
      (s : Service) (x : Receipt) (m : ℕ)
      → is_chained x ≡ true
      → legacy_of (values (kept s x m).receipts) ≡ legacy_of (values s.receipts)
  unfolding kept values legacy_of
  legacy_of-kept s x m c = rw c refl

  chained-pos : (x : Receipt) (m : ℕ) → x.seq ≡ pos (suc m) → is_chained x ≡ true
  unfolding is_chained
  chained-pos x m e = ground (arith, e)

  kept-Walked :
      (s : Service) (x : Receipt) (w : Walked codec s)
      → suc w.steps < limit
      → x.seq ≡ pos (suc w.steps)
      → x.prev_hash ≡ s.last_hash
      → hash_receipt codec x ≡ some x.hash
      → Walked codec (kept s x w.steps)
  unfolding check_chain next_link kept
  kept-Walked s x w range numbered linked hashed =
      let l = in_order (values s.receipts) in
      let n = length (legacy_of (values s.receipts)) in
      let c = chained-pos x w.steps numbered in
      let below = check_chain-Below codec n genesis 0 l s.last_hash w.steps w.walked range in
      let last =
        insert-last x l (Below-before w.steps (suc w.steps) x l (omega arith) numbered below) in
      let longer = check_chain-snoc codec n genesis 0 l x s.last_hash w.steps w.walked range in
      let link = check_link-ok s.last_hash (pos (suc w.steps)) x numbered linked hashed in
      record {
        steps = suc w.steps;
        walked =
            chain_of-kept s x w.steps c
            ∙ ap (check_chain codec n genesis (pos 1) 0) last
            ∙ longer
            ∙ rw link refl;
        counted = refl;
        rest_ok =
            ap (λ k. (check_legacy codec x.hash (suc w.steps) 0 k).ok)
              (legacy_of-kept s x w.steps c)
            ∙ check_legacy-ok codec x.hash s.last_hash (suc w.steps) w.steps 0
                (legacy_of (values s.receipts))
            ∙ w.rest_ok;
      }

  -- What a receipt that `save` returns has become.
  record Saved (w : World) (s : Service) (r x : Receipt) : Type 0 where
    numbered : x.seq ≡ inc s.seq
    linked : x.prev_hash ≡ s.last_hash
    hashed : hash_receipt codec x ≡ some x.hash
    same_id : x.id ≡ r.id
    state : (save codec w s r).0 ≡ keep codec (record s { seq = inc s.seq }) x

  write_receipt-ok :
      (w : World) (r x : Receipt)
      → write_receipt codec w r ≡ ok x
      → (x.seq ≡ r.seq)
        × (x.prev_hash ≡ r.prev_hash)
        × (x.id ≡ r.id)
        × (hash_receipt codec x ≡ some x.hash)
  unfolding write_receipt hash_receipt
  write_receipt-ok w r x h = elim (Option-cases (hash_receipt codec r)) [
    | inl f ↦ absurd (ground (arith, f))
    | inr (hash, f) ↦
        let same : record r { hash = hash } ≡ x = ground (arith, f) in
        subst
          (λ y.
            (y.seq ≡ r.seq)
            × (y.prev_hash ≡ r.prev_hash)
            × (y.id ≡ r.id)
            × (hash_receipt codec y ≡ some y.hash))
          same (refl, refl, refl, f)
  ]

  save-Saved :
      (w : World) (s : Service) (r x : Receipt)
      → r.seq ≡ pos 0
      → (save codec w s r).1 ≡ ok x
      → Saved w s r x
  unfolding save number_and_write finish take_number with_defaults
  save-Saved w s r x zero_seq h = elim (Bool-cases (r.id == "")) [
    | inl e ↦ absurd (ground (arith, e))
    | inr e ↦
        let d = with_defaults codec w.now r in
        let numbered = record d { seq = inc s.seq; prev_hash = s.last_hash } in
        elim (Result-cases (write_receipt codec w numbered)) [
          | inl (y, f) ↦ absurd (ground (arith, e, f, zero_seq))
          | inr (y, f) ↦
              let same : y ≡ x = ground (arith, e, f, zero_seq) in
              let (seq, prev, id, hash) = write_receipt-ok w numbered x (f ∙ ap ok same) in
              record {
                numbered = seq;
                linked = prev;
                hashed = hash;
                same_id = id;
                state = rw (e, zero_seq, f, same) refl;
              }
        ]
  ]

  -- If `Verify` passes and the service is at the end of the chain that it walked, whose length is
  -- below the end of `int64`, then saving a receipt without a number and under a new id, where it
  -- succeeds, keeps this.
  pub save-Sound :
      (w : World) (s : Service) (r x : Receipt)
      → Sound codec s
      → suc (verify codec s).chained_checked < limit
      → r.seq ≡ pos 0
      → find r.id s.receipts ≡ none
      → (save codec w s r).1 ≡ ok x
      → Sound codec (save codec w s r).0
  save-Sound w s r x sound range zero_seq fresh h =
      let walk = Sound-Walked codec s sound in
      let m = walk.steps in
      let z = save-Saved w s r x zero_seq h in
      let counted : pos (verify codec s).chained_checked ≡ pos m = sound.at_seq ∙ walk.counted in
      let room : suc m < limit = ground (arith, counted) in
      let raised : inc s.seq ≡ pos (suc m) = ap inc walk.counted ∙ inc-pos m room in
      let absent : find x.id s.receipts ≡ none =
        subst (λ k. find k s.receipts ≡ none) (sym z.same_id) fresh in
      let numbered = z.numbered ∙ raised in
      let state =
        z.state
        ∙ ap (λ n. keep codec (record s { seq = n }) x) raised
        ∙ keep-new s x m absent numbered in
      subst (Sound codec) (sym state)
        (Walked-Sound codec (kept s x m) (kept-Walked s x walk room numbered z.linked z.hashed))

  -- A save that fails after its number was taken leaves the number taken.
  save-failed :
      (w : World) (s : Service) (r : Receipt) (e : SaveError)
      → r.seq ≡ pos 0
      → (save codec w s r).1 ≡ err e
      → e ≢ id_required
      → (save codec w s r).0 ≡ record s { seq = inc s.seq }
  unfolding save number_and_write finish take_number with_defaults
  save-failed w s r e zero_seq h late = elim (Bool-cases (r.id == "")) [
    | inl f ↦ absurd (late (ground (arith, f)))
    | inr f ↦
        let d = with_defaults codec w.now r in
        let numbered = record d { seq = inc s.seq; prev_hash = s.last_hash } in
        elim (Result-cases (write_receipt codec w numbered)) [
          | inl (y, g) ↦ rw (f, zero_seq, g) refl
          | inr (y, g) ↦ absurd (ground (arith, f, g, zero_seq))
        ]
  ]

  kept-Gap :
      (s : Service) (x : Receipt) (w : Walked codec s)
      → suc w.steps < limit
      → x.seq ≡ pos (suc (suc w.steps))
      → (verify codec (kept s x (suc w.steps))).ok ≡ false
  unfolding verify conclude check_chain next_link failure kept
  kept-Gap s x w range numbered =
      let l = in_order (values s.receipts) in
      let n = length (legacy_of (values s.receipts)) in
      let m = w.steps in
      let c = chained-pos x (suc m) numbered in
      let below = check_chain-Below codec n genesis 0 l s.last_hash m w.walked range in
      let last = insert-last x l (Below-before m (suc (suc m)) x l (omega arith) numbered below) in
      let longer = check_chain-snoc codec n genesis 0 l x s.last_hash m w.walked range in
      let walked =
        chain_of-kept s x (suc m) c ∙ ap (check_chain codec n genesis (pos 1) 0) last ∙ longer in
      elim (Result-cases (check_link codec s.last_hash (pos (suc m)) x)) [
        | inl (y, f) ↦ rw (walked, f) refl
        | inr (u, f) ↦
            let placed = check_link-seq codec s.last_hash (pos (suc m)) x f in
            absurd (ground (arith, numbered, placed))
      ]

  -- If `Verify` passes and the service is at the end of the chain that it walked, whose length is
  -- below the end of `int64`, and a save of a receipt without a number fails for another reason
  -- than a missing id, then after the next save of such a receipt that succeeds, under a new id,
  -- `Verify` fails: a number is missing.
  pub save-Gap :
      (w v : World) (s : Service) (r q x : Receipt) (e : SaveError)
      → Sound codec s
      → suc (suc (verify codec s).chained_checked) < limit
      → r.seq ≡ pos 0
      → (save codec w s r).1 ≡ err e
      → e ≢ id_required
      → q.seq ≡ pos 0
      → find q.id s.receipts ≡ none
      → (save codec v (save codec w s r).0 q).1 ≡ ok x
      → (verify codec (save codec v (save codec w s r).0 q).0).ok ≡ false
  save-Gap w v s r q x e sound range zero_seq h late zero_q fresh saved =
      let walk = Sound-Walked codec s sound in
      let m = walk.steps in
      let t : Service = record s { seq = inc s.seq } in
      let left : (save codec w s r).0 ≡ t = save-failed w s r e zero_seq h late in
      let z = save-Saved v t q x zero_q (subst (λ k. (save codec v k q).1 ≡ ok x) left saved) in
      let counted : pos (verify codec s).chained_checked ≡ pos m = sound.at_seq ∙ walk.counted in
      let room : suc (suc m) < limit = ground (arith, counted) in
      let raised : inc (inc s.seq) ≡ pos (suc (suc m)) =
        ap (λ n. inc (inc n)) walk.counted
        ∙ ap inc (inc-pos m (omega arith))
        ∙ inc-pos (suc m) room in
      let absent : find x.id s.receipts ≡ none =
        subst (λ k. find k s.receipts ≡ none) (sym z.same_id) fresh in
      let numbered = z.numbered ∙ raised in
      let state =
        ap (λ k. (save codec v k q).0) left
        ∙ z.state
        ∙ ap (λ n. keep codec (record s { seq = n }) x) raised
        ∙ keep-new s x (suc m) absent numbered in
      ap (λ k. (verify codec k).ok) state ∙ kept-Gap s x walk (omega arith) numbered
