-- ===== src/Receipts/Chain.antt =====
-- internal/receipts/receipts.go: `Save` and `Verify`.
use cann_o_call.Prelude.{
  ℕ, suc, ◌+◌, ◌<◌, ◌≡◌, refl, sym, ap, ◌∙◌, subst, String, true, false, List, [], ◌∷◌, ◌++◌, All,
  length, arith, inl, inr,
}
use cann_o_call.Prelude.Int64.{ℤ, pos, negsuc, ◌==ℤ◌, ltb_ℤ, inc, limit, inc-pos, int_eq_iff}
use cann_o_call.Prelude.Result.{Result, ok, err, Result-cases}
use cann_o_call.Prelude.Sort.{insert}
use cann_o_call.Receipts.{
  Receipt, Service, Codec, genesis, values, legacy_of, place, before, in_order, Report, failure,
  check_link, next_link, check_chain, check_self, next_legacy, check_legacy, conclude, verify,
}

module _ (codec : Codec) where
  check_chain-cons :
      (legacy : ℕ) (prev : String) (e : ℤ) (n : ℕ) (r : Receipt) (rs : List Receipt) (h : String)
      (m : ℕ)
      → check_chain codec legacy prev e n (r ∷ rs) ≡ ok (h, m)
      → (check_link codec prev e r ≡ ok tt)
        × (check_chain codec legacy r.hash (inc e) (suc n) rs ≡ ok (h, m))
  unfolding check_chain next_link
  check_chain-cons legacy prev e n r rs h m q = elim (Result-cases (check_link codec prev e r)) [
    | inl (x, f) ↦ absurd (ground (arith, f))
    | inr (u, f) ↦ (f, ground (arith, f))
  ]

  -- Where the walk along the chain succeeds it has counted every receipt.
  check_chain-length :
      (legacy : ℕ) (prev : String) (e : ℤ) (n : ℕ) (l : List Receipt) (h : String) (m : ℕ)
      → check_chain codec legacy prev e n l ≡ ok (h, m)
      → m ≡ n + length l
  unfolding check_chain
  check_chain-length legacy prev e n [] h m q = ground (arith)
  check_chain-length legacy prev e n (r ∷ rs) h m q =
      let (_, rest) = check_chain-cons legacy prev e n r rs h m q in
      omega (arith, check_chain-length legacy r.hash (inc e) (suc n) rs h m rest)

  -- The same, with the number that the next receipt is to have.
  pub check_chain-next :
      (legacy : ℕ) (prev : String) (n : ℕ) (r : Receipt) (rs : List Receipt) (h : String) (m : ℕ)
      → check_chain codec legacy prev (pos (suc n)) n (r ∷ rs) ≡ ok (h, m)
      → suc m < limit
      → (check_link codec prev (pos (suc n)) r ≡ ok tt)
        × (check_chain codec legacy r.hash (pos (suc (suc n))) (suc n) rs ≡ ok (h, m))
        × (n < m)
  check_chain-next legacy prev n r rs h m q range =
      let (link, rest) = check_chain-cons legacy prev (pos (suc n)) n r rs h m q in
      let counted = check_chain-length legacy prev (pos (suc n)) n (r ∷ rs) h m q in
      let below : n < m = omega (arith, counted) in
      (
        link,
        subst (λ e. check_chain codec legacy r.hash e (suc n) rs ≡ ok (h, m))
            (inc-pos (suc n) (omega arith)) rest,
        below,
      )

  -- No receipt of the chain has a number above `m`.
  abbrev pub Below : ℕ → Receipt → Type 0
  Below m r = ltb_ℤ (pos m) r.seq ≡ false

  pub check_link-seq :
      (prev : String) (e : ℤ) (r : Receipt) → check_link codec prev e r ≡ ok tt → r.seq ≡ e
  unfolding check_link
  check_link-seq prev e r h = ground (arith, int_eq_iff r.seq e)

  pub check_chain-Below :
      (legacy : ℕ) (prev : String) (n : ℕ) (l : List Receipt) (h : String) (m : ℕ)
      → check_chain codec legacy prev (pos (suc n)) n l ≡ ok (h, m)
      → suc m < limit
      → All (Below m) l
  check_chain-Below legacy prev n [] h m q range = tt
  check_chain-Below legacy prev n (r ∷ rs) h m q range =
      let (link, rest, below) = check_chain-next legacy prev n r rs h m q range in
      (
        ground (arith, check_link-seq prev (pos (suc n)) r link),
        check_chain-Below legacy r.hash (suc n) rs h m rest range,
      )

  -- One more receipt at the end of the chain.
  pub check_chain-snoc :
      (legacy : ℕ) (prev : String) (n : ℕ) (l : List Receipt) (x : Receipt) (h : String) (m : ℕ)
      → check_chain codec legacy prev (pos (suc n)) n l ≡ ok (h, m)
      → suc m < limit
      → check_chain codec legacy prev (pos (suc n)) n (l ++ x ∷ [])
        ≡ check_chain codec legacy h (pos (suc m)) m (x ∷ [])
  unfolding check_chain next_link
  check_chain-snoc legacy prev n [] x h m q range =
      let same_hash : prev ≡ h = ground arith in
      let same_count : n ≡ m = ground arith in rw (same_hash, same_count)
  check_chain-snoc legacy prev n (r ∷ rs) x h m q range =
      let (link, rest, below) = check_chain-next legacy prev n r rs h m q range in
      rw (link, inc-pos (suc n) (omega arith))
        (check_chain-snoc legacy r.hash (suc n) rs x h m rest range)

-- An element that comes before nothing in the list goes in at its end.
pub insert-last :
    (x : Receipt) (l : List Receipt)
    → All (λ y. before (place x) (place y) ≡ false) l
    → insert before place x l ≡ l ++ x ∷ []
unfolding insert
insert-last x [] a = refl
insert-last x (y ∷ l) a = rw (a.0) (ap (λ t. y ∷ t) (insert-last x l a.1))

beyond :
    (m n : ℕ) (z : ℤ)
    → m < n
    → ltb_ℤ (pos m) z ≡ false
    → ((pos n ==ℤ z) ≡ false) × (ltb_ℤ (pos n) z ≡ false)
beyond m n (pos k) lt h = ground arith
beyond m n (negsuc k) lt h = ground arith

pub Below-before :
    (m n : ℕ) (x : Receipt) (l : List Receipt)
    → m < n
    → x.seq ≡ pos n
    → All (λ y. ltb_ℤ (pos m) y.seq ≡ false) l
    → All (λ y. before (place x) (place y) ≡ false) l
unfolding before place
Below-before m n x [] lt e a = tt
Below-before m n x (y ∷ l) lt e a =
    let (other, less) = beyond m n y.seq lt a.0 in
    (rw (e, other) less, Below-before m n x l lt e a.1)

module _ (codec : Codec) where
  pub check_chain-err :
      (legacy : ℕ) (prev : String) (e : ℤ) (n : ℕ) (l : List Receipt) (r : Report)
      → check_chain codec legacy prev e n l ≡ err r
      → r.ok ≡ false
  unfolding check_chain next_link failure
  check_chain-err legacy prev e n [] r q = cc
  check_chain-err legacy prev e n (x ∷ xs) r q = elim (Result-cases (check_link codec prev e x)) [
    | inl (y, f) ↦ ground (arith, f)
    | inr (u, f) ↦ check_chain-err legacy x.hash (inc e) (suc n) xs r (ground (arith, f))
  ]

  -- The walk over the receipts without a number does not touch what the chain gave, and its outcome
  -- does not depend on it.
  pub check_legacy-chain :
      (prev : String) (c k : ℕ) (l : List Receipt)
      → ((check_legacy codec prev c k l).last_hash ≡ prev)
        × ((check_legacy codec prev c k l).chained_checked ≡ c)
  unfolding check_legacy next_legacy failure
  check_legacy-chain prev c k [] = (refl, refl)
  check_legacy-chain prev c k (x ∷ xs) = elim (Result-cases (check_self codec x)) [
    | inl (y, f) ↦ rw f (refl, refl)
    | inr (u, f) ↦ rw f (check_legacy-chain prev c (suc k) xs)
  ]

  pub check_legacy-ok :
      (p q : String) (c d k : ℕ) (l : List Receipt)
      → (check_legacy codec p c k l).ok ≡ (check_legacy codec q d k l).ok
  unfolding check_legacy next_legacy failure
  check_legacy-ok p q c d k [] = refl
  check_legacy-ok p q c d k (x ∷ xs) = elim (Result-cases (check_self codec x)) [
    | inl (y, f) ↦ rw f
    | inr (u, f) ↦ rw f (check_legacy-ok p q c d (suc k) xs)
  ]

  -- `Verify` passes, and the service is at the end of the chain that it walked.
  pub record Sound (s : Service) : Type 0 where
    pub passes : (verify codec s).ok ≡ true
    pub at_hash : (verify codec s).last_hash ≡ s.last_hash
    pub at_seq : pos (verify codec s).chained_checked ≡ s.seq

  abbrev pub chain_of : Service → Result Report (String × ℕ)
  chain_of s =
      check_chain codec (length (legacy_of (values s.receipts))) genesis (pos 1) 0
        (in_order (values s.receipts))

  -- The same, in terms of the two walks.
  pub record Walked (s : Service) : Type 0 where
    pub steps : ℕ
    pub walked : chain_of s ≡ ok (s.last_hash, steps)
    pub counted : s.seq ≡ pos steps
    pub rest_ok : (check_legacy codec s.last_hash steps 0 (legacy_of (values s.receipts))).ok ≡ true

  pub Sound-Walked : (s : Service) → Sound s → Walked s
  unfolding verify conclude
  Sound-Walked s h = elim (Result-cases (chain_of s)) [
    | inl (r, f) ↦ absurd (
        ground (
          arith,
          f,
          h.passes,
          check_chain-err (length (legacy_of (values s.receipts))) genesis (pos 1) 0
              (in_order (values s.receipts)) r f,
        ))
    | inr (p, f) ↦
        let (head, steps) = p in
        let l = legacy_of (values s.receipts) in
        let reported : verify codec s ≡ check_legacy codec head steps 0 l = rw f in
        let (hash, count) = check_legacy-chain head steps 0 l in
        let same : head ≡ s.last_hash =
          sym hash ∙ sym (ap (λ r. r.last_hash) reported) ∙ h.at_hash in
        record {
          steps = steps;
          walked = f ∙ ap (λ t. ok (t, steps)) same;
          counted = sym h.at_seq ∙ ap (λ r. pos r.chained_checked) reported ∙ ap pos count;
          rest_ok =
              check_legacy-ok s.last_hash head steps steps 0 l
              ∙ sym (ap (λ r. r.ok) reported)
              ∙ h.passes;
        }
  ]

  pub Walked-Sound : (s : Service) → Walked s → Sound s
  unfolding verify conclude
  Walked-Sound s h =
      let (hash, count) =
        check_legacy-chain s.last_hash h.steps 0 (legacy_of (values s.receipts)) in
      record {
        passes = rw (h.walked) (h.rest_ok);
        at_hash = rw (h.walked) hash;
        at_seq = rw (h.walked) (ap pos count ∙ sym h.counted);
      }
