-- ===== src/Progress/Eviction.antt =====
-- What `evictIfNeededLocked` removes: terminal tasks only, the oldest first, until the registry fits.
use cann_o_call.Prelude.{
  ℕ, zero, suc, ◌+◌, ◌≤◌, ◌≡◌, ◌≢◌, refl, sym, ap, ◌∙◌, subst, String, true, List, [], ◌∷◌, none,
  some, ◌==◌, if◌then◌else◌, inl, inr, Bool-cases, Option-cases, arith, length, eq→path, ne→false,
  eq_refl, All,
}
use cann_o_call.Prelude.Assoc.{find, remove, has}
use cann_o_call.Prelude.Maps.{
  keys, IsDistinct, find-remove_other, find-remove-some, length-remove, false→ne, has-keys,
  keys-has,
}
use cann_o_call.Prelude.Sort.{sort, insert, IsOrder, IsSorted, Lacks, insert-IsSorted}
use cann_o_call.Prelude.Text.{str_lt-IsOrder}
use cann_o_call.Progress.{Task, is_terminal}
use cann_o_call.Progress.Cases.{evict-some}
use cann_o_call.Progress.Registry.{Entry, older, terminals, evict}

older-IsOrder : IsOrder older
unfolding older
older-IsOrder = record {
  trans = λ (i, t) (j, u) (k, v) h g. ground (arith, h, g, str_lt-IsOrder.trans i j k);
  asym = λ (i, t) (j, u) h. ground (arith, h, str_lt-IsOrder.asym i j);
  total = λ (i, t) (j, u) h g. ground (arith, h, g, str_lt-IsOrder.total i j);
}

abbrev pub by_age : List Entry → List Entry
by_age = sort older (λ e. e)

-- The entries of the terminal tasks, seen as a map.
pub terminals-absent :
    (k : String) (m : List (String × Task)) → find k m ≡ none → find k (terminals m) ≡ none
unfolding find terminals
terminals-absent k [] h = refl
terminals-absent k ((j, t) ∷ m) h = ground (arith, h, terminals-absent k m)

pub find-terminals :
    (k : String) (m : List (String × Task)) (t : Task)
    → IsDistinct (keys m)
    → find k m ≡ some t
    → find k (terminals m)
      ≡ (if is_terminal t.packet.status then some t.packet.updated_at else none)
unfolding find terminals keys
find-terminals k [] t d h = absurd (ground (arith, h))
find-terminals k ((j, u) ∷ m) t d h = elim (Bool-cases (k == j)) [
  | inl e ↦
      let same : u ≡ t = ground (arith, e, h) in
      let gone =
        terminals-absent k m
          (subst (λ i. find i m ≡ none) (sym (eq→path k j e)) (keys-has j m d.0)) in
      ground (
        arith,
        e,
        gone,
        ap (λ x. x.packet.updated_at) same,
        ap (λ x. is_terminal x.packet.status) same,
      )
  | inr e ↦ let rest = find-terminals k m t d.1 (ground (arith, e, h)) in ground (arith, e, rest)
]

pub terminals-IsDistinct :
    (m : List (String × Task)) → IsDistinct (keys m) → IsDistinct (keys (terminals m))
unfolding terminals keys
terminals-IsDistinct [] d = tt
terminals-IsDistinct ((j, u) ∷ m) d = elim (Bool-cases (is_terminal u.packet.status)) [
  | inl e ↦ rw e (
    has-keys j (terminals m) (terminals-absent j m (keys-has j m d.0)),
    terminals-IsDistinct m d.1,
  )
  | inr e ↦ rw e (terminals-IsDistinct m d.1)
]

find-insert :
    (k j : String) (t : ℕ) (l : List Entry)
    → find j l ≡ none
    → find k (insert older (λ e. e) (j, t) l) ≡ find k ((j, t) ∷ l)
unfolding find insert
find-insert k j t [] h = refl
find-insert k j t ((i, u) ∷ l) h =
    ground (arith, h, find-insert k j t l, eq→path k j, eq→path k i, eq_refl j, ◌==◌)

pub find-by_age : (k : String) (l : List Entry) → IsDistinct (keys l) → find k (by_age l) ≡ find k l
unfolding find sort keys
find-by_age k [] d = refl
find-by_age k ((j, t) ∷ l) d =
    find-insert k j t (by_age l) (find-by_age j l d.1 ∙ keys-has j l d.0)
    ∙ ground (arith, find-by_age k l d.1)

insert-IsDistinct :
    (j : String) (t : ℕ) (l : List Entry)
    → find j l ≡ none
    → IsDistinct (keys l)
    → IsDistinct (keys (insert older (λ e. e) (j, t) l))
unfolding find insert keys has
insert-IsDistinct j t [] h d = (refl, tt)
insert-IsDistinct j t ((i, u) ∷ l) h d =
    let absent : find j l ≡ none = ground (arith, h) in
    let apart : find i ((j, t) ∷ l) ≡ none =
      ground (arith, h, d.0, keys-has i l d.0, eq→path i j, eq_refl j) in
    elim (Bool-cases (older (j, t) (i, u))) [
      | inl e ↦ rw e (has-keys j ((i, u) ∷ l) h, d)
      | inr e ↦ rw e (
        has-keys i (insert older (λ e. e) (j, t) l) (find-insert i j t l absent ∙ apart),
        insert-IsDistinct j t l absent d.1,
      )
    ]

pub by_age-IsDistinct : (l : List Entry) → IsDistinct (keys l) → IsDistinct (keys (by_age l))
unfolding sort keys
by_age-IsDistinct [] d = tt
by_age-IsDistinct ((j, t) ∷ l) d =
    insert-IsDistinct j t (by_age l) (find-by_age j l d.1 ∙ keys-has j l d.0)
      (by_age-IsDistinct l d.1)

absent-Lacks :
    (j : String) (t : ℕ) (l : List Entry) → find j l ≡ none → Lacks older (λ e. e) (j, t) l
unfolding find
absent-Lacks j t [] h = tt
absent-Lacks j t ((i, u) ∷ l) h =
    (λ e. ground (arith, h, eq_refl j, ap (λ p. p.0) e), absent-Lacks j t l (ground (arith, h)))

pub by_age-IsSorted : (l : List Entry) → IsDistinct (keys l) → IsSorted older (λ e. e) (by_age l)
unfolding sort keys
by_age-IsSorted [] d = tt
by_age-IsSorted ((j, t) ∷ l) d =
    insert-IsSorted older-IsOrder (λ e. e) (j, t) (by_age l)
      (absent-Lacks j t (by_age l) (find-by_age j l d.1 ∙ keys-has j l d.0)) (by_age-IsSorted l d.1)

find-All :
    (P : Entry → Type 0) (l : List Entry) (k : String) (t : ℕ)
    → All P l
    → find k l ≡ some t
    → P (k, t)
unfolding find
find-All P [] k t a h = absurd (ground (arith, h))
find-All P ((j, u) ∷ l) k t a h = elim (Bool-cases (k == j)) [
  | inl e ↦
      let same : (j, u) ≡ (k, t) = ground (arith, e, h, sym (eq→path k j e)) in subst P same a.0
  | inr e ↦ find-All P l k t a.1 (ground (arith, e, h))
]

-- All of `es` that are stored go, one by one.
pub evict-length :
    (n : ℕ) (es : List Entry) (m : List (String × Task))
    → IsDistinct (keys es)
    → ((k : String) (t : ℕ) → find k es ≡ some t → find k m ≢ none)
    → n ≤ length es
    → length (evict n es m) + n ≤ length m
unfolding evict find keys
evict-length zero es m d present h = omega arith
evict-length (suc n) [] m d present h = absurd (omega (arith, h))
evict-length (suc n) ((k, u) ∷ es) m d present h = elim (Option-cases (find k m)) [
  | inl e ↦ absurd (present k u (ground (arith, eq_refl k)) e)
  | inr (x, e) ↦
      let rest =
        evict-length n es (remove k m) d.1
          (λ j t g c.
            let other : j ≢ k = λ q. ground (arith, g, keys-has k es d.0, ap (λ i. find i es) q) in
            present j t (ground (arith, g, ne→false j k other))
              (sym (find-remove_other j k m other) ∙ c))
          (omega (arith, h)) in
      omega (arith, rest, length-remove k x m e)
]

pub evict-all :
    (n : ℕ) (es : List Entry) (m : List (String × Task)) (k : String) (t : Task)
    → length es ≤ n
    → find k (evict n es m) ≡ some t
    → find k es ≡ none
unfolding evict find
evict-all n [] m k t h g = refl
evict-all zero (e ∷ es) m k t h g = absurd (omega (arith, h))
evict-all (suc n) ((j, u) ∷ es) m k t h g =
    let (other, kept) = find-remove-some k j t m (evict-some n es (remove j m) k t g) in
    ground (arith, ne→false k j other, evict-all n es (remove j m) k t (omega (arith, h)) g)

pub evict-kept :
    (n : ℕ) (es : List Entry) (m : List (String × Task)) (k : String)
    → find k es ≡ none
    → find k (evict n es m) ≡ find k m
unfolding evict find
evict-kept zero es m k h = refl
evict-kept (suc n) [] m k h = refl
evict-kept (suc n) ((j, u) ∷ es) m k h =
    let other : k ≢ j = λ q. ground (arith, h, eq_refl j, ap (λ i. (i == j)) q) in
    evict-kept n es (remove j m) k (ground (arith, h)) ∙ find-remove_other k j m other

-- Of a sorted list, what goes lies before what stays.
pub evict-older :
    (n : ℕ) (es : List Entry) (m : List (String × Task)) (k j : String) (a b : ℕ) (t u : Task)
    → IsSorted older (λ e. e) es
    → find k es ≡ some a
    → find j es ≡ some b
    → find k m ≡ some t
    → find k (evict n es m) ≡ none
    → find j (evict n es m) ≡ some u
    → older (k, a) (j, b) ≡ true
unfolding evict find
evict-older zero es m k j a b t u s x y f gone kept = absurd (ground (arith, f, gone))
evict-older (suc n) [] m k j a b t u s x y f gone kept = absurd (ground (arith, f, gone))
evict-older (suc n) ((i, c) ∷ es) m k j a b t u s x y f gone kept =
    let other = (find-remove-some j i u m (evict-some n es (remove i m) j u kept)).0 in
    let later : find j es ≡ some b = ground (arith, y, ne→false j i other) in
    elim (Bool-cases (k == i)) [
      | inl e ↦
          let same : (i, c) ≡ (k, a) = ground (arith, e, x, sym (eq→path k i e)) in
          subst (λ q. older q (j, b) ≡ true) same
            (find-All (λ q. older (i, c) q ≡ true) es j b s.0 later)
      | inr e ↦
          evict-older n es (remove i m) k j a b t u s.1 (ground (arith, x, e)) later
            (find-remove_other k i m (false→ne k i e) ∙ f) gone kept
    ]
