-- ===== src/Workspace/Parents.antt =====
-- The set of directories that `RecalcCounts` gathers.
use Prim.Native.String.{len}
use mathlib.Core.List.{Permᴰ}
use cann_o_call.Prelude.{
  ℕ, zero, suc, ◌<◌, ◌≡◌, ◌≢◌, refl, sym, ◌∙◌, subst, ◌⊎◌, inl, inr, String, true, false, List, [],
  ◌∷◌, All, ◌==◌, arith, eq_iff, eq_refl, Bool-cases, eq→path,
}
use cann_o_call.Prelude.Text.{str_lt, str_lt-IsOrder}
use cann_o_call.Prelude.Sort.{IsSorted, sort, insert-IsSorted}
use cann_o_call.Prelude.Sort.Permute.{All-Perm, Perm-sort}
use cann_o_call.Prelude.Assoc.{has}
use cann_o_call.Prelude.Maps.{IsDistinct}
use cann_o_call.Prelude.Result.{Result-cases}
use cann_o_call.Workspace.{
  Lib, File, is_root, mark, is_safe_path, add_parents, file_parents, kept_directories,
}

-- `path.Dir` returns a shorter path, but for `.` and `/`.
abbrev pub DirShortens : Lib → Type 0
DirShortens lib = (p : String) → is_root (lib.dir p) ≡ false → len (lib.dir p) < len p

has-mark : (j k : String) (ks : List String) → has j ks ≡ true → has j (mark k ks) ≡ true
unfolding has mark
has-mark j k ks h = ground (arith, h)

has-mark_self : (k : String) (ks : List String) → has k (mark k ks) ≡ true
unfolding has mark
has-mark_self k ks = ground (arith, eq_refl k)

mark-has :
    (j k : String) (ks : List String) → has j (mark k ks) ≡ true → (j ≡ k) ⊎ (has j ks ≡ true)
unfolding has mark
mark-has j k ks h = elim (Bool-cases (j == k)) [
  | inl e ↦ inl (eq→path j k e)
  | inr e ↦ inr (ground (arith, h, e))
]

mark-IsDistinct : (k : String) (ks : List String) → IsDistinct ks → IsDistinct (mark k ks)
unfolding mark
mark-IsDistinct k ks h = elim (Bool-cases (has k ks)) [
  | inl e ↦ rw (e, mark) h
  | inr e ↦ rw (e, mark) (e, h)
]

pub has-Perm : (k : String) {xs ys : List String} → Permᴰ xs ys → has k xs ≡ has k ys
unfolding has
has-Perm k Permᴰ.nil = refl
has-Perm k (Permᴰ.cons e d) = ground (arith, e, has-Perm k d)
has-Perm k (Permᴰ.swap e f) = ground (arith, e, f)
has-Perm k (Permᴰ.trans d e) = has-Perm k d ∙ has-Perm k e

has-Lacks : (k : String) (ks : List String) → has k ks ≡ false → All (λ j. k ≢ j) ks
unfolding has
has-Lacks k [] h = tt
has-Lacks k (j ∷ ks) h =
    ((λ e. ground (arith, h, (eq_iff k j).1 e)), has-Lacks k ks (ground (arith, h)))

pub sort-IsSorted :
    (l : List String) → IsDistinct l → IsSorted str_lt (λ d. d) (sort str_lt (λ d. d) l)
unfolding sort
sort-IsSorted [] h = tt
sort-IsSorted (x ∷ l) h =
    insert-IsSorted str_lt-IsOrder (λ d. d) x (sort str_lt (λ d. d) l)
      (All-Perm (λ j. x ≢ j) (Perm-sort str_lt (λ d. d) l) (has-Lacks x l h.0))
      (sort-IsSorted l h.1)

module _ (lib : Lib) (shorter : DirShortens lib) where
  -- The parent of a path is in the set, unless it is the root.
  abbrev pub HasParent : List String → String → Type 0
  HasParent ks p = is_root (lib.dir p) ≡ false → has (lib.dir p) ks ≡ true

  abbrev pub IsClosed : List String → Type 0
  IsClosed ks = (d : String) → has d ks ≡ true → HasParent ks d

  -- Closed but for one path.
  abbrev IsClosedBut : String → List String → Type 0
  IsClosedBut p ks = (d : String) → has d ks ≡ true → (d ≡ p) ⊎ HasParent ks d

  record Climbs (p : String) (before after : List String) : Type 0 where
    closed : IsClosed after
    parent : HasParent after p
    grows : (d : String) → has d before ≡ true → has d after ≡ true
    distinct : IsDistinct before → IsDistinct after

  add_parents-Climbs :
      (n : ℕ) (p : String) (ks : List String)
      → len p < n
      → IsClosedBut p ks
      → Climbs p ks (add_parents lib n p ks)
  unfolding add_parents
  add_parents-Climbs zero p ks l h = absurd (omega (arith, l))
  add_parents-Climbs (suc n) p ks l h = elim (Bool-cases (is_root (lib.dir p))) [
    | inl r ↦
        rw (r, add_parents)
          (record {
            closed = λ d k. elim (h d k) [
              | inl e ↦
                  λ f. absurd (ground (arith, r, f, subst (λ q. is_root (lib.dir q) ≡ false) e f))
              | inr g ↦ g
            ];
            parent = λ f. absurd (ground (arith, r, f));
            grows = λ d k. k;
            distinct = λ k. k;
          })
    | inr r ↦
        let up = lib.dir p in
        let next : IsClosedBut up (mark up ks) = λ d k. elim (mark-has d up ks k) [
          | inl e ↦ inl e
          | inr g ↦ elim (h d g) [
            | inl e ↦ inr (λ f.
                subst (λ q. has (lib.dir q) (mark up ks) ≡ true) (sym e) (has-mark_self up ks))
            | inr q ↦ inr (λ f. has-mark (lib.dir d) up ks (q f))
          ]
        ] in
        let rest = add_parents-Climbs n up (mark up ks) (omega (arith, l, shorter p r)) next in
        rw (r, add_parents)
          (record {
            closed = rest.closed;
            parent = λ f. rest.grows up (has-mark_self up ks);
            grows = λ d k. rest.grows d (has-mark d up ks k);
            distinct = λ k. rest.distinct (mark-IsDistinct up ks k);
          })
  ]

  -- A set that holds what another does, and is closed where that is.
  pub record Closes (before after : List String) : Type 0 where
    pub closed : IsClosed after
    pub distinct : IsDistinct after
    pub grows : (d : String) → has d before ≡ true → has d after ≡ true

  pub file_parents-Closes :
      (l : List (String × File)) (ks : List String)
      → IsClosed ks
      → IsDistinct ks
      → Closes ks (file_parents lib l ks)
        × All (λ (e : String × File). HasParent (file_parents lib l ks) e.0) l
  unfolding file_parents
  file_parents-Closes [] ks c i = (record { closed = c; distinct = i; grows = λ d h. h }, tt)
  file_parents-Closes ((p, f) ∷ l) ks c i =
      let here = add_parents-Climbs (suc (len p)) p ks (omega (arith)) (λ d h. inr (c d h)) in
      let rest = file_parents-Closes l _ here.closed (here.distinct i) in
      (
        record {
          closed = rest.0.closed;
          distinct = rest.0.distinct;
          grows = λ d h. rest.0.grows d (here.grows d h);
        },
        ((λ r. rest.0.grows (lib.dir p) (here.parent r)), rest.1),
      )

  pub kept_directories-Closes :
      (l ks : List String) → IsClosed ks → IsDistinct ks → Closes ks (kept_directories lib l ks)
  unfolding kept_directories
  kept_directories-Closes [] ks c i = record { closed = c; distinct = i; grows = λ d h. h }
  kept_directories-Closes (q ∷ l) ks c i = elim (Result-cases (is_safe_path lib q)) [
    | inl (e, s) ↦ rw (s, kept_directories) (kept_directories-Closes l ks c i)
    | inr (u, s) ↦
        let but : IsClosedBut q (mark q ks) = λ d h. elim (mark-has d q ks h) [
          | inl e ↦ inl e
          | inr g ↦ inr (λ r. has-mark (lib.dir d) q ks (c d g r))
        ] in
        let here = add_parents-Climbs (suc (len q)) q (mark q ks) (omega (arith)) but in
        let rest =
          kept_directories-Closes l _ here.closed (here.distinct (mark-IsDistinct q ks i)) in
        rw (s, kept_directories)
          (record {
            closed = rest.closed;
            distinct = rest.distinct;
            grows = λ d h. rest.grows d (here.grows d (has-mark d q ks h));
          })
  ]
