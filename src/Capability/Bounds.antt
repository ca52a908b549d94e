-- ===== src/Capability/Bounds.antt =====
-- What holds of every registry of capabilities that registrations build.
use cann_o_call.Prelude.{
  ℕ, zero, suc, ◌≤◌, ◌<◌, ◌≡◌, ◌≢◌, sym, ap, subst, String, List, [], ◌∷◌, none, some, inl, inr,
  ◌⊎◌, arith, Bool-cases, Option-cases, length, leb,
}
use cann_o_call.Prelude.Assoc.{find, put}
use cann_o_call.Prelude.Int64.{ℤ, pos, negsuc}
use cann_o_call.Prelude.Maps.{
  keys, IsDistinct, put-IsDistinct, find-put-some, length-remove_le, find-put_other,
}
use cann_o_call.Prelude.Result.{ok, Result-cases}
use cann_o_call.Capability.{Executor, Registry, new_registry, register, get, count, validate}

-- Nothing more than the maximum is registered, each executor once, under its own id, with a valid descriptor.
pub record Holds (r : Registry) : Type 0 where
  pub within : count r ≤ r.max_size
  pub distinct : IsDistinct (keys r.entries)
  pub sound :
      (k : String) (x : Executor)
      → find k r.entries ≡ some x
      → (x.describe.id ≡ k) × (validate x.describe ≡ ok tt)

-- What a registration comes to.
pub record Registered (r : Registry) (x : Executor) : Type 0 where
  pub valid : validate x.describe ≡ ok tt
  pub absent : find x.describe.id r.entries ≡ none
  pub room : length r.entries < r.max_size
  pub state : (register r x).0 ≡ record r { entries = put x.describe.id x r.entries }

register-cases : (r : Registry) (x : Executor) → ((register r x).0 ≡ r) ⊎ Registered r x
unfolding register
register-cases r x = elim (Result-cases (validate x.describe)) [
  | inl (e, f) ↦ inl (ground (arith, f))
  | inr (u, f) ↦ elim (Option-cases (find x.describe.id r.entries)) [
    | inr (y, g) ↦ inl (ground (arith, f, g))
    | inl g ↦ elim (Bool-cases (leb r.max_size (length r.entries))) [
      | inl l ↦ inl (ground (arith, f, g, l))
      | inr l ↦ inr (record {
        valid = f;
        absent = g;
        room = ground (arith, l);
        state = ground (arith, f, g, l);
      })
    ]
  ]
]

register-Holds : (r : Registry) (x : Executor) → Holds r → Holds (register r x).0
unfolding count put
register-Holds r x h = elim (register-cases r x) [
  | inl e ↦ subst Holds (sym e) h
  | inr c ↦ subst Holds (sym c.state) (record {
    within = omega (arith, c.room, length-remove_le x.describe.id r.entries);
    distinct = put-IsDistinct x.describe.id x r.entries h.distinct;
    sound = λ k y g. elim (find-put-some k x.describe.id x y r.entries g) [
      | inl e ↦
          subst (λ z. (z.describe.id ≡ k) × (validate z.describe ≡ ok tt)) e.1 (sym e.0, c.valid)
      | inr e ↦ h.sound k y e.1
    ];
  })
]

-- Registrations one after the other, from `NewRegistry`.
unfoldable pub register_all : Registry → List Executor → Registry
unfolding register
register_all r [] = r
register_all r (x ∷ xs) = register_all (register r x).0 xs

empty-Holds : (n : ℕ) → Holds (record { max_size = n; entries = [] })
unfolding count find keys
empty-Holds n = record {
  within = omega arith;
  distinct = tt;
  sound = λ k x h. absurd (ground (arith, h));
}

new_registry-Holds : (max : ℤ) → Holds (new_registry max)
unfolding new_registry
new_registry-Holds (pos zero) = empty-Holds 64
new_registry-Holds (pos (suc n)) = empty-Holds (suc n)
new_registry-Holds (negsuc n) = empty-Holds 64

register_all-keeps : (r : Registry) (xs : List Executor) → Holds r → Holds (register_all r xs)
unfolding register_all
register_all-keeps r [] h = h
register_all-keeps r (x ∷ xs) h = register_all-keeps (register r x).0 xs (register-Holds r x h)

-- After any registrations in a new registry, it holds at most its maximum of executors, no id
-- twice, and each of them stands under the id of its own descriptor, which is valid.
pub register_all-Holds : (max : ℤ) (xs : List Executor) → Holds (register_all (new_registry max) xs)
register_all-Holds max xs = register_all-keeps (new_registry max) xs (new_registry-Holds max)

register-get :
    (r : Registry) (y : Executor) (id : String) (x : Executor)
    → get r id ≡ ok x
    → get (register r y).0 id ≡ ok x
unfolding get
register-get r y id x h = elim (register-cases r y) [
  | inl e ↦ subst (λ s. get s id ≡ ok x) (sym e) h
  | inr c ↦
      let other : id ≢ y.describe.id =
        λ q. ground (arith, h, c.absent, ap (λ k. find k r.entries) q) in
      let kept = find-put_other id y.describe.id y r.entries other in
      subst (λ s. get s id ≡ ok x) (sym c.state) (ground (arith, h, kept))
]

-- What `Get` returns for an id it returns after any further registrations too.
pub register_all-get :
    (r : Registry) (xs : List Executor) (id : String) (x : Executor)
    → get r id ≡ ok x
    → get (register_all r xs) id ≡ ok x
unfolding register_all
register_all-get r [] id x h = h
register_all-get r (y ∷ ys) id x h =
    register_all-get (register r y).0 ys id x (register-get r y id x h)
