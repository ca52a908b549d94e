-- ===== src/Progress/Lifecycle.antt =====
-- The registry as a machine: every operation of registry.go that changes it, in any order.
use cann_o_call.Prelude.{ℕ, zero, suc, ◌≡◌, ◌≢◌, String, false, Option, arith, []}
use cann_o_call.Prelude.Assoc.{find}
use cann_o_call.Prelude.Int64.{ℤ}
use cann_o_call.Prelude.Maps.{keys}
use cann_o_call.Progress.{ProgressPacket, is_blank, is_negative, exceeds}
use cann_o_call.Progress.Registry.{
  Registry, new_registry, create, update, transition, set_phase, add_warning, add_error,
  set_progress, delete, mark_abandoned,
}
use cann_o_call.Progress.Bounds.{InBounds}
use cann_o_call.Progress.Bounds.Changes.{Respects}
use cann_o_call.Progress.Validity.{
  IsValid, create-IsValid, transition-IsValid, update-IsValid, set_phase-IsValid,
  set_progress-IsValid, add_warning-IsValid, add_error-IsValid, delete-IsValid,
  mark_abandoned-IsValid,
}

-- One call, which holds the registry's lock from its beginning to its end. The clock is past the
-- zero time, random ids are not blank, counters are in order and the callers of `update` leave the
-- id and the status alone.
pub data Step (r : Registry) : Registry → Type 0 where
  creates :
      (now : ℕ) (random id op phase : String)
      → now ≢ 0
      → is_blank random ≡ false
      → Step r (create now random r id op phase).0
  updates :
      (now : ℕ) (id : String) (f : ProgressPacket → ProgressPacket)
      → now ≢ 0
      → ((p : ProgressPacket) → InBounds p → Respects p (f p))
      → Step r (update now r id f).0
  moves : (now : ℕ) (id to : String) → now ≢ 0 → Step r (transition now r id to).0
  phases : (now : ℕ) (id phase : String) → now ≢ 0 → Step r (set_phase now r id phase).0
  warns : (now : ℕ) (id msg : String) → now ≢ 0 → Step r (add_warning now r id msg).0
  fails : (now : ℕ) (id msg : String) → now ≢ 0 → Step r (add_error now r id msg).0
  counts :
      (now : ℕ) (id : String) (completed total : Option ℤ)
      → now ≢ 0
      → is_negative completed ≡ false
      → is_negative total ≡ false
      → exceeds completed total ≡ false
      → Step r (set_progress now r id completed total).0
  deletes : (id : String) → Step r (delete r id)
  abandons : (now : ℕ) → now ≢ 0 → Step r (mark_abandoned now r)

pub data Reachable (start : Registry) : Registry → Type 0 where
  begin : Reachable start start
  next : {r s : Registry} → Reachable start r → Step r s → Reachable start s

pub Step-IsValid : {r s : Registry} → Step r s → IsValid r → IsValid s
Step-IsValid {r} (creates now random id op phase n b) v =
    create-IsValid now random r id op phase n b v
Step-IsValid {r} (updates now id f n k) v = update-IsValid now r id f n k v
Step-IsValid {r} (moves now id to n) v = transition-IsValid now r id to n v
Step-IsValid {r} (phases now id phase n) v = set_phase-IsValid now r id phase n v
Step-IsValid {r} (warns now id msg n) v = add_warning-IsValid now r id msg n v
Step-IsValid {r} (fails now id msg n) v = add_error-IsValid now r id msg n v
Step-IsValid {r} (counts now id completed total n c t x) v =
    set_progress-IsValid now r id completed total n c t x v
Step-IsValid {r} (deletes id) v = delete-IsValid r id v
Step-IsValid {r} (abandons now n) v = mark_abandoned-IsValid now r n v

empty-IsValid : (n : ℕ) → IsValid (record { tasks = []; max_size = n })
unfolding find keys
empty-IsValid n = record { distinct = tt; sound = λ k t h. absurd (ground (arith, h)) }

new_registry-IsValid : (max : ℤ) → IsValid (new_registry max)
unfolding new_registry
new_registry-IsValid (ℤ.pos zero) = empty-IsValid 128
new_registry-IsValid (ℤ.pos (suc n)) = empty-IsValid (suc n)
new_registry-IsValid (ℤ.negsuc n) = empty-IsValid 128

pub Reachable-IsValid : (max : ℤ) (r : Registry) → Reachable (new_registry max) r → IsValid r
Reachable-IsValid max r begin = new_registry-IsValid max
Reachable-IsValid max r (next {r = q} path step) = Step-IsValid step (Reachable-IsValid max q path)
