-- ===== src/Progress/Examples.antt =====
-- A registry of two tasks at most, in which three tasks are created.
use cann_o_call.Prelude.{ℕ, if◌then◌else◌, ◌≡◌, ◌≤◌, refl, String, true, false, none, some, arith}
use cann_o_call.Prelude.Trim.{trim_space}
use cann_o_call.Prelude.Int64.{pos}
use cann_o_call.Prelude.Result.{ok}
use cann_o_call.Progress.{Task, is_blank, is_terminal, status_failed}
use cann_o_call.Progress.Registry.{
  Registry, new_registry, get, create, count, transition, older, new_task, mark_abandoned, abandon,
}
use cann_o_call.Progress.Lifecycle.{Reachable, begin, next, creates, moves}
use cann_o_call.Progress.Terminal.{Call, Call-Terminal, mark_abandoned-Terminal}
use cann_o_call.Progress.Creation.{create-Live, create-Bounded, create-Oldest, create-get}

abbrev start : Registry
start = new_registry (pos 2)

abbrev with_a : Registry
with_a = (create 5 "r" start "a" "ingest" "pending").0

abbrev with_b : Registry
with_b = (create 6 "r" with_a "b" "ingest" "pending").0

abbrev failed_a : Registry
failed_a = (transition 7 with_b "a" status_failed).0

abbrev failed_b : Registry
failed_b = (transition 8 failed_a "b" status_failed).0

abbrev with_c : Registry
with_c = (create 9 "r" failed_b "c" "ingest" "pending").0

named : is_blank "r" ≡ false
unfolding trim_space
named = refl

path_a : Reachable start with_a
path_a = next begin (creates 5 "r" "a" "ingest" "pending" (omega arith) named)

path_b : Reachable start with_b
path_b = next path_a (creates 6 "r" "b" "ingest" "pending" (omega arith) named)

path_failed : Reachable start failed_b
path_failed =
    next (next path_b (moves 7 "a" status_failed (omega arith)))
      (moves 8 "b" status_failed (omega arith))

-- A task when it is created, and when it has failed.
abbrev made : ℕ → String → Task
made now id = new_task now id "ingest" "pending"

abbrev failed : ℕ → ℕ → String → Task
failed now later id = record (made now id) {
  packet = record (made now id).packet {
    status = status_failed;
    phase = "terminal";
    updated_at = later;
  };
}

found_a : get with_b "a" ≡ some (made 5 "a")
unfolding get create trim_space new_registry transition count is_terminal older mark_abandoned
found_a = refl

live_a : is_terminal (made 5 "a").packet.status ≡ false
unfolding get create trim_space new_registry transition count is_terminal older mark_abandoned
live_a = refl

failed_found_a : get failed_b "a" ≡ some (failed 5 7 "a")
unfolding get create trim_space new_registry transition count is_terminal older mark_abandoned
failed_found_a = refl

failed_found_b : get failed_b "b" ≡ some (failed 6 8 "b")
unfolding get create trim_space new_registry transition count is_terminal older mark_abandoned
failed_found_b = refl

final : is_terminal status_failed ≡ true
unfolding get create trim_space new_registry transition count is_terminal older mark_abandoned
final = refl

gone_a : get with_c "a" ≡ none
unfolding get create trim_space new_registry transition count is_terminal older mark_abandoned
gone_a = refl

kept_b : get with_c "b" ≡ some (failed 6 8 "b")
unfolding get create trim_space new_registry transition count is_terminal older mark_abandoned
kept_b = refl

given : (create 9 "r" failed_b "c" "ingest" "pending").1 ≡ ok (made 9 "c")
unfolding get create trim_space new_registry transition count is_terminal older mark_abandoned
given = refl

operated : is_blank "ingest" ≡ false
unfolding get create trim_space new_registry transition count is_terminal older mark_abandoned
operated = refl

restarted : get (mark_abandoned 10 with_b) "b" ≡ some (abandon 10 (made 6 "b"))
unfolding get create trim_space new_registry transition count is_terminal older mark_abandoned
restarted = refl

absent_chosen : get failed_b (if is_blank "c" then "r" else "c") ≡ none
unfolding get create trim_space new_registry transition count is_terminal older mark_abandoned
absent_chosen = refl

Call-Terminal_example : (failed 6 8 "b").packet.status ≡ (failed 6 8 "b").packet.status
Call-Terminal_example =
    Call-Terminal failed_b with_c "b" (failed 6 8 "b") (failed 6 8 "b")
      (Call.creates 9 "r" "c" "ingest" "pending") failed_found_b final kept_b

mark_abandoned-Terminal_example : is_terminal (abandon 10 (made 6 "b")).packet.status ≡ true
mark_abandoned-Terminal_example =
    mark_abandoned-Terminal (pos 2) with_b 10 "b" (abandon 10 (made 6 "b")) path_b restarted

create-Live_example : get (create 9 "r" with_b "c" "ingest" "pending").0 "a" ≡ some (made 5 "a")
create-Live_example =
    create-Live (pos 2) with_b 9 "r" "c" "ingest" "pending" "a" (made 5 "a") path_b found_a live_a

create-Bounded_example : count with_c ≤ failed_b.max_size
create-Bounded_example =
    create-Bounded (pos 2) failed_b 9 "r" "c" "ingest" "pending" "b" (failed 6 8 "b") path_failed
      operated absent_chosen kept_b final

create-Oldest_example : (is_terminal status_failed ≡ true) × (older ("a", 7) ("b", 8) ≡ true)
create-Oldest_example =
    create-Oldest (pos 2) failed_b 9 "r" "c" "ingest" "pending" "a" "b" (failed 5 7 "a")
      (failed 6 8 "b") path_failed failed_found_a gone_a kept_b final

create-get_example : get with_c "c" ≡ some (made 9 "c")
unfolding new_task
create-get_example =
    create-get (pos 2) failed_b 9 "r" "c" "ingest" "pending" (made 9 "c") path_failed given
