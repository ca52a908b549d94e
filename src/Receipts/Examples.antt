-- ===== src/Receipts/Examples.antt =====
-- Receipts that are saved, lost and loaded again.
use cann_o_call.Prelude.Assoc.{find}
use cann_o_call.Prelude.{◌≡◌, refl, String, true, false, List, [], ◌∷◌, some, none, arith}
use cann_o_call.Prelude.Int64.{pos, inc}
use cann_o_call.Prelude.Result.{ok, err}
use cann_o_call.Receipts.{
  Receipt, Service, Codec, World, Entry, hash_receipt, genesis, write_failed, save, verify, new,
}
use cann_o_call.Receipts.Chain.{Sound}
use cann_o_call.Receipts.Save.{save-Sound, save-Gap}
use cann_o_call.Receipts.Restart.{new-Sound}

abbrev receipt : String → Receipt
receipt id = record {
  id = id;
  seq = pos 0;
  created_at = 5;
  workspace_id = "ws";
  action = "deliver";
  objective = "";
  status = "";
  authority_source = "operator";
  event_id = "";
  files_changed = [];
  details = [];
  notes = [];
  prev_hash = "";
  hash = "";
}

-- What a file of the name of its receipt holds.
abbrev first : String → Receipt
first id = record (receipt id) { seq = pos 1; prev_hash = genesis; hash = id; status = "delivered" }

abbrev codec : Codec
codec = record {
  marshal = λ r. some r.id;
  marshal_indent = λ r. some r.id;
  unmarshal = λ s. some (first s);
  sha256_hex = λ s. s;
}

abbrev fresh : Service
fresh = record { receipts = []; last_hash = genesis; seq = pos 0 }

abbrev good : World
good = record { now = 7; written = true }

abbrev full_disk : World
full_disk = record { now = 7; written = false }

fresh-Sound : Sound codec fresh
unfolding verify
fresh-Sound = record { passes = refl; at_hash = refl; at_seq = refl }

fresh_checked : (verify codec fresh).chained_checked ≡ 0
unfolding verify
fresh_checked = refl

saved_first : (save codec good fresh (receipt "a")).1 ≡ ok (first "a")
unfolding save hash_receipt inc
saved_first = refl

nothing_saved : (k : String) → find k fresh.receipts ≡ none
unfolding find
nothing_saved k = refl

save-Sound_example : Sound codec (save codec good fresh (receipt "a")).0
save-Sound_example =
    save-Sound codec good fresh (receipt "a") (first "a") fresh-Sound
      (ground (arith, fresh_checked)) refl (nothing_saved "a") saved_first

lost : (save codec full_disk fresh (receipt "a")).1 ≡ err write_failed
unfolding save hash_receipt
lost = refl

abbrev second : Receipt
second = record (first "b") { seq = pos 2 }

saved_second :
    (save codec good (save codec full_disk fresh (receipt "a")).0 (receipt "b")).1 ≡ ok second
unfolding save hash_receipt inc
saved_second = refl

save-Gap_example :
    (verify codec (save codec good (save codec full_disk fresh (receipt "a")).0 (receipt "b")).0).ok
    ≡ false
save-Gap_example =
    save-Gap codec full_disk good fresh (receipt "a") (receipt "b") second write_failed fresh-Sound
      (ground (arith, fresh_checked)) refl lost (ground (arith)) refl (nothing_saved "b")
      saved_second

abbrev entries : List Entry
entries = record { is_dir = false; is_json = true; content = some "a" } ∷ []

loaded_passes : (verify codec (new codec entries)).ok ≡ true
unfolding verify new hash_receipt
loaded_passes = refl

loaded_checked : (verify codec (new codec entries)).chained_checked ≡ 1
unfolding verify new hash_receipt
loaded_checked = refl

new-Sound_example : Sound codec (new codec entries)
new-Sound_example = new-Sound codec entries loaded_passes (ground (arith, loaded_checked))
