-- ===== src/Receipts.antt =====
-- internal/receipts/receipts.go: the receipts, their hash chain, `Save`, `Verify` and the restart.
pub mod Chain
pub mod Save
pub mod Restart
mod Examples
use cann_o_call.Prelude.{
  ℕ, suc, String, Bool, true, false, not, ◌&&◌, List, [], ◌∷◌, Option, none, some, ◌==◌, map, ltb,
  nat_eq, length, if◌then◌else◌,
}
use cann_o_call.Prelude.Assoc.{find, put}
use cann_o_call.Prelude.Int64.{ℤ, pos, ◌==ℤ◌, ltb_ℤ, inc}
use cann_o_call.Prelude.Result.{Result, ok, err, ◌>>=◌, ◌>>◌, guard, or_fail}
use cann_o_call.Prelude.Sort.{sort}
use cann_o_call.Json.{Json}

-- Times are counted from the zero `time.Time`.
pub record Receipt : Type 0 where
  pub id : String
  pub seq : ℤ
  pub created_at : ℕ
  pub workspace_id : String
  pub action : String
  pub objective : String
  pub status : String
  pub authority_source : String
  pub event_id : String
  pub files_changed : List String
  pub details : List (String × Json)
  pub notes : List String
  pub prev_hash : String
  pub hash : String

-- The map is the list of its entries; the directory is not part of the state.
pub record Service : Type 0 where
  pub receipts : List (String × Receipt)
  pub last_hash : String
  pub seq : ℤ

-- `json.Marshal` and `json.MarshalIndent` at `Receipt`, `json.Unmarshal` of a file, and SHA-256.
pub record Codec : Type 0 where
  pub marshal : Receipt → Option String
  pub marshal_indent : Receipt → Option String
  pub unmarshal : String → Option Receipt
  pub sha256_hex : String → String

-- What the clock reads, and whether the file is written.
pub record World : Type 0 where
  pub now : ℕ
  pub written : Bool

pub data SaveError : Type 0 where
  id_required hash_failed encode_failed write_failed : SaveError

abbrev pub genesis : String
genesis = "genesis"

pub values : List (String × Receipt) → List Receipt
values [] = []
values ((k, r) ∷ m) = r ∷ values m

is_chained : Receipt → Bool
is_chained r = ltb_ℤ (pos 0) r.seq

chained_of : List Receipt → List Receipt
unfolding is_chained
chained_of [] = []
chained_of (r ∷ rs) = if is_chained r then r ∷ chained_of rs else chained_of rs

pub legacy_of : List Receipt → List Receipt
unfolding is_chained
legacy_of [] = []
legacy_of (r ∷ rs) = if is_chained r then legacy_of rs else r ∷ legacy_of rs

-- The order of `sort.Slice`: by the number, then by the time.
abbrev Place : Type 0
Place = ℤ × ℕ

pub place : Receipt → Place
place r = (r.seq, r.created_at)

pub before : Place → Place → Bool
before (m, t) (n, u) = if m ==ℤ n then ltb t u else ltb_ℤ m n

pub in_order : List Receipt → List Receipt
unfolding chained_of sort before place
in_order rs = sort before place (chained_of rs)

pub data Fault : Type 0 where
  wrong_seq prev_hash_mismatch hash_failed hash_mismatch : Fault

pub record Report : Type 0 where
  pub ok : Bool
  pub reason : Option Fault
  pub failed_receipt : String
  pub chained_checked : ℕ
  pub legacy_checked : ℕ
  pub last_hash : String

-- One entry of the directory: whether it is a directory, whether its name
-- ends in `.json` and, where it can be read, its text.
pub record Entry : Type 0 where
  pub is_dir : Bool
  pub is_json : Bool
  pub content : Option String

module _ (codec : Codec) where
  unfoldable pub hash_receipt : Receipt → Option String
  hash_receipt r = elim (codec.marshal (record r { hash = "" })) [
    | none ↦ none
    | some b ↦ some (codec.sha256_hex b)
  ]

  with_defaults : ℕ → Receipt → Receipt
  with_defaults now r = record r {
    created_at = if nat_eq r.created_at 0 then now else r.created_at;
    status = if r.status == "" then "delivered" else r.status;
  }

  -- A receipt without a number takes the next one; the service's number is raised at once.
  take_number : Service → Receipt → Service × Receipt
  take_number s r =
      if r.seq ==ℤ pos 0
      then (record s { seq = inc s.seq }, record r { seq = inc s.seq; prev_hash = s.last_hash })
      else (s, r)

  -- From the hash to the file.
  write_receipt : World → Receipt → Result SaveError Receipt
  unfolding hash_receipt
  write_receipt w r = do
    hash ← or_fail (hash_receipt r) hash_failed
    let hashed = record r { hash = hash }
    text ← or_fail (codec.marshal_indent hashed) encode_failed
    guard w.written write_failed
    ok hashed

  keep : Service → Receipt → Service
  unfolding put is_chained
  keep s r = record s {
    receipts = put r.id r s.receipts;
    seq = if ltb_ℤ s.seq r.seq then r.seq else s.seq;
    last_hash = if is_chained r then r.hash else s.last_hash;
  }

  finish : Service → Result SaveError Receipt → Service × Result SaveError Receipt
  unfolding keep
  finish s (err e) = (s, err e)
  finish s (ok r) = (keep s r, ok r)

  number_and_write : World → Service × Receipt → Service × Result SaveError Receipt
  unfolding finish write_receipt
  number_and_write w (s, r) = finish s (write_receipt w r)

  unfoldable pub save : World → Service → Receipt → Service × Result SaveError Receipt
  unfolding with_defaults take_number number_and_write
  save w s r =
      if r.id == ""
      then (s, err id_required)
      else number_and_write w (take_number s (with_defaults w.now r))

  failure : Fault → ℕ → ℕ → String → Receipt → Report
  failure e chained legacy prev r = record {
    ok = false;
    reason = some e;
    failed_receipt = r.id;
    chained_checked = chained;
    legacy_checked = legacy;
    last_hash = prev;
  }

  -- The tests of one receipt of the chain, in the order of the early returns.
  pub check_link : String → ℤ → Receipt → Result Fault (Unit {0})
  unfolding hash_receipt
  check_link prev expected r = do
    guard (r.seq ==ℤ expected) wrong_seq
    guard (r.prev_hash == prev) prev_hash_mismatch
    computed ← or_fail (hash_receipt r) hash_failed
    guard (computed == r.hash) hash_mismatch

  next_link :
      Result Fault (Unit {0}) → Report → Result Report (String × ℕ) → Result Report (String × ℕ)
  next_link (ok u) failed rest = rest
  next_link (err e) failed rest = err (record failed { reason = some e })

  -- The loop along the chain; it ends with the head hash and the number of receipts.
  pub check_chain : ℕ → String → ℤ → ℕ → List Receipt → Result Report (String × ℕ)
  unfolding check_link next_link failure
  check_chain legacy prev expected checked [] = ok (prev, checked)
  check_chain legacy prev expected checked (r ∷ rs) =
      let rest = check_chain legacy r.hash (inc expected) (suc checked) rs in
      next_link (check_link prev expected r) (failure wrong_seq checked legacy prev r) rest

  check_self : Receipt → Result Fault (Unit {0})
  unfolding hash_receipt
  check_self r = do
    computed ← or_fail (hash_receipt r) hash_failed
    guard (computed == r.hash) hash_mismatch

  next_legacy : Result Fault (Unit {0}) → Report → Report → Report
  next_legacy (ok u) failed rest = rest
  next_legacy (err e) failed rest = record failed { reason = some e }

  -- The loop over the receipts without a number.
  pub check_legacy : String → ℕ → ℕ → List Receipt → Report
  unfolding check_self next_legacy failure
  check_legacy prev chained checked [] = record {
    ok = true;
    reason = none;
    failed_receipt = "";
    chained_checked = chained;
    legacy_checked = checked;
    last_hash = prev;
  }
  check_legacy prev chained checked (r ∷ rs) =
      let rest = check_legacy prev chained (suc checked) rs in
      next_legacy (check_self r) (failure hash_mismatch chained checked prev r) rest

  conclude : Result Report (String × ℕ) → List Receipt → Report
  unfolding check_legacy
  conclude (err r) legacy = r
  conclude (ok (prev, checked)) legacy = check_legacy prev checked 0 legacy

  -- `Verify`
  unfoldable pub verify : Service → Report
  unfolding values in_order legacy_of check_chain conclude
  verify s =
      let legacy = legacy_of (values s.receipts) in
      conclude (check_chain (length legacy) genesis (pos 1) 0 (in_order (values s.receipts))) legacy

  -- A receipt that was stored without a hash is given one.
  with_hash : Receipt → Receipt
  unfolding hash_receipt
  with_hash r =
      if r.hash == ""
      then (elim (hash_receipt r) [ none ↦ r | some h ↦ record r { hash = h } ])
      else r

  read_entry : Entry → Option Receipt
  read_entry e =
      if not e.is_dir && e.is_json
      then (elim e.content [ none ↦ none | some b ↦ codec.unmarshal b ])
      else none

  accept : Option Receipt → List (String × Receipt) → List (String × Receipt)
  unfolding with_hash put
  accept none m = m
  accept (some r) m = if r.id == "" then m else put r.id (with_hash r) m

  load_from_disk : List Entry → List (String × Receipt) → List (String × Receipt)
  unfolding accept read_entry
  load_from_disk [] m = m
  load_from_disk (e ∷ es) m = load_from_disk es (accept (read_entry e) m)

  -- The loop of `rebuildChainState`.
  pub track : ℤ → String → List Receipt → ℤ × String
  track n h [] = (n, h)
  track n h (r ∷ rs) =
      track (if ltb_ℤ n r.seq then r.seq else n) (if ltb_ℤ n r.seq then r.hash else h) rs

  pub rebuild_chain_state : List (String × Receipt) → Service
  unfolding track in_order values
  rebuild_chain_state m =
      let (n, h) = track (pos 0) genesis (in_order (values m)) in
      record { receipts = m; seq = n; last_hash = h }

  -- `New`, over the entries of the directory.
  unfoldable pub new : List Entry → Service
  unfolding load_from_disk rebuild_chain_state
  new entries = rebuild_chain_state (load_from_disk entries [])
