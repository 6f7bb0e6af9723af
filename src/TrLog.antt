-- ===== src/TrLog.antt =====
-- mdv_core/storage/mdv_trlog.c: a node's transaction log. An operation is its bytes, under an
-- identifier of 64 bits; the identifiers below `applied` were handed out. LMDB is a parameter
-- (`Storage.Lmdb`).
pub mod Rows
pub mod Valid
pub mod Adds
pub mod Applies
pub mod Pending
pub mod Drain
pub mod Restart
pub mod Append
pub mod Kept
pub mod Run
pub mod Reads
mod Tests
use mdb_linux.Base.{
  ℕ, zero, suc, ◌+◌, ◌%◌, ◌^◌, ◌≡◌, Bool, true, false, List, [], ◌∷◌, Option, none, some, ◌==◌, ltb,
  leb, if◌then◌else◌, encode, decode, arith, eq→==,
}
use mdb_linux.Storage.Rows.{KeyOrder}
use mdb_linux.Storage.Lmdb.{
  Lmdb, trlog, applied_map, failed, transaction_start, transaction_commit, map_put, map_put_unique,
  map_get,
}
use mdb_linux.Storage.Session.{Verdict, commit, abort, in_transaction, with_open, map_open}

abbrev pub Bytes : Type 0
Bytes = List ℕ

-- mdv_trlog_data: an identifier and its operation.
abbrev pub Data : Type 0
Data = ℕ × Bytes

-- MDV_TRLOG_APPLIED_POS_KEY.
abbrev pub applied_pos_key : ℕ
applied_pos_key = 0

-- `notices` counts the calls of `mdv_trlog_changed_notify`, which tells the event bus.
pub record TrLog (E : Type 0) : Type 0 where
  pub storage : E
  pub top : ℕ
  pub applied : ℕ
  pub notices : ℕ

abbrev pub next_of : Option Data → ℕ
next_of none = 0
next_of (some p) = (p.0 + 1) % 2 ^ 64

abbrev pub stored_pos : Option Bytes → ℕ
stored_pos none = 0
stored_pos (some value) = decode value

unfoldable pub id_maximize : ℕ → ℕ → ℕ
id_maximize id top = let next = (id + 1) % 2 ^ 64 in if ltb top next then next else top

-- `grants` answers the allocation of the entry behind the first n ones.
unfoldable pub read_loop : (ℕ → Bool) → ℕ → ℕ → List Data → List Data
read_loop grants size n [] = []
read_loop grants size n (p ∷ rows) =
    let rest = read_loop grants size (n + 1) rows in
    if grants n then (if leb size (n + 1) then p ∷ [] else p ∷ rest) else []

unfoldable pub range_loop : (ℕ → Bool) → ℕ → ℕ → List Data → List Data
range_loop grants to n [] = []
range_loop grants to n (p ∷ rows) =
    let rest = range_loop grants to (n + 1) rows in
    if leb to p.0 then [] else if grants n then p ∷ rest else []

unfoldable pub new_id : {E : Type 0} → TrLog E → ℕ × TrLog E
new_id s = (s.top, record s { top = (s.top + 1) % 2 ^ 64 })

unfoldable pub changed_notify : {E : Type 0} → TrLog E → TrLog E
changed_notify s = record s { notices = s.notices + 1 }

unfoldable pub changed : {E : Type 0} → TrLog E → Bool
changed s = ltb s.applied s.top

module _ {A : Type 0} where
  -- Hands the operations to `fn` until it refuses one: how many it took, the new position, and
  -- what the calls made of their argument.
  unfoldable pub apply_loop : (A → Bytes → Bool × A) → List Data → ℕ × (ℕ × A) → ℕ × (ℕ × A)
  apply_loop fn [] a = a
  apply_loop fn (p ∷ ops) (n, (pos, arg)) =
      let r = fn arg p.1 in
      let rest = apply_loop fn ops (n + 1, ((p.0 + 1) % 2 ^ 64, r.1)) in
      if r.0 then rest else (n, (pos, r.1))

  unfoldable pub visit_loop : (A → Data → Bool × A) → List Data → ℕ × A → ℕ × A
  visit_loop fn [] a = a
  visit_loop fn (p ∷ ops) (n, arg) =
      let r = fn arg p in
      let rest = visit_loop fn ops (n + 1, r.1) in if r.0 then rest else (n, r.1)

module _ {E T : Type 0} (db : Lmdb ℕ Bytes E T) where
  abbrev pub last_top : Bool × T → ℕ
  last_top m = if m.0 then next_of (db.last trlog m.1) else 0

  abbrev pub applied_pos : Bool × T → ℕ
  unfolding map_get
  applied_pos m =
      stored_pos (if m.0 then map_get db applied_map applied_pos_key (some m.1) else none)

  -- The positions of a log that is opened; the maps need not exist yet.
  unfoldable pub init : E → TrLog E
  unfolding transaction_start map_open
  init e = elim (transaction_start db e) [
    | none ↦ record { storage = e; top = 0; applied = 0; notices = 0 }
    | some t ↦
        let m = map_open db trlog false t in
        record {
          storage = e;
          top = last_top m;
          applied = applied_pos (map_open db applied_map false m.1);
          notices = 0;
        }
  ]

  unfoldable pub applied_pos_body : ℕ → T → Verdict T
  unfolding map_put
  applied_pos_body pos = with_open db applied_map true λ t.
      let p = map_put db applied_map applied_pos_key (encode 8 pos) (some t) in
      if p.0 then commit p.1 else abort failed

  -- The position in memory moves whether or not it can be saved.
  unfoldable pub applied_pos_set : ℕ → TrLog E → TrLog E
  unfolding applied_pos_body
  applied_pos_set pos s = record s {
    applied = pos;
    storage = (in_transaction db (applied_pos_body pos) s.storage).1;
  }

  -- The loop over the operations: whether one was written, the top, and the transaction.
  unfoldable pub add_loop : List Data → Bool × (ℕ × Option T) → Bool × (ℕ × Option T)
  unfolding map_put_unique id_maximize
  add_loop [] a = a
  add_loop (op ∷ ops) (changed, (top, t)) =
      let p = map_put_unique db trlog op.0 op.1 t in
      add_loop ops (if p.0 then (true, (id_maximize op.0 top, p.1)) else (changed, (top, p.1)))

  -- The top stays raised when the transaction fails.
  abbrev pub add_commit : TrLog E → Bool × (ℕ × Option T) → Bool × TrLog E
  unfolding transaction_commit changed_notify
  add_commit s (changed, (top, t)) =
      let c = transaction_commit db t s.storage in
      let u : TrLog E = record s { storage = c.1; top = top } in
      if c.0 then (true, if changed then changed_notify u else u) else (false, u)

  abbrev pub add_opened : List Data → TrLog E → Bool × T → Bool × TrLog E
  unfolding add_loop
  add_opened ops s (false, t) = (false, s)
  add_opened ops s (true, t) = add_commit s (add_loop ops (false, (s.top, some t)))

  unfoldable pub add : List Data → TrLog E → Bool × TrLog E
  unfolding transaction_start map_open
  add ops s = elim (transaction_start db s.storage) [
    | none ↦ (false, s)
    | some t ↦ add_opened ops s (map_open db trlog true t)
  ]

  abbrev pub op_commit : TrLog E → Bool × Option T → Bool × TrLog E
  unfolding transaction_commit changed_notify
  op_commit s (false, t) = (false, s)
  op_commit s (true, t) =
      let c = transaction_commit db t s.storage in
      let u : TrLog E = record s { storage = c.1 } in
      if c.0 then (true, changed_notify u) else (false, u)

  -- The identifier is used up even when the operation is not written.
  abbrev pub op_opened : Bytes → TrLog E → Bool × T → Bool × TrLog E
  unfolding new_id map_put_unique
  op_opened op s (false, t) = (false, s)
  op_opened op s (true, t) =
      let n = new_id s in op_commit n.1 (map_put_unique db trlog n.0 op (some t))

  unfoldable pub add_op : Bytes → TrLog E → Bool × TrLog E
  unfolding transaction_start map_open
  add_op op s = elim (transaction_start db s.storage) [
    | none ↦ (false, s)
    | some t ↦ op_opened op s (map_open db trlog true t)
  ]

  abbrev pub rows_from : ℕ → Bool × T → List Data
  rows_from pos m = if m.0 then db.range trlog pos m.1 else []

  unfoldable pub read : (ℕ → Bool) → ℕ → ℕ → E → List Data
  unfolding transaction_start map_open read_loop
  read grants pos size e = elim (transaction_start db e) [
    | none ↦ []
    | some t ↦ read_loop grants size 0 (rows_from pos (map_open db trlog false t))
  ]

  unfoldable pub range_read : (ℕ → Bool) → ℕ → ℕ → E → List Data
  unfolding transaction_start map_open range_loop
  range_read grants from to e = elim (transaction_start db e) [
    | none ↦ []
    | some t ↦ range_loop grants to 0 (rows_from from (map_open db trlog false t))
  ]

  module _ {A : Type 0} where
    abbrev pub apply_end : TrLog E → ℕ × (ℕ × A) → ℕ × (A × TrLog E)
    unfolding applied_pos_set
    apply_end s (n, (pos, arg)) = (n, (arg, if n == 0 then s else applied_pos_set pos s))

    unfoldable pub apply : (ℕ → Bool) → ℕ → (A → Bytes → Bool × A) → A → TrLog E → ℕ × (A × TrLog E)
    unfolding read apply_loop
    apply grants batch_size fn arg s =
        if leb s.top s.applied
        then (0, (arg, s))
        else apply_end s
            (apply_loop fn (read grants s.applied batch_size s.storage) (0, (s.applied, arg)))

    unfoldable pub foreach : (ℕ → Bool) → ℕ → ℕ → (A → Data → Bool × A) → A → E → ℕ × A
    unfolding read visit_loop
    foreach grants id batch_size fn arg e = visit_loop fn (read grants id batch_size e) (0, arg)

pub same_to : (a b : ℕ) → a == b ≡ true → a ≡ b
same_to a b h = ground (arith, h)

-- The keys of the maps are compared as integers (MDV_MAP_INTEGERKEY).
abbrev pub nat_keys : KeyOrder ℕ
nat_keys = record { same = ◌==◌; before = ltb; same_iff = λ a b. (same_to a b, eq→== a b) }
