-- ===== src/TrLog/Tests.antt =====
-- A transaction log over a storage in memory, and the theorems at work.
use mdb_linux.Base.{ℕ, ◌+◌, ◌≡◌, refl, Bool, true, false, List, [], ◌∷◌, ltb, arith, length}
use mdb_linux.Storage.Lmdb.{map_put_impl, map_put_unique, transaction_start, transaction_commit}
use mdb_linux.Storage.Session.{map_open}
use mdb_linux.Storage.Memory.{Memory, memory, memory_documented, memory_sound}
use mdb_linux.TrLog
use mdb_linux.TrLog.{TrLog, Bytes, Data, nat_keys}
use mdb_linux.TrLog.Rows.{end_of, between, all_granted}
use mdb_linux.TrLog.Valid.{log_of, now, IsValid, InRange}
use mdb_linux.TrLog.Adds.{add-IsValid}
use mdb_linux.TrLog.Pending.{fold_ops}
use mdb_linux.TrLog.Drain.{pending, apply_times, apply_times-fold}
use mdb_linux.TrLog.Restart.{Opened, init-reads}
use mdb_linux.TrLog.Append.{Appended, add_op-appends}
use mdb_linux.TrLog.Reads.{range_read-between, changed-apply_times}
use mdb_linux.TrLog.Kept.{Keeps}
use mdb_linux.TrLog.Run.{Reaches, here, by_add, by_add_op, by_apply, Reaches-IsValid, Reaches-Keeps}

abbrev Store : Type 0
Store = Memory ℕ Bytes

abbrev empty_store : Store
empty_store = (record { exists = λ m. false; rows = λ m. [] }, λ m h. refl)

abbrev empty_log : TrLog Store
empty_log = record { storage = empty_store; top = 0; applied = 0; notices = 0 }

abbrev op : Bytes
op = 12 ∷ 0 ∷ 0 ∷ 0 ∷ []

abbrev received : List Data
received = (4, op) ∷ (2, op) ∷ (4, op) ∷ []

-- A callback that counts the bytes of the operations it takes.
abbrev count_bytes : ℕ → Bytes → Bool × ℕ
count_bytes n bytes = (true, n + length bytes)

empty-IsValid : IsValid (memory nat_keys) (memory_documented nat_keys) empty_log
empty-IsValid = record {
  ascending = tt;
  under = tt;
  applied_in = omega arith;
  saved_in = omega arith;
  top_in = omega arith;
}

abbrev synced : TrLog Store
synced = (TrLog.add (memory nat_keys) received empty_log).1

abbrev extended : TrLog Store
extended = (TrLog.add_op (memory nat_keys) op synced).1

received-InRange : InRange (memory nat_keys) (memory_documented nat_keys) received
received-InRange = (omega arith, (omega arith, (omega arith, tt)))

synced-IsValid : IsValid (memory nat_keys) (memory_documented nat_keys) synced
synced-IsValid =
    add-IsValid (memory nat_keys) (memory_documented nat_keys) received empty_log empty-IsValid
      received-InRange

synced_ids : log_of synced.storage.0 ≡ (2, op) ∷ (4, op) ∷ []
unfolding TrLog.add TrLog.add_loop TrLog.id_maximize map_put_unique map_put_impl map_open
    transaction_start transaction_commit TrLog.changed_notify
synced_ids = refl

synced_top : synced.top ≡ 5
unfolding TrLog.add TrLog.add_loop TrLog.id_maximize map_put_unique map_put_impl map_open
    transaction_start transaction_commit TrLog.changed_notify
synced_top = refl

add_op-appends_example :
    Appended
      (memory nat_keys)
      (memory_documented nat_keys)
      op
      synced
      (TrLog.add_op (memory nat_keys) op synced)
unfolding TrLog.add TrLog.add_loop TrLog.id_maximize map_put_unique map_put_impl map_open
    transaction_start transaction_commit TrLog.changed_notify
add_op-appends_example =
    add_op-appends (memory nat_keys) (memory_documented nat_keys) (memory_sound nat_keys) op synced
      synced-IsValid (omega arith)

apply_times-fold_example :
    ((apply_times
        (memory nat_keys)
        (memory_documented nat_keys)
        (memory_sound nat_keys)
        count_bytes
        2
        1
        0
        synced).0
      ≡ fold_ops count_bytes (pending (memory nat_keys) (memory_documented nat_keys) synced) 0)
    × (((apply_times
            (memory nat_keys)
            (memory_documented nat_keys)
            (memory_sound nat_keys)
            count_bytes
            2
            1
            0
            synced).1.applied
          ≡ end_of (log_of synced.storage.0))
        × (log_of (
              now
                (memory nat_keys)
                (memory_documented nat_keys)
                (apply_times
                  (memory nat_keys)
                  (memory_documented nat_keys)
                  (memory_sound nat_keys)
                  count_bytes
                  2
                  1
                  0
                  synced).1)
            ≡ log_of synced.storage.0))
unfolding TrLog.add TrLog.add_loop TrLog.id_maximize map_put_unique map_put_impl map_open
    transaction_start transaction_commit TrLog.changed_notify
apply_times-fold_example =
    apply_times-fold (memory nat_keys) (memory_documented nat_keys) (memory_sound nat_keys)
      count_bytes 2 0 0 synced (λ n bytes. refl) synced-IsValid (omega arith)

changed-apply_times_example :
    TrLog.changed
      (apply_times
        (memory nat_keys)
        (memory_documented nat_keys)
        (memory_sound nat_keys)
        count_bytes
        2
        1
        0
        synced).1
    ≡ ltb (end_of (log_of synced.storage.0)) synced.top
unfolding TrLog.add TrLog.add_loop TrLog.id_maximize map_put_unique map_put_impl map_open
    transaction_start transaction_commit TrLog.changed_notify
changed-apply_times_example =
    changed-apply_times (memory nat_keys) (memory_documented nat_keys) (memory_sound nat_keys)
      count_bytes 2 0 0 synced (λ n bytes. refl) synced-IsValid (omega arith)

init-reads_example :
    Opened
      (memory nat_keys)
      (memory_documented nat_keys)
      synced.storage
      (TrLog.init (memory nat_keys) synced.storage)
unfolding TrLog.add TrLog.add_loop TrLog.id_maximize map_put_unique map_put_impl map_open
    transaction_start transaction_commit TrLog.changed_notify
init-reads_example =
    init-reads (memory nat_keys) (memory_documented nat_keys) (memory_sound nat_keys) synced.storage
      (omega arith)

range_read-between_example :
    TrLog.range_read (memory nat_keys) all_granted 3 9 synced.storage
    ≡ between 3 9 (log_of synced.storage.0)
range_read-between_example =
    range_read-between (memory nat_keys) (memory_documented nat_keys) (memory_sound nat_keys) 3 9
      synced synced-IsValid

-- Operations from another node, one of this node, and a call of `apply`.
abbrev last : TrLog Store
last = (TrLog.apply (memory nat_keys) all_granted 2 count_bytes 0 extended).1.1

history : Reaches (memory nat_keys) (memory_documented nat_keys) empty_log last
unfolding TrLog.add TrLog.add_loop TrLog.id_maximize map_put_unique map_put_impl map_open
    transaction_start transaction_commit TrLog.changed_notify
history = by_add received empty_log last received-InRange (
    by_add_op op synced last (omega arith)
      (by_apply count_bytes all_granted 2 0 extended last (here last)))

Reaches-IsValid_example : IsValid (memory nat_keys) (memory_documented nat_keys) last
Reaches-IsValid_example =
    Reaches-IsValid (memory nat_keys) (memory_documented nat_keys) empty_log last history
      empty-IsValid

later : Reaches (memory nat_keys) (memory_documented nat_keys) synced last
unfolding TrLog.add TrLog.add_loop TrLog.id_maximize map_put_unique map_put_impl map_open
    transaction_start transaction_commit TrLog.changed_notify
later =
    by_add_op op synced last (omega arith)
      (by_apply count_bytes all_granted 2 0 extended last (here last))

Reaches-Keeps_example : Keeps synced.storage.0 last.storage.0
Reaches-Keeps_example =
    Reaches-Keeps (memory nat_keys) (memory_documented nat_keys) synced last later synced-IsValid
