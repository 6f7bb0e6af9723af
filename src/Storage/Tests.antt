-- ===== src/Storage/Tests.antt =====
-- The two-phase set over a storage in memory, and the theorems at work.
use mdb_linux.Base.{
  clash, suc, length, ◌+◌, ◌≤◌, ◌≡◌, refl, sym, ap₂, subst, inl, inr, Bool, true, false, List, [],
  ◌∷◌, none, some, ◌==◌, ltb, if◌then◌else◌, Bool-cases, eq→==, arith,
}
use mdb_linux.Storage.Rows.{KeyOrder}
use mdb_linux.Storage.Lmdb.{
  objects, ok, transaction_start, transaction_commit, transaction_abort, map_put, map_put_unique,
  map_get, map_del,
}
use mdb_linux.Storage.Session.{map_open}
use mdb_linux.Storage.TwoPSet
use mdb_linux.Storage.TwoPSet.{Bytes, Objects}
use mdb_linux.Storage.Sets.{Adds, Deletes}
use mdb_linux.Storage.Refine.{stored_now, add-refines}
use mdb_linux.Storage.Delete.{delete-refines}
use mdb_linux.Storage.Batch.{add_each, AllOrNothing, add_batch-atomic, add_batch-deleted}
use mdb_linux.Storage.Steps.{Steps, IsValid}
use mdb_linux.Storage.Run.{
  Call, add, add_batch, delete, reserve, reopen, after, run, now, run-Steps,
}
use mdb_linux.Storage.Deleted.{get-deleted_forever}
use mdb_linux.Storage.Reserved.{reserved_ranges-disjoint}
use mdb_linux.Storage.Surely.{get-add}
use mdb_linux.Storage.Whole.{add_batch-whole}
use mdb_linux.Storage.Objects
use mdb_linux.Storage.Scanned.{scanned, drain-objects}
use mdb_linux.Operators.{no_rows}
use mdb_linux.Operators.Drain.{drain}
use mdb_linux.Operators.Scan.{ScanSeq, scan_seq, scan_seq_next}
use mdb_linux.Storage.Limited.{limited, limited_documented}
use mdb_linux.Storage.Memory.{Memory, memory, memory_documented, memory_sound}

-- The order of `memcmp`.
abbrev same_bytes : Bytes → Bytes → Bool
same_bytes [] [] = true
same_bytes [] (b ∷ bs) = false
same_bytes (a ∷ as1) [] = false
same_bytes (a ∷ as1) (b ∷ bs) = if a == b then same_bytes as1 bs else false

abbrev bytes_before : Bytes → Bytes → Bool
bytes_before [] [] = false
bytes_before [] (b ∷ bs) = true
bytes_before (a ∷ as1) [] = false
bytes_before (a ∷ as1) (b ∷ bs) = let rest = bytes_before as1 bs in if a == b then rest else ltb a b

same_to : (a b : Bytes) → same_bytes a b ≡ true → a ≡ b
same_to [] [] h = refl
same_to [] (b ∷ bs) h = absurd (clash refl (sym h))
same_to (a ∷ as1) [] h = absurd (clash refl (sym h))
same_to (a ∷ as1) (b ∷ bs) h = elim (Bool-cases (a == b)) [
  | inl t ↦ ap₂ ◌∷◌ (ground (arith, t)) (same_to as1 bs (rw (t) at h))
  | inr f ↦ absurd (clash (rw (f) at h) refl)
]

same_self : (a : Bytes) → same_bytes a a ≡ true
same_self [] = refl
same_self (a ∷ as1) = rw (eq→== a a refl) (same_self as1)

abbrev bytes : KeyOrder Bytes
bytes = record {
  same = same_bytes;
  before = bytes_before;
  same_iff = λ a b. (same_to a b, λ h. subst (λ x. same_bytes a x ≡ true) h (same_self a));
}

abbrev Store : Type 0
Store = Memory Bytes Bytes

abbrev empty_store : Store
empty_store = (record { exists = λ m. false; rows = λ m. [] }, λ m h. refl)

abbrev first : Bytes
first = 1 ∷ []

abbrev second : Bytes
second = 2 ∷ 7 ∷ []

abbrev object : Bytes
object = 65 ∷ 66 ∷ []

abbrev pair : List (Bytes × Bytes)
pair = (first, object) ∷ (second, object) ∷ []

abbrev with_first : Store
with_first = (TwoPSet.add (memory bytes) first object empty_store).1

abbrev without_first : Store
without_first = (TwoPSet.delete (memory bytes) first with_first).1

abbrev start : Objects Store
start = record { storage = with_first; idgen = 0 }

abbrev calls : List Call
calls =
    add first object
    ∷ add_batch pair
    ∷ reserve true 5
    ∷ reopen
    ∷ delete second
    ∷ add second object
    ∷ []

add-refines_example :
    Adds bytes
      (λ k v. true)
      first
      object
      empty_store.0
      (TwoPSet.add (memory bytes) first object empty_store).0
      with_first.0
add-refines_example =
    add-refines bytes (memory bytes) (memory_documented bytes) first object empty_store

delete-refines_example :
    Deletes bytes first with_first.0
      (TwoPSet.delete (memory bytes) first with_first).0
      without_first.0
delete-refines_example =
    delete-refines bytes (memory bytes) (memory_documented bytes) first with_first

add_batch-atomic_example :
    AllOrNothing bytes
      (λ k v. true)
      pair
      with_first.0
      (TwoPSet.add_batch (memory bytes) pair with_first).0
      (TwoPSet.add_batch (memory bytes) pair with_first).1.0
add_batch-atomic_example =
    add_batch-atomic bytes (memory bytes) (memory_documented bytes) pair with_first

add_batch-deleted_example :
    (TwoPSet.add_batch (memory bytes) pair without_first).1.0 ≡ without_first.0
unfolding TwoPSet.delete TwoPSet.delete_body TwoPSet.add TwoPSet.add_body map_put map_put_unique
    map_get map_del map_open transaction_start transaction_commit
add_batch-deleted_example =
    add_batch-deleted bytes (memory bytes) (memory_documented bytes) pair without_first (inl refl)

run-Steps_example :
    Steps bytes
      (now (memory bytes) bytes (memory_documented bytes) start)
      (now (memory bytes) bytes (memory_documented bytes) (run (memory bytes) calls start))
run-Steps_example = run-Steps (memory bytes) bytes (memory_documented bytes) calls start

get-deleted_forever_example :
    TwoPSet.get
      (memory bytes)
      first
      (run (memory bytes) calls (after (memory bytes) (delete first) start)).storage
    ≡ none
unfolding TwoPSet.delete TwoPSet.delete_body TwoPSet.add TwoPSet.add_body map_put map_put_unique
    map_get map_del map_open transaction_start transaction_commit
get-deleted_forever_example =
    get-deleted_forever bytes (memory bytes) (memory_documented bytes) first start calls refl

-- Nothing is deleted at the start.
start-IsValid : IsValid bytes (now (memory bytes) bytes (memory_documented bytes) start)
unfolding TwoPSet.add TwoPSet.add_body map_put_unique map_get map_open transaction_start
    transaction_commit
start-IsValid q h = absurd (clash refl (sym h))

abbrev reserved : Objects Store
reserved = (TwoPSet.reserve_ids_range (memory bytes) true 100 start).1.1

reserved_ranges-disjoint_example :
    (TwoPSet.reserve_ids_range (memory bytes) true 100 start).1.0 + 100
    ≤ (TwoPSet.reserve_ids_range
        (memory bytes)
        true
        3
        (run (memory bytes) (reserve true 5 ∷ reopen ∷ []) reserved)).1.0
unfolding TwoPSet.reserve_ids_range TwoPSet.reserve_body TwoPSet.idgen_init TwoPSet.add
    TwoPSet.add_body map_put map_put_unique map_get map_open transaction_start transaction_commit
reserved_ranges-disjoint_example =
    reserved_ranges-disjoint bytes (memory bytes) (memory_documented bytes) (memory_sound bytes)
      true true 100 3 (reserve true 5 ∷ reopen ∷ []) start refl (omega arith) refl refl

get-add_example :
    ((TwoPSet.add (memory bytes) second object with_first).0 ≡ ok)
    × (TwoPSet.get (memory bytes) second (TwoPSet.add (memory bytes) second object with_first).1
        ≡ some object)
unfolding TwoPSet.add TwoPSet.add_body map_put_unique map_get map_open transaction_start
    transaction_commit
get-add_example =
    get-add bytes (memory bytes) (memory_documented bytes) (memory_sound bytes) second object
      with_first refl refl

add_batch-whole_example :
    ((TwoPSet.add_batch (memory bytes) pair with_first).0 ≡ ok)
    × (stored_now bytes
          (memory bytes)
          (memory_documented bytes)
          (TwoPSet.add_batch (memory bytes) pair with_first).1
        ≡ add_each bytes pair
            (stored_now bytes (memory bytes) (memory_documented bytes) with_first))
unfolding TwoPSet.add TwoPSet.add_body map_put_unique map_get map_open transaction_start
    transaction_commit
add_batch-whole_example =
    add_batch-whole bytes (memory bytes) (memory_documented bytes) (memory_sound bytes) pair
      with_first (refl, (refl, tt))

-- A batch with a deleted identifier answers MDV_OK, though nothing of it is added.
lost_with_a_deleted_one : (TwoPSet.add_batch (memory bytes) pair without_first).0 ≡ ok
unfolding TwoPSet.add_batch TwoPSet.batch_body TwoPSet.add_all TwoPSet.add_next TwoPSet.delete
    TwoPSet.delete_body TwoPSet.add TwoPSet.add_body map_put map_put_unique map_get map_del map_open
    transaction_start transaction_commit transaction_abort
lost_with_a_deleted_one = refl

abbrev with_both : Store
with_both = (TwoPSet.add (memory bytes) second object with_first).1

abbrev at_first : Objects.ObjectsEnumerator
at_first = record {
  all = (first, object) ∷ (second, object) ∷ [];
  left = (first, object) ∷ (second, object) ∷ [];
  current = Objects.row_of (first, object);
}

abbrev scanner : ScanSeq Objects.ObjectsEnumerator
scanner = record { ref_counter = 1; enumerator = at_first; current = none; at_end = false }

drain-objects_example :
    drain
      (scan_seq_next Objects.objects_fns)
      (suc (length (scanned (with_both.0.rows objects))))
      scanner
      Objects.blank_row
    ≡ (scanned (with_both.0.rows objects), some no_rows)
unfolding Objects.enumerator Objects.opened_map Objects.opened_cursor Objects.impl_reset TwoPSet.add
    TwoPSet.add_body map_put_unique map_get map_open transaction_start transaction_commit scan_seq
drain-objects_example =
    drain-objects bytes (memory bytes) (memory_documented bytes) true (true, true) with_both
      at_first scanner Objects.blank_row refl refl

-- LMDB that takes identifiers of one and two bytes.
abbrev short : Bytes → Bytes → Bool
short k v = if ltb 0 (length k) then ltb (length k) 3 else false

abbrev long : Bytes
long = 1 ∷ 2 ∷ 3 ∷ []

-- An identifier that is refused goes unnoticed: the answer is MDV_OK, and nothing is stored.
refused_unnoticed :
    ((TwoPSet.add (limited bytes short) long object empty_store).0 ≡ ok)
    × ((TwoPSet.add (limited bytes short) long object empty_store).1.0.rows objects ≡ [])
unfolding TwoPSet.add TwoPSet.add_body map_put_unique map_get map_open transaction_start
    transaction_commit
refused_unnoticed = (refl, refl)

-- Of a batch the others are added.
refused_in_batch :
    (TwoPSet.add_batch
        (limited bytes short)
        ((long, object) ∷ (first, object) ∷ [])
        empty_store).1.0.rows
      objects
    ≡ (first, object) ∷ []
unfolding TwoPSet.add_batch TwoPSet.batch_body TwoPSet.add_all TwoPSet.add_next map_put_unique
    map_get map_open transaction_start transaction_commit transaction_abort
refused_in_batch = refl

refused_refines :
    Adds bytes short long object empty_store.0
      (TwoPSet.add (limited bytes short) long object empty_store).0
      (TwoPSet.add (limited bytes short) long object empty_store).1.0
refused_refines =
    add-refines bytes (limited bytes short) (limited_documented bytes short) long object empty_store
