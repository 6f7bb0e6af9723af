-- ===== src/Storage/TwoPSet.antt =====
-- mdv_storage/mdv_2pset.c: a set of objects in which an identifier that was deleted stays deleted.
-- An identifier and an object are byte strings.
use mdb_linux.Base.{
  ℕ, ◌+◌, ◌%◌, ◌^◌, Bool, true, false, List, [], ◌∷◌, Option, none, some, if◌then◌else◌, encode,
  decode,
}
use mdb_linux.Storage.Lmdb.{
  Lmdb, objects, removed, idgen, Errno, ok, failed, not_found, transaction_start, transaction_abort,
  map_put, map_put_unique, map_get, map_del,
}
use mdb_linux.Storage.Session.{Verdict, commit, abort, in_transaction, with_open, map_open}

abbrev pub Bytes : Type 0
Bytes = List ℕ

-- MDV_OBJECTS_IDGEN, the key of 16 bits of the only entry of the map of identifiers.
abbrev pub idgen_key : Bytes
idgen_key = encode 2 0

-- `idgen` is the last free identifier; the mutex that guards it makes the operations take turns.
pub record Objects (E : Type 0) : Type 0 where
  pub storage : E
  pub idgen : ℕ

module _ {E T : Type 0} (db : Lmdb Bytes Bytes E T) where
  -- `mutex` answers the lock.
  unfoldable pub reserve_body : ℕ → T → Verdict T
  unfolding map_put
  reserve_body new_id = with_open db idgen true λ t.
      let p = map_put db idgen idgen_key (encode 8 new_id) (some t) in
      if p.0 then commit p.1 else abort failed

  abbrev pub reserved : ℕ → Errno × E → Objects E → Errno × (ℕ × Objects E)
  reserved new_id (ok, e) s = (ok, (s.idgen, record { storage = e; idgen = new_id }))
  reserved new_id (failed, e) s = (failed, (0, record s { storage = e }))
  reserved new_id (not_found, e) s = (not_found, (0, record s { storage = e }))

  unfoldable pub reserve_ids_range : Bool → ℕ → Objects E → Errno × (ℕ × Objects E)
  unfolding reserve_body
  reserve_ids_range locked range s =
      let new_id = (s.idgen + range) % 2 ^ 64 in
      if locked
      then reserved new_id (in_transaction db (reserve_body new_id) s.storage) s
      else (failed, (0, s))

  abbrev pub started : E → Option Bytes → Objects E
  started e none = record { storage = e; idgen = 0 }
  started e (some value) = record { storage = e; idgen = decode value }

  abbrev pub stored_id : Bool × T → Option Bytes
  unfolding map_get
  stored_id m = if m.0 then map_get db idgen idgen_key (some m.1) else none

  -- The generator goes on from what is stored, and from 0 when nothing can be read.
  unfoldable pub idgen_init : E → Option (Objects E)
  unfolding map_open transaction_start
  idgen_init e = elim (transaction_start db e) [
    | none ↦ none
    | some t ↦ some (started e (stored_id (map_open db idgen false t)))
  ]

  abbrev pub is_deleted : Bytes → Option T → Bool
  unfolding map_get
  is_deleted id t = elim (map_get db removed id t) [ none ↦ false | some v ↦ true ]

  unfoldable pub add_body : Bytes → Bytes → T → Verdict T
  unfolding map_put_unique map_get
  add_body id obj = with_open db objects true (
      with_open db removed true λ t.
        if is_deleted id (some t)
        then abort ok
        else commit (map_put_unique db objects id obj (some t)).1)

  unfoldable pub add : Bytes → Bytes → E → Errno × E
  add id obj e = in_transaction db (add_body id obj) e

  -- One turn of the loop. The flag is `commit`; the handle is `none` behind an abort.
  unfoldable pub add_next : Bytes × Bytes → Bool × Option T → Bool × Option T
  unfolding map_put_unique map_get transaction_abort
  add_next (id, obj) (flag, t) =
      let p = map_put_unique db objects id obj t in
      if is_deleted id t
      then (flag, (transaction_abort db t).1)
      else (if p.0 then true else flag, p.1)

  unfoldable pub add_all : List (Bytes × Bytes) → Bool × Option T → Bool × Option T
  unfolding add_next
  add_all [] s = s
  add_all (p ∷ batch) s = add_all batch (add_next p s)

  abbrev pub leave : Bool × Option T → Verdict T
  leave (flag, t) = if flag then commit t else abort ok

  -- `batch` is what `next` gives until it returns false.
  unfoldable pub batch_body : List (Bytes × Bytes) → T → Verdict T
  batch_body batch =
      with_open db objects true
        (with_open db removed true λ t. leave (add_all batch (false, some t)))

  unfoldable pub add_batch : List (Bytes × Bytes) → E → Errno × E
  add_batch batch e = in_transaction db (batch_body batch) e

  abbrev pub unlink : Bytes → Bool × Option T → Verdict T
  unfolding map_del
  unlink id (put_done, t) =
      let d = map_del db objects id t in
      if put_done then (if d.0 then commit d.1 else abort failed) else abort failed

  unfoldable pub delete_body : Bytes → T → Verdict T
  unfolding map_put map_get
  delete_body id = with_open db objects true (
      with_open db removed true λ t. elim (map_get db objects id (some t)) [
        | none ↦ abort not_found
        | some value ↦ unlink id (map_put db removed id [] (some t))
      ])

  unfoldable pub delete : Bytes → E → Errno × E
  delete id e = in_transaction db (delete_body id) e

  abbrev pub found_object : Bytes → T → Option Bytes
  unfolding map_get
  found_object id t = if is_deleted id (some t) then none else map_get db objects id (some t)

  abbrev pub objects_then : (T → Option Bytes) → Bool × T → Option Bytes
  objects_then f m = if m.0 then f m.1 else none

  -- The map of objects is created for the transaction that is dropped; that of the removed ones
  -- has to exist. The caller restores the object from the bytes.
  unfoldable pub get : Bytes → E → Option Bytes
  unfolding transaction_start map_open
  get id e = elim (transaction_start db e) [
    | none ↦ none
    | some t ↦
        objects_then (λ t. objects_then (found_object id) (map_open db removed false t))
          (map_open db objects true t)
  ]
