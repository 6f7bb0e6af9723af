-- ===== src/Storage/Deleted.antt =====
-- What becomes of an object of mdv_storage/mdv_2pset.c that was deleted, and of one that was added.
use mdb_linux.Base.{
  ◌≡◌, refl, ap, ◌∙◌, inl, inr, Bool, true, false, List, Option, none, Option-cases, if◌then◌else◌,
}
use mdb_linux.Storage.Rows.{KeyOrder}
use mdb_linux.Storage.Lmdb.{
  View, Lmdb, Documented, objects, removed, Errno, ok, failed, not_found, transaction_start,
  map_get,
}
use mdb_linux.Storage.Session.{map_open}
use mdb_linux.Storage.TwoPSet
use mdb_linux.Storage.TwoPSet.{Bytes, Objects}
use mdb_linux.Storage.Sets.{sets, Deletes, delete_from}
use mdb_linux.Storage.Refine.{stored_now, deleted-get}
use mdb_linux.Storage.Delete.{delete-refines}
use mdb_linux.Storage.Steps.{deleted-Steps, IsValid, Steps-IsValid}
use mdb_linux.Storage.Run.{Call, delete, after, run, now, run-Steps}

module _ (keys : KeyOrder Bytes) {E T : Type 0} (db : Lmdb Bytes Bytes E T) where
  then-none :
      (f : T → Option Bytes) (m : Bool × T)
      → (m.0 ≡ true → f m.1 ≡ none)
      → TwoPSet.objects_then db f m ≡ none
  then-none f (false, t) h = refl
  then-none f (true, t) h = h refl

  module _ (doc : Documented keys db) where
    deleted-found :
        (id : Bytes) (t : T)
        → doc.usable t ≡ true
        → (sets keys (doc.seen t)).deleted id ≡ true
        → TwoPSet.found_object db id t ≡ none
    unfolding map_get
    deleted-found id t u d =
        ap (λ b. if b then none else db.get objects id t)
          (deleted-get keys db doc id t (sets keys (doc.seen t)) u refl ∙ d)

    pub deleted-get_none :
        (id : Bytes) (e : E)
        → (stored_now keys db doc e).deleted id ≡ true
        → TwoPSet.get db id e ≡ none
    unfolding TwoPSet.get transaction_start map_open
    deleted-get_none id e d = elim (Option-cases (db.txn_begin e)) [
      | inl n ↦ rw (TwoPSet.get, n)
      | inr (t, b) ↦
          let l = doc.begin_law e t b in
          rw (TwoPSet.get, b)
            (then-none
              (λ t.
                TwoPSet.objects_then db (TwoPSet.found_object db id) (map_open db removed false t))
              (db.dbi_open objects true t)
              (λ o.
                let l1 = doc.open_law objects true t l.0 o in
                let t1 = (db.dbi_open objects true t).1 in
                then-none (TwoPSet.found_object db id) (db.dbi_open removed false t1) (λ o2.
                  let l2 = doc.open_law removed false t1 l1.0 o2 in
                  deleted-found id (db.dbi_open removed false t1).1 l2.0 (
                    ap (λ w. (sets keys w).deleted id) l2.1.0
                    ∙ ap (λ w. (sets keys w).deleted id) l1.1.0
                    ∙ ap (λ w. (sets keys w).deleted id) l.1
                    ∙ d))))
    ]

    Deletes-deleted :
        (id : Bytes) (w : View Bytes Bytes) (x : Errno) (new : View Bytes Bytes)
        → Deletes keys id w x new
        → x ≡ ok
        → (sets keys new).deleted id ≡ true
    unfolding delete_from
    Deletes-deleted id w ok new h x =
        ap (λ s. s.deleted id) h.1
        ∙ ap (λ b. if b then true else (sets keys w).deleted id) ((keys.same_iff id id).1 refl)
    Deletes-deleted id w failed new h x = absurd cc
    Deletes-deleted id w not_found new h x = absurd cc

    -- An object whose deletion succeeded is never found again, whatever is called afterwards: its
    -- identifier cannot be added again, not even after the storage is reopened. Looking up a key in a
    -- usable transaction meets no error.
    pub get-deleted_forever :
        (id : Bytes) (s : Objects E) (calls : List Call)
        → (TwoPSet.delete db id s.storage).0 ≡ ok
        → TwoPSet.get db id (run db calls (after db (delete id) s)).storage ≡ none
    get-deleted_forever id s calls h =
        let s1 = after db (delete id) s in
        deleted-get_none id (run db calls s1).storage (
          deleted-Steps keys id (now db keys doc s1) (now db keys doc (run db calls s1))
            (run-Steps db keys doc calls s1)
            (Deletes-deleted id (doc.committed s.storage) (TwoPSet.delete db id s.storage).0
              (doc.committed s1.storage) (delete-refines keys db doc id s.storage) h))

    -- Whatever is called, no identifier is both among the stored objects and among the deleted
    -- ones, if none was before.
    pub run-IsValid :
        (calls : List Call) (s : Objects E)
        → IsValid keys (now db keys doc s)
        → IsValid keys (now db keys doc (run db calls s))
    run-IsValid calls s =
        Steps-IsValid keys (now db keys doc s) (now db keys doc (run db calls s))
          (run-Steps db keys doc calls s)
