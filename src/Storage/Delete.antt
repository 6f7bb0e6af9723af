-- ===== src/Storage/Delete.antt =====
-- mdv_2pset_delete of mdv_storage/mdv_2pset.c.
use mdb_linux.Base.{
  ◌≡◌, refl, sym, ap, ◌∙◌, inl, inr, true, false, [], some, if◌then◌else◌, Bool-cases, Option-cases,
}
use mdb_linux.Storage.Rows.{KeyOrder}
use mdb_linux.Storage.Lmdb.{
  Put-cases, View, Lmdb, Documented, with_map, with_entry, without_entry, objects, removed, failed,
  map_put, map_del,
}
use mdb_linux.Storage.Session.{commit, abort, Ends}
use mdb_linux.Storage.TwoPSet
use mdb_linux.Storage.TwoPSet.{Bytes}
use mdb_linux.Storage.Refine.{opened-Ends, stored_now}
use mdb_linux.Storage.Sets.{Sets, sets, is_some, delete_from, Deletes, sets-move}

module _ (keys : KeyOrder Bytes) {E T : Type 0} (db : Lmdb Bytes Bytes E T) where
  module _ (doc : Documented keys db) where
    erase-Ends :
        (id : Bytes) (t : T) (w : View Bytes Bytes) (s : View Bytes Bytes)
        → doc.usable t ≡ true
        → doc.seen t ≡ with_entry keys removed id [] s
        → sets keys s ≡ sets keys w
        → is_some ((sets keys w).added id) ≡ true
        → Ends db keys doc (Deletes keys id w) w (
            if (db.del objects id t).0 then commit (some (db.del objects id t).1) else abort failed)
    erase-Ends id t w s u r h a = elim (Bool-cases (db.del objects id t).0) [
      | inl d ↦
          let law = doc.del_law objects id t u d in
          rw (d) (λ x. (
            a,
            ap (sets keys) law.1
                ∙ ap (λ v. sets keys (without_entry keys objects id v)) r
                ∙ sets-move keys id [] s
                ∙ ap (delete_from keys id) h,
          ))
      | inr d ↦ rw (d) refl
    ]

    unlink-Ends :
        (id : Bytes) (t : T) (w : View Bytes Bytes)
        → doc.usable t ≡ true
        → sets keys (doc.seen t) ≡ sets keys w
        → is_some ((sets keys w).added id) ≡ true
        → Ends db keys doc
            (Deletes keys id w)
            w
            (TwoPSet.unlink db id (map_put db removed id [] (some t)))
    unfolding map_put map_del
    unlink-Ends id t w u h a = elim (Put-cases (db.put false removed id [] t).0) [
      | inl p ↦
          let law = doc.put_law false removed id [] t u p in
          rw (p) (
            erase-Ends id (db.put false removed id [] t).1 w (with_map keys removed (doc.seen t))
              law.0 law.1.0 h a)
      | inr (inl p) ↦ rw (p) refl
      | inr (inr (inl p)) ↦ rw (p) refl
      | inr (inr (inr p)) ↦ rw (p) refl
    ]

    known-get :
        (id : Bytes) (t : T) (s : Sets)
        → doc.usable t ≡ true
        → sets keys (doc.seen t) ≡ s
        → is_some (s.added id) ≡ is_some (db.get objects id t)
    known-get id t s u h =
        ap (λ x. is_some (x.added id)) (sym h) ∙ ap is_some (sym (doc.get_law objects id t u))

    -- A deletion takes the object out and keeps its identifier among the deleted ones; it says
    -- that the object is not found just when it is not there, and then, as when it fails, nothing
    -- has changed. Looking up a key in a usable transaction meets no error.
    pub delete-refines :
        (id : Bytes) (e : E)
        → Deletes keys id
            (doc.committed e)
            (TwoPSet.delete db id e).0
            (doc.committed (TwoPSet.delete db id e).1)
    unfolding TwoPSet.delete TwoPSet.delete_body
    delete-refines id e =
        let P = Deletes keys id (doc.committed e) in
        opened-Ends keys db doc P _ e refl (λ t u s. elim (Option-cases (db.get objects id t)) [
          | inl n ↦ rw (n) (known-get id t (stored_now keys db doc e) u s ∙ ap is_some n, refl)
          | inr (v, p) ↦ rw (p) (
              unlink-Ends id t (doc.committed e) u s
                (known-get id t (stored_now keys db doc e) u s ∙ ap is_some p))
        ])
