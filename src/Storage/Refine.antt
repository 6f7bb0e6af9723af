-- ===== src/Storage/Refine.antt =====
-- mdv_2pset_add of mdv_storage/mdv_2pset.c against the set it promises, and what its proof shares
-- with those of the other operations.
use mdb_linux.Base.{
  clash, ◌≡◌, refl, sym, ap, ◌∙◌, inl, inr, true, false, some, if◌then◌else◌, Bool-cases,
}
use mdb_linux.Storage.Rows.{KeyOrder}
use mdb_linux.Storage.Lmdb.{
  Put-cases, View, Lmdb, Documented, objects, removed, Errno, ok, failed, map_put_unique, map_get,
}
use mdb_linux.Storage.Session.{
  Verdict, commit, abort, in_transaction, with_open, Ends, Meets, in_transaction-Meets,
  with_open-Ends,
}
use mdb_linux.Storage.TwoPSet
use mdb_linux.Storage.TwoPSet.{Bytes}
use mdb_linux.Storage.Sets.{
  Sets, is_some, some_of, is_some-elim, with_object, add_to, add_to-free, add_to-taken,
  add_to-deleted, sets, Grown, Adds, sets-insert,
}

module _ (keys : KeyOrder Bytes) where
  module _ {E T : Type 0} (db : Lmdb Bytes Bytes E T) (doc : Documented keys db) where
    abbrev pub stored_now : E → Sets
    stored_now e = sets keys (doc.committed e)

    -- The write of an object that is not deleted.
    pub put-Ends :
        (id obj : Bytes) (t : T) (s : Sets)
        → doc.usable t ≡ true
        → sets keys (doc.seen t) ≡ s
        → s.deleted id ≡ false
        → doc.usable (db.put true objects id obj t).1 ≡ true
        → Grown keys doc.fits id obj s (sets keys (doc.seen (db.put true objects id obj t).1))
    unfolding add_to
    put-Ends id obj t s u h d u' = elim (Put-cases (db.put true objects id obj t).0) [
      | inl p ↦
          let law = doc.put_law true objects id obj t u p in
          inl (
            ap (sets keys) law.1.0
            ∙ sets-insert keys id obj (doc.seen t)
            ∙ ap (with_object keys id obj) h
            ∙ sym (
                add_to-free keys id obj s d
                  (ap (λ x. is_some (x.added id)) (sym h) ∙ ap is_some (law.1.1 refl))))
      | inr (inl p) ↦
          let law = doc.put_exists_law true objects id obj t u p in
          inl (
            ap (sets keys) law.1.0
            ∙ h
            ∙ sym (
                add_to-taken keys id obj s
                  (ap (λ x. is_some (x.added id)) (sym h) ∙ some_of _ law.1.1)))
      | inr (inr (inl p)) ↦
          let law = doc.put_refused_law true objects id obj t u p in
          inr (law.1.1, ap (sets keys) law.1.0 ∙ h)
      | inr (inr (inr p)) ↦ absurd (clash u' (doc.put_spoiled_law true objects id obj t p))
    ]

    -- The same of an object of a size that LMDB takes.
    pub put_fit-Ends :
        (id obj : Bytes) (t : T) (s : Sets)
        → doc.fits id obj ≡ true
        → doc.usable t ≡ true
        → sets keys (doc.seen t) ≡ s
        → s.deleted id ≡ false
        → doc.usable (db.put true objects id obj t).1 ≡ true
        → sets keys (doc.seen (db.put true objects id obj t).1) ≡ add_to keys id obj s
    put_fit-Ends id obj t s f u h d u' = elim (put-Ends id obj t s u h d u') [
      | inl e ↦ e
      | inr (n, _) ↦ absurd (clash f n)
    ]

    pub deleted-get :
        (id : Bytes) (t : T) (s : Sets)
        → doc.usable t ≡ true
        → sets keys (doc.seen t) ≡ s
        → TwoPSet.is_deleted db id (some t) ≡ s.deleted id
    unfolding map_get
    deleted-get id t s u h =
        is_some-elim (db.get removed id t)
        ∙ ap is_some (doc.get_law removed id t u)
        ∙ ap (λ x. x.deleted id) h

    add_write-Ends :
        (id obj : Bytes) (t : T) (w : View Bytes Bytes)
        → doc.usable t ≡ true
        → sets keys (doc.seen t) ≡ sets keys w
        → Ends db keys doc (Adds keys doc.fits id obj w) w (
            if TwoPSet.is_deleted db id (some t)
            then abort ok
            else commit (map_put_unique db objects id obj (some t)).1)
    unfolding map_put_unique
    add_write-Ends id obj t w u s = elim (Bool-cases ((sets keys w).deleted id)) [
      | inl d ↦
          rw (deleted-get id t (sets keys w) u s, d)
            (inl (sym (add_to-deleted keys id obj (sets keys w) d)))
      | inr d ↦ rw (deleted-get id t (sets keys w) u s, d) (put-Ends id obj t (sets keys w) u s d)
    ]

    -- The two maps are opened; the body then sees what is stored.
    pub opened-Ends :
        (P : Errno → View Bytes Bytes → Type 0) (body : T → Verdict T) (e : E)
        → P failed (doc.committed e)
        → ((t : T)
            → doc.usable t ≡ true
            → sets keys (doc.seen t) ≡ stored_now e
            → Ends db keys doc P (doc.committed e) (body t))
        → Meets db keys doc P
            (in_transaction db (with_open db objects true (with_open db removed true body)) e)
    opened-Ends P body e f h =
        let w = doc.committed e in
        in_transaction-Meets db keys doc P _ e f (λ t u s.
          with_open-Ends db keys doc P objects true _ t w u f (λ t1 u1 s1 c1.
            with_open-Ends db keys doc P removed true body t1 w u1 f
              (λ t2 u2 s2 c2. h t2 u2 (ap (sets keys) s2 ∙ ap (sets keys) s1 ∙ ap (sets keys) s))))

    -- An addition adds the object unless its identifier is taken or was deleted; when it fails,
    -- nothing has changed. An object or an identifier of a size that LMDB does not take may be left
    -- out with the answer MDV_OK. Looking up a key in a usable transaction meets no error.
    pub add-refines :
        (id obj : Bytes) (e : E)
        → Adds keys doc.fits id obj
            (doc.committed e)
            (TwoPSet.add db id obj e).0
            (doc.committed (TwoPSet.add db id obj e).1)
    unfolding TwoPSet.add TwoPSet.add_body
    add-refines id obj e =
        let P = Adds keys doc.fits id obj (doc.committed e) in
        opened-Ends P _ e refl (λ t. add_write-Ends id obj t (doc.committed e))
