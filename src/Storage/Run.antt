-- ===== src/Storage/Run.antt =====
-- Sequences of calls of the functions of mdv_storage/mdv_2pset.c.
use mdb_linux.Base.{
  clash, ℕ, ◌≡◌, refl, sym, subst, inl, inr, Bool, true, false, List, [], ◌∷◌, Option, none, some,
  ◌%◌, ◌^◌, ◌+◌, Option-cases,
}
use mdb_linux.Storage.Rows.{KeyOrder}
use mdb_linux.Storage.Lmdb.{
  View, Lmdb, Documented, idgen, Errno, ok, failed, not_found, transaction_start,
}
use mdb_linux.Storage.Session.{in_transaction, map_open}
use mdb_linux.Storage.TwoPSet
use mdb_linux.Storage.TwoPSet.{Bytes, Objects}
use mdb_linux.Storage.Sets.{Sets, sets, Grown, Adds, Deletes}
use mdb_linux.Storage.Refine.{stored_now, add-refines}
use mdb_linux.Storage.Delete.{delete-refines}
use mdb_linux.Storage.Batch.{AddsEach, AllOrNothing, add_batch-atomic}
use mdb_linux.Storage.Ids.{Reserves, reserve-Meets}
use mdb_linux.Storage.Steps.{Steps, stay, add_step, delete_step, reserve_step, Steps-trans}

-- The calls; `reopen` closes the storage and opens it again.
pub data Call : Type 0 where
  add : Bytes → Bytes → Call
  add_batch : List (Bytes × Bytes) → Call
  delete : Bytes → Call
  reserve : Bool → ℕ → Call
  reopen : Call

module _ {E T : Type 0} (db : Lmdb Bytes Bytes E T) where
  abbrev pub opened : Option (Objects E) → Objects E → Objects E
  opened none s = s
  opened (some t) s = t

  -- What a call leaves, whatever it answers.
  abbrev pub after : Call → Objects E → Objects E
  after (add id obj) s = record s { storage = (TwoPSet.add db id obj s.storage).1 }
  after (add_batch batch) s = record s { storage = (TwoPSet.add_batch db batch s.storage).1 }
  after (delete id) s = record s { storage = (TwoPSet.delete db id s.storage).1 }
  after (reserve locked range) s = (TwoPSet.reserve_ids_range db locked range s).1.1
  after reopen s = opened (TwoPSet.idgen_init db s.storage) s

  abbrev pub run : List Call → Objects E → Objects E
  run [] s = s
  run (c ∷ calls) s = run calls (after c s)

  pub reserved-storage :
      (n : ℕ) (r : Errno × E) (s : Objects E) → (TwoPSet.reserved db n r s).1.1.storage ≡ r.1
  reserved-storage n (ok, e) s = refl
  reserved-storage n (failed, e) s = refl
  reserved-storage n (not_found, e) s = refl

  started-storage : (e : E) (o : Option Bytes) → (TwoPSet.started db e o).storage ≡ e
  started-storage e none = refl
  started-storage e (some v) = refl

  pub reopen-storage : (s : Objects E) → (after reopen s).storage ≡ s.storage
  unfolding TwoPSet.idgen_init transaction_start map_open
  reopen-storage s = elim (Option-cases (db.txn_begin s.storage)) [
    | inl n ↦ rw (TwoPSet.idgen_init, n)
    | inr (t, b) ↦
        rw (TwoPSet.idgen_init, b)
          (started-storage s.storage (TwoPSet.stored_id db (db.dbi_open idgen false t)))
  ]

  module _ (keys : KeyOrder Bytes) where
    same-Steps : (w new : View Bytes Bytes) → new ≡ w → Steps keys (sets keys w) (sets keys new)
    same-Steps w new h = subst (λ x. Steps keys (sets keys w) (sets keys x)) (sym h) (stay _)

    Grown-Steps :
        (fits : Bytes → Bytes → Bool) (id obj : Bytes) (s u : Sets)
        → Grown keys fits id obj s u
        → Steps keys s u
    Grown-Steps fits id obj s u (inl e) =
        subst (Steps keys s) (sym e) (add_step id obj _ _ (stay _))
    Grown-Steps fits id obj s u (inr (n, e)) = subst (Steps keys s) (sym e) (stay _)

    Adds-Steps :
        (fits : Bytes → Bytes → Bool) (id obj : Bytes) (w : View Bytes Bytes) (x : Errno)
        (new : View Bytes Bytes)
        → Adds keys fits id obj w x new
        → Steps keys (sets keys w) (sets keys new)
    Adds-Steps fits id obj w ok new h = Grown-Steps fits id obj (sets keys w) (sets keys new) h
    Adds-Steps fits id obj w failed new h = same-Steps w new h
    Adds-Steps fits id obj w not_found new h = absurd (clash refl (sym h))

    Deletes-Steps :
        (id : Bytes) (w : View Bytes Bytes) (x : Errno) (new : View Bytes Bytes)
        → Deletes keys id w x new
        → Steps keys (sets keys w) (sets keys new)
    Deletes-Steps id w ok new h =
        subst (Steps keys (sets keys w)) (sym h.1) (delete_step id _ _ h.0 (stay _))
    Deletes-Steps id w failed new h = same-Steps w new h
    Deletes-Steps id w not_found new h = same-Steps w new h.1

    AddsEach-Steps :
        (fits : Bytes → Bytes → Bool) (batch : List (Bytes × Bytes)) (s u : Sets)
        → AddsEach keys fits batch s u
        → Steps keys s u
    AddsEach-Steps fits [] s u e = subst (Steps keys s) (sym e) (stay s)
    AddsEach-Steps fits (p ∷ batch) s u (v, (g, rest)) =
        Steps-trans keys s v u (Grown-Steps fits p.0 p.1 s v g) (AddsEach-Steps fits batch v u rest)

    batch-Steps :
        (fits : Bytes → Bytes → Bool) (batch : List (Bytes × Bytes)) (w : View Bytes Bytes)
        (x : Errno) (new : View Bytes Bytes)
        → AllOrNothing keys fits batch w x new
        → Steps keys (sets keys w) (sets keys new)
    batch-Steps fits batch w ok new (inl h) =
        AddsEach-Steps fits batch (sets keys w) (sets keys new) h
    batch-Steps fits batch w ok new (inr h) = same-Steps w new h
    batch-Steps fits batch w failed new h = same-Steps w new h
    batch-Steps fits batch w not_found new h = absurd (clash refl (sym h))

    Reserves-Steps :
        (n : ℕ) (w : View Bytes Bytes) (x : Errno) (new : View Bytes Bytes)
        → Reserves keys n w x new
        → Steps keys (sets keys w) (sets keys new)
    Reserves-Steps n w ok new h =
        subst (Steps keys (sets keys w)) (sym h) (reserve_step _ _ _ (stay _))
    Reserves-Steps n w failed new h = same-Steps w new h
    Reserves-Steps n w not_found new h = absurd (clash refl (sym h))

    module _ (doc : Documented keys db) where
      abbrev pub now : Objects E → Sets
      now s = stored_now keys db doc s.storage

      reserve-Steps :
          (locked : Bool) (range : ℕ) (s : Objects E)
          → Steps keys (now s) (now (after (reserve locked range) s))
      unfolding TwoPSet.reserve_ids_range
      reserve-Steps false range s = stay _
      reserve-Steps true range s =
          let n = (s.idgen + range) % 2 ^ 64 in
          let r = in_transaction db (TwoPSet.reserve_body db n) s.storage in
          subst (λ e. Steps keys (now s) (stored_now keys db doc e)) (sym (reserved-storage n r s))
            (Reserves-Steps n (doc.committed s.storage) r.0 (doc.committed r.1)
              (reserve-Meets keys db doc n s.storage))

      -- Every call takes the set along the steps that it promises.
      pub after-Steps : (c : Call) (s : Objects E) → Steps keys (now s) (now (after c s))
      after-Steps (add id obj) s =
          Adds-Steps doc.fits id obj (doc.committed s.storage) (TwoPSet.add db id obj s.storage).0
            (doc.committed (TwoPSet.add db id obj s.storage).1)
            (add-refines keys db doc id obj s.storage)
      after-Steps (add_batch batch) s =
          batch-Steps doc.fits batch (doc.committed s.storage)
            (TwoPSet.add_batch db batch s.storage).0
            (doc.committed (TwoPSet.add_batch db batch s.storage).1)
            (add_batch-atomic keys db doc batch s.storage)
      after-Steps (delete id) s =
          Deletes-Steps id (doc.committed s.storage) (TwoPSet.delete db id s.storage).0
            (doc.committed (TwoPSet.delete db id s.storage).1)
            (delete-refines keys db doc id s.storage)
      after-Steps (reserve locked range) s = reserve-Steps locked range s
      after-Steps reopen s =
          subst (λ e. Steps keys (now s) (stored_now keys db doc e)) (sym (reopen-storage s))
            (stay _)

      -- Whatever calls run, in whatever order, and whichever of them fail, the stored set has only
      -- taken steps that it promises: additions, deletions of objects that are there, reservations.
      -- Looking up a key in a usable transaction meets no error.
      pub run-Steps : (calls : List Call) (s : Objects E) → Steps keys (now s) (now (run calls s))
      run-Steps [] s = stay _
      run-Steps (c ∷ calls) s =
          Steps-trans keys (now s) (now (after c s)) (now (run calls (after c s))) (after-Steps c s)
            (run-Steps calls (after c s))
