-- ===== src/Storage/Reserved.antt =====
-- The identifiers that mdv_2pset_reserve_ids_range of mdv_storage/mdv_2pset.c gives away.
use mdb_linux.Base.{
  clash, ℕ, ◌+◌, ◌%◌, ◌^◌, ◌<◌, ◌≤◌, ◌≡◌, refl, subst, sym, ap, ◌∙◌, inl, inr, Bool, true, false,
  List, [], ◌∷◌, Option, none, some, Bool-cases, decode, decode-encode, arith,
}
use mdb_linux.Storage.Rows.{KeyOrder, find}
use mdb_linux.Storage.Lmdb.{
  Lmdb, Documented, idgen, Errno, ok, failed, not_found, map_get, transaction_start,
}
use mdb_linux.Storage.Session.{in_transaction, map_open}
use mdb_linux.Storage.TwoPSet
use mdb_linux.Storage.TwoPSet.{Bytes, Objects, idgen_key}
use mdb_linux.Storage.Sets.{sets}
use mdb_linux.Storage.Refine.{stored_now, add-refines}
use mdb_linux.Storage.Delete.{delete-refines}
use mdb_linux.Storage.Batch.{add_batch-atomic}
use mdb_linux.Storage.Ids.{Reserves, reserve-Meets}
use mdb_linux.Storage.Sound.{Sound}
use mdb_linux.Storage.Next.{Adds-next, Deletes-next, batch-next}
use mdb_linux.Storage.Run.{Call, add, add_batch, delete, reserve, reopen, after, opened, run, now}

-- The identifier at which a generator goes on from what is stored.
abbrev pub known : Option Bytes → ℕ
known none = 0
known (some v) = decode v

-- The most identifiers that some calls can give away.
abbrev pub wanted : Call → ℕ
wanted (reserve locked range) = range
wanted _ = 0

abbrev pub all_wanted : List Call → ℕ
all_wanted [] = 0
all_wanted (c ∷ calls) = wanted c + all_wanted calls

module _ (keys : KeyOrder Bytes) {E T : Type 0} (db : Lmdb Bytes Bytes E T) where
  module _ (doc : Documented keys db) where
    -- The generator in memory stands where the stored one does.
    abbrev pub InStep : Objects E → Type 0
    InStep s = known (now db keys doc s).next_id ≡ s.idgen

    -- What a reservation leaves, by its answer.
    abbrev Leaves : ℕ → Objects E → Errno → Objects E → Type 0
    Leaves n s ok u = (u.idgen ≡ n) × InStep u
    Leaves n s failed u = (u.idgen ≡ s.idgen) × InStep u
    Leaves n s not_found u = false ≡ true

    reserved-Leaves :
        (n : ℕ) (s : Objects E) (r : Errno × E)
        → InStep s
        → n < 2 ^ 64
        → Reserves keys n (doc.committed s.storage) r.0 (doc.committed r.1)
        → Leaves n s (TwoPSet.reserved db n r s).0 (TwoPSet.reserved db n r s).1.1
    reserved-Leaves n s (ok, e) i l h = (refl, ap (λ x. known x.next_id) h ∙ decode-encode 8 n l)
    reserved-Leaves n s (failed, e) i l h = (refl, ap (λ v. known (sets keys v).next_id) h ∙ i)
    reserved-Leaves n s (not_found, e) i l h = h

    reserve-Leaves :
        (locked : Bool) (range : ℕ) (s : Objects E)
        → InStep s
        → Leaves
            ((s.idgen + range) % 2 ^ 64)
            s
            (TwoPSet.reserve_ids_range db locked range s).0
            (TwoPSet.reserve_ids_range db locked range s).1.1
    unfolding TwoPSet.reserve_ids_range
    reserve-Leaves false range s i = (refl, i)
    reserve-Leaves true range s i =
        let n = (s.idgen + range) % 2 ^ 64 in
        reserved-Leaves n s (in_transaction db (TwoPSet.reserve_body db n) s.storage) i
          (omega arith) (reserve-Meets keys db doc n s.storage)

    reserved-id :
        (n : ℕ) (s : Objects E) (r : Errno × E)
        → (TwoPSet.reserved db n r s).0 ≡ ok
        → (TwoPSet.reserved db n r s).1.0 ≡ s.idgen
    reserved-id n s (ok, e) h = refl
    reserved-id n s (failed, e) h = absurd cc
    reserved-id n s (not_found, e) h = absurd cc

    reserve-id :
        (locked : Bool) (range : ℕ) (s : Objects E)
        → (TwoPSet.reserve_ids_range db locked range s).0 ≡ ok
        → (TwoPSet.reserve_ids_range db locked range s).1.0 ≡ s.idgen
    unfolding TwoPSet.reserve_ids_range
    reserve-id false range s h = absurd cc
    reserve-id true range s h =
        let n = (s.idgen + range) % 2 ^ 64 in
        reserved-id n s (in_transaction db (TwoPSet.reserve_body db n) s.storage) h

    Leaves-ok :
        (n : ℕ) (s : Objects E) (x : Errno) (u : Objects E) → Leaves n s x u → x ≡ ok → u.idgen ≡ n
    Leaves-ok n s ok u h x = h.0
    Leaves-ok n s failed u h x = absurd cc
    Leaves-ok n s not_found u h x = absurd cc

    -- Between `low` and `high`, and in step.
    abbrev Within : ℕ → ℕ → Objects E → Type 0
    Within low high u = (low ≤ u.idgen) × ((u.idgen ≤ high) × InStep u)

    Leaves-Within :
        (range : ℕ) (s : Objects E) (x : Errno) (u : Objects E)
        → s.idgen + range < 2 ^ 64
        → Leaves ((s.idgen + range) % 2 ^ 64) s x u
        → Within s.idgen (s.idgen + range) u
    Leaves-Within range s ok u l h = (omega (arith, h.0), (omega (arith, h.0), h.1))
    Leaves-Within range s failed u l h = (omega (arith, h.0), (omega (arith, h.0), h.1))
    Leaves-Within range s not_found u l h = absurd (clash refl (sym h))

    kept-Within :
        (s : Objects E) (e : E)
        → InStep s
        → (stored_now keys db doc e).next_id ≡ (now db keys doc s).next_id
        → Within s.idgen s.idgen (record s { storage = e })
    kept-Within s e i h = (omega arith, (omega arith, ap known h ∙ i))

    module _ (sound : Sound keys db doc) where
      closed :
          (t : T) (e : E)
          → doc.usable t ≡ true
          → doc.seen t ≡ doc.committed e
          → (db.dbi_open idgen false t).0 ≡ false
          → (doc.committed e).rows idgen ≡ []
      closed t e u h f =
          sound.absent_ok e idgen (elim (Bool-cases ((doc.committed e).exists idgen)) [
            | inl x ↦
                absurd
                  (clash (sound.open_ok idgen false t u (inr (ap (λ w. w.exists idgen) h ∙ x))) f)
            | inr n ↦ n
          ])

      open_known :
          (t : T) (e : E)
          → doc.usable t ≡ true
          → doc.seen t ≡ doc.committed e
          → known (TwoPSet.stored_id db (db.dbi_open idgen false t))
            ≡ known (stored_now keys db doc e).next_id
      unfolding map_get
      open_known t e u h = elim (Bool-cases (db.dbi_open idgen false t).0) [
        | inl o ↦
            let l = doc.open_law idgen false t u o in
            rw (o) (
              ap known (doc.get_law idgen idgen_key (db.dbi_open idgen false t).1 l.0)
              ∙ ap (λ w. known (sets keys w).next_id) l.1.0
              ∙ ap (λ w. known (sets keys w).next_id) h)
        | inr f ↦ rw (f) (ap (λ r. known (find keys idgen_key r)) (sym (closed t e u h f)))
      ]

      started-Within :
          (s : Objects E) (o : Option Bytes)
          → InStep s
          → known o ≡ s.idgen
          → Within s.idgen s.idgen (TwoPSet.started db s.storage o)
      started-Within s none i h = (omega (arith, h), (omega (arith, h), i ∙ sym h))
      started-Within s (some v) i h = (omega (arith, h), (omega (arith, h), i ∙ sym h))

      reopen-Within : (s : Objects E) → InStep s → Within s.idgen s.idgen (after db reopen s)
      unfolding TwoPSet.idgen_init transaction_start map_open
      reopen-Within s i =
          let b = sound.begin_ok s.storage in
          let l = doc.begin_law s.storage b.0 b.1 in
          let o = TwoPSet.stored_id db (db.dbi_open idgen false b.0) in
          subst (λ x. Within s.idgen s.idgen (opened db x s))
            (ap
              (λ x. elim x [
                | none ↦ none
                | some t ↦ some (
                    TwoPSet.started db s.storage (TwoPSet.stored_id db (db.dbi_open idgen false t)))
              ])
              (sym b.1))
            (started-Within s o i (open_known b.0 s.storage l.0 l.1 ∙ i))

      Within-widen :
          (low high n : ℕ) (u : Objects E) → Within low low u → n ≡ low → Within n (n + high) u
      Within-widen low high n u h e = (omega (arith, h.0, e), (omega (arith, h.1.0, e), h.1.1))

      after-Within :
          (c : Call) (s : Objects E)
          → InStep s
          → s.idgen + wanted c < 2 ^ 64
          → Within s.idgen (s.idgen + wanted c) (after db c s)
      after-Within (add id obj) s i l =
          Within-widen s.idgen 0 s.idgen (after db (add id obj) s)
            (kept-Within s (TwoPSet.add db id obj s.storage).1 i (
              Adds-next keys doc.fits id obj (doc.committed s.storage)
                (TwoPSet.add db id obj s.storage).0
                (doc.committed (TwoPSet.add db id obj s.storage).1)
                (add-refines keys db doc id obj s.storage)))
            refl
      after-Within (add_batch batch) s i l =
          Within-widen s.idgen 0 s.idgen (after db (add_batch batch) s)
            (kept-Within s (TwoPSet.add_batch db batch s.storage).1 i (
              batch-next keys doc.fits batch (doc.committed s.storage)
                (TwoPSet.add_batch db batch s.storage).0
                (doc.committed (TwoPSet.add_batch db batch s.storage).1)
                (add_batch-atomic keys db doc batch s.storage)))
            refl
      after-Within (delete id) s i l =
          Within-widen s.idgen 0 s.idgen (after db (delete id) s)
            (kept-Within s (TwoPSet.delete db id s.storage).1 i (
              Deletes-next keys id (doc.committed s.storage) (TwoPSet.delete db id s.storage).0
                (doc.committed (TwoPSet.delete db id s.storage).1)
                (delete-refines keys db doc id s.storage)))
            refl
      after-Within (reserve locked range) s i l =
          Leaves-Within range s (TwoPSet.reserve_ids_range db locked range s).0
            (after db (reserve locked range) s) l (reserve-Leaves locked range s i)
      after-Within reopen s i l =
          Within-widen s.idgen 0 s.idgen (after db reopen s) (reopen-Within s i) refl

      run-Within :
          (calls : List Call) (s : Objects E)
          → InStep s
          → s.idgen + all_wanted calls < 2 ^ 64
          → Within s.idgen (s.idgen + all_wanted calls) (run db calls s)
      run-Within [] s i l = (omega arith, (omega arith, i))
      run-Within (c ∷ calls) s i l =
          let a = after-Within c s i (omega arith) in
          let b = run-Within calls (after db c s) a.1.1 (omega (arith, a.1.0)) in
          (omega (arith, a.0, b.0), (omega (arith, a.1.0, b.1.0), b.1.1))

      -- Two ranges of identifiers that were reserved, whatever was called in between and however
      -- often the storage was reopened, do not meet: the later one starts behind the earlier one,
      -- unless the counter of 64 bits could have wrapped around. At the start the generator in
      -- memory stands where the stored one does, and LMDB meets no error.
      pub reserved_ranges-disjoint :
          (locked again : Bool) (range more : ℕ) (calls : List Call) (s : Objects E)
          → InStep s
          → s.idgen + range + all_wanted calls < 2 ^ 64
          → (TwoPSet.reserve_ids_range db locked range s).0 ≡ ok
          → (TwoPSet.reserve_ids_range db again more
              (run db calls (TwoPSet.reserve_ids_range db locked range s).1.1)).0
            ≡ ok
          → (TwoPSet.reserve_ids_range db locked range s).1.0 + range
            ≤ (TwoPSet.reserve_ids_range db again more
                (run db calls (TwoPSet.reserve_ids_range db locked range s).1.1)).1.0
      reserved_ranges-disjoint locked again range more calls s i l h g =
          let u = (TwoPSet.reserve_ids_range db locked range s).1.1 in
          let a = reserve-Leaves locked range s i in
          let n =
            Leaves-ok ((s.idgen + range) % 2 ^ 64) s (TwoPSet.reserve_ids_range db locked range s).0
              u a h in
          let w =
            Leaves-Within range s (TwoPSet.reserve_ids_range db locked range s).0 u (omega arith)
              a in
          let b = run-Within calls u w.1.1 (omega (arith, w.1.0)) in
          omega
            (arith, n, b.0, reserve-id locked range s h, reserve-id again more (run db calls u) g)
