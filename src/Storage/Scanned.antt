-- ===== src/Storage/Scanned.antt =====
-- The sequential scan of mdv_storage/ops/mdv_scan_seq.c over the objects of
-- mdv_storage/mdv_2pset.c.
use mdb_linux.Base.{
  ◌≡◌, ◌≢◌, refl, sym, ap, ◌∙◌, inl, inr, suc, length, Bool, true, false, List, [], ◌∷◌, Option,
  none, some, some-eq-some, Bool-cases, Option-cases, map, subst,
}
use mdb_linux.Operators.{Row, no_rows}
use mdb_linux.Operators.Drain.{drain}
use mdb_linux.Operators.Scan.{StandsAt, ScanSeq, scan_seq, scan_seq_next, drain-scan_seq}
use mdb_linux.Storage.Rows.{KeyOrder}
use mdb_linux.Storage.Lmdb.{Lmdb, Documented, objects, transaction_start}
use mdb_linux.Storage.Session.{map_open}
use mdb_linux.Storage.TwoPSet.{Bytes}
use mdb_linux.Storage.Objects
use mdb_linux.Storage.Objects.{
  ObjectsEnumerator, objects_fns, row_of, blank_row, impl_next, impl_current, impl_reset,
}

-- What a scan gives of some pairs: of none, one row without contents.
abbrev pub scanned : List (Bytes × Bytes) → List Row
scanned [] = blank_row ∷ []
scanned (p ∷ rows) = row_of p ∷ map row_of rows

StandsAt-left :
    (all : List (Bytes × Bytes)) (p : Bytes × Bytes) (rows : List (Bytes × Bytes))
    → StandsAt objects_fns
        (record { all = all; left = p ∷ rows; current = row_of p })
        (scanned (p ∷ rows))
unfolding impl_next impl_current
StandsAt-left all p [] = (refl, refl)
StandsAt-left all p (q ∷ rows) = (refl, (refl, StandsAt-left all q rows))

StandsAt-reset :
    (all : List (Bytes × Bytes))
    → StandsAt objects_fns
        (impl_reset (record { all = all; left = []; current = blank_row })).1
        (scanned all)
unfolding impl_next impl_current impl_reset
StandsAt-reset [] = (refl, refl)
StandsAt-reset (p ∷ rows) = StandsAt-left (p ∷ rows) p rows

absent : {A : Type 0} {a : A} → none ≢ some a
absent h = cc

module _ (keys : KeyOrder Bytes) {E T : Type 0} (db : Lmdb Bytes Bytes E T) where
  module _ (doc : Documented keys db) where
    -- A transaction that sees these objects.
    abbrev Sees : List (Bytes × Bytes) → T → Type 0
    Sees rows t = (doc.usable t ≡ true) × ((doc.seen t).rows objects ≡ rows)

    open-Sees :
        (rows : List (Bytes × Bytes)) (t : T)
        → Sees rows t
        → Sees rows (db.dbi_open objects true t).1
    open-Sees rows t (u, h) = elim (Bool-cases (db.dbi_open objects true t).0) [
      | inl o ↦ let l = doc.open_law objects true t u o in (l.0, ap (λ w. w.rows objects) l.1.0 ∙ h)
      | inr f ↦
          let l = doc.not_open_law objects true t u f in (l.0, ap (λ w. w.rows objects) l.1 ∙ h)
    ]

    map-Sees :
        (rows : List (Bytes × Bytes)) (t : T) → Sees rows t → Sees rows (Objects.opened_map db t).1
    unfolding Objects.opened_map map_open
    map-Sees rows t h =
        let m = db.dbi_open objects true t in
        elim (Bool-cases m.0) [
          | inl o ↦ rw (o) (open-Sees rows t h)
          | inr f ↦ rw (f) (open-Sees rows m.1 (open-Sees rows t h))
        ]

    cursor-Sees :
        (rows : List (Bytes × Bytes)) (c : Bool × Bool) (m : Bool × T) (s : T)
        → Sees rows m.1
        → Objects.opened_cursor db c m ≡ some s
        → Sees rows s
    unfolding Objects.opened_cursor map_open
    cursor-Sees rows c (false, t) s h e = absurd cc
    cursor-Sees rows (true, c) (true, t) s h e = subst (Sees rows) (some-eq-some e) h
    cursor-Sees rows (false, c) (true, t) s h e =
        let again = db.dbi_open objects true t in
        elim (Bool-cases again.0) [
          | inl o ↦ elim (Bool-cases c) [
            | inl y ↦ subst (Sees rows) (some-eq-some (rw (o, y) at e)) (open-Sees rows t h)
            | inr n ↦ absurd (absent (rw (o, n) at e))
          ]
          | inr f ↦ absurd (absent (rw (f) at e))
        ]

    cursor-StandsAt :
        (rows : List (Bytes × Bytes)) (s : T)
        → Sees rows s
        → StandsAt objects_fns (impl_reset (Objects.fresh db s)).1 (scanned rows)
    cursor-StandsAt rows s (u, h) =
        subst
          (λ all.
            StandsAt objects_fns
              (impl_reset (record { all = all; left = []; current = blank_row })).1 (scanned rows))
          (sym (doc.walk_law objects s u ∙ h)) (StandsAt-reset rows)

    found-StandsAt :
        (rows : List (Bytes × Bytes)) (o : Option T) (en : ObjectsEnumerator)
        → ((s : T) → o ≡ some s → Sees rows s)
        → elim o [ none ↦ none | some s ↦ some (impl_reset (Objects.fresh db s)).1 ] ≡ some en
        → StandsAt objects_fns en (scanned rows)
    found-StandsAt rows none en h e = absurd cc
    found-StandsAt rows (some s) en h e =
        subst (λ x. StandsAt objects_fns x (scanned rows)) (some-eq-some e)
          (cursor-StandsAt rows s (h s refl))

    enumerator-StandsAt :
        (granted : Bool) (cursors : Bool × Bool) (e : E) (en : ObjectsEnumerator)
        → Objects.enumerator db granted cursors e ≡ some en
        → StandsAt objects_fns en (scanned ((doc.committed e).rows objects))
    unfolding Objects.enumerator transaction_start
    enumerator-StandsAt false cursors e en h = absurd (absent h)
    enumerator-StandsAt true cursors e en h = elim (Option-cases (db.txn_begin e)) [
      | inl n ↦ absurd (absent (rw (Objects.enumerator, n) at h))
      | inr (t, b) ↦
          let l = doc.begin_law e t b in
          let rows = (doc.committed e).rows objects in
          found-StandsAt rows (Objects.opened_cursor db cursors (Objects.opened_map db t)) en
            (λ x.
              cursor-Sees rows cursors (Objects.opened_map db t) x
                (map-Sees rows t (l.0, ap (λ w. w.rows objects) l.1)))
            (rw (Objects.enumerator, b) at h)
    ]

    -- A scan of the stored objects gives each of them with its identifier, in the order of the
    -- keys, and then says that there are no more; of an empty set it gives one row without
    -- contents before it does. The enumerator could be created.
    pub drain-objects :
        (granted : Bool) (cursors : Bool × Bool) (e : E) (en : ObjectsEnumerator)
        (s : ScanSeq ObjectsEnumerator) (out : Row)
        → Objects.enumerator db granted cursors e ≡ some en
        → scan_seq true (some en) ≡ some s
        → drain
            (scan_seq_next objects_fns)
            (suc (length (scanned ((doc.committed e).rows objects))))
            s
            out
          ≡ (scanned ((doc.committed e).rows objects), some no_rows)
    unfolding scan_seq
    drain-objects granted cursors e en s out h g =
        let made = some-eq-some g in
        let rows = scanned ((doc.committed e).rows objects) in
        drain-scan_seq objects_fns s rows out (ap (λ x. x.current) (sym made))
          (ap (λ x. x.at_end) (sym made))
          (subst (λ x. StandsAt objects_fns x.enumerator rows) made
            (enumerator-StandsAt granted cursors e en h))
