-- ===== src/Storage/Batch.antt =====
-- mdv_2pset_add_batch of mdv_storage/mdv_2pset.c.
use mdb_linux.Base.{
  clash, ◌≡◌, refl, sym, subst, ◌∙◌, ◌⊎◌, inl, inr, Bool, true, false, List, [], ◌∷◌, Option, none,
  some, Bool-cases,
}
use mdb_linux.Storage.Rows.{KeyOrder}
use mdb_linux.Storage.Lmdb.{
  View, Lmdb, Documented, objects, Errno, ok, failed, not_found, map_put_unique, map_get,
  transaction_abort,
}
use mdb_linux.Storage.Session.{usable_before, Ends}
use mdb_linux.Storage.TwoPSet
use mdb_linux.Storage.TwoPSet.{Bytes}
use mdb_linux.Storage.Refine.{opened-Ends, stored_now, put-Ends, deleted-get}
use mdb_linux.Storage.Steps.{deleted-add_to}
use mdb_linux.Storage.Sets.{Sets, sets, Grown, add_to}

module _ (keys : KeyOrder Bytes) where
  -- Each object of a batch in its turn.
  unfoldable pub add_each : List (Bytes × Bytes) → Sets → Sets
  add_each [] s = s
  add_each (p ∷ batch) s = add_each batch (add_to keys p.0 p.1 s)

  module _ (fits : Bytes → Bytes → Bool) where
    -- The same, without those that LMDB refuses for their size.
    abbrev pub AddsEach : List (Bytes × Bytes) → Sets → Sets → Type 0
    AddsEach [] s u = u ≡ s
    AddsEach (p ∷ batch) s u = (v : Sets) × (Grown keys fits p.0 p.1 s v × AddsEach batch v u)

    -- The whole batch or nothing; a failure is nothing.
    abbrev pub AllOrNothing :
        List (Bytes × Bytes) → View Bytes Bytes → Errno → View Bytes Bytes → Type 0
    AllOrNothing batch w ok new = AddsEach batch (sets keys w) (sets keys new) ⊎ (new ≡ w)
    AllOrNothing batch w failed new = new ≡ w
    AllOrNothing batch w not_found new = false ≡ true

  abbrev pub SomeDeleted : List (Bytes × Bytes) → Sets → Type 0
  SomeDeleted [] s = false ≡ true
  SomeDeleted (p ∷ batch) s = (s.deleted p.0 ≡ true) ⊎ SomeDeleted batch s

  SomeDeleted-add_to :
      (batch : List (Bytes × Bytes)) (id obj : Bytes) (s : Sets)
      → SomeDeleted batch s
      → SomeDeleted batch (add_to keys id obj s)
  SomeDeleted-add_to [] id obj s h = h
  SomeDeleted-add_to (p ∷ batch) id obj s (inl d) = inl (deleted-add_to keys id obj p.0 s ∙ d)
  SomeDeleted-add_to (p ∷ batch) id obj s (inr r) = inr (SomeDeleted-add_to batch id obj s r)

  SomeDeleted-Grown :
      (fits : Bytes → Bytes → Bool) (batch : List (Bytes × Bytes)) (id obj : Bytes) (s u : Sets)
      → Grown keys fits id obj s u
      → SomeDeleted batch s
      → SomeDeleted batch u
  SomeDeleted-Grown fits batch id obj s u (inl e) h =
      subst (SomeDeleted batch) (sym e) (SomeDeleted-add_to batch id obj s h)
  SomeDeleted-Grown fits batch id obj s u (inr (n, e)) h = subst (SomeDeleted batch) (sym e) h

  module _ {E T : Type 0} (db : Lmdb Bytes Bytes E T) (doc : Documented keys db) where
    -- Between two turns: a transaction that can still be committed sees `s`.
    abbrev Sees : Sets → Bool × Option T → Type 0
    Sees s (flag, none) = Unit
    Sees s (flag, some t) = doc.usable t ≡ true → sets keys (doc.seen t) ≡ s

    -- The transaction cannot be committed any more.
    abbrev Dead : Bool × Option T → Type 0
    Dead (flag, none) = Unit
    Dead (flag, some t) = doc.usable t ≡ false

    -- What a turn makes of the set.
    add_next-Sees :
        (p : Bytes × Bytes) (s : Sets) (a : Bool × Option T)
        → Sees s a
        → (v : Sets) × (Grown keys doc.fits p.0 p.1 s v × Sees v (TwoPSet.add_next db p a))
    unfolding TwoPSet.add_next map_put_unique map_get transaction_abort
    add_next-Sees (id, obj) s (flag, none) h = (add_to keys id obj s, (inl refl, tt))
    add_next-Sees (id, obj) s (flag, some t) h =
        elim (Bool-cases (TwoPSet.is_deleted db id (some t))) [
          | inl d ↦ (add_to keys id obj s, (inl refl, rw (d) tt))
          | inr d ↦ elim (Bool-cases (doc.usable (db.put true objects id obj t).1)) [
            | inl u ↦
                let b = usable_before db keys doc true objects id obj t u in
                (
                  sets keys (doc.seen (db.put true objects id obj t).1),
                  (
                    put-Ends keys db doc id obj t s b (h b)
                        (sym (deleted-get keys db doc id t s b (h b)) ∙ d) u,
                    rw (d) (λ _. refl),
                  ),
                )
            | inr n ↦ (add_to keys id obj s, (inl refl, rw (d) (λ u. absurd (clash u n))))
          ]
        ]

    -- Behind the loop.
    abbrev SeesEach : List (Bytes × Bytes) → Sets → Bool × Option T → Type 0
    SeesEach batch s (flag, none) = Unit
    SeesEach batch s (flag, some t) =
        doc.usable t ≡ true → AddsEach doc.fits batch s (sets keys (doc.seen t))

    SeesEach-turn :
        (p : Bytes × Bytes) (batch : List (Bytes × Bytes)) (s v : Sets) (a : Bool × Option T)
        → Grown keys doc.fits p.0 p.1 s v
        → SeesEach batch v a
        → SeesEach (p ∷ batch) s a
    SeesEach-turn p batch s v (flag, none) g h = tt
    SeesEach-turn p batch s v (flag, some t) g h = λ u. (v, (g, h u))

    SeesEach-end : (s : Sets) (a : Bool × Option T) → Sees s a → SeesEach [] s a
    SeesEach-end s (flag, none) h = tt
    SeesEach-end s (flag, some t) h = h

    add_all-SeesEach :
        (batch : List (Bytes × Bytes)) (s : Sets) (a : Bool × Option T)
        → Sees s a
        → SeesEach batch s (TwoPSet.add_all db batch a)
    unfolding TwoPSet.add_all
    add_all-SeesEach [] s a h = SeesEach-end s a h
    add_all-SeesEach (p ∷ batch) s a h =
        let (v, (g, r)) = add_next-Sees p s a h in
        SeesEach-turn p batch s v (TwoPSet.add_all db batch (TwoPSet.add_next db p a)) g
          (add_all-SeesEach batch v (TwoPSet.add_next db p a) r)

    add_next-Dead :
        (p : Bytes × Bytes) (a : Bool × Option T) → Dead a → Dead (TwoPSet.add_next db p a)
    unfolding TwoPSet.add_next map_put_unique map_get transaction_abort
    add_next-Dead (id, obj) (flag, none) h = tt
    add_next-Dead (id, obj) (flag, some t) h =
        elim (Bool-cases (TwoPSet.is_deleted db id (some t))) [
          | inl d ↦ rw (d) tt
          | inr d ↦ rw (d) (
              doc.put_spoiled_law true objects id obj t
                (doc.put_unusable_law true objects id obj t h))
        ]

    add_all-Dead :
        (batch : List (Bytes × Bytes)) (a : Bool × Option T)
        → Dead a
        → Dead (TwoPSet.add_all db batch a)
    unfolding TwoPSet.add_all
    add_all-Dead [] a h = h
    add_all-Dead (p ∷ batch) a h = add_all-Dead batch _ (add_next-Dead p a h)

    add_next-deleted :
        (p : Bytes × Bytes) (flag : Bool) (t : T)
        → TwoPSet.is_deleted db p.0 (some t) ≡ true
        → Dead (TwoPSet.add_next db p (flag, some t))
    unfolding TwoPSet.add_next map_get transaction_abort
    add_next-deleted (id, obj) flag t d = rw (d) tt

    -- The turn of an identifier that is deleted.
    deleted-Dead :
        (p : Bytes × Bytes) (s : Sets) (a : Bool × Option T)
        → Sees s a
        → s.deleted p.0 ≡ true
        → Dead (TwoPSet.add_next db p a)
    deleted-Dead p s (flag, none) h d = add_next-Dead p (flag, none) tt
    deleted-Dead (id, obj) s (flag, some t) h d = elim (Bool-cases (doc.usable t)) [
      | inl u ↦ add_next-deleted (id, obj) flag t (deleted-get keys db doc id t s u (h u) ∙ d)
      | inr u ↦ add_next-Dead (id, obj) (flag, some t) u
    ]

    SomeDeleted-Dead :
        (batch : List (Bytes × Bytes)) (s : Sets) (a : Bool × Option T)
        → Sees s a
        → SomeDeleted batch s
        → Dead (TwoPSet.add_all db batch a)
    unfolding TwoPSet.add_all
    SomeDeleted-Dead [] s a h d = absurd (clash refl (sym d))
    SomeDeleted-Dead (p ∷ batch) s a h (inl d) = add_all-Dead batch _ (deleted-Dead p s a h d)
    SomeDeleted-Dead (p ∷ batch) s a h (inr r) =
        let (v, (g, k)) = add_next-Sees p s a h in
        SomeDeleted-Dead batch v (TwoPSet.add_next db p a) k
          (SomeDeleted-Grown doc.fits batch p.0 p.1 s v g r)

    leave-AllOrNothing :
        (batch : List (Bytes × Bytes)) (w : View Bytes Bytes) (a : Bool × Option T)
        → SeesEach batch (sets keys w) a
        → Ends db keys doc (AllOrNothing doc.fits batch w) w (TwoPSet.leave db a)
    leave-AllOrNothing batch w (true, none) h = refl
    leave-AllOrNothing batch w (true, some t) h = λ u. inl (h u)
    leave-AllOrNothing batch w (false, none) h = inr refl
    leave-AllOrNothing batch w (false, some t) h = inr refl

    -- A batch is added whole, object by object in its order, or nothing of it is; when the answer
    -- is a failure, nothing is. Of a whole batch only objects are left out that, or whose
    -- identifiers, are of a size that LMDB does not take. Looking up a key in a usable transaction
    -- meets no error.
    pub add_batch-atomic :
        (batch : List (Bytes × Bytes)) (e : E)
        → AllOrNothing doc.fits batch
            (doc.committed e)
            (TwoPSet.add_batch db batch e).0
            (doc.committed (TwoPSet.add_batch db batch e).1)
    unfolding TwoPSet.add_batch TwoPSet.batch_body
    add_batch-atomic batch e =
        let w = doc.committed e in
        opened-Ends keys db doc (AllOrNothing doc.fits batch w) _ e refl (λ t u s.
          leave-AllOrNothing batch w _
            (add_all-SeesEach batch (stored_now keys db doc e) (false, some t) (λ u. s)))

    abbrev Unchanged : View Bytes Bytes → Errno → View Bytes Bytes → Type 0
    Unchanged w x new = new ≡ w

    leave-Unchanged :
        (w : View Bytes Bytes) (a : Bool × Option T)
        → Dead a
        → Ends db keys doc (Unchanged w) w (TwoPSet.leave db a)
    leave-Unchanged w (true, none) h = refl
    leave-Unchanged w (true, some t) h = λ u. absurd (clash u h)
    leave-Unchanged w (false, none) h = refl
    leave-Unchanged w (false, some t) h = refl

    -- A batch with an identifier that was deleted before changes nothing: its other objects are
    -- lost with it. Looking up a key in a usable transaction meets no error.
    pub add_batch-deleted :
        (batch : List (Bytes × Bytes)) (e : E)
        → SomeDeleted batch (stored_now keys db doc e)
        → doc.committed (TwoPSet.add_batch db batch e).1 ≡ doc.committed e
    unfolding TwoPSet.add_batch TwoPSet.batch_body
    add_batch-deleted batch e d =
        let w = doc.committed e in
        opened-Ends keys db doc (Unchanged w) _ e refl (λ t u s.
          leave-Unchanged w _
            (SomeDeleted-Dead batch (stored_now keys db doc e) (false, some t) (λ u. s) d))
