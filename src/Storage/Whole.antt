-- ===== src/Storage/Whole.antt =====
-- mdv_2pset_add_batch of mdv_storage/mdv_2pset.c over an LMDB that meets no error.
use mdb_linux.Base.{
  clash, ◌≡◌, refl, sym, ap, ◌∙◌, inl, inr, Bool, true, false, List, [], ◌∷◌, Option, none, some,
  if◌then◌else◌, All,
}
use mdb_linux.Storage.Rows.{KeyOrder}
use mdb_linux.Storage.Lmdb.{View, Lmdb, Documented, objects, Errno, ok, map_put_unique}
use mdb_linux.Storage.TwoPSet
use mdb_linux.Storage.TwoPSet.{Bytes}
use mdb_linux.Storage.Sets.{Sets, sets, is_some, some_of, add_to, add_to-taken}
use mdb_linux.Storage.Refine.{stored_now, deleted-get, put_fit-Ends}
use mdb_linux.Storage.Steps.{deleted-add_to}
use mdb_linux.Storage.Batch.{add_each}
use mdb_linux.Storage.Sound.{Sound, put-sound}
use mdb_linux.Storage.Surely.{Succeeds, opened-Succeeds, put-usable}

module _ (keys : KeyOrder Bytes) where
  abbrev pub NoneDeleted : List (Bytes × Bytes) → Sets → Type 0
  NoneDeleted batch s = All (λ p. s.deleted p.0 ≡ false) batch

  NoneDeleted-add_to :
      (batch : List (Bytes × Bytes)) (id obj : Bytes) (s : Sets)
      → NoneDeleted batch s
      → NoneDeleted batch (add_to keys id obj s)
  NoneDeleted-add_to [] id obj s h = tt
  NoneDeleted-add_to (p ∷ batch) id obj s (h, rest) =
      (deleted-add_to keys id obj p.0 s ∙ h, NoneDeleted-add_to batch id obj s rest)

  module _ {E T : Type 0} (db : Lmdb Bytes Bytes E T) (doc : Documented keys db) where
    module _ (sound : Sound keys db doc) where
      -- Between two turns: the transaction sees `s`, and is to be committed if that is new.
      abbrev Holds : Sets → Sets → Bool × Option T → Type 0
      Holds w s (flag, none) = false ≡ true
      Holds w s (flag, some t) =
          (doc.usable t ≡ true) × ((sets keys (doc.seen t) ≡ s) × (flag ≡ false → s ≡ w))

      flag_kept :
          (id obj : Bytes) (w s : Sets) (flag : Bool) (t : T)
          → doc.usable t ≡ true
          → sets keys (doc.seen t) ≡ s
          → (flag ≡ false → s ≡ w)
          → (if (map_put_unique db objects id obj (some t)).0 then true else flag) ≡ false
          → add_to keys id obj s ≡ w
      unfolding map_put_unique
      flag_kept id obj w s flag t u h k f =
          elim (put-sound keys db doc sound true objects id obj t u) [
            | inl p ↦ absurd (clash refl (rw (p) at f))
            | inr p ↦
                add_to-taken keys id obj s (
                  ap (λ v. is_some (v.added id)) (sym h)
                  ∙ some_of _ (doc.put_exists_law true objects id obj t u p).1.1)
                ∙ k (rw (p) at f)
          ]

      add_next-Holds :
          (p : Bytes × Bytes) (w s : Sets) (a : Bool × Option T)
          → s.deleted p.0 ≡ false
          → Holds w s a
          → Holds w (add_to keys p.0 p.1 s) (TwoPSet.add_next db p a)
      unfolding TwoPSet.add_next map_put_unique
      add_next-Holds p w s (flag, none) d h = absurd (clash refl (sym h))
      add_next-Holds (id, obj) w s (flag, some t) d (u, (h, k)) =
          let x = put-usable keys db doc sound id obj t u in
          rw (deleted-get keys db doc id t s u h ∙ d) (
            x.0,
            (
              put_fit-Ends keys db doc id obj t s (sound.all_fit id obj) u h d x.0,
              flag_kept id obj w s flag t u h k,
            ),
          )

      add_all-Holds :
          (batch : List (Bytes × Bytes)) (w s : Sets) (a : Bool × Option T)
          → NoneDeleted batch s
          → Holds w s a
          → Holds w (add_each keys batch s) (TwoPSet.add_all db batch a)
      unfolding TwoPSet.add_all add_each
      add_all-Holds [] w s a d h = h
      add_all-Holds (p ∷ batch) w s a (d, rest) h =
          add_all-Holds batch w (add_to keys p.0 p.1 s) (TwoPSet.add_next db p a)
            (NoneDeleted-add_to batch p.0 p.1 s rest) (add_next-Holds p w s a d h)

      abbrev Added : Sets → Errno → View Bytes Bytes → Type 0
      Added s x new = (x ≡ ok) × (sets keys new ≡ s)

      leave-Added :
          (w : View Bytes Bytes) (s : Sets) (a : Bool × Option T)
          → Holds (sets keys w) s a
          → Succeeds keys db doc (Added s) w (TwoPSet.leave db a)
      leave-Added w s (flag, none) h = absurd (clash refl (sym h))
      leave-Added w s (true, some t) (u, (h, k)) = (u, (refl, h))
      leave-Added w s (false, some t) (u, (h, k)) = (refl, sym (k refl))

      -- When LMDB meets no error, a batch in which no identifier was deleted before is added whole,
      -- object by object in its order; of two with one identifier the first one counts.
      pub add_batch-whole :
          (batch : List (Bytes × Bytes)) (e : E)
          → NoneDeleted batch (stored_now keys db doc e)
          → ((TwoPSet.add_batch db batch e).0 ≡ ok)
            × (stored_now keys db doc (TwoPSet.add_batch db batch e).1
                ≡ add_each keys batch (stored_now keys db doc e))
      unfolding TwoPSet.add_batch TwoPSet.batch_body
      add_batch-whole batch e d =
          let s = stored_now keys db doc e in
          opened-Succeeds keys db doc sound (Added (add_each keys batch s)) _ e (λ t u h x.
            leave-Added (doc.committed e) (add_each keys batch s)
              (TwoPSet.add_all db batch (false, some t))
              (add_all-Holds batch s s (false, some t) d (u, (h, λ f. refl))))
