-- ===== src/Storage/Ids.antt =====
-- mdv_2pset_reserve_ids_range and mdv_objects_idgen_init of mdv_storage/mdv_2pset.c.
use mdb_linux.Base.{ℕ, ◌≡◌, refl, ap, ◌∙◌, inl, inr, true, false, some, if◌then◌else◌, encode}
use mdb_linux.Storage.Rows.{KeyOrder}
use mdb_linux.Storage.Lmdb.{
  Put-cases, View, Lmdb, Documented, idgen, Errno, ok, failed, not_found, map_put,
}
use mdb_linux.Storage.Session.{
  commit, abort, in_transaction, Ends, Meets, in_transaction-Meets, with_open-Ends,
}
use mdb_linux.Storage.TwoPSet
use mdb_linux.Storage.TwoPSet.{Bytes, Objects, idgen_key}
use mdb_linux.Storage.Sets.{sets, with_next, sets-reserve}

module _ (keys : KeyOrder Bytes) where
  -- The new end of the reserved range is stored and no object is touched, or nothing has changed.
  abbrev pub Reserves : ℕ → View Bytes Bytes → Errno → View Bytes Bytes → Type 0
  Reserves n w ok new = sets keys new ≡ with_next (encode 8 n) (sets keys w)
  Reserves n w failed new = new ≡ w
  Reserves n w not_found new = false ≡ true

  module _ {E T : Type 0} (db : Lmdb Bytes Bytes E T) (doc : Documented keys db) where
    put_id-Ends :
        (n : ℕ) (t : T) (w : View Bytes Bytes)
        → doc.usable t ≡ true
        → sets keys (doc.seen t) ≡ sets keys w
        → Ends db keys doc (Reserves n w) w (
            if (map_put db idgen idgen_key (encode 8 n) (some t)).0
            then commit (map_put db idgen idgen_key (encode 8 n) (some t)).1
            else abort failed)
    unfolding map_put
    put_id-Ends n t w u h = elim (Put-cases (db.put false idgen idgen_key (encode 8 n) t).0) [
      | inl p ↦
          let law = doc.put_law false idgen idgen_key (encode 8 n) t u p in
          rw (p) (λ x.
            ap (sets keys) law.1.0
            ∙ sets-reserve keys (encode 8 n) (doc.seen t)
            ∙ ap (with_next (encode 8 n)) h)
      | inr (inl p) ↦ rw (p) refl
      | inr (inr (inl p)) ↦ rw (p) refl
      | inr (inr (inr p)) ↦ rw (p) refl
    ]

    pub reserve-Meets :
        (n : ℕ) (e : E)
        → Meets db keys doc
            (Reserves n (doc.committed e))
            (in_transaction db (TwoPSet.reserve_body db n) e)
    unfolding TwoPSet.reserve_body
    reserve-Meets n e =
        let w = doc.committed e in
        let P = Reserves n w in
        in_transaction-Meets db keys doc P _ e refl (λ t u s.
          with_open-Ends db keys doc P idgen true _ t w u refl
            (λ t1 u1 s1 c1. put_id-Ends n t1 w u1 (ap (sets keys) s1 ∙ ap (sets keys) s)))
