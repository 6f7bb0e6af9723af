-- ===== src/Storage/Surely.antt =====
-- mdv_2pset_add, mdv_2pset_add_batch and mdv_2pset_get of mdv_storage/mdv_2pset.c over an LMDB that
-- meets no error: what they do for certain.
use mdb_linux.Base.{
  ◌≡◌, refl, sym, ap, subst, ◌∙◌, inl, inr, true, false, none, some, if◌then◌else◌,
}
use mdb_linux.Storage.Rows.{KeyOrder}
use mdb_linux.Storage.Lmdb.{
  MapName, View, Lmdb, Documented, with_map, objects, removed, Errno, ok, failed, transaction_start,
  transaction_commit, map_get, map_put_unique,
}
use mdb_linux.Storage.Session.{
  Verdict, commit, abort, in_transaction, with_open, Meets, map_open, finish,
}
use mdb_linux.Storage.TwoPSet
use mdb_linux.Storage.TwoPSet.{Bytes}
use mdb_linux.Storage.Sets.{Sets, sets, is_some, add_to, add_to-free}
use mdb_linux.Storage.Refine.{stored_now, deleted-get, put_fit-Ends}
use mdb_linux.Storage.Sound.{Sound, put-sound}

module _ {K V : Type 0} (keys : KeyOrder K) {E T : Type 0} (db : Lmdb K V E T) where
  module _ (doc : Documented keys db) (P : Errno → View K V → Type 0) where
    -- What a body's verdict has to meet for `P` to hold when every commit succeeds.
    abbrev pub Succeeds : View K V → Verdict T → Type 0
    Succeeds w (commit none) = P failed w
    Succeeds w (commit (some t)) = (doc.usable t ≡ true) × P ok (doc.seen t)
    Succeeds w (abort x) = P x w

    module _ (sound : Sound keys db doc) where
      finish-Succeeds :
          (v : Verdict T) (e : E)
          → Succeeds (doc.committed e) v
          → Meets db keys doc P (finish db v e)
      unfolding transaction_commit
      finish-Succeeds (commit none) e h = h
      finish-Succeeds (commit (some t)) e h =
          let c = sound.commit_ok t e h.0 in
          rw (c) (subst (P ok) (sym (doc.commit_law t e c).1) h.1)
      finish-Succeeds (abort x) e h = h

      pub in_transaction-Succeeds :
          (body : T → Verdict T) (e : E)
          → ((t : T)
              → doc.usable t ≡ true
              → doc.seen t ≡ doc.committed e
              → Succeeds (doc.committed e) (body t))
          → Meets db keys doc P (in_transaction db body e)
      unfolding transaction_start
      in_transaction-Succeeds body e h =
          let (t, s) = sound.begin_ok e in
          let law = doc.begin_law e t s in
          rw (in_transaction, s) (finish-Succeeds (body t) e (h t law.0 law.1))

      pub with_open-Succeeds :
          (m : MapName) (body : T → Verdict T) (t : T) (w : View K V)
          → doc.usable t ≡ true
          → ((s : T)
              → doc.usable s ≡ true
              → doc.seen s ≡ with_map keys m (doc.seen t)
              → Succeeds w (body s))
          → Succeeds w (with_open db m true body t)
      unfolding map_open
      with_open-Succeeds m body t w u h =
          let o = sound.open_ok m true t u (inl refl) in
          let law = doc.open_law m true t u o in rw (o) (h (db.dbi_open m true t).1 law.0 law.1.0)

module _ (keys : KeyOrder Bytes) {E T : Type 0} (db : Lmdb Bytes Bytes E T) where
  module _ (doc : Documented keys db) (sound : Sound keys db doc) where
    pub opened-Succeeds :
        (P : Errno → View Bytes Bytes → Type 0) (body : T → Verdict T) (e : E)
        → ((t : T)
            → doc.usable t ≡ true
            → sets keys (doc.seen t) ≡ stored_now keys db doc e
            → (doc.seen t).exists removed ≡ true
            → Succeeds keys db doc P (doc.committed e) (body t))
        → Meets db keys doc P
            (in_transaction db (with_open db objects true (with_open db removed true body)) e)
    opened-Succeeds P body e h =
        let w = doc.committed e in
        in_transaction-Succeeds keys db doc P sound _ e (λ t u s.
          with_open-Succeeds keys db doc P sound objects _ t w u (λ t1 u1 s1.
            with_open-Succeeds keys db doc P sound removed body t1 w u1 (λ t2 u2 s2.
              h t2 u2 (ap (sets keys) s2 ∙ ap (sets keys) s1 ∙ ap (sets keys) s)
                (ap (λ v. v.exists removed) s2))))

    -- The answer and what is stored when a write is certain.
    abbrev Stored : Sets → Errno → View Bytes Bytes → Type 0
    Stored s x new = (x ≡ ok) × ((new.exists removed ≡ true) × (sets keys new ≡ s))

    pub put-usable :
        (id obj : Bytes) (t : T)
        → doc.usable t ≡ true
        → (doc.usable (db.put true objects id obj t).1 ≡ true)
          × ((doc.seen t).exists removed ≡ true
              → (doc.seen (db.put true objects id obj t).1).exists removed ≡ true)
    put-usable id obj t u = elim (put-sound keys db doc sound true objects id obj t u) [
      | inl p ↦
          let law = doc.put_law true objects id obj t u p in
          (law.0, λ x. ap (λ v. v.exists removed) law.1.0 ∙ x)
      | inr p ↦
          let law = doc.put_exists_law true objects id obj t u p in
          (law.0, λ x. ap (λ v. v.exists removed) law.1.0 ∙ x)
    ]

    add-stores :
        (id obj : Bytes) (e : E)
        → (stored_now keys db doc e).deleted id ≡ false
        → Meets db keys doc
            (Stored (add_to keys id obj (stored_now keys db doc e)))
            (TwoPSet.add db id obj e)
    unfolding TwoPSet.add TwoPSet.add_body map_put_unique
    add-stores id obj e d =
        opened-Succeeds (Stored (add_to keys id obj (stored_now keys db doc e))) _ e (λ t u s x.
          let p = put-usable id obj t u in
          rw (deleted-get keys db doc id t (stored_now keys db doc e) u s ∙ d) (
            p.0,
            (
              refl,
              (
                p.1 x,
                put_fit-Ends keys db doc id obj t (stored_now keys db doc e) (sound.all_fit id obj)
                    u s d p.0,
              ),
            ),
          ))

    found-Sound :
        (id : Bytes) (t : T)
        → doc.usable t ≡ true
        → (sets keys (doc.seen t)).deleted id ≡ false
        → TwoPSet.found_object db id t ≡ (sets keys (doc.seen t)).added id
    unfolding map_get
    found-Sound id t u d =
        ap (λ b. if b then none else db.get objects id t)
          (deleted-get keys db doc id t (sets keys (doc.seen t)) u refl ∙ d)
        ∙ doc.get_law objects id t u

    pub get-Sound :
        (id : Bytes) (e : E)
        → (doc.committed e).exists removed ≡ true
        → (stored_now keys db doc e).deleted id ≡ false
        → TwoPSet.get db id e ≡ (stored_now keys db doc e).added id
    unfolding TwoPSet.get transaction_start map_open
    get-Sound id e x d =
        let (t, b) = sound.begin_ok e in
        let l = doc.begin_law e t b in
        let o = sound.open_ok objects true t l.0 (inl refl) in
        let t1 = (db.dbi_open objects true t).1 in
        let l1 = doc.open_law objects true t l.0 o in
        let o1 =
          sound.open_ok removed false t1 l1.0
            (inr (ap (λ v. v.exists removed) l1.1.0 ∙ ap (λ v. v.exists removed) l.1 ∙ x)) in
        let l2 = doc.open_law removed false t1 l1.0 o1 in
        let same = ap (sets keys) l2.1.0 ∙ ap (sets keys) l1.1.0 ∙ ap (sets keys) l.1 in
        rw (TwoPSet.get, b, o, o1)
          (found-Sound id (db.dbi_open removed false t1).1 l2.0 (ap (λ v. v.deleted id) same ∙ d)
            ∙ ap (λ v. v.added id) same)

    fresh-added :
        (id obj : Bytes) (s : Sets)
        → s.deleted id ≡ false
        → s.added id ≡ none
        → ((add_to keys id obj s).added id ≡ some obj) × ((add_to keys id obj s).deleted id ≡ false)
    fresh-added id obj s d n =
        let f = add_to-free keys id obj s d (ap is_some n) in
        (
          ap (λ v. v.added id) f
              ∙ ap (λ b. if b then some obj else s.added id) ((keys.same_iff id id).1 refl),
          ap (λ v. v.deleted id) f ∙ d,
        )

    -- When LMDB meets no error, an object whose identifier is neither taken nor deleted is added,
    -- and a lookup right behind the addition finds it as it was given.
    pub get-add :
        (id obj : Bytes) (e : E)
        → (stored_now keys db doc e).deleted id ≡ false
        → (stored_now keys db doc e).added id ≡ none
        → ((TwoPSet.add db id obj e).0 ≡ ok)
          × (TwoPSet.get db id (TwoPSet.add db id obj e).1 ≡ some obj)
    get-add id obj e d n =
        let a = add-stores id obj e d in
        let f = fresh-added id obj (stored_now keys db doc e) d n in
        (
          a.0,
          get-Sound id (TwoPSet.add db id obj e).1 a.1.0 (ap (λ v. v.deleted id) a.1.1 ∙ f.1)
              ∙ ap (λ v. v.added id) a.1.1
              ∙ f.0,
        )
