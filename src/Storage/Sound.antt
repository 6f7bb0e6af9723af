-- ===== src/Storage/Sound.antt =====
-- mdv_storage/mdv_2pset.c over an LMDB that meets no error: no memory or disk limit is reached, and
-- every key and value is of a size that it takes.
use mdb_linux.Base.{clash, ◌≡◌, ◌≢◌, ◌⊎◌, inl, inr, Bool, true, false, [], none, some}
use mdb_linux.Storage.Rows.{KeyOrder, from_key}
use mdb_linux.Storage.Lmdb.{
  MapName, Lmdb, Documented, Put-cases, entry, stored, key_exists, spoiled,
}

module _ {K V : Type 0} (keys : KeyOrder K) where
  -- No call meets an error: what it may do, it does.
  pub record Sound {E T : Type 0} (db : Lmdb K V E T) (doc : Documented keys db) : Type 0 where
    pub begin_ok : (e : E) → (t : T) × (db.txn_begin e ≡ some t)
    pub commit_ok : (t : T) (e : E) → doc.usable t ≡ true → (db.txn_commit t e).0 ≡ true
    pub open_ok :
        (m : MapName) (create : Bool) (t : T)
        → doc.usable t ≡ true
        → (create ≡ true) ⊎ ((doc.seen t).exists m ≡ true)
        → (db.dbi_open m create t).0 ≡ true
    pub put_ok :
        (unique : Bool) (m : MapName) (k : K) (v : V) (t : T)
        → doc.usable t ≡ true
        → (db.put unique m k v t).0 ≢ spoiled
    pub all_fit : (k : K) (v : V) → doc.fits k v ≡ true
    pub del_ok :
        (m : MapName) (k : K) (t : T)
        → doc.usable t ≡ true
        → entry keys (doc.seen t) m k ≢ none
        → (db.del m k t).0 ≡ true
    pub range_ok :
        (m : MapName) (k : K) (t : T)
        → doc.usable t ≡ true
        → db.range m k t ≡ from_key keys k ((doc.seen t).rows m)
    -- a map that was not created holds nothing
    pub absent_ok :
        (e : E) (m : MapName) → (doc.committed e).exists m ≡ false → (doc.committed e).rows m ≡ []

  -- A write is done, or finds its key.
  pub put-sound :
      {E T : Type 0} (db : Lmdb K V E T) (doc : Documented keys db)
      → Sound db doc
      → (unique : Bool) (m : MapName) (k : K) (v : V) (t : T) → doc.usable t ≡ true
      → ((db.put unique m k v t).0 ≡ stored) ⊎ ((db.put unique m k v t).0 ≡ key_exists)
  put-sound db doc sound unique m k v t u = elim (Put-cases (db.put unique m k v t).0) [
    | inl p ↦ inl p
    | inr (inl p) ↦ inr p
    | inr (inr (inl p)) ↦
        absurd (clash (sound.all_fit k v) (doc.put_refused_law unique m k v t u p).1.1)
    | inr (inr (inr p)) ↦ absurd (sound.put_ok unique m k v t u p)
  ]
