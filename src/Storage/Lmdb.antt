-- ===== src/Storage/Lmdb.antt =====
-- mdv_storage/mdv_lmdb.c: transactions and maps over LMDB. A transaction handle is `none` when its
-- pointer is null. The library behind it is the record `Lmdb`, with its documented behaviour in
-- `Documented`: `E` is the environment of a storage, `T` a write transaction.
use mdb_linux.Base.{
  ℕ, ◌≡◌, ◌≢◌, refl, ◌⊎◌, inl, inr, Bool, true, false, List, Option, none, some, ◌==◌,
  if◌then◌else◌, take,
}
use mdb_linux.Storage.Rows.{KeyOrder, find, insert, erase, from_key, last_row}

-- The names of the maps (mdv_storage/mdv_names.h).
pub data MapName : Type 0 where
  objects removed idgen trlog applied_map : MapName

abbrev name_code : MapName → ℕ
name_code objects = 0
name_code removed = 1
name_code idgen = 2
name_code trlog = 3
name_code applied_map = 4

abbrev pub same_name : MapName → MapName → Bool
same_name m n = name_code m == name_code n

-- The maps that exist, and the pairs of each in the order of the keys.
pub record View (K V : Type 0) : Type 0 where
  pub exists : MapName → Bool
  pub rows : MapName → List (K × V)

-- How `mdb_put` ends: MDB_SUCCESS, MDB_KEYEXIST, MDB_BAD_VALSIZE, which leaves the transaction as it
-- was, or an error that spoils it.
pub data Put : Type 0 where
  stored key_exists refused spoiled : Put

pub Put-cases : (p : Put) → (p ≡ stored) ⊎ ((p ≡ key_exists) ⊎ ((p ≡ refused) ⊎ (p ≡ spoiled)))
Put-cases stored = inl refl
Put-cases key_exists = inr (inl refl)
Put-cases refused = inr (inr (inl refl))
Put-cases spoiled = inr (inr (inr refl))

pub record Lmdb (K V E T : Type 0) : Type 0 where
  pub txn_begin : E → Option T
  pub txn_commit : T → E → Bool × E
  -- with MDB_CREATE or without
  pub dbi_open : MapName → Bool → T → Bool × T
  -- with MDB_NOOVERWRITE or without
  pub put : Bool → MapName → K → V → T → Put × T
  pub get : MapName → K → T → Option V
  pub del : MapName → K → T → Bool × T
  -- the pairs that a cursor gives from MDB_FIRST by MDB_NEXT up to MDB_NOTFOUND
  pub walk : MapName → T → List (K × V)
  -- what it gives from MDB_SET_RANGE by MDB_NEXT until it ends or fails, and at MDB_LAST
  pub range : MapName → K → T → List (K × V)
  pub last : MapName → T → Option (K × V)

module _ {K V : Type 0} (keys : KeyOrder K) where
  abbrev pub entry : View K V → MapName → K → Option V
  entry w m k = find keys k (w.rows m)

  abbrev pub with_map : MapName → View K V → View K V
  with_map m w = record w { exists = λ n. if same_name n m then true else w.exists n }

  abbrev pub with_rows : MapName → List (K × V) → View K V → View K V
  with_rows m r w = record w { rows = λ n. if same_name n m then r else w.rows n }

  abbrev pub with_entry : MapName → K → V → View K V → View K V
  with_entry m k v w = with_rows m (insert keys k v (w.rows m)) w

  abbrev pub without_entry : MapName → K → View K V → View K V
  without_entry m k w = with_rows m (erase keys k (w.rows m)) w

  -- The documented behaviour. `committed` is what a new transaction sees, `seen` what one with its
  -- own writes sees; a transaction that is not `usable` can only be given up. `fits` says that a key
  -- and a value are of sizes that LMDB takes. Looking up a key, and walking through a map from its
  -- first or to its last pair, meet no error in a usable transaction; a cursor at a given key may
  -- fail at any pair.
  pub record Documented {E T : Type 0} (db : Lmdb K V E T) : Type 0 where
    pub committed : E → View K V
    pub seen : T → View K V
    pub usable : T → Bool
    pub fits : K → V → Bool
    pub begin_law :
        (e : E) (t : T) → db.txn_begin e ≡ some t → (usable t ≡ true) × (seen t ≡ committed e)
    pub commit_law :
        (t : T) (e : E)
        → (db.txn_commit t e).0 ≡ true
        → (usable t ≡ true) × (committed (db.txn_commit t e).1 ≡ seen t)
    pub no_commit_law :
        (t : T) (e : E)
        → (db.txn_commit t e).0 ≡ false
        → committed (db.txn_commit t e).1 ≡ committed e
    pub open_law :
        (m : MapName) (create : Bool) (t : T)
        → usable t ≡ true
        → (db.dbi_open m create t).0 ≡ true
        → (usable (db.dbi_open m create t).1 ≡ true)
          × ((seen (db.dbi_open m create t).1 ≡ with_map m (seen t))
              × ((create ≡ true) ⊎ ((seen t).exists m ≡ true)))
    pub not_open_law :
        (m : MapName) (create : Bool) (t : T)
        → usable t ≡ true
        → (db.dbi_open m create t).0 ≡ false
        → (usable (db.dbi_open m create t).1 ≡ true) × (seen (db.dbi_open m create t).1 ≡ seen t)
    pub put_law :
        (unique : Bool) (m : MapName) (k : K) (v : V) (t : T)
        → usable t ≡ true
        → (db.put unique m k v t).0 ≡ stored
        → (usable (db.put unique m k v t).1 ≡ true)
          × ((seen (db.put unique m k v t).1 ≡ with_entry m k v (with_map m (seen t)))
              × (unique ≡ true → entry (seen t) m k ≡ none))
    pub put_exists_law :
        (unique : Bool) (m : MapName) (k : K) (v : V) (t : T)
        → usable t ≡ true
        → (db.put unique m k v t).0 ≡ key_exists
        → (usable (db.put unique m k v t).1 ≡ true)
          × ((seen (db.put unique m k v t).1 ≡ seen t) × (entry (seen t) m k ≢ none))
    pub put_refused_law :
        (unique : Bool) (m : MapName) (k : K) (v : V) (t : T)
        → usable t ≡ true
        → (db.put unique m k v t).0 ≡ refused
        → (usable (db.put unique m k v t).1 ≡ true)
          × ((seen (db.put unique m k v t).1 ≡ seen t) × (fits k v ≡ false))
    pub put_spoiled_law :
        (unique : Bool) (m : MapName) (k : K) (v : V) (t : T)
        → (db.put unique m k v t).0 ≡ spoiled
        → usable (db.put unique m k v t).1 ≡ false
    pub put_unusable_law :
        (unique : Bool) (m : MapName) (k : K) (v : V) (t : T)
        → usable t ≡ false
        → (db.put unique m k v t).0 ≡ spoiled
    pub get_law :
        (m : MapName) (k : K) (t : T) → usable t ≡ true → db.get m k t ≡ entry (seen t) m k
    pub del_law :
        (m : MapName) (k : K) (t : T)
        → usable t ≡ true
        → (db.del m k t).0 ≡ true
        → (usable (db.del m k t).1 ≡ true)
          × (seen (db.del m k t).1 ≡ without_entry m k (with_map m (seen t)))
    pub walk_law : (m : MapName) (t : T) → usable t ≡ true → db.walk m t ≡ (seen t).rows m
    pub range_law :
        (m : MapName) (k : K) (t : T)
        → usable t ≡ true
        → (n : ℕ) × (db.range m k t ≡ take n (from_key keys k ((seen t).rows m)))
    pub last_law :
        (m : MapName) (t : T) → usable t ≡ true → db.last m t ≡ last_row ((seen t).rows m)

-- MDV_OK, MDV_FAILED and MDV_NOT_FOUND of mdv_def.h.
pub data Errno : Type 0 where
  ok failed not_found : Errno

module _ {K V E T : Type 0} (db : Lmdb K V E T) where
  unfoldable pub transaction_start : E → Option T
  transaction_start e = db.txn_begin e

  unfoldable pub transaction_commit : Option T → E → Bool × E
  transaction_commit none e = (false, e)
  transaction_commit (some t) e = db.txn_commit t e

  -- The transaction is dropped; a second abort finds the null pointer.
  unfoldable pub transaction_abort : Option T → Bool × Option T
  transaction_abort none = (false, none)
  transaction_abort (some t) = (true, none)

  abbrev is_stored : Put → Bool
  is_stored stored = true
  is_stored _ = false

  unfoldable pub map_put_impl : Bool → MapName → K → V → Option T → Bool × Option T
  map_put_impl unique m k v none = (false, none)
  map_put_impl unique m k v (some t) = let p = db.put unique m k v t in (is_stored p.0, some p.1)

  unfoldable pub map_put : MapName → K → V → Option T → Bool × Option T
  unfolding map_put_impl
  map_put m k v t = map_put_impl false m k v t

  unfoldable pub map_put_unique : MapName → K → V → Option T → Bool × Option T
  unfolding map_put_impl
  map_put_unique m k v t = map_put_impl true m k v t

  unfoldable pub map_get : MapName → K → Option T → Option V
  map_get m k none = none
  map_get m k (some t) = db.get m k t

  unfoldable pub map_del : MapName → K → Option T → Bool × Option T
  map_del m k none = (false, none)
  map_del m k (some t) = let d = db.del m k t in (d.0, some d.1)
