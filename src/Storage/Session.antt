-- ===== src/Storage/Session.antt =====
-- The frame that the functions of mdv_storage/mdv_2pset.c and mdv_core/storage/mdv_trlog.c share:
-- a transaction is started, a body works in it, and it is committed or rolled back.
use mdb_linux.Base.{
  ◌≡◌, sym, subst, ◌⊎◌, inl, inr, Bool, true, Option, none, some, if◌then◌else◌, Bool-cases,
  Option-cases, clash,
}
use mdb_linux.Storage.Rows.{KeyOrder}
use mdb_linux.Storage.Lmdb.{
  MapName, View, Lmdb, Documented, with_map, Errno, ok, failed, transaction_start,
  transaction_commit,
}

-- How a body leaves its transaction: to be committed, or rolled back with an answer.
pub data Verdict (T : Type 0) : Type 0 where
  commit : Option T → Verdict T
  abort : Errno → Verdict T

module _ {K V E T : Type 0} (db : Lmdb K V E T) where
  abbrev pub settle : Bool × E → Errno × E
  settle r = (if r.0 then ok else failed, r.1)

  abbrev pub finish : Verdict T → E → Errno × E
  unfolding transaction_commit
  finish (commit h) e = settle (transaction_commit db h e)
  finish (abort x) e = (x, e)

  abbrev pub in_transaction : (T → Verdict T) → E → Errno × E
  unfolding transaction_start
  in_transaction body e = elim (transaction_start db e) [
    | none ↦ (failed, e)
    | some t ↦ finish (body t) e
  ]

  unfoldable pub map_open : MapName → Bool → T → Bool × T
  map_open m create t = db.dbi_open m create t

  abbrev pub with_open : MapName → Bool → (T → Verdict T) → T → Verdict T
  unfolding map_open
  with_open m create body t = let r = map_open m create t in if r.0 then body r.1 else abort failed

  module _ (keys : KeyOrder K) (doc : Documented keys db) (P : Errno → View K V → Type 0) where
    -- What a body's verdict has to meet for `P` to hold of the answer and what is then stored.
    abbrev pub Ends : View K V → Verdict T → Type 0
    Ends w (commit none) = P failed w
    Ends w (commit (some t)) = doc.usable t ≡ true → P ok (doc.seen t)
    Ends w (abort x) = P x w

    abbrev pub Meets : Errno × E → Type 0
    Meets r = P r.0 (doc.committed r.1)

    commit-Meets :
        (t : T) (e : E)
        → P failed (doc.committed e)
        → (doc.usable t ≡ true → P ok (doc.seen t))
        → Meets (settle (db.txn_commit t e))
    commit-Meets t e f h = elim (Bool-cases (db.txn_commit t e).0) [
      | inl c ↦ let law = doc.commit_law t e c in rw (c) (subst (P ok) (sym law.1) (h law.0))
      | inr c ↦ rw (c) (subst (P failed) (sym (doc.no_commit_law t e c)) f)
    ]

    finish-Meets :
        (v : Verdict T) (e : E)
        → P failed (doc.committed e)
        → Ends (doc.committed e) v
        → Meets (finish v e)
    unfolding transaction_commit
    finish-Meets (commit none) e f h = f
    finish-Meets (commit (some t)) e f h = commit-Meets t e f h
    finish-Meets (abort x) e f h = h

    pub in_transaction-Meets :
        (body : T → Verdict T) (e : E)
        → P failed (doc.committed e)
        → ((t : T)
            → doc.usable t ≡ true
            → doc.seen t ≡ doc.committed e
            → Ends (doc.committed e) (body t))
        → Meets (in_transaction body e)
    unfolding transaction_start
    in_transaction-Meets body e f h = elim (Option-cases (db.txn_begin e)) [
      | inl n ↦ rw (in_transaction, n) f
      | inr (t, s) ↦
          let law = doc.begin_law e t s in
          rw (in_transaction, s) (finish-Meets (body t) e f (h t law.0 law.1))
    ]

    pub with_open-Ends :
        (m : MapName) (create : Bool) (body : T → Verdict T) (t : T) (w : View K V)
        → doc.usable t ≡ true
        → P failed w
        → ((s : T)
            → doc.usable s ≡ true
            → doc.seen s ≡ with_map keys m (doc.seen t)
            → ((create ≡ true) ⊎ ((doc.seen t).exists m ≡ true))
            → Ends w (body s))
        → Ends w (with_open m create body t)
    unfolding map_open
    with_open-Ends m create body t w u f h = elim (Bool-cases (db.dbi_open m create t).0) [
      | inl o ↦
          let law = doc.open_law m create t u o in
          rw (o) (h (db.dbi_open m create t).1 law.0 law.1.0 law.1.1)
      | inr o ↦ rw (o) f
    ]

  module _ (keys : KeyOrder K) (doc : Documented keys db) where
    -- A transaction that can be committed behind a write could be before it.
    pub usable_before :
        (unique : Bool) (m : MapName) (k : K) (v : V) (t : T)
        → doc.usable (db.put unique m k v t).1 ≡ true
        → doc.usable t ≡ true
    usable_before unique m k v t u = elim (Bool-cases (doc.usable t)) [
      | inl y ↦ y
      | inr n ↦
          absurd
            (clash u (doc.put_spoiled_law unique m k v t (doc.put_unusable_law unique m k v t n)))
    ]
