-- ===== src/TrLog/Append.antt =====
-- mdv_trlog_add_op of mdv_core/storage/mdv_trlog.c over an LMDB that meets no error.
use mdb_linux.Base.{
  ℕ, ◌+◌, ◌%◌, ◌^◌, ◌<◌, ◌≡◌, refl, sym, ap, subst, ◌∙◌, inl, inr, Bool, true, false, List, [], ◌∷◌,
  ◌++◌, none, ◌==◌, arith,
}
use mdb_linux.Storage.Rows.{insert, find}
use mdb_linux.Storage.Lmdb.{
  Lmdb, Documented, stored, trlog, map_put_unique, transaction_start, transaction_commit,
}
use mdb_linux.Storage.Session.{map_open}
use mdb_linux.Storage.Sound.{Sound, put-sound}
use mdb_linux.TrLog
use mdb_linux.TrLog.{TrLog, Bytes, Data, nat_keys}
use mdb_linux.TrLog.Rows.{Under, insert-append}
use mdb_linux.TrLog.Valid.{log_of, now, IsValid}

find-Under : (k : ℕ) (rows : List Data) → Under k rows → find nat_keys k rows ≡ none
find-Under k [] u = refl
find-Under k (p ∷ rows) (h, u) =
    let d : k == p.0 ≡ false = ground (arith, h) in rw (d) (find-Under k rows u)

module _ {E T : Type 0} (db : Lmdb ℕ Bytes E T) (doc : Documented nat_keys db) where
  -- The answer, and what the call leaves.
  abbrev pub Appended : Bytes → TrLog E → Bool × TrLog E → Type 0
  Appended op s r =
      (r.0 ≡ true)
      × ((log_of (now db doc r.1) ≡ log_of (now db doc s) ++ (s.top, op) ∷ [])
          × ((r.1.top ≡ s.top + 1) × (r.1.notices ≡ s.notices + 1)))

  module _ (sound : Sound nat_keys db doc) where
    -- The write of an operation under an identifier that no other one has.
    put_new :
        (id : ℕ) (op : Bytes) (t : T)
        → doc.usable t ≡ true
        → Under id (log_of (doc.seen t))
        → (db.put true trlog id op t).0 ≡ stored
    put_new id op t u h = elim (put-sound nat_keys db doc sound true trlog id op t u) [
      | inl p ↦ p
      | inr p ↦
          absurd (
            (doc.put_exists_law true trlog id op t u p).1.1 (find-Under id (log_of (doc.seen t)) h))
    ]

    opened-Appended :
        (op : Bytes) (s : TrLog E) (t : T)
        → s.top + 1 < 2 ^ 64
        → IsValid db doc s
        → doc.usable t ≡ true
        → log_of (doc.seen t) ≡ log_of (now db doc s)
        → Appended op s (TrLog.op_opened db op s (true, t))
    unfolding TrLog.op_opened TrLog.op_commit TrLog.new_id TrLog.changed_notify map_put_unique
        transaction_commit
    opened-Appended op s t l v u h =
        let p = put_new s.top op t u (subst (Under s.top) (sym h) v.under) in
        let law = doc.put_law true trlog s.top op t u p in
        let t1 = (db.put true trlog s.top op t).1 in
        let c = sound.commit_ok t1 s.storage law.0 in
        let next : (s.top + 1) % 2 ^ 64 ≡ s.top + 1 = omega arith in
        rw (p, c)
          (
            refl,
            (
              ap log_of (doc.commit_law t1 s.storage c).1
                  ∙ ap log_of law.1.0
                  ∙ ap (insert nat_keys s.top op) h
                  ∙ insert-append s.top 0 op (log_of (now db doc s)) v.ascending v.under,
              (next, refl),
            ),
          )

    -- When LMDB meets no error, the log is valid and one more than its top fits in 64 bits, adding an
    -- operation puts it at the end of the log, under the top as its identifier, raises the top by
    -- one and gives notice of the change.
    pub add_op-appends :
        (op : Bytes) (s : TrLog E)
        → IsValid db doc s
        → s.top + 1 < 2 ^ 64
        → Appended op s (TrLog.add_op db op s)
    unfolding TrLog.add_op transaction_start map_open
    add_op-appends op s v l =
        let (t, b) = sound.begin_ok s.storage in
        let g = doc.begin_law s.storage t b in
        let o = sound.open_ok trlog true t g.0 (inl refl) in
        let law = doc.open_law trlog true t g.0 o in
        let m : Bool × T = db.dbi_open trlog true t in
        rw (TrLog.add_op, b)
          (subst (λ x. Appended op s (TrLog.op_opened db op s (x, m.1))) (sym o)
            (opened-Appended op s m.1 l v law.0 (ap log_of law.1.0 ∙ ap log_of g.1)))
