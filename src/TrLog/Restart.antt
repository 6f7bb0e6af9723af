-- ===== src/TrLog/Restart.antt =====
-- mdv_trlog_init of mdv_core/storage/mdv_trlog.c: a log that is opened again.
use mdb_linux.Base.{
  clash, ℕ, ◌^◌, ◌<◌, ◌≡◌, refl, sym, ap, subst, ◌∙◌, inl, inr, true, false, [], if◌then◌else◌,
  Bool-cases, arith,
}
use mdb_linux.Storage.Rows.{find, last_row}
use mdb_linux.Storage.Lmdb.{
  MapName, same_name, Lmdb, Documented, trlog, applied_map, transaction_start, map_get,
}
use mdb_linux.Storage.Session.{map_open}
use mdb_linux.Storage.Sound.{Sound}
use mdb_linux.TrLog
use mdb_linux.TrLog.{TrLog, Bytes, Data, nat_keys, applied_pos_key}
use mdb_linux.TrLog.Rows.{end_of, end_of-le, Under-end_of, next_of-last_row}
use mdb_linux.TrLog.Valid.{log_of, saved, Fits, now, IsValid}

module _ {E T : Type 0} (db : Lmdb ℕ Bytes E T) (doc : Documented nat_keys db) where
  -- A log that was opened, as the storage has it.
  abbrev pub Opened : E → TrLog E → Type 0
  Opened e u =
      (u.storage ≡ e)
      × ((u.top ≡ end_of (log_of (doc.committed e))) × (u.applied ≡ saved (doc.committed e)))

  -- Whether or not a map can be opened, the transaction sees what it saw.
  open-kept :
      (m : MapName) (t : T)
      → doc.usable t ≡ true
      → (doc.usable (db.dbi_open m false t).1 ≡ true)
        × (((n : MapName) → (doc.seen (db.dbi_open m false t).1).rows n ≡ (doc.seen t).rows n)
            × ((n : MapName)
                → same_name n m ≡ false
                → (doc.seen (db.dbi_open m false t).1).exists n ≡ (doc.seen t).exists n))
  open-kept m t u = elim (Bool-cases (db.dbi_open m false t).0) [
    | inl o ↦
        let l = doc.open_law m false t u o in
        (
          l.0,
          (
            λ n. ap (λ w. w.rows n) l.1.0,
            λ n d.
                ap (λ w. w.exists n) l.1.0 ∙ ap (λ b. if b then true else (doc.seen t).exists n) d,
          ),
        )
    | inr f ↦
        let l = doc.not_open_law m false t u f in
        (l.0, (λ n. ap (λ w. w.rows n) l.1, λ n d. ap (λ w. w.exists n) l.1))
  ]

  module _ (sound : Sound nat_keys db doc) where
    pub closed_rows :
        (m : MapName) (e : E) (t : T)
        → doc.usable t ≡ true
        → (doc.seen t).exists m ≡ (doc.committed e).exists m
        → (db.dbi_open m false t).0 ≡ false
        → (doc.committed e).rows m ≡ []
    closed_rows m e t u h f = sound.absent_ok e m (elim (Bool-cases ((doc.committed e).exists m)) [
      | inl x ↦ absurd (clash (sound.open_ok m false t u (inr (h ∙ x))) f)
      | inr n ↦ n
    ])

    read_top :
        (e : E) (t : T)
        → doc.usable t ≡ true
        → doc.seen t ≡ doc.committed e
        → end_of (log_of (doc.committed e)) < 2 ^ 64
        → TrLog.last_top db (db.dbi_open trlog false t) ≡ end_of (log_of (doc.committed e))
    read_top e t u h b = elim (Bool-cases (db.dbi_open trlog false t).0) [
      | inl o ↦
          let k = open-kept trlog t u in
          rw (o) (
            ap TrLog.next_of (doc.last_law trlog (db.dbi_open trlog false t).1 k.0)
            ∙ ap (λ r. TrLog.next_of (last_row r)) (k.1.0 trlog ∙ ap log_of h)
            ∙ next_of-last_row (log_of (doc.committed e)) b)
      | inr f ↦ rw (f) (ap end_of (sym (closed_rows trlog e t u (ap (λ w. w.exists trlog) h) f)))
    ]

    read_applied :
        (e : E) (t : T)
        → doc.usable t ≡ true
        → (doc.seen t).rows applied_map ≡ (doc.committed e).rows applied_map
        → ((db.dbi_open applied_map false t).0 ≡ false → (doc.committed e).rows applied_map ≡ [])
        → TrLog.applied_pos db (db.dbi_open applied_map false t) ≡ saved (doc.committed e)
    unfolding TrLog.applied_pos map_get
    read_applied e t u h c = elim (Bool-cases (db.dbi_open applied_map false t).0) [
      | inl o ↦
          let k = open-kept applied_map t u in
          rw (o) (
            ap TrLog.stored_pos
              (doc.get_law applied_map applied_pos_key (db.dbi_open applied_map false t).1 k.0)
            ∙ ap (λ r. TrLog.stored_pos (find nat_keys applied_pos_key r)) (k.1.0 applied_map ∙ h))
      | inr f ↦ rw (f) (ap (λ r. TrLog.stored_pos (find nat_keys applied_pos_key r)) (sym (c f)))
    ]

    init-storage : (e : E) → (TrLog.init db e).storage ≡ e
    unfolding TrLog.init transaction_start
    init-storage e = let (t, g) = sound.begin_ok e in rw (TrLog.init, g) refl

    read_both :
        (e : E)
        → end_of (log_of (doc.committed e)) < 2 ^ 64
        → ((TrLog.init db e).top ≡ end_of (log_of (doc.committed e)))
          × ((TrLog.init db e).applied ≡ saved (doc.committed e))
    unfolding TrLog.init transaction_start map_open
    read_both e b =
        let (t, g) = sound.begin_ok e in
        let l = doc.begin_law e t g in
        let t1 = (db.dbi_open trlog false t).1 in
        let k = open-kept trlog t l.0 in
        rw (TrLog.init, g)
          (
            read_top e t l.0 l.1 b,
            read_applied e t1 k.0 (k.1.0 applied_map ∙ ap (λ w. w.rows applied_map) l.1) (λ f.
                closed_rows applied_map e t1 k.0
                  (k.1.1 applied_map refl ∙ ap (λ w. w.exists applied_map) l.1) f),
          )

    -- A log that is opened goes on where what is stored ends: the next identifier is one more than
    -- the last one of the log, if that fits in 64 bits, and the applied position is the one that was
    -- saved. LMDB meets no error.
    pub init-reads :
        (e : E) → end_of (log_of (doc.committed e)) < 2 ^ 64 → Opened e (TrLog.init db e)
    init-reads e b = (init-storage e, read_both e b)

  -- A log that is opened again without an error, after whatever calls and failures, is valid.
  pub Opened-IsValid : (s u : TrLog E) → IsValid db doc s → Opened s.storage u → IsValid db doc u
  Opened-IsValid s u v (e, (t, a)) =
      let w = now db doc s in
      let b = end_of-le s.top (log_of w) v.under in
      let f : Fits w (end_of (log_of w)) (saved w) = record {
        ascending = v.ascending;
        under = Under-end_of 0 (log_of w) v.ascending;
        applied_in = omega (arith, v.saved_in, v.applied_in);
        saved_in = omega arith;
        top_in = omega (arith, b, v.top_in);
      } in
      subst (λ x. Fits (doc.committed x) u.top u.applied) (sym e)
        (subst (λ x. Fits w u.top x) (sym a) (subst (λ x. Fits w x (saved w)) (sym t) f))
