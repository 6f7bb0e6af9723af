-- ===== src/TrLog/Reads.antt =====
-- mdv_trlog_range_read and mdv_trlog_changed of mdv_core/storage/mdv_trlog.c.
use mdb_linux.Base.{
  ℕ, zero, suc, ◌≤◌, ◌≡◌, refl, sym, ap, ◌∙◌, ◌==◌, inl, inr, Bool, false, ltb, leb, Bool-cases,
  length,
}
use mdb_linux.Storage.Rows.{from_key}
use mdb_linux.Storage.Lmdb.{Lmdb, Documented, trlog, transaction_start}
use mdb_linux.Storage.Session.{map_open}
use mdb_linux.Storage.Sound.{Sound}
use mdb_linux.TrLog
use mdb_linux.TrLog.{TrLog, Bytes, Data, nat_keys}
use mdb_linux.TrLog.Rows.{end_of, between, all_granted, range_loop-from_key}
use mdb_linux.TrLog.Valid.{log_of, now, IsValid}
use mdb_linux.TrLog.Restart.{closed_rows}
use mdb_linux.TrLog.Pending.{Accepts}
use mdb_linux.TrLog.Drain.{pending, apply_times, apply_times-fold}

module _ {E T : Type 0} (db : Lmdb ℕ Bytes E T) (doc : Documented nat_keys db) where
  module _ (sound : Sound nat_keys db doc) where
    -- Reading a range gives just the operations whose identifiers are in it, in their order. LMDB
    -- meets no error and every entry can be allocated.
    pub range_read-between :
        (from to : ℕ) (s : TrLog E)
        → IsValid db doc s
        → TrLog.range_read db all_granted from to s.storage
          ≡ between from to (log_of (now db doc s))
    unfolding TrLog.range_read transaction_start map_open
    range_read-between from to s v =
        let (t, b) = sound.begin_ok s.storage in
        let l = doc.begin_law s.storage t b in
        elim (Bool-cases (db.dbi_open trlog false t).0) [
          | inl o ↦
              let l1 = doc.open_law trlog false t l.0 o in
              let same =
                sound.range_ok trlog from (db.dbi_open trlog false t).1 l1.0
                ∙ ap (λ w. from_key nat_keys from (log_of w)) l1.1.0
                ∙ ap (λ w. from_key nat_keys from (log_of w)) l.1 in
              rw (TrLog.range_read, b, o, same)
                (range_loop-from_key from to 0 (log_of (now db doc s)) v.ascending)
          | inr f ↦
              let c =
                closed_rows db doc sound trlog s.storage t l.0 (ap (λ w. w.exists trlog) l.1) f in
              rw (TrLog.range_read, b, f)
                (ap (λ r. TrLog.range_loop all_granted to 0 (from_key nat_keys from r)) (sym c)
                  ∙ range_loop-from_key from to 0 (log_of (now db doc s)) v.ascending)
        ]

    module _ {A : Type 0} (fn : A → Bytes → Bool × A) where
      top-apply_end : (s : TrLog E) (r : ℕ × (ℕ × A)) → (TrLog.apply_end db s r).1.1.top ≡ s.top
      unfolding TrLog.apply_end TrLog.applied_pos_set
      top-apply_end s r = elim (Bool-cases (r.0 == 0)) [ inl z ↦ rw (z) refl | inr z ↦ rw (z) refl ]

      top-apply :
          (size : ℕ) (arg : A) (s : TrLog E)
          → (TrLog.apply db all_granted size fn arg s).1.1.top ≡ s.top
      unfolding TrLog.apply
      top-apply size arg s = elim (Bool-cases (leb s.top s.applied)) [
        | inl y ↦ rw (y) refl
        | inr y ↦ rw (y) (
            top-apply_end s (
              TrLog.apply_loop fn (TrLog.read db all_granted s.applied size s.storage)
                (0, (s.applied, arg))))
      ]

      top-apply_times :
          (k size : ℕ) (arg : A) (s : TrLog E)
          → (apply_times db doc sound fn k size arg s).1.top ≡ s.top
      top-apply_times zero size arg s = refl
      top-apply_times (suc k) size arg s =
          let r = (TrLog.apply db all_granted size fn arg s).1 in
          top-apply_times k size r.0 r.1 ∙ top-apply size arg s

      -- After enough calls of `apply` with a callback that takes what it is given, the log says that
      -- it has changed just when its top is past its end, as it is when an identifier was used up
      -- for an operation that was not written: the position does not get there. LMDB meets no
      -- error, every entry can be allocated, and a batch has room for at least one.
      pub changed-apply_times :
          (k m : ℕ) (arg : A) (s : TrLog E)
          → Accepts fn
          → IsValid db doc s
          → length (pending db doc s) ≤ k
          → TrLog.changed (apply_times db doc sound fn k (suc m) arg s).1
            ≡ ltb (end_of (log_of (now db doc s))) s.top
      unfolding TrLog.changed
      changed-apply_times k m arg s a v l =
          rw (
            (apply_times-fold db doc sound fn k m arg s a v l).1.0,
            top-apply_times k (suc m) arg s,
          )
