-- ===== src/TrLog/Drain.antt =====
-- mdv_trlog_apply of mdv_core/storage/mdv_trlog.c over an LMDB that meets no error, with a callback
-- that takes what it is given: the operations are handed out in their order, each of them once.
use mdb_linux.Base.{
  clash, ℕ, zero, suc, ◌+◌, ◌-◌, ◌^◌, ◌≤◌, ◌<◌, ◌≡◌, refl, sym, ap, subst, ◌∙◌, inl, inr, Bool,
  false, List, [], ◌∷◌, ◌==◌, leb, leb→le, Bool-cases, arith, length, length-drop, take, drop,
  take-append-drop,
}
use mdb_linux.Storage.Rows.{from_key}
use mdb_linux.Storage.Lmdb.{
  View, Lmdb, Documented, trlog, Errno, ok, failed, not_found, transaction_start,
}
use mdb_linux.Storage.Session.{in_transaction, map_open}
use mdb_linux.Storage.Sound.{Sound}
use mdb_linux.TrLog
use mdb_linux.TrLog.{TrLog, Bytes, Data, nat_keys}
use mdb_linux.TrLog.Rows.{end_of, end_of-le, from_key-AscendingFrom, from_key-Under, all_granted}
use mdb_linux.TrLog.Valid.{log_of, now, IsValid}
use mdb_linux.TrLog.Applies.{Saves, applied_pos-Saves, apply-IsValid}
use mdb_linux.TrLog.Pending.{
  pos_after, fold_ops, read_loop-take, from_key-drop, from_key-twice, from_key-none,
  end_of-from_key, Accepts, apply_loop-fold, pos_after-none, pos_after-le, pos_after-Under,
  take-AscendingFrom, take-Under, fold_ops-append,
}

empty_of : (ops : List Data) → length ops ≤ 0 → ops ≡ []
empty_of [] l = refl
empty_of (p ∷ ops) l = absurd (omega arith)

module _ {E T : Type 0} (db : Lmdb ℕ Bytes E T) (doc : Documented nat_keys db) where
  -- The operations that were not applied yet.
  abbrev pub pending : TrLog E → List Data
  pending s = from_key nat_keys s.applied (log_of (now db doc s))

  Saves-log :
      (pos : ℕ) (w : View ℕ Bytes) (x : Errno) (new : View ℕ Bytes)
      → Saves db doc pos w x new
      → log_of new ≡ log_of w
  Saves-log pos w ok new h = h.0
  Saves-log pos w failed new h = ap log_of h
  Saves-log pos w not_found new h = absurd (clash refl (sym h))

  module _ (sound : Sound nat_keys db doc) where
    pub read-take :
        (m pos : ℕ) (e : E)
        → TrLog.read db all_granted pos (suc m) e
          ≡ take (suc m) (from_key nat_keys pos (log_of (doc.committed e)))
    unfolding TrLog.read transaction_start map_open
    read-take m pos e =
        let (t, b) = sound.begin_ok e in
        let l = doc.begin_law e t b in
        elim (Bool-cases (db.dbi_open trlog false t).0) [
          | inl o ↦
              let l1 = doc.open_law trlog false t l.0 o in
              let t1 = (db.dbi_open trlog false t).1 in
              let same =
                sound.range_ok trlog pos t1 l1.0
                ∙ ap (λ w. from_key nat_keys pos (log_of w)) l1.1.0
                ∙ ap (λ w. from_key nat_keys pos (log_of w)) l.1 in
              rw (TrLog.read, b, o, same) (read_loop-take (suc m) 0 m _ (omega arith))
          | inr f ↦
              let closed : log_of (doc.committed e) ≡ [] =
                sound.absent_ok e trlog (elim (Bool-cases ((doc.committed e).exists trlog)) [
                  | inl x ↦ absurd (
                      clash
                        (sound.open_ok trlog false t l.0 (inr (ap (λ w. w.exists trlog) l.1 ∙ x)))
                        f)
                  | inr n ↦ n
                ]) in
              rw (TrLog.read, b, f) (ap (λ r. take (suc m) (from_key nat_keys pos r)) (sym closed))
        ]

    module _ {A : Type 0} (fn : A → Bytes → Bool × A) where
      end_state :
          (s : TrLog E) (n pos : ℕ) (arg : A)
          → pos < 2 ^ 64
          → (n ≡ 0 → pos ≡ s.applied)
          → ((TrLog.apply_end db s (n, (pos, arg))).1.1.applied ≡ pos)
            × (log_of (now db doc (TrLog.apply_end db s (n, (pos, arg))).1.1)
                ≡ log_of (now db doc s))
      unfolding TrLog.apply_end TrLog.applied_pos_set
      end_state s n pos arg b h = elim (Bool-cases (n == 0)) [
        | inl z ↦ rw (z) (sym (h (ground (arith, z))), refl)
        | inr z ↦
            let r = in_transaction db (TrLog.applied_pos_body db pos) s.storage in
            rw (z) (
              refl,
              Saves-log pos (now db doc s) r.0 (doc.committed r.1)
                  (applied_pos-Saves db doc pos s.storage b),
            )
      ]

      -- What one call does: the count, the argument, what is left, and the log.
      abbrev Hands : ℕ → A → TrLog E → ℕ × (A × TrLog E) → Type 0
      Hands m arg s r =
          (r.0 ≡ length (take (suc m) (pending s)))
          × ((r.1.0 ≡ fold_ops fn (take (suc m) (pending s)) arg)
              × ((pending r.1.1 ≡ drop (suc m) (pending s))
                  × (log_of (now db doc r.1.1) ≡ log_of (now db doc s))))

      none-Hands : (m : ℕ) (arg : A) (s : TrLog E) → pending s ≡ [] → Hands m arg s (0, (arg, s))
      none-Hands m arg s e = rw (e) (refl, (refl, (refl, refl)))

      loop-Hands :
          (m : ℕ) (arg : A) (s : TrLog E)
          → Accepts fn
          → IsValid db doc s
          → Hands m arg s (
              TrLog.apply_end db s
                (TrLog.apply_loop fn (take (suc m) (pending s)) (0, (s.applied, arg))))
      unfolding TrLog.apply_end
      loop-Hands m arg s a v =
          let w = log_of (now db doc s) in
          let ops = take (suc m) (pending s) in
          let q = pos_after s.applied ops in
          let asc = from_key-AscendingFrom s.applied 0 w v.ascending in
          let under =
            take-Under (suc m) s.top (pending s) (from_key-Under s.applied s.top w v.under) in
          let inside = end_of-le s.top w v.under in
          let low =
            pos_after-le s.applied ops (take-AscendingFrom (suc m) s.applied (pending s) asc) in
          let high =
            pos_after-Under s.applied s.top ops under (omega (arith, v.applied_in, inside)) in
          let count : 0 + length ops ≡ length ops = omega arith in
          let est =
            end_state s (0 + length ops) q (fold_ops fn ops arg) (omega (arith, high, v.top_in))
              (λ e. pos_after-none s.applied ops (sym count ∙ e)) in
          let new = (TrLog.apply_end db s (0 + length ops, (q, fold_ops fn ops arg))).1.1 in
          subst (λ x. Hands m arg s (TrLog.apply_end db s x))
            (sym (apply_loop-fold fn ops 0 s.applied s.top arg a under v.top_in))
            (
              count,
              (
                refl,
                (
                  ap (λ k. from_key nat_keys k (log_of (now db doc new))) est.0
                      ∙ ap (from_key nat_keys q) est.1
                      ∙ sym (from_key-twice s.applied q w low)
                      ∙ from_key-drop (suc m) s.applied (pending s) asc,
                  est.1,
                ),
              ),
            )

      apply-Hands :
          (m : ℕ) (arg : A) (s : TrLog E)
          → Accepts fn
          → IsValid db doc s
          → Hands m arg s (TrLog.apply db all_granted (suc m) fn arg s)
      unfolding TrLog.apply
      apply-Hands m arg s a v = elim (Bool-cases (leb s.top s.applied)) [
        | inl y ↦ rw (y) (
            none-Hands m arg s (
              from_key-none s.applied s.top (log_of (now db doc s)) v.under
                (leb→le s.top s.applied y)))
        | inr y ↦ rw (y, read-take m s.applied s.storage) (loop-Hands m arg s a v)
      ]

      -- Calls of `apply` one after the other, as the committer makes them.
      abbrev pub apply_times : ℕ → ℕ → A → TrLog E → A × TrLog E
      apply_times zero size arg s = (arg, s)
      apply_times (suc k) size arg s =
          let r = (TrLog.apply db all_granted size fn arg s).1 in apply_times k size r.0 r.1

      none_left :
          (s : TrLog E)
          → IsValid db doc s
          → pending s ≡ []
          → s.applied ≡ end_of (log_of (now db doc s))
      none_left s v e =
          omega
            (arith, end_of-from_key s.applied 0 (log_of (now db doc s)) v.ascending e, v.applied_in)

      -- Enough calls of `apply` on a valid log hand every operation that waits to a callback that
      -- takes them, in the order of their identifiers and each of them once, and leave the position
      -- at the end of the log, which they do not change. LMDB meets no error, every entry can be
      -- allocated, and a batch has room for at least one.
      pub apply_times-fold :
          (k m : ℕ) (arg : A) (s : TrLog E)
          → Accepts fn
          → IsValid db doc s
          → length (pending s) ≤ k
          → ((apply_times k (suc m) arg s).0 ≡ fold_ops fn (pending s) arg)
            × (((apply_times k (suc m) arg s).1.applied ≡ end_of (log_of (now db doc s)))
                × (log_of (now db doc (apply_times k (suc m) arg s).1) ≡ log_of (now db doc s)))
      apply_times-fold zero m arg s a v l =
          let e = empty_of (pending s) l in
          (ap (λ o. fold_ops fn o arg) (sym e), (none_left s v e, refl))
      apply_times-fold (suc k) m arg s a v l =
          let r = TrLog.apply db all_granted (suc m) fn arg s in
          let h = apply-Hands m arg s a v in
          let count : length (pending r.1.1) ≡ length (pending s) - suc m =
            ap length h.1.1.0 ∙ length-drop (suc m) (pending s) in
          let rest =
            apply_times-fold k m r.1.0 r.1.1 a (apply-IsValid db doc fn all_granted (suc m) arg s v)
              (omega (arith, count)) in
          (
            rest.0
                ∙ ap (fold_ops fn (pending r.1.1)) h.1.0
                ∙ ap (λ o. fold_ops fn o (fold_ops fn (take (suc m) (pending s)) arg)) h.1.1.0
                ∙ sym (fold_ops-append fn (take (suc m) (pending s)) (drop (suc m) (pending s)) arg)
                ∙ ap (λ o. fold_ops fn o arg) (take-append-drop (suc m) (pending s)),
            (rest.1.0 ∙ ap end_of h.1.1.1, rest.1.1 ∙ h.1.1.1),
          )
