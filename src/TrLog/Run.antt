-- ===== src/TrLog/Run.antt =====
-- Sequences of calls of the functions of mdv_core/storage/mdv_trlog.c.
use mdb_linux.Base.{ℕ, ◌+◌, ◌^◌, ◌<◌, ap, ◌∙◌, Bool, List}
use mdb_linux.Storage.Rows.{find}
use mdb_linux.Storage.Lmdb.{Lmdb, Documented}
use mdb_linux.TrLog
use mdb_linux.TrLog.{TrLog, Bytes, Data, nat_keys}
use mdb_linux.TrLog.Valid.{log_of, now, IsValid, InRange}
use mdb_linux.TrLog.Adds.{add-IsValid, add_op-IsValid}
use mdb_linux.TrLog.Applies.{apply-IsValid}
use mdb_linux.TrLog.Restart.{Opened, Opened-IsValid}
use mdb_linux.TrLog.Kept.{Keeps, add-Keeps, add_op-Keeps, apply-Keeps}

module _ {E T : Type 0} (db : Lmdb ℕ Bytes E T) (doc : Documented nat_keys db) where
  -- From the first log to the second by calls, as long as the identifiers last; the log may be
  -- opened again at any time, if what is stored can be read then.
  pub data Reaches : TrLog E → TrLog E → Type 1 where
    here : (s : TrLog E) → Reaches s s
    by_add :
        (ops : List Data) (s u : TrLog E)
        → InRange db doc ops
        → Reaches (TrLog.add db ops s).1 u
        → Reaches s u
    by_add_op :
        (op : Bytes) (s u : TrLog E)
        → s.top + 1 < 2 ^ 64
        → Reaches (TrLog.add_op db op s).1 u
        → Reaches s u
    by_apply :
        {A : Type 0} (fn : A → Bytes → Bool × A) (grants : ℕ → Bool) (size : ℕ) (arg : A)
        (s u : TrLog E)
        → Reaches (TrLog.apply db grants size fn arg s).1.1 u
        → Reaches s u
    by_reopen :
        (s u : TrLog E)
        → Opened db doc s.storage (TrLog.init db s.storage)
        → Reaches (TrLog.init db s.storage) u
        → Reaches s u

  -- Whatever calls are made on a valid log, and however often it is opened again, it stays valid:
  -- the stored operations are in the order of their identifiers, below the top, and the applied
  -- position does not pass their end. Every call of LMDB that adding and applying
  -- make may fail, the cursor at any operation; opening the log again reads without an error, and
  -- the identifiers fit in 64 bits.
  pub Reaches-IsValid : (s u : TrLog E) → Reaches s u → IsValid db doc s → IsValid db doc u
  Reaches-IsValid s u (here _) v = v
  Reaches-IsValid s u (by_add ops _ _ r h) v =
      Reaches-IsValid (TrLog.add db ops s).1 u h (add-IsValid db doc ops s v r)
  Reaches-IsValid s u (by_add_op op _ _ l h) v =
      Reaches-IsValid (TrLog.add_op db op s).1 u h (add_op-IsValid db doc op s v l)
  Reaches-IsValid s u (by_apply fn grants size arg _ _ h) v =
      Reaches-IsValid (TrLog.apply db grants size fn arg s).1.1 u h
        (apply-IsValid db doc fn grants size arg s v)
  Reaches-IsValid s u (by_reopen _ _ r h) v =
      Reaches-IsValid (TrLog.init db s.storage) u h
        (Opened-IsValid db doc s (TrLog.init db s.storage) v r)

  -- An operation that is in a valid log stays in it as it is, under its identifier, whatever
  -- calls are made. Every call of LMDB that adding and applying make may fail, the cursor at any
  -- operation; opening the log again reads without an error, and the identifiers fit in 64 bits.
  pub Reaches-Keeps :
      (s u : TrLog E) → Reaches s u → IsValid db doc s → Keeps (now db doc s) (now db doc u)
  Reaches-Keeps s u (here _) v = λ i p x. x
  Reaches-Keeps s u (by_add ops _ _ r h) v = λ i p x.
      Reaches-Keeps (TrLog.add db ops s).1 u h (add-IsValid db doc ops s v r) i p
        (add-Keeps db doc ops s i p x)
  Reaches-Keeps s u (by_add_op op _ _ l h) v = λ i p x.
      Reaches-Keeps (TrLog.add_op db op s).1 u h (add_op-IsValid db doc op s v l) i p
        (add_op-Keeps db doc op s i p x)
  Reaches-Keeps s u (by_apply fn grants size arg _ _ h) v = λ i p x.
      Reaches-Keeps (TrLog.apply db grants size fn arg s).1.1 u h
        (apply-IsValid db doc fn grants size arg s v) i p
        (apply-Keeps db doc fn grants size arg s v i p x)
  Reaches-Keeps s u (by_reopen _ _ r h) v = λ i p x.
      Reaches-Keeps (TrLog.init db s.storage) u h
        (Opened-IsValid db doc s (TrLog.init db s.storage) v r) i p
        (ap (λ e. find nat_keys i (log_of (doc.committed e))) r.0 ∙ x)
