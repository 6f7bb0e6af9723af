-- ===== src/TrLog/Applies.antt =====
-- mdv_trlog_apply and mdv_trlog_applied_pos_set of mdv_core/storage/mdv_trlog.c, whatever the
-- callback and LMDB answer.
use mdb_linux.Base.{
  clash, ℕ, ◌+◌, ◌%◌, ◌^◌, ◌≤◌, ◌<◌, ◌≡◌, refl, sym, ap, subst, ◌∙◌, inl, inr, Bool, true, false,
  List, [], ◌∷◌, some, ◌==◌, leb, if◌then◌else◌, Bool-cases, Option-cases, arith, encode,
  decode-encode, take,
}
use mdb_linux.Storage.Rows.{from_key, find-insert_same}
use mdb_linux.Storage.Lmdb.{
  View, Lmdb, Documented, Put-cases, trlog, applied_map, Errno, ok, failed, not_found, map_put,
  transaction_start,
}
use mdb_linux.Storage.Session.{
  commit, abort, in_transaction, Ends, Meets, in_transaction-Meets, with_open-Ends, map_open,
}
use mdb_linux.TrLog
use mdb_linux.TrLog.{TrLog, Bytes, Data, nat_keys, applied_pos_key}
use mdb_linux.TrLog.Rows.{
  AscendingFrom, Under, end_of, take-AscendingFrom, take-Under, from_key-AscendingFrom,
  from_key-Under, Under-end_of, end_of-le,
}
use mdb_linux.TrLog.Valid.{log_of, saved, Fits, now, IsValid}

read_loop-AscendingFrom :
    (grants : ℕ → Bool) (size n b : ℕ) (rows : List Data)
    → AscendingFrom b rows
    → AscendingFrom b (TrLog.read_loop grants size n rows)
unfolding TrLog.read_loop
read_loop-AscendingFrom grants size n b [] h = tt
read_loop-AscendingFrom grants size n b (p ∷ rows) (h, r) = elim (Bool-cases (grants n)) [
  | inl g ↦ elim (Bool-cases (leb size (n + 1))) [
    | inl y ↦ rw (g, y) (h, tt)
    | inr f ↦ rw (g, f) (h, read_loop-AscendingFrom grants size (n + 1) (p.0 + 1) rows r)
  ]
  | inr g ↦ rw (g) tt
]

read_loop-Under :
    (grants : ℕ → Bool) (size n m : ℕ) (rows : List Data)
    → Under m rows
    → Under m (TrLog.read_loop grants size n rows)
unfolding TrLog.read_loop
read_loop-Under grants size n m [] u = tt
read_loop-Under grants size n m (p ∷ rows) (h, u) = elim (Bool-cases (grants n)) [
  | inl g ↦ elim (Bool-cases (leb size (n + 1))) [
    | inl y ↦ rw (g, y) (h, tt)
    | inr f ↦ rw (g, f) (h, read_loop-Under grants size (n + 1) m rows u)
  ]
  | inr g ↦ rw (g) tt
]

module _ {A : Type 0} (fn : A → Bytes → Bool × A) where
  -- The position only goes forward, and not past a bound of the identifiers.
  apply_loop-pos :
      (ops : List Data) (n pos m : ℕ) (arg : A)
      → AscendingFrom pos ops
      → Under m ops
      → pos ≤ m
      → m < 2 ^ 64
      → (pos ≤ (TrLog.apply_loop fn ops (n, (pos, arg))).1.0)
        × ((TrLog.apply_loop fn ops (n, (pos, arg))).1.0 ≤ m)
  unfolding TrLog.apply_loop
  apply_loop-pos [] n pos m arg h u l b = (omega arith, l)
  apply_loop-pos (p ∷ ops) n pos m arg (h, r) (g, u) l b =
      let next : (p.0 + 1) % 2 ^ 64 ≡ p.0 + 1 = omega arith in
      elim (Bool-cases (fn arg p.1).0) [
        | inl y ↦
            let rest = apply_loop-pos ops (n + 1) (p.0 + 1) m (fn arg p.1).1 r u (omega arith) b in
            rw (y, next) (omega (arith, rest.0), rest.1)
        | inr f ↦ rw (f) (omega arith, l)
      ]

module _ {E T : Type 0} (db : Lmdb ℕ Bytes E T) (doc : Documented nat_keys db) where
  -- The position is saved and the log is as it was, or nothing has changed.
  abbrev pub Saves : ℕ → View ℕ Bytes → Errno → View ℕ Bytes → Type 0
  Saves pos w ok new = (log_of new ≡ log_of w) × (saved new ≡ pos)
  Saves pos w failed new = new ≡ w
  Saves pos w not_found new = false ≡ true

  put_pos-Ends :
      (pos : ℕ) (t : T) (w : View ℕ Bytes)
      → pos < 2 ^ 64
      → doc.usable t ≡ true
      → log_of (doc.seen t) ≡ log_of w
      → Ends db nat_keys doc (Saves pos w) w (
          if (map_put db applied_map applied_pos_key (encode 8 pos) (some t)).0
          then commit (map_put db applied_map applied_pos_key (encode 8 pos) (some t)).1
          else abort failed)
  unfolding map_put
  put_pos-Ends pos t w l u h =
      elim (Put-cases (db.put false applied_map applied_pos_key (encode 8 pos) t).0) [
        | inl p ↦
            let law = doc.put_law false applied_map applied_pos_key (encode 8 pos) t u p in
            rw (p) (λ x. (
              ap log_of law.1.0 ∙ h,
              ap saved law.1.0
                  ∙ ap TrLog.stored_pos (
                      find-insert_same nat_keys applied_pos_key (encode 8 pos)
                        ((doc.seen t).rows applied_map))
                  ∙ decode-encode 8 pos l,
            ))
        | inr (inl p) ↦ rw (p) refl
        | inr (inr (inl p)) ↦ rw (p) refl
        | inr (inr (inr p)) ↦ rw (p) refl
      ]

  pub applied_pos-Saves :
      (pos : ℕ) (e : E)
      → pos < 2 ^ 64
      → Meets db nat_keys doc
          (Saves pos (doc.committed e))
          (in_transaction db (TrLog.applied_pos_body db pos) e)
  unfolding TrLog.applied_pos_body
  applied_pos-Saves pos e l =
      let w = doc.committed e in
      let P = Saves pos w in
      in_transaction-Meets db nat_keys doc P _ e refl (λ t u s.
        with_open-Ends db nat_keys doc P applied_map true _ t w u refl
          (λ t1 u1 s1 c1. put_pos-Ends pos t1 w l u1 (ap log_of s1 ∙ ap log_of s)))

  Saves-Fits :
      (w : View ℕ Bytes) (top old pos : ℕ) (x : Errno) (new : View ℕ Bytes)
      → Fits w top old
      → old ≤ pos
      → pos ≤ end_of (log_of w)
      → Saves pos w x new
      → Fits new top pos
  Saves-Fits w top old pos ok new f l b h = record {
    ascending = subst (AscendingFrom 0) (sym h.0) f.ascending;
    under = subst (Under top) (sym h.0) f.under;
    applied_in = subst (λ r. pos ≤ end_of r) (sym h.0) b;
    saved_in = omega (arith, h.1);
    top_in = f.top_in;
  }
  Saves-Fits w top old pos failed new f l b h =
      subst (λ v. Fits v top pos) (sym h)
        (record {
          ascending = f.ascending;
          under = f.under;
          applied_in = b;
          saved_in = omega (arith, f.saved_in);
          top_in = f.top_in;
        })
  Saves-Fits w top old pos not_found new f l b h = absurd (clash refl (sym h))

  pub applied_pos_set-IsValid :
      (pos : ℕ) (s : TrLog E)
      → IsValid db doc s
      → s.applied ≤ pos
      → pos ≤ end_of (log_of (now db doc s))
      → IsValid db doc (TrLog.applied_pos_set db pos s)
  unfolding TrLog.applied_pos_set
  applied_pos_set-IsValid pos s v l b =
      let r = in_transaction db (TrLog.applied_pos_body db pos) s.storage in
      let e = end_of-le s.top (log_of (now db doc s)) v.under in
      Saves-Fits (now db doc s) s.top s.applied pos r.0 (doc.committed r.1) v l b
        (applied_pos-Saves pos s.storage (omega (arith, b, e, v.top_in)))

  -- What is read is in order and among the operations of the log.
  pub read-AscendingFrom :
      (grants : ℕ → Bool) (pos size n : ℕ) (e : E)
      → AscendingFrom 0 (log_of (doc.committed e))
      → Under n (log_of (doc.committed e))
      → AscendingFrom pos (TrLog.read db grants pos size e)
        × Under n (TrLog.read db grants pos size e)
  unfolding TrLog.read transaction_start map_open
  read-AscendingFrom grants pos size n e a u = elim (Option-cases (db.txn_begin e)) [
    | inl x ↦ rw (TrLog.read, x) (tt, tt)
    | inr (t, b) ↦
        let l = doc.begin_law e t b in
        elim (Bool-cases (db.dbi_open trlog false t).0) [
          | inl o ↦
              let l1 = doc.open_law trlog false t l.0 o in
              let t1 = (db.dbi_open trlog false t).1 in
              let (k, r) = doc.range_law trlog pos t1 l1.0 in
              let same =
                r
                ∙ ap (λ w. take k (from_key nat_keys pos (log_of w))) l1.1.0
                ∙ ap (λ w. take k (from_key nat_keys pos (log_of w))) l.1 in
              rw (TrLog.read, b, o, same)
                (
                  read_loop-AscendingFrom grants size 0 pos _ (
                      take-AscendingFrom k pos _
                        (from_key-AscendingFrom pos 0 (log_of (doc.committed e)) a)),
                  read_loop-Under grants size 0 n _
                      (take-Under k n _ (from_key-Under pos n (log_of (doc.committed e)) u)),
                )
          | inr f ↦ rw (TrLog.read, b, f) (tt, tt)
        ]
  ]

  module _ {A : Type 0} (fn : A → Bytes → Bool × A) where
    pub applied-le :
        (grants : ℕ → Bool) (size : ℕ) (arg : A) (s : TrLog E)
        → IsValid db doc s
        → (TrLog.apply_loop fn
            (TrLog.read db grants s.applied size s.storage)
            (0, (s.applied, arg))).1.0
          < 2 ^ 64
    applied-le grants size arg s v =
        let w = log_of (now db doc s) in
        let ops = TrLog.read db grants s.applied size s.storage in
        let r =
          read-AscendingFrom grants s.applied size (end_of w) s.storage v.ascending
            (Under-end_of 0 w v.ascending) in
        let b = end_of-le s.top w v.under in
        let p =
          apply_loop-pos fn ops 0 s.applied (end_of w) arg r.0 r.1 v.applied_in
            (omega (arith, b, v.top_in)) in
        omega (arith, p.1, b, v.top_in)

    apply_end-IsValid :
        (s : TrLog E) (r : ℕ × (ℕ × A))
        → IsValid db doc s
        → s.applied ≤ r.1.0
        → r.1.0 ≤ end_of (log_of (now db doc s))
        → IsValid db doc (TrLog.apply_end db s r).1.1
    unfolding TrLog.apply_end
    apply_end-IsValid s (n, (pos, arg)) v l b = elim (Bool-cases (n == 0)) [
      | inl z ↦ rw (z) v
      | inr z ↦ rw (z) (applied_pos_set-IsValid pos s v l b)
    ]

    -- Applying operations leaves a valid log, whatever the callback answers, however many entries
    -- can be allocated and whichever call of LMDB fails: the position of the applied ones does not
    -- pass the end of the log.
    pub apply-IsValid :
        (grants : ℕ → Bool) (batch_size : ℕ) (arg : A) (s : TrLog E)
        → IsValid db doc s
        → IsValid db doc (TrLog.apply db grants batch_size fn arg s).1.1
    unfolding TrLog.apply
    apply-IsValid grants batch_size arg s v =
        let w = log_of (now db doc s) in
        let ops = TrLog.read db grants s.applied batch_size s.storage in
        let r =
          read-AscendingFrom grants s.applied batch_size (end_of w) s.storage v.ascending
            (Under-end_of 0 w v.ascending) in
        let b = end_of-le s.top w v.under in
        let p =
          apply_loop-pos fn ops 0 s.applied (end_of w) arg r.0 r.1 v.applied_in
            (omega (arith, b, v.top_in)) in
        elim (Bool-cases (leb s.top s.applied)) [
          | inl y ↦ rw (y) v
          | inr y ↦
              rw (y) (apply_end-IsValid s (TrLog.apply_loop fn ops (0, (s.applied, arg))) v p.0 p.1)
        ]
