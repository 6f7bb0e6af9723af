-- ===== src/TrLog/Adds.antt =====
-- mdv_trlog_add and mdv_trlog_add_op of mdv_core/storage/mdv_trlog.c.
use mdb_linux.Base.{
  clash, ℕ, ◌+◌, ◌%◌, ◌^◌, ◌<◌, ◌≡◌, refl, sym, ap, subst, ◌∙◌, inl, inr, Bool, true, false, List,
  Option, none, some, Bool-cases, Option-cases, arith,
}
use mdb_linux.Storage.Lmdb.{
  View, Lmdb, Documented, Put-cases, trlog, with_map, map_put_unique, transaction_start,
  transaction_commit,
}
use mdb_linux.Storage.Session.{map_open, usable_before}
use mdb_linux.TrLog
use mdb_linux.TrLog.{TrLog, Bytes, Data, nat_keys}
use mdb_linux.TrLog.Valid.{
  Fits, Fits-top, Fits-insert, now, IsValid, LoopFits, InRange, add_loop-Fits,
}

module _ {E T : Type 0} (db : Lmdb ℕ Bytes E T) (doc : Documented nat_keys db) where
  -- What a commit leaves, by its answer.
  pub commit-Fits :
      (t : T) (e : E) (top pos : ℕ)
      → Fits (doc.committed e) top pos
      → (doc.usable t ≡ true → Fits (doc.seen t) top pos)
      → Fits (doc.committed (db.txn_commit t e).1) top pos
  commit-Fits t e top pos f h = elim (Bool-cases (db.txn_commit t e).0) [
    | inl c ↦ let law = doc.commit_law t e c in subst (λ w. Fits w top pos) (sym law.1) (h law.0)
    | inr c ↦ subst (λ w. Fits w top pos) (sym (doc.no_commit_law t e c)) f
  ]

  add_commit-IsValid :
      (s : TrLog E) (a : Bool × (ℕ × Option T))
      → IsValid db doc s
      → LoopFits db doc s.top s.applied a
      → IsValid db doc (TrLog.add_commit db s a).1
  unfolding transaction_commit TrLog.changed_notify
  add_commit-IsValid s (changed, (top, none)) v h = absurd (clash refl (sym h))
  add_commit-IsValid s (changed, (top, some t)) v h =
      let f =
        commit-Fits t s.storage top s.applied
          (Fits-top (now db doc s) s.top top s.applied v h.0.0 h.0.1) h.1 in
      elim (Bool-cases (db.txn_commit t s.storage).0) [
        | inl c ↦ elim (Bool-cases changed) [ inl y ↦ rw (c, y) f | inr n ↦ rw (c, n) f ]
        | inr c ↦ rw (c) f
      ]

  opened-IsValid :
      (ops : List Data) (s : TrLog E) (m : Bool × T)
      → IsValid db doc s
      → InRange db doc ops
      → (m.0 ≡ true → doc.usable m.1 ≡ true → Fits (doc.seen m.1) s.top s.applied)
      → IsValid db doc (TrLog.add_opened db ops s m).1
  unfolding TrLog.add_opened
  opened-IsValid ops s (false, t) v r h = v
  opened-IsValid ops s (true, t) v r h =
      add_commit-IsValid s (TrLog.add_loop db ops (false, (s.top, some t))) v (
        add_loop-Fits db doc ops s.top s.applied (false, (s.top, some t)) r
          ((omega arith, v.top_in), h refl))

  Fits-map :
      (w : View ℕ Bytes) (top pos : ℕ) → Fits w top pos → Fits (with_map nat_keys trlog w) top pos
  Fits-map w top pos f = record {
    ascending = f.ascending;
    under = f.under;
    applied_in = f.applied_in;
    saved_in = f.saved_in;
    top_in = f.top_in;
  }

  open-Fits :
      (s : TrLog E) (t : T)
      → IsValid db doc s
      → doc.usable t ≡ true
      → doc.seen t ≡ now db doc s
      → (db.dbi_open trlog true t).0 ≡ true
      → Fits (doc.seen (db.dbi_open trlog true t).1) s.top s.applied
  open-Fits s t v u h o =
      let law = doc.open_law trlog true t u o in
      subst (λ w. Fits w s.top s.applied) (sym (law.1.0 ∙ ap (with_map nat_keys trlog) h))
        (Fits-map (now db doc s) s.top s.applied v)

  -- Adding operations that came from another node leaves a valid log, whichever of them are there
  -- already and whichever call of LMDB fails.
  pub add-IsValid :
      (ops : List Data) (s : TrLog E)
      → IsValid db doc s
      → InRange db doc ops
      → IsValid db doc (TrLog.add db ops s).1
  unfolding TrLog.add transaction_start map_open
  add-IsValid ops s v r = elim (Option-cases (db.txn_begin s.storage)) [
    | inl n ↦ rw (TrLog.add, n) v
    | inr (t, b) ↦
        let l = doc.begin_law s.storage t b in
        rw (TrLog.add, b)
          (opened-IsValid ops s (db.dbi_open trlog true t) v r (λ o u. open-Fits s t v l.0 l.1 o))
  ]

  op_commit-IsValid :
      (s : TrLog E) (done : Bool) (t : T)
      → IsValid db doc s
      → (done ≡ true → doc.usable t ≡ true → Fits (doc.seen t) s.top s.applied)
      → IsValid db doc (TrLog.op_commit db s (done, some t)).1
  unfolding TrLog.op_commit transaction_commit TrLog.changed_notify
  op_commit-IsValid s false t v h = v
  op_commit-IsValid s true t v h =
      let f = commit-Fits t s.storage s.top s.applied v (h refl) in
      elim (Bool-cases (db.txn_commit t s.storage).0) [ inl c ↦ rw (c) f | inr c ↦ rw (c) f ]

  new_id-top : (s : TrLog E) → s.top + 1 < 2 ^ 64 → (TrLog.new_id s).1.top ≡ s.top + 1
  unfolding TrLog.new_id
  new_id-top s l = omega arith

  put_op-IsValid :
      (op : Bytes) (s : TrLog E) (t : T)
      → s.top + 1 < 2 ^ 64
      → IsValid db doc s
      → (doc.usable t ≡ true → Fits (doc.seen t) s.top s.applied)
      → IsValid db doc
          (TrLog.op_commit db (TrLog.new_id s).1 (map_put_unique db trlog s.top op (some t))).1
  unfolding map_put_unique TrLog.new_id
  put_op-IsValid op s t l v h =
      let u : TrLog E = record s { top = (s.top + 1) % 2 ^ 64 } in
      let r = db.put true trlog s.top op t in
      let before = usable_before db nat_keys doc true trlog s.top op t in
      let grown = λ (w : View ℕ Bytes) (f : Fits w s.top s.applied).
        Fits-top w s.top u.top s.applied f (omega (arith, l)) (omega arith) in
      elim (Put-cases r.0) [
        | inl p ↦ rw (p) (
            op_commit-IsValid u true r.1 (grown (now db doc s) v) (λ e x.
              subst (λ w. Fits w u.top s.applied)
                (sym (doc.put_law true trlog s.top op t (before x) p).1.0)
                (Fits-insert (doc.seen t) u.top s.applied s.top op
                  (grown (doc.seen t) (h (before x))) (omega (arith, l)))))
        | inr (inl p) ↦ rw (p) (
            op_commit-IsValid u false r.1 (grown (now db doc s) v)
              (λ e x. absurd (clash refl (sym e))))
        | inr (inr (inl p)) ↦ rw (p) (
            op_commit-IsValid u false r.1 (grown (now db doc s) v)
              (λ e x. absurd (clash refl (sym e))))
        | inr (inr (inr p)) ↦ rw (p) (
            op_commit-IsValid u false r.1 (grown (now db doc s) v)
              (λ e x. absurd (clash refl (sym e))))
      ]

  op_opened-IsValid :
      (op : Bytes) (s : TrLog E) (m : Bool × T)
      → s.top + 1 < 2 ^ 64
      → IsValid db doc s
      → (m.0 ≡ true → doc.usable m.1 ≡ true → Fits (doc.seen m.1) s.top s.applied)
      → IsValid db doc (TrLog.op_opened db op s m).1
  unfolding TrLog.op_opened TrLog.new_id
  op_opened-IsValid op s (false, t) l v h = v
  op_opened-IsValid op s (true, t) l v h = put_op-IsValid op s t l v (h refl)

  -- Adding an operation of this node leaves a valid log, whichever call of LMDB fails, unless the
  -- 64 bits of the identifiers are used up.
  pub add_op-IsValid :
      (op : Bytes) (s : TrLog E)
      → IsValid db doc s
      → s.top + 1 < 2 ^ 64
      → IsValid db doc (TrLog.add_op db op s).1
  unfolding TrLog.add_op transaction_start map_open
  add_op-IsValid op s v l = elim (Option-cases (db.txn_begin s.storage)) [
    | inl n ↦ rw (TrLog.add_op, n) v
    | inr (t, b) ↦
        let g = doc.begin_law s.storage t b in
        rw (TrLog.add_op, b)
          (op_opened-IsValid op s (db.dbi_open trlog true t) l v (λ o u. open-Fits s t v g.0 g.1 o))
  ]
