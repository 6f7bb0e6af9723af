-- ===== src/TrLog/Kept.antt =====
-- The log of mdv_core/storage/mdv_trlog.c only grows: no call changes or loses an operation.
use mdb_linux.Base.{
  clash, ℕ, ◌^◌, ◌<◌, ◌≡◌, ◌≢◌, refl, sym, ap, subst, ◌∙◌, inl, inr, Bool, true, false, List, [],
  ◌∷◌, Option, none, some, ◌==◌, leb, if◌then◌else◌, Bool-cases, Option-cases,
}
use mdb_linux.Storage.Rows.{find, find-insert_other}
use mdb_linux.Storage.Lmdb.{
  View, Lmdb, Documented, Put-cases, trlog, with_map, with_entry, Errno, ok, failed, not_found,
  map_put_unique, transaction_start, transaction_commit,
}
use mdb_linux.Storage.Session.{map_open, in_transaction, usable_before}
use mdb_linux.TrLog
use mdb_linux.TrLog.{TrLog, Bytes, Data, nat_keys, same_to}
use mdb_linux.TrLog.Valid.{log_of, now, IsValid}
use mdb_linux.TrLog.Applies.{Saves, applied_pos-Saves, applied-le}

-- Every operation of the first log is in the second one.
abbrev pub Keeps : View ℕ Bytes → View ℕ Bytes → Type 0
Keeps w new =
    (id : ℕ) (op : Bytes)
    → find nat_keys id (log_of w) ≡ some op
    → find nat_keys id (log_of new) ≡ some op

told : {x : Bytes} → some x ≢ none
told h = cc

Keeps-insert :
    (w v : View ℕ Bytes) (id : ℕ) (op : Bytes)
    → Keeps w v
    → find nat_keys id (log_of v) ≡ none
    → Keeps w (with_entry nat_keys trlog id op (with_map nat_keys trlog v))
Keeps-insert w v id op k n q x h = elim (Bool-cases (q == id)) [
  | inl e ↦
      let s = same_to q id e in
      absurd (told (sym (k q x h) ∙ ap (λ i. find nat_keys i (log_of v)) s ∙ n))
  | inr d ↦ find-insert_other nat_keys q id op (log_of v) d ∙ k q x h
]

module _ {E T : Type 0} (db : Lmdb ℕ Bytes E T) (doc : Documented nat_keys db) where
  abbrev LoopKeeps : View ℕ Bytes → Bool × (ℕ × Option T) → Type 0
  LoopKeeps w (changed, (top, none)) = false ≡ true
  LoopKeeps w (changed, (top, some t)) = doc.usable t ≡ true → Keeps w (doc.seen t)

  put-Keeps :
      (w : View ℕ Bytes) (id : ℕ) (op : Bytes) (t : T)
      → (doc.usable t ≡ true → Keeps w (doc.seen t))
      → doc.usable (db.put true trlog id op t).1 ≡ true
      → Keeps w (doc.seen (db.put true trlog id op t).1)
  put-Keeps w id op t h u =
      let b = usable_before db nat_keys doc true trlog id op t u in
      elim (Put-cases (db.put true trlog id op t).0) [
        | inl p ↦
            let law = doc.put_law true trlog id op t b p in
            subst (Keeps w) (sym law.1.0) (Keeps-insert w (doc.seen t) id op (h b) (law.1.1 refl))
        | inr (inl p) ↦ subst (Keeps w) (sym (doc.put_exists_law true trlog id op t b p).1.0) (h b)
        | inr (inr (inl p)) ↦
            subst (Keeps w) (sym (doc.put_refused_law true trlog id op t b p).1.0) (h b)
        | inr (inr (inr p)) ↦ absurd (clash u (doc.put_spoiled_law true trlog id op t p))
      ]

  loop-Keeps :
      (ops : List Data) (w : View ℕ Bytes) (a : Bool × (ℕ × Option T))
      → LoopKeeps w a
      → LoopKeeps w (TrLog.add_loop db ops a)
  unfolding TrLog.add_loop map_put_unique
  loop-Keeps [] w a h = h
  loop-Keeps (op ∷ ops) w (changed, (top, none)) h = absurd (clash refl (sym h))
  loop-Keeps ((id, op) ∷ ops) w (changed, (top, some t)) h =
      let p = map_put_unique db trlog id op (some t) in
      let turn : LoopKeeps w
          (if p.0 then (true, (TrLog.id_maximize id top, p.1)) else (changed, (top, p.1))) =
        elim (Bool-cases p.0) [
          | inl y ↦ rw (y) (put-Keeps w id op t h)
          | inr n ↦ rw (n) (put-Keeps w id op t h)
        ] in
      loop-Keeps ops w _ turn

  commit-Keeps :
      (t : T) (e : E)
      → (doc.usable t ≡ true → Keeps (doc.committed e) (doc.seen t))
      → Keeps (doc.committed e) (doc.committed (db.txn_commit t e).1)
  commit-Keeps t e h = elim (Bool-cases (db.txn_commit t e).0) [
    | inl c ↦
        let law = doc.commit_law t e c in subst (Keeps (doc.committed e)) (sym law.1) (h law.0)
    | inr c ↦ subst (Keeps (doc.committed e)) (sym (doc.no_commit_law t e c)) (λ i o x. x)
  ]

  add_commit-Keeps :
      (s : TrLog E) (a : Bool × (ℕ × Option T))
      → LoopKeeps (now db doc s) a
      → Keeps (now db doc s) (now db doc (TrLog.add_commit db s a).1)
  unfolding TrLog.add_commit transaction_commit TrLog.changed_notify
  add_commit-Keeps s (changed, (top, none)) h = absurd (clash refl (sym h))
  add_commit-Keeps s (changed, (top, some t)) h =
      let f = commit-Keeps t s.storage h in
      elim (Bool-cases (db.txn_commit t s.storage).0) [
        | inl c ↦ elim (Bool-cases changed) [ inl y ↦ rw (c, y) f | inr n ↦ rw (c, n) f ]
        | inr c ↦ rw (c) f
      ]

  opened-seen :
      (s : TrLog E) (t : T)
      → doc.usable t ≡ true
      → doc.seen t ≡ now db doc s
      → (db.dbi_open trlog true t).0 ≡ true
      → Keeps (now db doc s) (doc.seen (db.dbi_open trlog true t).1)
  opened-seen s t u h o i x g =
      let law = doc.open_law trlog true t u o in
      ap (λ w. find nat_keys i (log_of w)) law.1.0 ∙ ap (λ w. find nat_keys i (log_of w)) h ∙ g

  add_opened-Keeps :
      (ops : List Data) (s : TrLog E) (m : Bool × T)
      → (m.0 ≡ true → Keeps (now db doc s) (doc.seen m.1))
      → Keeps (now db doc s) (now db doc (TrLog.add_opened db ops s m).1)
  unfolding TrLog.add_opened
  add_opened-Keeps ops s (false, t) h = λ i o x. x
  add_opened-Keeps ops s (true, t) h =
      add_commit-Keeps s (TrLog.add_loop db ops (false, (s.top, some t)))
        (loop-Keeps ops (now db doc s) (false, (s.top, some t)) (λ u. h refl))

  pub add-Keeps :
      (ops : List Data) (s : TrLog E) → Keeps (now db doc s) (now db doc (TrLog.add db ops s).1)
  unfolding TrLog.add transaction_start map_open
  add-Keeps ops s = elim (Option-cases (db.txn_begin s.storage)) [
    | inl n ↦ rw (TrLog.add, n) (λ i o x. x)
    | inr (t, b) ↦
        let l = doc.begin_law s.storage t b in
        rw (TrLog.add, b)
          (add_opened-Keeps ops s (db.dbi_open trlog true t) (λ o. opened-seen s t l.0 l.1 o))
  ]

  op_commit-Keeps :
      (s u : TrLog E) (done : Bool) (t : T)
      → u.storage ≡ s.storage
      → (doc.usable t ≡ true → Keeps (now db doc s) (doc.seen t))
      → Keeps (now db doc s) (now db doc (TrLog.op_commit db u (done, some t)).1)
  unfolding TrLog.op_commit transaction_commit TrLog.changed_notify
  op_commit-Keeps s u false t e h =
      subst (λ x. Keeps (now db doc s) (doc.committed x)) (sym e) (λ i o x. x)
  op_commit-Keeps s u true t e h =
      let f =
        commit-Keeps t u.storage
          (subst (λ x. doc.usable t ≡ true → Keeps (doc.committed x) (doc.seen t)) (sym e) h) in
      let g =
        subst (λ x. Keeps (doc.committed x) (doc.committed (db.txn_commit t u.storage).1)) e f in
      elim (Bool-cases (db.txn_commit t u.storage).0) [ inl c ↦ rw (c) g | inr c ↦ rw (c) g ]

  op_opened-Keeps :
      (op : Bytes) (s : TrLog E) (m : Bool × T)
      → (m.0 ≡ true → Keeps (now db doc s) (doc.seen m.1))
      → Keeps (now db doc s) (now db doc (TrLog.op_opened db op s m).1)
  unfolding TrLog.op_opened TrLog.new_id map_put_unique
  op_opened-Keeps op s (false, t) h = λ i o x. x
  op_opened-Keeps op s (true, t) h =
      let p = map_put_unique db trlog s.top op (some t) in
      op_commit-Keeps s (TrLog.new_id s).1 p.0 (db.put true trlog s.top op t).1 refl
        (put-Keeps (now db doc s) s.top op t (λ u. h refl))

  pub add_op-Keeps :
      (op : Bytes) (s : TrLog E) → Keeps (now db doc s) (now db doc (TrLog.add_op db op s).1)
  unfolding TrLog.add_op transaction_start map_open
  add_op-Keeps op s = elim (Option-cases (db.txn_begin s.storage)) [
    | inl n ↦ rw (TrLog.add_op, n) (λ i o x. x)
    | inr (t, b) ↦
        let l = doc.begin_law s.storage t b in
        rw (TrLog.add_op, b)
          (op_opened-Keeps op s (db.dbi_open trlog true t) (λ o. opened-seen s t l.0 l.1 o))
  ]

  Saves-Keeps :
      (pos : ℕ) (w : View ℕ Bytes) (x : Errno) (new : View ℕ Bytes)
      → Saves db doc pos w x new
      → Keeps w new
  Saves-Keeps pos w ok new h = λ i o g. ap (find nat_keys i) h.0 ∙ g
  Saves-Keeps pos w failed new h = λ i o g. ap (λ v. find nat_keys i (log_of v)) h ∙ g
  Saves-Keeps pos w not_found new h = absurd (clash refl (sym h))

  module _ {A : Type 0} (fn : A → Bytes → Bool × A) where
    apply_end-Keeps :
        (s : TrLog E) (r : ℕ × (ℕ × A))
        → r.1.0 < 2 ^ 64
        → Keeps (now db doc s) (now db doc (TrLog.apply_end db s r).1.1)
    unfolding TrLog.apply_end TrLog.applied_pos_set
    apply_end-Keeps s (n, (pos, arg)) l = elim (Bool-cases (n == 0)) [
      | inl z ↦ rw (z) (λ i o x. x)
      | inr z ↦
          let r = in_transaction db (TrLog.applied_pos_body db pos) s.storage in
          rw (z) (
            Saves-Keeps pos (now db doc s) r.0 (doc.committed r.1)
              (applied_pos-Saves db doc pos s.storage l))
    ]

    pub apply-Keeps :
        (grants : ℕ → Bool) (size : ℕ) (arg : A) (s : TrLog E)
        → IsValid db doc s
        → Keeps (now db doc s) (now db doc (TrLog.apply db grants size fn arg s).1.1)
    unfolding TrLog.apply
    apply-Keeps grants size arg s v =
        let ops = TrLog.read db grants s.applied size s.storage in
        let p = applied-le db doc fn grants size arg s v in
        elim (Bool-cases (leb s.top s.applied)) [
          | inl y ↦ rw (y) (λ i o x. x)
          | inr y ↦ rw (y) (apply_end-Keeps s (TrLog.apply_loop fn ops (0, (s.applied, arg))) p)
        ]
