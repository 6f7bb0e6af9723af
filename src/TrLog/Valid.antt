-- ===== src/TrLog/Valid.antt =====
-- What holds of a transaction log of mdv_core/storage/mdv_trlog.c between two calls.
use mdb_linux.Base.{
  clash, ℕ, ◌+◌, ◌^◌, ◌≤◌, ◌<◌, ◌≡◌, refl, sym, subst, inl, inr, Bool, true, false, List, [], ◌∷◌,
  Option, none, some, if◌then◌else◌, All, arith,
}
use mdb_linux.Storage.Rows.{find}
use mdb_linux.Storage.Lmdb.{
  View, Lmdb, Documented, Put-cases, trlog, applied_map, with_map, with_entry, map_put_unique,
}
use mdb_linux.Storage.Session.{usable_before}
use mdb_linux.TrLog
use mdb_linux.TrLog.{TrLog, Bytes, Data, nat_keys, applied_pos_key, stored_pos}
use mdb_linux.TrLog.Rows.{
  AscendingFrom, Under, end_of, insert-AscendingFrom, insert-Under, Under-weaken, end_of-insert,
}

-- What is stored of a log: its operations and the position up to which they were applied.
abbrev pub log_of : View ℕ Bytes → List Data
log_of w = w.rows trlog

abbrev pub saved : View ℕ Bytes → ℕ
saved w = stored_pos (find nat_keys applied_pos_key (w.rows applied_map))

-- The stored operations are in order and below the top; no operation behind the end was applied.
pub record Fits (w : View ℕ Bytes) (top pos : ℕ) : Type 0 where
  pub ascending : AscendingFrom 0 (log_of w)
  pub under : Under top (log_of w)
  pub applied_in : pos ≤ end_of (log_of w)
  pub saved_in : saved w ≤ pos
  pub top_in : top < 2 ^ 64

pub id_maximize-le :
    (id top : ℕ)
    → id + 1 < 2 ^ 64
    → (top ≤ TrLog.id_maximize id top) × (id < TrLog.id_maximize id top)
unfolding TrLog.id_maximize
id_maximize-le id top l = ground arith

pub id_maximize-lt : (id top : ℕ) → top < 2 ^ 64 → TrLog.id_maximize id top < 2 ^ 64
unfolding TrLog.id_maximize
id_maximize-lt id top l = ground arith

pub Fits-top :
    (w : View ℕ Bytes) (top more pos : ℕ)
    → Fits w top pos
    → top ≤ more
    → more < 2 ^ 64
    → Fits w more pos
Fits-top w top more pos f l b = record {
  ascending = f.ascending;
  under = Under-weaken top more (log_of w) l f.under;
  applied_in = f.applied_in;
  saved_in = f.saved_in;
  top_in = b;
}

-- A new operation under the top.
pub Fits-insert :
    (w : View ℕ Bytes) (top pos id : ℕ) (op : Bytes)
    → Fits w top pos
    → id < top
    → Fits (with_entry nat_keys trlog id op (with_map nat_keys trlog w)) top pos
Fits-insert w top pos id op f l =
    let e = end_of-insert id 0 op (log_of w) (omega arith) f.ascending in
    record {
      ascending = insert-AscendingFrom id 0 op (log_of w) (omega arith) f.ascending;
      under = insert-Under id top op (log_of w) l f.under;
      applied_in = omega (arith, f.applied_in, e);
      saved_in = f.saved_in;
      top_in = f.top_in;
    }

module _ {E T : Type 0} (db : Lmdb ℕ Bytes E T) (doc : Documented nat_keys db) where
  abbrev pub now : TrLog E → View ℕ Bytes
  now s = doc.committed s.storage

  abbrev pub IsValid : TrLog E → Type 0
  IsValid s = Fits (now s) s.top s.applied

  -- Between two turns of the loop of `add`: the transaction, while it can be committed, fits.
  abbrev pub LoopFits : ℕ → ℕ → Bool × (ℕ × Option T) → Type 0
  LoopFits low pos (changed, (top, none)) = false ≡ true
  LoopFits low pos (changed, (top, some t)) =
      ((low ≤ top) × (top < 2 ^ 64)) × (doc.usable t ≡ true → Fits (doc.seen t) top pos)

  abbrev pub InRange : List Data → Type 0
  InRange ops = All (λ p. p.0 + 1 < 2 ^ 64) ops

  loop_turn :
      (op : Data) (low pos : ℕ) (changed : Bool) (top : ℕ) (t : T)
      → op.0 + 1 < 2 ^ 64
      → LoopFits low pos (changed, (top, some t))
      → LoopFits low pos (
          if (map_put_unique db trlog op.0 op.1 (some t)).0
          then (true, (TrLog.id_maximize op.0 top, (map_put_unique db trlog op.0 op.1 (some t)).1))
          else (changed, (top, (map_put_unique db trlog op.0 op.1 (some t)).1)))
  unfolding map_put_unique
  loop_turn (id, op) low pos changed top t l h =
      let before = usable_before db nat_keys doc true trlog id op t in
      let m = id_maximize-le id top l in
      elim (Put-cases (db.put true trlog id op t).0) [
        | inl p ↦ rw (p) (
          (omega (arith, h.0.0, m.0), id_maximize-lt id top h.0.1),
          λ u.
              let law = doc.put_law true trlog id op t (before u) p in
              subst (λ w. Fits w (TrLog.id_maximize id top) pos) (sym law.1.0)
                (Fits-insert (doc.seen t) (TrLog.id_maximize id top) pos id op
                  (Fits-top (doc.seen t) top (TrLog.id_maximize id top) pos (h.1 (before u)) m.0
                    (id_maximize-lt id top h.0.1))
                  m.1),
        )
        | inr (inl p) ↦ rw (p) (
          h.0,
          λ u.
              let law = doc.put_exists_law true trlog id op t (before u) p in
              subst (λ w. Fits w top pos) (sym law.1.0) (h.1 (before u)),
        )
        | inr (inr (inl p)) ↦ rw (p) (
          h.0,
          λ u.
              let law = doc.put_refused_law true trlog id op t (before u) p in
              subst (λ w. Fits w top pos) (sym law.1.0) (h.1 (before u)),
        )
        | inr (inr (inr p)) ↦
            rw (p) (h.0, λ u. absurd (clash u (doc.put_spoiled_law true trlog id op t p)))
      ]

  pub add_loop-Fits :
      (ops : List Data) (low pos : ℕ) (a : Bool × (ℕ × Option T))
      → InRange ops
      → LoopFits low pos a
      → LoopFits low pos (TrLog.add_loop db ops a)
  unfolding TrLog.add_loop
  add_loop-Fits [] low pos a r h = h
  add_loop-Fits (op ∷ ops) low pos (changed, (top, none)) r h = absurd (clash refl (sym h))
  add_loop-Fits (op ∷ ops) low pos (changed, (top, some t)) (l, r) h =
      add_loop-Fits ops low pos _ r (loop_turn op low pos changed top t l h)
