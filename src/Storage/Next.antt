-- ===== src/Storage/Next.antt =====
-- The stored end of the identifiers of mdv_storage/mdv_2pset.c, which only a reservation moves.
use mdb_linux.Base.{clash, ◌≡◌, refl, sym, ap, ◌∙◌, inl, inr, Bool, List, [], ◌∷◌, Bool-cases}
use mdb_linux.Storage.Rows.{KeyOrder}
use mdb_linux.Storage.Lmdb.{View, Errno, ok, failed, not_found}
use mdb_linux.Storage.TwoPSet.{Bytes}
use mdb_linux.Storage.Sets.{Sets, sets, is_some, add_to, delete_from, Grown, Adds, Deletes}
use mdb_linux.Storage.Batch.{AddsEach, AllOrNothing}

module _ (keys : KeyOrder Bytes) where
  next-add_to : (id obj : Bytes) (s : Sets) → (add_to keys id obj s).next_id ≡ s.next_id
  unfolding add_to
  next-add_to id obj s = elim (Bool-cases (s.deleted id)) [
    | inl t ↦ rw (t) refl
    | inr f ↦ elim (Bool-cases (is_some (s.added id))) [
      | inl a ↦ rw (f, a) refl
      | inr n ↦ rw (f, n) refl
    ]
  ]

  next-Grown :
      (fits : Bytes → Bytes → Bool) (id obj : Bytes) (s u : Sets)
      → Grown keys fits id obj s u
      → u.next_id ≡ s.next_id
  next-Grown fits id obj s u (inl e) = ap (λ x. x.next_id) e ∙ next-add_to id obj s
  next-Grown fits id obj s u (inr (n, e)) = ap (λ x. x.next_id) e

  pub Adds-next :
      (fits : Bytes → Bytes → Bool) (id obj : Bytes) (w : View Bytes Bytes) (x : Errno)
      (new : View Bytes Bytes)
      → Adds keys fits id obj w x new
      → (sets keys new).next_id ≡ (sets keys w).next_id
  Adds-next fits id obj w ok new h = next-Grown fits id obj (sets keys w) (sets keys new) h
  Adds-next fits id obj w failed new h = ap (λ v. (sets keys v).next_id) h
  Adds-next fits id obj w not_found new h = absurd (clash refl (sym h))

  pub Deletes-next :
      (id : Bytes) (w : View Bytes Bytes) (x : Errno) (new : View Bytes Bytes)
      → Deletes keys id w x new
      → (sets keys new).next_id ≡ (sets keys w).next_id
  unfolding delete_from
  Deletes-next id w ok new h = ap (λ s. s.next_id) h.1
  Deletes-next id w failed new h = ap (λ v. (sets keys v).next_id) h
  Deletes-next id w not_found new h = ap (λ v. (sets keys v).next_id) h.1

  next-AddsEach :
      (fits : Bytes → Bytes → Bool) (batch : List (Bytes × Bytes)) (s u : Sets)
      → AddsEach keys fits batch s u
      → u.next_id ≡ s.next_id
  next-AddsEach fits [] s u e = ap (λ x. x.next_id) e
  next-AddsEach fits (p ∷ batch) s u (v, (g, rest)) =
      next-AddsEach fits batch v u rest ∙ next-Grown fits p.0 p.1 s v g

  pub batch-next :
      (fits : Bytes → Bytes → Bool) (batch : List (Bytes × Bytes)) (w : View Bytes Bytes)
      (x : Errno) (new : View Bytes Bytes)
      → AllOrNothing keys fits batch w x new
      → (sets keys new).next_id ≡ (sets keys w).next_id
  batch-next fits batch w ok new (inl h) = next-AddsEach fits batch (sets keys w) (sets keys new) h
  batch-next fits batch w ok new (inr h) = ap (λ v. (sets keys v).next_id) h
  batch-next fits batch w failed new h = ap (λ v. (sets keys v).next_id) h
  batch-next fits batch w not_found new h = absurd (clash refl (sym h))
