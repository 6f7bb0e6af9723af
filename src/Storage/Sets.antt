-- ===== src/Storage/Sets.antt =====
-- The set that mdv_storage/mdv_2pset.c promises: the objects that were added and not deleted, and
-- the identifiers that were deleted and never come back; and how the stored maps stand for it.
use mathlib.Core.Path.{fun_ext}
use mdb_linux.Base.{
  ◌⊎◌, ◌≡◌, refl, ap, ap₂, ◌∙◌, inl, inr, ◌≢◌, Bool, true, false, Option, none, some, if◌then◌else◌,
  Bool-cases,
}
use mdb_linux.Storage.Rows.{
  KeyOrder, find, find-insert_same, find-insert_other, find-erase_same, find-erase_other,
}
use mdb_linux.Storage.Lmdb.{
  View, with_entry, without_entry, idgen, objects, removed, Errno, ok, failed, not_found,
}
use mdb_linux.Storage.TwoPSet.{Bytes, idgen_key}

pub record Sets : Type 0 where
  pub added : Bytes → Option Bytes
  pub deleted : Bytes → Bool
  -- what is stored of the generator of identifiers
  pub next_id : Option Bytes

abbrev pub with_next : Bytes → Sets → Sets
with_next v s = record s { next_id = some v }

abbrev pub is_some : Option Bytes → Bool
is_some none = false
is_some (some v) = true

pub some_of : (o : Option Bytes) → o ≢ none → is_some o ≡ true
some_of none h = absurd (h refl)
some_of (some v) h = refl

pub is_some-elim : (o : Option Bytes) → elim o [ none ↦ false | some v ↦ true ] ≡ is_some o
is_some-elim none = refl
is_some-elim (some v) = refl

module _ (keys : KeyOrder Bytes) where
  abbrev pub with_object : Bytes → Bytes → Sets → Sets
  with_object id obj s = record s { added = λ q. if keys.same q id then some obj else s.added q }

  -- The promise: an identifier that is deleted, or taken, is not added again.
  unfoldable pub add_to : Bytes → Bytes → Sets → Sets
  add_to id obj s =
      if s.deleted id then s else if is_some (s.added id) then s else with_object id obj s

  unfoldable pub delete_from : Bytes → Sets → Sets
  delete_from id s = record s {
    added = λ q. if keys.same q id then none else s.added q;
    deleted = λ q. if keys.same q id then true else s.deleted q;
  }

  abbrev pub sets : View Bytes Bytes → Sets
  sets w = record {
    added = λ q. find keys q (w.rows objects);
    deleted = λ q. is_some (find keys q (w.rows removed));
    next_id = find keys idgen_key (w.rows idgen);
  }

  pub add_to-free :
      (id obj : Bytes) (s : Sets)
      → s.deleted id ≡ false
      → is_some (s.added id) ≡ false
      → add_to id obj s ≡ with_object id obj s
  unfolding add_to
  add_to-free id obj s d n = rw (d, n)

  pub add_to-taken : (id obj : Bytes) (s : Sets) → is_some (s.added id) ≡ true → add_to id obj s ≡ s
  unfolding add_to
  add_to-taken id obj s n = elim (Bool-cases (s.deleted id)) [ inl t ↦ rw (t) | inr f ↦ rw (f, n) ]

  pub add_to-deleted : (id obj : Bytes) (s : Sets) → s.deleted id ≡ true → add_to id obj s ≡ s
  unfolding add_to
  add_to-deleted id obj s d = rw (d)

  -- The sets with the object, or as they were if LMDB does not take what is of its size.
  abbrev pub Grown : (Bytes → Bytes → Bool) → Bytes → Bytes → Sets → Sets → Type 0
  Grown fits id obj s u = (u ≡ add_to id obj s) ⊎ ((fits id obj ≡ false) × (u ≡ s))

  -- A run from `w` adds the object, or fails and changes nothing.
  abbrev pub Adds :
      (Bytes → Bytes → Bool) → Bytes → Bytes → View Bytes Bytes → Errno → View Bytes Bytes → Type 0
  Adds fits id obj w ok new = Grown fits id obj (sets w) (sets new)
  Adds fits id obj w failed new = new ≡ w
  Adds fits id obj w not_found new = false ≡ true

  -- A deletion gives the sets without the object, finds no object, or fails.
  abbrev pub Deletes : Bytes → View Bytes Bytes → Errno → View Bytes Bytes → Type 0
  Deletes id w ok new = (is_some ((sets w).added id) ≡ true) × (sets new ≡ delete_from id (sets w))
  Deletes id w failed new = new ≡ w
  Deletes id w not_found new = (is_some ((sets w).added id) ≡ false) × (new ≡ w)

  find-insert :
      (q k v : Bytes) (w : View Bytes Bytes)
      → find keys q ((with_entry keys objects k v w).rows objects)
        ≡ (if keys.same q k then some v else find keys q (w.rows objects))
  find-insert q k v w = elim (Bool-cases (keys.same q k)) [
    | inl t ↦ rw (t, (keys.same_iff q k).0 t) (find-insert_same keys k v (w.rows objects))
    | inr f ↦ rw (f) (find-insert_other keys q k v (w.rows objects) f)
  ]

  pub sets-insert :
      (id obj : Bytes) (w : View Bytes Bytes)
      → sets (with_entry keys objects id obj w) ≡ with_object id obj (sets w)
  sets-insert id obj w =
      ap (λ f. record { added = f; deleted = (sets w).deleted; next_id = (sets w).next_id })
        (fun_ext λ q. find-insert q id obj w)

  find-insert_in :
      (q k v : Bytes) (w : View Bytes Bytes)
      → find keys q ((with_entry keys removed k v w).rows removed)
        ≡ (if keys.same q k then some v else find keys q (w.rows removed))
  find-insert_in q k v w = elim (Bool-cases (keys.same q k)) [
    | inl t ↦ rw (t, (keys.same_iff q k).0 t) (find-insert_same keys k v (w.rows removed))
    | inr f ↦ rw (f) (find-insert_other keys q k v (w.rows removed) f)
  ]

  find-erase :
      (q k : Bytes) (w : View Bytes Bytes)
      → find keys q ((without_entry keys objects k w).rows objects)
        ≡ (if keys.same q k then none else find keys q (w.rows objects))
  find-erase q k w = elim (Bool-cases (keys.same q k)) [
    | inl t ↦ rw (t, (keys.same_iff q k).0 t) (find-erase_same keys k (w.rows objects))
    | inr f ↦ rw (f) (find-erase_other keys q k (w.rows objects) f)
  ]

  is_some-if :
      (b : Bool) (v : Bytes) (o : Option Bytes)
      → is_some (if b then some v else o) ≡ (if b then true else is_some o)
  is_some-if true v o = refl
  is_some-if false v o = refl

  pub sets-move :
      (id v : Bytes) (w : View Bytes Bytes)
      → sets (without_entry keys objects id (with_entry keys removed id v w))
        ≡ delete_from id (sets w)
  unfolding delete_from
  sets-move id v w =
      ap₂ (λ f g. record { added = f; deleted = g; next_id = (sets w).next_id })
        (fun_ext λ q. find-erase q id (with_entry keys removed id v w))
        (fun_ext λ q.
          ap is_some (find-insert_in q id v w)
          ∙ is_some-if (keys.same q id) v (find keys q (w.rows removed)))

  pub sets-reserve :
      (v : Bytes) (w : View Bytes Bytes)
      → sets (with_entry keys idgen idgen_key v w) ≡ with_next v (sets w)
  sets-reserve v w =
      ap (λ o. record { added = (sets w).added; deleted = (sets w).deleted; next_id = o })
        (find-insert_same keys idgen_key v (w.rows idgen))
