-- ===== src/Storage/Steps.antt =====
-- How the set of mdv_storage/mdv_2pset.c may evolve, whatever operations run on it.
use mdb_linux.Base.{clash, ◌≡◌, refl, ap, ◌∙◌, inl, inr, true, none, Bool-cases}
use mdb_linux.Storage.Rows.{KeyOrder}
use mdb_linux.Storage.TwoPSet.{Bytes}
use mdb_linux.Storage.Sets.{Sets, is_some, add_to, delete_from, with_next}

module _ (keys : KeyOrder Bytes) where
  -- From the first set to the second by additions, deletions of objects that are there, and
  -- reservations of identifiers.
  pub data Steps : Sets → Sets → Type 0 where
    stay : (s : Sets) → Steps s s
    add_step : (id obj : Bytes) (s u : Sets) → Steps (add_to keys id obj s) u → Steps s u
    delete_step :
        (id : Bytes) (s u : Sets)
        → is_some (s.added id) ≡ true
        → Steps (delete_from keys id s) u
        → Steps s u
    reserve_step : (v : Bytes) (s u : Sets) → Steps (with_next v s) u → Steps s u

  pub Steps-trans : (s u v : Sets) → Steps s u → Steps u v → Steps s v
  Steps-trans s u v (stay _) b = b
  Steps-trans s u v (add_step id obj _ _ a) b =
      add_step id obj s v (Steps-trans (add_to keys id obj s) u v a b)
  Steps-trans s u v (delete_step id _ _ h a) b =
      delete_step id s v h (Steps-trans (delete_from keys id s) u v a b)
  Steps-trans s u v (reserve_step x _ _ a) b =
      reserve_step x s v (Steps-trans (with_next x s) u v a b)

  module _ {P : Sets → Type 0} where
    -- What every kind of step keeps.
    pub Steps_induction :
        ((id obj : Bytes) (s : Sets) → P s → P (add_to keys id obj s))
        → ((id : Bytes) (s : Sets) → P s → P (delete_from keys id s))
        → ((v : Bytes) (s : Sets) → P s → P (with_next v s))
        → (s u : Sets) → Steps s u
        → P s
        → P u
    Steps_induction f g r s u (stay _) h = h
    Steps_induction f g r s u (add_step id obj _ _ a) h =
        Steps_induction f g r (add_to keys id obj s) u a (f id obj s h)
    Steps_induction f g r s u (delete_step id _ _ n a) h =
        Steps_induction f g r (delete_from keys id s) u a (g id s h)
    Steps_induction f g r s u (reserve_step v _ _ a) h =
        Steps_induction f g r (with_next v s) u a (r v s h)

  pub deleted-add_to :
      (id obj q : Bytes) (s : Sets) → (add_to keys id obj s).deleted q ≡ s.deleted q
  unfolding add_to
  deleted-add_to id obj q s = elim (Bool-cases (s.deleted id)) [
    | inl t ↦ rw (t) refl
    | inr f ↦ elim (Bool-cases (is_some (s.added id))) [
      | inl a ↦ rw (f, a) refl
      | inr n ↦ rw (f, n) refl
    ]
  ]

  deleted-delete_from :
      (id q : Bytes) (s : Sets) → s.deleted q ≡ true → (delete_from keys id s).deleted q ≡ true
  unfolding delete_from
  deleted-delete_from id q s d = elim (Bool-cases (keys.same q id)) [
    | inl t ↦ rw (t)
    | inr f ↦ rw (f) d
  ]

  -- An identifier that is deleted stays deleted.
  pub deleted-Steps : (q : Bytes) (s u : Sets) → Steps s u → s.deleted q ≡ true → u.deleted q ≡ true
  deleted-Steps q =
      Steps_induction (λ id obj s d. deleted-add_to id obj q s ∙ d)
        (λ id s d. deleted-delete_from id q s d) (λ v s d. d)

  -- No object is among both the added and the deleted ones.
  abbrev pub IsValid : Sets → Type 0
  IsValid s = (q : Bytes) → s.deleted q ≡ true → s.added q ≡ none

  add_to-IsValid : (id obj : Bytes) (s : Sets) → IsValid s → IsValid (add_to keys id obj s)
  unfolding add_to
  add_to-IsValid id obj s v = elim (Bool-cases (s.deleted id)) [
    | inl t ↦ rw (t) v
    | inr f ↦ elim (Bool-cases (is_some (s.added id))) [
      | inl a ↦ rw (f, a) v
      | inr n ↦
          rw (f, n)
            (λ q d. elim (Bool-cases (keys.same q id)) [
              | inl e ↦ absurd (clash d (ap s.deleted ((keys.same_iff q id).0 e) ∙ f))
              | inr g ↦ rw (g) (v q d)
            ])
    ]
  ]

  delete_from-IsValid : (id : Bytes) (s : Sets) → IsValid s → IsValid (delete_from keys id s)
  unfolding delete_from
  delete_from-IsValid id s v q d = elim (Bool-cases (keys.same q id)) [
    | inl e ↦ rw (e)
    | inr g ↦ rw (g) (v q (rw (g) at d))
  ]

  pub Steps-IsValid : (s u : Sets) → Steps s u → IsValid s → IsValid u
  Steps-IsValid = Steps_induction add_to-IsValid delete_from-IsValid (λ v s h. h)
