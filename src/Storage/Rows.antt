-- ===== src/Storage/Rows.antt =====
-- What an LMDB map holds: its pairs in the order of their keys (mdv_storage/mdv_lmdb.h, mdv_data).
-- These are the terms in which the behaviour of LMDB is described.
use mdb_linux.Base.{
  ◌≡◌, refl, sym, ap, ◌∙◌, ◌↔◌, inl, inr, Bool, true, false, List, [], ◌∷◌, Option, none, some,
  if◌then◌else◌, Bool-cases,
}

-- How LMDB compares the keys of a map.
pub record KeyOrder (K : Type 0) : Type 0 where
  pub same : K → K → Bool
  pub before : K → K → Bool
  pub same_iff : (a b : K) → (same a b ≡ true) ↔ (a ≡ b)

module _ {K : Type 0} (keys : KeyOrder K) where
  pub same_self : (k : K) → keys.same k k ≡ true
  same_self k = (keys.same_iff k k).1 refl

  -- Two keys that are told apart differ from a third one that is the first of them.
  told_apart : (q k j : K) → keys.same q k ≡ false → keys.same k j ≡ true → keys.same q j ≡ false
  told_apart q k j d s = ap (keys.same q) (sym ((keys.same_iff k j).0 s)) ∙ d

module _ {K V : Type 0} (keys : KeyOrder K) where
  abbrev pub find : K → List (K × V) → Option V
  find k [] = none
  find k (p ∷ rows) = if keys.same k p.0 then some p.1 else find k rows

  abbrev pub insert : K → V → List (K × V) → List (K × V)
  insert k v [] = (k, v) ∷ []
  insert k v (p ∷ rows) =
      if keys.same k p.0
      then (k, v) ∷ rows
      else if keys.before k p.0
      then (k, v) ∷ p ∷ rows
      else p ∷ insert k v rows

  abbrev pub erase : K → List (K × V) → List (K × V)
  erase k [] = []
  erase k (p ∷ rows) = if keys.same k p.0 then erase k rows else p ∷ erase k rows

  -- The pairs from the first key on that is not before the given one.
  abbrev pub from_key : K → List (K × V) → List (K × V)
  from_key k [] = []
  from_key k (p ∷ rows) = let rest = from_key k rows in if keys.before p.0 k then rest else p ∷ rows

  pub find-insert_same : (k : K) (v : V) (rows : List (K × V)) → find k (insert k v rows) ≡ some v
  find-insert_same k v [] = rw (same_self keys k)
  find-insert_same k v (p ∷ rows) = elim (Bool-cases (keys.same k p.0)) [
    | inl t ↦ rw (t, same_self keys k)
    | inr f ↦ elim (Bool-cases (keys.before k p.0)) [
      | inl b ↦ rw (f, b, same_self keys k)
      | inr n ↦ rw (f, n, f) (find-insert_same k v rows)
    ]
  ]

  pub find-insert_other :
      (q k : K) (v : V) (rows : List (K × V))
      → keys.same q k ≡ false
      → find q (insert k v rows) ≡ find q rows
  find-insert_other q k v [] d = rw (d)
  find-insert_other q k v (p ∷ rows) d = elim (Bool-cases (keys.same k p.0)) [
    | inl t ↦ rw (t, d, told_apart keys q k p.0 d t)
    | inr f ↦ elim (Bool-cases (keys.before k p.0)) [
      | inl b ↦ rw (f, b, d)
      | inr n ↦
          rw (f, n)
            (ap (λ x. if keys.same q p.0 then some p.1 else x) (find-insert_other q k v rows d))
    ]
  ]

  pub find-erase_same : (k : K) (rows : List (K × V)) → find k (erase k rows) ≡ none
  find-erase_same k [] = refl
  find-erase_same k (p ∷ rows) = elim (Bool-cases (keys.same k p.0)) [
    | inl t ↦ rw (t) (find-erase_same k rows)
    | inr f ↦ rw (f, f) (find-erase_same k rows)
  ]

  pub find-erase_other :
      (q k : K) (rows : List (K × V)) → keys.same q k ≡ false → find q (erase k rows) ≡ find q rows
  find-erase_other q k [] d = refl
  find-erase_other q k (p ∷ rows) d = elim (Bool-cases (keys.same k p.0)) [
    | inl t ↦ rw (t, told_apart keys q k p.0 d t) (find-erase_other q k rows d)
    | inr f ↦
        rw (f) (ap (λ x. if keys.same q p.0 then some p.1 else x) (find-erase_other q k rows d))
  ]

abbrev pub last_row : {K V : Type 0} → List (K × V) → Option (K × V)
last_row [] = none
last_row (p ∷ []) = some p
last_row (p ∷ q ∷ rows) = last_row (q ∷ rows)
