-- ===== src/Storage/Memory.antt =====
-- A storage in memory, which behaves as LMDB is documented to and meets no error.
use mdb_linux.Base.{
  clash, ◌≡◌, ◌≢◌, refl, sym, ap, ◌∙◌, ◌⊎◌, inl, inr, Bool, true, false, List, [], ◌∷◌, Option,
  none, some, if◌then◌else◌, Bool-cases, some-eq-some, length, take,
}
use mdb_linux.Storage.Rows.{KeyOrder, insert, erase, from_key, last_row}
use mdb_linux.Storage.Lmdb.{
  MapName, same_name, View, Put, stored, key_exists, refused, spoiled, Lmdb, Documented, entry,
  with_map, with_rows, with_entry, without_entry,
}
use mdb_linux.Storage.Sound.{Sound}

-- A view in which a map that was not created holds nothing.
abbrev pub Closed : {K V : Type 0} → View K V → Type 0
Closed w = (m : MapName) → w.exists m ≡ false → w.rows m ≡ []

abbrev pub Memory : Type 0 → Type 0 → Type 0
Memory K V = (w : View K V) × Closed w

pub open_allowed :
    (create : Bool) (x : Bool) → (if create then true else x) ≡ true → (create ≡ true) ⊎ (x ≡ true)
open_allowed true x h = inl refl
open_allowed false x h = inr h

pub allowed_open :
    (create : Bool) (x : Bool) → (create ≡ true) ⊎ (x ≡ true) → (if create then true else x) ≡ true
allowed_open true x h = refl
allowed_open false x (inl h) = absurd (clash refl (sym h))
allowed_open false x (inr h) = h

pub take-all : {A : Type 0} (xs : List A) → take (length xs) xs ≡ xs
take-all [] = refl
take-all (x ∷ xs) = ap (λ r. x ∷ r) (take-all xs)

module _ {K V : Type 0} (keys : KeyOrder K) where
  pub Closed-map : (m : MapName) (w : View K V) → Closed w → Closed (with_map keys m w)
  Closed-map m w c n h = elim (Bool-cases (same_name n m)) [
    | inl t ↦ absurd (clash refl (rw (t) at h))
    | inr f ↦ c n (rw (f) at h)
  ]

  -- A write or an erasure in a map, which is created for it.
  pub Closed-rows :
      (m : MapName) (r : List (K × V)) (w : View K V)
      → Closed w
      → Closed (with_rows keys m r (with_map keys m w))
  Closed-rows m r w c n h = elim (Bool-cases (same_name n m)) [
    | inl t ↦ absurd (clash refl (rw (t) at h))
    | inr f ↦ rw (f) (c n (rw (f) at h))
  ]

  abbrev pub opened : Bool → MapName → Memory K V → Bool × Memory K V
  opened true m t = (true, (with_map keys m t.0, Closed-map m t.0 t.1))
  opened false m t = (false, t)

  pub opened-flag : (b : Bool) (m : MapName) (t : Memory K V) → (opened b m t).0 ≡ b
  opened-flag true m t = refl
  opened-flag false m t = refl

  pub opened-true :
      (b : Bool) (m : MapName) (t : Memory K V)
      → (opened b m t).0 ≡ true
      → (opened b m t).1.0 ≡ with_map keys m t.0
  opened-true true m t h = refl
  opened-true false m t h = absurd (clash refl (sym h))

  pub opened-false :
      (b : Bool) (m : MapName) (t : Memory K V)
      → (opened b m t).0 ≡ false
      → (opened b m t).1.0 ≡ t.0
  opened-false true m t h = absurd (clash refl h)
  opened-false false m t h = refl

  abbrev pub rewritten : MapName → List (K × V) → Memory K V → Memory K V
  rewritten m r t = (with_rows keys m r (with_map keys m t.0), Closed-rows m r t.0 t.1)

  abbrev pub written : Bool → Option V → MapName → K → V → Memory K V → Put × Memory K V
  written true (some old) m k v t = (key_exists, t)
  written true none m k v t = (stored, rewritten m (insert keys k v (t.0.rows m)) t)
  written false old m k v t = (stored, rewritten m (insert keys k v (t.0.rows m)) t)

  abbrev pub erased : Option V → MapName → K → Memory K V → Bool × Memory K V
  erased none m k t = (false, t)
  erased (some old) m k t = (true, rewritten m (erase keys k (t.0.rows m)) t)

  abbrev pub memory : Lmdb K V (Memory K V) (Memory K V)
  memory = record {
    txn_begin = some;
    txn_commit = λ t e. (true, t);
    dbi_open = λ m create t. opened (if create then true else t.0.exists m) m t;
    put = λ unique m k v t. written unique (entry keys t.0 m k) m k v t;
    get = λ m k t. entry keys t.0 m k;
    del = λ m k t. erased (entry keys t.0 m k) m k t;
    walk = λ m t. t.0.rows m;
    range = λ m k t. from_key keys k (t.0.rows m);
    last = λ m t. last_row (t.0.rows m);
  }

  pub put_stored :
      (unique : Bool) (o : Option V) (m : MapName) (k : K) (v : V) (t : Memory K V)
      → (written unique o m k v t).0 ≡ stored
      → ((written unique o m k v t).1.0 ≡ with_entry keys m k v (with_map keys m t.0))
        × (unique ≡ true → o ≡ none)
  put_stored true (some old) m k v t h = absurd cc
  put_stored true none m k v t h = (refl, λ u. refl)
  put_stored false o m k v t h = (refl, λ u. absurd (clash refl (sym u)))

  pub put_exists :
      (unique : Bool) (o : Option V) (m : MapName) (k : K) (v : V) (t : Memory K V)
      → (written unique o m k v t).0 ≡ key_exists
      → ((written unique o m k v t).1.0 ≡ t.0) × (o ≢ none)
  put_exists true (some old) m k v t h = (refl, λ e. absurd cc)
  put_exists true none m k v t h = absurd cc
  put_exists false o m k v t h = absurd cc

  pub put_clean :
      (unique : Bool) (o : Option V) (m : MapName) (k : K) (v : V) (t : Memory K V)
      → (written unique o m k v t).0 ≢ spoiled
  put_clean true (some old) m k v t h = absurd cc
  put_clean true none m k v t h = absurd cc
  put_clean false o m k v t h = absurd cc

  pub put_fits :
      (unique : Bool) (o : Option V) (m : MapName) (k : K) (v : V) (t : Memory K V)
      → (written unique o m k v t).0 ≢ refused
  put_fits true (some old) m k v t h = absurd cc
  put_fits true none m k v t h = absurd cc
  put_fits false o m k v t h = absurd cc

  pub del_erased :
      (o : Option V) (m : MapName) (k : K) (t : Memory K V)
      → (erased o m k t).0 ≡ true
      → (erased o m k t).1.0 ≡ without_entry keys m k (with_map keys m t.0)
  del_erased none m k t h = absurd cc
  del_erased (some v) m k t h = refl

  pub del_found :
      (o : Option V) (m : MapName) (k : K) (t : Memory K V) → o ≢ none → (erased o m k t).0 ≡ true
  del_found none m k t h = absurd (h refl)
  del_found (some v) m k t h = refl

  abbrev pub memory_documented : Documented keys memory
  memory_documented = record {
    committed = λ e. e.0;
    seen = λ t. t.0;
    usable = λ t. true;
    fits = λ k v. true;
    begin_law = λ e t h. (refl, ap (λ x. x.0) (sym (some-eq-some h)));
    commit_law = λ t e h. (refl, refl);
    no_commit_law = λ t e h. absurd (clash refl h);
    open_law = λ m create t u h. (
      refl,
      (
        opened-true (if create then true else t.0.exists m) m t h,
        open_allowed create (t.0.exists m)
            (sym (opened-flag (if create then true else t.0.exists m) m t) ∙ h),
      ),
    );
    not_open_law =
        λ m create t u h. (refl, opened-false (if create then true else t.0.exists m) m t h);
    put_law = λ unique m k v t u h. (refl, put_stored unique (entry keys t.0 m k) m k v t h);
    put_exists_law = λ unique m k v t u h. (refl, put_exists unique (entry keys t.0 m k) m k v t h);
    put_refused_law = λ unique m k v t u h. absurd (put_fits unique (entry keys t.0 m k) m k v t h);
    put_spoiled_law = λ unique m k v t h. absurd (put_clean unique (entry keys t.0 m k) m k v t h);
    put_unusable_law = λ unique m k v t u. absurd (clash refl u);
    get_law = λ m k t u. refl;
    del_law = λ m k t u h. (refl, del_erased (entry keys t.0 m k) m k t h);
    walk_law = λ m t u. refl;
    range_law =
        λ m k t u. let rows = from_key keys k (t.0.rows m) in (length rows, sym (take-all rows));
    last_law = λ m t u. refl;
  }

  abbrev pub memory_sound : Sound keys memory memory_documented
  memory_sound = record {
    begin_ok = λ e. (e, refl);
    commit_ok = λ t e u. refl;
    open_ok = λ m create t u h.
        opened-flag (if create then true else t.0.exists m) m t
        ∙ allowed_open create (t.0.exists m) h;
    put_ok = λ unique m k v t u. put_clean unique (entry keys t.0 m k) m k v t;
    all_fit = λ k v. refl;
    range_ok = λ m k t u. refl;
    del_ok = λ m k t u h. del_found (entry keys t.0 m k) m k t h;
    absent_ok = λ e m h. e.1 m h;
  }
