-- ===== src/Storage/Limited.antt =====
-- A storage in memory that takes only keys and values of some sizes, as LMDB does.
use mdb_linux.Base.{clash, ◌≡◌, refl, sym, Bool, true, false}
use mdb_linux.Storage.Rows.{KeyOrder}
use mdb_linux.Storage.Lmdb.{
  MapName, Put, stored, key_exists, refused, spoiled, Lmdb, Documented, entry,
}
use mdb_linux.Storage.Memory.{
  Memory, memory, memory_documented, written, put_stored, put_exists, put_clean, put_fits,
}

module _ {K V : Type 0} (keys : KeyOrder K) (fits : K → V → Bool) where
  abbrev pub written_if : Bool → Put × Memory K V → Memory K V → Put × Memory K V
  written_if true r t = r
  written_if false r t = (refused, t)

  abbrev pub limited_put : Bool → MapName → K → V → Memory K V → Put × Memory K V
  limited_put unique m k v t =
      written_if (fits k v) (written keys unique (entry keys t.0 m k) m k v t) t

  abbrev pub limited : Lmdb K V (Memory K V) (Memory K V)
  limited = record (memory keys) { put = limited_put }

  pub written_if-stored :
      (b : Bool) (r : Put × Memory K V) (t : Memory K V)
      → (written_if b r t).0 ≡ stored
      → written_if b r t ≡ r
  written_if-stored true r t h = refl
  written_if-stored false r t h = absurd cc

  pub written_if-exists :
      (b : Bool) (r : Put × Memory K V) (t : Memory K V)
      → (written_if b r t).0 ≡ key_exists
      → written_if b r t ≡ r
  written_if-exists true r t h = refl
  written_if-exists false r t h = absurd cc

  pub written_if-refused :
      (b : Bool) (r : Put × Memory K V) (t : Memory K V)
      → (r.0 ≡ refused → false ≡ true)
      → (written_if b r t).0 ≡ refused
      → ((written_if b r t).1.0 ≡ t.0) × (b ≡ false)
  written_if-refused true r t n h = absurd (clash refl (sym (n h)))
  written_if-refused false r t n h = (refl, refl)

  pub written_if-clean :
      (b : Bool) (r : Put × Memory K V) (t : Memory K V)
      → (r.0 ≡ spoiled → false ≡ true)
      → (written_if b r t).0 ≡ spoiled
      → false ≡ true
  written_if-clean true r t n h = n h
  written_if-clean false r t n h = absurd cc

  abbrev pub limited_documented : Documented keys limited
  limited_documented =
      let d = memory_documented keys in
      record {
        committed = d.committed;
        seen = d.seen;
        usable = d.usable;
        fits = fits;
        begin_law = d.begin_law;
        commit_law = d.commit_law;
        no_commit_law = d.no_commit_law;
        open_law = d.open_law;
        not_open_law = d.not_open_law;
        put_law = λ unique m k v t u h.
            let r = written keys unique (entry keys t.0 m k) m k v t in
            let e = written_if-stored (fits k v) r t h in
            (refl, rw (e) (put_stored keys unique (entry keys t.0 m k) m k v t (rw (e) at h)));
        put_exists_law = λ unique m k v t u h.
            let r = written keys unique (entry keys t.0 m k) m k v t in
            let e = written_if-exists (fits k v) r t h in
            (refl, rw (e) (put_exists keys unique (entry keys t.0 m k) m k v t (rw (e) at h)));
        put_refused_law = λ unique m k v t u h.
            let r = written keys unique (entry keys t.0 m k) m k v t in
            (
              refl,
              written_if-refused (fits k v) r t
                  (λ x. absurd (put_fits keys unique (entry keys t.0 m k) m k v t x)) h,
            );
        put_spoiled_law = λ unique m k v t h.
            let r = written keys unique (entry keys t.0 m k) m k v t in
            absurd (
              clash refl (
                sym (
                  written_if-clean (fits k v) r t
                    (λ x. absurd (put_clean keys unique (entry keys t.0 m k) m k v t x)) h)));
        put_unusable_law = λ unique m k v t u. absurd (clash refl u);
        get_law = d.get_law;
        del_law = d.del_law;
        walk_law = d.walk_law;
        range_law = d.range_law;
        last_law = d.last_law;
      }
