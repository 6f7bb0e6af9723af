-- ===== src/Operators/Scan.antt =====
-- mdv_storage/ops/mdv_scan_seq.c: the source of rows that walks through an enumerator. The
-- enumerator's table of functions (mdv_platform/mdv_enumerator.h) is the record `Enumerator`.
use mdb_linux.Base.{
  ℕ, suc, ◌≡◌, refl, ap, ◌∙◌, Bool, true, false, not, List, [], ◌∷◌, Option, none, some, length,
  if◌then◌else◌,
}
use mdb_linux.Operators.{Row, Answer, Error, ok, err, no_rows}
use mdb_linux.Operators.Drain.{drain, go_on}

-- `next` and `reset` tell whether they return MDV_OK.
pub record Enumerator (E : Type 0) : Type 0 where
  pub next : E → Bool × E
  pub current : E → Option Row
  pub reset : E → Bool × E

pub record ScanSeq (E : Type 0) : Type 0 where
  pub ref_counter : ℕ
  pub enumerator : E
  pub current : Option Row
  pub at_end : Bool

-- `granted` answers the allocation; the enumerator is that of the objects, if it is created.
unfoldable pub scan_seq : {E : Type 0} → Bool → Option E → Option (ScanSeq E)
scan_seq false enumerator = none
scan_seq true none = none
scan_seq true (some e) =
    some (record { ref_counter = 1; enumerator = e; current = none; at_end = false })

module _ {E : Type 0} (en : Enumerator E) where
  -- The enumerator moves on only behind the first row.
  unfoldable pub moved : ScanSeq E → Bool × E
  moved s = elim s.current [
    | none ↦ (false, s.enumerator)
    | some r ↦ (not (en.next s.enumerator).0, (en.next s.enumerator).1)
  ]

  unfoldable pub answer_of : Option Row → Answer
  answer_of none = err no_rows
  answer_of (some r) = ok r

  unfoldable pub scan_seq_next : ScanSeq E → Row → Answer × ScanSeq E
  unfolding moved answer_of
  scan_seq_next s out =
      let m = moved s in
      let found : Option Row = if m.0 then none else en.current m.1 in
      if s.at_end
      then (err no_rows, s)
      else (answer_of found, record s { enumerator = m.1; current = found; at_end = m.0 })

  unfoldable pub scan_seq_reset : ScanSeq E → Bool × ScanSeq E
  scan_seq_reset s =
      let r = en.reset s.enumerator in
      (r.0, record s { enumerator = r.1; current = none; at_end = false })

  -- The enumerator stands at the first of some rows, with the others behind it.
  abbrev pub StandsAt : E → List Row → Type 0
  StandsAt e [] = en.current e ≡ none
  StandsAt e (r ∷ []) = (en.current e ≡ some r) × ((en.next e).0 ≡ false)
  StandsAt e (r ∷ q ∷ rows) =
      (en.current e ≡ some r) × (((en.next e).0 ≡ true) × StandsAt (en.next e).1 (q ∷ rows))

  first_row : (e : E) (r : Row) (rows : List Row) → StandsAt e (r ∷ rows) → en.current e ≡ some r
  first_row e r [] h = h.0
  first_row e r (q ∷ rows) h = h.0

  to_first :
      (s : ScanSeq E) (r : Row) (out : Row)
      → s.current ≡ none
      → s.at_end ≡ false
      → en.current s.enumerator ≡ some r
      → scan_seq_next s out ≡ (ok r, record s { current = some r; at_end = false })
  unfolding scan_seq_next
  to_first s r out c f h = rw (f, c, h)

  to_next :
      (s : ScanSeq E) (r q : Row) (out : Row)
      → s.current ≡ some r
      → s.at_end ≡ false
      → (en.next s.enumerator).0 ≡ true
      → en.current (en.next s.enumerator).1 ≡ some q
      → scan_seq_next s out ≡ (
        ok q,
        record s { enumerator = (en.next s.enumerator).1; current = some q; at_end = false },
      )
  unfolding scan_seq_next
  to_next s r q out c f m h = rw (f, c, m, h)

  behind_last :
      (s : ScanSeq E) (r : Row) (out : Row)
      → s.current ≡ some r
      → s.at_end ≡ false
      → (en.next s.enumerator).0 ≡ false
      → (scan_seq_next s out).0 ≡ err no_rows
  unfolding scan_seq_next
  behind_last s r out c f m = rw (f, c, m)

  no_first :
      (s : ScanSeq E) (out : Row)
      → s.current ≡ none
      → s.at_end ≡ false
      → en.current s.enumerator ≡ none
      → (scan_seq_next s out).0 ≡ err no_rows
  unfolding scan_seq_next
  no_first s out c f h = rw (f, c, h)

  -- A run that first gives a row, and one that ends at once.
  drain-ok :
      (n : ℕ) (s t : ScanSeq E) (q : Row) (rows : List Row) (out : Row)
      → scan_seq_next s out ≡ (ok q, t)
      → drain scan_seq_next n t out ≡ (rows, some no_rows)
      → drain scan_seq_next (suc n) s out ≡ (q ∷ rows, some no_rows)
  unfolding drain
  drain-ok n s t q rows out e d =
      ap (λ (x : Answer × ScanSeq E). go_on x.0 (drain scan_seq_next n x.1 out)) e
      ∙ ap (λ (x : List Row × Option Error). (q ∷ x.0, x.1)) d

  drain-err :
      (n : ℕ) (s : ScanSeq E) (out : Row)
      → (scan_seq_next s out).0 ≡ err no_rows
      → drain scan_seq_next (suc n) s out ≡ ([], some no_rows)
  unfolding drain
  drain-err n s out e =
      ap (λ (x : Answer). go_on x (drain scan_seq_next n (scan_seq_next s out).1 out)) e

  -- Behind the row `r`, the scanner gives the rows that follow it.
  drain-behind :
      (s : ScanSeq E) (r : Row) (rows : List Row) (out : Row)
      → s.current ≡ some r
      → s.at_end ≡ false
      → StandsAt s.enumerator (r ∷ rows)
      → drain scan_seq_next (suc (length rows)) s out ≡ (rows, some no_rows)
  drain-behind s r [] out c f h = drain-err 0 s out (behind_last s r out c f h.1)
  drain-behind s r (q ∷ rows) out c f h =
      let e = (en.next s.enumerator).1 in
      let t : ScanSeq E = record s { enumerator = e; current = some q; at_end = false } in
      drain-ok (suc (length rows)) s t q rows out
        (to_next s r q out c f h.1.0 (first_row e q rows h.1.1))
        (drain-behind t q rows out refl refl h.1.1)

  -- A new or reset scanner whose enumerator stands at some rows gives all of them in their order,
  -- and then says that there are no more.
  pub drain-scan_seq :
      (s : ScanSeq E) (rows : List Row) (out : Row)
      → s.current ≡ none
      → s.at_end ≡ false
      → StandsAt s.enumerator rows
      → drain scan_seq_next (suc (length rows)) s out ≡ (rows, some no_rows)
  drain-scan_seq s [] out c f h = drain-err 0 s out (no_first s out c f h)
  drain-scan_seq s (r ∷ rows) out c f h =
      let t : ScanSeq E = record s { current = some r; at_end = false } in
      drain-ok (suc (length rows)) s t r rows out
        (to_first s r out c f (first_row s.enumerator r rows h))
        (drain-behind t r rows out refl refl h)
