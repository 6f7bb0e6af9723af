-- ===== src/Operators/Tests.antt =====
-- The operators over a source of two rows. A list is its own bytes here.
use mdb_linux.Base.{
  ℕ, Option, ◌≡◌, refl, Bool, true, false, List, [], ◌∷◌, none, some, drop, take, max, arith,
}
use mdb_linux.Predicate.{predicate_fns, empty_predicate}
use mdb_linux.Operators.{
  Row, Answer, ok, err, no_rows, Iop, Binn, ProjectRange, ProjectByIndices, Select,
  project_range_next, project_by_indices_next,
}
use mdb_linux.Operators.Scan.{Enumerator, ScanSeq}
use mdb_linux.Operators.Indices.{gather}
use mdb_linux.Operators.Drain.{
  drain, kept_rows, Overwrites, HoldsLists, drain-project_range, drain-project_by_indices,
}

abbrev next_row : List Row → Row → Answer × List Row
next_row [] out = (err no_rows, [])
next_row (r ∷ rs) out = (ok r, rs)

abbrev source : Iop (List Row)
source = record { next = next_row; reset = λ rs. (true, rs) }

abbrev plain : Binn ℕ
plain = record { load = λ bs. some bs; bytes_of = λ xs. xs; load-bytes_of = λ xs. refl }

abbrev blank : Row
blank = record { key = []; value = []; row_id = [] }

abbrev rows : List Row
rows =
    record { key = 1 ∷ []; value = 10 ∷ 11 ∷ 12 ∷ []; row_id = [] }
    ∷ record { key = 2 ∷ []; value = 20 ∷ 21 ∷ []; row_id = [] }
    ∷ []

abbrev next_left : List Row → Bool × List Row
next_left [] = (false, [])
next_left (r ∷ []) = (false, [])
next_left (r ∷ q ∷ rs) = (true, q ∷ rs)

abbrev first_left : List Row → Option Row
first_left [] = none
first_left (r ∷ rs) = some r

abbrev walker : Enumerator (List Row)
walker = record { next = next_left; current = first_left; reset = λ rs. (true, rs) }

abbrev scanner : ScanSeq (List Row)
scanner = record { ref_counter = 1; enumerator = rows; current = none; at_end = false }

abbrev range : ProjectRange (List Row) ℕ
range = record { ref_counter = 1; src = rows; from = 1; to = 3; kvdata = blank; current = none }

abbrev picks : ProjectByIndices (List Row) ℕ
picks = record { ref_counter = 1; src = rows; indices = 0 ∷ 2 ∷ []; kvdata = blank; current = none }

abbrev filter : Select (List Row)
filter = record {
  ref_counter = 1;
  src = rows;
  predicate = record {
    rc = 1;
    expr = record { rc = 1; capacity = 8; item_size = 1; data_ptr = 50; items = empty_predicate };
    fns = predicate_fns;
  };
}

source-Overwrites : Overwrites source
source-Overwrites [] a b = refl
source-Overwrites (r ∷ rs) a b = refl

source-HoldsLists : HoldsLists plain source (λ r. r.value)
source-HoldsLists s a r h = refl

drain-project_range_example :
    drain (project_range_next plain true source) 3 range blank
    ≡ kept_rows plain
        (λ xs. drop 1 (take (max 3 1) xs))
        (λ r. r.value)
        blank
        (drain next_row 3 rows blank)
drain-project_range_example =
    drain-project_range plain source (λ r. r.value) source-Overwrites source-HoldsLists 3 range
      blank

drain-project_by_indices_example :
    drain (project_by_indices_next plain true source) 3 picks blank
    ≡ kept_rows plain (gather 0 (0 ∷ 2 ∷ [])) (λ r. r.value) blank (drain next_row 3 rows blank)
drain-project_by_indices_example =
    drain-project_by_indices plain source (λ r. r.value) source-Overwrites source-HoldsLists 3 picks
      blank (omega arith, (omega arith, tt))
