-- ===== src/Operators.antt =====
-- mdv_storage/ops: the query operators mdv_select and mdv_project over a source of rows.
-- An operator's table of functions is the record `Iop` on the states of its source. A value is the
-- bytes of a list in the format of the vendored library binn, which is the parameter `Binn`.
pub mod Ranges
pub mod Indices
pub mod Drain
pub mod Scan
mod Tests
use mdb_linux.Base.{
  ℕ, zero, suc, ◌+◌, ◌-◌, ◌%◌, ◌^◌, ◌≡◌, Bool, true, false, List, [], ◌∷◌, ◌++◌, Option, none, some,
  length, ltb, leb, ◌==◌, if◌then◌else◌,
}
use mdb_linux.Predicate.{Predicate}

pub record Row : Type 0 where
  pub key : List ℕ
  pub value : List ℕ
  pub row_id : List ℕ

-- MDV_FAILED, MDV_NO_MEM, and MDV_FALSE, which says that there are no more rows.
pub data Error : Type 0 where
  failed no_mem no_rows : Error

pub data Answer : Type 0 where
  ok : Row → Answer
  err : Error → Answer

-- `next` is given the caller's row, of which it may keep a part. `reset` tells whether it returns
-- MDV_OK.
pub record Iop (S : Type 0) : Type 0 where
  pub next : S → Row → Answer × S
  pub reset : S → Bool × S

-- `binn_load` with the test for BINN_LIST, and the bytes of a list of items.
pub record Binn (I : Type 0) : Type 0 where
  pub load : List ℕ → Option (List I)
  pub bytes_of : List I → List ℕ
  pub load-bytes_of : (items : List I) → load (bytes_of items) ≡ some items

abbrev pub objid_size : ℕ
objid_size = 12

pub record Select (S : Type 0) : Type 0 where
  pub ref_counter : ℕ
  pub src : S
  pub predicate : Predicate

-- `current` is what stays allocated until the next call.
pub record ProjectRange (S I : Type 0) : Type 0 where
  pub ref_counter : ℕ
  pub src : S
  pub from : ℕ
  pub to : ℕ
  pub kvdata : Row
  pub current : Option (List I)

pub record ProjectByIndices (S I : Type 0) : Type 0 where
  pub ref_counter : ℕ
  pub src : S
  pub indices : List ℕ
  pub kvdata : Row
  pub current : Option (List I)

-- The row as `mdv_select_next` hands it on. The predicate is not looked at.
unfoldable pub selected : Row → Row
selected r = if length r.key == objid_size then record r { row_id = r.key } else r

unfoldable pub select_answer : Answer → Answer
unfolding selected
select_answer (ok r) = ok (selected r)
select_answer (err e) = err e

-- `uninitialised` is what stands in the local variable `current` before the source writes to it.
unfoldable pub select_next : {S : Type 0} → Iop S → Select S → Row → Answer × Select S
unfolding select_answer
select_next iop select uninitialised =
    let n = iop.next select.src uninitialised in (select_answer n.0, record select { src = n.1 })

unfoldable pub select_reset : {S : Type 0} → Iop S → Select S → Bool × Select S
select_reset iop select = let r = iop.reset select.src in (r.0, record select { src = r.1 })

-- The loop of `mdv_project_range_next`, at item `i`.
unfoldable pub range_items : {I : Type 0} → ℕ → ℕ → ℕ → List I → List I
range_items from to i [] = []
range_items from to i (item ∷ items) =
    let rest = if leb to (i + 1) then [] else range_items from to (i + 1) items in
    if leb from i then item ∷ rest else rest

-- The loop of `mdv_project_by_indices_next`, at item `i` with the indices that are left.
unfoldable pub picked_items : {I : Type 0} → ℕ → List ℕ → List I → List I
picked_items i js [] = []
picked_items i [] (item ∷ items) = []
picked_items i (j ∷ js) (item ∷ items) =
    let taken = item ∷ picked_items (i + 1) js items in
    let passed = picked_items (i + 1) (j ∷ js) items in if i == j then taken else passed

-- The projection's own row after a call of the source.
unfoldable pub kept_row : Answer → Row → Row
kept_row (ok r) old = r
kept_row (err e) old = old

module _ {I : Type 0} (binn : Binn I) where
  -- What is common to both projections: the source's row, its list, and a new list of what `keep`
  -- keeps. `granted` answers the allocation of the new list.
  unfoldable pub projected : Bool → (List I → List I) → Row → Row → Answer × Option (List I)
  projected granted keep r out = elim (binn.load r.value) [
    | none ↦ (err failed, none)
    | some items ↦
        if granted
        then (
          ok (record out { key = r.key; value = binn.bytes_of (keep items) }),
          some (keep items),
        )
        else (err no_mem, none)
  ]

  unfoldable pub projected_answer :
      Bool → (List I → List I) → Answer → Row → Answer × Option (List I)
  unfolding projected
  projected_answer granted keep (ok r) out = projected granted keep r out
  projected_answer granted keep (err e) out = (err e, none)

  unfoldable pub project_range_next :
      {S : Type 0} → Bool → Iop S → ProjectRange S I → Row → Answer × ProjectRange S I
  unfolding projected_answer range_items kept_row
  project_range_next granted iop p out =
      let n = iop.next p.src p.kvdata in
      let a = projected_answer granted (range_items p.from p.to 0) n.0 out in
      (a.0, record p { src = n.1; kvdata = kept_row n.0 p.kvdata; current = a.1 })

  unfoldable pub project_by_indices_next :
      {S : Type 0} → Bool → Iop S → ProjectByIndices S I → Row → Answer × ProjectByIndices S I
  unfolding projected_answer picked_items kept_row
  project_by_indices_next granted iop p out =
      let n = iop.next p.src p.kvdata in
      let a = projected_answer granted (picked_items 0 p.indices) n.0 out in
      (a.0, record p { src = n.1; kvdata = kept_row n.0 p.kvdata; current = a.1 })

module _ {S I : Type 0} where
  unfoldable pub project_range_reset : Iop S → ProjectRange S I → Bool × ProjectRange S I
  project_range_reset iop p =
      let r = iop.reset p.src in (r.0, record p { src = r.1; current = none })

  unfoldable pub project_by_indices_reset :
      Iop S → ProjectByIndices S I → Bool × ProjectByIndices S I
  project_by_indices_reset iop p =
      let r = iop.reset p.src in (r.0, record p { src = r.1; current = none })

  unfoldable pub project_range : Bool → S → ℕ → ℕ → Row → Option (ProjectRange S I)
  project_range granted src from to uninitialised =
      if granted
      then some (record {
        ref_counter = 1;
        src = src;
        from = from;
        to = to;
        kvdata = uninitialised;
        current = none;
      })
      else none

  unfoldable pub project_by_indices : Bool → S → List ℕ → Row → Option (ProjectByIndices S I)
  project_by_indices granted src indices uninitialised =
      if granted
      then some (record {
        ref_counter = 1;
        src = src;
        indices = indices;
        kvdata = uninitialised;
        current = none;
      })
      else none

-- The source is retained by its own table.
unfoldable pub select : {S : Type 0} → Bool → S → Predicate → Option (Select S)
select granted src predicate =
    if granted then some (record { ref_counter = 1; src = src; predicate = predicate }) else none

-- The reference counter of an operator, which all of them count alike; at 0 it is freed.
unfoldable pub count_retain : ℕ → ℕ
count_retain ref_counter = (ref_counter + 1) % 2 ^ 64

unfoldable pub count_release : ℕ → ℕ × Bool
count_release ref_counter =
    let rc = (ref_counter + 2 ^ 64 - 1) % 2 ^ 64 in (rc % 2 ^ 32, rc % 2 ^ 32 == 0)
