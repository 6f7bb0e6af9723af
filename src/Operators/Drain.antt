-- ===== src/Operators/Drain.antt =====
-- A whole run over an operator: its rows up to the first error, against the rows of its source.
use mathlib.Core.Path.{fun_ext}
use mdb_linux.Base.{
  ℕ, zero, suc, ◌≡◌, refl, ap, ◌∙◌, true, List, [], ◌∷◌, Option, none, some, map, drop, take, max,
}
use mdb_linux.Operators
use mdb_linux.Operators.{
  Row, Answer, Error, ok, err, Iop, Binn, ProjectRange, ProjectByIndices, projected,
  projected_answer, Select, select_answer, selected, project_range_next, project_by_indices_next,
  select_next,
}
use mdb_linux.Operators.Ranges.{range_items_lem}
use mdb_linux.Operators.Indices.{Grows, gather, picked_items_lem}

-- The rows that `n` calls give, and the error that ends them.
unfoldable pub go_on : Answer → List Row × Option Error → List Row × Option Error
go_on (ok r) rest = (r ∷ rest.0, rest.1)
go_on (err e) rest = ([], some e)

unfoldable pub drain : {T : Type 0} → (T → Row → Answer × T) → ℕ → T → Row → List Row × Option Error
unfolding go_on
drain next zero t out = ([], none)
drain next (suc n) t out = let a = next t out in go_on a.0 (drain next n a.1 out)

-- A source that does not look at the row it writes to.
abbrev pub Overwrites : {S : Type 0} → Iop S → Type 0
Overwrites {S} iop = (s : S) (a b : Row) → iop.next s a ≡ iop.next s b

-- Every row that the source gives holds a list, the items of the row.
abbrev pub HoldsLists : {S I : Type 0} → Binn I → Iop S → (Row → List I) → Type 0
HoldsLists {S} binn iop items =
    (s : S) (a r : Row) → (iop.next s a).0 ≡ ok r → binn.load r.value ≡ some (items r)

module _ {I : Type 0} (binn : Binn I) (keep : List I → List I) (items : Row → List I)
    (out : Row) where
  abbrev pub kept : Row → Row
  kept r = record out { key = r.key; value = binn.bytes_of (keep (items r)) }

  abbrev pub kept_rows : List Row × Option Error → List Row × Option Error
  kept_rows d = (map kept d.0, d.1)

  -- One step of both runs.
  go_on-projected :
      (a : Answer) (rest : List Row × Option Error)
      → ((r : Row) → a ≡ ok r → binn.load r.value ≡ some (items r))
      → go_on (projected_answer binn true keep a out).0 (kept_rows rest) ≡ kept_rows (go_on a rest)
  unfolding go_on projected_answer projected
  go_on-projected (ok r) rest h = rw (go_on, h r refl)
  go_on-projected (err e) rest h = refl

module _ {S I : Type 0} (binn : Binn I) (iop : Iop S) (items : Row → List I)
    (overwrites : Overwrites iop) (lists : HoldsLists binn iop items) where
  -- Over a source that does not look at the row it writes to and whose rows all hold lists, and with
  -- memory for the new lists, a run of the range projection gives the rows of the source in their
  -- order and ends as the source does. Each row has its key, and of its items those from position
  -- `from` up to but not including `to`, where a `to` of 0 counts as 1.
  pub drain-project_range :
      (n : ℕ) (p : ProjectRange S I) (out : Row)
      → drain (project_range_next binn true iop) n p out
        ≡ kept_rows binn
            (λ xs. drop p.from (take (max p.to 1) xs))
            items
            out
            (drain iop.next n p.src out)
  unfolding drain project_range_next
  drain-project_range zero p out = refl
  drain-project_range (suc n) p out =
      let a = iop.next p.src p.kvdata in
      let slice : List I → List I = λ xs. drop p.from (take (max p.to 1) xs) in
      let later = drain iop.next n a.1 out in
      ap (go_on (projected_answer binn true (Operators.range_items p.from p.to 0) a.0 out).0)
        (drain-project_range n (project_range_next binn true iop p out).1 out)
      ∙ ap
          (λ (k : List I → List I).
            go_on (projected_answer binn true k a.0 out).0 (kept_rows binn slice items out later))
          (fun_ext (range_items_lem p.from p.to))
      ∙ go_on-projected binn slice items out a.0 later (λ r e. lists p.src p.kvdata r e)
      ∙ ap
          (λ (c : Answer × S).
            kept_rows binn slice items out (go_on c.0 (drain iop.next n c.1 out)))
          (overwrites p.src p.kvdata out)

  -- Over a source that does not look at the row it writes to and whose rows all hold lists, and with
  -- memory for the new lists, a run of the projection by indices that grow strictly gives the rows
  -- of the source in their order and ends as the source does. Each row has its key, and of its items
  -- those at the indices, in order, without the indices behind its last item.
  pub drain-project_by_indices :
      (n : ℕ) (p : ProjectByIndices S I) (out : Row)
      → Grows 0 p.indices
      → drain (project_by_indices_next binn true iop) n p out
        ≡ kept_rows binn (gather 0 p.indices) items out (drain iop.next n p.src out)
  unfolding drain project_by_indices_next
  drain-project_by_indices zero p out g = refl
  drain-project_by_indices (suc n) p out g =
      let a = iop.next p.src p.kvdata in
      let later = drain iop.next n a.1 out in
      ap (go_on (projected_answer binn true (Operators.picked_items 0 p.indices) a.0 out).0)
        (drain-project_by_indices n (project_by_indices_next binn true iop p out).1 out g)
      ∙ ap
          (λ (k : List I → List I).
            go_on (projected_answer binn true k a.0 out).0
              (kept_rows binn (gather 0 p.indices) items out later))
          (fun_ext (λ xs. picked_items_lem p.indices xs g))
      ∙ go_on-projected binn (gather 0 p.indices) items out a.0 later
          (λ r e. lists p.src p.kvdata r e)
      ∙ ap
          (λ (c : Answer × S).
            kept_rows binn (gather 0 p.indices) items out (go_on c.0 (drain iop.next n c.1 out)))
          (overwrites p.src p.kvdata out)

abbrev selected_rows : List Row × Option Error → List Row × Option Error
selected_rows d = (map selected d.0, d.1)

go_on-selected :
    (a : Answer) (rest : List Row × Option Error)
    → go_on (select_answer a) (selected_rows rest) ≡ selected_rows (go_on a rest)
unfolding go_on select_answer
go_on-selected (ok r) rest = refl
go_on-selected (err e) rest = refl

-- A run of the filter gives every row of its source, whatever the predicate: it only fills in the
-- identifier of a row whose key has the size of one.
pub drain-select :
    {S : Type 0} (iop : Iop S) (n : ℕ) (q : Select S) (out : Row)
    → drain (select_next iop) n q out
      ≡ (map selected (drain iop.next n q.src out).0, (drain iop.next n q.src out).1)
unfolding drain select_next
drain-select iop zero q out = refl
drain-select iop (suc n) q out =
    let a = iop.next q.src out in
    ap (go_on (select_answer a.0)) (drain-select iop n (select_next iop q out).1 out)
    ∙ go_on-selected a.0 (drain iop.next n a.1 out)
