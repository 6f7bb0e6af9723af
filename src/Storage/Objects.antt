-- ===== src/Storage/Objects.antt =====
-- The enumerator of the objects of mdv_storage/mdv_2pset.c, over a cursor of LMDB. `all` is what the
-- cursor can give in the transaction of the enumerator, and `left` begins at the pair it stands at.
use mdb_linux.Base.{Bool, true, false, List, [], ◌∷◌, Option, none, some, if◌then◌else◌}
use mdb_linux.Operators.{Row}
use mdb_linux.Operators.Scan.{Enumerator}
use mdb_linux.Storage.Lmdb.{Lmdb, objects, transaction_start}
use mdb_linux.Storage.Session.{map_open}
use mdb_linux.Storage.TwoPSet.{Bytes}

-- `current` is there from the creation on: empty until the cursor gives a pair.
pub record ObjectsEnumerator : Type 0 where
  pub all : List (Bytes × Bytes)
  pub left : List (Bytes × Bytes)
  pub current : Row

abbrev pub blank_row : Row
blank_row = record { key = []; value = []; row_id = [] }

abbrev pub row_of : Bytes × Bytes → Row
row_of p = record { key = p.0; value = p.1; row_id = [] }

-- MDV_CURSOR_FIRST and MDV_CURSOR_NEXT; a cursor that finds nothing leaves the pair as it was.
abbrev pub cursor_at : List (Bytes × Bytes) → ObjectsEnumerator → Bool × ObjectsEnumerator
cursor_at [] en = (false, en)
cursor_at (p ∷ rows) en = (true, record en { left = p ∷ rows; current = row_of p })

unfoldable pub impl_reset : ObjectsEnumerator → Bool × ObjectsEnumerator
impl_reset en = cursor_at en.all en

abbrev pub behind : List (Bytes × Bytes) → List (Bytes × Bytes)
behind [] = []
behind (p ∷ rows) = rows

-- A cursor that stands nowhere goes to the first pair.
unfoldable pub impl_next : ObjectsEnumerator → Bool × ObjectsEnumerator
impl_next en = elim en.left [ [] ↦ cursor_at en.all en | p ∷ rows ↦ cursor_at rows en ]

-- The address of the pair, which is never null.
unfoldable pub impl_current : ObjectsEnumerator → Option Row
impl_current en = some en.current

abbrev pub objects_fns : Enumerator ObjectsEnumerator
objects_fns = record { next = impl_next; current = impl_current; reset = impl_reset }

module _ {E T : Type 0} (db : Lmdb Bytes Bytes E T) where
  abbrev pub fresh : T → ObjectsEnumerator
  fresh t = record { all = db.walk objects t; left = []; current = blank_row }

  -- The map is opened twice at most; so is the cursor, as `cursors` grants it.
  unfoldable pub opened_map : T → Bool × T
  unfolding map_open
  opened_map t =
      let m = map_open db objects true t in if m.0 then m else map_open db objects true m.1

  unfoldable pub opened_cursor : Bool × Bool → Bool × T → Option T
  unfolding map_open
  opened_cursor cursors m =
      let again = map_open db objects true m.1 in
      if m.0
      then (if cursors.0
          then some m.1
          else if again.0
          then (if cursors.1 then some again.1 else none)
          else none)
      else none

  -- mdv_2pset_enumerator, whose memory is `granted`: MDV_CURSOR_FIRST keeps the cursor of an empty
  -- map.
  unfoldable pub enumerator : Bool → Bool × Bool → E → Option ObjectsEnumerator
  unfolding transaction_start impl_reset
  enumerator false cursors e = none
  enumerator true cursors e = elim (transaction_start db e) [
    | none ↦ none
    | some t ↦ elim (opened_cursor cursors (opened_map t)) [
      | none ↦ none
      | some s ↦ some (impl_reset (fresh s)).1
    ]
  ]
