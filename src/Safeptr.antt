-- ===== src/Safeptr.antt =====
-- mdv_platform/mdv_safeptr.c: a pointer to a counted object, which is kept and given out under a
-- mutex. `count` is the number of references to each object; the object with number 0 does not
-- exist and stands for the null pointer as `none`.
pub mod Balance
mod Tests
use mdb_linux.Base.{
  ℕ, ◌+◌, ◌-◌, ◌%◌, ◌^◌, Bool, true, false, Option, none, some, ◌==◌, if◌then◌else◌,
}

-- The references that are counted, by the object they lead to.
abbrev pub Counts : Type 0
Counts = ℕ → ℕ

-- The functions that the caller of create gives: they count one reference more and one less.
abbrev pub retain : ℕ → Counts → Counts
retain p counts = λ q. if q == p then counts q + 1 else counts q

abbrev pub release : ℕ → Counts → Counts
release p counts = λ q. if q == p then counts q - 1 else counts q

abbrev pub retain_ptr : Option ℕ → Counts → Counts
retain_ptr none counts = counts
retain_ptr (some p) counts = retain p counts

abbrev pub release_ptr : Option ℕ → Counts → Counts
release_ptr none counts = counts
release_ptr (some p) counts = release p counts

pub record Safeptr : Type 0 where
  pub ptr : Option ℕ

-- `granted` answers the allocation, `mutex` the creation of the mutex.
unfoldable pub create : Bool → Bool → Option ℕ → Counts → Option Safeptr × Counts
create granted mutex ptr counts =
    if granted
    then (if mutex then (some (record { ptr = ptr }), retain_ptr ptr counts) else (none, counts))
    else (none, counts)

unfoldable pub free : Option Safeptr → Counts → Counts
free none counts = counts
free (some s) counts = release_ptr s.ptr counts

-- `locked` answers the lock; the result tells whether it is MDV_OK.
unfoldable pub set : Bool → Option ℕ → Safeptr × Counts → Bool × (Safeptr × Counts)
set locked ptr (s, counts) =
    if locked
    then (true, (record { ptr = ptr }, retain_ptr ptr (release_ptr s.ptr counts)))
    else (false, (s, counts))

unfoldable pub get : Bool → Safeptr × Counts → Option ℕ × (Safeptr × Counts)
get locked (s, counts) =
    if locked then (s.ptr, (s, retain_ptr s.ptr counts)) else (none, (s, counts))
