-- ===== src/Vm/Datum.antt =====
-- mdv_vm_stack_push, mdv_vm_stack_pop and mdv_vm_stack_top: a datum on the byte stack is its
-- payload, then its size in four bytes, then one byte that tells whether the payload is a pointer.
use mdb_linux.Base.{
  ℕ, ◌+◌, ◌-◌, Bool, List, [], ◌∷◌, length, take, drop, get_or, encode, decode, ltb, ◌==◌, not,
  if◌then◌else◌,
}
use mdb_linux.Vm.Machine.{ok, err, failed, M, return, ◌>>=◌, ◌>>◌, push_bytes, pop_bytes}

-- `mdv_vm_datum`. An inline datum is its bytes; an external one is a size and the address of its
-- bytes. The field `external` is the constructor, and the size of an inline datum its length.
pub data Datum : Type 0 where
  inline : List ℕ → Datum
  external : ℕ → ℕ → Datum

unfoldable pub size : Datum → ℕ
size (inline bs) = length bs
size (external n a) = n

abbrev pub payload : Datum → List ℕ
payload (inline bs) = bs
payload (external n a) = encode 8 a

abbrev pub flag : Datum → ℕ
flag (inline bs) = 0
flag (external n a) = 1

unfoldable pub stack_push : Datum → M (Unit {0})
unfolding size
stack_push d = do push_bytes (payload d); push_bytes (encode 4 (size d)); push_bytes (flag d ∷ [])

-- A stored `bool` is read as true if its byte is not zero.
abbrev pub is_external : List ℕ → Bool
is_external bs = not (get_or bs 0 0 == 0)

-- The datum that the three popped parts describe.
unfoldable pub assemble : Bool → ℕ → List ℕ → Datum
assemble ext n bs = if ext then external n (decode bs) else inline bs

abbrev pub payload_size : Bool → ℕ → ℕ
payload_size ext n = if ext then 8 else n

unfoldable pub stack_pop : M Datum
stack_pop = do
  e ← pop_bytes 1
  n ← pop_bytes 4
  p ← pop_bytes (payload_size (is_external e) (decode n))
  return (assemble (is_external e) (decode n) p)

-- The `n` bytes that end `above` bytes below the top of the stack.
abbrev pub slice : List ℕ → ℕ → ℕ → List ℕ
slice items above n = take n (drop (length items - above - n) items)

unfoldable pub stack_top : M Datum
stack_top s =
    let items = s.stack.items in
    let ext = is_external (slice items 0 1) in
    let n = decode (slice items 1 4) in
    let sz = payload_size ext n in
    if ltb (length items) 5
    then (err failed, s)
    else if ltb (length items) (sz + 5)
    then (err failed, s)
    else (ok (assemble ext n (slice items 5 sz)), s)
