-- ===== src/Committer/Recovers.antt =====
-- mdv_core/mdv_committer.c when events may be answered with an error: what a later change makes good.
use mdb_linux.Base.{
  ℕ, zero, suc, ◌+◌, ◌%◌, ◌^◌, ◌≤◌, ◌<◌, ◌≡◌, refl, inl, inr, Bool, true, false, ◌==◌,
  if◌then◌else◌, Bool-cases, arith, eq→==,
}
use mdb_linux.Committer
use mdb_linux.Committer.{
  LogCommitter, Phase, idle, emitting, queued, loaded, published, Round, refused, applied,
  new_committer,
}
use mdb_linux.Committer.Covered.{not_zero, job_steps}

abbrev pub answered : Bool → Round
answered true = applied
answered false = refused

-- A change that is told, and an action of the job, in any order; the event bus answers each event
-- with or without an error.
pub data Runs : LogCommitter → LogCommitter → Type 0 where
  here : (c : LogCommitter) → Runs c c
  by_start : (c d : LogCommitter) → c.posted + 1 < 2 ^ 64 → Runs (Committer.start c) d → Runs c d
  by_round :
      (served : Bool) (c d : LogCommitter)
      → Runs (Committer.job_round (answered served) c) d
      → Runs c d

-- What the counter says in each phase.
abbrev pub Counts : Phase → ℕ → Type 0
Counts idle requests = requests ≡ 0
Counts emitting requests = 0 < requests
Counts queued requests = 0 < requests
Counts (loaded r) requests = (0 < r) × (r ≤ requests)
Counts (published r) requests = (0 < r) × (r ≤ requests)

pub record IsValid (c : LogCommitter) : Type 0 where
  pub counts : Counts c.phase c.requests
  pub requests_in : c.requests ≤ c.posted

start-Counts :
    (p : Phase) (r : ℕ)
    → r + 1 < 2 ^ 64
    → Counts p r
    → Counts (if r == 0 then emitting else p) ((r + 1) % 2 ^ 64)
start-Counts p zero b h = omega arith
start-Counts idle (suc r) b h = absurd (omega (arith, h))
start-Counts emitting (suc r) b h = rw (not_zero r) (omega arith)
start-Counts queued (suc r) b h = rw (not_zero r) (omega arith)
start-Counts (loaded x) (suc r) b h = rw (not_zero r) (h.0, omega (arith, h.1))
start-Counts (published x) (suc r) b h = rw (not_zero r) (h.0, omega (arith, h.1))

start-IsValid : (c : LogCommitter) → c.posted + 1 < 2 ^ 64 → IsValid c → IsValid (Committer.start c)
unfolding Committer.start
start-IsValid c b v = record {
  counts = start-Counts c.phase c.requests (omega (arith, v.requests_in)) v.counts;
  requests_in = omega (arith, v.requests_in, b);
}

round-IsValid :
    (served : Bool) (p : Phase) (r n k : ℕ)
    → IsValid (record { requests = r; phase = p; posted = n; covered = k })
    → IsValid (
        Committer.job_round
          (answered served)
          (record { requests = r; phase = p; posted = n; covered = k }))
unfolding Committer.job_round Committer.job_emit Committer.fn_load Committer.fn_publish
    Committer.fn_exchange
round-IsValid served idle r n k v = v
round-IsValid served emitting r n k v = record { counts = v.counts; requests_in = v.requests_in }
round-IsValid served queued r n k v = record {
  counts = (v.counts, omega arith);
  requests_in = v.requests_in;
}
round-IsValid true (loaded x) r n k v = record { counts = v.counts; requests_in = v.requests_in }
round-IsValid false (loaded x) r n k v = record { counts = v.counts; requests_in = v.requests_in }
round-IsValid served (published x) r n k v = elim (Bool-cases (r == x)) [
  | inl e ↦ rw (e) (record { counts = refl; requests_in = omega arith })
  | inr f ↦ rw (f) (record {
    counts = (omega (arith, v.counts.0, v.counts.1), omega arith);
    requests_in = v.requests_in;
  })
]

Runs-IsValid : (c d : LogCommitter) → Runs c d → IsValid c → IsValid d
Runs-IsValid c d (here _) v = v
Runs-IsValid c d (by_start _ _ b h) v = Runs-IsValid (Committer.start c) d h (start-IsValid c b v)
Runs-IsValid c d (by_round served _ _ h) v =
    Runs-IsValid (Committer.job_round (answered served) c) d h
      (round-IsValid served c.phase c.requests c.posted c.covered v)

new_committer-IsValid : IsValid new_committer
new_committer-IsValid = record { counts = refl; requests_in = omega arith }

-- The job has yet to publish an event.
abbrev Owes : Phase → ℕ → Type 0
Owes idle requests = false ≡ true
Owes (published r) requests = requests == r ≡ false
Owes _ requests = Unit

more_than : (x r : ℕ) → x ≤ r → r + 1 < 2 ^ 64 → (r + 1) % 2 ^ 64 == x ≡ false
more_than x r l b = let e : (r + 1) % 2 ^ 64 ≡ r + 1 = omega arith in rw (e) (ground (arith, l))

start-Owes :
    (p : Phase) (r : ℕ)
    → r + 1 < 2 ^ 64
    → Counts p r
    → Owes (if r == 0 then emitting else p) ((r + 1) % 2 ^ 64)
start-Owes p zero b h = tt
start-Owes idle (suc r) b h = absurd (omega (arith, h))
start-Owes emitting (suc r) b h = rw (not_zero r) tt
start-Owes queued (suc r) b h = rw (not_zero r) tt
start-Owes (loaded x) (suc r) b h = rw (not_zero r) tt
start-Owes (published x) (suc r) b h = rw (not_zero r) (more_than x (suc r) h.1 b)

owed-covered :
    (p : Phase) (r n k : ℕ)
    → Owes p r
    → let d = job_steps 6 (record { requests = r; phase = p; posted = n; covered = k }) in
      (d.phase ≡ idle) × (d.covered ≡ n)
unfolding Committer.job_step Committer.job_round Committer.job_emit Committer.fn_load
    Committer.fn_publish Committer.fn_exchange
owed-covered idle r n k h = absurd cc
owed-covered emitting r n k h = rw (eq→== r r refl) (refl, refl)
owed-covered queued r n k h = rw (eq→== r r refl) (refl, refl)
owed-covered (loaded x) r n k h = elim (Bool-cases (r == x)) [
  | inl e ↦ rw (e) (refl, refl)
  | inr f ↦ rw (f, eq→== r r refl) (refl, refl)
]
owed-covered (published x) r n k h = rw (h, eq→== r r refl) (refl, refl)

-- However many events were answered with an error before, and wherever the job stands, one more
-- change that is told makes it good: six actions of the job behind it, in which events are served
-- without an error and no change is told, bring the job to its end, and then every change that was
-- ever told has been applied. The job and the events can be allocated and pushed every time, and
-- fewer than 2^64 changes are told.
pub start-recovers :
    (c : LogCommitter)
    → Runs new_committer c
    → c.posted + 1 < 2 ^ 64
    → ((job_steps 6 (Committer.start c)).phase ≡ idle)
      × ((job_steps 6 (Committer.start c)).covered ≡ c.posted + 1)
unfolding Committer.start
start-recovers c h b =
    let v = Runs-IsValid new_committer c h new_committer-IsValid in
    owed-covered (if c.requests == 0 then emitting else c.phase) ((c.requests + 1) % 2 ^ 64)
      (c.posted + 1) c.covered
      (start-Owes c.phase c.requests (omega (arith, v.requests_in)) v.counts)
