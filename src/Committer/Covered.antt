-- ===== src/Committer/Covered.antt =====
-- mdv_core/mdv_committer.c when nothing fails: no change of the log is missed.
use mdb_linux.Base.{
  ℕ, zero, suc, ◌+◌, ◌-◌, ◌%◌, ◌^◌, ◌≤◌, ◌<◌, ◌≡◌, refl, inl, inr, true, false, ◌==◌, if◌then◌else◌,
  Bool-cases, arith, eq→==,
}
use mdb_linux.Committer
use mdb_linux.Committer.{
  LogCommitter, Phase, idle, emitting, queued, loaded, published, new_committer,
}

-- A change that is told, and an action of the job, in any order.
pub data Reaches : LogCommitter → LogCommitter → Type 0 where
  here : (c : LogCommitter) → Reaches c c
  by_start :
      (c d : LogCommitter) → c.posted + 1 < 2 ^ 64 → Reaches (Committer.start c) d → Reaches c d
  by_job : (c d : LogCommitter) → Reaches (Committer.job_step c) d → Reaches c d

-- What the counter says of the changes that are not covered, in each phase.
abbrev pub Pays : Phase → ℕ → ℕ → ℕ → Type 0
Pays idle requests posted covered = (requests ≡ 0) × (posted ≡ covered)
Pays emitting requests posted covered = 0 < requests
Pays queued requests posted covered = 0 < requests
Pays (loaded r) requests posted covered = (0 < r) × (r ≤ requests)
Pays (published r) requests posted covered =
    (0 < r) × ((r ≤ requests) × (posted ≤ covered + (requests - r)))

pub record IsValid (c : LogCommitter) : Type 0 where
  pub pays : Pays c.phase c.requests c.posted c.covered
  pub covered_in : c.covered ≤ c.posted
  pub requests_in : c.requests ≤ c.posted

pub not_zero : (r : ℕ) → suc r == 0 ≡ false
not_zero r = ground arith

start-Pays :
    (p : Phase) (r n k : ℕ)
    → r ≤ n
    → n + 1 < 2 ^ 64
    → Pays p r n k
    → Pays (if r == 0 then emitting else p) ((r + 1) % 2 ^ 64) (n + 1) k
start-Pays p zero n k l b h = omega arith
start-Pays idle (suc r) n k l b h = absurd (omega (arith, h.0))
start-Pays emitting (suc r) n k l b h = rw (not_zero r) (omega arith)
start-Pays queued (suc r) n k l b h = rw (not_zero r) (omega arith)
start-Pays (loaded x) (suc r) n k l b h = rw (not_zero r) (h.0, omega (arith, h.1))
start-Pays (published x) (suc r) n k l b h =
    rw (not_zero r) (h.0, (omega (arith, h.1.0), omega (arith, h.1.0, h.1.1)))

start-IsValid : (c : LogCommitter) → c.posted + 1 < 2 ^ 64 → IsValid c → IsValid (Committer.start c)
unfolding Committer.start
start-IsValid c b v = record {
  pays = start-Pays c.phase c.requests c.posted c.covered v.requests_in b v.pays;
  covered_in = omega (arith, v.covered_in);
  requests_in = omega (arith, v.requests_in, b);
}

same_number : (a b : ℕ) → a == b ≡ true → a ≡ b
same_number a b h = ground (arith, h)

-- The job's action in each phase.
step-IsValid :
    (p : Phase) (r n k : ℕ)
    → IsValid (record { requests = r; phase = p; posted = n; covered = k })
    → IsValid (Committer.job_step (record { requests = r; phase = p; posted = n; covered = k }))
unfolding Committer.job_step Committer.job_round Committer.job_emit Committer.fn_load
    Committer.fn_publish Committer.fn_exchange
step-IsValid idle r n k v = v
step-IsValid emitting r n k v = record {
  pays = v.pays;
  covered_in = v.covered_in;
  requests_in = v.requests_in;
}
step-IsValid queued r n k v = record {
  pays = (v.pays, omega arith);
  covered_in = v.covered_in;
  requests_in = v.requests_in;
}
step-IsValid (loaded x) r n k v = record {
  pays = (v.pays.0, (v.pays.1, omega arith));
  covered_in = omega arith;
  requests_in = v.requests_in;
}
step-IsValid (published x) r n k v = elim (Bool-cases (r == x)) [
  | inl e ↦ rw (e) (record {
    pays = (refl, omega (arith, same_number r x e, v.pays.1.1, v.covered_in));
    covered_in = v.covered_in;
    requests_in = omega arith;
  })
  | inr f ↦ rw (f) (record {
    pays = (omega (arith, v.pays.0, v.pays.1.0), omega arith);
    covered_in = v.covered_in;
    requests_in = v.requests_in;
  })
]

Reaches-IsValid : (c d : LogCommitter) → Reaches c d → IsValid c → IsValid d
Reaches-IsValid c d (here _) v = v
Reaches-IsValid c d (by_start _ _ b h) v =
    Reaches-IsValid (Committer.start c) d h (start-IsValid c b v)
Reaches-IsValid c d (by_job _ _ h) v =
    Reaches-IsValid (Committer.job_step c) d h
      (step-IsValid c.phase c.requests c.posted c.covered v)

new_committer-IsValid : IsValid new_committer
new_committer-IsValid = record {
  pays = (refl, refl);
  covered_in = omega arith;
  requests_in = omega arith;
}

idle-Pays : (p : Phase) (r n k : ℕ) → Pays p r n k → p ≡ idle → (r ≡ 0) × (n ≡ k)
idle-Pays idle r n k h e = h
idle-Pays emitting r n k h e = absurd cc
idle-Pays queued r n k h e = absurd cc
idle-Pays (loaded x) r n k h e = absurd cc
idle-Pays (published x) r n k h e = absurd cc

-- However the changes that are told and the actions of the job interleave, whenever no job is there
-- any more, every change that was told has been applied, and the counter is 0, so that the next
-- change starts a job. The job can be allocated and pushed, the event can be allocated and is
-- served without an error every time, and fewer than 2^64 changes are told.
pub idle-covered :
    (c : LogCommitter)
    → Reaches new_committer c
    → c.phase ≡ idle
    → (c.requests ≡ 0) × (c.posted ≡ c.covered)
idle-covered c h e =
    idle-Pays c.phase c.requests c.posted c.covered
      (Reaches-IsValid new_committer c h new_committer-IsValid).pays e

abbrev pub job_steps : ℕ → LogCommitter → LogCommitter
job_steps zero c = c
job_steps (suc k) c = job_steps k (Committer.job_step c)

-- Six actions of the job end it when nothing is told any more.
settled :
    (p : Phase) (r n k : ℕ)
    → (job_steps 6 (record { requests = r; phase = p; posted = n; covered = k })).phase ≡ idle
unfolding Committer.job_step Committer.job_round Committer.job_emit Committer.fn_load
    Committer.fn_publish Committer.fn_exchange
settled idle r n k = refl
settled emitting r n k = rw (eq→== r r refl) refl
settled queued r n k = rw (eq→== r r refl) refl
settled (loaded x) r n k = elim (Bool-cases (r == x)) [
  | inl e ↦ rw (e) refl
  | inr f ↦ rw (f, eq→== r r refl) refl
]
settled (published x) r n k = elim (Bool-cases (r == x)) [
  | inl e ↦ rw (e) refl
  | inr f ↦ rw (f, eq→== r r refl) refl
]

Reaches-trans : (b c d : LogCommitter) → Reaches b c → Reaches c d → Reaches b d
Reaches-trans b c d (here _) g = g
Reaches-trans b c d (by_start _ _ l h) g =
    by_start b d l (Reaches-trans (Committer.start b) c d h g)
Reaches-trans b c d (by_job _ _ h) g = by_job b d (Reaches-trans (Committer.job_step b) c d h g)

Reaches-job_steps : (k : ℕ) (c : LogCommitter) → Reaches c (job_steps k c)
Reaches-job_steps zero c = here c
Reaches-job_steps (suc k) c =
    by_job c (job_steps (suc k) c) (Reaches-job_steps k (Committer.job_step c))

-- From every state that can be reached, six actions of the job, with no change told in between,
-- bring it to its end, and then every change that was told has been applied. The job can be
-- allocated and pushed, the event can be allocated and is served without an error every time, and
-- fewer than 2^64 changes are told.
pub job_steps-covered :
    (c : LogCommitter)
    → Reaches new_committer c
    → ((job_steps 6 c).phase ≡ idle) × ((job_steps 6 c).posted ≡ (job_steps 6 c).covered)
job_steps-covered c h =
    let e = settled c.phase c.requests c.posted c.covered in
    (
      e,
      (idle-covered (job_steps 6 c)
          (Reaches-trans new_committer c (job_steps 6 c) h (Reaches-job_steps 6 c)) e).1,
    )
