-- ===== src/Committer/Stuck.antt =====
-- mdv_core/mdv_committer.c when something fails: the counter stays raised without a job, or goes back
-- to 0 without the log being applied.
use mdb_linux.Base.{
  ℕ, zero, suc, ◌+◌, ◌^◌, ◌<◌, ◌≡◌, refl, ◌∙◌, false, ◌==◌, if◌then◌else◌, arith, eq→==,
}
use mdb_linux.Committer
use mdb_linux.Committer.{LogCommitter, Phase, idle, emitting, queued, loaded, published, refused}

-- The job is not there, and the counter is not 0.
pub record Stuck (c : LogCommitter) : Type 0 where
  pub idle_in : c.phase ≡ idle
  pub counted : 0 < c.requests

-- A number of changes that are told one after the other.
abbrev pub starts : ℕ → LogCommitter → LogCommitter
starts zero c = c
starts (suc n) c = starts n (Committer.start c)

kept_phase : (r : ℕ) (p : Phase) → 0 < r → (if r == 0 then emitting else p) ≡ p
kept_phase zero p l = absurd (omega arith)
kept_phase (suc r) p l = let z : suc r == 0 ≡ false = ground arith in rw (z)

start-Stuck : (c : LogCommitter) → c.requests + 1 < 2 ^ 64 → Stuck c → Stuck (Committer.start c)
unfolding Committer.start
start-Stuck c l s = record {
  idle_in = kept_phase c.requests c.phase s.counted ∙ s.idle_in;
  counted = omega (arith, l);
}

starts-Stuck :
    (n : ℕ) (c : LogCommitter)
    → c.requests + n < 2 ^ 64
    → Stuck c
    → Stuck (starts n c) × ((starts n c).covered ≡ c.covered)
unfolding Committer.start
starts-Stuck zero c l s = (s, refl)
starts-Stuck (suc n) c l s =
    starts-Stuck n (Committer.start c) (omega (arith, l)) (start-Stuck c (omega (arith, l)) s)

-- When the job that the first request wants cannot be allocated or pushed, the counter stays
-- raised: however many changes are told afterwards, as long as it does not wrap around, no job is
-- started for them and none of them is applied.
pub job_emit-Stuck :
    (n : ℕ) (c : LogCommitter)
    → 0 < c.requests
    → c.requests + n < 2 ^ 64
    → ((starts n (Committer.job_emit false c)).phase ≡ idle)
      × ((starts n (Committer.job_emit false c)).covered ≡ c.covered)
unfolding Committer.job_emit
job_emit-Stuck n c p l =
    let r = starts-Stuck n (record c { phase = idle }) l (record { idle_in = refl; counted = p }) in
    (r.0.idle_in, r.1)

-- When the event bus answers an error in a round and no change is told meanwhile, the job ends and
-- the counter is 0, and just the changes that were not covered before are not covered then.
pub fn_publish-lost :
    (c : LogCommitter)
    → let d = Committer.fn_exchange c.requests (Committer.fn_publish refused c.requests c) in
      (d.phase ≡ idle) × ((d.requests ≡ 0) × ((d.posted ≡ c.posted) × (d.covered ≡ c.covered)))
unfolding Committer.fn_exchange Committer.fn_publish
fn_publish-lost c = rw (eq→== c.requests c.requests refl) (refl, (refl, (refl, refl)))
