-- ===== src/Committer/Tests.antt =====
-- One log's committer at work.
use mdb_linux.Base.{◌+◌, ◌≡◌, refl, arith, true, false}
use mdb_linux.Committer
use mdb_linux.Committer.{LogCommitter, idle, refused, new_committer}
use mdb_linux.Committer.Covered.{
  Reaches, here, by_start, by_job, idle-covered, job_steps, job_steps-covered,
}
use mdb_linux.Committer.Recovers
use mdb_linux.Committer.Recovers.{Runs, start-recovers}
use mdb_linux.Committer.Stuck.{starts, job_emit-Stuck}

-- A change is told, the job starts and applies it, and another change is told before it ends.
abbrev during : LogCommitter
during = Committer.start (job_steps 3 (Committer.start new_committer))

during-Reaches : Reaches new_committer during
unfolding Committer.start Committer.job_step Committer.job_round Committer.job_emit
    Committer.fn_load Committer.fn_publish Committer.fn_exchange
during-Reaches = by_start new_committer during (omega arith) (
    by_job _ during (
      by_job _ during (
        by_job _ during (
          by_start (job_steps 3 (Committer.start new_committer)) during (omega arith)
            (here during)))))

-- It waits for the round that applies the second change too.
waits : during.covered ≡ 1
unfolding Committer.start Committer.job_step Committer.job_round Committer.job_emit
    Committer.fn_load Committer.fn_publish Committer.fn_exchange
waits = refl

done-Reaches : Reaches new_committer (job_steps 3 during)
unfolding Committer.start Committer.job_step Committer.job_round Committer.job_emit
    Committer.fn_load Committer.fn_publish Committer.fn_exchange
done-Reaches = by_start new_committer (job_steps 3 during) (omega arith) (
    by_job _ (job_steps 3 during) (
      by_job _ (job_steps 3 during) (
        by_job _ (job_steps 3 during) (
          by_start (job_steps 3 (Committer.start new_committer)) (job_steps 3 during) (omega arith)
            (by_job _ (job_steps 3 during) (
              by_job _ (job_steps 3 during)
                (by_job _ (job_steps 3 during) (here (job_steps 3 during)))))))))

idle-covered_example :
    ((job_steps 3 during).requests ≡ 0)
    × ((job_steps 3 during).posted ≡ (job_steps 3 during).covered)
unfolding Committer.start Committer.job_step Committer.job_round Committer.job_emit
    Committer.fn_load Committer.fn_publish Committer.fn_exchange
idle-covered_example = idle-covered (job_steps 3 during) done-Reaches refl

job_steps-covered_example :
    ((job_steps 6 during).phase ≡ idle)
    × ((job_steps 6 during).posted ≡ (job_steps 6 during).covered)
job_steps-covered_example = job_steps-covered during during-Reaches

abbrev asked : LogCommitter
asked = Committer.start new_committer

job_emit-Stuck_example :
    ((starts 7 (Committer.job_emit false asked)).phase ≡ idle)
    × ((starts 7 (Committer.job_emit false asked)).covered ≡ asked.covered)
unfolding Committer.start
job_emit-Stuck_example = job_emit-Stuck 7 asked (omega arith) (omega arith)

-- The event of the first change is answered with an error.
abbrev unserved : LogCommitter
unserved = Committer.job_round refused (job_steps 2 asked)

unserved-Runs : Runs new_committer unserved
unfolding Committer.start Committer.job_step Committer.job_round Committer.job_emit
    Committer.fn_load Committer.fn_publish
unserved-Runs = Recovers.by_start new_committer unserved (omega arith) (
    Recovers.by_round true asked unserved (
      Recovers.by_round true (job_steps 1 asked) unserved
        (Recovers.by_round false (job_steps 2 asked) unserved (Recovers.here unserved))))

start-recovers_example :
    ((job_steps 6 (Committer.start unserved)).phase ≡ idle)
    × ((job_steps 6 (Committer.start unserved)).covered ≡ unserved.posted + 1)
unfolding Committer.start Committer.job_step Committer.job_round Committer.job_emit
    Committer.fn_load Committer.fn_publish
start-recovers_example = start-recovers unserved unserved-Runs (omega arith)

-- Without a further change it stays so.
lost : (job_steps 1 unserved).covered ≡ 0
unfolding Committer.start Committer.job_step Committer.job_round Committer.job_emit
    Committer.fn_load Committer.fn_publish Committer.fn_exchange
lost = refl
