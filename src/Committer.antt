-- ===== src/Committer.antt =====
-- mdv_core/mdv_committer.c: the requests to apply one transaction log, and the job that serves them.
-- The handlers of the event bus, which count requests, and the job run in different threads; here
-- each of their atomic actions is a function, and they interleave as steps.
pub mod Covered
pub mod Stuck
pub mod Recovers
mod Tests
use mdb_linux.Base.{
  ℕ, zero, suc, ◌+◌, ◌%◌, ◌^◌, Bool, true, false, Option, none, some, ◌==◌, if◌then◌else◌,
}

-- Where the job of the log is: not there, between the request and the queue, in the queue, in
-- `mdv_committer_fn` with the requests it has read and before or behind the event, or at its end.
pub data Phase : Type 0 where
  idle emitting queued : Phase
  loaded : ℕ → Phase
  published : ℕ → Phase

-- `posted` counts the changes of the log that were told to the committer, and `covered` those of
-- them that were there when the event that applies the log was last served without an error; the
-- code keeps neither.
pub record LogCommitter : Type 0 where
  pub requests : ℕ
  pub phase : Phase
  pub posted : ℕ
  pub covered : ℕ

-- The committer of a log that was just registered (`mdv_committer4trlog`).
abbrev pub new_committer : LogCommitter
new_committer = record { requests = 0; phase = idle; posted = 0; covered = 0 }

-- The handler's `atomic_fetch_add`: whoever finds 0 goes on to emit the job.
unfoldable pub start : LogCommitter → LogCommitter
start c = record c {
  requests = (c.requests + 1) % 2 ^ 64;
  posted = c.posted + 1;
  phase = if c.requests == 0 then emitting else c.phase;
}

-- `granted` says that the job was allocated and pushed.
unfoldable pub job_emit : Bool → LogCommitter → LogCommitter
job_emit granted c = record c { phase = if granted then queued else idle }

-- The job reads the counter.
unfoldable pub fn_load : LogCommitter → LogCommitter
fn_load c = record c { phase = loaded c.requests }

-- How a round of the loop goes: the event cannot be allocated, mdv_ebus_publish answers an error,
-- or the log is applied.
pub data Round : Type 0 where
  no_memory refused applied : Round

-- The event is published and served before the call returns (MDV_EVT_SYNC); when it cannot be
-- allocated, the job breaks off. An error is logged and the round goes on as if the log had been
-- applied.
unfoldable pub fn_publish : Round → ℕ → LogCommitter → LogCommitter
fn_publish no_memory requests c = record c { phase = idle }
fn_publish refused requests c = record c { phase = published requests }
fn_publish applied requests c = record c { phase = published requests; covered = c.posted }

-- The `atomic_compare_exchange_strong`: the counter goes back to 0 and the job ends, unless new
-- requests have come, which are read for the next round.
unfoldable pub fn_exchange : ℕ → LogCommitter → LogCommitter
fn_exchange requests c =
    if c.requests == requests
    then record c { requests = 0; phase = idle }
    else record c { phase = loaded c.requests }

-- One action of the thread that has the job; a round of the loop goes as `round` says.
unfoldable pub job_round : Round → LogCommitter → LogCommitter
unfolding job_emit fn_load fn_publish fn_exchange
job_round round c = elim c.phase [
  | idle ↦ c
  | emitting ↦ job_emit true c
  | queued ↦ fn_load c
  | loaded r ↦ fn_publish round r c
  | published r ↦ fn_exchange r c
]

-- The same when nothing fails.
unfoldable pub job_step : LogCommitter → LogCommitter
unfolding job_round
job_step c = job_round applied c
