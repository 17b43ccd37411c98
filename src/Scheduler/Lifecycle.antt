-- ===== src/Scheduler/Lifecycle.antt =====
-- The life of a task, as pallets/compute-pool-scheduler/src/lib.rs promises it: it runs, its proof waits, it
-- is approved or rejected, and one dispute may turn that around.
use deep_brain_chain.Prelude.{◌≡◌, Option, none, some, Bool, true, false, not}
use deep_brain_chain.Scheduler.{
  ComputeTask, TaskStatus, proof_submitted, verifying, completed, failed, is_approved,
}

pub data Stage : Type 0 where
  running waiting : Stage
  settled : (approved : Bool) → Stage

-- A task has a stage, and it is disputed or not.
pub data Phase : Type 0 where
  absent : Phase
  phase : (stage : Stage) (disputed : Bool) → Phase

abbrev pub stage_of : TaskStatus → Option Bool → Stage
stage_of proof_submitted result = waiting
stage_of verifying result = waiting
stage_of completed result = settled (is_approved result)
stage_of failed result = settled (is_approved result)
stage_of _ result = running

abbrev pub phase_of : Option ComputeTask → Phase
phase_of none = absent
phase_of (some t) = phase (stage_of t.status t.verification_result) t.disputed

-- What may happen to a task, once.
pub data Move : Phase → Phase → Type 0 where
  create : Move absent (phase running false)
  prove : {d : Bool} → Move (phase running d) (phase waiting d)
  settle : {d b : Bool} → Move (phase waiting d) (phase (settled b) d)
  expire : {d : Bool} → Move (phase running d) (phase (settled false) d)
  overturn : {b : Bool} → Move (phase (settled b) false) (phase (settled (not b)) true)

pub data Life (p : Phase) : Phase → Type 0 where
  still : Life p p
  move : {q r : Phase} → Life p q → Move q r → Life p r

pub Life-trans : {p q r : Phase} → Life p q → Life q r → Life p r
Life-trans k still = k
Life-trans k (move l m) = move (Life-trans k l) m

pub Life-one : {p q : Phase} → Move p q → Life p q
Life-one m = move still m

-- No move starts after the dispute.
Move-undisputed : {p q : Phase} (b : Bool) → Move p q → p ≡ phase (settled b) true → true ≡ false
Move-undisputed b create e = cc
Move-undisputed b prove e = cc
Move-undisputed b settle e = cc
Move-undisputed b expire e = cc
Move-undisputed b overturn e = cc

-- Nothing happens to a task after its dispute.
pub Life-disputed :
    {p q : Phase} (b : Bool) → Life p q → p ≡ phase (settled b) true → q ≡ phase (settled b) true
Life-disputed b still e = e
Life-disputed b (move l m) e = absurd (cc (Move-undisputed b m (Life-disputed b l e)))
