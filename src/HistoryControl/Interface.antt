-- ===== src/HistoryControl/Interface.antt =====
-- What fills `HistoryControlInterface`
-- (upstream/slurm-operator/internal/utils/historycontrol/historycontrol.go).
use slinky_on_openshift.Prelude.{ℕ, Option, none, some}
use slinky_on_openshift.Prelude.Int.{ℤ}
use slinky_on_openshift.Exec.{Result, panic}
use slinky_on_openshift.NodeSetSync.Reconciler.{Revision, HistoryControlInterface}
use slinky_on_openshift.HistoryControl.{
  RevisionClient, list_controller_revisions, create_controller_revision, update_controller_revision,
  delete_controller_revision, adopt_controller_revision,
}

abbrev count_or : ℤ → Option ℤ → ℤ
count_or count none = count
count_or count (some last) = last

-- A create that has not ended within the fuel has nothing to return, which is a panic here.
abbrev pub ended :
    {S : Type 0} → ℤ → S → Option (Result Revision × Option ℤ × S) → Result Revision × ℤ × S
ended count s none = (panic, count, s)
ended count s (some (res, last, s')) = (res, count_or count last, s')

-- `NewHistoryControl`, with fuel for the loop of a create
abbrev pub new_history_control : {S : Type 0} → ℕ → RevisionClient S → HistoryControlInterface S
new_history_control fuel client = record {
  list_controller_revisions = list_controller_revisions client;
  create_controller_revision = λ parent revision count s.
      ended count s (create_controller_revision client fuel parent revision (some count) s);
  update_controller_revision = update_controller_revision client;
  delete_controller_revision = delete_controller_revision client;
  adopt_controller_revision = adopt_controller_revision client;
}
