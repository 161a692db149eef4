-- ===== src/Remediation/History.antt =====
-- The remediation workflow as a sequence of calls, each running with no other in between.
pub mod Once
use cloudops_sentinel.Base.{ℕ, String, ◌≡◌, List, [], ◌∷◌, ◌==◌, count}
use cloudops_sentinel.Db.{Db, Mongo, ApiConfig}
use cloudops_sentinel.Remediation.Service.{ExecuteInput}
use cloudops_sentinel.Remediation.Plans.{PlanInput, create_plan}
use cloudops_sentinel.Remediation.Approvals.{approve}
use cloudops_sentinel.Remediation.Execute.{execute}

-- A call of the service, with the ids that the database gives to what it creates, the text of a new
-- token, and the time of the call.
pub data Call : Type 0 where
  plans :
      (workspace_id actor_id correlation_id : String)
      → PlanInput
      → (plan_id : String) → (now : ℕ) → Call
  approves :
      (workspace_id plan_id actor_id correlation_id token_id token : String) → (now : ℕ) → Call
  executes :
      (workspace_id plan_id actor_id correlation_id : String)
      → ExecuteInput
      → (execution_id : String) → (now : ℕ) → Call

-- How often the plan of an id has been executed.
abbrev pub executions_of : String → Db → ℕ
executions_of plan_id d = count (λ e. e.plan_id == plan_id) d.executions

module _ (mongo : Mongo) (config : ApiConfig) (sha256 : String → String) where
  -- The database after a call, whatever it answers.
  unfoldable pub step : Call → Db → Db
  step (plans w a c input id now) d = (create_plan mongo w a c input id now d).0
  step (approves w p a c id token now) d = (approve mongo config sha256 w p a c id token now d).0
  step (executes w p a c input id now) d = (execute mongo config sha256 w p a c input id now d).0

  unfoldable pub run : List Call → Db → Db
  run [] d = d
  run (call ∷ calls) d = run calls (step call d)

  -- The id of a new plan is not one that was executed before.
  abbrev pub IsNewId : Call → Db → Type 0
  IsNewId (plans w a c input id now) d = executions_of id d ≡ 0
  IsNewId _ d = Unit

  abbrev pub HasNewIds : List Call → Db → Type 0
  HasNewIds [] d = Unit
  HasNewIds (call ∷ calls) d = IsNewId call d × HasNewIds calls (step call d)
