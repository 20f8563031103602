-- ===== src/Workflow/Replay.antt =====
-- Selective replay: what is copied is complete evidence of the source, and never a side effect.
use agent_runtime_platform.Base.{
  ℕ, is_null, true, not, ◌||◌, Option, none, some, List, ◌∷◌, ◌≡◌, ◌≢◌, refl, sym, ap, ◌∙◌, inl,
  inr, Bool-cases, arith, eq_iff, ==_iff,
}
use agent_runtime_platform.Base.Table
use agent_runtime_platform.Base.Table.{number_key, pair_key}
use agent_runtime_platform.RunStore.{Clock, ok}
use agent_runtime_platform.RunStore.Moves.{Ensures}
use agent_runtime_platform.RunStore.Moves.Rules.{
  Ensures-bind, Ensures-ok, Ensures-if, Ensures-guard, or_error-ok,
}
use agent_runtime_platform.Workflow.{
  Ledger, WorkflowExecutionRecord, ToolCallRecord, find_execution, find_step, find_action, step_key,
  is_completed_call, is_running_execution, copied,
}
use agent_runtime_platform.Workflow.Steps.{StepIdentity}
use agent_runtime_platform.Workflow.Endings.Recorded.{append-Kept}
use agent_runtime_platform.Workflow.Reuse.{
  StepReuseResult, reuse_completed_step, reuse_from, reuse_into, is_evidence, copied_step,
  is_replayable,
}
use agent_runtime_platform.Workflow.Calls.{Context}

-- The evidence of the source step, and the row that was copied from it.
pub record Copies (source : ℕ) (i : StepIdentity) (db db' : Ledger) (copy : Option ToolCallRecord)
    : Type 0 where
  pub from : WorkflowExecutionRecord
  pub to : WorkflowExecutionRecord
  pub step : ToolCallRecord
  pub from_found : find_execution source db.workflow_executions ≡ some from
  pub to_found : find_execution i.run_id db.workflow_executions ≡ some to
  pub same_type : from.workflow_type ≡ to.workflow_type
  pub ended : is_replayable from.status ≡ true
  pub under_way : is_running_execution to.status ≡ true
  pub found : find_step (source, i.step_id) db.tool_calls ≡ some step
  pub complete : is_completed_call step.status ≡ true
  pub tool : step.tool_name ≡ i.tool_name
  pub input : step.input_hash ≡ i.input_hash
  pub no_action : is_null (find_action (source, i.step_id) db.external_actions) ≡ true
  pub fresh : find_step (i.run_id, i.step_id) db.tool_calls ≡ none
  pub row : ToolCallRecord
  pub answered : copy ≡ some row
  pub written : find_step (i.run_id, i.step_id) db'.tool_calls ≡ some row
  pub row_complete : is_completed_call row.status ≡ true
  pub row_result : row.result_json ≡ step.result_json
  pub row_tool : row.tool_name ≡ i.tool_name
  pub row_input : row.input_hash ≡ i.input_hash
  pub others :
      (k : ℕ × ℕ)
      → k ≢ (i.run_id, i.step_id)
      → find_step k db'.tool_calls ≡ find_step k db.tool_calls

-- The part of it that is known of the step.
record StepCopied (source : ℕ) (i : StepIdentity) (db db' : Ledger) (copy : Option ToolCallRecord)
    : Type 0 where
  step : ToolCallRecord
  found : find_step (source, i.step_id) db.tool_calls ≡ some step
  evidence : is_evidence i step ≡ true
  no_action : is_null (find_action (source, i.step_id) db.external_actions) ≡ true
  fresh : find_step (i.run_id, i.step_id) db.tool_calls ≡ none
  row : ToolCallRecord
  answered : copy ≡ some row
  written : find_step (i.run_id, i.step_id) db'.tool_calls ≡ some row
  row_complete : is_completed_call row.status ≡ true
  row_result : row.result_json ≡ step.result_json
  row_tool : row.tool_name ≡ i.tool_name
  row_input : row.input_hash ≡ i.input_hash
  others :
      (k : ℕ × ℕ)
      → k ≢ (i.run_id, i.step_id)
      → find_step k db'.tool_calls ≡ find_step k db.tool_calls

find_step-other :
    (k : ℕ × ℕ) (row : ToolCallRecord) (calls : List ToolCallRecord)
    → k ≢ step_key row
    → find_step k (row ∷ calls) ≡ find_step k calls
unfolding Table.find
find_step-other k row calls ne = elim (Bool-cases (pair_key.same (step_key row) k)) [
  | inl y ↦ absurd (ne (sym ((pair_key.same_iff (step_key row) k).0 y)))
  | inr n ↦ ground arith
]

module _ (clock : Clock) (call_id source : ℕ) (i : StepIdentity) (db : Ledger) where
  abbrev OnCopy : Ledger × StepReuseResult → Type 0
  OnCopy p = p.1.outcome ≡ copied → StepCopied source i db p.0 p.1.step

  reuse_into-OnCopy :
      (s : ToolCallRecord) (o : Option ToolCallRecord)
      → find_step (source, i.step_id) db.tool_calls ≡ some s
      → is_evidence i s ≡ true
      → is_null (find_action (source, i.step_id) db.external_actions) ≡ true
      → find_step (i.run_id, i.step_id) db.tool_calls ≡ o
      → Ensures OnCopy (reuse_into o s clock call_id source i db)
  unfolding reuse_into copied_step
  reuse_into-OnCopy s none f e n k = Ensures-bind _ _ λ _ _. Ensures-bind _ _ λ d l.
      Ensures-ok _ λ _.
        let row = copied_step clock call_id i s.result_json in
        let kept = append-Kept i.run_id _ _ clock.utc_now _ l in
        record {
          step = s;
          found = f;
          evidence = e;
          no_action = n;
          fresh = k;
          row = row;
          answered = refl;
          written =
              ap (find_step (i.run_id, i.step_id)) kept.calls
              ∙ Table.find-head step_key row db.tool_calls;
          row_complete = refl;
          row_result = refl;
          row_tool = refl;
          row_input = refl;
          others = λ k ne. ap (find_step k) kept.calls ∙ find_step-other k row db.tool_calls ne;
        }
  reuse_into-OnCopy s (some t) f e n k = Ensures-ok _ λ h. absurd (ground (arith, h))

  reuse_from-OnCopy :
      (o : Option ToolCallRecord)
      → find_step (source, i.step_id) db.tool_calls ≡ o
      → Ensures OnCopy (reuse_from o clock call_id source i db)
  unfolding reuse_from
  reuse_from-OnCopy none f = Ensures-ok _ λ h. absurd (cc)
  reuse_from-OnCopy (some s) f =
      Ensures-if
        (not (is_evidence i s)
          || not (is_null (find_action (source, i.step_id) db.external_actions)))
        _ _ (λ _. Ensures-ok _ λ h. absurd (cc))
        (λ h. reuse_into-OnCopy s _ f (ground arith) (ground arith) refl)

-- A step is only ever copied from complete evidence: when the outcome is `copied`, the source
-- execution has ended ready or blocked, the target is running, both have one workflow type, the
-- source step is complete for the same tool and input and performed no external action, the target
-- had no row of the step, and the tables have one for it now, which is returned: it is complete, for
-- the same tool and input, and holds the source's result. No row of another step has changed.
pub reuse_completed_step-Copies :
    (c : Context) (call_id source : ℕ) (i : StepIdentity) (db db' : Ledger) (r : StepReuseResult)
    → reuse_completed_step c.clock c.runs c.lease_token call_id source i db ≡ ok (db', r)
    → r.outcome ≡ copied
    → Copies source i db db' r.step
unfolding reuse_completed_step is_evidence
reuse_completed_step-Copies c call_id source i db db' r e g = all.at (db', r) e g
  where
    all :
        Ensures
          (λ p. p.1.outcome ≡ copied → Copies source i db p.0 p.1.step)
          (reuse_completed_step c.clock c.runs c.lease_token call_id source i db)
    all = Ensures-bind _ _ λ _ _. Ensures-bind _ _ λ _ _. Ensures-bind _ _ λ from f.
        Ensures-bind _ _ λ to t. Ensures-guard _ _ _ λ type. Ensures-guard _ _ _ λ ended.
          Ensures-guard _ _ _ λ under_way. record {
            at = λ p q o.
                let w = (reuse_from-OnCopy c.clock call_id source i db _ refl).at p q o in
                record {
                  from = from;
                  to = to;
                  step = w.step;
                  from_found = or_error-ok _ _ f;
                  to_found = or_error-ok _ _ t;
                  same_type = (eq_iff from.workflow_type to.workflow_type).0 type;
                  ended = ended;
                  under_way = under_way;
                  found = w.found;
                  complete = ground (arith, w.evidence);
                  tool = (eq_iff w.step.tool_name i.tool_name).0 (ground (arith, w.evidence));
                  input = (==_iff w.step.input_hash i.input_hash).0 (ground (arith, w.evidence));
                  no_action = w.no_action;
                  fresh = w.fresh;
                  row = w.row;
                  answered = w.answered;
                  written = w.written;
                  row_complete = w.row_complete;
                  row_result = w.row_result;
                  row_tool = w.row_tool;
                  row_input = w.row_input;
                  others = w.others;
                };
          }
