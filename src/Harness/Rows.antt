-- ===== src/Harness/Rows.antt =====
-- The rows of the table tool_calls: what an update does to its own row and to the others, and which
-- calls leave the table alone.
use aegisops_ai.Base.{
  ◌≡◌, refl, ◌∙◌, inl, inr, true, false, Bool-cases, Option, none, some, arith, List, [], ◌∷◌, not,
  ◌==◌, find_first, find_first-In, is_some, ◌||◌,
}
use aegisops_ai.Shared.{Uid}
use aegisops_ai.Domain.ToolCall.{ToolCallRequest, Note, allowed, Params, validate}
use aegisops_ai.Domain.Execution.{Execution}
use aegisops_ai.Domain.Timeline.{EventType}
use aegisops_ai.Gates.Executor.{ToolInvocation}
use aegisops_ai.Harness.World.{World, Env, Topic, Failure}
use aegisops_ai.Harness.Steps.{
  ticked, row_of, overwrite, update_rows, update, Saved, saved, publish, timeline, save_execution,
  record_audit,
}
use aegisops_ai.Harness.Pipeline.{run_tool, after_execute, after_save}

pub row_of_id :
    (id : Uid) (rows : List ToolCallRequest) {row : ToolCallRequest}
    → row_of id rows ≡ some row
    → row.id ≡ id
unfolding row_of
row_of_id id rows {row} h =
    let found = find_first-In (λ (r : ToolCallRequest). r.id == id) rows {a = row} h in
    ground (arith, found.1)

-- An update of one row is not seen at another.
pub row_of-update_rows :
    (req : ToolCallRequest) (id : Uid) (rows : List ToolCallRequest)
    → (req.id == id) ≡ false
    → row_of id (update_rows req rows) ≡ row_of id rows
unfolding row_of find_first update_rows overwrite
row_of-update_rows req id [] h = refl
row_of-update_rows req id (row ∷ rows) h =
    let rest = row_of-update_rows req id rows h in ground arith

-- It is seen at its own.
row_of-updated :
    (req : ToolCallRequest) (rows : List ToolCallRequest)
    → is_some (row_of req.id rows) ≡ true
    → (row : ToolCallRequest) × (row_of req.id (update_rows req rows) ≡ some row)
      × (row.decision ≡ req.decision)
unfolding row_of find_first update_rows overwrite
row_of-updated req [] h = cc
row_of-updated req (row ∷ rows) h = elim (Bool-cases (row.id == req.id)) [
  | inl here ↦ (overwrite req row, rw (here, here) refl, rw here refl)
  | inr there ↦
      let rest = row_of-updated req rows (rw there at h) in
      (rest.0, rw (there, there) rest.1, rest.2)
]

-- The row of this request says that it was allowed.
pub record IsAllowed (id : Uid) (w : World) : Type 0 where
  pub row : ToolCallRequest
  pub stored : row_of id w.calls ≡ some row
  pub decided : row.decision ≡ allowed

module _ (env : Env) where
  -- An update that succeeds has stored the decision.
  pub update-IsAllowed :
      (req : ToolCallRequest) (w : World)
      → req.decision ≡ allowed
      → (update env req w).1 ≡ true
      → IsAllowed req.id (update env req w).0
  unfolding update
  update-IsAllowed req w d h = elim (Bool-cases (is_some (row_of req.id w.calls))) [
    | inl there ↦
        let stored = row_of-updated req w.calls there in
        elim (Bool-cases (
          is_some (validate req)
          || not (is_some (row_of req.id w.calls))
          || env.update_fails w.step)) [
            | inl failed ↦ cc (rw failed at h)
            | inr fine ↦
                rw fine (record { row = stored.0; stored = stored.1; decided = stored.2 ∙ d })
          ]
    | inr missing ↦ ground (arith, h)
  ]

  pub calls-publish :
      (req : ToolCallRequest) (topic : Topic) (w : World)
      → (publish env req topic w).calls ≡ w.calls
  unfolding publish
  calls-publish req topic w = ground arith

  pub calls-timeline :
      (req : ToolCallRequest) (type_of : EventType) (w : World)
      → (timeline env req type_of w).calls ≡ w.calls
  unfolding timeline
  calls-timeline req type_of w = ground arith

  pub calls-save_execution :
      (ex : Execution) (w : World) → (save_execution env ex w).0.calls ≡ w.calls
  unfolding save_execution
  calls-save_execution ex w = ground arith

  pub calls-record_audit :
      (req : ToolCallRequest) (ex : Option Execution) (reason : Note) (failure : Option Failure)
      (w : World)
      → (record_audit env req ex reason failure w).calls ≡ w.calls
  unfolding record_audit
  calls-record_audit req ex reason failure w = ground arith

  calls-after_save :
      (req : ToolCallRequest) (ex : Execution) (reason kept : Note) (s : Saved) (w : World)
      → (after_save env req ex reason kept s w).0.calls ≡ w.calls
  unfolding after_save
  calls-after_save req ex reason kept saved w = simp (calls-publish, calls-timeline)
  calls-after_save req ex reason kept _ w = refl

  calls-after_execute :
      (req : ToolCallRequest) (reason kept : Note) (made : Option (ToolInvocation × Execution))
      (w : World)
      → (after_execute env req reason kept made w).0.calls ≡ w.calls
  unfolding after_execute
  calls-after_execute req reason kept none w = refl
  calls-after_execute req reason kept (some (call, ex)) w =
      simp (calls-after_save, calls-save_execution)

  pub calls-run_tool :
      (req : ToolCallRequest) (params : Params) (reason kept : Note) (w : World)
      → (run_tool env req params reason kept w).0.calls ≡ w.calls
  unfolding run_tool
  calls-run_tool req params reason kept w =
      calls-after_execute req reason kept _ (ticked (ticked w))
