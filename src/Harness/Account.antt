-- ===== src/Harness/Account.antt =====
-- One entry of the ledger for one evaluation.
use aegisops_ai.Base.{
  ◌≡◌, refl, ◌∙◌, ◌⊎◌, inl, inr, true, false, Bool-cases, Option, arith, List, [], ◌∷◌, ◌++◌, subst,
}
use aegisops_ai.Shared.{Uid}
use aegisops_ai.Domain.ToolCall.{ToolCallRequest, Note, terminal}
use aegisops_ai.Domain.Execution.{Execution}
use aegisops_ai.Harness.World.{World, Env, Failure, Result, LedgerEntry}
use aegisops_ai.Harness.Steps.{
  update, publish, timeline, save_execution, record_audit, entry_of, outcome_for,
}
use aegisops_ai.Harness.Pipeline.{gates, audited, evaluate_request}
use aegisops_ai.Harness.Frame.{Frame, IsQuiet, gates-IsQuiet}

-- What the ledger holds, and what it should hold and does not.
abbrev pub books : World → List LedgerEntry × List LedgerEntry
books w = (w.ledger, w.lost)

module _ (env : Env) where
  -- Only the deferred write reaches the ledger.
  books-Frame : (id : Uid) → Frame env id books
  unfolding update publish timeline save_execution
  books-Frame id = record {
    ticks = λ w. refl;
    updates = λ req w i. ground arith;
    publishes = λ req topic w. ground arith;
    records = λ req type_of w. ground arith;
    saves = λ ex w. ground arith;
    invokes = λ call w. refl;
    caches_matrix = λ c w. refl;
    caches_policies = λ c w. refl;
  }

  -- The entry that accounts for what a handler returned.
  pub record Accounts (res : Result) (e : LedgerEntry) : Type 0 where
    pub of_call : e.tool_call_id ≡ res.request.id
    pub of_agent : e.actor_id ≡ res.request.agent_id
    pub outcome_told : e.outcome ≡ outcome_for res.request res.execution res.failure
    pub execution_told : e.execution ≡ res.execution

  entry_of-Accounts :
      (res : Result) (w : World)
      → Accounts res (entry_of env res.request res.execution res.reason res.failure w)
  unfolding entry_of
  entry_of-Accounts res w = record {
    of_call = refl;
    of_agent = refl;
    outcome_told = refl;
    execution_told = refl;
  }

  -- One more entry, in the ledger or among those that the log reports.
  abbrev pub OneMore : World → World → LedgerEntry → Type 0
  OneMore w w' e =
      (books w' ≡ (w.ledger ++ e ∷ [], w.lost)) ⊎ (books w' ≡ (w.ledger, w.lost ++ e ∷ []))

  record_audit-OneMore :
      (req : ToolCallRequest) (ex : Option Execution) (reason : Note) (failure : Option Failure)
      (w : World)
      → env.has_audit ≡ true
      → OneMore w (record_audit env req ex reason failure w) (entry_of env req ex reason failure w)
  unfolding record_audit
  record_audit-OneMore req ex reason failure w h = elim (Bool-cases (env.append_fails w.step)) [
    | inl lost ↦ rw (h, lost) (inr refl)
    | inr kept ↦ rw (h, kept) (inl refl)
  ]

  append_one :
      (id : Uid) (w : World) (out : World × Result)
      → env.has_audit ≡ true
      → IsQuiet books id w out
      → (e : LedgerEntry) × Accounts (audited env out).1 e
        × (e.tool_call_id ≡ id)
        × OneMore w (audited env out).0 e
  unfolding audited
  append_one id w (w', res) h q = (
    entry_of env res.request res.execution res.reason res.failure w',
    entry_of-Accounts res w',
    (entry_of-Accounts res w').of_call ∙ q.same_id,
    subst
        (λ b.
          (books (record_audit env res.request res.execution res.reason res.failure w')
            ≡ (b.0 ++ entry_of env res.request res.execution res.reason res.failure w' ∷ [], b.1))
          ⊎ (books (record_audit env res.request res.execution res.reason res.failure w') ≡ (
            b.0,
            b.1 ++ entry_of env res.request res.execution res.reason res.failure w' ∷ [],
          )))
        q.same (record_audit-OneMore res.request res.execution res.reason res.failure w' h),
  )

  -- With a ledger, Evaluate on a request without a final decision accounts for what it returns,
  -- whether that is a refusal, a parked request, an execution or an error: exactly one entry, for
  -- that request, with the outcome and the execution of the result, is added at the end of the
  -- ledger, or, when its write fails, of the entries that the log reports as lost.
  pub evaluate_request-Accounts :
      (req : ToolCallRequest) (w : World)
      → env.has_audit ≡ true
      → terminal req.decision ≡ false
      → (e : LedgerEntry) × Accounts (evaluate_request env req w).1 e
        × (e.tool_call_id ≡ req.id)
        × OneMore w (evaluate_request env req w).0 e
  unfolding evaluate_request
  evaluate_request-Accounts req w h open_ = rw open_ (
      append_one req.id w (gates env req w) h
        (gates-IsQuiet env req.id books (books-Frame req.id) req w refl))
