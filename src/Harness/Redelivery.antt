-- ===== src/Harness/Redelivery.antt =====
-- A delivery of an event may be repeated, and events may come in any order: what that does to the
-- number of times that a tool is called for a request.
use aegisops_ai.Base.{
  suc, ◌≤◌, ◌≡◌, refl, sym, ◌∙◌, inl, inr, true, false, Bool-cases, Option, none, some, arith, List,
  [], ◌∷◌, if◌then◌else◌, ap, ◌==◌, keep, length, subst,
}
use aegisops_ai.Shared.{Uid}
use aegisops_ai.Domain.ToolCall.{ToolCallRequest, terminal}
use aegisops_ai.Gates.Executor.{ToolInvocation, invocation_of}
use aegisops_ai.Harness.World.{World, Env, Result}
use aegisops_ai.Harness.Steps.{ticked, row_of, update, publish, timeline, save_execution}
use aegisops_ai.Harness.Pipeline.{audited, evaluate_request, gates, on_row, on_tool_requested}
use aegisops_ai.Harness.Rows.{
  row_of_id, row_of-update_rows, calls-publish, calls-timeline, calls-save_execution,
  calls-record_audit, IsAllowed,
}
use aegisops_ai.Harness.Authorised.{evaluate_request_runs}
use aegisops_ai.Harness.Frame.{Frame, gates-IsQuiet}

-- The calls made for one request.
unfoldable pub calls_for : Uid → List ToolInvocation → List ToolInvocation
unfolding keep
calls_for id calls = keep (λ c. c.tool_call_id == id) calls

-- The world after the events for these requests were handled, one after the other.
unfoldable pub deliver_all : Env → List Uid → World → World
deliver_all env [] w = w
deliver_all env (id ∷ rest) w = deliver_all env rest (on_tool_requested env id w).0

-- The row with this identifier carries a final decision.
pub record IsFinal (id : Uid) (w : World) : Type 0 where
  pub row : ToolCallRequest
  pub stored : row_of id w.calls ≡ some row
  pub final : terminal row.decision ≡ true

module _ (env : Env) where
  -- Handling one request is not seen in the row of another.
  row-Frame : (mine id : Uid) → (mine == id) ≡ false → Frame env mine (λ w. row_of id w.calls)
  unfolding update publish timeline save_execution
  row-Frame mine id h = record {
    ticks = λ w. refl;
    updates = λ req w i. update_kept req w (ground (arith, i, h));
    publishes = λ req topic w. ap (row_of id) (calls-publish env req topic w);
    records = λ req type_of w. ap (row_of id) (calls-timeline env req type_of w);
    saves = λ ex w. ap (row_of id) (calls-save_execution env ex w);
    invokes = λ call w. refl;
    caches_matrix = λ c w. refl;
    caches_policies = λ c w. refl;
  }
    where
      update_kept :
          (req : ToolCallRequest) (w : World)
          → (req.id == id) ≡ false
          → row_of id (update env req w).0.calls ≡ row_of id w.calls
      update_kept req w e = let kept = row_of-update_rows req id w.calls e in ground arith

  audited_row :
      (id : Uid) (out : World × Result)
      → row_of id (audited env out).0.calls ≡ row_of id out.0.calls
  unfolding audited
  audited_row id (w, res) = ap (row_of id) (calls-record_audit env _ _ _ _ w)

  evaluate_other :
      (req : ToolCallRequest) (id : Uid) (w : World)
      → (req.id == id) ≡ false
      → row_of id (evaluate_request env req w).0.calls ≡ row_of id w.calls
  unfolding evaluate_request
  evaluate_other req id w h = elim (Bool-cases (terminal req.decision)) [
    | inl final ↦ rw final refl
    | inr open_ ↦ rw open_ (
        audited_row id (gates env req w)
        ∙ (gates-IsQuiet env req.id (λ v. row_of id v.calls) (row-Frame req.id id h) req w
            refl).same)
  ]

  -- What one evaluation does to the calls for a request: none is added, or one is, to none where the
  -- row was final, and the row is final then.
  pub data Step (id : Uid) (before after : World) : Type 0 where
    quiet :
        calls_for id after.invoked ≡ calls_for id before.invoked
        → (IsFinal id before → IsFinal id after)
        → Step id before after
    ran :
        (call : ToolInvocation)
        → calls_for id after.invoked ≡ call ∷ calls_for id before.invoked
        → ¬ IsFinal id before
        → IsFinal id after
        → Step id before after

  final_row :
      (id : Uid) (w : World) {row : ToolCallRequest}
      → row_of id w.calls ≡ some row
      → IsFinal id w
      → terminal row.decision ≡ true
  final_row id w {row} h f =
      let same : f.row ≡ row = cc (f.stored, h) in
      ap (λ (r : ToolCallRequest). terminal r.decision) (sym same) ∙ f.final

  allowed-IsFinal : (id : Uid) (w : World) → IsAllowed id w → IsFinal id w
  unfolding terminal
  allowed-IsFinal id w a = record { row = a.row; stored = a.stored; final = rw a.decided refl }

  evaluate_final :
      (req : ToolCallRequest) (w : World)
      → terminal req.decision ≡ true
      → (evaluate_request env req w).0 ≡ w
  unfolding evaluate_request
  evaluate_final req w h = rw h refl

  calls_for_cons :
      (id : Uid) (call : ToolInvocation) (before after : List ToolInvocation)
      → after ≡ call ∷ before
      → (if call.tool_call_id == id
          then calls_for id after ≡ call ∷ calls_for id before
          else calls_for id after ≡ calls_for id before)
  unfolding calls_for keep
  calls_for_cons id call before after h = elim (Bool-cases (call.tool_call_id == id)) [
    | inl hit ↦ rw (hit, h, hit) refl
    | inr miss ↦ rw (miss, h, miss) refl
  ]

  evaluate_own-Step :
      (req : ToolCallRequest) (w : World)
      → row_of req.id w.calls ≡ some req
      → Step req.id w (evaluate_request env req w).0
  unfolding invocation_of
  evaluate_own-Step req w h = elim (evaluate_request_runs env req w) [
    | inl same ↦
        quiet (ap (calls_for req.id) same)
          (λ f. subst (IsFinal req.id) (sym (evaluate_final req w (final_row req.id w h f))) f)
    | inr (open_, (call, auth, r)) ↦
        let here : (req.id == req.id) ≡ true = ground arith in
        ran call
          (rw (ap (λ (c : ToolInvocation). c.tool_call_id == req.id) auth.as_checked ∙ here) at
            (calls_for_cons req.id call w.invoked (evaluate_request env req w).0.invoked r.added))
          (λ f. cc (open_, final_row req.id w h f))
          (allowed-IsFinal req.id (evaluate_request env req w).0 r.recorded)
  ]

  evaluate_other-Step :
      (req : ToolCallRequest) (id : Uid) (w : World)
      → (req.id == id) ≡ false
      → Step id w (evaluate_request env req w).0
  unfolding invocation_of
  evaluate_other-Step req id w h =
      let kept = evaluate_other req id w h in
      let still : IsFinal id w → IsFinal id (evaluate_request env req w).0 =
        λ f. record { row = f.row; stored = kept ∙ f.stored; final = f.final } in
      elim (evaluate_request_runs env req w) [
        | inl same ↦ quiet (ap (calls_for id) same) still
        | inr (open_, (call, auth, r)) ↦
            quiet
              (rw (ap (λ (c : ToolInvocation). c.tool_call_id == id) auth.as_checked ∙ h) at
                (calls_for_cons id call w.invoked (evaluate_request env req w).0.invoked r.added))
              still
      ]

  evaluate-Step :
      (req : ToolCallRequest) (id : Uid) (w : World)
      → row_of req.id w.calls ≡ some req
      → Step id w (evaluate_request env req w).0
  evaluate-Step req id w h = elim (Bool-cases (req.id == id)) [
    | inl own ↦
        let e : req.id ≡ id = ground arith in
        subst (λ i. Step i w (evaluate_request env req w).0) e (evaluate_own-Step req w h)
    | inr other ↦ evaluate_other-Step req id w other
  ]

  on_row-Step :
      (id mine : Uid) (o : Option ToolCallRequest) (w : World)
      → row_of mine w.calls ≡ o
      → Step id w (on_row env o w).0
  unfolding on_row
  on_row-Step id mine none w h = quiet refl (λ f. f)
  on_row-Step id mine (some req) w h =
      evaluate-Step req id w (ap (λ i. row_of i w.calls) (row_of_id mine w.calls h) ∙ h)

  deliver-Step : (id mine : Uid) (w : World) → Step id w (on_tool_requested env mine w).0
  unfolding on_tool_requested
  deliver-Step id mine w = elim (Bool-cases (env.get_fails w.step)) [
    | inl failed ↦
        rw failed (quiet refl (λ f. record { row = f.row; stored = f.stored; final = f.final }))
    | inr read ↦ rw read (later (on_row-Step id mine (row_of mine w.calls) (ticked w) refl))
  ]
    where
      later : {after : World} → Step id (ticked w) after → Step id w after
      later (quiet same kept) =
          quiet same (λ f. kept (record { row = f.row; stored = f.stored; final = f.final }))
      later (ran call more open_ final) =
          ran call more (λ f. open_ (record { row = f.row; stored = f.stored; final = f.final }))
            final

  -- A request whose row is final stays final.
  deliver_all_keeps :
      (id : Uid) (ids : List Uid) (w : World)
      → IsFinal id w
      → calls_for id (deliver_all env ids w).invoked ≡ calls_for id w.invoked
  unfolding deliver_all
  deliver_all_keeps id [] w f = refl
  deliver_all_keeps id (mine ∷ rest) w f = elim (deliver-Step id mine w) [
    | quiet same kept ↦ deliver_all_keeps id rest (on_tool_requested env mine w).0 (kept f) ∙ same
    | ran call more open_ final ↦ absurd (open_ f)
  ]

  -- However often the events of tool requests are handled one after another, in whatever order, and
  -- whatever reads and writes fail meanwhile, at most one call of a tool is added for any request.
  pub deliver_all_once :
      (id : Uid) (ids : List Uid) (w : World)
      → length (calls_for id (deliver_all env ids w).invoked)
        ≤ suc (length (calls_for id w.invoked))
  unfolding deliver_all
  deliver_all_once id [] w = omega arith
  deliver_all_once id (mine ∷ rest) w = elim (deliver-Step id mine w) [
    | quiet same kept ↦
        let more = deliver_all_once id rest (on_tool_requested env mine w).0 in rw (sym same) more
    | ran call more open_ final ↦
        let settled = deliver_all_keeps id rest (on_tool_requested env mine w).0 final in
        rw (settled, more) (omega arith)
  ]
