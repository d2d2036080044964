-- ===== src/Agent/Mirror.antt =====
-- The executor repeats the tools: what the owner approves is what the agent asked for.
use domesticoracle.Prelude.{ℕ, ◌≡◌, refl, ◌∙◌, ap, List, some, text_eq}
use domesticoracle.Python.{float_of, get}
use domesticoracle.Provenance.{Source}
use domesticoracle.Consent.{Store, Setup, Call, held, Answer, answer, request_action, resolve}
use domesticoracle.Consent.Held.{held_then_approved}
use domesticoracle.Agent.Executor.{Outside, execute, preview_of}
use domesticoracle.Agent.Tools.{
  Tool, control_device, make_purchase, send_message, send_email, reply_to_email, action_of, args_of,
  work_of, call_of,
}

module _ {W : Type 0} (st : Setup) (out : Outside W) where
  -- The executor, given the action and the arguments that a tool hands to the gate, does what the
  -- tool itself does where the gate lets it through: the same effect and the same outside after it.
  pub executor_runs_the_tool :
      (t : Tool) (w : W) → execute st.py out (action_of t) (args_of t) w ≡ work_of st out t w
  unfolding execute action_of args_of work_of get float_of preview_of
  executor_runs_the_tool (control_device device action) w = refl
  executor_runs_the_tool (make_purchase item amount vendor) w = refl
  executor_runs_the_tool (send_message recipient body) w = refl
  executor_runs_the_tool (send_email to subject body) w = refl
  executor_runs_the_tool (reply_to_email email_id body) w = refl

  -- A tool's request that is held does nothing to the outside, and when the owner approves it, the
  -- outside becomes what the tool itself would have made of it.
  pub held_tool_then_approved :
      (c : Call) (t : Tool) (sources : List Source) (now written : ℕ) (s s' : Store) (w w' : W)
      (a : Answer)
      → request_action st (call_of st out c t sources) (work_of st out t) s w ≡ (answer a, (s', w'))
      → a.status ≡ held
      → (w' ≡ w)
        × ((resolve st now written (some (execute st.py out)) c.approval_id "approve" s' w').1.1
            ≡ (work_of st out t w).1)
  unfolding call_of
  held_tool_then_approved c t sources now written s s' w w' a asked h =
      let (untouched, ran) =
        held_then_approved st (call_of st out c t sources) (work_of st out t) (execute st.py out)
          now written s s' w w' a asked h in
      (untouched, ran ∙ ap (λ (r : _). r.1) (executor_runs_the_tool t w))
