-- ===== src/Service/CallTool/Routing.antt =====
-- Which answers of `call_tool` are errors.
use scriptorium.Error.{Status, ok, Result-cases}
use scriptorium.World.{Io, pure}
use scriptorium.Tools.{
  tool_execute_shell, tool_deliver, tool_copy_workspace_sandbox_to_execution_sandbox,
  tool_copy_execution_sandbox_to_workspace_sandbox,
}
use scriptorium.Base.{
  ◌≡◌, false, ◌⊎◌, ◌≢◌, arith, ℕ, [], true, Bool-cases, inr, inl, ◌||◌, ap, ◌++◌, sym, ◌∙◌,
}
use scriptorium.FilePath.{FilePath}
use scriptorium.Service.{SandboxService}
use scriptorium.World.Calls.{Env, History}
use scriptorium.Text.{Text, text_eq, text_eq_iff, codes}
use scriptorium.Service.CallTool.{
  CallToolRequest, CallToolResponse, Serde, call_tool, respond, call_execute_shell, call_deliver,
  needs_host_bridge, failed,
}

-- An answer of a tool that ran, or of one that did not: then nothing was asked for.
abbrev pub Answers : Text → History → History → CallToolResponse → Type 0
Answers name h h' resp =
    (((name ≡ tool_execute_shell) ⊎ (name ≡ tool_deliver))
      × (resp.is_error ≡ false)
      × (resp.error_message ≡ []))
    ⊎ ((name ≢ tool_execute_shell)
        × (name ≢ tool_deliver)
        × (resp.is_error ≡ true)
        × (resp.result_json ≡ [])
        × (resp.error_message ≢ [])
        × (h' ≡ h))

respond_ok :
    (env : Env) (svc : SandboxService) (clean : FilePath → FilePath) (temp_dir : FilePath)
    (serde : Serde) (m : Io Status Text) (h h' : History) (resp : CallToolResponse)
    → respond env svc clean temp_dir serde m h ≡ (h', ok resp)
    → (resp.is_error ≡ false) × (resp.error_message ≡ [])
respond_ok env svc clean temp_dir serde m h h' resp e = elim (Result-cases (m h).1) [
  | inr (why, p) ↦ absurd (ground (arith, p, e))
  | inl (json, p) ↦ (ground (arith, p, e), ground (arith, p, e))
]

failed_answer :
    (name why : Text) (h h' : History) (resp : CallToolResponse)
    → name ≢ tool_execute_shell
    → name ≢ tool_deliver
    → why ≢ []
    → pure {E = Status} (failed why) h ≡ (h', ok resp)
    → Answers name h h' resp
failed_answer name why h h' resp not_shell not_deliver some_text e =
    let same : failed why ≡ resp = ground (arith, e) in
    inr (
      not_shell,
      not_deliver,
      ap (λ r. r.is_error) (sym same),
      ap (λ r. r.result_json) (sym same),
      λ blank. some_text (ap (λ r. r.error_message) same ∙ blank),
      ground (arith, e),
    )

text_neq : (s t : Text) → text_eq s t ≡ false → s ≢ t
text_neq s t e same = absurd (ground (arith, (text_eq_iff s t).1 same, e))

module _ (env : Env) (svc : SandboxService) (clean : FilePath → FilePath) (temp_dir : FilePath)
    (serde : Serde) where
  -- Where `call_tool` answers, the answer is an error exactly if the tool is neither `execute_shell`
  -- nor `deliver`. Then it holds a message and no result, and nothing was asked for: no permit, no
  -- container and no file. Else it holds no message.
  pub call_tool-Answers :
      (fuel : ℕ) (inner : CallToolRequest) (h h' : History) (resp : CallToolResponse)
      → call_tool env svc clean temp_dir serde fuel inner h ≡ (h', ok resp)
      → Answers inner.tool_name h h' resp
  unfolding call_tool
  call_tool-Answers fuel inner h h' resp e =
      elim (Bool-cases (text_eq inner.tool_name tool_execute_shell)) [
        | inl p ↦
            let (fine, silent) =
              respond_ok env svc clean temp_dir serde
                (call_execute_shell env svc clean temp_dir serde inner) h h' resp
                (ground (arith, p, e)) in
            inl (inl ((text_eq_iff inner.tool_name tool_execute_shell).0 p), fine, silent)
        | inr p ↦ elim (Bool-cases (text_eq inner.tool_name tool_deliver)) [
          | inl q ↦
              let (fine, silent) =
                respond_ok env svc clean temp_dir serde
                  (call_deliver env svc clean temp_dir serde fuel inner) h h' resp
                  (ground (arith, p, q, e)) in
              inl (inr ((text_eq_iff inner.tool_name tool_deliver).0 q), fine, silent)
          | inr q ↦
              let not_shell = text_neq inner.tool_name tool_execute_shell p in
              let not_deliver = text_neq inner.tool_name tool_deliver q in
              elim (Bool-cases (
                text_eq inner.tool_name tool_copy_workspace_sandbox_to_execution_sandbox
                || text_eq inner.tool_name tool_copy_execution_sandbox_to_workspace_sandbox)) [
                  | inl c ↦
                      failed_answer inner.tool_name (needs_host_bridge inner.tool_name) h h' resp
                        not_shell not_deliver (λ b. ground (arith, b)) (ground (arith, p, q, c, e))
                  | inr c ↦
                      failed_answer inner.tool_name (codes "unknown tool: " ++ inner.tool_name) h h'
                        resp not_shell not_deliver (λ b. ground (arith, b))
                        (ground (arith, p, q, c, e))
                ]
        ]
      ]
