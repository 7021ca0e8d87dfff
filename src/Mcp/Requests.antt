-- ===== src/Mcp/Requests.antt =====
-- src/mcp.rs: the dispatch of a tool by its name, and the requests of JSON-RPC.
use shuttle_rs.Prelude.{
  ℕ, String, Option, none, some, List, [], ◌∷◌, ◌++◌, not, str_eq, if◌then◌else◌, and_then,
  unwrap_or, is_text, contains, false,
}
use shuttle_rs.Crates.{Crates}
use shuttle_rs.Core.{EventStore, Stamp, Result, ok, err, store, error_text, ok_or}
use shuttle_rs.Api.{schema_version, versioned_value, api_error}
use shuttle_rs.Workflow.Project.{StepsCodec}
use shuttle_rs.Mcp.Commands.{McpRuntime}
use shuttle_rs.Mcp.Answers.{Answer, McpCrates, Tool, Arm, after_check, dispatch}
use shuttle_rs.Mcp.Tools.{memory_arms, message_arms, task_arms, handoff_arms, collab_arms}
use shuttle_rs.Mcp.Workflows.{workflow_arms, repo_arms}

pub record Request (V : Type 0) : Type 0 where
  pub jsonrpc : Option String
  pub id : Option V
  pub method : String
  pub params : V

-- The names of the `match` of `structured_content`, by the key that the value is put under.
abbrev event_tools : List String
event_tools =
    "remember" ∷ "send" ∷ "shuttle_memory_store" ∷ "shuttle_message_send" ∷ "shuttle_task_create"
    ∷ "shuttle_task_claim" ∷ "shuttle_task_update" ∷ "shuttle_task_done" ∷ "shuttle_handoff_request"
    ∷ "shuttle_handoff_accept" ∷ "shuttle_handoff_done" ∷ "shuttle_workflow_start"
    ∷ "shuttle_workflow_step_claim" ∷ "shuttle_workflow_step_complete"
    ∷ "shuttle_workflow_step_fail" ∷ "shuttle_workflow_reconcile" ∷ "shuttle_workflow_complete"
    ∷ "shuttle_workflow_abort" ∷ []

abbrev collab_tools : List String
collab_tools =
    "shuttle_collab_start" ∷ "shuttle_collab_status" ∷ "shuttle_collab_nudge"
    ∷ "shuttle_collab_pass" ∷ []

abbrev events_tools : List String
events_tools =
    "recall" ∷ "inbox" ∷ "history" ∷ "shuttle_memory_search" ∷ "shuttle_message_inbox"
    ∷ "shuttle_message_history" ∷ []

module _ (c : Crates) where
  open c use {Value, null, text, negative, object, array, get, as_str, to_string}

  abbrev under : String → Value → Value
  under key value = object ((key, value) ∷ [])

  abbrev named_content : String → Value → Value
  named_content name value =
      if contains event_tools name
      then under "event" value
      else if contains collab_tools name
      then under "collab" value
      else if contains events_tools name
      then under "events" value
      else if contains ("tasks" ∷ "shuttle_task_list" ∷ []) name
      then under "tasks" value
      else if str_eq name "shuttle_handoff_list"
      then under "handoffs" value
      else if contains ("shuttle_workflow_list" ∷ "shuttle_workflow_status" ∷ []) name
      then under "workflow" value
      else value

  unfoldable pub structured_content : Option String → Value → Value
  structured_content none value = value
  structured_content (some name) value = named_content name value

  unfoldable pub ok_response : Value → Value → Value
  unfolding versioned_value
  ok_response id result =
      object (("jsonrpc", text "2.0") ∷ ("id", id) ∷ ("result", versioned_value c result) ∷ [])

  unfoldable pub error_response : Value → Value → String → Value
  unfolding api_error
  error_response id code message = object (
      ("jsonrpc", text "2.0")
      ∷ ("id", id)
      ∷ (
        "error",
        object (
            ("code", code)
            ∷ ("message", text message)
            ∷ ("data", api_error c "protocol_error" message false)
            ∷ []),
      )
      ∷ ("schema_version", text schema_version)
      ∷ [])

  -- The directory of the server and the stamps of its calls, with the arguments of the tools.
  module _ (m : McpCrates c) (codec : StepsCodec c) {S : Type 0} (s : EventStore S Value)
      (runtime : McpRuntime) (cwd : String) (stamps : ℕ → Stamp) where
    unfoldable pub arms : Value → List (Arm c s)
    unfolding memory_arms message_arms task_arms handoff_arms collab_arms workflow_arms repo_arms
    arms args =
        memory_arms c s runtime stamps args
        ++ message_arms c s runtime stamps args
        ++ task_arms c s runtime stamps args
        ++ handoff_arms c s runtime stamps args
        ++ collab_arms c s runtime stamps args
        ++ workflow_arms c m codec s runtime cwd stamps args
        ++ repo_arms c m codec s runtime cwd stamps args

    unfoldable pub call_tool : Value → Tool c s
    unfolding arms dispatch
    call_tool params =
        after_check c s
          (λ state. ok_or (and_then (get params "name") as_str) (store "missing tool name"))
          (λ name. dispatch c s name (arms (unwrap_or (get params "arguments") (object []))))

    abbrev pub responded : Value → Option String → Result (Answer Value) × S → Value × S
    responded id tool_name (err failure, state) =
        (error_response id (negative 32603) (error_text failure), state)
    responded id tool_name (ok answer, state) =
        let value = m.to_value answer in
        (
          ok_response id (
              object (
                (
                  "content",
                  array
                      (object (("type", text "text") ∷ ("text", text (to_string value)) ∷ []) ∷ []),
                )
                ∷ ("structuredContent", structured_content tool_name value)
                ∷ [])),
          state,
        )

    -- The descriptions of the tools, and the version of the program, are arguments.
    module _ (tools : Value) (version : String) where
      unfoldable pub handle_request : Request Value → S → Value × S
      unfolding ok_response error_response error_text call_tool structured_content
      handle_request request state =
          let id = unwrap_or request.id null in
          let called =
            responded id (and_then (get request.params "name") as_str)
              (call_tool request.params state) in
          if not (is_text request.jsonrpc "2.0")
          then (error_response id (negative 32600) "invalid jsonrpc version", state)
          else if str_eq request.method "initialize"
          then (
            ok_response id (
                object (
                  ("protocolVersion", text "2025-11-25")
                  ∷ ("capabilities", object (("tools", object []) ∷ []))
                  ∷ (
                    "serverInfo",
                    object (("name", text "shuttle-rs") ∷ ("version", text version) ∷ []),
                  )
                  ∷ [])),
            state,
          )
          else if str_eq request.method "notifications/initialized"
          then (object (("jsonrpc", text "2.0") ∷ []), state)
          else if str_eq request.method "tools/list"
          then (ok_response id (object (("tools", tools) ∷ [])), state)
          else if str_eq request.method "tools/call"
          then called
          else (error_response id (negative 32601) "method not found", state)
