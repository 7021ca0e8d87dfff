-- ===== src/Mcp/Attribution.antt =====
-- Every request to the server of src/mcp.rs adds events under the name of the server, and nothing else.
use shuttle_rs.Prelude.{ℕ, String, Option, [], if_cases, not, str_eq, is_text, unwrap_or, and_then}
use shuttle_rs.Crates.{Crates}
use shuttle_rs.Core.{Stamp, Result, ok, err}
use shuttle_rs.Store.Tables.{Sqlite, Tables}
use shuttle_rs.Store.Events.{event_store}
use shuttle_rs.Workflow.Project.{StepsCodec}
use shuttle_rs.Mcp.Commands.{McpRuntime}
use shuttle_rs.Mcp.Answers.{Answer, McpCrates}
use shuttle_rs.Mcp.Requests.{Request, arms, call_tool, handle_request, responded}
use shuttle_rs.Mcp.Growth.{Grown, Grown-refl, after_check-Grows, dispatch-Grows}
use shuttle_rs.Mcp.Growing.{arms-AllGrow}

module _ (c : Crates) (q : Sqlite c) (runtime : McpRuntime) (stamps : ℕ → Stamp) (m : McpCrates c)
    (codec : StepsCodec c) (cwd : String) where
  open c use {Value, null, object, get, as_str}

  responded-Grown :
      (id : Value) (name : Option String) (tables : Tables Value)
      (called : Result (Answer Value) × Tables Value)
      → Grown c q runtime tables called.1
      → Grown c q runtime tables
          (responded c m codec (event_store c q) runtime cwd stamps id name called).1
  responded-Grown id name tables (ok answer, after) h = h
  responded-Grown id name tables (err failure, after) h = h

  call_tool-Grown :
      (params : Value) (tables : Tables Value)
      → Grown c q runtime tables
          (call_tool c m codec (event_store c q) runtime cwd stamps params tables).1
  unfolding call_tool
  call_tool-Grown params tables =
      let args = unwrap_or (get params "arguments") (object []) in
      (after_check-Grows c q runtime _ (λ name. record {
        grown =
            dispatch-Grows c q runtime name
              (arms c m codec (event_store c q) runtime cwd stamps args)
              (arms-AllGrow c q runtime stamps args m codec cwd).all_grow;
      })).grown
        tables

  -- Whatever a client asks of the server, and whatever comes of it, the events that the store holds
  -- stay as they are, and the events that are added carry the workspace, the agent and the session
  -- of the server.
  pub handle_request-Grown :
      (tools : Value) (version : String) (request : Request Value) (tables : Tables Value)
      → Grown c q runtime tables
          (handle_request c m codec
            (event_store c q)
            runtime
            cwd
            stamps
            tools
            version
            request
            tables).1
  unfolding handle_request
  handle_request-Grown tools version request tables =
      let P = λ (r : Value × Tables Value). Grown c q runtime tables r.1 in
      let same = Grown-refl c q runtime tables in
      let called =
        responded-Grown (unwrap_or request.id null) (and_then (get request.params "name") as_str)
          tables (call_tool c m codec (event_store c q) runtime cwd stamps request.params tables)
          (call_tool-Grown request.params tables) in
      if_cases P (not (is_text request.jsonrpc "2.0")) _ _ (λ _. same)
        (λ _.
          if_cases P (str_eq request.method "initialize") _ _ (λ _. same)
            (λ _.
              if_cases P (str_eq request.method "notifications/initialized") _ _ (λ _. same)
                (λ _.
                  if_cases P (str_eq request.method "tools/list") _ _ (λ _. same)
                    (λ _.
                      if_cases P (str_eq request.method "tools/call") _ _ (λ _. called)
                        (λ _. same)))))
