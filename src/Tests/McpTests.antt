-- ===== src/Tests/McpTests.antt =====
-- The theorems on src/mcp.rs at a store with one run of a workflow, and runs of its functions.
use shuttle_rs.Prelude.{◌≡◌, refl, none, some, [], ◌∷◌, false, inl, ◌&◌, length, arith}
use shuttle_rs.Core.{Event, ok, err, store, as_str, try_from}
use shuttle_rs.Store.Tables.{Tables, empty_tables, event_to_row, insert_event}
use shuttle_rs.Store.Lookup.{IsReadBack}
use shuttle_rs.Store.Events.{event_store, append, list_events}
use shuttle_rs.Prelude.Sorting.{sort_by}
use shuttle_rs.Prelude.Maps
use shuttle_rs.Workflow.Run.{WorkflowRun}
use shuttle_rs.Workflow.Project.{start_event, action_event, run_by_id}
use shuttle_rs.Workflow.Protocol.{Step}
use shuttle_rs.Mcp.Commands.{McpRuntime, claim_step, perform, string_arg}
use shuttle_rs.Mcp.Answers.{
  McpCrates, answering, after_check, storing, committing, store_event, dispatch,
}
use shuttle_rs.Mcp.Tools.{memory_arms}
use shuttle_rs.Mcp.Requests.{Request, arms, call_tool, handle_request}
use shuttle_rs.Mcp.Growth.{Grown}
use shuttle_rs.Mcp.Attribution.{handle_request-Grown}
use shuttle_rs.Context.{with_repo_metadata}
use shuttle_rs.Memory.Recall.{new_memory}
use shuttle_rs.Mcp.Refinement.{perform-Step}
use shuttle_rs.Tests.Sample.{Json, crates, codec}
use shuttle_rs.Tests.StoreTests.{sqlite, at}
use shuttle_rs.Tests.WorkflowTests.{triage}

abbrev runtime : McpRuntime
runtime = record {
  status = err (store "not a git repository");
  workspace_id = "ws";
  agent = "claude";
  session_id = "s";
}

abbrev start : Event Json
start = start_event crates (at 1) codec 1 "ws" "claude" "s" triage Json.null

abbrev claimed : Event Json
claimed =
    action_event crates (at 2) "ws" "claude" "s" 1 "claimed" (some "read")
      (some (crates.object (("takeover", crates.bool false) ∷ [])))

abbrev before : Tables Json
before = record {
  events = event_to_row start ∷ [];
  event_tags = (1, "workflow_run:x") ∷ (1, "workflow:started") ∷ [];
}

abbrev after : Tables Json
after = record {
  events = event_to_row start ∷ event_to_row claimed ∷ [];
  event_tags =
      (1, "workflow_run:x")
      ∷ (1, "workflow:started")
      ∷ (2, "workflow_run:x")
      ∷ (2, "workflow:claimed")
      ∷ [];
}

claim_performed :
    perform crates codec
      (event_store crates sqlite)
      runtime
      (at 2)
      1
      (claim_step "read" false)
      before
    ≡ ok (claimed, after)
unfolding perform list_events sort_by event_to_row as_str start_event try_from Maps.values
    Maps.insert append
claim_performed = refl

perform-Step_example :
    (r : WorkflowRun Json) × (r' : WorkflowRun Json) × (run_by_id crates codec
        (event_store crates sqlite)
        "ws"
        1
        before
      ≡ ok r)
    × Step crates r r'
    × (run_by_id crates codec (event_store crates sqlite) "ws" 1 after ≡ ok r')
unfolding event_to_row start_event IsReadBack action_event
perform-Step_example =
    perform-Step crates runtime (at 2) 1 codec sqlite (claim_step "read" false) before {e = claimed}
      {after = after} (omega arith, tt) (omega arith) (refl, refl) claim_performed

abbrev mcp_crates : McpCrates crates
mcp_crates = record {
  to_value = λ answer. Json.null;
  command = λ path args. inl "no git";
  disk = record {
    read_to_string = λ path. inl "no file";
    from_str = λ content. inl "no manifest";
    is_file = λ path. false;
    holds_file = λ repo path. false;
    join = λ repo name. repo & "/" & name;
    version_text = λ n. "";
  };
}

-- `tools/call` of `remember`
abbrev remember_request : Request Json
remember_request = record {
  jsonrpc = some "2.0";
  id = none;
  method = "tools/call";
  params = crates.object (
      ("name", crates.text "remember")
      ∷ ("arguments", crates.object (("content", crates.text "use sqlite") ∷ []))
      ∷ []);
}

stored_by_remember :
    length
      (handle_request crates mcp_crates codec
        (event_store crates sqlite)
        runtime
        "/repo"
        at
        Json.null
        "1"
        remember_request
        empty_tables).1.events
    ≡ 1
unfolding handle_request call_tool dispatch arms memory_arms after_check storing committing
    answering store_event with_repo_metadata new_memory string_arg append insert_event event_to_row
    as_str
stored_by_remember = refl

handle_request-Grown_example :
    Grown crates sqlite runtime empty_tables
      (handle_request crates mcp_crates codec
        (event_store crates sqlite)
        runtime
        "/repo"
        at
        Json.null
        "1"
        remember_request
        empty_tables).1
handle_request-Grown_example =
    handle_request-Grown crates sqlite runtime at mcp_crates codec "/repo" Json.null "1"
      remember_request empty_tables
