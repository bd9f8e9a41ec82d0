-- ===== src/Mcp/Server/Http/Stream.antt =====
-- The handler that `handleCallToolSSE` makes: the events of a stream, up to the first that could not
-- be written.
use chamicore.Prelude.{ℕ, List, [], ◌∷◌, Option, none, some, Result, ok, err}
use chamicore.Text.{Text, codes}
use chamicore.GoError.{GoError}
use chamicore.Mcp.Value.{Fields, end}
use chamicore.Mcp.Server.Contract.{ToolSpec}
use chamicore.Mcp.Server.Calls.{Server, resolved_mode}
use chamicore.Mcp.Server.Results.{
  tool_error_status, tool_error_message, CallToolResult, tool_call_result_from_execution,
  tool_call_result_from_error,
}
use chamicore.Mcp.Server.Http.{
  HttpRequest, RequestError, Rejection, Admitted, parse_call_tool_request, ToolCallCompletion,
  completion, admitted_completion, failed, unwritten, rejected, with_success, with_failure,
}

pub data SseEvent : Type 0 where
  accepted : (tool : Text) → SseEvent
  result : CallToolResult → SseEvent
  done : SseEvent

-- A rejected request has a problem response in place of a stream.
pub data StreamResponse : Type 0 where
  refused : (status : ℕ) → RequestError → StreamResponse
  streamed : List SseEvent → StreamResponse

pub record StreamCall : Type 0 where
  pub response : StreamResponse
  pub audit : ToolCallCompletion
  pub called : Option (Text × Option Fields)

-- What `writeSSEEvent` answers to the events of a call: the end of the context, or an error of the
-- encoder or of the connection.
pub record Writes : Type 0 where
  pub accepted : Option GoError
  pub result : Option GoError
  pub done : Option GoError

-- The audit record of a write that failed.
abbrev pub write_failed : ToolCallCompletion → GoError → ToolCallCompletion
write_failed audit e = with_failure audit 500 (unwritten e)

-- `_ = writeSSEEvent(..., "done", ...)`.
abbrev pub done_event : Option GoError → List SseEvent
done_event none = done ∷ []
done_event (some e) = []

-- The result event, and the audit record of a call whose result was written.
abbrev pub send_result :
    Writes
    → Text
    → CallToolResult
    → ToolCallCompletion
    → ToolCallCompletion
    → List SseEvent × ToolCallCompletion
send_result writes tool res audit final = elim writes.result [
  | some e ↦ (accepted tool ∷ [], write_failed audit e)
  | none ↦ (accepted tool ∷ result res ∷ done_event writes.done, final)
]

abbrev pub stream_result :
    Server
    → HttpRequest
    → Writes
    → ToolSpec
    → ToolCallCompletion
    → Result GoError Fields
    → List SseEvent × ToolCallCompletion
stream_result s req writes tool audit (ok payload) =
    send_result writes tool.name
      (tool_call_result_from_execution tool.name (resolved_mode s.authorizer) payload) audit
      (with_success audit)
stream_result s req writes tool audit (err e) =
    send_result writes tool.name
      (tool_call_result_from_error tool.name (resolved_mode s.authorizer) e (req.status_code e))
      audit
      (with_failure audit (tool_error_status (req.status_code e)) (failed (tool_error_message e)))

abbrev pub stream_of :
    List SseEvent × ToolCallCompletion → Option (Text × Option Fields) → StreamCall
stream_of (events, audit) called = record {
  response = streamed events;
  audit = audit;
  called = called;
}

-- After the event `accepted`.
abbrev pub stream_call :
    Server
    → HttpRequest
    → Writes
    → Admitted
    → ToolCallCompletion
    → Option (Text → Option Fields → Result GoError Fields)
    → StreamCall
stream_call s req writes call audit none =
    stream_of (stream_result s req writes call.tool audit (ok end)) none
stream_call s req writes call audit (some caller) =
    stream_of
      (stream_result s req writes call.tool audit (caller call.tool.name call.params.arguments))
      (some (call.tool.name, call.params.arguments))

abbrev pub accept :
    Server
    → HttpRequest
    → Writes
    → Admitted
    → ToolCallCompletion
    → Option (Text → Option Fields → Result GoError Fields)
    → Option GoError
    → StreamCall
accept s req writes call audit caller (some e) = stream_of ([], write_failed audit e) none
accept s req writes call audit caller none = stream_call s req writes call audit caller

abbrev pub stream : Server → HttpRequest → Writes → Result Rejection Admitted → StreamCall
stream s req writes (err r) = record {
  response = refused r.status r.detail;
  audit = record (completion s req (codes "http-sse") r.params r.principal) {
    error_detail = rejected r.detail;
  };
  called = none;
}
stream s req writes (ok call) =
    accept s req writes call (admitted_completion s req (codes "http-sse") call) s.caller
      writes.accepted

unfoldable pub handle_call_tool_sse : Server → HttpRequest → Writes → StreamCall
unfolding parse_call_tool_request completion tool_error_status tool_error_message
    tool_call_result_from_execution tool_call_result_from_error
handle_call_tool_sse s req writes = stream s req writes (parse_call_tool_request s req)
