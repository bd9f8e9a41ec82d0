-- ===== src/Mcp/Server/Http/Audit.antt =====
-- The audit record of a tool call over HTTP beside what the client reads.
use chamicore.Prelude.{
  ◌≤◌, ◌≡◌, refl, ◌⊎◌, inl, inr, Bool, false, List, [], ◌∷◌, Option, none, some, Result, ok, err,
  if◌then◌else◌,
}
use chamicore.Text.{Text, codes}
use chamicore.Text.Trim.{trim_space}
use chamicore.GoError.{GoError}
use chamicore.Mcp.Value.{Fields, end}
use chamicore.Mcp.Server.Contract.{ToolSpec}
use chamicore.Mcp.Server.Calls.{Server}
use chamicore.Mcp.Server.Results.{
  CallToolResult, tool_call_result_from_execution, tool_call_result_from_error,
  tool_error_status-bounds,
}
use chamicore.Mcp.Server.Http.{
  HttpRequest, Rejection, Admitted, parse_call_tool_request, ToolCallCompletion, completion,
  HttpResponse, problem, call_problem, responded, HttpCall, respond_result, respond_call, respond,
  handle_call_tool_http, admitted_completion,
}
use chamicore.Mcp.Server.Http.Stream.{
  SseEvent, accepted, result, done, StreamResponse, refused, streamed, StreamCall, Writes,
  done_event, send_result, stream_result, accept, stream, handle_call_tool_sse,
}

abbrev error_text_of : Bool → Text
error_text_of is_error = if is_error then codes "error" else codes "success"

-- A rejection is recorded as an error without a response code, and nothing was called; an error of
-- the caller as an error with the status of the response, from 400 to 599; a result as a success.
abbrev pub IsRecorded : HttpResponse → ToolCallCompletion → Option (Text × Option Fields) → Type 0
IsRecorded (problem status detail) audit called =
    (audit.result ≡ codes "error") × (audit.response_code ≡ 0) × (called ≡ none)
IsRecorded (call_problem status text) audit called =
    (audit.result ≡ codes "error")
    × (audit.response_code ≡ status)
    × (400 ≤ status)
    × (status ≤ 599)
IsRecorded (responded status res) audit called =
    (audit.result ≡ codes "success")
    × (audit.response_code ≡ status)
    × (status ≡ 200)
    × (res.is_error ≡ false)

respond_result-IsRecorded :
    (s : Server) (req : HttpRequest) (tool : ToolSpec) (audit : ToolCallCompletion)
    (r : Result GoError Fields) (called : Option (Text × Option Fields))
    → audit.result ≡ codes "error"
    → let p = respond_result s req tool audit r in IsRecorded p.0 p.1 called
unfolding tool_call_result_from_execution
respond_result-IsRecorded s req tool audit (ok payload) called h = (refl, refl, refl, refl)
respond_result-IsRecorded s req tool audit (err e) called h =
    let (low, high) = tool_error_status-bounds (req.status_code e) in (h, refl, low, high)

abbrev Recorded : HttpCall → Type 0
Recorded c = IsRecorded c.response c.audit c.called

respond_call-Recorded :
    (s : Server) (req : HttpRequest)
    (caller : Option (Text → Option Fields → Result GoError Fields)) (call : Admitted)
    → Recorded (respond_call s req caller call)
unfolding completion
respond_call-Recorded s req none call =
    respond_result-IsRecorded s req call.tool (admitted_completion s req (codes "http") call)
      (ok end) none refl
respond_call-Recorded s req (some caller) call =
    respond_result-IsRecorded s req call.tool (admitted_completion s req (codes "http") call)
      (caller call.tool.name call.params.arguments) (some (call.tool.name, call.params.arguments))
      refl

respond-Recorded :
    (s : Server) (req : HttpRequest) (r : Result Rejection Admitted) → Recorded (respond s req r)
unfolding completion
respond-Recorded s req (err x) = (refl, refl, refl)
respond-Recorded s req (ok call) = respond_call-Recorded s req s.caller call

-- A result is written at most once, behind the acceptance, and `done` only behind a result. The result
-- is marked as an error exactly where the audit record has no success. Without the acceptance the
-- caller was not called.
abbrev pub IsStream : List SseEvent → ToolCallCompletion → Option (Text × Option Fields) → Type 0
IsStream [] audit called = (audit.result ≡ codes "error") × (called ≡ none)
IsStream (accepted tool ∷ []) audit called = audit.result ≡ codes "error"
IsStream (accepted tool ∷ result res ∷ rest) audit called =
    ((rest ≡ []) ⊎ (rest ≡ done ∷ []))
    × (res.tool ≡ trim_space tool)
    × (audit.result ≡ error_text_of res.is_error)
IsStream _ audit called = ⊥

abbrev pub IsStreamed : StreamResponse → ToolCallCompletion → Option (Text × Option Fields) → Type 0
IsStreamed (refused status detail) audit called =
    (audit.result ≡ codes "error") × (audit.response_code ≡ 0) × (called ≡ none)
IsStreamed (streamed events) audit called = IsStream events audit called

done_event-cases : (o : Option GoError) → (done_event o ≡ []) ⊎ (done_event o ≡ done ∷ [])
done_event-cases none = inr refl
done_event-cases (some e) = inl refl

send_result-IsStream :
    (first second third : Option GoError) (tool : Text) (res : CallToolResult)
    (audit final : ToolCallCompletion) (called : Option (Text × Option Fields))
    → audit.result ≡ codes "error"
    → res.tool ≡ trim_space tool
    → final.result ≡ error_text_of res.is_error
    → let p =
        send_result
          (record { accepted = first; result = second; done = third })
          tool
          res
          audit
          final in
      IsStream p.0 p.1 called
send_result-IsStream first none third tool res audit final called h t f =
    (done_event-cases third, t, f)
send_result-IsStream first (some e) third tool res audit final called h t f = h

stream_result-IsStream :
    (s : Server) (req : HttpRequest) (writes : Writes) (tool : ToolSpec)
    (audit : ToolCallCompletion) (r : Result GoError Fields)
    (called : Option (Text × Option Fields))
    → audit.result ≡ codes "error"
    → let p = stream_result s req writes tool audit r in IsStream p.0 p.1 called
unfolding tool_call_result_from_execution tool_call_result_from_error
stream_result-IsStream s req writes tool audit (ok payload) called h =
    send_result-IsStream writes.accepted writes.result writes.done tool.name _ audit _ called h refl
      refl
stream_result-IsStream s req writes tool audit (err e) called h =
    send_result-IsStream writes.accepted writes.result writes.done tool.name _ audit _ called h refl
      h

abbrev Streamed : StreamCall → Type 0
Streamed c = IsStreamed c.response c.audit c.called

accept-Streamed :
    (s : Server) (req : HttpRequest) (writes : Writes) (call : Admitted)
    (audit : ToolCallCompletion) (caller : Option (Text → Option Fields → Result GoError Fields))
    (first : Option GoError)
    → audit.result ≡ codes "error"
    → Streamed (accept s req writes call audit caller first)
accept-Streamed s req writes call audit caller (some e) h = (h, refl)
accept-Streamed s req writes call audit none none h =
    stream_result-IsStream s req writes call.tool audit (ok end) none h
accept-Streamed s req writes call audit (some caller) none h =
    stream_result-IsStream s req writes call.tool audit
      (caller call.tool.name call.params.arguments) (some (call.tool.name, call.params.arguments)) h

stream-Streamed :
    (s : Server) (req : HttpRequest) (writes : Writes) (r : Result Rejection Admitted)
    → Streamed (stream s req writes r)
unfolding completion
stream-Streamed s req writes (err x) = (refl, refl, refl)
stream-Streamed s req writes (ok call) =
    accept-Streamed s req writes call (admitted_completion s req (codes "http-sse") call) s.caller
      writes.accepted refl

-- In every branch of a tool call over HTTP the audit record agrees with what the client reads. With
-- one response: a rejection is recorded as an error without a response code, and nothing was called;
-- an error of the caller as an error with the status of the response, from 400 to 599; a result as a
-- success with status 200. As a stream: the events are the acceptance, the result and the end, in this
-- order, up to the first that could not be written; a result that was written is marked as an error
-- exactly where the record has no success, a stream without a result is recorded as an error, and
-- without the acceptance the caller was not called.
pub call_tool_http-audit :
    (s : Server) (req : HttpRequest) (writes : Writes)
    → let plain = handle_call_tool_http s req in
      let sse = handle_call_tool_sse s req writes in
      IsRecorded plain.response plain.audit plain.called
      × IsStreamed sse.response sse.audit sse.called
unfolding handle_call_tool_http handle_call_tool_sse
call_tool_http-audit s req writes = (
  respond-Recorded s req (parse_call_tool_request s req),
  stream-Streamed s req writes (parse_call_tool_request s req),
)
