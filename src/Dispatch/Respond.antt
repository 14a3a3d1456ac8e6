-- ===== src/Dispatch/Respond.antt =====
-- From what a handler returned, or raised, to the response.
pub mod Status
pub mod Body
use rayo.Base.{none, some, State, pure, ◌>>=◌, ◌>>◌, [], ◌==◌, if◌then◌else◌}
use rayo.Base.Text.{Text, utf8}
use rayo.Schema.Value.{Value, string}
use rayo.Schema.Write.{Written, wrote, failed, write_json}
use rayo.Dispatch.Types.{Object, HandlerResponse, internal_error, no_content, EventLoop}
use rayo.Dispatch.Python.{Python, json_error, encoding_error, handler_call, on_answer, print}

abbrev pub text_response : Text → HandlerResponse
text_response text = record {
  status = 200;
  content_type = "text/plain; charset=utf-8";
  body = utf8 text;
}

module _ {W : Type 0} (py : Python W) where
  unfoldable pub report_handler_error : Object → State (EventLoop W) HandlerResponse
  report_handler_error error = do print py error; pure internal_error

  -- The match on what `write_json` returned.
  unfoldable pub json_response : Written → State (EventLoop W) HandlerResponse
  unfolding report_handler_error
  json_response (wrote body) =
      pure (record { status = 200; content_type = "application/json"; body = body })
  json_response (failed e) = do error ← py.new_error (json_error e); report_handler_error error

  unfoldable pub respond_with : Value → State (EventLoop W) HandlerResponse
  unfolding report_handler_error json_response
  respond_with (string (some text)) = pure (text_response text)
  respond_with (string none) = do error ← py.new_error encoding_error; report_handler_error error
  respond_with value = json_response (write_json py.float_to_string value [])

  unfoldable pub response_from_return_value : Object → State (EventLoop W) HandlerResponse
  unfolding respond_with
  response_from_return_value value s =
      (if value == py.none_object
          then pure no_content
          else respond_with (py.read_value s.world value))
        s

  unfoldable pub execute_sync_handler : Object → Object → State (EventLoop W) HandlerResponse
  unfolding response_from_return_value report_handler_error
  execute_sync_handler handler handler_kwargs = do
    answer ← py.call (handler_call handler handler_kwargs)
    on_answer answer response_from_return_value report_handler_error
