-- ===== src/Dispatch/Respond/Status.antt =====
-- Which status a handler's return value gets.
use rayo.Base.{◌≡◌, refl, ap, ◌∙◌, none, some, [], ◌>>=◌, ◌==◌, if◌then◌else◌, Bool-cases, inl, inr}
use rayo.Schema.Value.{Value, null, boolean, integer, float, string, dict, list, tuple, other}
use rayo.Schema.Write.{Written, wrote, failed, write_json}
use rayo.Schema.Accepts.{is_json, is_wrote, write_json-accepts}
use rayo.Dispatch.Types.{Object, no_content, internal_error, EventLoop}
use rayo.Dispatch.Python.{Python}
use rayo.Dispatch.Respond.{
  report_handler_error, json_response, respond_with, response_from_return_value,
}

module _ {W : Type 0} (py : Python W) where
  json_response-status :
      (w : Written) (s : EventLoop W)
      → (json_response py w s).0.status ≡ (if is_wrote w then 200 else 500)
  unfolding json_response ◌>>=◌ report_handler_error internal_error
  json_response-status (wrote body) s = refl
  json_response-status (failed e) s = refl

  json_value-status :
      (v : Value) (s : EventLoop W)
      → (json_response py (write_json py.float_to_string v []) s).0.status
        ≡ (if is_json v then 200 else 500)
  json_value-status v s =
      json_response-status (write_json py.float_to_string v []) s
      ∙ ap (λ b. if b then 200 else 500) (write_json-accepts py.float_to_string v [])

  respond_with-status :
      (v : Value) (s : EventLoop W)
      → (respond_with py v s).0.status ≡ (if is_json v then 200 else 500)
  unfolding respond_with is_json ◌>>=◌ report_handler_error internal_error
  respond_with-status (string (some text)) s = refl
  respond_with-status (string none) s = refl
  respond_with-status null s = json_value-status null s
  respond_with-status (boolean b) s = json_value-status (boolean b) s
  respond_with-status (integer n) s = json_value-status (integer n) s
  respond_with-status (float bits) s = json_value-status (float bits) s
  respond_with-status (dict entries) s = json_value-status (dict entries) s
  respond_with-status (list items) s = json_value-status (list items) s
  respond_with-status (tuple items) s = json_value-status (tuple items) s
  respond_with-status other s = json_value-status other s

  -- A handler that returns `None` gives a 204, one that returns a text that encodes or a JSON-shaped
  -- value a 200, and any other a 500.
  pub response_from_return_value-status :
      (value : Object) (s : EventLoop W)
      → (response_from_return_value py value s).0.status ≡ (
          if value == py.none_object
          then 204
          else if is_json (py.read_value s.world value)
          then 200
          else 500)
  unfolding response_from_return_value no_content
  response_from_return_value-status value s = elim (Bool-cases (value == py.none_object)) [
    | inl e ↦ rw e refl
    | inr e ↦ rw e (respond_with-status (py.read_value s.world value) s)
  ]
