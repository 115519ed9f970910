-- ===== src/Client/Errors.antt =====
-- errors.py: the exception that a caller gets for an error reply of a worker.
use pilot_langgraph.Prelude.{◌≡◌, refl, true, String, str_eq, if◌then◌else◌}
use pilot_langgraph.Json.{Json, str, get, get?, or_else, truthy}
use pilot_langgraph.Server.Types.{
  Message, ErrorType, handler_not_found, unauthorized, rate_limited, handler_error, type_name,
  failure, frame_json,
}

-- The classes, with the class attribute `error_type` of each.
pub data ErrorClass : Type 0 where
  remote_error : ErrorClass
  handler_not_found_error : ErrorClass
  unauthorized_error : ErrorClass
  handler_exception_error : ErrorClass
  rate_limit_error : ErrorClass

unfoldable pub error_type : ErrorClass → String
error_type remote_error = "remote_error"
error_type handler_not_found_error = "handler_not_found"
error_type unauthorized_error = "unauthorized"
error_type handler_exception_error = "handler_error"
error_type rate_limit_error = "rate_limited"

-- `_ERROR_TYPE_MAP.get(err_type, PilotRemoteError)`; a value that is no text is no key.
unfoldable pub class_of : Json → ErrorClass
class_of (str s) =
    if str_eq s "handler_not_found"
    then handler_not_found_error
    else if str_eq s "unauthorized"
    then unauthorized_error
    else if str_eq s "handler_error"
    then handler_exception_error
    else if str_eq s "rate_limited"
    then rate_limit_error
    else remote_error
class_of _ = remote_error

pub record RemoteError : Type 0 where
  pub cls : ErrorClass
  pub message : Json

unfoldable pub from_reply : Json → RemoteError
from_reply reply = record {
  cls = class_of (or_else (get "error_type" reply) (str "remote_error"));
  message = or_else (get "error" reply) (str "remote error");
}

-- Every error frame of a server whose text is not empty becomes the exception whose class attribute
-- is the frame's error type, with the frame's text.
pub from_reply-failure :
    (render : Message → String) (t : ErrorType) (m : Message)
    → truthy (str (render m)) ≡ true
    → (error_type (from_reply (frame_json render (failure t m))).cls ≡ type_name t)
      × ((from_reply (frame_json render (failure t m))).message ≡ str (render m))
unfolding from_reply class_of error_type frame_json type_name get get? or_else
from_reply-failure render handler_not_found m h = rw h (refl, refl)
from_reply-failure render unauthorized m h = rw h (refl, refl)
from_reply-failure render rate_limited m h = rw h (refl, refl)
from_reply-failure render handler_error m h = rw h (refl, refl)
