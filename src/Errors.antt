-- ===== src/Errors.antt =====
-- The exceptions of the program, each with the text that it is raised with. A value that a text
-- shows (a number, a name) is left out of it.
use rdpflux.Prelude.{String, str_eq, if◌then◌else◌}
use rdpflux.Prelude.Result.{Result}

pub data Error : Type 0 where
  protocol_error : String → Error
  stream_closed : String → Error
  connection_error : String → Error
  runtime_error : String → Error
  value_error : String → Error
  buffer_error : String → Error
  framing_error : String → Error
  config_error : String → Error
  policy_denied : String → Error
  timeout_error : String → Error
  type_error : String → Error
  os_error : String → Error

abbrev pub Try {ℓ} : Type ℓ → Type ℓ
Try A = Result Error A

abbrev or_class : String → String → String
or_class name text = if str_eq text "" then name else text

-- `describe_exception` of rdpflux/mux.py: the text, or the class of an exception without one.
unfoldable pub describe_exception : Error → String
describe_exception (protocol_error t) = or_class "ProtocolError" t
describe_exception (stream_closed t) = or_class "StreamClosed" t
describe_exception (connection_error t) = or_class "ConnectionError" t
describe_exception (runtime_error t) = or_class "RuntimeError" t
describe_exception (value_error t) = or_class "ValueError" t
describe_exception (buffer_error t) = or_class "BufferError" t
describe_exception (framing_error t) = or_class "FramingError" t
describe_exception (config_error t) = or_class "ConfigError" t
describe_exception (policy_denied t) = or_class "PolicyDenied" t
describe_exception (timeout_error t) = or_class "TimeoutError" t
describe_exception (type_error t) = or_class "TypeError" t
describe_exception (os_error t) = or_class "OSError" t
