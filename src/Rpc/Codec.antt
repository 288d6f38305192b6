-- ===== src/Rpc/Codec.antt =====
-- What is not this repository's code: the protobuf messages of proto/message.proto, and the services
-- that a server registers. Messages are parsed from bytes and serialized to bytes.
pub mod Contract
use Prim.Native.String.{String}
use xuanqiong.Base.{ℕ, List, Option}
use xuanqiong.Util.Input.{InputBuffer}
use xuanqiong.Util.Output.{OutputBuffer}

-- MAGIC_NUM and VERSION of util/common.h.
abbrev pub magic_num : ℕ
magic_num = 0x30F8CA9B

abbrev pub version_num : ℕ
version_num = 1

-- `MessageType` and `Header` of proto/message.proto; a version is not negative here, since no
-- negative one is sent or accepted.
pub data MessageType : Type 0 where
  unspecified request response : MessageType

pub record Header : Type 0 where
  pub magic : ℕ
  pub version : ℕ
  pub message_type : MessageType
  pub request_id : ℕ
  pub service_name : String
  pub method_name : String

-- The protobuf runtime. `ParseFromZeroCopyStream` and `SerializeToZeroCopyStream` in two parts: what
-- they do to the stream (the bytes read, for a parser that succeeds, and the bytes of a message
-- written; `none` where they do not return), and what the bytes of a header mean. A message has as
-- many bytes as `ByteSizeLong` says.
pub record Codec : Type 0 where
  pub parse_header : List ℕ → Option Header
  pub print_header : Header → List ℕ
  pub read_stream : InputBuffer → Option (List ℕ × InputBuffer)
  pub write_stream : OutputBuffer → List ℕ → Option OutputBuffer

-- The registered services: a service by its name, a method of it by its name, and what a method
-- makes of a request's bytes: the response's bytes, or nothing where they are no request.
pub record Services : Type 0 where
  pub find_service : String → Option ℕ
  pub find_method : ℕ → String → Option ℕ
  pub serve : ℕ → List ℕ → Option (List ℕ)
