-- ===== src/Proto/LogOutRequest.antt =====
-- proto/LogOutRequest.pb.h and proto/LogOutRequest.pb.c. The message has no field.
use epoll_chat.Common.{[], Option, some}
use epoll_chat.Protobuf.{Message}

pub record LogOutRequest : Type 0 where

-- encodeLogOutRequestToProtobufMsg
unfoldable pub to_msg : LogOutRequest → Message
to_msg r = []

-- parseLogOutRequestFromProtobufMsg, which reads nothing of the message
unfoldable pub of_msg : Option Message → Option LogOutRequest
of_msg m = some (record {})
