-- ===== src/Protobuf.antt =====
-- What the program uses of the ac_protobuf library (achelper/ac_protobuf.h, a git submodule):
-- its message type, as proto/*.pb.c builds and reads it, and its four functions as parameters.
mod Read
mod Laws
mod Sample
unfoldable pub use Read.*
pub use Laws.*
unfoldable pub use Sample.*
