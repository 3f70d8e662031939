-- ===== src/Proto.antt =====
-- The messages of request.proto and response.proto, one module to a file of proto/.
pub mod BlockRequest
pub mod ChunkDataRequest
pub mod ChunkDataResponse
pub mod ExitResponse
pub mod GetIpRequest
pub mod GetIpResponse
pub mod ImRequest
pub mod ImResponse
pub mod LogOutRequest
pub mod LoginRequest
pub mod MessageRequest
pub mod PrivateRegistrationResponse
pub mod RegisterChunkRequest
pub mod RegisterFileRequest
pub mod SearchFileRequest
pub mod TextResponse
pub mod UnBlockRequest
pub mod WhoElseRequest
