-- ===== src/Client.antt =====
-- The client: client/headers/client_skelton.cpp and client/headers/client_utils.cpp.
pub mod ByteOrder
pub mod Pieces
pub mod Seeding
pub mod Fetching
pub mod Downloading
pub mod Uploading
pub mod Connecting
pub mod Commanding
pub mod Responses
