-- ===== src/Client/Seeding/Partial.antt =====
-- A `send` that takes a part of the bytes that `handle_client` has read.
use p2p_distributed_file_sha.Text.{Text}
use p2p_distributed_file_sha.Map
use p2p_distributed_file_sha.Client.ByteOrder.{ByteOrder}
