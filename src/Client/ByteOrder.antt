-- ===== src/Client/ByteOrder.antt =====
-- `htonll` and `ntohll` of client/headers/client_skelton.cpp and tracker/managers/client_manager.cpp,
-- on a little-endian machine, over `htonl` and `ntohl` of the C library.
use p2p_distributed_file_sha.Prelude.{ℕ, ◌+◌, ◌*◌, ◌/◌, ◌%◌, ◌^◌, ◌<◌, ◌≡◌, arith}

-- The two calls of the library: they return 32 bits, and `ntohl` undoes `htonl`.
pub record ByteOrder : Type 0 where
  pub htonl : ℕ → ℕ
  pub ntohl : ℕ → ℕ
  pub htonl_fits : (v : ℕ) → htonl v < 2 ^ 32
  pub ntohl-htonl : (v : ℕ) → v < 2 ^ 32 → ntohl (htonl v) ≡ v

module _ (o : ByteOrder) where
  -- The low half, shifted up, and the high half have no bit in common: `|` is the sum.
  unfoldable pub htonll : ℕ → ℕ
  htonll v = o.htonl (v % 2 ^ 32) * 2 ^ 32 + o.htonl (v / 2 ^ 32)

  unfoldable pub ntohll : ℕ → ℕ
  ntohll v = o.ntohl (v % 2 ^ 32) * 2 ^ 32 + o.ntohl (v / 2 ^ 32)

  -- Every 64-bit length comes back from its network order.
  pub ntohll-htonll : (v : ℕ) → v < 2 ^ 64 → ntohll (htonll v) ≡ v
  unfolding ntohll htonll
  ntohll-htonll v h =
      let high = o.htonl (v % 2 ^ 32) in
      let low = o.htonl (v / 2 ^ 32) in
      let e : (high * 2 ^ 32 + low) % 2 ^ 32 ≡ low = omega (arith, o.htonl_fits (v / 2 ^ 32)) in
      let d : (high * 2 ^ 32 + low) / 2 ^ 32 ≡ high = omega (arith, o.htonl_fits (v / 2 ^ 32)) in
      rw (e, d)
        (omega (
          arith,
          o.ntohl-htonl (v / 2 ^ 32) (omega arith),
          o.ntohl-htonl (v % 2 ^ 32) (omega arith),
        ))
