-- ===== src/Result.antt =====
-- What a handler of messages comes to: a value, or a fault of the process.
pub data Fault : Type 0 where
  -- an exception that nothing catches: `std::terminate`
  uncaught_exception : Fault
  -- `tokens[i]` with no such token: undefined behaviour
  out_of_range : Fault
  -- input that the handler does not wait for
  unexpected_input : Fault

pub data Result {ℓ} (A : Type ℓ) : Type ℓ where
  ok : A → Result A
  fault : Fault → Result A
