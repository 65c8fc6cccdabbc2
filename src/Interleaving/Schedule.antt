-- ===== src/Interleaving/Schedule.antt =====
-- Handlers that run at the same time: any number of them, one call of a method at a time, in any
-- order. `CommandManager` has no lock of its own, and a session calls it from a thread of the pool.
use p2p_distributed_file_sha.Prelude.{List, [], ◌∷◌}
use p2p_distributed_file_sha.Commands.{State, start}
use p2p_distributed_file_sha.Commands.Calls.{Call}
use p2p_distributed_file_sha.Interleaving.{Method, Returned, perform, Handler, calls}
use p2p_distributed_file_sha.Interleaving.Handlers.{handler}

-- A command that some session gave, and what its handler has still to do.
pub record Thread : Type 0 where
  pub call : Call
  pub rest : Handler

abbrev pub thread : Call → Thread
thread c = record { call = c; rest = handler c }

-- One of the threads, which carries out this command, calls this method.
pub data Turn (s : State) : List Thread → Call → Method → State → List Thread → Type 0 where
  here :
      {ts : List Thread} (c : Call) (m : Method) {next : Returned m → Handler}
      → Turn s
          (record { call = c; rest = calls m next } ∷ ts)
          c
          m
          (perform s m).0
          (record { call = c; rest = next (perform s m).1 } ∷ ts)
  there :
      {ts us : List Thread} {c : Call} {m : Method} {t : State} (other : Thread)
      → Turn s ts c m t us
      → Turn s (other ∷ ts) c m t (other ∷ us)

-- The states that a tracker comes to, with the threads that run then. Every command is one of `P`.
pub data Reached (P : Call → Type 0) : State → List Thread → Type 0 where
  boots : Reached P start []
  begins :
      {s : State} {ts : List Thread} (c : Call) → P c → Reached P s ts → Reached P s (thread c ∷ ts)
  turns :
      {s t : State} {ts us : List Thread} {c : Call} {m : Method}
      → Reached P s ts
      → Turn s ts c m t us
      → Reached P t us
