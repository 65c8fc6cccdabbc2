-- ===== src/Service/Soundness.antt =====
-- Accounts and groups in the states that the tracker comes to.
use p2p_distributed_file_sha.Prelude.{sym, subst, inl, inr}
use p2p_distributed_file_sha.Sync.Calls.{ByCall, Then, sync_handler-ByCall}
use p2p_distributed_file_sha.Commands.{State}
use p2p_distributed_file_sha.Commands.Soundness.{IsSound, start-IsSound, execute-IsSound}
use p2p_distributed_file_sha.Session.Calls.{After, step-ByCall}
use p2p_distributed_file_sha.Service.{Served, begins, serves, syncs}

ByCall-IsSound : (s t : State) → IsSound s → ByCall s t → IsSound t
ByCall-IsSound s t h (inl e) = subst IsSound (sym e) h
ByCall-IsSound s t h (inr (k, e)) = subst IsSound (sym e) (execute-IsSound s h k)

-- Whatever clients and other trackers send, and in whatever order their rounds come: whoever is
-- logged in has an account, every group has its owner among its members, lists no member twice and
-- has no member waiting, and the index of owners says of each group exactly who owns it.
pub Served-IsSound : (s : State) → Served s → IsSound s
Served-IsSound s begins = start-IsSound
Served-IsSound s (serves {s = t} phase c input r h e) =
    ByCall-IsSound t r.state (Served-IsSound t h)
      (subst (After (ByCall t)) e (step-ByCall phase c t input))
Served-IsSound s (syncs {s = t} cmd u done h e) =
    ByCall-IsSound t u (Served-IsSound t h) (subst (Then (ByCall t)) e (sync_handler-ByCall t cmd))
