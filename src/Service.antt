-- ===== src/Service.antt =====
-- The tracker at work, `Tracker::handle_client` of tracker/headers/tracker_sckelton.cpp: sessions of
-- clients and messages of other trackers, in any order, on one shared state.
pub mod Soundness
pub mod Impersonation
pub mod Authority
pub mod Accepting
use p2p_distributed_file_sha.Prelude.{◌≡◌, Bool}
use p2p_distributed_file_sha.Text.{Text}
use p2p_distributed_file_sha.Result.{ok}
use p2p_distributed_file_sha.Sync.{sync_handler}
use p2p_distributed_file_sha.Commands.{State, start}
use p2p_distributed_file_sha.Session.{Phase, Session, Input, Round}
use p2p_distributed_file_sha.Session.Step.{step}

-- The states that the tracker comes to: each step is a round of some client's session or the
-- message of a peer. Nothing is assumed of the sessions, so every order of their rounds is covered.
pub data Served : State → Type 0 where
  begins : Served start
  serves :
      {s : State} (phase : Phase) (c : Session) (input : Input) (r : Round)
      → Served s
      → step phase c s input ≡ ok r
      → Served r.state
  syncs :
      {s : State} (cmd : Text) (t : State) (done : Bool)
      → Served s
      → sync_handler s cmd ≡ ok (t, done)
      → Served t
