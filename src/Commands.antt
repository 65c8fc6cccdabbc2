-- ===== src/Commands.antt =====
-- `CommandManager` of tracker/managers/command_manager.cpp: the state that all sessions of a tracker
-- share, and what a command returns. The handlers are in the modules below.
pub mod Accounts
pub mod Membership
pub mod Sharing
pub mod Effects
pub mod Calls
pub mod Soundness
pub mod Invariant
pub mod Authority
pub mod Listings
pub mod Leftovers
use p2p_distributed_file_sha.Prelude.{Bool, true, false}
use p2p_distributed_file_sha.Text.{Text}
use p2p_distributed_file_sha.Users
use p2p_distributed_file_sha.Users.{UserManager}
use p2p_distributed_file_sha.Groups
use p2p_distributed_file_sha.Groups.{GroupManager}
use p2p_distributed_file_sha.Files
use p2p_distributed_file_sha.Files.{FileManager}

-- The managers that `um`, `gm` and `fm` point to.
pub record State : Type 0 where
  pub um : UserManager
  pub gm : GroupManager
  pub fm : FileManager

abbrev pub start : State
start = record { um = Users.empty; gm = Groups.empty; fm = Files.empty }

-- The state after a command, its `reply`, and the value that it returns.
pub record Outcome : Type 0 where
  pub state : State
  pub reply : Text
  pub success : Bool

abbrev pub fail : State → Text → Outcome
fail s reply = record { state = s; reply = reply; success = false }

abbrev pub succeed : State → Text → Outcome
succeed s reply = record { state = s; reply = reply; success = true }
