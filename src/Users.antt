-- ===== src/Users.antt =====
-- `UserManager` of tracker/managers/user_manager.cpp: the accounts and who is logged in.
-- Each method holds the manager's mutex from its first line to its last, so it is one step.
pub mod Sessions
use p2p_distributed_file_sha.Prelude.{Bool, true, false, Option, none, some, [], if◌then◌else◌}
use p2p_distributed_file_sha.Text.{Text, ◌==◌}
use p2p_distributed_file_sha.Map
use p2p_distributed_file_sha.Map.{Map}
use p2p_distributed_file_sha.Address.{Address}

pub record UserManager : Type 0 where
  pub users : Map Text
  pub logged_in : Map Address

abbrev pub empty : UserManager
empty = record { users = []; logged_in = [] }

unfoldable pub register_user : UserManager → Text → Text → UserManager × Bool
register_user um username password =
    if Map.contains username um.users
    then (um, false)
    else (record um { users = Map.put username password um.users }, true)

unfoldable pub is_user : UserManager → Text → Bool
is_user um username = Map.contains username um.users

-- The test of the password that is on record.
admit : UserManager → Text → Text → Address → Option Text → UserManager × Bool
admit um username password addr none = (um, false)
admit um username password addr (some known) =
    if known == password
    then (record um { logged_in = Map.put username addr um.logged_in }, true)
    else (um, false)

unfoldable pub login : UserManager → Text → Text → Address → UserManager × Bool
unfolding admit
login um username password addr = admit um username password addr (Map.get username um.users)

unfoldable pub logout : UserManager → Text → UserManager × Bool
logout um username = (record um { logged_in = Map.remove username um.logged_in }, true)

unfoldable pub is_logged_in : UserManager → Text → Bool
is_logged_in um username = Map.contains username um.logged_in

-- `none` where the method returns false and leaves its out parameter as it was.
unfoldable pub get_user_address : UserManager → Text → Option Address
get_user_address um username = Map.get username um.logged_in
