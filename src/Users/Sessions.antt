-- ===== src/Users/Sessions.antt =====
-- Who has an account and who is logged in after each method of `UserManager`.
use p2p_distributed_file_sha.Prelude.{
  ◌≡◌, Bool, true, false, not, ◌&&◌, ◌||◌, none, some, arith, if◌then◌else◌,
}
use p2p_distributed_file_sha.Text.{Text, ◌==◌, ==_iff}
use p2p_distributed_file_sha.Map
use p2p_distributed_file_sha.Map.{get-nil, get-put, get-remove}
use p2p_distributed_file_sha.Address.{Address}
use p2p_distributed_file_sha.Users.{
  UserManager, empty, register_user, is_user, login, logout, is_logged_in,
}

-- The password on record is this one.
unfoldable pub knows : UserManager → Text → Text → Bool
knows um user password = elim (Map.get user um.users) [
  | none ↦ false
  | some known ↦ known == password
]

module _ (um : UserManager) (user : Text) where
  -- A login is admitted exactly with the password that is on record.
  login_admits :
      (password : Text) (addr : Address) → (login um user password addr).1 ≡ knows um user password
  unfolding login knows
  login_admits password addr = ground arith

  -- After a login, the users logged in are those from before and, if the password is the one on
  -- record, the user of the login.
  is_logged_in-login :
      (password : Text) (addr : Address) (v : Text)
      → is_logged_in (login um user password addr).0 v
        ≡ ((knows um user password && user == v) || is_logged_in um v)
  unfolding login knows is_logged_in
  is_logged_in-login password addr v = ground (arith, get-put user v addr um.logged_in)

  pub is_logged_in-logout :
      (v : Text) → is_logged_in (logout um user).0 v ≡ (not (user == v) && is_logged_in um v)
  unfolding logout is_logged_in
  is_logged_in-logout v = ground (arith, get-remove user v um.logged_in)

  -- A registration of a name without an account puts its password on record; one of a name with an
  -- account, and every other name's record, stay as they were.
  knows-register_user :
      (password : Text) (v p : Text)
      → knows (register_user um user password).0 v p
        ≡ (if not (is_user um user) && user == v then password == p else knows um v p)
  unfolding register_user is_user knows
  knows-register_user password v p = ground (arith, get-put user v password um.users)

-- Whoever is logged in has an account.
abbrev pub Registered : UserManager → Type 0
Registered um = (user : Text) → is_logged_in um user ≡ true → is_user um user ≡ true

pub empty-Registered : Registered empty
unfolding is_logged_in
empty-Registered user h = ground (arith, get-nil {V = Address} user)

module _ (um : UserManager) (user : Text) (ok : Registered um) where
  pub register_user-Registered : (password : Text) → Registered (register_user um user password).0
  unfolding register_user is_user is_logged_in
  register_user-Registered password v = ground (arith, ok v, get-put user v password um.users)

  pub login-Registered :
      (password : Text) (addr : Address) → Registered (login um user password addr).0
  unfolding login is_user is_logged_in
  login-Registered password addr v =
      ground (arith, ok v, get-put user v addr um.logged_in, ==_iff user v)

  pub logout-Registered : Registered (logout um user).0
  unfolding logout is_user is_logged_in
  logout-Registered v = ground (arith, ok v, get-remove user v um.logged_in)
