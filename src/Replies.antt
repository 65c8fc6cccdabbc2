-- ===== src/Replies.antt =====
-- The texts that tracker/managers/command_manager.cpp puts into `reply`.
use p2p_distributed_file_sha.Prelude.{List, [], ◌∷◌, ◌++◌}
use p2p_distributed_file_sha.Text.{Text, codes}

abbrev pub user_exists : Text
user_exists = codes "Username already exists. Please choose a different username.\n"

abbrev pub user_created : Text
user_created = codes "User created successfully. Please login now.\n"

abbrev pub user_not_created : Text
user_not_created = codes "Failed to create user due to unknown error.\n"

abbrev pub already_logged_in : Text
already_logged_in = codes "You are already logged in.\n"

abbrev pub login_successful : Text
login_successful = codes "Login successful.\n"

abbrev pub wrong_password : Text
wrong_password = codes "Your password is wrong.\n"

abbrev pub not_a_user : Text
not_a_user = codes "You are not a user. First call create_user command.\n"

abbrev pub not_logged_in : Text
not_logged_in = codes "You are not logged in.\n"

abbrev pub logout_successful : Text
logout_successful = codes "Logout successful.\n"

abbrev pub logout_unsuccessful : Text
logout_unsuccessful = codes "Logout try unsuccessful.\n"

abbrev pub group_registered_before : Text
group_registered_before = codes "Group id alredy registered.\n"

abbrev pub group_registered : Text → Text
group_registered group_id = codes "Group is registered as " ++ (group_id ++ codes ".\n")

abbrev pub no_group : Text
no_group = codes "No group available\n"

-- `reply = ""; for (auto s : result) reply = reply + s + "\n";`
unfoldable pub list_lines : List Text → Text
list_lines [] = []
list_lines (s ∷ result) = s ++ b'\n' ∷ list_lines result

abbrev pub group_not_available : Text → Text
group_not_available group_id = codes "Group name " ++ (group_id ++ codes " is not available.\n")

abbrev pub already_owner : Text → Text
already_owner group_id = codes "You are alredy owner of Group name is " ++ (group_id ++ codes ".\n")

abbrev pub already_member : Text → Text
already_member group_id =
    codes "You are alredy member of Group name is " ++ (group_id ++ codes ".\n")

abbrev pub join_placed : Text → Text
join_placed group_id =
    codes "Group name "
    ++ (group_id ++ codes " join request is placed wait until Owner accept it.\n")

abbrev pub not_owner : Text → Text
not_owner group_id = codes "You are not owner of Group name is " ++ (group_id ++ codes " .\n")

abbrev pub no_request : Text
no_request = codes "No request available\n"

abbrev pub is_member_before : Text → Text → Text
is_member_before requestedname group_id =
    requestedname ++ (codes " is alredy member of Group name is " ++ (group_id ++ codes " .\n"))

abbrev pub not_pending : Text → Text → Text
not_pending requestedname group_id =
    codes "There is not pendding request of "
    ++ (requestedname ++ (codes " in group " ++ (group_id ++ codes " .\n")))

abbrev pub request_accepted : Text → Text → Text
request_accepted requestedname group_id =
    codes "You are succesfully accepted request of "
    ++ (requestedname ++ (codes " in " ++ (group_id ++ codes ".\n")))

abbrev pub not_member : Text → Text
not_member group_id = codes "You are not member of Group name is " ++ (group_id ++ codes " .\n")

abbrev pub left_and_removed : Text → Text
left_and_removed group_id =
    codes "Group name "
    ++ (group_id ++ codes " is leaved by you and you are last so group removed\n")

abbrev pub left_with_owner : Text → Text → Text
left_with_owner group_id new_owner =
    codes "Group name "
    ++ (group_id ++ (codes " is leaved by you and new owner is user " ++ (new_owner ++ codes "\n")))

abbrev pub left_group : Text → Text
left_group group_id = codes "Group name " ++ (group_id ++ codes " is leaved by you.\n")

abbrev pub file_exists : Text → Text → Text
file_exists filename group_id =
    codes "File name "
    ++ (filename ++ (codes " is already exist in group " ++ (group_id ++ codes " .\n")))

abbrev pub send_all_data : Text
send_all_data = codes "send_all_data.\n"

abbrev pub file_added : Text → Text → Text
file_added filename group_id =
    codes "File name "
    ++ (filename ++ (codes " is successfully added in group " ++ (group_id ++ codes " .\n")))

abbrev pub file_not_added : Text → Text → Text
file_not_added filename group_id =
    codes "File name "
    ++ (filename
        ++ (codes " is not added in group " ++ (group_id ++ codes " because it already exists.\n")))

abbrev pub no_file : Text → Text
no_file group_id = codes "No file available in group " ++ (group_id ++ codes "\n")

abbrev pub file_missing : Text → Text → Text
file_missing filename group_id =
    codes "File name "
    ++ (filename ++ (codes " is not exist in group " ++ (group_id ++ codes " .\n")))

abbrev pub no_seeder : Text → Text → Text
no_seeder filename group_id =
    codes "File name "
    ++ (filename
        ++ (codes " is not available for download in group no seeder available "
            ++ (group_id ++ codes " .\n")))

-- The argument is the print of the file record.
abbrev pub file_data : Text → Text
file_data info = codes "file_data " ++ (info ++ codes "\n")

abbrev pub path_updated : Text → Text → Text
path_updated filename group_id =
    codes "File path for file name "
    ++ (filename ++ (codes " is successfully updated in group " ++ (group_id ++ codes " .\n")))

abbrev pub path_not_updated : Text → Text → Text
path_not_updated filename group_id =
    codes "Failed File path for file name "
    ++ (filename
        ++ (codes " is not updated in group "
            ++ (group_id ++ codes " because of unknown error.\n")))

abbrev pub share_stopped : Text → Text → Text
share_stopped filename group_id =
    codes "You are successfully stopped sharing file name "
    ++ (filename ++ (codes " in group " ++ (group_id ++ codes " .\n")))

abbrev pub share_not_stopped : Text → Text → Text
share_not_stopped filename group_id =
    codes "Failed to stop sharing file name "
    ++ (filename ++ (codes " in group " ++ (group_id ++ codes " because of unknown error.\n")))
