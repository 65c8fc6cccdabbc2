-- ===== src/Interleaving/Origins.antt =====
-- Which methods a handler may call: one that changes something is called for the command that it
-- belongs to, with that command's arguments.
use p2p_distributed_file_sha.Prelude.{
  ◌≡◌, refl, Bool, true, false, not, ◌&&◌, List, [], ◌∷◌, if◌then◌else◌, All,
}
use p2p_distributed_file_sha.Text.{Text, ◌==◌}
use p2p_distributed_file_sha.Map.{Map}
use p2p_distributed_file_sha.Address.{Address}
use p2p_distributed_file_sha.Commands.{State}
use p2p_distributed_file_sha.Commands.Calls as C
use p2p_distributed_file_sha.Commands.Calls.{Call}
use p2p_distributed_file_sha.Interleaving.{
  Method, Returned, Handler, returns, calls, register_user, login, logout, create_group,
  request_to_join, approve_request, leave_group, add_file, add_new_seeder, remove_seeder, perform,
}
use p2p_distributed_file_sha.Interleaving.Handlers.{
  any_live, extract_files, available_seeders, handler, create_user_handler, login_handler,
  logout_handler, create_group_handler, list_reply, list_group_handler, when_available,
  join_group_handler, list_request_handler, accept_request_handler, left_reply, leave_group_handler,
  when_access, upload_check, upload_file_handler, upload_data_handler, list_files_handler,
  send_record, download_reply, download_file_handler, update_file_handler, stop_share_handler,
}
use p2p_distributed_file_sha.Interleaving.Schedule.{
  Thread, Turn, here, there, Reached, boots, begins, turns,
}

-- All methods that the handler may come to call, whatever the calls before return.
unfoldable pub Every : (Method → Type 0) → Handler → Type 0
Every Q (returns reply success) = Unit
Every Q (calls m next) = Q m × ((value : Returned m) → Every Q (next value))

-- The method, if it changes anything, is called for this command.
abbrev pub IsFor : Call → Method → Type 0
IsFor c (register_user u p) = c ≡ C.create_user u p
IsFor c (login u p addr) = c ≡ C.login u p addr
IsFor c (logout u) = c ≡ C.logout u
IsFor c (create_group u n) = c ≡ C.create_group u n
IsFor c (request_to_join u n) = c ≡ C.join_group u n
IsFor c (approve_request o u n) = c ≡ C.accept_request o u n
IsFor c (leave_group u n) = c ≡ C.leave_group u n
IsFor c (add_file n f info) = (u : Text) × (c ≡ C.upload_data u n f info)
IsFor c (add_new_seeder n f u addr path) = c ≡ C.update_file u n f path addr
IsFor c (remove_seeder u n f) = c ≡ C.stop u n f
IsFor c _ = Unit

module _ (c : Call) where
  abbrev Own : Handler → Type 0
  Own = Every (IsFor c)

  if-Own : (b : Bool) (h k : Handler) → Own h → Own k → Own (if b then h else k)
  if-Own true h k x y = x
  if-Own false h k x y = y

  when_available-Own : (n : Text) (next : Handler) → Own next → Own (when_available n next)
  unfolding Every when_available
  when_available-Own n next x = (tt, λ available. if-Own (not available) _ _ tt x)

  when_access-Own : (u n : Text) (next : Handler) → Own next → Own (when_access u n next)
  unfolding Every when_access
  when_access-Own u n next x =
      (tt, λ member. if-Own member _ _ x (tt, λ owner. if-Own owner _ _ x tt))

  upload_check-Own : (u n f : Text) (next : Handler) → Own next → Own (upload_check u n f next)
  unfolding Every upload_check
  upload_check-Own u n f next x =
      when_available-Own n _ (when_access-Own u n _ (tt, λ exists. if-Own exists _ _ tt x))

  list_reply-Own : (none_left : Text) (lines : List Text) → Own (list_reply none_left lines)
  unfolding Every list_reply
  list_reply-Own none_left [] = tt
  list_reply-Own none_left (line ∷ lines) = tt

  any_live-Own :
      (seeders : Map Address) (next : Bool → Handler)
      → ((live : Bool) → Own (next live))
      → Own (any_live seeders next)
  unfolding Every any_live
  any_live-Own [] next x = x false
  any_live-Own ((u, addr) ∷ seeders) next x =
      (tt, λ live. if-Own live _ _ (x true) (any_live-Own seeders next x))

  extract_files-Own :
      (n : Text) (files : List Text) (next : List Text → Handler)
      → ((result : List Text) → Own (next result))
      → Own (extract_files n files next)
  unfolding Every extract_files
  extract_files-Own n [] next x = x []
  extract_files-Own n (f ∷ files) next x =
      (tt, λ seeders. any_live-Own seeders _ (λ live. extract_files-Own n files _ (λ result. x _)))

  available_seeders-Own :
      (seeders : Map Address) (next : Map Address → Handler)
      → ((available : Map Address) → Own (next available))
      → Own (available_seeders seeders next)
  unfolding Every available_seeders
  available_seeders-Own [] next x = x []
  available_seeders-Own ((u, addr) ∷ seeders) next x =
      (tt, λ live. available_seeders-Own seeders _ (λ available. x _))

  download_reply-Own : (u n f : Text) (files : List Text) → Own (download_reply u n f files)
  unfolding Every download_reply send_record
  download_reply-Own u n f [] = tt
  download_reply-Own u n f (file ∷ files) =
      (tt, λ info. available_seeders-Own info.seeder_users _ (λ available. tt))

pub handler-Every : (c : Call) → Every (IsFor c) (handler c)
unfolding Every handler create_user_handler login_handler logout_handler create_group_handler
    list_group_handler join_group_handler list_request_handler accept_request_handler
    leave_group_handler left_reply upload_file_handler upload_data_handler list_files_handler
    download_file_handler update_file_handler stop_share_handler
handler-Every (C.create_user u p) =
    (tt, λ known. if-Own _ known _ _ tt (refl, λ r. if-Own _ r _ _ tt tt))
handler-Every (C.login u p addr) = (
  tt,
  λ inside. if-Own _ inside _ _ tt (refl, λ a. if-Own _ a _ _ tt (tt, λ k. if-Own _ k _ _ tt tt)),
)
handler-Every (C.logout u) =
    (tt, λ inside. if-Own _ (not inside) _ _ tt (refl, λ d. if-Own _ d _ _ tt tt))
handler-Every (C.create_group u n) = (tt, λ a. if-Own _ a _ _ tt (refl, λ d. tt))
handler-Every C.list_group = (tt, λ names. list_reply-Own _ _ names)
handler-Every (C.join_group u n) =
    when_available-Own _ n _
      (tt, λ o. if-Own _ o _ _ tt (tt, λ m. if-Own _ m _ _ tt (refl, λ d. tt)))
handler-Every (C.list_request u n) =
    when_available-Own _ n _
      (tt, λ o. if-Own _ (not o) _ _ tt (tt, λ requests. list_reply-Own _ _ _))
handler-Every (C.accept_request o u n) = when_available-Own _ n _ (
  tt,
  λ b.
      if-Own _ (not b) _ _ tt
        (tt, λ m. if-Own _ m _ _ tt (tt, λ a. if-Own _ (not a) _ _ tt (refl, λ d. tt))),
)
handler-Every (C.leave_group u n) = when_available-Own _ n _ (
  tt,
  λ m. if-Own _ (not m) _ _ tt (
    tt,
    λ o. (
      refl,
      λ d. (tt, λ a. if-Own _ (not a) _ _ tt (tt, λ w. if-Own _ (o && not (w == [])) _ _ tt tt)),
    ),
  ),
)
handler-Every (C.upload_file u n f) = upload_check-Own _ u n f _ tt
handler-Every (C.upload_data u n f info) =
    upload_check-Own _ u n f _ ((u, refl), λ a. if-Own _ a _ _ tt tt)
handler-Every (C.list_files u n) = when_available-Own _ n _ (
    when_access-Own _ u n _
      (tt, λ files. extract_files-Own _ n files _ (λ result. list_reply-Own _ _ result)))
handler-Every (C.download_file u n f) = when_available-Own _ n _ (
  tt,
  λ m. if-Own _ (not m) _ _ tt (
    tt,
    λ e.
        if-Own _ (not e) _ _ tt
          (extract_files-Own _ n (f ∷ []) _ (λ files. download_reply-Own _ u n f files)),
  ),
)
handler-Every (C.update_file u n f path addr) =
    when_available-Own _ n _
      (when_access-Own _ u n _ (tt, λ e. if-Own _ (not e) _ _ tt (refl, λ d. if-Own _ d _ _ tt tt)))
handler-Every (C.stop u n f) =
    when_available-Own _ n _
      (when_access-Own _ u n _ (tt, λ e. if-Own _ (not e) _ _ tt (refl, λ d. if-Own _ d _ _ tt tt)))

module _ (P : Call → Type 0) where
  -- The thread runs a command of `P`, and calls what changes something for that command alone.
  abbrev pub Honest : Thread → Type 0
  Honest th = P th.call × Every (IsFor th.call) th.rest

  -- What a turn comes to.
  pub record Comes (s : State) (c : Call) (m : Method) (t : State) (us : List Thread) : Type 0 where
    pub to : t ≡ (perform s m).0
    pub permitted : P c
    pub own : IsFor c m
    pub honest : All Honest us

  pub Turn-Comes :
      {s t : State} {ts us : List Thread} {c : Call} {m : Method}
      → Turn s ts c m t us
      → All Honest ts
      → Comes s c m t us
  unfolding Every
  Turn-Comes {s} (here c m) h = record {
    to = refl;
    permitted = h.0.0;
    own = h.0.1.0;
    honest = ((h.0.0, h.0.1.1 (perform s m).1), h.1);
  }
  Turn-Comes (there other turn) h =
      let rest = Turn-Comes turn h.1 in
      record {
        to = rest.to;
        permitted = rest.permitted;
        own = rest.own;
        honest = (h.0, rest.honest);
      }

  pub Reached-Honest : {s : State} {ts : List Thread} → Reached P s ts → All Honest ts
  Reached-Honest boots = tt
  Reached-Honest (begins c p r) = ((p, handler-Every c), Reached-Honest r)
  Reached-Honest (turns r turn) = (Turn-Comes turn (Reached-Honest r)).honest
