-- ===== src/Session/Step.antt =====
-- One round of a session of `ClientManager`, whatever its phase and its input.
use p2p_distributed_file_sha.Prelude.{false, []}
use p2p_distributed_file_sha.Address.{Address}
use p2p_distributed_file_sha.Result.{Result, ok, fault, unexpected_input}
use p2p_distributed_file_sha.Commands.{State}
use p2p_distributed_file_sha.Session.{
  Phase, authenticating, commanding, awaiting_data, Session, Input, line, disconnected, counted,
  Round,
}
use p2p_distributed_file_sha.Session.Authenticating.{leave, login_line}
use p2p_distributed_file_sha.Session.Commanding.{command_line, upload_data}

-- The constructor of `ClientManager`: a session before its first message.
unfoldable pub open_session : Address → State → Round
open_session addr s = record {
  phase = authenticating;
  session = record {
    client_address = addr;
    logged_in = false;
    username = [];
    socket_closed = false;
  };
  state = s;
  actions = [];
}

unfoldable pub step : Phase → Session → State → Input → Result Round
step authenticating c s (line raw) = ok (login_line s c raw)
step authenticating c s disconnected = ok (leave s c)
step commanding c s (line raw) = command_line s c raw
step commanding c s disconnected = ok (leave s c)
step (awaiting_data group_id file_name) c s (counted payload) =
    upload_data s c group_id file_name payload
step phase c s input = fault unexpected_input
