-- ===== src/Sockets/Protocol.antt =====
-- `handle_packet` of ADBTestCE/adb/adb.cpp for OPEN, OKAY, CLSE and WRTE, the packets that concern
-- sockets, with `send_ready` and `send_close`. The connection packets are in Connection.
use adbtest_ce.Prelude.{Bool, Bytes, List, Option, [], false, if◌then◌else◌, none, some, ℕ, ◌∷◌}
use adbtest_ce.Io.{Acceptance}
use adbtest_ce.Sockets.State.{
  Asocket, Command, Outgoing, State, a_clse, a_okay, find_local_socket, send, store,
}
use adbtest_ce.Sockets.Close.{close_socket}
use adbtest_ce.Sockets.Serve.{
  create_local_socket, create_remote_socket, enqueue_local, ready_for_more, ready_socket,
  remote_asocket,
}

abbrev plain_packet : Command → ℕ → ℕ → ℕ → Outgoing
plain_packet command local remote t = record {
  command = command;
  arg0 = local;
  arg1 = remote;
  payload = [];
  via = some t;
}

unfoldable pub send_ready : ℕ → ℕ → ℕ → State → State
send_ready local remote t w = send (plain_packet a_okay local remote t) w

unfoldable pub send_close : ℕ → ℕ → ℕ → State → State
send_close local remote t w = send (plain_packet a_clse local remote t) w

-- `s->peer = r; r->peer = s`, for a live socket `a` at `s` and a new one `c` at `r`.
abbrev pub attach : ℕ → Asocket → ℕ → Asocket → State → State
attach r c s a w = store r (record c { peer = some s }) (store s (record a { peer = some r }) w)

-- `s->peer = create_remote_socket(id, t); s->peer->peer = s`.
unfoldable pub attach_remote : ℕ → ℕ → ℕ → Asocket → State → State
unfolding create_remote_socket
attach_remote id t s a w = attach w.break (remote_asocket id t) s a (create_remote_socket id t w)

-- OPEN, where `service` is what `service_to_fd` gives for the name: no descriptor, or one.
unfoldable pub handle_open : Option ℕ → ℕ → ℕ → State → Option State
handle_open none remote t w = some (send_close 0 remote t w)
handle_open (some fd) remote t w =
    let s = w.break in
    let v = create_local_socket fd w in
    elim (v.cell s) [
      | none ↦ none
      | some a ↦ ready_socket s (send_ready a.id remote t (attach_remote remote t s a v))
    ]

-- OKAY for the socket `a` at `s`: the first one brings its peer.
unfoldable pub handle_okay_at : ℕ → ℕ → ℕ → Asocket → State → Option State
handle_okay_at remote t s a w = elim a.peer [
  | none ↦ ready_socket s (attach_remote remote t s a w)
  | some p ↦ ready_socket s w
]

-- The call of `f` on the local socket with an id, if there is one.
unfoldable pub on_local : ℕ → (ℕ → Asocket → State → Option State) → State → Option State
on_local id f w = elim (find_local_socket id w) [
  | none ↦ none
  | some none ↦ some w
  | some (some s) ↦ elim (w.cell s) [ none ↦ none | some a ↦ f s a w ]
]

unfoldable pub handle_okay : ℕ → ℕ → ℕ → State → Option State
handle_okay remote local t w = on_local local (handle_okay_at remote t) w

unfoldable pub handle_clse : ℕ → State → Option State
handle_clse local w = on_local local (λ s a v. close_socket s v) w

-- WRTE: the sockets of the list take data by `local_socket_enqueue`. A socket that takes more is
-- acknowledged with its id as it is then.
unfoldable pub handle_wrte_at : List Acceptance → ℕ → ℕ → Bytes → ℕ → Asocket → State → Option State
handle_wrte_at ws remote t x s a w = elim (enqueue_local ws s a x w) [
  | none ↦ none
  | some (v, ready_for_more) ↦ some (send_ready a.id remote t v)
  | some (v, _) ↦ some v
]

unfoldable pub handle_wrte : List Acceptance → ℕ → ℕ → ℕ → Bytes → State → Option State
handle_wrte ws remote local t x w = on_local local (handle_wrte_at ws remote t x) w

-- A packet from the remote side, with what the environment answers to it.
pub data Incoming : Type 0 where
  open_packet : Option ℕ → ℕ → Incoming
  okay_packet clse_packet : ℕ → ℕ → Incoming
  wrte_packet : List Acceptance → ℕ → ℕ → Bytes → Incoming

unfoldable pub dispatch_packet : ℕ → Incoming → State → Option State
dispatch_packet t (open_packet service remote) w = handle_open service remote t w
dispatch_packet t (okay_packet remote local) w = handle_okay remote local t w
dispatch_packet t (clse_packet remote local) w = handle_clse local w
dispatch_packet t (wrte_packet ws remote local x) w = handle_wrte ws remote local t x w

-- Packets count only while the transport `t` is online.
unfoldable pub handle_packet : Bool → ℕ → Incoming → State → Option State
handle_packet online t p w = let v = dispatch_packet t p w in if online then v else some w

-- `local_socket_next_id` starts at 1, and both lists are empty.
abbrev pub initial_state : State
initial_state = record {
  cell = λ s. none;
  break = 0;
  local_socket_list = [];
  local_socket_closing_list = [];
  local_socket_next_id = 1;
  disconnects = [];
  packets = [];
  told = [];
  exited = false;
}

-- The packets of a transport, one after another.
unfoldable pub handle_packets : Bool → ℕ → List Incoming → State → Option State
handle_packets online t [] w = some w
handle_packets online t (p ∷ ps) w = elim (handle_packet online t p w) [
  | none ↦ none
  | some v ↦ handle_packets online t ps v
]
