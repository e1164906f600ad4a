-- ===== src/NetQueue/Element.antt =====
-- src/netqueue/element.cpp, netqueue/fsm.hpp and netqueue/handler.hpp: one descriptor of the
-- queue and what the handlers are given.
use v_net.Base.{ℕ, List, [], ℤ, Option, none, some, ◌++◌, length, leb, if◌then◌else◌}
use v_net.Protocol.Header.{PacketType}

abbrev pub net_buffer_size : ℕ
net_buffer_size = 66000

abbrev pub write_buffer_max : ℕ
write_buffer_max = 65536

pub data FiniteStateMachine : Type 0 where
  tun_receive tun_ready tun_error tun_eof : FiniteStateMachine
  sck_header sck_payload sck_ready sck_error sck_eof : FiniteStateMachine

-- `net_buffer` holds the bytes of the array that are in use; its length is `net_buffer_used`.
pub record NetworkElement : Type 0 where
  pub state : FiniteStateMachine
  pub fd : ℤ
  pub ptr : ℕ
  pub net_buffer : List ℕ
  pub write_buffer : List ℕ
  pub write_buffer_offset : ℕ

unfoldable pub new_element : ℤ → ℕ → FiniteStateMachine → NetworkElement
new_element fd ptr state = record {
  state = state;
  fd = fd;
  ptr = ptr;
  net_buffer = [];
  write_buffer = [];
  write_buffer_offset = 0;
}

-- A `read` into the array behind the bytes in use. Past the end of the array it is a fault.
abbrev pub fill : List ℕ → NetworkElement → Option NetworkElement
fill bytes el =
    if leb (length (el.net_buffer ++ bytes)) net_buffer_size
    then some (record el { net_buffer = el.net_buffer ++ bytes })
    else none

pub data CloseReason : Type 0 where
  close_error close_epoll close_hangup : CloseReason

pub record CloseData : Type 0 where
  pub ptr_data : ℕ
  pub fd : ℤ
  pub reason : CloseReason

-- `packet_buffer` is what follows the header, `payload_size` what the header says of its length.
pub record SocketData : Type 0 where
  pub ptr_data : ℕ
  pub fd : ℤ
  pub packet_type : PacketType
  pub packet_buffer : List ℕ
  pub payload_size : ℕ
  pub full_buffer : List ℕ

pub record TunData : Type 0 where
  pub ptr_data : ℕ
  pub fd : ℤ
  pub ip_buffer : List ℕ
