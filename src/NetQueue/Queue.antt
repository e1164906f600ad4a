-- ===== src/NetQueue/Queue.antt =====
-- The table of descriptors of src/netqueue/netqueue.cpp: put, lookup, close and the destructor. The
-- elements stand on a heap, by address; a use of an address that is not live is a fault.
pub mod Sound
pub mod Close
pub mod History
pub mod Turn
pub mod Send
pub mod Transmit
pub mod Tests
use v_net.Base.{
  ◌&&◌, ℕ, ℤ, Bool, Option, none, some, List, [], ◌∷◌, ◌>>=◌, nat_eq, int_eq, ◌==◌, if◌then◌else◌,
  not,
}
use v_net.Base.Map.{find, insert, erase}
use v_net.NetQueue.Element.{
  NetworkElement, FiniteStateMachine, tun_receive, sck_header, new_element,
}

pub record Queue : Type 0 where
  pub elements : List (ℕ × NetworkElement)
  pub fd_to_network_element : List (ℤ × ℕ)

-- A new queue.
abbrev pub start : Queue
start = record { elements = []; fd_to_network_element = [] }

-- What the constructor gives, or throws.
pub data Construction : Type 0 where
  constructed : Queue → Construction
  invalid_argument runtime_error : Construction

-- Whether the handlers exist, and whether `epoll_create1` succeeds.
pub construct : Bool → Bool → Bool → Bool → Construction
construct has_on_close has_on_socket_ready has_on_tun_ready creates =
    if not (has_on_close && has_on_socket_ready && has_on_tun_ready)
    then invalid_argument
    else if not creates
    then runtime_error
    else constructed start

-- What `new`, `epoll_ctl` and the table's allocation do during `put`.
pub record PutChances : Type 0 where
  pub allocates : Bool
  pub adds : Bool
  pub stores : Bool

-- With a new element at `p`; null is `none`.
unfoldable pub put : PutChances → ℕ → ℤ → ℕ → FiniteStateMachine → Queue → Option ℕ × Queue
put c p fd data_ptr state q =
    let created = insert p (new_element fd data_ptr state) q.elements in
    if not c.allocates
    then (none, q)
    else if not c.adds
    then (none, record q { elements = erase p created })
    else if not c.stores
    then (none, record q { elements = erase p created })
    else (
      some p,
      record q { elements = created; fd_to_network_element = insert fd p q.fd_to_network_element },
    )

pub put_tun : PutChances → ℕ → ℤ → ℕ → Queue → Option ℕ × Queue
unfolding put
put_tun c p tun_fd data_ptr q = put c p tun_fd data_ptr tun_receive q

unfoldable pub put_sck : PutChances → ℕ → ℤ → ℕ → Queue → Option ℕ × Queue
unfolding put
put_sck c p sck_fd data_ptr q = put c p sck_fd data_ptr sck_header q

abbrev pub get_network_element_from_fd : ℤ → Queue → Option ℕ
get_network_element_from_fd fd q = find fd q.fd_to_network_element

-- `close` on an element, null for `none`, with the descriptors that it closes.
unfoldable pub close_element : Option ℕ → Queue → Option (Queue × List ℤ)
close_element none q = some (q, [])
close_element (some p) q = do
  el ← find p q.elements
  let closed : Queue = record q {
    elements = erase p q.elements;
    fd_to_network_element = erase el.fd q.fd_to_network_element;
  }
  elim (find el.fd q.fd_to_network_element) [
    | none ↦ some (q, [])
    | some p' ↦ if p' == p then some (closed, el.fd ∷ []) else some (q, [])
  ]

unfoldable pub close : ℤ → Queue → Option (Queue × List ℤ)
unfolding close_element
close fd q = close_element (get_network_element_from_fd fd q) q

-- The loop of the destructor, before it closes the descriptor of epoll, with the descriptors that it closes.
pub delete_all :
    List (ℤ × ℕ) → List (ℕ × NetworkElement) → Option (List (ℕ × NetworkElement) × List ℤ)
delete_all [] elements = some (elements, [])
delete_all ((fd, p) ∷ rest) elements = do
  el ← find p elements
  (left, closed) ← delete_all rest (erase p elements)
  some (left, fd ∷ closed)

pub destroy : Queue → Option (Queue × List ℤ)
unfolding delete_all
destroy q = do
  (left, closed) ← delete_all q.fd_to_network_element q.elements
  some (record { elements = left; fd_to_network_element = [] }, closed)
