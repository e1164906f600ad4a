-- ===== src/NetQueue/Write/Descriptor.antt =====
-- The sending side of src/netqueue/netqueue.cpp leaves an element its descriptor and its pointer.
use v_net.Base.{
  ℕ, List, [], ◌∷◌, length, Option, none, some, ◌≡◌, refl, arith, drop, zero, suc, ◌%◌, ◌^◌,
}
use v_net.Host.{ByteOrder}
use v_net.Protocol.Header.{PacketType, header_bytes, new_header}
use v_net.NetQueue.Element.{NetworkElement}
use v_net.NetQueue.Write.{
  Outgoing, Sent, takes, blocks, interrupted, breaks, send, send_rest, buffer_rest, send_body,
  send_message,
}

send_rest-fd :
    (bytes : List ℕ) (el : NetworkElement) (s : List Outgoing)
    → (send_rest bytes el s).element.fd ≡ el.fd
unfolding send_rest buffer_rest
send_rest-fd [] el s = refl
send_rest-fd (b ∷ bs) el [] = ground arith
send_rest-fd (b ∷ bs) el (blocks ∷ s) = ground arith
send_rest-fd (b ∷ bs) el (interrupted ∷ s) = send_rest-fd (b ∷ bs) el s
send_rest-fd (b ∷ bs) el (breaks ∷ s) = refl
send_rest-fd (b ∷ bs) el (takes zero ∷ s) = refl
send_rest-fd (b ∷ bs) el (takes (suc k) ∷ s) = send_rest-fd (drop k bs) el s

pub send-fd :
    (bytes : List ℕ) (el : NetworkElement) (s : List Outgoing)
    → (send bytes el s).element.fd ≡ el.fd
unfolding send
send-fd bytes el s = ground (arith, send_rest-fd bytes el s)

send_body-fd : (body : List ℕ) (first : Sent) → (send_body body first).element.fd ≡ first.element.fd
unfolding send_body
send_body-fd [] first = refl
send_body-fd (b ∷ bs) first = send-fd (b ∷ bs) first.element first.script

pub send_message-fd :
    (o : ByteOrder) (type : PacketType) (msg : Option (List ℕ)) (el : NetworkElement)
    (s : List Outgoing)
    → (send_message o type msg el s).element.fd ≡ el.fd
unfolding send_message
send_message-fd o type none el s = refl
send_message-fd o type (some body) el s =
    let header = header_bytes o (new_header o (length body % 2 ^ 32) type) in
    ground (arith, send-fd header el s, send_body-fd body (send header el s))

send_rest-ptr :
    (bytes : List ℕ) (el : NetworkElement) (s : List Outgoing)
    → (send_rest bytes el s).element.ptr ≡ el.ptr
unfolding send_rest buffer_rest
send_rest-ptr [] el s = refl
send_rest-ptr (b ∷ bs) el [] = ground arith
send_rest-ptr (b ∷ bs) el (blocks ∷ s) = ground arith
send_rest-ptr (b ∷ bs) el (interrupted ∷ s) = send_rest-ptr (b ∷ bs) el s
send_rest-ptr (b ∷ bs) el (breaks ∷ s) = refl
send_rest-ptr (b ∷ bs) el (takes zero ∷ s) = refl
send_rest-ptr (b ∷ bs) el (takes (suc k) ∷ s) = send_rest-ptr (drop k bs) el s

pub send-ptr :
    (bytes : List ℕ) (el : NetworkElement) (s : List Outgoing)
    → (send bytes el s).element.ptr ≡ el.ptr
unfolding send
send-ptr bytes el s = ground (arith, send_rest-ptr bytes el s)

send_body-ptr :
    (body : List ℕ) (first : Sent) → (send_body body first).element.ptr ≡ first.element.ptr
unfolding send_body
send_body-ptr [] first = refl
send_body-ptr (b ∷ bs) first = send-ptr (b ∷ bs) first.element first.script

pub send_message-ptr :
    (o : ByteOrder) (type : PacketType) (msg : Option (List ℕ)) (el : NetworkElement)
    (s : List Outgoing)
    → (send_message o type msg el s).element.ptr ≡ el.ptr
unfolding send_message
send_message-ptr o type none el s = refl
send_message-ptr o type (some body) el s =
    let header = header_bytes o (new_header o (length body % 2 ^ 32) type) in
    ground (arith, send-ptr header el s, send_body-ptr body (send header el s))
