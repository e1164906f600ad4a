-- ===== src/NetQueue/Queue/Transmit.antt =====
-- Sending through the table of descriptors of src/netqueue/netqueue.cpp.
use v_net.Base.{
  Bool, true, false, if◌then◌else◌, ◌≢◌, ◌⊎◌, ◌<◌, inl, inr, Option-cases, ℕ, ℤ, none, some, List,
  [], ◌∷◌, ◌++◌, ◌≡◌, ◌^◌, ◌%◌, refl, arith, nat_eq, int_eq, length,
}
use v_net.Base.Map.{find, insert, find-insert, find-insert_self, insert-insert}
use v_net.Host.{ByteOrder}
use v_net.Protocol.Header.{PacketType, header_bytes, new_header}
use v_net.Protocol.Header.Wire.{wire_header}
use v_net.NetQueue.Element.{NetworkElement}
use v_net.NetQueue.Write.Order.{pending, IsBounded}
use v_net.NetQueue.Write.Messages.{send_message-order, send_message-IsBounded}
use v_net.NetQueue.Write.Descriptor.{send_message-fd}
use v_net.NetQueue.Queue.{get_network_element_from_fd, Queue}
use v_net.NetQueue.Queue.Sound.{IsSound}
use v_net.NetQueue.Queue.Close.{element_at}
use v_net.NetQueue.Queue.Turn.Settle.{kept-IsSound}
use v_net.NetQueue.Queue.Send.{Transmission, refuses, send_message, on_element, send, send_body}
use v_net.NetQueue.Write
use v_net.NetQueue.Write.{Outgoing, Sent}

module _ (fd : ℤ) (p : ℕ) where
  pub send-on_element :
      (bytes : List ℕ) (s : List Outgoing) (el : NetworkElement) (q : Queue)
      → find fd q.fd_to_network_element ≡ some p
      → find p q.elements ≡ some el
      → send fd bytes s q ≡ some (on_element p q (Write.send bytes el s))
  unfolding send
  send-on_element bytes s el q at found = ground (arith, at, found)

  send_body-on_element :
      (body : List ℕ) (q : Queue) (first : Sent)
      → find fd q.fd_to_network_element ≡ some p
      → send_body fd body (on_element p q first)
        ≡ some (on_element p q (Write.send_body body first))
  unfolding send_body Write.send_body
  send_body-on_element [] q first at = refl
  send_body-on_element (b ∷ bs) q first at =
      let q1 = (on_element p q first).queue in
      let second =
        send-on_element (b ∷ bs) first.script first.element q1 at
          (find-insert_self p first.element q.elements) in
      let again = Write.send (b ∷ bs) first.element first.script in
      rw (second, insert-insert p first.element again.element q.elements) refl

  guarded-on_element :
      (ok : Bool) (body : List ℕ) (q : Queue) (first : Sent)
      → find fd q.fd_to_network_element ≡ some p
      → (if ok then send_body fd body (on_element p q first) else some (on_element p q first))
        ≡ some (on_element p q (if ok then Write.send_body body first else first))
  guarded-on_element true body q first at = send_body-on_element body q first at
  guarded-on_element false body q first at = refl

  -- Both lookups of a message find the element that the first found.
  pub send_message-on_element :
      (o : ByteOrder) (type : PacketType) (body : List ℕ) (s : List Outgoing) (el : NetworkElement)
      (q : Queue)
      → find fd q.fd_to_network_element ≡ some p
      → find p q.elements ≡ some el
      → send_message o fd type (some body) s q
        ≡ some (on_element p q (Write.send_message o type (some body) el s))
  unfolding send_message Write.send_message
  send_message-on_element o type body s el q at found =
      let header = header_bytes o (new_header o (length body % 2 ^ 32) type) in
      let first = Write.send header el s in
      rw (send-on_element header s el q at found) (guarded-on_element first.ok body q first at)

send_message-refuses :
    (o : ByteOrder) (fd : ℤ) (type : PacketType) (body : List ℕ) (s : List Outgoing) (q : Queue)
    → find fd q.fd_to_network_element ≡ none
    → send_message o fd type (some body) s q ≡ some (refuses q s)
unfolding send_message send
send_message-refuses o fd type body s q missing = ground (arith, missing)

-- Every element's buffer is bounded.
unfoldable pub AreBounded : Queue → Type 0
AreBounded q = (p : ℕ) (el : NetworkElement) → find p q.elements ≡ some el → IsBounded el

kept-IsBounded :
    (p p' : ℕ) (el' el : NetworkElement) (q : Queue)
    → IsBounded el
    → ((p : ℕ) (el : NetworkElement) → find p q.elements ≡ some el → IsBounded el)
    → find p' (insert p el q.elements) ≡ some el'
    → IsBounded el'
kept-IsBounded p p' el' el q i bounded there =
    ground (arith, find-insert p p' el q.elements, there, i, bounded p' el')

either : {A : Type 0} (b : Bool) → (b ≡ true → A) → (b ≡ false) ⊎ A
either true f = inr (f refl)
either false f = inl refl

-- A message that the call was given an element for: what is on the wire and what is owed then, or
-- false.
unfoldable pub IsTransmitted :
    PacketType → List ℕ → Queue → ℕ → NetworkElement → Transmission → Type 0
IsTransmitted type body q p el r =
    (el' : NetworkElement) × (find p r.queue.elements ≡ some el')
    × ((r' : ℕ) → p ≢ r' → find r' r.queue.elements ≡ find r' q.elements)
    × ((r.ok ≡ false)
        ⊎ (r.wire ++ pending el' ≡ pending el ++ (wire_header (length body) type ++ body)))

-- `send` of a message with a body shorter than 2 ^ 32 bytes, on any descriptor, with a sound table of
-- elements whose buffers are bounded: it never uses an element that is not live, and both stay so.
-- A descriptor that is not in the table gets false, with nothing written and nothing changed. For
-- another one only its element changes; the call returns false, or what is then on the wire and owed
-- is what was owed before, the header of the message and its body.
pub send_message-IsTransmitted :
    (o : ByteOrder) (fd : ℤ) (type : PacketType) (body : List ℕ) (s : List Outgoing) (q : Queue)
    → IsSound q
    → AreBounded q
    → length body < 2 ^ 32
    → type < 2 ^ 16
    → (r : Transmission) × (send_message o fd type (some body) s q ≡ some r)
      × IsSound r.queue
      × AreBounded r.queue
      × (((get_network_element_from_fd fd q ≡ none) × (r ≡ refuses q s))
          ⊎ ((p : ℕ) × (el : NetworkElement) × (get_network_element_from_fd fd q ≡ some p)
              × (find p q.elements ≡ some el)
              × IsTransmitted type body q p el r))
unfolding AreBounded IsTransmitted
send_message-IsTransmitted o fd type body s q sound bounded short small =
    elim (Option-cases (find fd q.fd_to_network_element)) [
      | inl missing ↦ (
        refuses q s,
        send_message-refuses o fd type body s q missing,
        sound,
        bounded,
        inl (missing, refl),
      )
      | inr (p, at) ↦
          let (el, found, same) = element_at fd p q sound at in
          let r = Write.send_message o type (some body) el s in
          (
            on_element p q r,
            send_message-on_element fd p o type body s el q at found,
            kept-IsSound p el r.element q sound found (send_message-fd o type (some body) el s),
            (λ p' el' there.
                kept-IsBounded p p' el' r.element q
                  (send_message-IsBounded o type body el s (bounded p el found)) bounded there),
            inr (
              p,
              el,
              at,
              found,
              (
                r.element,
                find-insert_self p r.element q.elements,
                (λ r' other. ground (arith, find-insert p r' r.element q.elements)),
                either r.ok (send_message-order o type body el s (bounded p el found) short small),
              ),
            ),
          )
    ]
