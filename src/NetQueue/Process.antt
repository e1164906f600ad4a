-- ===== src/NetQueue/Process.antt =====
-- `NetQueue::process` of src/netqueue/netqueue.cpp: the loop that reads one descriptor and hands
-- packets to the handler. The handler acts on a state of its own, `W`, and may change the element
-- or, by closing it, leave the loop with a dangling pointer, which is a fault, `none`.
pub mod Frames
pub mod Faults
pub mod Relate
pub mod Follow
use v_net.Host.{ByteOrder}
use v_net.Protocol.Header.{packet_header_size, header_at, get_payload_size, get_packet_type}
use v_net.NetQueue.Element.{
  NetworkElement, FiniteStateMachine, tun_receive, tun_ready, tun_error, tun_eof, sck_header,
  sck_payload, sck_ready, sck_error, sck_eof, SocketData, TunData, fill, net_buffer_size,
}
use v_net.NetQueue.Kernel.{Incoming, ReadResult, got, again, failed, read, read_packet}
use v_net.Base.{
  nat_eq, ◌==◌, ◌∷◌, [], if◌then◌else◌, drop, ◌+◌, none, zero, length, some, suc, List, Option, ℕ,
  ◌-◌,
}

pub record Handler (W : Type 0) : Type 0 where
  pub on_socket_ready : W → NetworkElement → SocketData → Option (W × NetworkElement)
  pub on_tun_ready : W → NetworkElement → TunData → Option (W × NetworkElement)

pub record Loop (W : Type 0) : Type 0 where
  pub element : NetworkElement
  pub script : List Incoming
  pub world : W

-- How one round of the loop ends: `break` out of the switch, `return`, or a fault.
pub data Round (W : Type 0) : Type 0 where
  goes_on : Loop W → Round W
  returns : Loop W → Round W
  faults : Round W

-- How the whole loop ends; `unfinished` is a loop that still runs when the fuel is used up.
pub data Outcome (W : Type 0) : Type 0 where
  finished : Loop W → Outcome W
  unfinished : Loop W → Outcome W
  faulted : Outcome W

module _ {W : Type 0} (o : ByteOrder) (handler : Handler W) where
  -- A `read` of at most `count` bytes behind those in use, and what follows from its result.
  abbrev after_fill : Option NetworkElement → (NetworkElement → NetworkElement) → Loop W → Round W
  after_fill none then' l = faults
  after_fill (some el) then' l = goes_on (record l { element = then' el })

  abbrev move : FiniteStateMachine → NetworkElement → NetworkElement
  move state el = record el { state = state }

  in_header : Loop W → Round W
  in_header l =
      let (result, rest) = read (packet_header_size - length l.element.net_buffer) l.script in
      let l' : Loop W = record l { script = rest } in
      elim result [
        | again ↦ returns l'
        | failed ↦ goes_on (record l' { element = move sck_error l.element })
        | got bytes ↦ elim bytes [
          | [] ↦ goes_on (record l' { element = move sck_eof l.element })
          | b ∷ bs ↦
              after_fill (fill (b ∷ bs) l.element)
                (λ el.
                  if length el.net_buffer == packet_header_size then move sck_payload el else el)
                l'
        ]
      ]

  in_payload : Loop W → Round W
  in_payload l = elim (header_at o l.element.net_buffer) [
    | none ↦ faults
    | some header ↦
        let buffer_size = get_payload_size o header + packet_header_size in
        let (result, rest) = read (buffer_size - length l.element.net_buffer) l.script in
        let l' : Loop W = record l { script = rest } in
        elim result [
          | again ↦ returns l'
          | failed ↦ goes_on (record l' { element = move sck_error l.element })
          | got bytes ↦
              after_fill (fill bytes l.element)
                (λ el. if length el.net_buffer == buffer_size then move sck_ready el else el) l'
        ]
  ]

  abbrev after_handler :
      Option (W × NetworkElement) → (NetworkElement → NetworkElement) → Loop W → Round W
  after_handler none then' l = faults
  after_handler (some (w, el)) then' l = goes_on (record l { element = then' el; world = w })

  unfoldable pub in_ready : Loop W → Round W
  in_ready l = elim (header_at o l.element.net_buffer) [
    | none ↦ faults
    | some header ↦
        after_handler
          (handler.on_socket_ready l.world l.element (record {
            ptr_data = l.element.ptr;
            fd = l.element.fd;
            packet_type = get_packet_type o header;
            packet_buffer = drop packet_header_size l.element.net_buffer;
            payload_size = get_payload_size o header;
            full_buffer = l.element.net_buffer;
          }))
          (λ el. record el { net_buffer = []; state = sck_header }) l
  ]

  in_tun_receive : Loop W → Round W
  in_tun_receive l =
      let (result, rest) = read_packet net_buffer_size l.script in
      let l' : Loop W = record l { script = rest } in
      elim result [
        | again ↦ returns l'
        | failed ↦ goes_on (record l' { element = move tun_error l.element })
        | got bytes ↦ elim bytes [
          | [] ↦ goes_on (record l' { element = move tun_eof l.element })
          | b ∷ bs ↦ goes_on (record l' {
            element = record (l.element) { net_buffer = b ∷ bs; state = tun_ready };
          })
        ]
      ]

  in_tun_ready : Loop W → Round W
  in_tun_ready l =
      after_handler
        (handler.on_tun_ready l.world l.element (record {
          ptr_data = l.element.ptr;
          fd = l.element.fd;
          ip_buffer = l.element.net_buffer;
        }))
        (λ el. record el { state = tun_receive }) l

  unfoldable pub round : Loop W → Round W
  unfolding in_header in_payload in_ready in_tun_receive in_tun_ready
  round l = elim l.element.state [
    | sck_header ↦ in_header l
    | sck_payload ↦ in_payload l
    | sck_ready ↦ in_ready l
    | sck_error ↦ returns l
    | sck_eof ↦ returns l
    | tun_receive ↦ in_tun_receive l
    | tun_ready ↦ in_tun_ready l
    | tun_eof ↦ returns l
    | tun_error ↦ returns l
  ]

  -- `while (1)`, on fuel.
  unfoldable pub process : ℕ → Loop W → Outcome W
  process zero l = unfinished l
  process (suc fuel) l = elim (round l) [
    | goes_on l' ↦ process fuel l'
    | returns l' ↦ finished l'
    | faults ↦ faulted
  ]
