-- ===== src/NetQueue/Queue/Turn/Batch.antt =====
-- One whole return of `epoll_wait` in `wait_and_process` of src/netqueue/netqueue.cpp.
use v_net.Base.{
  ap, ◌∙◌, true, ℕ_discrete, ℕ, false, Option, none, some, List, [], ◌∷◌, ◌≡◌, ◌≢◌, refl, sym,
  arith, nat_eq, int_eq, ◌==◌, if◌then◌else◌,
}
use v_net.Base.Map.{find, find-insert, find-insert_self}
use v_net.Base.Pointers.{member}
use v_net.Host.{ByteOrder}
use v_net.NetQueue.Element.{NetworkElement, SocketData, TunData, CloseData, CloseReason}
use v_net.NetQueue.Process.Frames.{deliver}
use v_net.NetQueue.Queue.{Queue}
use v_net.NetQueue.Queue.Sound.{IsSound}
use v_net.NetQueue.Queue.Turn.{
  wait_and_process, handle_events, QueueHandler, EpollEvent, handle_event, passes,
}
use v_net.NetQueue.Queue.Turn.Settle.{
  reason_for, kept-IsSound, KeepsQueue, IsSettled, flushed_element, settle-IsSettled,
}
use v_net.NetQueue.Queue.Turn.Receive.{
  Burst, said_by, stopped, in_use, KeepsElements, Carries, idle, receive-delivers,
}

-- Events, each with what its reads bring.
abbrev pub Batch : Type 0
Batch = List (EpollEvent × Burst)

unfoldable pub events : Batch → List EpollEvent
events [] = []
events ((ev, fs) ∷ rest) = ev ∷ events rest

unfoldable pub pointers : Batch → List ℕ
pointers [] = []
pointers ((ev, fs) ∷ rest) = ev.data_ptr ∷ pointers rest

-- Every event is for another live element, between two packets.
unfoldable pub AreArrivals : ℕ → Queue → Batch → Type 0
AreArrivals fuel q [] = Unit
AreArrivals fuel q ((ev, fs) ∷ rest) =
    ((el : NetworkElement) × (find ev.data_ptr q.elements ≡ some el)
      × (idle el ≡ el)
      × Carries fuel ev.epollin ev.incoming fs)
    × (member ev.data_ptr (pointers rest) ≡ false)
    × AreArrivals fuel q rest

-- Why a connection is closed after such an event, if it is, and what flushing leaves of its element.
abbrev pub reason_at : EpollEvent → Burst → NetworkElement → Option CloseReason
reason_at ev fs el = reason_for ev (said_by fs.stop) (stopped fs.stop el)

abbrev pub flushed_at : EpollEvent → Burst → NetworkElement → NetworkElement
flushed_at ev fs el = flushed_element ev (stopped fs.stop el)

-- What is at the element's address, by the reason to close it.
abbrev kept : Option CloseReason → NetworkElement → Option NetworkElement
kept none el = some el
kept (some reason) el = none

-- The same after an event, if `x` was there before.
abbrev pub settled : EpollEvent → Burst → Option NetworkElement → Option NetworkElement
settled ev fs none = none
settled ev fs (some el) = kept (reason_at ev fs el) (flushed_at ev fs el)

unfoldable pub left : Batch → ℕ → Option NetworkElement → Option NetworkElement
left [] r x = x
left ((ev, fs) ∷ rest) r x = if ev.data_ptr == r then settled ev fs x else left rest r x

pub left-absent :
    (b : Batch) (r : ℕ) (x : Option NetworkElement) → member r (pointers b) ≡ false → left b r x ≡ x
unfolding left pointers member
left-absent [] r x absent = refl
left-absent ((ev, fs) ∷ rest) r x absent = ground (arith, left-absent rest r x)

-- What is left after the first event and the rest, each told about by an equation.
left_after :
    (ev : EpollEvent) (fs : Burst) (rest : Batch) (el : NetworkElement) (r : ℕ)
    (x0 x1 x2 : Option NetworkElement)
    → member ev.data_ptr (pointers rest) ≡ false
    → (ev.data_ptr ≡ r → x0 ≡ some el)
    → x1 ≡ (if ev.data_ptr == r then settled ev fs (some el) else x0)
    → x2 ≡ left rest r x1
    → x2 ≡ left ((ev, fs) ∷ rest) r x0
unfolding left
left_after ev fs rest el r x0 x1 x2 once there first others = elim (ℕ_discrete ev.data_ptr r) [
  | yes same ↦
      let absent = ap (λ x. member x (pointers rest)) (sym same) ∙ once in
      others ∙ left-absent rest r x1 absent ∙ ground (arith, first, there same)
  | no other ↦ others ∙ ground (arith, first, other)
]

pub other_pointer : (p r : ℕ) (ps : List ℕ) → member p ps ≡ false → member r ps ≡ true → p ≢ r
other_pointer p r ps absent there same =
    absurd (ground (arith, absent, ap (λ x. member x ps) same, there))

module _ {W : Type 0} (f : W → SocketData → W) (seen : W → CloseData → W) where
  -- What `onClose` is told, by the reason.
  abbrev pub told_why : Option CloseReason → NetworkElement → W → W
  told_why none el w = w
  told_why (some reason) el w = seen w (record { ptr_data = el.ptr; fd = el.fd; reason = reason })

  -- What the handlers are told of one event.
  abbrev pub told : EpollEvent → NetworkElement → Burst → W → W
  told ev el fs w = told_why (reason_at ev fs el) (flushed_at ev fs el) (deliver f el w fs.frames)

  abbrev pub told_at : EpollEvent → Option NetworkElement → Burst → W → W
  told_at ev none fs w = w
  told_at ev (some el) fs w = told ev el fs w

  -- Of all events, in order.
  unfoldable pub told_all : Queue → Batch → W → W
  told_all q [] w = w
  told_all q ((ev, fs) ∷ rest) w = told_all q rest (told_at ev (find ev.data_ptr q.elements) fs w)

module _ {W : Type 0} (o : ByteOrder) (h : QueueHandler W) (f : W → SocketData → W)
    (g : W → TunData → W) (seen : W → CloseData → W) (keeps : KeepsElements h f g)
    (keeps' : KeepsQueue h seen) where
  -- What one turn gives.
  abbrev Turned : EpollEvent → Burst → NetworkElement → List ℕ → W → Queue → ℕ → Type 0
  Turned ev fs el closed w q fuel =
      (closed' : List ℕ) × (q' : Queue) × (handle_event o h fuel ev closed w q
        ≡ passes (closed', told f seen ev el fs w, q'))
      × IsSound q'
      × ((r : ℕ)
          → find r q'.elements
            ≡ (if ev.data_ptr == r then settled ev fs (some el) else find r q.elements))
      × ((r : ℕ) → ev.data_ptr ≢ r → member r closed' ≡ member r closed)

  settled-parts :
      (v : Option CloseReason) (p : ℕ) (el : NetworkElement) (closed : List ℕ) (w : W) (q : Queue)
      (closed' : List ℕ) (w' : W) (q' : Queue)
      → IsSettled seen v p el closed w q closed' w' q'
      → (w' ≡ told_why f seen v el w)
        × (find p q'.elements ≡ kept v el)
        × ((r : ℕ) → p ≢ r → member r closed' ≡ member r closed)
  unfolding IsSettled member
  settled-parts none p el closed w q closed' w' q' (same, quiet, left, there) =
      (quiet, there, λ r other. rw same refl)
  settled-parts (some reason) p el closed w q closed' w' q' (longer, called, done, gone, out) =
      (called, gone, λ r other. ground (arith, longer))

  turn :
      (fuel : ℕ) (ev : EpollEvent) (fs : Burst) (el : NetworkElement) (closed : List ℕ) (w : W)
      (q : Queue)
      → IsSound q
      → find ev.data_ptr q.elements ≡ some el
      → idle el ≡ el
      → Carries fuel ev.epollin ev.incoming fs
      → member ev.data_ptr closed ≡ false
      → Turned ev fs el closed w q fuel
  unfolding handle_event IsSettled member
  turn fuel ev fs el closed w q sound found still carries fresh =
      let p = ev.data_ptr in
      let el1 = stopped fs.stop el in
      let q1 : Queue = in_use p el1 q in
      let w1 = deliver f el w fs.frames in
      let got = receive-delivers o h f g keeps fuel ev el w q fs found still carries in
      let (closed', w', q', done, sound', settled', others) =
        settle-IsSettled o h seen keeps' ev (said_by fs.stop) closed w1 q1 el1
          (kept-IsSound p el el1 q sound found refl) (find-insert_self p el1 q.elements) in
      let (called, there, fewer) =
        settled-parts (reason_at ev fs el) p (flushed_at ev fs el) closed w1
          (in_use p (flushed_at ev fs el) q1) closed' w' q' settled' in
      (
        closed',
        q',
        rw (fresh, got, done, called) refl,
        sound',
        (λ r. elim (ℕ_discrete p r) [
          | yes same ↦ rw (sym same) (ground (arith, there))
          | no other ↦ ground (arith, others r other, find-insert p r el1 q.elements)
        ]),
        fewer,
      )

  -- What the rest of the loop gives, from a table that agrees with `q0` at what is still to come.
  abbrev Finishes : ℕ → Queue → Batch → List ℕ → W → Queue → Type 0
  Finishes fuel q0 b closed w q =
      (closed' : List ℕ) × (q' : Queue) × (handle_events o h fuel (events b) closed w q
        ≡ passes (closed', told_all f seen q0 b w, q'))
      × IsSound q'
      × ((r : ℕ) → find r q'.elements ≡ left b r (find r q.elements))

  first_then_rest :
      (fuel : ℕ) (q0 : Queue) (ev : EpollEvent) (fs : Burst) (rest : Batch) (el : NetworkElement)
      (closed closed1 closed' : List ℕ) (w : W) (q q1 q' : Queue)
      → find ev.data_ptr q0.elements ≡ some el
      → handle_event o h fuel ev closed w q ≡ passes (closed1, told f seen ev el fs w, q1)
      → handle_events o h fuel (events rest) closed1 (told f seen ev el fs w) q1
        ≡ passes (closed', told_all f seen q0 rest (told f seen ev el fs w), q')
      → handle_events o h fuel (events ((ev, fs) ∷ rest)) closed w q
        ≡ passes (closed', told_all f seen q0 ((ev, fs) ∷ rest) w, q')
  unfolding handle_events events told_all
  first_then_rest fuel q0 ev fs rest el closed closed1 closed' w q q1 q' found first others =
      rw (first, found) others

  handle_events-Finishes :
      (fuel : ℕ) (q0 : Queue) (b : Batch) (closed : List ℕ) (w : W) (q : Queue)
      → IsSound q
      → AreArrivals fuel q0 b
      → ((r : ℕ) → member r (pointers b) ≡ true → find r q.elements ≡ find r q0.elements)
      → ((r : ℕ) → member r (pointers b) ≡ true → member r closed ≡ false)
      → Finishes fuel q0 b closed w q
  unfolding handle_events events pointers AreArrivals left told_all member
  handle_events-Finishes fuel q0 [] closed w q sound arrivals agrees fresh =
      (closed, q, refl, sound, λ r. refl)
  handle_events-Finishes fuel q0 ((ev, fs) ∷ rest) closed w q sound
        ((el, found, still, carries), once, arrivals) agrees fresh =
      let p = ev.data_ptr in
      let here : member p (pointers ((ev, fs) ∷ rest)) ≡ true = ground arith in
      let found' : find p q.elements ≡ some el = agrees p here ∙ found in
      let (closed1, q1, done, sound1, there, fewer) =
        turn fuel ev fs el closed w q sound found' still carries (fresh p here) in
      let apart : (r : ℕ) → member r (pointers rest) ≡ true → p ≢ r =
        λ r m. other_pointer p r (pointers rest) once m in
      let later : (r : ℕ)
          → member r (pointers rest) ≡ true
          → member r (pointers ((ev, fs) ∷ rest)) ≡ true =
        λ r m. ground (arith, m) in
      let elsewhere : (r : ℕ) → p ≢ r → find r q1.elements ≡ find r q.elements =
        λ r other. ground (arith, there r) in
      let (closed', q', finished, sound', left_there) =
        handle_events-Finishes fuel q0 rest closed1 (told f seen ev el fs w) q1 sound1 arrivals
          (λ r m. elsewhere r (apart r m) ∙ agrees r (later r m))
          (λ r m. fewer r (apart r m) ∙ fresh r (later r m)) in
      (
        closed',
        q',
        first_then_rest fuel q0 ev fs rest el closed closed1 closed' w q q1 q' found done finished,
        sound',
        λ r.
            left_after ev fs rest el r (find r q.elements) (find r q1.elements) (find r q'.elements)
              once (λ same. ap (λ x. find x q.elements) (sym same) ∙ found') (there r)
              (left_there r),
      )

  -- A batch of events, each for another live element between two packets of a sound table, and
  -- handlers that leave the table alone. The reads of each event, if it asks for them, give frames that
  -- fit the buffer, with fuel for each, and then dry up, would block, find that the peer has hung up,
  -- fail, or are interrupted by a signal. Then `wait_and_process` returns without a fault. The handlers
  -- have been told of exactly these frames, each with its own connection, type and payload, in order,
  -- and, behind its frames, of each connection that is to be closed, with the reason: the peer has hung
  -- up (EPOLLHUP), the descriptor has an error (EPOLLERR), what waits cannot be written, the reads found
  -- the end, failed or were interrupted, or the descriptor cannot be armed again, the first of these
  -- that holds (`reason_for`). The elements of these connections are gone, the others of the batch are
  -- as flushing left them, all other elements are as they were, and the table is sound.
  pub wait_and_process_delivers :
      (fuel : ℕ) (q : Queue) (b : Batch) (w : W)
      → IsSound q
      → AreArrivals fuel q b
      → (q' : Queue) × (wait_and_process o h fuel (some (events b)) w q
          ≡ passes (told_all f seen q b w, q'))
        × IsSound q'
        × ((r : ℕ) → find r q'.elements ≡ left b r (find r q.elements))
  unfolding wait_and_process member
  wait_and_process_delivers fuel q b w sound arrivals =
      let (closed', q', done, sound', there) =
        handle_events-Finishes fuel q b [] w q sound arrivals (λ r m. refl) (λ r m. refl) in
      (q', rw done refl, sound', there)
