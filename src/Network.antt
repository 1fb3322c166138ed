-- ===== src/Network.antt =====
-- machine/network.h, machine/network.cc, network/post.h and network/post.cc: the network and the post office. An
-- int is its pattern of 32 bits; in memory it is its four bytes, the lowest first, and a struct the bytes of its
-- fields, as on the hosts of this system. What `new char[]` gives is a parameter, `junk`; what the sockets carry
-- between hosts is the packet of 64 bytes. `none` is a failed ASSERT, or an access outside a buffer.
pub mod Bytes
pub mod Delivery
pub mod RoundTrip
mod Examples
use everything.Base.{
  ℕ, zero, suc, ◌+◌, ◌-◌, ◌*◌, ◌/◌, ◌%◌, ◌^◌, Bool, true, false, not, ◌&&◌, Option, none, some,
  List, [], ◌∷◌, ◌++◌, ◌==◌, ltb, leb, if◌then◌else◌, assert, ◌>>=◌, ◌>>◌, length, take, drop,
  get_elem?, set,
}
use everything.Interrupt.{Call, to_schedule, network_send_int, network_recv_int}

pub record PacketHeader : Type 0 where
  pub to : ℕ
  pub from : ℕ
  pub length : ℕ

pub record MailHeader : Type 0 where
  pub to : ℕ
  pub from : ℕ
  pub length : ℕ

abbrev pub header_size : ℕ
header_size = 12

abbrev pub max_wire_size : ℕ
max_wire_size = 64

abbrev pub max_packet_size : ℕ
max_packet_size = 52

abbrev pub max_mail_size : ℕ
max_mail_size = 40

abbrev pub network_time : ℕ
network_time = 100

-- An int or unsigned in memory.
unfoldable pub word : ℕ → List ℕ
word x = x % 256 ∷ x / 256 % 256 ∷ x / 65536 % 256 ∷ x / 16777216 % 256 ∷ []

unfoldable pub read_word : List ℕ → Option (ℕ × List ℕ)
read_word (a ∷ b ∷ c ∷ d ∷ rest) = some (a + b * 256 + c * 65536 + d * 16777216, rest)
read_word (a ∷ b ∷ c ∷ []) = none
read_word (a ∷ b ∷ []) = none
read_word (a ∷ []) = none
read_word [] = none

-- A header in memory: its three fields.
unfoldable pub header_bytes : ℕ → ℕ → ℕ → List ℕ
unfolding word
header_bytes to from length = word to ++ word from ++ word length

unfoldable pub read_header : List ℕ → Option (ℕ × ℕ × ℕ)
unfolding read_word
read_header buffer = do
  (to, rest) ← read_word buffer
  (from, rest') ← read_word rest
  (length, rest'') ← read_word rest'
  some (to, from, length)

-- bcopy(from, buffer + offset, len)
unfoldable pub bcopy : List ℕ → List ℕ → ℕ → ℕ → Option (List ℕ)
bcopy from buffer offset len = do
  assert (leb len (length from))
  assert (leb (offset + len) (length buffer))
  some (take offset buffer ++ take len from ++ drop (offset + len) buffer)

-- An interrupt's object: NetworkInput and NetworkOutput.
pub data Device : Type 0 where
  network_input network_output : Device

-- What NetworkOutput::Send does: the call of Schedule, and the packet, unless it is lost.
pub record Sent : Type 0 where
  pub calls : List (Call Device)
  pub packet : Option (List ℕ)

-- NetworkOutput::Send; `lost` is the outcome of the random number.
pub network_send : ℕ → Bool → Bool → List ℕ → PacketHeader → List ℕ → Option Sent
unfolding header_bytes bcopy
network_send host_name send_busy lost junk hdr bytes = do
  assert
      (not send_busy && ltb 0 hdr.length && leb hdr.length max_packet_size && hdr.from == host_name)
  let calls = to_schedule network_output network_time network_send_int ∷ []
  buffer ← bcopy (header_bytes hdr.to hdr.from hdr.length) junk 0 header_size
  buffer' ← bcopy bytes buffer header_size hdr.length
  some (record { calls = calls; packet = if lost then none else some buffer' })

pub record NetworkInput : Type 0 where
  pub in_hdr : PacketHeader
  pub inbox : List ℕ

-- NetworkInput::CallBack. `packet` is what PollSocket and ReadFromSocket give; the Boolean is whether the post
-- office is called.
pub network_call_back :
    ℕ
    → Option (List ℕ)
    → NetworkInput
    → Option (List (Call Device) × Bool × Option (List ℕ) × NetworkInput)
unfolding read_header bcopy
network_call_back host_name packet input =
    let calls = to_schedule network_input network_time network_recv_int ∷ [] in
    let read_in = (λ (buffer : List ℕ). do
      (to, from, length) ← read_header buffer
      assert (to == host_name && leb length max_packet_size)
      inbox' ← bcopy (drop header_size buffer) input.inbox 0 length
      some (
        calls,
        true,
        none,
        record { in_hdr = record { to = to; from = from; length = length }; inbox = inbox' },
      )) in
    if not (input.in_hdr.length == 0)
    then some (calls, false, packet, input)
    else (elim packet [ none ↦ some (calls, false, none, input) | some buffer ↦ read_in buffer ])

-- NetworkInput::Receive
pub network_receive : NetworkInput → List ℕ → Option (PacketHeader × List ℕ × NetworkInput)
unfolding bcopy
network_receive input buffer =
    let hdr = input.in_hdr in
    let input' = record input { in_hdr = record hdr { length = 0 } } in
    let copied = (do
      buffer' ← bcopy input.inbox buffer 0 hdr.length
      some (hdr, buffer', input')) in
    if not (hdr.length == 0) then copied else some (hdr, buffer, input')

-- Mail
pub record Mail : Type 0 where
  pub pkt_hdr : PacketHeader
  pub mail_hdr : MailHeader
  pub bytes : List ℕ

-- Mail::Mail; `junk` is the memory of the new object's array.
pub new_mail : List ℕ → PacketHeader → MailHeader → List ℕ → Option Mail
unfolding bcopy
new_mail junk pkt_hdr mail_hdr msg_data = do
  assert (leb mail_hdr.length max_mail_size)
  bytes ← bcopy msg_data junk 0 mail_hdr.length
  some (record { pkt_hdr = pkt_hdr; mail_hdr = mail_hdr; bytes = bytes })

-- MailBox::Put. The mailbox is its list of messages, and the new Mail is at an address that none of them has.
pub mailbox_put : List ℕ → List Mail → PacketHeader → MailHeader → List ℕ → Option (List Mail)
unfolding new_mail
mailbox_put junk messages pkt_hdr mail_hdr bytes = do
  mail ← new_mail junk pkt_hdr mail_hdr bytes
  some (messages ++ mail ∷ [])

-- MailBox::Get, when there is a message; the thread waits for one else.
pub mailbox_get : List Mail → List ℕ → Option (PacketHeader × MailHeader × List ℕ × List Mail)
unfolding bcopy
mailbox_get [] bytes = none
mailbox_get (mail ∷ messages) bytes = do
  bytes' ← bcopy mail.bytes bytes 0 mail.mail_hdr.length
  some (mail.pkt_hdr, mail.mail_hdr, bytes', messages)

-- PostOfficeOutput::Send up to its P, without its lock.
pub post_send : ℕ → Bool → Bool → List ℕ → List ℕ → PacketHeader → MailHeader → List ℕ → Option Sent
unfolding header_bytes bcopy network_send
post_send host_name send_busy lost junk junk' pkt_hdr mail_hdr bytes = do
  assert (leb mail_hdr.length max_mail_size)
  assert (ltb mail_hdr.to (2 ^ 31))
  let pkt_hdr' = record pkt_hdr {
    from = host_name;
    length = (mail_hdr.length + header_size) % 2 ^ 32;
  }
  buffer ← bcopy (header_bytes mail_hdr.to mail_hdr.from mail_hdr.length) junk 0 header_size
  buffer' ← bcopy bytes buffer header_size mail_hdr.length
  network_send host_name send_busy lost junk' pkt_hdr' buffer'

-- PostOfficeInput
pub record PostOffice : Type 0 where
  pub network : NetworkInput
  pub boxes : List (List Mail)
  pub num_boxes : ℕ

-- One round of PostOfficeInput::PostalDelivery, behind its P.
pub postal_delivery : List ℕ → List ℕ → PostOffice → Option (PostOffice × List ℕ)
unfolding network_receive read_header mailbox_put
postal_delivery junk buffer office = do
  (pkt_hdr, buffer', network') ← network_receive office.network buffer
  (to, from, length) ← read_header buffer'
  let mail_hdr : MailHeader = record { to = to; from = from; length = length }
  assert (ltb to (2 ^ 31) && ltb to office.num_boxes)
  assert (leb length max_mail_size)
  messages ← get_elem? office.boxes to
  messages' ← mailbox_put junk messages pkt_hdr mail_hdr (drop header_size buffer')
  some (record office { network = network'; boxes = set office.boxes to messages' }, buffer')

-- PostOfficeInput::Receive
pub post_receive :
    ℕ → List ℕ → PostOffice → Option (PacketHeader × MailHeader × List ℕ × PostOffice)
unfolding mailbox_get
post_receive box bytes office = do
  assert (ltb box office.num_boxes)
  messages ← get_elem? office.boxes box
  (pkt_hdr, mail_hdr, bytes', messages') ← mailbox_get messages bytes
  assert (leb mail_hdr.length max_mail_size)
  some (pkt_hdr, mail_hdr, bytes', record office { boxes = set office.boxes box messages' })
