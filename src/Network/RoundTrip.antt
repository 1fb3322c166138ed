-- ===== src/Network/RoundTrip.antt =====
-- The post office of the receiver: delivery to a mailbox, and Receive from it.
use everything.Base.{
  ℕ, ◌+◌, ◌^◌, ◌≤◌, ◌<◌, ◌≡◌, refl, ◌∙◌, none, some, List, [], ◌∷◌, ◌++◌, true, false, leb, ltb,
  ◌==◌, arith, length, drop, set, get_elem?, get_elem?-set_self, get_elem?-some, set-set, set-same,
  append_assoc, drop-append,
}
use everything.Interrupt.{to_schedule, network_send_int, network_recv_int}
use everything.Network.{
  PacketHeader, MailHeader, Mail, NetworkInput, PostOffice, network_input, network_output,
  header_bytes, network_call_back, network_receive, new_mail, mailbox_put, mailbox_get, post_send,
  postal_delivery, post_receive,
}
use everything.Network.Bytes.{read_header-header_bytes, length-header_bytes, bcopy-front}
use everything.Network.Delivery.{
  payload, stamped, wire, Fits, length-payload, arrived, post_send-wire, network_call_back-arrived,
}

module _ (sender receiver : ℕ) (mail_hdr : MailHeader) (body : List ℕ)
    (fits : Fits sender receiver mail_hdr body) where
  -- The Mail that stands in the mailbox.
  abbrev filed : List ℕ → Mail
  filed junk = record {
    pkt_hdr = stamped sender receiver mail_hdr;
    mail_hdr = mail_hdr;
    bytes = body ++ drop mail_hdr.length junk;
  }

  abbrev emptied : List ℕ → NetworkInput
  emptied inbox = record {
    in_hdr = record (stamped sender receiver mail_hdr) { length = 0 };
    inbox = payload mail_hdr body ++ drop (mail_hdr.length + 12) inbox;
  }

  network_receive-arrived :
      (inbox buffer : List ℕ)
      → length buffer ≡ 52
      → network_receive (arrived sender receiver mail_hdr body inbox) buffer
        ≡ some (
          stamped sender receiver mail_hdr,
          payload mail_hdr body ++ drop (mail_hdr.length + 12) buffer,
          emptied inbox,
        )
  unfolding network_receive
  network_receive-arrived inbox buffer size =
      let full : (mail_hdr.length + 12 == 0) ≡ false = ground arith in
      rw
        (
          full,
          bcopy-front buffer (payload mail_hdr body) (drop (mail_hdr.length + 12) inbox)
              (mail_hdr.length + 12)
              (omega (arith, length-payload sender receiver mail_hdr body fits))
              (omega (arith, fits.small)),
        )
        refl

  postal_delivery-filed :
      (office : PostOffice) (inbox junk buffer : List ℕ) (messages : List Mail)
      → length buffer ≡ 52
      → length junk ≡ 40
      → mail_hdr.to < office.num_boxes
      → get_elem? office.boxes mail_hdr.to ≡ some messages
      → postal_delivery junk buffer
          (record office { network = arrived sender receiver mail_hdr body inbox })
        ≡ some (
          record office {
            network = emptied inbox;
            boxes = set office.boxes mail_hdr.to (messages ++ filed junk ∷ []);
          },
          payload mail_hdr body ++ drop (mail_hdr.length + 12) buffer,
        )
  unfolding postal_delivery mailbox_put new_mail
  postal_delivery-filed office inbox junk buffer messages size size' in_range at =
      let hb = header_bytes mail_hdr.to mail_hdr.from mail_hdr.length in
      let hl = length-header_bytes mail_hdr.to mail_hdr.from mail_hdr.length in
      let tail = drop (mail_hdr.length + 12) buffer in
      let low : ltb mail_hdr.to (2 ^ 31) ≡ true = ground (arith, fits.box) in
      let known : ltb mail_hdr.to office.num_boxes ≡ true = ground arith in
      let short : leb mail_hdr.length 40 ≡ true = ground (arith, fits.small) in
      rw
        (
          network_receive-arrived inbox buffer size,
          append_assoc hb body tail,
          read_header-header_bytes mail_hdr.to mail_hdr.from mail_hdr.length (body ++ tail)
              (omega (arith, fits.box)) fits.reply (omega (arith, fits.small)),
          low,
          known,
          short,
          at,
          drop-append 12 0 hb (body ++ tail) hl,
          bcopy-front junk body tail mail_hdr.length fits.whole (omega (arith, fits.small)),
        )
        refl

  post_receive-filed :
      (office : PostOffice) (junk bytes : List ℕ) (messages : List Mail)
      → mail_hdr.length ≤ length bytes
      → mail_hdr.to < office.num_boxes
      → get_elem? office.boxes mail_hdr.to ≡ some (filed junk ∷ messages)
      → post_receive mail_hdr.to bytes office
        ≡ some (
          stamped sender receiver mail_hdr,
          mail_hdr,
          body ++ drop mail_hdr.length bytes,
          record office { boxes = set office.boxes mail_hdr.to messages },
        )
  unfolding post_receive mailbox_get
  post_receive-filed office junk bytes messages room in_range at =
      let known : ltb mail_hdr.to office.num_boxes ≡ true = ground arith in
      let short : leb mail_hdr.length 40 ≡ true = ground (arith, fits.small) in
      rw
        (
          known,
          at,
          bcopy-front bytes body (drop mail_hdr.length junk) mail_hdr.length fits.whole room,
          short,
        )
        refl

-- What passes between the two hosts, and what is left.
pub record Passed (sender : ℕ) (hdr : PacketHeader) (mail_hdr : MailHeader)
    (body more junk junk' junk'' buffer bytes : List ℕ) (office : PostOffice) : Type 0 where
  packet : List ℕ
  buffer' : List ℕ
  input : NetworkInput
  delivered : PostOffice
  out : PostOffice
  sent :
      post_send sender false false junk junk' hdr mail_hdr (body ++ more)
      ≡ some (record {
        calls = to_schedule network_output 100 network_send_int ∷ [];
        packet = some packet;
      })
  read_in :
      network_call_back hdr.to (some packet) office.network
      ≡ some (to_schedule network_input 100 network_recv_int ∷ [], true, none, input)
  filed_in :
      postal_delivery junk'' buffer (record office { network = input }) ≡ some (delivered, buffer')
  received :
      post_receive mail_hdr.to bytes delivered
      ≡ some (
        record { to = hdr.to; from = sender; length = mail_hdr.length + 12 },
        mail_hdr,
        body ++ drop mail_hdr.length bytes,
        out,
      )
  same_boxes : out.boxes ≡ office.boxes
  at_rest : out.network.in_hdr.length ≡ 0

-- For words as addresses, a mail header with a box from 0 on and at most 40 bytes, buffers of their
-- sizes, a network input with no packet buffered and an empty box of that number: Send of the post
-- office gives a packet if none is lost; the CallBack of the network input on the host it goes to
-- takes it in, one round of PostalDelivery puts it into the box, and Receive from the box gives the
-- packet header with the sender and the length, the mail header, and the data in front of what the
-- buffer held behind; the boxes are then as before and the network input has no packet buffered.
pub post_send-post_receive :
    (sender : ℕ) (hdr : PacketHeader) (mail_hdr : MailHeader)
    (body more junk junk' junk'' buffer bytes : List ℕ) (office : PostOffice)
    → Fits sender hdr.to mail_hdr body
    → length junk ≡ 52
    → length junk' ≡ 64
    → length junk'' ≡ 40
    → length buffer ≡ 52
    → mail_hdr.length ≤ length bytes
    → office.network.in_hdr.length ≡ 0
    → length office.network.inbox ≡ 52
    → mail_hdr.to < office.num_boxes
    → get_elem? office.boxes mail_hdr.to ≡ some []
    → Passed sender hdr mail_hdr body more junk junk' junk'' buffer bytes office
post_send-post_receive sender hdr mail_hdr body more junk junk' junk'' buffer bytes office fits size
      size' size'' sizeb room idle inbox in_range at =
    let receiver = hdr.to in
    let mail = filed sender receiver mail_hdr body fits junk'' in
    let delivered : PostOffice = record office {
      network = emptied sender receiver mail_hdr body fits office.network.inbox;
      boxes = set office.boxes mail_hdr.to (mail ∷ []);
    } in
    let held =
      get_elem?-set_self office.boxes mail_hdr.to (mail ∷ [])
        (get_elem?-some office.boxes mail_hdr.to at) in
    record {
      packet = wire sender receiver mail_hdr body (drop (mail_hdr.length + 12) (drop 12 junk'));
      buffer' = payload mail_hdr body ++ drop (mail_hdr.length + 12) buffer;
      input = arrived sender receiver mail_hdr body office.network.inbox;
      delivered = delivered;
      out = record delivered { boxes = set delivered.boxes mail_hdr.to [] };
      sent =
          post_send-wire sender receiver mail_hdr body fits false hdr junk junk' more refl size
            size';
      read_in =
          network_call_back-arrived sender receiver mail_hdr body fits office.network _ idle inbox;
      filed_in =
          postal_delivery-filed sender receiver mail_hdr body fits office office.network.inbox
            junk'' buffer [] sizeb size'' in_range at;
      received =
          post_receive-filed sender receiver mail_hdr body fits delivered junk'' bytes [] room
            in_range held;
      same_boxes =
          set-set office.boxes mail_hdr.to (mail ∷ []) [] ∙ set-same office.boxes mail_hdr.to at;
      at_rest = refl;
    }
