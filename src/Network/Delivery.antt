-- ===== src/Network/Delivery.antt =====
-- A message from Send on one host to Receive on another.
use everything.Base.{
  ℕ, ◌+◌, ◌%◌, ◌^◌, ◌≤◌, ◌<◌, ◌≡◌, refl, sym, none, some, List, [], ◌∷◌, ◌++◌, true, false, Bool,
  leb, ltb, ◌==◌, if◌then◌else◌, arith, length, drop, length-append, length-drop, append_assoc,
  drop-append,
}
use everything.Interrupt.{to_schedule, network_send_int, network_recv_int}
use everything.Network.{
  PacketHeader, MailHeader, NetworkInput, network_input, network_output, header_bytes, network_send,
  network_call_back, post_send,
}
use everything.Network.Bytes.{
  read_header-header_bytes, length-header_bytes, bcopy-append, bcopy-front, bcopy-whole,
}

-- The mail header and the data, as they travel.
abbrev pub payload : MailHeader → List ℕ → List ℕ
payload mail_hdr body = header_bytes mail_hdr.to mail_hdr.from mail_hdr.length ++ body

-- The header that the message arrives with.
abbrev pub stamped : ℕ → ℕ → MailHeader → PacketHeader
stamped sender receiver mail_hdr = record {
  to = receiver;
  from = sender;
  length = mail_hdr.length + 12;
}

abbrev pub wire : ℕ → ℕ → MailHeader → List ℕ → List ℕ → List ℕ
wire sender receiver mail_hdr body rest =
    header_bytes receiver sender (mail_hdr.length + 12) ++ (payload mail_hdr body ++ rest)

-- The input once it has read the packet in.
abbrev pub arrived : ℕ → ℕ → MailHeader → List ℕ → List ℕ → NetworkInput
arrived sender receiver mail_hdr body inbox = record {
  in_hdr = stamped sender receiver mail_hdr;
  inbox = payload mail_hdr body ++ drop (mail_hdr.length + 12) inbox;
}

-- The sizes and ranges that the code relies on.
pub record Fits (sender receiver : ℕ) (mail_hdr : MailHeader) (body : List ℕ) : Type 0 where
  pub sender_word : sender < 2 ^ 32
  pub receiver_word : receiver < 2 ^ 32
  pub box : mail_hdr.to < 2 ^ 31
  pub reply : mail_hdr.from < 2 ^ 32
  pub small : mail_hdr.length ≤ 40
  pub whole : length body ≡ mail_hdr.length

append_unassoc : (xs ys zs : List ℕ) → xs ++ (ys ++ zs) ≡ (xs ++ ys) ++ zs
append_unassoc xs ys zs = sym (append_assoc xs ys zs)

module _ (sender receiver : ℕ) (mail_hdr : MailHeader) (body : List ℕ)
    (fits : Fits sender receiver mail_hdr body) where
  pub length-payload : length (payload mail_hdr body) ≡ 12 + mail_hdr.length
  length-payload = omega (
    arith,
    length-append (header_bytes mail_hdr.to mail_hdr.from mail_hdr.length) body,
    length-header_bytes mail_hdr.to mail_hdr.from mail_hdr.length,
    fits.whole,
  )

  network_send-wire :
      (lost : Bool) (junk rest : List ℕ)
      → length junk ≡ 64
      → network_send sender false lost junk
          (stamped sender receiver mail_hdr)
          (payload mail_hdr body ++ rest)
        ≡ some (record {
          calls = to_schedule network_output 100 network_send_int ∷ [];
          packet =
              if lost
              then none
              else some
                  (wire sender receiver mail_hdr body (drop (mail_hdr.length + 12) (drop 12 junk)));
        })
  unfolding network_send
  network_send-wire lost junk rest size =
      let short : leb (mail_hdr.length + 12) 52 ≡ true = ground (arith, fits.small) in
      let some_bytes : ltb 0 (mail_hdr.length + 12) ≡ true = ground arith in
      let same : (sender == sender) ≡ true = ground arith in
      let hb = header_bytes receiver sender (mail_hdr.length + 12) in
      let hl = length-header_bytes receiver sender (mail_hdr.length + 12) in
      rw
        (
          some_bytes,
          short,
          same,
          bcopy-whole junk hb 12 hl (omega arith),
          bcopy-append hb (drop 12 junk) (payload mail_hdr body) rest 12 (mail_hdr.length + 12) hl
              (omega (arith, length-payload)) (omega (arith, length-drop 12 junk, fits.small)),
        )
        refl

  pub post_send-wire :
      (lost : Bool) (hdr : PacketHeader) (junk junk' more : List ℕ)
      → hdr.to ≡ receiver
      → length junk ≡ 52
      → length junk' ≡ 64
      → post_send sender false lost junk junk' hdr mail_hdr (body ++ more)
        ≡ some (record {
          calls = to_schedule network_output 100 network_send_int ∷ [];
          packet =
              if lost
              then none
              else some (
                  wire sender receiver mail_hdr body (drop (mail_hdr.length + 12) (drop 12 junk')));
        })
  unfolding post_send
  post_send-wire lost hdr junk junk' more dest size size' =
      let short : leb mail_hdr.length 40 ≡ true = ground (arith, fits.small) in
      let low : ltb mail_hdr.to (2 ^ 31) ≡ true = ground (arith, fits.box) in
      let exact : (mail_hdr.length + 12) % 2 ^ 32 ≡ mail_hdr.length + 12 =
        omega (arith, fits.small) in
      let hb = header_bytes mail_hdr.to mail_hdr.from mail_hdr.length in
      let hl = length-header_bytes mail_hdr.to mail_hdr.from mail_hdr.length in
      rw
        (
          short,
          low,
          exact,
          dest,
          bcopy-whole junk hb 12 hl (omega arith),
          bcopy-append hb (drop 12 junk) body more 12 mail_hdr.length hl fits.whole
              (omega (arith, length-drop 12 junk, fits.small)),
          append_unassoc hb body (drop mail_hdr.length (drop 12 junk)),
        )
        (network_send-wire lost junk' (drop mail_hdr.length (drop 12 junk)) size')

  pub network_call_back-arrived :
      (input : NetworkInput) (rest : List ℕ)
      → input.in_hdr.length ≡ 0
      → length input.inbox ≡ 52
      → network_call_back receiver (some (wire sender receiver mail_hdr body rest)) input
        ≡ some (
          to_schedule network_input 100 network_recv_int ∷ [],
          true,
          none,
          arrived sender receiver mail_hdr body input.inbox,
        )
  unfolding network_call_back
  network_call_back-arrived input rest idle size =
      let free : (input.in_hdr.length == 0) ≡ true = ground (arith, idle) in
      let short : leb (mail_hdr.length + 12) 52 ≡ true = ground (arith, fits.small) in
      let same : (receiver == receiver) ≡ true = ground arith in
      let hb = header_bytes receiver sender (mail_hdr.length + 12) in
      let hl = length-header_bytes receiver sender (mail_hdr.length + 12) in
      rw
        (
          free,
          read_header-header_bytes receiver sender (mail_hdr.length + 12)
              (payload mail_hdr body ++ rest) fits.receiver_word fits.sender_word
              (omega (arith, fits.small)),
          same,
          short,
          drop-append 12 0 hb (payload mail_hdr body ++ rest) hl,
          bcopy-front input.inbox (payload mail_hdr body) rest (mail_hdr.length + 12)
              (omega (arith, length-payload)) (omega (arith, fits.small)),
        )
        refl
