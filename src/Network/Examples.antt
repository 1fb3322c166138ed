-- ===== src/Network/Examples.antt =====
-- Three bytes from host 0 to box 1 of host 1.
use everything.Base.{refl, [], ◌∷◌, replicate, arith}
use everything.Network.{PacketHeader, MailHeader, PostOffice}
use everything.Network.Delivery.{Fits}
use everything.Network.RoundTrip.{Passed, post_send-post_receive}

abbrev to_one : PacketHeader
to_one = record { to = 1; from = 99; length = 0 }

abbrev note : MailHeader
note = record { to = 1; from = 3; length = 3 }

abbrev two_boxes : PostOffice
two_boxes = record {
  network = record { in_hdr = record { to = 0; from = 0; length = 0 }; inbox = replicate 52 7 };
  boxes = [] ∷ [] ∷ [];
  num_boxes = 2;
}

note-Fits : Fits 0 1 note (104 ∷ 105 ∷ 0 ∷ [])
note-Fits = record {
  sender_word = omega arith;
  receiver_word = omega arith;
  box = omega arith;
  reply = omega arith;
  small = omega arith;
  whole = refl;
}

post_send-post_receive_example :
    Passed 0 to_one note
      (104 ∷ 105 ∷ 0 ∷ [])
      (1 ∷ 2 ∷ [])
      (replicate 52 1)
      (replicate 64 2)
      (replicate 40 3)
      (replicate 52 4)
      (replicate 8 5)
      two_boxes
post_send-post_receive_example =
    post_send-post_receive 0 to_one note (104 ∷ 105 ∷ 0 ∷ []) (1 ∷ 2 ∷ []) (replicate 52 1)
      (replicate 64 2) (replicate 40 3) (replicate 52 4) (replicate 8 5) two_boxes note-Fits refl
      refl refl refl (omega arith) refl refl (omega arith) refl
