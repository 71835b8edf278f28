-- ===== src/Delivery/Channel.antt =====
-- A connection with two ends: what one socket sends on its descriptor the other one receives.
use substance_3d_connector.Base.{
  ℕ, ◌+◌, ◌^◌, ◌<◌, ◌≤◌, ◌≡◌, refl, ◌∙◌, List, ◌++◌, Option, none, some, length, true, take, drop,
}
use substance_3d_connector.Retcode.{Retcode}
use substance_3d_connector.Message.{Header, Message, identify_message}
use substance_3d_connector.Wire.{
  Fits, Platform, Socket, htonheader, send_message_generic, read_message_generic, read_identified,
  read_body, read_message_data,
}
use substance_3d_connector.Wire.Roundtrip.{Delivers, NoZero, send_delivers, read_message-packet}

-- The bytes on their way; a send appends all of its bytes, and a read of no more bytes than are
-- there gives the first of them.
pub record Carries {W : Type 0} (here there : Socket W) (fd fd' : ℕ) : Type 0 where
  pub queue : W → List ℕ
  pub sends :
      (w : W) (bytes : List ℕ)
      → ((here.send w fd bytes).0 ≡ some (length bytes))
        × (queue (here.send w fd bytes).1 ≡ queue w ++ bytes)
  pub receives :
      (w : W) (n : ℕ)
      → n ≤ length (queue w)
      → ((there.recv w fd' n).0 ≡ some (take n (queue w)))
        × (queue (there.recv w fd' n).1 ≡ drop n (queue w))

-- The bytes of a message.
abbrev pub packet_of : Platform → Header → List ℕ → List ℕ
packet_of p h text = p.encode (htonheader p h) ++ text

module _ {W : Type 0} (here there : Socket W) (fd fd' : ℕ) where
  -- The two ends as one socket.
  abbrev joined : Socket W
  joined = record { recv = λ w f n. there.recv w fd' n; send = λ w f bytes. here.send w fd bytes }

  abbrev joined-Delivers : Carries here there fd fd' → Delivers joined
  joined-Delivers c = record {
    queue = λ w f. c.queue w;
    sends = λ w f bytes. c.sends w bytes;
    receives = λ w f n h. c.receives w n h;
  }

  send-joined :
      (p : Platform) (w : W) (m : Message)
      → send_message_generic p here w fd m ≡ send_message_generic p joined w 0 m
  unfolding send_message_generic
  send-joined p w m = refl

  read_body-joined :
      (p : Platform) (m : Message) (got : Option (List ℕ) × W)
      → read_body p there fd' m got ≡ read_body p joined 0 m got
  unfolding read_body read_identified read_message_data
  read_body-joined p m (none, w) = refl
  read_body-joined p m (some bytes, w) = refl

  read-joined :
      (p : Platform) (w : W) (m : Message)
      → read_message_generic p there w fd' m ≡ read_message_generic p joined w 0 m
  unfolding read_message_generic
  read-joined p w m = read_body-joined p m (there.recv w fd' p.header_size)

  module _ (p : Platform) (c : Carries here there fd fd') where
    -- A message that is sent at the one end is put behind what is on the way.
    pub packet_sent :
        (w : W) (m : Message) (text : List ℕ)
        → m.message ≡ some text
        → length text ≡ m.header.message_length
        → (v : W) × (send_message_generic p here w fd m ≡ some (Retcode.success, v))
          × (c.queue v ≡ c.queue w ++ packet_of p m.header text)
    packet_sent w m text e l =
        let (v, sent, way) = send_delivers p joined (joined-Delivers c) 0 w m text e l in
        (v, send-joined p w m ∙ sent, way)

    -- The message that is first on the way is received at the other end.
    pub packet_received :
        (v : W) (m m' : Message) (text rest : List ℕ)
        → Fits m.header
        → m.header.message_length + 1 < 2 ^ 32
        → identify_message m.header.description ≡ true
        → length text ≡ m.header.message_length
        → NoZero text
        → c.queue v ≡ packet_of p m.header text ++ rest
        → (z : W) × (read_message_generic p there v fd' m'
            ≡ some (Retcode.success, record m' { header = m.header; message = some text }, z))
          × (c.queue z ≡ rest)
    packet_received v m m' text rest f small id l nz way =
        let (z, got, done) =
          read_message-packet p joined (joined-Delivers c) 0 v m m' text rest f small id l nz way in
        (z, read-joined p v m' ∙ got, done)
