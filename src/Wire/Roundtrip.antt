-- ===== src/Wire/Roundtrip.antt =====
-- A message that is sent and read back, over a connection that delivers what it is given.
use mathlib.Core.List.{append-nil, append_assoc}
use substance_3d_connector.Base.{
  ℕ, ◌+◌, ◌^◌, ◌<◌, ◌≤◌, ◌≡◌, ◌≢◌, refl, ap, ◌∙◌, arith, List, [], ◌∷◌, ◌++◌, some, length, true,
  u32, take, drop, take-append_length, drop-append_length, length-append, sym, ==_iff, ◌==◌,
  if◌then◌else◌,
}
use substance_3d_connector.Retcode.{Retcode}
use substance_3d_connector.Message.{Header, Message, identify_message}
use substance_3d_connector.Wire.{
  Fits, Platform, Socket, htonheader, ntohheader, send_message_generic, read_message_generic,
  read_identified, read_body, take_over, c_string, copy_string,
}
use substance_3d_connector.Wire.Bounds.{request, take_over-fits}

-- Converting a header to network order and back gives the header.
pub ntohheader-htonheader : (p : Platform) (h : Header) → Fits h → ntohheader p (htonheader p h) ≡ h
ntohheader-htonheader p h f = ground (
  arith,
  p.ntohs-htons h.description f.description,
  p.ntohl-htonl h.message_length f.message_length,
  p.ntohl-htonl h.message_id.e0 f.e0,
  p.ntohl-htonl h.message_id.e1 f.e1,
  p.ntohl-htonl h.message_id.e2 f.e2,
  p.ntohl-htonl h.message_id.e3 f.e3,
)

htonheader-Fits : (p : Platform) (h : Header) → Fits h → Fits (htonheader p h)
htonheader-Fits p h f = record {
  description = p.htons-lt h.description f.description;
  message_length = p.htonl-lt h.message_length f.message_length;
  e0 = p.htonl-lt h.message_id.e0 f.e0;
  e1 = p.htonl-lt h.message_id.e1 f.e1;
  e2 = p.htonl-lt h.message_id.e2 f.e2;
  e3 = p.htonl-lt h.message_id.e3 f.e3;
}

-- A socket that sends and delivers whole buffers: `queue w fd` are the bytes on their way, a send
-- appends all of its bytes, and a read of no more bytes than are there gives the first of them.
pub record Delivers {W : Type 0} (s : Socket W) : Type 0 where
  pub queue : W → ℕ → List ℕ
  pub sends :
      (w : W) (fd : ℕ) (bytes : List ℕ)
      → ((s.send w fd bytes).0 ≡ some (length bytes))
        × (queue (s.send w fd bytes).1 fd ≡ queue w fd ++ bytes)
  pub receives :
      (w : W) (fd n : ℕ)
      → n ≤ length (queue w fd)
      → ((s.recv w fd n).0 ≡ some (take n (queue w fd)))
        × (queue (s.recv w fd n).1 fd ≡ drop n (queue w fd))

-- A string of C has no zero byte.
abbrev pub NoZero : List ℕ → Type 0
NoZero [] = Unit {0}
NoZero (b ∷ bytes) = (b ≢ 0) × NoZero bytes

c_string-NoZero : (text : List ℕ) → NoZero text → c_string text ≡ text
c_string-NoZero [] h = refl
c_string-NoZero (b ∷ text) h = ground (arith, c_string-NoZero text h.1)

copy_string-whole :
    (text : List ℕ) (n : ℕ) → length text ≡ n → copy_string n (some text) ≡ some text
copy_string-whole text n h = ground (arith, take-append_length text (0 ∷ []) n)

module _ (p : Platform) {W : Type 0} (s : Socket W) (d : Delivers s) (fd : ℕ) where
  -- What is on its way after a send.
  abbrev pub packet : Header → List ℕ → List ℕ
  packet h text = p.encode (htonheader p h) ++ text

  -- A read of the first of two parts that are on their way.
  recv-part :
      (w : W) (first second : List ℕ)
      → d.queue w fd ≡ first ++ second
      → (v : W) × (s.recv w fd (length first) ≡ (some first, v)) × (d.queue v fd ≡ second)
  recv-part w first second h =
      let there : length first ≤ length (d.queue w fd) =
        omega (arith, ap length h, length-append first second) in
      let (got, left) = d.receives w fd (length first) there in
      (
        (s.recv w fd (length first)).1,
        ap (λ o. (o, (s.recv w fd (length first)).1))
            (got
              ∙ ap (λ l. some (take (length first) l)) h
              ∙ ap some (take-append_length first second (length first) refl)),
        left ∙ ap (drop (length first)) h ∙ drop-append_length first second (length first) refl,
      )

  pub send_delivers :
      (w : W) (m : Message) (text : List ℕ)
      → m.message ≡ some text
      → length text ≡ m.header.message_length
      → (v : W) × (send_message_generic p s w fd m ≡ some (Retcode.success, v))
        × (d.queue v fd ≡ d.queue w fd ++ packet m.header text)
  unfolding send_message_generic
  send_delivers w m text e l =
      let (sent, after) = d.sends w fd (packet m.header text) in
      (
        (s.send w fd (packet m.header text)).1,
        ground (arith, copy_string-whole text m.header.message_length l, sent),
        after,
      )

  -- The header and the text being read in two parts, what each step of the reader does.
  read_body-header :
      (u : W) (m m' : Message)
      → Fits m.header
      → read_body p s fd m' (some (p.encode (htonheader p m.header)), u)
        ≡ read_identified p s u fd (record m' { header = m.header })
  unfolding read_body
  read_body-header u m m' f =
      ap
        (λ b.
          if b
          then read_identified p s u fd (record m' { header = ntohheader p (p.decode bytes) })
          else some (Retcode.read_fail, m', u))
        sized
      ∙ ap (λ h. read_identified p s u fd (record m' { header = h })) back
    where
      bytes : List ℕ
      bytes = p.encode (htonheader p m.header)

      sized : (length bytes == p.header_size) ≡ true
      sized = (==_iff _ _).1 (p.length-encode (htonheader p m.header))

      back : ntohheader p (p.decode bytes) ≡ m.header
      back =
          ap (ntohheader p) (p.decode-encode _ (htonheader-Fits p m.header f))
          ∙ ntohheader-htonheader p m.header f

  read_identified-text :
      (u z : W) (m : Message) (text : List ℕ)
      → m.header.message_length + 1 < 2 ^ 32
      → identify_message m.header.description ≡ true
      → length text ≡ m.header.message_length
      → NoZero text
      → s.recv u fd (length text) ≡ (some text, z)
      → read_identified p s u fd m ≡ some (Retcode.success, record m { message = some text }, z)
  unfolding read_identified
  read_identified-text u z m text small id l nz body = rw id (
      ap (λ n. take_over size m (s.recv u fd n)) (request m.header.message_length small ∙ sym l)
      ∙ ap (take_over size m) body
      ∙ take_over-fits size m text z (omega arith)
      ∙ ap (λ t. some (Retcode.success, record m { message = some t }, z))
          (c_string-NoZero text nz))
    where
      size : ℕ
      size = u32 (m.header.message_length + 1)

  -- A packet that is first on the way is read, and the rest stays.
  pub read_message-packet :
      (v : W) (m m' : Message) (text rest : List ℕ)
      → Fits m.header
      → m.header.message_length + 1 < 2 ^ 32
      → identify_message m.header.description ≡ true
      → length text ≡ m.header.message_length
      → NoZero text
      → d.queue v fd ≡ packet m.header text ++ rest
      → (z : W) × (read_message_generic p s v fd m'
          ≡ some (Retcode.success, record m' { header = m.header; message = some text }, z))
        × (d.queue z fd ≡ rest)
  unfolding read_message_generic
  read_message-packet v m m' text rest f small id l nz way =
      let (u, head, behind) =
        recv-part v (p.encode (htonheader p m.header)) (text ++ rest)
          (way ∙ append_assoc (p.encode (htonheader p m.header)) text rest) in
      let (z, body, done) = recv-part u text rest behind in
      (
        z,
        ap (read_body p s fd m')
              (ap (s.recv v fd) (sym (p.length-encode (htonheader p m.header))) ∙ head)
            ∙ read_body-header u m m' f
            ∙ read_identified-text u z (record m' { header = m.header }) text small id l nz body,
        done,
      )

  -- A message that was identified on sending arrives in the reader with its header and text, and
  -- nothing is left on the way: both calls succeed, without a write outside of a buffer, for
  -- headers that fit their C types and announce the length of a text of fewer than `2 ^ 32 - 1`
  -- bytes, none of them zero, when nothing was on the way before. The socket is one whose send takes
  -- all the bytes and puts them behind the ones on the way, and whose read of no more bytes than are
  -- there gives exactly the number asked for.
  pub read_message-send :
      (w : W) (m m' : Message) (text : List ℕ)
      → Fits m.header
      → m.header.message_length + 1 < 2 ^ 32
      → identify_message m.header.description ≡ true
      → m.message ≡ some text
      → length text ≡ m.header.message_length
      → NoZero text
      → d.queue w fd ≡ []
      → (v : W) × (z : W) × (send_message_generic p s w fd m ≡ some (Retcode.success, v))
        × (read_message_generic p s v fd m'
            ≡ some (Retcode.success, record m' { header = m.header; message = some text }, z))
        × (d.queue z fd ≡ [])
  read_message-send w m m' text f small id e l nz empty =
      let (v, sent, way) = send_delivers w m text e l in
      let (z, got, done) = read_message-packet v m m' text [] f small id l nz (
        way
        ∙ ap (λ q. q ++ packet m.header text) empty
        ∙ sym (append-nil (packet m.header text))) in
      (v, z, sent, got, done)
