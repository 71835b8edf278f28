-- ===== src/Wire/Bounds.antt =====
-- The buffer of a read: its bounds, and what a short read leaves in it.
use substance_3d_connector.Base.{
  ℕ, ◌+◌, ◌-◌, zero, suc, ◌^◌, ◌<◌, ◌≤◌, ◌≡◌, ◌≢◌, refl, ap, ◌∙◌, arith, List, [], ◌∷◌, ◌++◌,
  Option, true, false, none, some, length, replicate, u32,
}
use substance_3d_connector.Retcode.{Retcode}
use substance_3d_connector.Message.{Message}
use substance_3d_connector.Wire.{Platform, Socket, sub_size, take_over, read_message_data, c_string}

-- Filling a buffer past a text adds nothing to the string in it.
c_string-append_zeros :
    (bytes : List ℕ) (n : ℕ) → c_string (bytes ++ replicate n 0) ≡ c_string bytes
c_string-append_zeros [] zero = refl
c_string-append_zeros [] (suc n) = refl
c_string-append_zeros (b ∷ bytes) n = ground (arith, c_string-append_zeros bytes n)

pub take_over-fits {ℓ} :
    {W : Type ℓ} (size : ℕ) (m : Message) (bytes : List ℕ) (w : W)
    → length bytes ≤ size
    → take_over size m (some bytes, w)
      ≡ some (Retcode.success, record m { message = some (c_string bytes) }, w)
unfolding take_over
take_over-fits size m bytes w h = ground (arith, c_string-append_zeros bytes (size - length bytes))

take_over-empty {ℓ} :
    {W : Type ℓ} (size : ℕ) (m : Message) (b : ℕ) (bytes : List ℕ) (w : W)
    → size ≡ 0
    → take_over size m (some (b ∷ bytes), w) ≡ none
unfolding take_over
take_over-empty size m b bytes w h = ground arith

take_over-ne-none {ℓ} :
    {W : Type ℓ} (size : ℕ) (m : Message) (r : Option (List ℕ) × W)
    → ((bytes : List ℕ) → r.0 ≡ some bytes → length bytes ≤ size)
    → take_over size m r ≢ none
unfolding take_over
take_over-ne-none size m (none, w) h e = cc
take_over-ne-none size m (some bytes, w) h e = ground (arith, h bytes refl)

-- Below the wrap the code asks for exactly the bytes that the header announces.
pub request : (n : ℕ) → n + 1 < 2 ^ 32 → sub_size (u32 (n + 1)) 1 ≡ n
request n h = omega arith

module _ (p : Platform) {W : Type 0} (s : Socket W) where
  -- Where the header announces fewer than `2 ^ 32 - 1` bytes and the socket puts no more bytes into
  -- the buffer than it is asked for, reading the text stays inside the buffer when the allocator has
  -- memory for it, and writes outside of any when it has not.
  pub read_message_data-bounded :
      (w : W) (fd : ℕ) (m : Message)
      → m.header.message_length + 1 < 2 ^ 32
      → ((n : ℕ) (bytes : List ℕ) → (s.recv w fd n).0 ≡ some bytes → length bytes ≤ n)
      → (read_message_data p s true w fd m ≢ none) × (read_message_data p s false w fd m ≡ none)
  unfolding read_message_data
  read_message_data-bounded w fd m h bounded = (
    rw (request m.header.message_length h) (
        take_over-ne-none (u32 (m.header.message_length + 1)) m
          (s.recv w fd m.header.message_length)
          (λ bytes e. omega (arith, bounded m.header.message_length bytes e))),
    ground arith,
  )

  -- A header that announces `2 ^ 32 - 1` bytes gets an empty buffer and a request for
  -- `2 ^ 64 - 1` bytes: any byte that arrives is written outside of it.
  pub read_message_data-overflow :
      (w : W) (fd : ℕ) (m : Message) (b : ℕ) (bytes : List ℕ) (w' : W)
      → m.header.message_length ≡ 2 ^ 32 - 1
      → s.recv w fd (2 ^ 64 - 1) ≡ (some (b ∷ bytes), w')
      → read_message_data p s true w fd m ≡ none
  unfolding read_message_data
  read_message_data-overflow w fd m b bytes w' h e =
      ap (λ n. take_over (u32 (n + 1)) m (s.recv w fd (sub_size (u32 (n + 1)) 1))) h
      ∙ ap (take_over 0 m) e
      ∙ take_over-empty 0 m b bytes w' refl

  -- A read that gives fewer bytes than announced is taken for the whole text: the code reports
  -- success, and the text ends where the bytes do.
  pub short_read_accepted :
      (w : W) (fd : ℕ) (m : Message) (bytes : List ℕ) (w' : W)
      → m.header.message_length + 1 < 2 ^ 32
      → s.recv w fd m.header.message_length ≡ (some bytes, w')
      → length bytes < m.header.message_length
      → read_message_data p s true w fd m
        ≡ some (Retcode.success, record m { message = some (c_string bytes) }, w')
  unfolding read_message_data
  short_read_accepted w fd m bytes w' h e l =
      rw (request m.header.message_length h, e) (take_over-fits _ m bytes w' (omega arith))
