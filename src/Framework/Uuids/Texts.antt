-- ===== src/Framework/Uuids/Texts.antt =====
-- The text of an identifier is read back.
use substance_3d_connector.Base.{
  ℕ, zero, suc, ◌+◌, ◌/◌, ◌%◌, ◌^◌, ◌<◌, ◌≡◌, ◌≢◌, refl, arith, ◌∙◌, ap, ap₂, sym, if◌then◌else◌,
  List, [], ◌∷◌, ◌++◌, length, set, ne→==, length-append, append_nil, leb, replicate,
}
use mathlib.Core.List.{append_assoc}
use substance_3d_connector.Uuid.{Uuid}
use substance_3d_connector.Framework.Uuids.{
  hex_digit, print_hex, dash, read_hex, Reading, read_characters, uuid_to_string, to_uuid,
  uuid_from_string,
}
use substance_3d_connector.Framework.Uuids.Hex.{
  fixed, print_hex-fixed, hex_digit_range, read_hex-fixed, lt→leb,
}

-- The characters are not dashes.
abbrev NoDash : List ℕ → Type 0
NoDash [] = Unit
NoDash (c ∷ s) = (c ≢ dash) × NoDash s

-- A character inside an element is kept.
read_inside :
    (c : ℕ) (s : List ℕ) (r : Reading)
    → c ≢ dash
    → length r.current < 7
    → read_characters (c ∷ s) r ≡ read_characters s (record r { current = r.current ++ (c ∷ []) })
unfolding read_characters
read_inside c s r other short =
    rw
      (
        ne→== c dash other,
        ne→== (length (r.current ++ (c ∷ []))) 8 (omega (arith, length-append r.current (c ∷ []))),
        ne→== (length (r.current ++ (c ∷ []))) 0 (omega (arith, length-append r.current (c ∷ []))),
      )
      refl

-- The eighth character ends it.
read_last :
    (c : ℕ) (s : List ℕ) (r : Reading)
    → c ≢ dash
    → length r.current ≡ 7
    → read_characters (c ∷ s) r ≡ (
        let next : Reading = record {
          elements = set r.elements r.index (read_hex (r.current ++ (c ∷ [])));
          index = r.index + 1;
          current = [];
        } in
        if leb 4 (r.index + 1) then next else read_characters s next)
unfolding read_characters
read_last c s r other full =
    let e : length (r.current ++ (c ∷ [])) ≡ 8 = omega (arith, length-append r.current (c ∷ [])) in
    rw (ne→== c dash other, e) refl

read_dash : (s : List ℕ) (r : Reading) → read_characters (dash ∷ s) r ≡ read_characters s r
unfolding read_characters
read_dash s r = refl

-- Characters of one element, without its end.
read_part :
    (cs s : List ℕ) (es : List ℕ) (i : ℕ) (pre : List ℕ)
    → NoDash cs
    → length pre + length cs < 8
    → read_characters (cs ++ s) (record { elements = es; index = i; current = pre })
      ≡ read_characters s (record { elements = es; index = i; current = pre ++ cs })
read_part [] s es i pre d h = rw (append_nil pre) refl
read_part (c ∷ cs) s es i pre (other, d) h =
    read_inside c (cs ++ s) _ other (omega arith)
    ∙ read_part cs s es i (pre ++ (c ∷ [])) d (omega (arith, length-append pre (c ∷ [])))
    ∙ rw (append_assoc pre (c ∷ []) cs) refl

-- Its end.
read_rest :
    (cs s : List ℕ) (es : List ℕ) (i : ℕ) (pre : List ℕ)
    → NoDash cs
    → 0 < length cs
    → length pre + length cs ≡ 8
    → read_characters (cs ++ s) (record { elements = es; index = i; current = pre }) ≡ (
        let next : Reading = record {
          elements = set es i (read_hex (pre ++ cs));
          index = i + 1;
          current = [];
        } in
        if leb 4 (i + 1) then next else read_characters s next)
read_rest [] s es i pre d some_left h = absurd (omega arith)
read_rest (c ∷ []) s es i pre (other, d) some_left h = read_last c s _ other (omega arith)
read_rest (c ∷ b ∷ cs) s es i pre (other, d) some_left h =
    read_inside c _ _ other (omega arith)
    ∙ read_rest (b ∷ cs) s es i (pre ++ (c ∷ [])) d (omega arith)
        (omega (arith, length-append pre (c ∷ [])))
    ∙ rw (append_assoc pre (c ∷ []) (b ∷ cs)) refl

NoDash-fixed : (k n : ℕ) (rest : List ℕ) → NoDash rest → NoDash (fixed k n rest)
NoDash-fixed zero n rest d = d
NoDash-fixed (suc k) n rest d =
    NoDash-fixed k (n / 16) _ (omega (arith, hex_digit_range (n % 16)), d)

digit_cons : (a b : ℕ) (xs ys : List ℕ) → a ≡ b → xs ≡ ys → hex_digit a ∷ xs ≡ hex_digit b ∷ ys
digit_cons a b xs ys e es = ap₂ (λ d l. hex_digit d ∷ l) e es

-- The halves of an element, one after the other.
halves : (n : ℕ) → fixed 4 (n / 2 ^ 16) [] ++ fixed 4 (n % 2 ^ 16) [] ≡ fixed 8 n []
halves n = digit_cons _ _ _ _ (omega arith) (
    digit_cons _ _ _ _ (omega arith) (
      digit_cons _ _ _ _ (omega arith) (
        digit_cons _ _ _ _ (omega arith) (
          digit_cons _ _ _ _ (omega arith) (
            digit_cons _ _ _ _ (omega arith)
              (digit_cons _ _ _ _ (omega arith) (digit_cons _ _ _ _ (omega arith) refl)))))))

-- An element whose halves are separated by a dash, with more elements behind it.
read_split :
    (n : ℕ) (s : List ℕ) (es : List ℕ) (i : ℕ)
    → n < 2 ^ 32
    → i < 3
    → read_characters
        (print_hex 4 (n / 2 ^ 16) ++ (dash ∷ (print_hex 4 (n % 2 ^ 16) ++ s)))
        (record { elements = es; index = i; current = [] })
      ≡ read_characters s (record { elements = set es i n; index = i + 1; current = [] })
read_split n s es i small more =
    rw
      (
        print_hex-fixed 3 (n / 2 ^ 16) (omega arith) (omega arith),
        print_hex-fixed 3 (n % 2 ^ 16) (omega arith) (omega arith),
      )
      (read_part (fixed 4 (n / 2 ^ 16) []) _ es i [] (NoDash-fixed 4 _ [] tt) (omega arith)
        ∙ read_dash _ _
        ∙ read_rest (fixed 4 (n % 2 ^ 16) []) s es i (fixed 4 (n / 2 ^ 16) [])
            (NoDash-fixed 4 _ [] tt) (omega arith) (omega arith)
        ∙ rw (halves n, read_hex-fixed n (omega arith), lt→leb 4 (i + 1) (omega arith)) refl)

-- An element that is printed whole.
read_whole :
    (n : ℕ) (s : List ℕ) (es : List ℕ) (i : ℕ)
    → n < 2 ^ 32
    → read_characters (print_hex 8 n ++ s) (record { elements = es; index = i; current = [] }) ≡ (
        let next : Reading = record { elements = set es i n; index = i + 1; current = [] } in
        if leb 4 (i + 1) then next else read_characters s next)
read_whole n s es i small = rw (print_hex-fixed 7 n (omega arith) (omega arith)) (
    read_rest (fixed 8 n []) s es i [] (NoDash-fixed 8 _ [] tt) (omega arith) (omega arith)
    ∙ rw (read_hex-fixed n (omega arith)) refl)

-- The four elements are 32-bit values.
abbrev pub Fits32 : Uuid → Type 0
Fits32 u = (u.e0 < 2 ^ 32) × (u.e1 < 2 ^ 32) × (u.e2 < 2 ^ 32) × (u.e3 < 2 ^ 32)

-- The text of an identifier with elements of 32 bits is read back as the same identifier.
pub uuid_string_roundtrip : (u : Uuid) → Fits32 u → uuid_from_string (uuid_to_string u) ≡ u
unfolding uuid_from_string uuid_to_string
uuid_string_roundtrip u (s0, s1, s2, s3) =
    let t3 = print_hex 8 u.e3 in
    let t2 = print_hex 4 (u.e2 / 2 ^ 16) ++ (dash ∷ (print_hex 4 (u.e2 % 2 ^ 16) ++ t3)) in
    let t1 = print_hex 4 (u.e1 / 2 ^ 16) ++ (dash ∷ (print_hex 4 (u.e1 % 2 ^ 16) ++ (dash ∷ t2))) in
    let r1 : Reading = record { elements = u.e0 ∷ 0 ∷ 0 ∷ 0 ∷ []; index = 1; current = [] } in
    let r2 : Reading = record { elements = u.e0 ∷ u.e1 ∷ 0 ∷ 0 ∷ []; index = 2; current = [] } in
    let r3 : Reading = record { elements = u.e0 ∷ u.e1 ∷ u.e2 ∷ 0 ∷ []; index = 3; current = [] } in
    ap (λ (r : Reading). to_uuid r.elements)
      (read_whole u.e0 (dash ∷ t1) (replicate 4 0) 0 s0
        ∙ read_dash t1 r1
        ∙ read_split u.e1 (dash ∷ t2) r1.elements 1 s1 (omega arith)
        ∙ read_dash t2 r2
        ∙ read_split u.e2 t3 r2.elements 2 s2 (omega arith)
        ∙ sym (ap (λ t. read_characters t r3) (append_nil t3))
        ∙ read_whole u.e3 [] r3.elements 3 s3)
