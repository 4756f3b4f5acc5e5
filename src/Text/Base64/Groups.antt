-- ===== src/Text/Base64/Groups.antt =====
-- The coder and the decoder of base64, three bytes and four characters at a time.
use ytlib.Base.{
  ℕ, ◌+◌, ◌-◌, ◌*◌, ◌/◌, ◌%◌, ◌^◌, ◌<◌, ◌≡◌, refl, true, false, not, ◌&&◌, List, [], ◌∷◌, ◌++◌,
  arith, ltb, ◌==◌, if◌then◌else◌,
}
use ytlib.Text.Base64.{base64_char, bit_val, u32, pick, pad, encode_from, after, emit, decode_from}

pub bit_val-base64_char : (v : ℕ) → v < 64 → bit_val (base64_char v) ≡ v
unfolding bit_val base64_char
bit_val-base64_char v h = ground arith

-- The three bytes as one number.
abbrev pub word : ℕ → ℕ → ℕ → ℕ
word a b c = a * 2 ^ 16 + b * 2 ^ 8 + c

abbrev pub group : ℕ → List ℕ
group w = pick w (2 ^ 18) ∷ pick w (2 ^ 12) ∷ pick w (2 ^ 6) ∷ pick w 1 ∷ []

-- One iteration of the coder, by the remainder of its index.
module _ (ii o bits c : ℕ) (src : List ℕ) where
  encode_first :
      ii % 3 ≡ 0
      → encode_from ii o bits (c ∷ src)
        ≡ pick ((bits + c * 2 ^ 16) % u32) (2 ^ 18)
          ∷ encode_from (ii + 1) 16 ((bits + c * 2 ^ 16) % u32) src
  unfolding encode_from
  encode_first h = let e : 16 - ii % 3 * 8 ≡ 16 = omega arith in rw e

  encode_second :
      ii % 3 ≡ 1
      → encode_from ii o bits (c ∷ src)
        ≡ pick ((bits + c * 2 ^ 8) % u32) (2 ^ 12)
          ∷ encode_from (ii + 1) 8 ((bits + c * 2 ^ 8) % u32) src
  unfolding encode_from
  encode_second h = let e : 16 - ii % 3 * 8 ≡ 8 = omega arith in rw e

  encode_third :
      ii % 3 ≡ 2
      → encode_from ii o bits (c ∷ src)
        ≡ pick ((bits + c * 2 ^ 0) % u32) (2 ^ 6)
          ∷ pick ((bits + c * 2 ^ 0) % u32) 1
          ∷ encode_from (ii + 1) 0 0 src
  unfolding encode_from
  encode_third h =
      let e : 16 - ii % 3 * 8 ≡ 0 = omega arith in
      let f : (ii == 3) ≡ false = ground arith in rw (e, f)

pub encode_group :
    (ii o a b c : ℕ) (src : List ℕ)
    → ii % 3 ≡ 0
    → a < 256
    → b < 256
    → c < 256
    → encode_from ii o 0 (a ∷ b ∷ c ∷ src)
      ≡ group (word a b c) ++ encode_from (ii + 1 + 1 + 1) 0 0 src
encode_group ii o a b c src h ha hb hc =
    let wa : (0 + a * 2 ^ 16) % u32 ≡ a * 2 ^ 16 = omega arith in
    let wb : (a * 2 ^ 16 + b * 2 ^ 8) % u32 ≡ a * 2 ^ 16 + b * 2 ^ 8 = omega arith in
    let wc : (a * 2 ^ 16 + b * 2 ^ 8 + c * 2 ^ 0) % u32 ≡ word a b c = omega arith in
    let pa : (a * 2 ^ 16) / 2 ^ 18 % 64 ≡ word a b c / 2 ^ 18 % 64 = omega arith in
    let pb : (a * 2 ^ 16 + b * 2 ^ 8) / 2 ^ 12 % 64 ≡ word a b c / 2 ^ 12 % 64 = omega arith in
    rw (encode_first ii o 0 a (b ∷ c ∷ src) h, wa)
      (rw (encode_second (ii + 1) 16 (a * 2 ^ 16) b (c ∷ src) (omega arith), wb)
        (rw (encode_third (ii + 1 + 1) 8 (a * 2 ^ 16 + b * 2 ^ 8) c src (omega arith), wc)
          (unfold pick in rw (pa, pb))))

pub encode_one :
    (ii o a : ℕ)
    → ii % 3 ≡ 0
    → a < 256
    → encode_from ii o 0 (a ∷ [])
      ≡ pick (word a 0 0) (2 ^ 18) ∷ pick (word a 0 0) (2 ^ 12) ∷ b'=' ∷ b'=' ∷ []
unfolding pad
encode_one ii o a h ha =
    let wa : (0 + a * 2 ^ 16) % u32 ≡ word a 0 0 = omega arith in
    rw (encode_first ii o 0 a [] h, wa) (unfold encode_from in refl)

pub encode_two :
    (ii o a b : ℕ)
    → ii % 3 ≡ 0
    → a < 256
    → b < 256
    → encode_from ii o 0 (a ∷ b ∷ [])
      ≡ pick (word a b 0) (2 ^ 18)
        ∷ pick (word a b 0) (2 ^ 12)
        ∷ pick (word a b 0) (2 ^ 6)
        ∷ b'='
        ∷ []
unfolding pad
encode_two ii o a b h ha hb =
    let wa : (0 + a * 2 ^ 16) % u32 ≡ a * 2 ^ 16 = omega arith in
    let wb : (a * 2 ^ 16 + b * 2 ^ 8) % u32 ≡ word a b 0 = omega arith in
    let pa : (a * 2 ^ 16) / 2 ^ 18 % 64 ≡ word a b 0 / 2 ^ 18 % 64 = omega arith in
    rw (encode_first ii o 0 a (b ∷ []) h, wa)
      (rw (encode_second (ii + 1) 16 (a * 2 ^ 16) b [] (omega arith), wb)
        (unfold encode_from pick in rw pa))

-- One iteration of the decoder on a character of the alphabet.
pub decode_pick :
    (ii bits w factor offset : ℕ) (src : List ℕ)
    → 18 - ii % 4 * 6 ≡ offset
    → decode_from ii bits (pick w factor ∷ src)
      ≡ after (emit ii offset ((bits + w / factor % 64 * 2 ^ offset) % u32)) (
          decode_from
            (ii + 1)
            (if offset == 0 && not (ii == 4)
              then 0
              else (bits + w / factor % 64 * 2 ^ offset) % u32)
            src)
unfolding decode_from pick
decode_pick ii bits w factor offset src e =
    let v : bit_val (base64_char (w / factor % 64)) ≡ w / factor % 64 =
      bit_val-base64_char (w / factor % 64) (omega arith) in
    let t : ltb (w / factor % 64) 64 ≡ true = ground arith in rw (v, t, e)

-- A padding character changes nothing.
pub decode_pad :
    (ii bits : ℕ) (src : List ℕ) → decode_from ii bits (b'=' ∷ src) ≡ decode_from (ii + 1) bits src
unfolding decode_from bit_val
decode_pad ii bits src = refl
