-- ===== src/Text/Base64/RoundTrip.antt =====
-- Decoding undoes base64 encoding.
use ytlib.Base.{
  ℕ, ◌+◌, ◌*◌, ◌/◌, ◌%◌, ◌^◌, ◌<◌, ◌≡◌, refl, ap, ◌∙◌, true, false, List, [], ◌∷◌, ◌++◌, arith,
  ◌==◌, length, All,
}
use ytlib.Text.Base64.{
  u32, pick, pad, encode_from, encode, Decoded, bytes, runtime_error, after, emit, decode_from,
  decode,
}
use ytlib.Text.Base64.Groups.{
  word, group, encode_group, encode_one, encode_two, decode_pick, decode_pad,
}

after-after : (xs ys : List ℕ) (d : Decoded) → after xs (after ys d) ≡ after (xs ++ ys) d
after-after [] ys (bytes zs) = refl
after-after [] ys runtime_error = refl
after-after (x ∷ xs) ys runtime_error = refl
after-after (x ∷ xs) ys (bytes zs) = ground (arith, after-after xs ys (bytes zs))

-- The bits that have been read when `k` characters of a group are left.
module _ (ii w : ℕ) (src : List ℕ) (start : ii % 4 ≡ 0) (small : w < 2 ^ 24) where
  decode_first :
      decode_from ii 0 (pick w (2 ^ 18) ∷ src)
      ≡ after [] (decode_from (ii + 1) (w / 2 ^ 18 * 2 ^ 18) src)
  unfolding emit
  decode_first =
      let b : (0 + w / 2 ^ 18 % 64 * 2 ^ 18) % u32 ≡ w / 2 ^ 18 * 2 ^ 18 = omega arith in
      rw (decode_pick ii 0 w (2 ^ 18) 18 src (omega arith), b)

module _ (ii w : ℕ) (src : List ℕ) (start : ii % 4 ≡ 1) (small : w < 2 ^ 24) where
  decode_second :
      decode_from ii (w / 2 ^ 18 * 2 ^ 18) (pick w (2 ^ 12) ∷ src)
      ≡ after (w / 2 ^ 16 ∷ []) (decode_from (ii + 1) (w / 2 ^ 12 * 2 ^ 12) src)
  unfolding emit
  decode_second =
      let b : (w / 2 ^ 18 * 2 ^ 18 + w / 2 ^ 12 % 64 * 2 ^ 12) % u32 ≡ w / 2 ^ 12 * 2 ^ 12 =
        omega arith in
      let c : w / 2 ^ 12 * 2 ^ 12 / 2 ^ 16 % 256 ≡ w / 2 ^ 16 = omega arith in
      rw (decode_pick ii (w / 2 ^ 18 * 2 ^ 18) w (2 ^ 12) 12 src (omega arith), b, c)

module _ (ii w : ℕ) (src : List ℕ) (start : ii % 4 ≡ 2) (small : w < 2 ^ 24) where
  decode_third :
      decode_from ii (w / 2 ^ 12 * 2 ^ 12) (pick w (2 ^ 6) ∷ src)
      ≡ after (w / 2 ^ 8 % 256 ∷ []) (decode_from (ii + 1) (w / 2 ^ 6 * 2 ^ 6) src)
  unfolding emit
  decode_third =
      let b : (w / 2 ^ 12 * 2 ^ 12 + w / 2 ^ 6 % 64 * 2 ^ 6) % u32 ≡ w / 2 ^ 6 * 2 ^ 6 =
        omega arith in
      let c : w / 2 ^ 6 * 2 ^ 6 / 2 ^ 8 % 256 ≡ w / 2 ^ 8 % 256 = omega arith in
      rw (decode_pick ii (w / 2 ^ 12 * 2 ^ 12) w (2 ^ 6) 6 src (omega arith), b, c)

module _ (ii w : ℕ) (src : List ℕ) (start : ii % 4 ≡ 3) (small : w < 2 ^ 24) where
  decode_fourth :
      decode_from ii (w / 2 ^ 6 * 2 ^ 6) (pick w 1 ∷ src)
      ≡ after (w % 256 ∷ []) (decode_from (ii + 1) 0 src)
  unfolding emit
  decode_fourth =
      let b : (w / 2 ^ 6 * 2 ^ 6 + w / 1 % 64 * 2 ^ 0) % u32 ≡ w = omega arith in
      let t : (ii == 4) ≡ false = ground arith in
      rw (decode_pick ii (w / 2 ^ 6 * 2 ^ 6) w 1 0 src (omega arith), b, t)

decode_group :
    (ii a b c : ℕ) (src : List ℕ)
    → ii % 4 ≡ 0
    → a < 256
    → b < 256
    → c < 256
    → decode_from ii 0 (group (word a b c) ++ src)
      ≡ after (a ∷ b ∷ c ∷ []) (decode_from (ii + 1 + 1 + 1 + 1) 0 src)
decode_group ii a b c src h ha hb hc =
    let w = word a b c in
    let small : word a b c < 2 ^ 24 = omega arith in
    let wa : word a b c / 2 ^ 16 ≡ a = omega arith in
    let wb : word a b c / 2 ^ 8 % 256 ≡ b = omega arith in
    let wc : word a b c % 256 ≡ c = omega arith in
    decode_first ii w _ h small
    ∙ ap (after []) (
        decode_second (ii + 1) w _ (omega arith) small
        ∙ ap (after (w / 2 ^ 16 ∷ [])) (
            decode_third (ii + 1 + 1) w _ (omega arith) small
            ∙ ap (after (w / 2 ^ 8 % 256 ∷ []))
                (decode_fourth (ii + 1 + 1 + 1) w src (omega arith) small)))
    ∙ rw (wa, wb, wc) (simp after-after)

decode_one :
    (ii a : ℕ)
    → ii % 4 ≡ 0
    → a < 256
    → decode_from ii 0 (pick (word a 0 0) (2 ^ 18) ∷ pick (word a 0 0) (2 ^ 12) ∷ b'=' ∷ b'=' ∷ [])
      ≡ bytes (a ∷ [])
decode_one ii a h ha =
    let w = word a 0 0 in
    let small : word a 0 0 < 2 ^ 24 = omega arith in
    let wa : word a 0 0 / 2 ^ 16 ≡ a = omega arith in
    decode_first ii w _ h small
    ∙ ap (after []) (decode_second (ii + 1) w _ (omega arith) small)
    ∙ rw (decode_pad, decode_pad, wa) (unfold decode_from in refl)

decode_two :
    (ii a b : ℕ)
    → ii % 4 ≡ 0
    → a < 256
    → b < 256
    → decode_from ii 0 (
        pick (word a b 0) (2 ^ 18)
        ∷ pick (word a b 0) (2 ^ 12)
        ∷ pick (word a b 0) (2 ^ 6)
        ∷ b'='
        ∷ [])
      ≡ bytes (a ∷ b ∷ [])
decode_two ii a b h ha hb =
    let w = word a b 0 in
    let small : word a b 0 < 2 ^ 24 = omega arith in
    let wa : word a b 0 / 2 ^ 16 ≡ a = omega arith in
    let wb : word a b 0 / 2 ^ 8 % 256 ≡ b = omega arith in
    decode_first ii w _ h small
    ∙ ap (after []) (
        decode_second (ii + 1) w _ (omega arith) small
        ∙ ap (after (w / 2 ^ 16 ∷ [])) (decode_third (ii + 1 + 1) w _ (omega arith) small))
    ∙ rw (decode_pad, wa, wb) (unfold decode_from in refl)

decode_from-encode_from :
    (ii jj : ℕ) (src : List ℕ)
    → ii % 3 ≡ 0
    → jj % 4 ≡ 0
    → All (λ c. c < 256) src
    → decode_from jj 0 (encode_from ii 0 0 src) ≡ bytes src
decode_from-encode_from ii jj [] h k s = unfold encode_from pad decode_from in refl
decode_from-encode_from ii jj (a ∷ []) h k s = rw (encode_one ii 0 a h s.0) (decode_one jj a k s.0)
decode_from-encode_from ii jj (a ∷ b ∷ []) h k s =
    rw (encode_two ii 0 a b h s.0 s.1.0) (decode_two jj a b k s.0 s.1.0)
decode_from-encode_from ii jj (a ∷ b ∷ c ∷ src) h k s =
    rw (encode_group ii 0 a b c src h s.0 s.1.0 s.1.1.0) (
      decode_group jj a b c (encode_from (ii + 1 + 1 + 1) 0 0 src) k s.0 s.1.0 s.1.1.0
      ∙ ap (after (a ∷ b ∷ c ∷ [])) (
          decode_from-encode_from (ii + 1 + 1 + 1) (jj + 1 + 1 + 1 + 1) src (omega arith)
            (omega arith) s.1.1.1))

-- Four characters for each three bytes or part of them.
length-encode_from :
    (ii : ℕ) (src : List ℕ)
    → ii % 3 ≡ 0
    → All (λ c. c < 256) src
    → length (encode_from ii 0 0 src) ≡ (length src + 2) / 3 * 4
length-encode_from ii [] h s = unfold encode_from pad in refl
length-encode_from ii (a ∷ []) h s = rw (encode_one ii 0 a h s.0)
length-encode_from ii (a ∷ b ∷ []) h s = rw (encode_two ii 0 a b h s.0 s.1.0)
length-encode_from ii (a ∷ b ∷ c ∷ src) h s =
    rw (encode_group ii 0 a b c src h s.0 s.1.0 s.1.1.0)
      (omega (arith, length-encode_from (ii + 1 + 1 + 1) src (omega arith) s.1.1.1))

decode_lem : (xs : List ℕ) → length xs % 4 ≡ 0 → decode xs ≡ decode_from 0 0 xs
unfolding decode
decode_lem [] h = unfold decode_from in refl
decode_lem (c ∷ xs) h = let t : (length (c ∷ xs) % 4 == 0) ≡ true = ground arith in rw t

-- The code of `n` bytes has four characters for each three of them or part of three.
pub length-encode :
    (src : List ℕ) → All (λ c. c < 256) src → length (encode src) ≡ (length src + 2) / 3 * 4
unfolding encode
length-encode src s = length-encode_from 0 src refl s

-- Decoding what was encoded gives the bytes back, whatever their number.
pub decode-encode : (src : List ℕ) → All (λ c. c < 256) src → decode (encode src) ≡ bytes src
decode-encode src s =
    decode_lem (encode src) (omega (arith, length-encode src s))
    ∙ unfold encode in decode_from-encode_from 0 0 src refl refl s
