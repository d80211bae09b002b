-- ===== src/Utf8/Laws.antt =====
-- Decoding is the inverse of encoding.
use Prim.Native.Char.{Char, char, code}
use text.Mathlib.TextEquality.{Char-path}
use access.Common.{
  ◌∙◌, ℕ, suc, ◌+◌, ◌*◌, ◌/◌, ◌%◌, ◌≤◌, ◌<◌, ◌≡◌, refl, ap, inl, inr, some, ◌∷◌, ◌++◌, String,
  Bytes, ltb, Bool-cases, arith,
}
use access.Utf8.{
  encode_code, as_bytes, Pending, pending, bad, more, done, IsScalar_dec, to_char, feed, start,
  prepend, decode_from, from_utf8,
}

code-lt : (c : Char) → code c < 0x110000
code-lt (char n p) = ground arith

to_char-code : (c : Char) → to_char (code c) ≡ done c
unfolding to_char
to_char-code (char n p) =
    elim (IsScalar_dec n)
      as (λ d. elim d [ yes q ↦ done (char n q) | no _ ↦ bad ] ≡ done (char n p)) [
        | yes q ↦ ap done (Char-path (char n q) (char n p) refl)
        | no h ↦ absurd (h p)
      ]

module _ (d : ℕ) (small : d < 64) where
  feed-next :
      (k bits least : ℕ)
      → feed (pending (suc (suc k)) bits least) (0x80 + d)
        ≡ more (pending (suc k) (bits * 64 + d) least)
  unfolding feed
  feed-next k bits least = ground arith

  feed-last :
      (bits least : ℕ)
      → least ≤ bits * 64 + d
      → feed (pending 1 bits least) (0x80 + d) ≡ to_char (bits * 64 + d)
  unfolding feed
  feed-last bits least h = ground arith

feed-two : (q : ℕ) → q < 32 → feed start (0xc0 + q) ≡ more (pending 1 q 0x80)
unfolding feed
feed-two q h = ground arith

feed-three : (q : ℕ) → q < 16 → feed start (0xe0 + q) ≡ more (pending 2 q 0x800)
unfolding feed
feed-three q h = ground arith

feed-four : (q : ℕ) → q < 8 → feed start (0xf0 + q) ≡ more (pending 3 q 0x10000)
unfolding feed
feed-four q h = ground arith

module _ (p : Pending) (b : ℕ) (bs : Bytes) where
  decode_from-more : (q : Pending) → feed p b ≡ more q → decode_from p (b ∷ bs) ≡ decode_from q bs
  unfolding decode_from
  decode_from-more q h = rw (h, decode_from)

  decode_from-done :
      (c : Char) → feed p b ≡ done c → decode_from p (b ∷ bs) ≡ prepend c (decode_from start bs)
  unfolding decode_from
  decode_from-done c h = rw (h, decode_from)

feed-one : (n : ℕ) → n < 0x80 → feed start n ≡ to_char n
unfolding feed
feed-one n h = ground arith

module _ (c : Char) (bs : Bytes) where
  -- The last byte of a character, once the bits before it are read.
  close :
      (bits least d : ℕ)
      → d < 64
      → least ≤ bits * 64 + d
      → bits * 64 + d ≡ code c
      → decode_from (pending 1 bits least) ((0x80 + d) ∷ bs) ≡ prepend c (decode_from start bs)
  close bits least d small big e =
      decode_from-done (pending 1 bits least) (0x80 + d) bs c
        (feed-last d small bits least big ∙ ap to_char e ∙ to_char-code c)

  decode_one : code c < 0x80 → decode_from start (code c ∷ bs) ≡ prepend c (decode_from start bs)
  decode_one h = decode_from-done start (code c) bs c (feed-one (code c) h ∙ to_char-code c)

  decode_two :
      0x80 ≤ code c
      → code c < 0x800
      → decode_from start ((0xc0 + code c / 64) ∷ (0x80 + code c % 64) ∷ bs)
        ≡ prepend c (decode_from start bs)
  decode_two l h =
      decode_from-more start _ _ _ (feed-two (code c / 64) (omega arith))
      ∙ close (code c / 64) 0x80 (code c % 64) (omega arith) (omega arith) (omega arith)

  decode_three :
      0x800 ≤ code c
      → code c < 0x10000
      → decode_from start
          ((0xe0 + code c / 4096) ∷ (0x80 + code c / 64 % 64) ∷ (0x80 + code c % 64) ∷ bs)
        ≡ prepend c (decode_from start bs)
  decode_three l h =
      decode_from-more start _ _ _ (feed-three (code c / 4096) (omega arith))
      ∙ decode_from-more _ _ _ _ (feed-next (code c / 64 % 64) (omega arith) 0 _ _)
      ∙ close (code c / 4096 * 64 + code c / 64 % 64) 0x800 (code c % 64) (omega arith)
          (omega arith) (omega arith)

  decode_four :
      0x10000 ≤ code c
      → decode_from start (
          (0xf0 + code c / 262144)
          ∷ (0x80 + code c / 4096 % 64)
          ∷ (0x80 + code c / 64 % 64)
          ∷ (0x80 + code c % 64)
          ∷ bs)
        ≡ prepend c (decode_from start bs)
  decode_four l =
      let top = code-lt c in
      decode_from-more start _ _ _ (feed-four (code c / 262144) (omega arith))
      ∙ decode_from-more _ _ _ _ (feed-next (code c / 4096 % 64) (omega arith) 1 _ _)
      ∙ decode_from-more _ _ _ _ (feed-next (code c / 64 % 64) (omega arith) 0 _ _)
      ∙ close ((code c / 262144 * 64 + code c / 4096 % 64) * 64 + code c / 64 % 64) 0x10000
          (code c % 64) (omega arith) (omega arith) (omega arith)

  decode_from-encode_code :
      decode_from start (encode_code (code c) ++ bs) ≡ prepend c (decode_from start bs)
  unfolding encode_code
  decode_from-encode_code = elim (Bool-cases (ltb (code c) 0x80)) [
    | inl e ↦ rw e (decode_one (ground arith))
    | inr e ↦ elim (Bool-cases (ltb (code c) 0x800)) [
      | inl e2 ↦ rw (e, e2) (decode_two (ground arith) (ground arith))
      | inr e2 ↦ elim (Bool-cases (ltb (code c) 0x10000)) [
        | inl e3 ↦ rw (e, e2, e3) (decode_three (ground arith) (ground arith))
        | inr e3 ↦ rw (e, e2, e3) (decode_four (ground arith))
      ]
    ]
  ]

-- A text is read back from its bytes.
pub from_utf8-as_bytes : (s : String) → from_utf8 (as_bytes s) ≡ some s
unfolding from_utf8 as_bytes decode_from
from_utf8-as_bytes String.[] = refl
from_utf8-as_bytes (String.◌∷◌ c s) =
    decode_from-encode_code c (as_bytes s) ∙ ap (prepend c) (from_utf8-as_bytes s)
