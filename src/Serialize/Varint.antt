-- ===== src/Serialize/Varint.antt =====
-- The varints of pkg/frames/serialize/wire.go and pkg/frames/proto/wire, and the reader of wire.go. A
-- uint64 is a number below 2 ^ 64. Where bits that do not overlap are joined by `|`, they are added.
use voxray.Base.{
  ℕ, zero, suc, ◌+◌, ◌*◌, ◌/◌, ◌%◌, ◌<◌, ◌≤◌, true, false, [], ◌∷◌, ◌++◌, length, take, drop, ◌≡◌,
  inl, inr, Bool-cases, refl, ap, ◌∙◌, ltb, leb, ◌==◌, if◌then◌else◌, arith, length-append,
  take-append_length, drop-append_length, length-drop,
}
use voxray.Audio.Pcm.{Bytes}

pub data WireError : Type 0 where
  eof unexpected_eof varint_overflow too_long wrong_wire_type unknown_field bad_json : WireError
  out_of_fuel : WireError  -- of the model's loops only

pub data Result (A : Type 0) : Type 0 where
  ok : A → Result A
  err : WireError → Result A

-- appendVarint, for a number of bytes before the last: 9 for a uint64.
unfoldable pub varint_bytes : ℕ → ℕ → Bytes
varint_bytes zero v = v % 256 ∷ []
varint_bytes (suc n) v =
    let rest = varint_bytes n (v / 128) in
    if leb 128 v then (v % 128 + 128) ∷ rest else v % 256 ∷ []

unfoldable pub varint : ℕ → Bytes
varint v = varint_bytes 9 v

abbrev pub two64 : ℕ
two64 = 18446744073709551616

-- The loop of readVarint, for a number of rounds; `weight` is 1 << s. What is left to read comes with
-- an error too.
unfoldable pub read_varint_loop : ℕ → ℕ → ℕ → Bytes → Result ℕ × Bytes
read_varint_loop zero weight x bs = (err varint_overflow, bs)
read_varint_loop (suc n) weight x [] = (err eof, [])
read_varint_loop (suc n) weight x (b ∷ bs) =
    let y = x + b % 128 * weight % two64 in
    let more = read_varint_loop n (weight * 128) y bs in if ltb b 128 then (ok y, bs) else more

unfoldable pub read_varint : Bytes → Result ℕ × Bytes
read_varint bs = read_varint_loop 10 1 0 bs

-- io.ReadFull into `n` bytes.
unfoldable pub read_full : ℕ → Bytes → Result Bytes × Bytes
read_full n bs =
    if leb n (length bs)
    then (ok (take n bs), drop n bs)
    else (err (if length bs == 0 then eof else unexpected_eof), [])

-- What `varint_bytes n` has room for.
abbrev HasRoom : ℕ → ℕ → Type 0
HasRoom zero v = v < 128
HasRoom (suc n) v = HasRoom n (v / 128)

uint64-HasRoom : (v : ℕ) → v < two64 → HasRoom 9 v
uint64-HasRoom v h = omega arith

HasRoom-small : (n v : ℕ) → v < 128 → HasRoom n v
HasRoom-small zero v h = h
HasRoom-small (suc n) v h = HasRoom-small n (v / 128) (omega arith)

low_product : (v w : ℕ) → v % 128 * w ≤ v * w
low_product v w = grind arith

regroup : (a q w : ℕ) → a * w + q * (w * 128) ≡ (a + q * 128) * w
regroup a q w = grind arith

high_product : (v w : ℕ) → v % 128 * w + v / 128 * (w * 128) ≡ v * w
high_product v w = regroup (v % 128) (v / 128) w ∙ ap (λ (t : ℕ). t * w) (omega arith)

wrapped : (a w : ℕ) → a * w < two64 → a * w % two64 ≡ a * w
wrapped a w h = omega arith

small_true : (a : ℕ) → a < 128 → ltb a 128 ≡ true
small_true a h = ground arith

-- The last byte.
last_round :
    (n w x v : ℕ) (rest : Bytes)
    → v * w < two64
    → v < 128
    → read_varint_loop (suc n) w x (v % 256 ∷ rest) ≡ (ok (x + v * w), rest)
unfolding read_varint_loop
last_round n w x v rest hw hv =
    let byte : v % 256 ≡ v = omega arith in
    let low : v % 128 ≡ v = omega arith in rw (byte, low, wrapped v w hw, small_true v hv) refl

-- A byte before the last.
next_round :
    (n w x v : ℕ) (rest : Bytes)
    → v * w < two64
    → read_varint_loop (suc n) w x ((v % 128 + 128) ∷ rest)
      ≡ read_varint_loop n (w * 128) (x + v % 128 * w) rest
unfolding read_varint_loop
next_round n w x v rest hw =
    let low : (v % 128 + 128) % 128 ≡ v % 128 = omega arith in
    let fits : v % 128 * w < two64 = omega (arith, low_product v w) in
    let goes : ltb (v % 128 + 128) 128 ≡ false = ground arith in
    rw (goes, low, wrapped (v % 128) w fits) refl

read-varint_bytes :
    (n w x v : ℕ) (rest : Bytes)
    → v * w < two64
    → HasRoom n v
    → read_varint_loop (suc n) w x (varint_bytes n v ++ rest) ≡ (ok (x + v * w), rest)
unfolding varint_bytes read_varint_loop
read-varint_bytes zero w x v rest hw hv = last_round zero w x v rest hw hv
read-varint_bytes (suc n) w x v rest hw hv = elim (Bool-cases (leb 128 v)) [
  | inl more ↦ rw more (
      next_round (suc n) w x v (varint_bytes n (v / 128) ++ rest) hw
      ∙ read-varint_bytes n (w * 128) (x + v % 128 * w) (v / 128) rest
          (omega (arith, high_product v w)) hv
      ∙ ap (λ u. (ok u, rest)) (omega (arith, high_product v w)))
  | inr last ↦ rw last (last_round (suc n) w x v rest hw (ground arith))
]

-- A uint64 is read back from its varint, and what follows it is left.
pub read_varint-varint :
    (v : ℕ) (rest : Bytes) → v < two64 → read_varint (varint v ++ rest) ≡ (ok v, rest)
unfolding read_varint varint
read_varint-varint v rest h =
    read-varint_bytes 9 1 0 v rest (omega arith) (uint64-HasRoom v h)
    ∙ ap (λ u. (ok u, rest)) (omega arith)

length-varint_bytes :
    (n v : ℕ) → (1 ≤ length (varint_bytes n v)) × (length (varint_bytes n v) ≤ n + 1)
unfolding varint_bytes
length-varint_bytes zero v = (omega arith, omega arith)
length-varint_bytes (suc n) v = ground (arith, length-varint_bytes n (v / 128))

-- A varint has a byte at least, and ten at most.
pub length-varint : (v : ℕ) → (1 ≤ length (varint v)) × (length (varint v) ≤ 10)
unfolding varint
length-varint v = length-varint_bytes 9 v

pub rest_of-read_varint_loop :
    (n w x : ℕ) (bs : Bytes) → length (read_varint_loop n w x bs).1 ≤ length bs
unfolding read_varint_loop
rest_of-read_varint_loop zero w x bs = omega arith
rest_of-read_varint_loop (suc n) w x [] = omega arith
rest_of-read_varint_loop (suc n) w x (b ∷ bs) =
    ground (arith, rest_of-read_varint_loop n (w * 128) (x + b % 128 * w % two64) bs)

-- Reading takes a byte at least, unless there is none.
pub read_varint_shorter : (b : ℕ) (bs : Bytes) → length (read_varint (b ∷ bs)).1 ≤ length bs
unfolding read_varint read_varint_loop
read_varint_shorter b bs =
    ground (arith, rest_of-read_varint_loop 9 128 (0 + b % 128 * 1 % two64) bs)

pub read_varint_no_longer : (bs : Bytes) → length (read_varint bs).1 ≤ length bs
unfolding read_varint
read_varint_no_longer bs = rest_of-read_varint_loop 10 1 0 bs

pub read_varint_empty : read_varint [] ≡ (err eof, [])
unfolding read_varint read_varint_loop
read_varint_empty = refl

pub read_full_no_longer : (n : ℕ) (bs : Bytes) → length (read_full n bs).1 ≤ length bs
unfolding read_full
read_full_no_longer n bs = ground (arith, length-drop n bs)

pub read_full-append :
    (data' rest : Bytes) → read_full (length data') (data' ++ rest) ≡ (ok data', rest)
unfolding read_full
read_full-append data' rest =
    let long : leb (length data') (length (data' ++ rest)) ≡ true =
      ground (arith, length-append data' rest) in
    rw (long, take-append_length data' rest, drop-append_length data' rest) refl
