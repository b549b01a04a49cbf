-- ===== src/Serialize/Envelope/RoundTrip.antt =====
-- An envelope that is marshalled is unmarshalled to itself, and Unmarshal comes to an end.
use voxray.Base.{
  ℕ, zero, suc, ◌+◌, ◌-◌, ◌*◌, ◌/◌, ◌%◌, ◌<◌, ◌≤◌, true, false, not, ◌||◌, Option, none, some, [],
  ◌∷◌, ◌++◌, length, drop, ◌≡◌, ◌≢◌, refl, ap, sym, ◌∙◌, leb, ltb, ◌==◌, inl, inr, Bool-cases,
  arith, append-nil, append_assoc, length-append, length-drop, take-append_length,
  drop-append_length,
}
use voxray.Audio.Pcm.{Bytes}
use voxray.Serialize.Varint.{
  Result, ok, err, varint, two64, read_varint_loop, read_varint, read_varint-varint, length-varint,
  rest_of-read_varint_loop,
}
use voxray.Serialize.Envelope.{
  FrameEnvelope, envelope_field, marshal, scan_varint, Parsed, parsed, no_fuel, set_field, Taken,
  broken, overrun, field, take_value, after_value, parse_loop, unmarshal,
}

-- The two readers of varints agree.
abbrev pub scanned : ℕ → ℕ → Result ℕ × Bytes → Option (ℕ × ℕ)
scanned n len (ok v, rest) = some (v, n + (len - length rest))
scanned n len (err e, rest) = none

scanned_shift :
    (n len : ℕ) (r : Result ℕ × Bytes)
    → length r.1 ≤ len
    → scanned (n + 1) len r ≡ scanned n (suc len) r
scanned_shift n len (ok v, rest) h = ap (λ k. some (v, k)) (omega arith)
scanned_shift n len (err e, rest) h = refl

scan-read :
    (rounds n w x : ℕ) (bs : Bytes)
    → scan_varint rounds n w x bs ≡ scanned n (length bs) (read_varint_loop rounds w x bs)
unfolding scan_varint read_varint_loop
scan-read zero n w x bs = refl
scan-read (suc rounds) n w x [] = refl
scan-read (suc rounds) n w x (b ∷ bs) =
    let y = x + b % 128 * w % two64 in
    elim (Bool-cases (ltb b 128)) [
      | inl last ↦ rw last (ap (λ (k : ℕ). some (y, k)) (omega arith))
      | inr more ↦ rw more (
          scan-read rounds (n + 1) (w * 128) y bs
          ∙ scanned_shift n (length bs) (read_varint_loop rounds (w * 128) y bs)
              (rest_of-read_varint_loop rounds (w * 128) y bs))
    ]

pub scan_varint-varint :
    (v : ℕ) (rest : Bytes)
    → v < two64
    → scan_varint 10 0 1 0 (varint v ++ rest) ≡ some (v, length (varint v))
unfolding read_varint
scan_varint-varint v rest h =
    scan-read 10 0 1 0 (varint v ++ rest)
    ∙ ap (scanned 0 (length (varint v ++ rest))) (read_varint-varint v rest h)
    ∙ ap (λ (k : ℕ). some (v, k)) (omega (arith, length-append (varint v) rest))

pub take_value-fits :
    (bs rest : Bytes)
    → length (varint (length bs) ++ (bs ++ rest)) < 9223372036854775808
    → take_value
        (some (length bs, length (varint (length bs))))
        (varint (length bs) ++ (bs ++ rest))
      ≡ field bs rest
unfolding take_value
take_value-fits bs rest h =
    let v = varint (length bs) in
    let whole = length-append v (bs ++ rest) in
    let inner = length-append bs rest in
    let sum : (length v + length bs) % two64 ≡ length v + length bs = omega (arith, whole, inner) in
    let goes : ltb (length (v ++ (bs ++ rest))) (length v + length bs) ≡ false =
      ground (arith, whole, inner) in
    let fits : leb (length bs) (length (bs ++ rest)) ≡ true = ground (arith, inner) in
    rw
      (
        sum,
        goes,
        drop-append_length v (bs ++ rest),
        fits,
        take-append_length bs rest,
        drop-append_length bs rest,
      )
      refl

-- What a field leaves to read is no longer than some number of bytes.
abbrev IsLeft : ℕ → Taken → Type 0
IsLeft n broken = Unit {0}
IsLeft n overrun = Unit {0}
IsLeft n (field val left) = length left ≤ n

take_value-IsLeft : (o : Option (ℕ × ℕ)) (b : Bytes) → IsLeft (length b) (take_value o b)
unfolding take_value
take_value-IsLeft none b = tt
take_value-IsLeft (some (v, n)) b = elim (Bool-cases (ltb (length b) ((n + v) % two64))) [
  | inl breaks ↦ rw breaks tt
  | inr goes ↦ elim (Bool-cases (leb v (length (drop n b)))) [
    | inl fits ↦ rw (goes, fits) (omega (arith, length-drop v (drop n b), length-drop n b))
    | inr over ↦ rw (goes, over) tt
  ]
]

after_value_same :
    (f g : FrameEnvelope → Bytes → Parsed) (tag : ℕ) (m : FrameEnvelope) (t : Taken) (n : ℕ)
    → IsLeft n t
    → ((e : FrameEnvelope) (left : Bytes) → length left ≤ n → f e left ≡ g e left)
    → after_value f tag m t ≡ after_value g tag m t
unfolding after_value
after_value_same f g tag m broken n h same = refl
after_value_same f g tag m overrun n h same = refl
after_value_same f g tag m (field val left) n h same = same (set_field (tag / 8) val m) left h

-- With more fuel than bytes, the fuel does not matter.
parse_enough :
    (n k : ℕ) (m : FrameEnvelope) (bs : Bytes)
    → length bs < n
    → length bs < k
    → parse_loop n m bs ≡ parse_loop k m bs
unfolding parse_loop
parse_enough zero k m bs hn hk = absurd (omega arith)
parse_enough (suc n) zero m bs hn hk = absurd (omega arith)
parse_enough (suc n) (suc k) m [] hn hk = refl
parse_enough (suc n) (suc k) m (tag ∷ b) hn hk =
    elim (Bool-cases (ltb (length (tag ∷ b)) 2 || not (tag % 8 == 2))) [
      | inl stops ↦ rw stops refl
      | inr goes ↦
          let t = take_value (scan_varint 10 0 1 0 b) b in
          rw goes (
            after_value_same (parse_loop n) (parse_loop k) tag m t (length b)
              (take_value-IsLeft (scan_varint 10 0 1 0 b) b)
              (λ e left h. parse_enough n k e left (omega arith) (omega arith)))
    ]

after_value_ends :
    (f : FrameEnvelope → Bytes → Parsed) (tag : ℕ) (m : FrameEnvelope) (t : Taken) (n : ℕ)
    → IsLeft n t
    → ((e : FrameEnvelope) (left : Bytes) → length left ≤ n → f e left ≢ no_fuel)
    → after_value f tag m t ≢ no_fuel
unfolding after_value
after_value_ends f tag m broken n h rec = λ e. cc
after_value_ends f tag m overrun n h rec = λ e. cc
after_value_ends f tag m (field val left) n h rec = rec (set_field (tag / 8) val m) left h

parse_loop_ends :
    (n : ℕ) (m : FrameEnvelope) (bs : Bytes) → length bs < n → parse_loop n m bs ≢ no_fuel
unfolding parse_loop
parse_loop_ends zero m bs h = absurd (omega arith)
parse_loop_ends (suc n) m [] h = λ e. cc
parse_loop_ends (suc n) m (tag ∷ b) h =
    elim (Bool-cases (ltb (length (tag ∷ b)) 2 || not (tag % 8 == 2))) [
      | inl stops ↦ rw stops (λ e. cc)
      | inr goes ↦ rw goes (
          after_value_ends (parse_loop n) tag m (take_value (scan_varint 10 0 1 0 b) b) (length b)
            (take_value-IsLeft (scan_varint 10 0 1 0 b) b)
            (λ e left short. parse_loop_ends n e left (omega arith)))
    ]

-- The rounds on some bytes, with enough fuel.
abbrev parse : FrameEnvelope → Bytes → Parsed
parse m bs = parse_loop (suc (length bs)) m bs

-- A field of some length that is written is read.
field_read :
    (tag : ℕ) (m : FrameEnvelope) (bs rest : Bytes)
    → tag % 8 ≡ 2
    → length (varint (length bs) ++ (bs ++ rest)) < 9223372036854775808
    → parse m (tag ∷ (varint (length bs) ++ (bs ++ rest))) ≡ parse (set_field (tag / 8) bs m) rest
unfolding parse_loop after_value
field_read tag m bs rest ht h =
    let v = varint (length bs) in
    let b = v ++ (bs ++ rest) in
    let whole = length-append v (bs ++ rest) in
    let inner = length-append bs rest in
    let some_bytes = length-varint (length bs) in
    let goes : (ltb (length (tag ∷ b)) 2 || not (tag % 8 == 2)) ≡ false =
      ground (arith, ht, whole, some_bytes) in
    rw
      (
        goes,
        scan_varint-varint (length bs) (bs ++ rest) (omega (arith, whole, inner)),
        take_value-fits bs rest h,
      )
      (parse_enough (length (tag ∷ b)) (suc (length rest)) (set_field (tag / 8) bs m) rest
        (omega (arith, whole, inner, some_bytes)) (omega arith))

envelope_field-read :
    (tag : ℕ) (m : FrameEnvelope) (c : ℕ) (cs rest : Bytes)
    → tag % 8 ≡ 2
    → length (envelope_field tag (c ∷ cs) ++ rest) < 9223372036854775808
    → parse m (envelope_field tag (c ∷ cs) ++ rest) ≡ parse (set_field (tag / 8) (c ∷ cs) m) rest
unfolding envelope_field
envelope_field-read tag m c cs rest ht h =
    let bs = c ∷ cs in
    let v = varint (length bs) in
    let full : ltb 0 (length bs) ≡ true = ground arith in
    let same : envelope_field tag bs ++ rest ≡ tag ∷ (v ++ (bs ++ rest)) =
      rw full (ap (λ l. tag ∷ l) (append_assoc v bs rest)) in
    ap (parse m) same ∙ field_read tag m bs rest ht (omega (arith, ap length same))

last_field :
    (m : FrameEnvelope) (payload : Bytes)
    → m.payload ≡ []
    → length (envelope_field 18 payload) < 9223372036854775808
    → parse m (envelope_field 18 payload) ≡ parsed (record m { payload = payload })
unfolding parse_loop set_field envelope_field
last_field m [] nothing h = ap (λ p. parsed (record m { payload = p })) nothing
last_field m (c ∷ cs) nothing h =
    let all = append-nil (envelope_field 18 (c ∷ cs)) in
    ap (parse m) (sym all)
    ∙ envelope_field-read 18 m c cs [] (omega arith) (omega (arith, ap length all, h))

-- An envelope of fewer than 2 ^ 63 bytes is unmarshalled to what was marshalled, an empty type or
-- payload included.
pub unmarshal-marshal :
    (m : FrameEnvelope)
    → length (marshal m) < 9223372036854775808
    → unmarshal (marshal m) ≡ parsed m
unfolding unmarshal marshal envelope_field set_field
unmarshal-marshal m h = both m.type m.payload h
  where
    both :
        (type payload : Bytes)
        → length (envelope_field 10 type ++ envelope_field 18 payload) < 9223372036854775808
        → parse
            (record { type = []; payload = [] })
            (envelope_field 10 type ++ envelope_field 18 payload)
          ≡ parsed (record { type = type; payload = payload })
    both [] payload h = last_field (record { type = []; payload = [] }) payload refl h
    both (c ∷ cs) payload h =
        envelope_field-read 10 (record { type = []; payload = [] }) c cs (envelope_field 18 payload)
          (omega arith) h
        ∙ last_field (record { type = c ∷ cs; payload = [] }) payload refl
            (omega (arith, length-append (envelope_field 10 (c ∷ cs)) (envelope_field 18 payload)))

-- Whatever the bytes, the loop of Unmarshal comes to an end.
pub unmarshal_ends : (bs : Bytes) → unmarshal bs ≢ no_fuel
unfolding unmarshal
unmarshal_ends bs =
    parse_loop_ends (suc (length bs)) (record { type = []; payload = [] }) bs (omega arith)
