-- ===== src/Serialize/Wire/Termination.antt =====
-- The decoder of wire.go comes to an end on all bytes.
use voxray.Base.{
  ℕ, zero, suc, ◌+◌, ◌*◌, ◌/◌, ◌%◌, ◌<◌, Bool, true, false, Option, none, some, [], ◌∷◌, length,
  ◌≢◌, leb, ltb, ◌==◌, inl, inr, Bool-cases, arith,
}
use voxray.Audio.Pcm.{Bytes}
use voxray.Serialize.Varint.{
  eof, out_of_fuel, Result, ok, err, two64, read_varint_loop, read_varint, read_full,
}
use voxray.Serialize.Wire.{WireFrame}
use voxray.Serialize.Wire.Decoding.{
  read_tag, read_payload, read_length_delimited, FieldRound, stop, next, take_varint, take_bytes,
  take_field, field_loop, read_fields, map_ok, decode_text_frame, decode_transcription_frame,
  decode_audio_frame, new_message, parse_message, decode_message_tagged, decode_message_frame,
  decode_field, decode_tagged, decode_frame_wire, nothing_found, text_varint, text_bytes,
  transcription_bytes, audio_varint,
}
use voxray.Serialize.Wire.Fields.{field_of, IsShorter, field_of-IsShorter}

-- A result of the code, not of a model's loop without fuel.
abbrev IsReal : {A : Type 0} → Result A → Type 0
IsReal (ok a) = Unit {0}
IsReal (err e) = e ≢ out_of_fuel

read_varint_loop-IsReal : (n w x : ℕ) (bs : Bytes) → IsReal (read_varint_loop n w x bs).0
unfolding read_varint_loop
read_varint_loop-IsReal zero w x bs = λ e. cc
read_varint_loop-IsReal (suc n) w x [] = λ e. cc
read_varint_loop-IsReal (suc n) w x (b ∷ bs) = elim (Bool-cases (ltb b 128)) [
  | inl last ↦ rw last tt
  | inr more ↦ rw more (read_varint_loop-IsReal n (w * 128) (x + b % 128 * w % two64) bs)
]

read_varint-IsReal : (bs : Bytes) → IsReal (read_varint bs).0
unfolding read_varint
read_varint-IsReal bs = read_varint_loop-IsReal 10 1 0 bs

read_full-IsReal : (n : ℕ) (bs : Bytes) → IsReal (read_full n bs).0
unfolding read_full
read_full-IsReal n bs = elim (Bool-cases (leb n (length bs))) [
  | inl all ↦ rw all tt
  | inr short ↦ elim (Bool-cases (length bs == 0)) [
    | inl nothing ↦ rw (short, nothing) (λ e. cc)
    | inr something ↦ rw (short, something) (λ e. cc)
  ]
]

tag_of-IsReal :
    (v : Result ℕ)
    → IsReal v
    → IsReal {A = ℕ × ℕ} (elim v [ ok n ↦ ok (n / 8, n % 8) | err e ↦ err e ])
tag_of-IsReal (ok n) h = tt
tag_of-IsReal (err e) h = h

read_tag-IsReal : (bs : Bytes) → IsReal (read_tag bs).0
unfolding read_tag
read_tag-IsReal bs = tag_of-IsReal (read_varint bs).0 (read_varint-IsReal bs)

read_payload-IsReal : (v : Result ℕ) (rest : Bytes) → IsReal v → IsReal (read_payload v rest).0
unfolding read_payload
read_payload-IsReal (ok n) rest h = elim (Bool-cases (ltb 1000000000 n)) [
  | inl long ↦ rw long (λ e. cc)
  | inr fits ↦ rw fits (read_full-IsReal n rest)
]
read_payload-IsReal (err e) rest h = h

read_length_delimited-IsReal : (bs : Bytes) → IsReal (read_length_delimited bs).0
unfolding read_length_delimited
read_length_delimited-IsReal bs =
    read_payload-IsReal (read_varint bs).0 (read_varint bs).1 (read_varint-IsReal bs)

module _ {S : Type 0} (strict : Bool) (on_varint : ℕ → ℕ → S → S)
    (on_bytes : ℕ → Bytes → S → S) where
  abbrev StopsReal : FieldRound S → Type 0
  StopsReal (stop r) = IsReal r
  StopsReal (next s rest) = Unit {0}

  take_varint-StopsReal :
      (k : ℕ) (s : S) (read : Result ℕ × Bytes)
      → IsReal read.0
      → StopsReal (take_varint strict on_varint on_bytes k s read)
  unfolding take_varint
  take_varint-StopsReal k s (ok v, rest) h = tt
  take_varint-StopsReal k s (err e, rest) h = elim (Bool-cases strict) [
    | inl stops ↦ rw stops h
    | inr goes ↦ rw goes tt
  ]

  take_bytes-StopsReal :
      (k : ℕ) (s : S) (read : Result Bytes × Bytes)
      → IsReal read.0
      → StopsReal (take_bytes strict on_varint on_bytes k s read)
  unfolding take_bytes
  take_bytes-StopsReal k s (ok v, rest) h = tt
  take_bytes-StopsReal k s (err e, rest) h = h

  take_field-StopsReal :
      (s : S) (read : Result (ℕ × ℕ) × Bytes)
      → IsReal read.0
      → StopsReal (take_field strict on_varint on_bytes s read)
  unfolding take_field
  take_field-StopsReal s (ok (k, w), rest) h = elim (Bool-cases (w == 0)) [
    | inl number ↦
        rw number (take_varint-StopsReal k s (read_varint rest) (read_varint-IsReal rest))
    | inr other ↦ elim (Bool-cases (w == 2)) [
      | inl bytes ↦
          rw (other, bytes)
            (take_bytes-StopsReal k s (read_length_delimited rest)
              (read_length_delimited-IsReal rest))
      | inr skipped ↦ rw (other, skipped) tt
    ]
  ]
  take_field-StopsReal s (err eof, rest) h = tt
  take_field-StopsReal s (err out_of_fuel, rest) h = h
  take_field-StopsReal s (err _, rest) h = h

  go_on-IsReal :
      (f : S → Bytes → Result S) (r : FieldRound S) (n : ℕ)
      → StopsReal r
      → IsShorter strict on_varint on_bytes n r
      → ((s : S) (rest : Bytes) → length rest < n → IsReal (f s rest))
      → IsReal {A = S} (elim r [ stop x ↦ x | next s rest ↦ f s rest ])
  go_on-IsReal f (stop x) n real short rec = real
  go_on-IsReal f (next s rest) n real short rec = rec s rest short

  field_loop-IsReal :
      (n : ℕ) (s : S) (bs : Bytes)
      → length bs < n
      → IsReal (field_loop strict on_varint on_bytes n s bs)
  unfolding field_loop
  field_loop-IsReal zero s bs h = absurd (omega arith)
  field_loop-IsReal (suc n) s bs h =
      go_on-IsReal (field_loop strict on_varint on_bytes n)
        (field_of strict on_varint on_bytes s bs) (length bs)
        (take_field-StopsReal s (read_tag bs) (read_tag-IsReal bs))
        (field_of-IsShorter strict on_varint on_bytes s bs)
        (λ t rest short. field_loop-IsReal n t rest (omega arith))

  read_fields-IsReal : (s : S) (bs : Bytes) → IsReal (read_fields strict on_varint on_bytes s bs)
  unfolding read_fields
  read_fields-IsReal s bs = field_loop-IsReal (suc (length bs)) s bs (omega arith)

map_ok-IsReal : {A B : Type 0} (f : A → B) (r : Result A) → IsReal r → IsReal (map_ok f r)
map_ok-IsReal f (ok a) h = tt
map_ok-IsReal f (err e) h = h

module _ {M : Type 0} (of_json : Bytes → Option M) (fresh : ℕ) where
  new_message-IsReal : (m : Option M) → IsReal (new_message of_json fresh m)
  unfolding new_message
  new_message-IsReal none = λ e. cc
  new_message-IsReal (some m) = tt

  parse_message-IsReal : (r : Result Bytes) → IsReal r → IsReal (parse_message of_json fresh r)
  unfolding parse_message
  parse_message-IsReal (ok bs) h = new_message-IsReal (of_json bs)
  parse_message-IsReal (err e) h = h

  decode_message_tagged-IsReal :
      (t : Result (ℕ × ℕ) × Bytes) → IsReal t.0 → IsReal (decode_message_tagged of_json fresh t)
  unfolding decode_message_tagged
  decode_message_tagged-IsReal (err e, rest) h = h
  decode_message_tagged-IsReal (ok (k, w), rest) h = elim (Bool-cases (w == 2)) [
    | inl bytes ↦
        rw bytes
          (parse_message-IsReal (read_length_delimited rest).0 (read_length_delimited-IsReal rest))
    | inr other ↦ rw other (λ e. cc)
  ]

  decode_field-IsReal :
      (k : ℕ) (r : Result Bytes) → IsReal r → IsReal (decode_field of_json fresh k r)
  unfolding decode_field decode_text_frame decode_transcription_frame decode_audio_frame
      decode_message_frame
  decode_field-IsReal k (err e) h = h
  decode_field-IsReal k (ok bs) h = elim (Bool-cases (k == 1)) [
    | inl text ↦
        rw text
          (map_ok-IsReal _ _ (read_fields-IsReal false text_varint text_bytes nothing_found bs))
    | inr k1 ↦ elim (Bool-cases (k == 3)) [
      | inl transcription ↦
          rw (k1, transcription)
            (map_ok-IsReal _ _
              (read_fields-IsReal false text_varint transcription_bytes nothing_found bs))
      | inr k3 ↦ elim (Bool-cases (k == 2)) [
        | inl audio ↦
            rw (k1, k3, audio)
              (map_ok-IsReal _ _ (read_fields-IsReal true audio_varint text_bytes nothing_found bs))
        | inr k2 ↦ elim (Bool-cases (k == 4)) [
          | inl message ↦
              rw (k1, k3, k2, message)
                (decode_message_tagged-IsReal (read_tag bs) (read_tag-IsReal bs))
          | inr k4 ↦ rw (k1, k3, k2, k4) (λ e. cc)
        ]
      ]
    ]
  ]

  decode_tagged-IsReal :
      (t : Result (ℕ × ℕ) × Bytes) → IsReal t.0 → IsReal (decode_tagged of_json fresh t)
  unfolding decode_tagged
  decode_tagged-IsReal (err e, rest) h = h
  decode_tagged-IsReal (ok (k, w), rest) h = elim (Bool-cases (w == 2)) [
    | inl bytes ↦
        rw bytes
          (decode_field-IsReal k (read_length_delimited rest).0 (read_length_delimited-IsReal rest))
    | inr other ↦ rw other (λ e. cc)
  ]

  ends : (r : Result (WireFrame M)) → IsReal r → r ≢ err out_of_fuel
  ends (ok f) h = λ e. cc
  ends (err e) h = λ same. h (cc)

  -- Whatever bytes arrive, decoding comes to an end, with a frame or one of the code's errors: the loop
  -- over the fields never runs out of fuel.
  pub decode_frame_wire_ends : (bs : Bytes) → decode_frame_wire of_json fresh bs ≢ err out_of_fuel
  unfolding decode_frame_wire
  decode_frame_wire_ends bs =
      ends (decode_tagged of_json fresh (read_tag bs))
        (decode_tagged-IsReal (read_tag bs) (read_tag-IsReal bs))
