-- ===== src/Serialize/Wire/Fields.antt =====
-- The fields that wire.go writes are read back, and its loops end.
use voxray.Base.{
  ℕ, zero, suc, ◌+◌, ◌*◌, ◌/◌, ◌%◌, ◌<◌, ◌≤◌, Bool, false, [], ◌∷◌, ◌++◌, length, ◌≡◌, refl, ap,
  subst, inl, inr, Bool-cases, ◌∙◌, ltb, ◌==◌, arith, append_assoc,
}
use voxray.Audio.Pcm.{Bytes}
use voxray.Serialize.Varint.{
  eof, Result, ok, err, varint, two64, read_varint, read_varint_loop, read_varint-varint,
  read_varint_shorter, read_varint_no_longer, read_varint_empty, read_full_no_longer,
  read_full-append,
}
use voxray.Serialize.Wire.{tag, length_delimited, varint_field}
use voxray.Serialize.Wire.Decoding.{
  read_tag, read_payload, read_length_delimited, FieldRound, stop, next, take_varint, take_bytes,
  take_field, field_loop, read_fields,
}

pub read_tag-tag :
    (k w : ℕ) (rest : Bytes) → k < 1000 → w < 8 → read_tag (tag k w ++ rest) ≡ (ok (k, w), rest)
unfolding read_tag tag
read_tag-tag k w rest hk hw = rw (read_varint-varint (k * 8 + w) rest (omega arith)) (
    ap (λ p. (ok p, rest))
      (pair_eq ((k * 8 + w) / 8) k ((k * 8 + w) % 8) w (omega arith) (omega arith)))
  where
    pair_eq : (a b c d : ℕ) → a ≡ b → c ≡ d → ◌≡◌ {A = ℕ × ℕ} (a, c) (b, d)
    pair_eq a b c d p q = rw (p, q) refl

pub read_length_delimited-append :
    (payload rest : Bytes)
    → length payload ≤ 1000000000
    → read_length_delimited (varint (length payload) ++ (payload ++ rest)) ≡ (ok payload, rest)
unfolding read_length_delimited read_payload
read_length_delimited-append payload rest h =
    let short : ltb 1000000000 (length payload) ≡ false = ground arith in
    rw (read_varint-varint (length payload) (payload ++ rest) (omega arith), short)
      (read_full-append payload rest)

payload_no_longer :
    (v : Result ℕ) (rest : Bytes) (n : ℕ) → length rest ≤ n → length (read_payload v rest).1 ≤ n
unfolding read_payload
payload_no_longer (ok v) rest n h = ground (arith, read_full_no_longer v rest)
payload_no_longer (err e) rest n h = h

read_length_delimited_no_longer : (bs : Bytes) → length (read_length_delimited bs).1 ≤ length bs
unfolding read_length_delimited read_payload
read_length_delimited_no_longer bs =
    payload_no_longer (read_varint bs).0 (read_varint bs).1 (length bs) (read_varint_no_longer bs)

module _ {S : Type 0} (strict : Bool) (on_varint : ℕ → ℕ → S → S)
    (on_bytes : ℕ → Bytes → S → S) where
  abbrev pub field_of : S → Bytes → FieldRound S
  field_of s bs = take_field strict on_varint on_bytes s (read_tag bs)

  field_of-varint_field :
      (k v : ℕ) (s : S) (rest : Bytes)
      → k < 1000
      → v < two64
      → field_of s (varint_field k v ++ rest) ≡ next (on_varint k v s) rest
  unfolding take_field take_varint varint_field
  field_of-varint_field k v s rest hk hv =
      rw
        (
          append_assoc (tag k 0) (varint v) rest,
          read_tag-tag k 0 (varint v ++ rest) hk (omega arith),
          read_varint-varint v rest hv,
        )
        refl

  field_of-length_delimited :
      (k : ℕ) (payload : Bytes) (s : S) (rest : Bytes)
      → k < 1000
      → length payload ≤ 1000000000
      → field_of s (length_delimited k payload ++ rest) ≡ next (on_bytes k payload s) rest
  unfolding take_field take_bytes length_delimited
  field_of-length_delimited k payload s rest hk h =
      rw
        (
          append_assoc (tag k 2) (varint (length payload) ++ payload) rest,
          append_assoc (varint (length payload)) payload rest,
          read_tag-tag k 2 (varint (length payload) ++ (payload ++ rest)) hk (omega arith),
          read_length_delimited-append payload rest h,
        )
        refl

  -- A round that goes on leaves less than some bytes.
  abbrev pub IsShorter : ℕ → FieldRound S → Type 0
  IsShorter n (stop r) = Unit {0}
  IsShorter n (next s rest) = length rest < n

  take_varint-IsShorter :
      (k n : ℕ) (s : S) (read : Result ℕ × Bytes)
      → length read.1 < n
      → IsShorter n (take_varint strict on_varint on_bytes k s read)
  unfolding take_varint
  take_varint-IsShorter k n s (ok v, rest) h = h
  take_varint-IsShorter k n s (err e, rest) h = elim (Bool-cases strict) [
    | inl yes' ↦ rw yes' tt
    | inr no' ↦ rw no' h
  ]

  take_bytes-IsShorter :
      (k n : ℕ) (s : S) (read : Result Bytes × Bytes)
      → length read.1 < n
      → IsShorter n (take_bytes strict on_varint on_bytes k s read)
  unfolding take_bytes
  take_bytes-IsShorter k n s (ok bs, rest) h = h
  take_bytes-IsShorter k n s (err e, rest) h = tt

  take_field-IsShorter :
      (n : ℕ) (s : S) (read : Result (ℕ × ℕ) × Bytes)
      → length read.1 < n
      → IsShorter n (take_field strict on_varint on_bytes s read)
  unfolding take_field
  take_field-IsShorter n s (ok (k, w), rest) h =
      let v_short : length (read_varint rest).1 < n = omega (arith, read_varint_no_longer rest) in
      let d_short : length (read_length_delimited rest).1 < n =
        omega (arith, read_length_delimited_no_longer rest) in
      elim (Bool-cases (w == 0)) [
        | inl number ↦ rw number (take_varint-IsShorter k n s (read_varint rest) v_short)
        | inr other ↦ elim (Bool-cases (w == 2)) [
          | inl bytes ↦
              rw (other, bytes) (take_bytes-IsShorter k n s (read_length_delimited rest) d_short)
          | inr skipped ↦ rw (other, skipped) h
        ]
      ]
  take_field-IsShorter n s (err eof, rest) h = tt
  take_field-IsShorter n s (err _, rest) h = tt

  -- Each round that goes on takes a byte.
  pub field_of-IsShorter : (s : S) (bs : Bytes) → IsShorter (length bs) (field_of s bs)
  unfolding take_field read_tag
  field_of-IsShorter s [] = rw read_varint_empty tt
  field_of-IsShorter s (b ∷ bs) =
      take_field-IsShorter (suc (length bs)) s (read_tag (b ∷ bs))
        (omega (arith, read_varint_shorter b bs))

  go_on :
      (f g : S → Bytes → Result S) (r : FieldRound S) (n : ℕ)
      → IsShorter n r
      → ((s : S) (rest : Bytes) → length rest < n → f s rest ≡ g s rest)
      → ◌≡◌ {A = Result S}
          (elim r [ stop x ↦ x | next s rest ↦ f s rest ])
          (elim r [ stop x ↦ x | next s rest ↦ g s rest ])
  go_on f g (stop x) n short same = refl
  go_on f g (next s rest) n short same = same s rest short

  -- With more fuel than bytes, the fuel does not matter.
  pub fields_enough :
      (n m : ℕ) (s : S) (bs : Bytes)
      → length bs < n
      → length bs < m
      → field_loop strict on_varint on_bytes n s bs ≡ field_loop strict on_varint on_bytes m s bs
  unfolding field_loop
  fields_enough zero m s bs hn hm = absurd (omega arith)
  fields_enough (suc n) zero s bs hn hm = absurd (omega arith)
  fields_enough (suc n) (suc m) s bs hn hm =
      go_on (field_loop strict on_varint on_bytes n) (field_loop strict on_varint on_bytes m)
        (field_of s bs) (length bs) (field_of-IsShorter s bs)
        (λ t rest h. fields_enough n m t rest (omega arith) (omega arith))

  -- A field that is written is read: the loop goes on with what it does.
  read_on :
      (s t : S) (bs rest : Bytes)
      → field_of s bs ≡ next t rest
      → read_fields strict on_varint on_bytes s bs ≡ read_fields strict on_varint on_bytes t rest
  unfolding read_fields field_loop
  read_on s t bs rest e =
      let short : length rest < length bs =
        subst (IsShorter (length bs)) e (field_of-IsShorter s bs) in
      let go : FieldRound S → Result S = λ r. elim r [
        | stop x ↦ x
        | next s' left ↦ field_loop strict on_varint on_bytes (length bs) s' left
      ] in
      ap go e ∙ fields_enough (length bs) (suc (length rest)) t rest short (omega arith)

  pub read_fields-varint_field :
      (k v : ℕ) (s : S) (rest : Bytes)
      → k < 1000
      → v < two64
      → read_fields strict on_varint on_bytes s (varint_field k v ++ rest)
        ≡ read_fields strict on_varint on_bytes (on_varint k v s) rest
  read_fields-varint_field k v s rest hk hv =
      read_on s (on_varint k v s) (varint_field k v ++ rest) rest
        (field_of-varint_field k v s rest hk hv)

  pub read_fields-length_delimited :
      (k : ℕ) (payload : Bytes) (s : S) (rest : Bytes)
      → k < 1000
      → length payload ≤ 1000000000
      → read_fields strict on_varint on_bytes s (length_delimited k payload ++ rest)
        ≡ read_fields strict on_varint on_bytes (on_bytes k payload s) rest
  read_fields-length_delimited k payload s rest hk h =
      read_on s (on_bytes k payload s) (length_delimited k payload ++ rest) rest
        (field_of-length_delimited k payload s rest hk h)

  pub read_fields_empty : (s : S) → read_fields strict on_varint on_bytes s [] ≡ ok s
  unfolding read_fields field_loop take_field read_tag read_varint read_varint_loop
  read_fields_empty s = refl
