-- ===== src/Recording/Files.antt =====
-- What pkg/recording does to a file: os.File with Write and Seek. A file is its bytes and the position
-- in it, which is never beyond the end here. Each operation may fail; a write then has written some
-- of its bytes.
use voxray.Base.{
  ℕ, zero, suc, ◌≤◌, ◌+◌, ◌≡◌, refl, ap, sym, ◌∙◌, Bool, true, false, Option, none, some, List, [],
  ◌∷◌, ◌++◌, append-nil, length, take, drop, length-append, take-append_length, if◌then◌else◌,
  arith,
}
use voxray.Audio.Pcm.{Bytes}

pub record File : Type 0 where
  pub bytes : Bytes
  pub offset : ℕ

abbrev pub empty_file : File
empty_file = record { bytes = []; offset = 0 }

pub data Op : Type 0 where
  put_bytes : Bytes → Op
  seek_to : ℕ → Op
  seek_end : Op

-- Whether an operation fails, and how many bytes it has written then.
abbrev pub Fault : Type 0
Fault = Option ℕ

unfoldable pub write : Bytes → File → File
write bs f = record {
  bytes = take f.offset f.bytes ++ bs ++ drop (f.offset + length bs) f.bytes;
  offset = f.offset + length bs;
}

unfoldable pub perform_op : Fault → Op → File → File × Bool
perform_op none (put_bytes bs) f = (write bs f, true)
perform_op none (seek_to n) f = (record f { offset = n }, true)
perform_op none seek_end f = (record f { offset = length f.bytes }, true)
perform_op (some k) (put_bytes bs) f = (write (take k bs) f, false)
perform_op (some k) _ f = (f, false)

unfoldable pub first_fault : List Fault → Fault
first_fault [] = none
first_fault (fault ∷ faults) = fault

-- One operation after the other, up to the first that fails.
unfoldable pub perform : List Fault → List Op → File → File × Bool
perform faults [] f = (f, true)
perform faults (op ∷ ops) f =
    let (g, ok) = perform_op (first_fault faults) op f in
    let rest = perform (drop 1 faults) ops g in if ok then rest else (g, false)

abbrev pub at_end : Bytes → File
at_end bs = record { bytes = bs; offset = length bs }

take-length : (bs : Bytes) → take (length bs) bs ≡ bs
take-length bs = ap (take (length bs)) (sym (append-nil bs)) ∙ take-append_length bs []

drop_beyond : (n : ℕ) (bs : Bytes) → length bs ≤ n → drop n bs ≡ []
drop_beyond zero [] h = refl
drop_beyond (suc n) [] h = refl
drop_beyond zero (b ∷ bs) h = absurd (omega arith)
drop_beyond (suc n) (b ∷ bs) h = drop_beyond n bs (omega arith)

pub write-at_end : (bs cs : Bytes) → write cs (at_end bs) ≡ at_end (bs ++ cs)
unfolding write
write-at_end bs cs =
    rw
      (
        take-length bs,
        drop_beyond (length bs + length cs) bs (omega arith),
        append-nil (bs ++ cs),
        length-append bs cs,
      )
      refl
