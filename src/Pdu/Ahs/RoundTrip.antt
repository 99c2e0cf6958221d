-- ===== src/Pdu/Ahs/RoundTrip.antt =====
-- internal/pdu/ahs.go: UnmarshalAHS inverts MarshalAHS, and its loop ends on every input.
use uiscsi.Common.{
  ℕ, zero, suc, ◌+◌, ◌*◌, ◌-◌, ◌%◌, ◌^◌, ◌≤◌, ◌≡◌, ◌≢◌, refl, sym, ap, ◌∙◌, List, [], ◌∷◌, ◌++◌,
  All, take, drop, length, length-append, length-replicate, length-drop, take-append, drop-append,
  append-nil, append_assoc, if-elim, arith,
}
use uiscsi.Common.Bytes.{zeros, get16}
use uiscsi.Pdu.Header.{pad_len}
use uiscsi.Pdu.Ahs.{
  Ahs, truncated_header, invalid_length, data_too_long, data_exceeds, Result, ok, err, out_of_fuel,
  marshal_segment, marshal_ahs, unmarshal_loop, unmarshal_ahs, max_data_len,
}

-- A segment that UnmarshalAHS is willing to read.
abbrev pub IsSegment : Ahs → Type 0
IsSegment seg = length seg.bytes ≤ max_data_len

drop_exact : (n : ℕ) (xs ys : List ℕ) → length xs ≡ n → drop n (xs ++ ys) ≡ ys
drop_exact n xs ys h = rw (← h) (drop-append xs ys)

take_exact : (n : ℕ) (xs ys : List ℕ) → length xs ≡ n → take n (xs ++ ys) ≡ xs
take_exact n xs ys h = rw (← h) (take-append xs ys)

sub_two : (n : ℕ) → 2 + n - 2 ≡ n
sub_two n = omega arith

four_more : (n k : ℕ) → 4 + n + k ≡ suc (suc (suc (suc (n + k))))
four_more n k = omega arith

advance :
    (n k a b t u : ℕ) (xs pad more : List ℕ)
    → length xs ≡ n
    → length pad ≡ k
    → drop (4 + n + k) (a ∷ b ∷ t ∷ u ∷ (xs ++ (pad ++ more))) ≡ more
advance n k a b t u xs pad more h e =
    rw (four_more n k, ← append_assoc xs pad more)
      (drop_exact (n + k) (xs ++ pad) more (omega (arith, length-append xs pad)))

-- One round, by what the four bytes at the front of `left` say.
unmarshal_loop_step :
    (fuel a b t u : ℕ) (xs pad more : List ℕ) (segments : List Ahs)
    → a * 2 ^ 8 + b ≡ 2 + length xs
    → length xs ≤ max_data_len
    → length pad ≡ pad_len (4 + length xs)
    → unmarshal_loop (suc fuel) (a ∷ b ∷ t ∷ u ∷ (xs ++ (pad ++ more))) segments
      ≡ unmarshal_loop fuel more (segments ++ record { type = t; bytes = xs } ∷ [])
unfolding unmarshal_loop
unmarshal_loop_step fuel a b t u xs pad more segments e h p =
    rw
      (
        e,
        sub_two (length xs),
        advance (length xs) _ a b t u xs pad more refl p,
        take_exact _ xs (pad ++ more) refl,
      )
      (ground (arith, length-append xs (pad ++ more)))

-- One round reads one segment back.
unmarshal_loop-segment :
    (fuel : ℕ) (seg : Ahs) (more : List ℕ) (segments : List Ahs)
    → IsSegment seg
    → unmarshal_loop (suc fuel) (marshal_segment seg ++ more) segments
      ≡ unmarshal_loop fuel more (segments ++ seg ∷ [])
unfolding marshal_segment
unmarshal_loop-segment fuel seg more segments h =
    rw (append_assoc seg.bytes (zeros (pad_len ((4 + length seg.bytes) % 2 ^ 32))) more) (
      unmarshal_loop_step fuel _ _ seg.type 0 seg.bytes
        (zeros (pad_len ((4 + length seg.bytes) % 2 ^ 32))) more segments (omega arith) h
        (length-replicate _ 0 ∙ ap pad_len (omega arith)))

unmarshal_loop-nil :
    (fuel : ℕ) (segments : List Ahs) → unmarshal_loop fuel [] segments ≡ ok segments
unfolding unmarshal_loop
unmarshal_loop-nil zero segments = refl
unmarshal_loop-nil (suc fuel) segments = refl

unmarshal_loop-marshal_ahs :
    (segs : List Ahs) (fuel : ℕ) (segments : List Ahs)
    → All IsSegment segs
    → length segs ≤ fuel
    → unmarshal_loop fuel (marshal_ahs segs) segments ≡ ok (segments ++ segs)
unfolding marshal_ahs
unmarshal_loop-marshal_ahs [] fuel segments h f =
    unmarshal_loop-nil fuel segments ∙ ap ok (sym (append-nil segments))
unmarshal_loop-marshal_ahs (s ∷ segs) zero segments h f = absurd (omega arith)
unmarshal_loop-marshal_ahs (s ∷ segs) (suc fuel) segments h f =
    unmarshal_loop-segment fuel s (marshal_ahs segs) segments h.0
    ∙ unmarshal_loop-marshal_ahs segs fuel (segments ++ s ∷ []) h.1 (omega arith)
    ∙ ap ok (append_assoc segments (s ∷ []) segs)

length-marshal_ahs : (segs : List Ahs) → length segs ≤ length (marshal_ahs segs)
unfolding marshal_ahs marshal_segment
length-marshal_ahs [] = omega arith
length-marshal_ahs (s ∷ segs) =
    let tail = s.bytes ++ zeros (pad_len ((4 + length s.bytes) % 2 ^ 32)) in
    omega (arith, length-append tail (marshal_ahs segs), length-marshal_ahs segs)

-- For any list of segments of at most 16384 data bytes each, UnmarshalAHS of what MarshalAHS wrote
-- succeeds with the same list.
pub unmarshal_ahs-marshal_ahs :
    (segs : List Ahs) → All IsSegment segs → unmarshal_ahs (marshal_ahs segs) ≡ ok segs
unfolding unmarshal_ahs
unmarshal_ahs-marshal_ahs segs h = unmarshal_loop-marshal_ahs segs _ [] h (length-marshal_ahs segs)

abbrev Ends : Result → Type 0
Ends r = r ≢ err out_of_fuel

unmarshal_loop_ends :
    (fuel : ℕ) (left : List ℕ) (segments : List Ahs)
    → length left ≤ fuel
    → unmarshal_loop fuel left segments ≢ err out_of_fuel
unfolding unmarshal_loop
unmarshal_loop_ends fuel [] segments h = λ e. cc
unmarshal_loop_ends zero (b ∷ bs) segments h = absurd (omega arith)
unmarshal_loop_ends (suc fuel) (b ∷ bs) segments h =
    let n = 4 + (get16 0 (b ∷ bs) - 2) + pad_len (4 + (get16 0 (b ∷ bs) - 2)) in
    let shorter : length (drop n (b ∷ bs)) ≤ fuel = omega (arith, length-drop n (b ∷ bs)) in
    if-elim Ends _ (λ (e : err truncated_header ≡ err out_of_fuel). cc)
      (if-elim Ends _ (λ (e : err invalid_length ≡ err out_of_fuel). cc)
        (if-elim Ends _ (λ (e : err (data_too_long (get16 0 (b ∷ bs) - 2)) ≡ err out_of_fuel). cc)
          (if-elim Ends _ (λ (e : err data_exceeds ≡ err out_of_fuel). cc)
            (unmarshal_loop_ends fuel (drop n (b ∷ bs)) _ shorter))))

-- UnmarshalAHS ends on every input: its loop takes at most as many rounds as there are bytes.
pub unmarshal_ahs_ends : (bytes : List ℕ) → unmarshal_ahs bytes ≢ err out_of_fuel
unfolding unmarshal_ahs
unmarshal_ahs_ends bytes = unmarshal_loop_ends (length bytes) bytes [] (omega arith)
