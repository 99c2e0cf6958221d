-- ===== src/Session/ChanReader/Streams.antt =====
-- internal/session/chanreader.go: what the consumer reads is what the producer sent.
use uiscsi.Common.{
  length-take_fits, ℕ, zero, suc, ◌<◌, ◌≤◌, ◌≡◌, refl, sym, ap, ◌∙◌, true, false, some, none, List,
  [], ◌∷◌, ◌++◌, length, take, drop, ltb, take-drop, append_assoc, All, drop_all, min, Bool-cases,
  Option-cases, inl, inr, arith,
}
use native.Mathlib.Decide.{dec_lt}
use uiscsi.Session.ChanReader.{ChanReader, ReadAnswer, bytes, failed, eof, blocks, read, receive}

abbrev pub concat : List (List ℕ) → List ℕ
concat [] = []
concat (x ∷ xs) = x ++ concat xs

pub concat-append : (xs ys : List (List ℕ)) → concat (xs ++ ys) ≡ concat xs ++ concat ys
concat-append [] ys = refl
concat-append (x ∷ xs) ys = ap (◌++◌ x) (concat-append xs ys) ∙ sym (append_assoc x _ _)

module _ {E : Type 0} where
  -- The bytes that the consumer has still to read.
  abbrev pub unread : ChanReader E → List ℕ
  unread cr = cr.current ++ concat cr.ch

  -- No chunk in the channel is empty.
  pub record IsStream (cr : ChanReader E) : Type 0 where
    pub chunks_carry : All (λ c. 0 < length c) cr.ch

  -- What a Read of `n` bytes at most may answer, and what it leaves.
  pub record Read (n : ℕ) (cr : ChanReader E) (got : List ℕ) (cr' : ChanReader E) : Type 0 where
    pub in_order : got ++ unread cr' ≡ unread cr
    pub fits : length got ≤ n
    pub progress : 0 < n → 0 < length got
    pub still : IsStream cr'
    pub same_end : (cr'.closed ≡ cr.closed) × (cr'.failure ≡ cr.failure)

  abbrev pub Streams : ℕ → ChanReader E → ReadAnswer E × ChanReader E → Type 0
  Streams n cr (bytes got, cr') = Read n cr got cr'
  Streams n cr (failed e, cr') =
      (unread cr ≡ []) × (cr.closed ≡ true) × (cr.failure ≡ some e) × (cr' ≡ cr)
  Streams n cr (eof, cr') = (unread cr ≡ []) × (cr.closed ≡ true) × (cr.failure ≡ none) × (cr' ≡ cr)
  Streams n cr (blocks, cr') = (unread cr ≡ []) × (cr.closed ≡ false) × (cr' ≡ cr)

empty_of : {A : Type 0} (xs : List A) → length xs ≡ 0 → xs ≡ []
empty_of [] h = refl
empty_of (x ∷ xs) h = absurd (omega arith)

length-take_progress :
    {A : Type 0} (n : ℕ) (xs : List A) → 0 < n → 0 < length xs → 0 < length (take n xs)
length-take_progress zero xs h k = absurd (omega arith)
length-take_progress (suc n) [] h k = absurd (omega arith)
length-take_progress (suc n) (x ∷ xs) h k = omega arith

module _ {E : Type 0} where
  receive-Streams :
      (n : ℕ) (cr : ChanReader E) (ch : List (List ℕ))
      → cr.current ≡ []
      → cr.ch ≡ ch
      → All (λ c. 0 < length c) ch
      → Streams n cr (receive n cr ch)
  receive-Streams n cr [] nothing same h =
      let all : unread cr ≡ [] = rw (nothing, same) refl in
      elim (Bool-cases cr.closed) [
        | inl is_closed ↦ elim (Option-cases cr.failure) [
          | inl none_set ↦ simp (is_closed, none_set) (all, refl, refl, refl)
          | inr (e, is_set) ↦ simp (is_closed, is_set) (all, refl, refl, refl)
        ]
        | inr is_open ↦ simp is_open (all, refl, refl)
      ]
  receive-Streams n cr (chunk ∷ more) nothing same h =
      let split : take n chunk ++ (drop n chunk ++ concat more) ≡ unread cr =
        sym (append_assoc (take n chunk) _ _)
        ∙ ap (λ z. z ++ concat more) (take-drop n chunk)
        ∙ rw (nothing, same) refl in
      elim (dec_lt n (length chunk)) [
        | yes part ↦
            let is_part : ltb (min n (length chunk)) (length chunk) ≡ true = ground arith in
            rw is_part (record {
              in_order = split;
              fits = length-take_fits n chunk;
              progress = λ some_room. length-take_progress n chunk some_room h.0;
              still = record { chunks_carry = h.1 };
              same_end = (refl, refl);
            })
        | no whole ↦
            let not_part : ltb (min n (length chunk)) (length chunk) ≡ false = ground arith in
            let nothing_left : drop n chunk ≡ [] = drop_all n chunk (omega arith) in
            rw not_part (record {
              in_order =
                  ap (λ z. take n chunk ++ (z ++ concat more)) (nothing ∙ sym nothing_left) ∙ split;
              fits = length-take_fits n chunk;
              progress = λ some_room. length-take_progress n chunk some_room h.0;
              still = record { chunks_carry = h.1 };
              same_end = (refl, refl);
            })
      ]

  -- A Read of the streaming reader either gives the next bytes in the order in which the task sent
  -- them, at most as many as it is asked for and at least one if it is asked for any, or all bytes
  -- are read: then it gives the error with which the task closed the reader, io.EOF when it closed
  -- it without one, and waits when it has not closed it. No chunk in the channel is empty.
  pub read-Streams : (n : ℕ) (cr : ChanReader E) → IsStream cr → Streams n cr (read n cr)
  unfolding read
  read-Streams n cr h = elim (dec_lt 0 (length cr.current)) [
    | yes rest ↦
        let is_rest : ltb 0 (length cr.current) ≡ true = ground arith in
        rw is_rest (record {
          in_order =
              sym (append_assoc (take n cr.current) _ _)
              ∙ ap (λ z. z ++ concat cr.ch) (take-drop n cr.current);
          fits = length-take_fits n cr.current;
          progress = λ some_room. length-take_progress n cr.current some_room rest;
          still = record { chunks_carry = h.chunks_carry };
          same_end = (refl, refl);
        })
    | no used ↦
        let not_rest : ltb 0 (length cr.current) ≡ false = ground arith in
        rw not_rest
          (receive-Streams n cr cr.ch (empty_of cr.current (omega arith)) refl h.chunks_carry)
  ]
