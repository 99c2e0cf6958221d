-- ===== src/Session/DataIn/Reassembly/Reads.antt =====
-- internal/session/chanreader.go: the caller's reads keep the reassembly.
use uiscsi.Common.{ℕ, ◌≡◌, refl, sym, ap, ◌∙◌, subst, Option, some, none, List, ◌++◌, append_assoc}
use uiscsi.Pdu.Target.Transfers.{DataIn}
use uiscsi.Session.ChanReader.{ChanReader, ReadAnswer, bytes, failed, eof, blocks, read}
use uiscsi.Session.ChanReader.Streams.{Streams, read-Streams, unread, IsStream}
use uiscsi.Session.ReadTask.{ReadTask, Sink, no_sink, buffer, stream, TaskError}
use uiscsi.Session.DataIn.Reassembly
use uiscsi.Session.DataIn.Reassembly.{
  contents, IsOpen, IsSplit, IsPartial, IsWaiting, IsComplete, IsLost, Gives, Has, Handled,
}

-- What the caller has read so far, and the task.
abbrev pub after_read :
    List ℕ → ReadTask → ReadAnswer TaskError × ChanReader TaskError → List ℕ × ReadTask
after_read c t (bytes got, cr) = (c ++ got, record t { sink = stream cr })
after_read c t (r, cr) = (c, record t { sink = stream cr })

abbrev pub read_from : ℕ → List ℕ → ReadTask → Sink → List ℕ × ReadTask
read_from m c t (stream cr) = after_read c t (read m cr)
read_from m c t s = (c, t)

module _ (src : ℕ → DataIn) (n : ℕ) where
  -- A read of the caller keeps what is expected of the task.
  abbrev pub Keeps : (List ℕ → ReadTask → Type 0) → ReadTask → List ℕ × ReadTask → Type 0
  Keeps P t (c', t') =
      P c' t' × ((j : ℕ) → Has src n j t → Has src n j t') × (t'.results ≡ t.results)

  streamed-IsWaiting :
      (c c' : List ℕ) (t : ReadTask) (cr cr' : ChanReader TaskError)
      → t.sink ≡ stream cr
      → IsWaiting src n c t
      → c' ++ unread cr' ≡ c ++ unread cr
      → IsStream cr'
      → (cr'.closed ≡ cr.closed) × (cr'.failure ≡ cr.failure)
      → IsWaiting src n c' (record t { sink = stream cr' })
  streamed-IsWaiting c c' t cr cr' same w order still ends =
      let p = w.part in
      let (open0, failure0, _) = subst IsOpen same p.is_open in
      record {
        part = record {
          in_range = p.in_range;
          offset = p.offset;
          prefix =
              order
              ∙ subst (λ z. c ++ contents z ≡ Reassembly.bytes src n t.next_data_sn) same p.prefix;
          is_open = (ends.0 ∙ open0, ends.1 ∙ failure0, still);
          ours = p.ours;
          no_result = p.no_result;
          not_done = p.not_done;
          recovers = p.recovers;
        };
        more = w.more;
        drained = w.drained;
      }

  streamed-Gives :
      (c c' : List ℕ) (cr cr' : ChanReader TaskError) (payload : Option (List ℕ))
      → c' ++ unread cr' ≡ c ++ unread cr
      → IsStream cr'
      → (cr'.closed ≡ cr.closed) × (cr'.failure ≡ cr.failure)
      → Gives src n c (stream cr) payload
      → Gives src n c' (stream cr') payload
  streamed-Gives c c' cr cr' (some p) order still ends g = absurd g
  streamed-Gives c c' cr cr' none order still ends (all, is_closed, no_error, _) =
      (order ∙ all, ends.0 ∙ is_closed, ends.1 ∙ no_error, still)

  streamed-IsComplete :
      (c c' : List ℕ) (t : ReadTask) (cr cr' : ChanReader TaskError)
      → t.sink ≡ stream cr
      → IsComplete src n c t
      → c' ++ unread cr' ≡ c ++ unread cr
      → IsStream cr'
      → (cr'.closed ≡ cr.closed) × (cr'.failure ≡ cr.failure)
      → IsComplete src n c' (record t { sink = stream cr' })
  streamed-IsComplete c c' t cr cr' same d order still ends = record {
    result = d.result;
    only = d.only;
    of_last = d.of_last;
    all_data =
        streamed-Gives c c' cr cr' d.result.payload order still ends
          (subst (λ z. Gives src n c z d.result.payload) same d.all_data);
  }

  -- Either expectation, for any answer of the stream.
  after_read-Keeps :
      (P : List ℕ → ReadTask → Type 0) (m : ℕ) (c : List ℕ) (t : ReadTask)
      (cr : ChanReader TaskError)
      → ((c' : List ℕ) (cr' : ChanReader TaskError)
          → c' ++ unread cr' ≡ c ++ unread cr
          → IsStream cr'
          → (cr'.closed ≡ cr.closed) × (cr'.failure ≡ cr.failure)
          → P c' (record t { sink = stream cr' }))
      → IsStream cr
      → (r : ReadAnswer TaskError × ChanReader TaskError) → Streams m cr r
      → Keeps P t (after_read c t r)
  after_read-Keeps P m c t cr step s (bytes got, cr') h = (
    step (c ++ got) cr' (append_assoc c got _ ∙ ap (◌++◌ c) h.in_order) h.still h.same_end,
    λ j had. had,
    refl,
  )
  after_read-Keeps P m c t cr step s (failed e, cr') (_, _, _, same) = (
    subst (λ z. P c (record t { sink = stream z })) (sym same) (step c cr refl s (refl, refl)),
    λ j had. had,
    refl,
  )
  after_read-Keeps P m c t cr step s (eof, cr') (_, _, _, same) = (
    subst (λ z. P c (record t { sink = stream z })) (sym same) (step c cr refl s (refl, refl)),
    λ j had. had,
    refl,
  )
  after_read-Keeps P m c t cr step s (blocks, cr') (_, _, same) = (
    subst (λ z. P c (record t { sink = stream z })) (sym same) (step c cr refl s (refl, refl)),
    λ j had. had,
    refl,
  )

  pub read_from-IsWaiting :
      (m : ℕ) (c : List ℕ) (t : ReadTask) (s : Sink)
      → t.sink ≡ s
      → IsWaiting src n c t
      → Keeps (IsWaiting src n) t (read_from m c t s)
  read_from-IsWaiting m c t no_sink same w = (w, λ j had. had, refl)
  read_from-IsWaiting m c t (buffer b) same w = (w, λ j had. had, refl)
  read_from-IsWaiting m c t (stream cr) same w =
      let (_, _, is_stream) = subst IsOpen same w.part.is_open in
      after_read-Keeps (IsWaiting src n) m c t cr
        (λ c' cr' order still ends. streamed-IsWaiting c c' t cr cr' same w order still ends)
        is_stream (read m cr) (read-Streams m cr is_stream)

  Gives-IsStream :
      (c : List ℕ) (cr : ChanReader TaskError) (payload : Option (List ℕ))
      → Gives src n c (stream cr) payload
      → IsStream cr
  Gives-IsStream c cr (some p) g = absurd g
  Gives-IsStream c cr none (_, _, _, is_stream) = is_stream

  pub read_from-IsComplete :
      (m : ℕ) (c : List ℕ) (t : ReadTask) (s : Sink)
      → t.sink ≡ s
      → IsComplete src n c t
      → Keeps (IsComplete src n) t (read_from m c t s)
  read_from-IsComplete m c t no_sink same d = (d, λ j had. had, refl)
  read_from-IsComplete m c t (buffer b) same d = (d, λ j had. had, refl)
  read_from-IsComplete m c t (stream cr) same d =
      let is_stream =
        Gives-IsStream c cr d.result.payload
          (subst (λ z. Gives src n c z d.result.payload) same d.all_data) in
      after_read-Keeps (IsComplete src n) m c t cr
        (λ c' cr' order still ends. streamed-IsComplete c c' t cr cr' same d order still ends)
        is_stream (read m cr) (read-Streams m cr is_stream)
