-- ===== src/Transport/Tests.antt =====
-- internal/transport: routers with pending tasks, and a framed PDU with both digests.
use uiscsi.Common.{
  ℕ, ◌+◌, ◌<◌, ◌≡◌, ◌≢◌, refl, true, false, some, List, [], ◌∷◌, ◌++◌, length, replicate, arith,
}
use uiscsi.Common.Bytes.{zeros}
use uiscsi.Digest.{header_digest_of, data_digest_of}
use uiscsi.Pdu.Header.{pad_len}
use uiscsi.Transport.Router.{Entry, Router, reserved_itt, register, register_persistent, lookup}
use uiscsi.Transport.Router.Laws.{
  WaitsOnce, register-WaitsOnce, WaitsAlways, register_persistent-WaitsAlways,
}
use uiscsi.Transport.Router.Tags.{nth_itt, nth_itt_distinct, register_takes_over}
use uiscsi.Transport.Framer.{RawPdu, little_endian, ok, read_raw_pdu, write_raw_pdu, wire_size}
use uiscsi.Transport.Framer.Wire.{wire, write_raw_pdu-wire}
use uiscsi.Transport.Framer.Reading.{IsFramed, read_raw_pdu-write_raw_pdu}
use uiscsi.Transport.Framer.Digests.{IsChecked, read_raw_pdu-IsChecked}

abbrev old_entry : Entry
old_entry = record { ch = record { serial = 4; capacity = 1 }; persistent = false }

-- Tag 0 still waits; the next tag is 0 after a wrap.
abbrev wrapped : Router
wrapped = record { pending = (0, old_entry) ∷ []; next_itt = 0; persistent_depth = 64; made = 9 }

register-WaitsOnce_example :
    WaitsOnce wrapped (register wrapped).0.0 (register wrapped).0.1 (register wrapped).1
register-WaitsOnce_example = register-WaitsOnce wrapped

register_persistent-WaitsAlways_example :
    WaitsAlways wrapped 7 (register_persistent 7 wrapped).0 (register_persistent 7 wrapped).1
register_persistent-WaitsAlways_example = register_persistent-WaitsAlways 7 wrapped

nth_itt_distinct_example :
    (nth_itt 1 wrapped < reserved_itt) × (nth_itt 1 wrapped ≢ nth_itt 3 wrapped)
nth_itt_distinct_example = nth_itt_distinct wrapped 1 3 (omega arith) (omega arith) (omega arith)

register_takes_over_example :
    (lookup wrapped.next_itt (register wrapped).1.pending
      ≡ some (record { ch = (register wrapped).0.1; persistent = false }))
    × ((register wrapped).0.1 ≢ old_entry.ch)
register_takes_over_example =
    register_takes_over wrapped old_entry (omega arith) (unfold lookup in refl) (omega arith)

-- A stand-in for CRC32C.
abbrev weigh : List ℕ → ℕ
weigh xs = length xs + 1

-- A BHS that announces a segment of three bytes.
abbrev framed_pdu : RawPdu
framed_pdu = record {
  bhs = 0x25 ∷ 0 ∷ 0 ∷ 0 ∷ 0 ∷ 0 ∷ 0 ∷ 3 ∷ zeros 40;
  ahs = [];
  data_segment = 9 ∷ 8 ∷ 7 ∷ [];
  header_digest = 49;
  data_digest = 5;
  has_h_digest = true;
  has_d_digest = true;
}

framed_pdu-IsFramed : IsFramed weigh true framed_pdu
framed_pdu-IsFramed = record {
  bhs_size = refl;
  ahs_size = refl;
  segment_size = refl;
  segment_fits = omega arith;
  header_digested = unfold header_digest_of in refl;
  data_digested = unfold data_digest_of in refl;
  data_expected = refl;
  header_word = omega arith;
  data_word = omega arith;
}

write_raw_pdu-wire_example :
    write_raw_pdu little_endian (replicate 60 0xff) framed_pdu ≡ wire little_endian framed_pdu
write_raw_pdu-wire_example =
    write_raw_pdu-wire little_endian (replicate 60 0xff) framed_pdu refl
      (unfold wire_size pad_len in refl)

read_raw_pdu-write_raw_pdu_example :
    read_raw_pdu weigh true true little_endian
      (write_raw_pdu little_endian (replicate 60 0xff) framed_pdu ++ 1 ∷ 2 ∷ [])
    ≡ ok framed_pdu (1 ∷ 2 ∷ [])
read_raw_pdu-write_raw_pdu_example =
    read_raw_pdu-write_raw_pdu weigh little_endian true (replicate 60 0xff) (1 ∷ 2 ∷ []) framed_pdu
      framed_pdu-IsFramed (unfold wire_size pad_len in refl)

read_raw_pdu-IsChecked_example : IsChecked weigh true true framed_pdu
read_raw_pdu-IsChecked_example =
    read_raw_pdu-IsChecked weigh true true little_endian
      (write_raw_pdu little_endian (replicate 60 0xff) framed_pdu ++ 1 ∷ 2 ∷ []) (1 ∷ 2 ∷ [])
      framed_pdu
      (read_raw_pdu-write_raw_pdu weigh little_endian true (replicate 60 0xff) (1 ∷ 2 ∷ [])
        framed_pdu framed_pdu-IsFramed (unfold wire_size pad_len in refl))
