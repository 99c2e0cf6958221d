-- ===== src/Pdu/Ahs/Tests.antt =====
-- internal/pdu/ahs.go: two segments, and bytes that end in the middle of one.
use uiscsi.Common.{◌≡◌, List, [], ◌∷◌, arith}
use uiscsi.Pdu.Ahs.{Ahs, ok, marshal_ahs, unmarshal_ahs}
use uiscsi.Pdu.Ahs.RoundTrip.{unmarshal_ahs-marshal_ahs}

-- An extended CDB and a bidirectional read length.
abbrev two_segments : List Ahs
two_segments =
    record { type = 1; bytes = 0 ∷ 9 ∷ 8 ∷ 7 ∷ 6 ∷ [] }
    ∷ record { type = 2; bytes = 0 ∷ 0 ∷ 0 ∷ 2 ∷ 0 ∷ [] }
    ∷ []

unmarshal_ahs-marshal_ahs_example : unmarshal_ahs (marshal_ahs two_segments) ≡ ok two_segments
unmarshal_ahs-marshal_ahs_example =
    unmarshal_ahs-marshal_ahs two_segments (omega arith, (omega arith, tt))
