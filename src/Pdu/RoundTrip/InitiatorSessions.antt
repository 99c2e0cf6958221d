-- ===== src/Pdu/RoundTrip/InitiatorSessions.antt =====
-- internal/pdu/initiator.go: decoding what MarshalBHS wrote, for LoginReq, TextReq, LogoutReq.
use uiscsi.Common.{
  ℕ, ◌*◌, ◌/◌, ◌%◌, ◌^◌, ◌<◌, ◌≡◌, refl, Bool, true, ◌==◌, ==_iff, [], ◌∷◌, bit_and, bit_or, arith,
}
use uiscsi.Common.Bits.{
  with_flag, has_flag, each_below, each_below_lem, all_flags, all_flags_sound, same, same→eq,
  all_true, all_true_sound,
}
use uiscsi.Common.Bytes.{join16-put, join24-put, join32-put, firsts-all, firsts-append}
use uiscsi.Pdu.Header.{ok, ◌>>=◌}
use uiscsi.Pdu.Opcode.{op_login_req, op_text_req, op_logout_req}
use uiscsi.Pdu.RoundTrip.Headers.{fits24, opcode_lem, immediate_lem}
use uiscsi.Pdu.Initiator.Sessions.{
  LoginReq, IsValidLoginReq, marshal_login_req, unmarshal_login_req, sent_login_req, TextReq,
  IsValidTextReq, marshal_text_req, unmarshal_text_req, sent_text_req, LogoutReq, IsValidLogoutReq,
  marshal_logout_req, unmarshal_logout_req, sent_logout_req,
}
use uiscsi.Pdu.Codec.{login_req, text_req, logout_req, decode_bhs}

abbrev login_req_flags : Bool → Bool → ℕ → ℕ → ℕ
login_req_flags transit continue csg nsg =
    bit_or (bit_or (with_flag continue 0x40 (with_flag transit 0x80 0)) (bit_and csg 0x03 * 2 ^ 2))
      (bit_and nsg 0x03)

login_req_flags_table :
    all_flags (λ transit. all_flags (λ continue. each_below 4 (λ csg. each_below 4 (λ nsg.
      all_true (
        same (has_flag (login_req_flags transit continue csg nsg) 0x80) transit
        ∷ same (has_flag (login_req_flags transit continue csg nsg) 0x40) continue
        ∷ (bit_and ((login_req_flags transit continue csg nsg) / 2 ^ 2) 0x03 == csg)
        ∷ (bit_and (login_req_flags transit continue csg nsg) 0x03 == nsg)
        ∷ [])))))
    ≡ true
unfolding all_flags each_below all_true
login_req_flags_table = refl

login_req_flags_lem :
    (transit : Bool) (continue : Bool) (csg : ℕ) (nsg : ℕ)
    → csg < 4
    → nsg < 4
    → (has_flag (login_req_flags transit continue csg nsg) 0x80 ≡ transit)
      × (has_flag (login_req_flags transit continue csg nsg) 0x40 ≡ continue)
      × (bit_and ((login_req_flags transit continue csg nsg) / 2 ^ 2) 0x03 ≡ csg)
      × (bit_and (login_req_flags transit continue csg nsg) 0x03 ≡ nsg)
login_req_flags_lem transit continue csg nsg h_csg h_nsg =
    let all = all_true_sound _ (
      each_below_lem 4 _ nsg
        (each_below_lem 4 _ csg
          (all_flags_sound _ continue (all_flags_sound _ transit login_req_flags_table)) h_csg)
        h_nsg) in
    (
      same→eq _ _ (all.0),
      same→eq _ _ (all.1.0),
      (==_iff _ _).0 (all.1.1.0),
      (==_iff _ _).0 (all.1.1.1.0),
    )

pub login_req_round_trip :
    (p : LoginReq)
    → IsValidLoginReq p
    → (marshal_login_req p >>= decode_bhs) ≡ ok (login_req (sent_login_req p))
unfolding marshal_login_req unmarshal_login_req decode_bhs
login_req_round_trip p v =
    let fl = login_req_flags_lem p.transit p.continue p.csg p.nsg v.of_csg v.of_nsg in
    rw (
      fits24 _ v.of_header.length_fits,
      opcode_lem op_login_req p.header.immediate (omega arith),
      immediate_lem op_login_req p.header.immediate (omega arith),
      fl.0,
      fl.1,
      fl.2,
      fl.3,
      join24-put _ v.of_header.length_fits,
      join32-put _ v.of_header.tag_word,
      firsts-all 6 _ v.of_isid,
      firsts-append 6 p.isid ((p.tsih / 2 ^ 8 % 256) ∷ (p.tsih % 256) ∷ []) v.of_isid,
      join16-put _ v.of_tsih,
      join16-put _ v.of_cid,
      join32-put _ v.of_cmd_sn,
      join32-put _ v.of_exp_stat_sn,
    )

abbrev text_req_flags : Bool → Bool → ℕ
text_req_flags final continue = with_flag continue 0x40 (with_flag final 0x80 0)

text_req_flags_table :
    all_flags (λ final. all_flags (λ continue. all_true (
      same (has_flag (text_req_flags final continue) 0x80) final
      ∷ same (has_flag (text_req_flags final continue) 0x40) continue
      ∷ [])))
    ≡ true
unfolding all_flags each_below all_true
text_req_flags_table = refl

text_req_flags_lem :
    (final : Bool) (continue : Bool)
    → (has_flag (text_req_flags final continue) 0x80 ≡ final)
      × (has_flag (text_req_flags final continue) 0x40 ≡ continue)
text_req_flags_lem final continue =
    let all =
      all_true_sound _
        (all_flags_sound _ continue (all_flags_sound _ final text_req_flags_table)) in
    (same→eq _ _ (all.0), same→eq _ _ (all.1.0))

pub text_req_round_trip :
    (p : TextReq)
    → IsValidTextReq p
    → (marshal_text_req p >>= decode_bhs) ≡ ok (text_req (sent_text_req p))
unfolding marshal_text_req unmarshal_text_req decode_bhs
text_req_round_trip p v =
    let fl = text_req_flags_lem p.header.final p.continue in
    rw (
      fits24 _ v.of_header.length_fits,
      opcode_lem op_text_req p.header.immediate (omega arith),
      immediate_lem op_text_req p.header.immediate (omega arith),
      fl.0,
      fl.1,
      join24-put _ v.of_header.length_fits,
      firsts-all 8 _ v.of_header.lun_array,
      join32-put _ v.of_header.tag_word,
      join32-put _ v.of_target_transfer_tag,
      join32-put _ v.of_cmd_sn,
      join32-put _ v.of_exp_stat_sn,
    )

abbrev logout_req_flags : Bool → ℕ → ℕ
logout_req_flags final reason_code = bit_or (with_flag final 0x80 0) (bit_and reason_code 0x7f)

logout_req_flags_table :
    all_flags (λ final. each_below 128 (λ reason_code. all_true (
      same (has_flag (logout_req_flags final reason_code) 0x80) final
      ∷ (bit_and (logout_req_flags final reason_code) 0x7f == reason_code)
      ∷ [])))
    ≡ true
unfolding all_flags each_below all_true
logout_req_flags_table = refl

logout_req_flags_lem :
    (final : Bool) (reason_code : ℕ)
    → reason_code < 128
    → (has_flag (logout_req_flags final reason_code) 0x80 ≡ final)
      × (bit_and (logout_req_flags final reason_code) 0x7f ≡ reason_code)
logout_req_flags_lem final reason_code h_reason_code =
    let all = all_true_sound _ (
      each_below_lem 128 _ reason_code (all_flags_sound _ final logout_req_flags_table)
        h_reason_code) in
    (same→eq _ _ (all.0), (==_iff _ _).0 (all.1.0))

pub logout_req_round_trip :
    (p : LogoutReq)
    → IsValidLogoutReq p
    → (marshal_logout_req p >>= decode_bhs) ≡ ok (logout_req (sent_logout_req p))
unfolding marshal_logout_req unmarshal_logout_req decode_bhs
logout_req_round_trip p v =
    let fl = logout_req_flags_lem p.header.final p.reason_code v.of_reason_code in
    rw (
      fits24 _ v.of_header.length_fits,
      opcode_lem op_logout_req p.header.immediate (omega arith),
      immediate_lem op_logout_req p.header.immediate (omega arith),
      fl.0,
      fl.1,
      join24-put _ v.of_header.length_fits,
      firsts-all 8 _ v.of_header.lun_array,
      join32-put _ v.of_header.tag_word,
      join16-put _ v.of_cid,
      join32-put _ v.of_cmd_sn,
      join32-put _ v.of_exp_stat_sn,
    )
