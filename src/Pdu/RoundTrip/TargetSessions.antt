-- ===== src/Pdu/RoundTrip/TargetSessions.antt =====
-- internal/pdu/target.go: decoding what MarshalBHS wrote, for LoginResp, TextResp, LogoutResp.
use uiscsi.Common.{
  ℕ, ◌*◌, ◌/◌, ◌%◌, ◌^◌, ◌<◌, ◌≡◌, refl, Bool, true, ◌==◌, ==_iff, [], ◌∷◌, bit_and, bit_or, arith,
}
use uiscsi.Common.Bits.{
  with_flag, has_flag, each_below, each_below_lem, all_flags, all_flags_sound, same, same→eq,
  all_true, all_true_sound,
}
use uiscsi.Common.Bytes.{join16-put, join24-put, join32-put, firsts-all, firsts-append}
use uiscsi.Pdu.Header.{ok, ◌>>=◌}
use uiscsi.Pdu.Opcode.{op_login_resp, op_text_resp, op_logout_resp}
use uiscsi.Pdu.RoundTrip.Headers.{fits24, opcode_lem, immediate_lem, final_flag}
use uiscsi.Pdu.Target.Sessions.{
  LoginResp, IsValidLoginResp, marshal_login_resp, unmarshal_login_resp, sent_login_resp, TextResp,
  IsValidTextResp, marshal_text_resp, unmarshal_text_resp, sent_text_resp, LogoutResp,
  IsValidLogoutResp, marshal_logout_resp, unmarshal_logout_resp, sent_logout_resp,
}
use uiscsi.Pdu.Codec.{login_resp, text_resp, logout_resp, decode_bhs}

abbrev login_resp_flags : Bool → Bool → ℕ → ℕ → ℕ
login_resp_flags transit continue csg nsg =
    bit_or (bit_or (with_flag continue 0x40 (with_flag transit 0x80 0)) (bit_and csg 0x03 * 2 ^ 2))
      (bit_and nsg 0x03)

login_resp_flags_table :
    all_flags (λ transit. all_flags (λ continue. each_below 4 (λ csg. each_below 4 (λ nsg.
      all_true (
        same (has_flag (login_resp_flags transit continue csg nsg) 0x80) transit
        ∷ same (has_flag (login_resp_flags transit continue csg nsg) 0x40) continue
        ∷ (bit_and ((login_resp_flags transit continue csg nsg) / 2 ^ 2) 0x03 == csg)
        ∷ (bit_and (login_resp_flags transit continue csg nsg) 0x03 == nsg)
        ∷ [])))))
    ≡ true
unfolding all_flags each_below all_true
login_resp_flags_table = refl

login_resp_flags_lem :
    (transit : Bool) (continue : Bool) (csg : ℕ) (nsg : ℕ)
    → csg < 4
    → nsg < 4
    → (has_flag (login_resp_flags transit continue csg nsg) 0x80 ≡ transit)
      × (has_flag (login_resp_flags transit continue csg nsg) 0x40 ≡ continue)
      × (bit_and ((login_resp_flags transit continue csg nsg) / 2 ^ 2) 0x03 ≡ csg)
      × (bit_and (login_resp_flags transit continue csg nsg) 0x03 ≡ nsg)
login_resp_flags_lem transit continue csg nsg h_csg h_nsg =
    let all = all_true_sound _ (
      each_below_lem 4 _ nsg
        (each_below_lem 4 _ csg
          (all_flags_sound _ continue (all_flags_sound _ transit login_resp_flags_table)) h_csg)
        h_nsg) in
    (
      same→eq _ _ (all.0),
      same→eq _ _ (all.1.0),
      (==_iff _ _).0 (all.1.1.0),
      (==_iff _ _).0 (all.1.1.1.0),
    )

pub login_resp_round_trip :
    (p : LoginResp)
    → IsValidLoginResp p
    → (marshal_login_resp p >>= decode_bhs) ≡ ok (login_resp (sent_login_resp p))
unfolding marshal_login_resp unmarshal_login_resp decode_bhs
login_resp_round_trip p v =
    let fl = login_resp_flags_lem p.transit p.continue p.csg p.nsg v.of_csg v.of_nsg in
    rw (
      fits24 _ v.of_header.length_fits,
      opcode_lem op_login_resp p.header.immediate (omega arith),
      immediate_lem op_login_resp p.header.immediate (omega arith),
      fl.0,
      fl.1,
      fl.2,
      fl.3,
      join24-put _ v.of_header.length_fits,
      join32-put _ v.of_header.tag_word,
      firsts-all 6 _ v.of_isid,
      firsts-append 6 p.isid ((p.tsih / 2 ^ 8 % 256) ∷ (p.tsih % 256) ∷ []) v.of_isid,
      join16-put _ v.of_tsih,
      join32-put _ v.of_stat_sn,
      join32-put _ v.of_exp_cmd_sn,
      join32-put _ v.of_max_cmd_sn,
    )

abbrev text_resp_flags : Bool → Bool → ℕ
text_resp_flags final continue = with_flag continue 0x40 (with_flag final 0x80 0)

text_resp_flags_table :
    all_flags (λ final. all_flags (λ continue. all_true (
      same (has_flag (text_resp_flags final continue) 0x80) final
      ∷ same (has_flag (text_resp_flags final continue) 0x40) continue
      ∷ [])))
    ≡ true
unfolding all_flags each_below all_true
text_resp_flags_table = refl

text_resp_flags_lem :
    (final : Bool) (continue : Bool)
    → (has_flag (text_resp_flags final continue) 0x80 ≡ final)
      × (has_flag (text_resp_flags final continue) 0x40 ≡ continue)
text_resp_flags_lem final continue =
    let all =
      all_true_sound _
        (all_flags_sound _ continue (all_flags_sound _ final text_resp_flags_table)) in
    (same→eq _ _ (all.0), same→eq _ _ (all.1.0))

pub text_resp_round_trip :
    (p : TextResp)
    → IsValidTextResp p
    → (marshal_text_resp p >>= decode_bhs) ≡ ok (text_resp (sent_text_resp p))
unfolding marshal_text_resp unmarshal_text_resp decode_bhs
text_resp_round_trip p v =
    let fl = text_resp_flags_lem p.header.final p.continue in
    rw (
      fits24 _ v.of_header.length_fits,
      opcode_lem op_text_resp p.header.immediate (omega arith),
      immediate_lem op_text_resp p.header.immediate (omega arith),
      fl.0,
      fl.1,
      join24-put _ v.of_header.length_fits,
      firsts-all 8 _ v.of_header.lun_array,
      join32-put _ v.of_header.tag_word,
      join32-put _ v.of_target_transfer_tag,
      join32-put _ v.of_stat_sn,
      join32-put _ v.of_exp_cmd_sn,
      join32-put _ v.of_max_cmd_sn,
    )

pub logout_resp_round_trip :
    (p : LogoutResp)
    → IsValidLogoutResp p
    → (marshal_logout_resp p >>= decode_bhs) ≡ ok (logout_resp (sent_logout_resp p))
unfolding marshal_logout_resp unmarshal_logout_resp decode_bhs
logout_resp_round_trip p v = rw (
  fits24 _ v.of_header.length_fits,
  opcode_lem op_logout_resp p.header.immediate (omega arith),
  immediate_lem op_logout_resp p.header.immediate (omega arith),
  final_flag,
  join24-put _ v.of_header.length_fits,
  firsts-all 8 _ v.of_header.lun_array,
  join32-put _ v.of_header.tag_word,
  join32-put _ v.of_stat_sn,
  join32-put _ v.of_exp_cmd_sn,
  join32-put _ v.of_max_cmd_sn,
  join16-put _ v.of_time2_wait,
  join16-put _ v.of_time2_retain,
)
