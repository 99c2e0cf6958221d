-- ===== src/Session/Submit/CommandPdu.antt =====
-- internal/session/session.go: the PDU that an accepted command sends, and the CmdSN of a command
-- that is refused.
use uiscsi.Common.{
  some-injective, ℕ, ◌^◌, ◌<◌, ◌≡◌, refl, sym, ap, ◌∙◌, subst, Bool, true, false, ◌&&◌, ◌||◌, not,
  Option, some, none, List, [], ◌∷◌, ◌++◌, append_assoc, ltb, if◌then◌else◌, inl, inr, length, take,
  length-take_fits, ◌==◌, min, Bool-cases, Option-cases, arith,
}
use uiscsi.Common.Integers.{ℤ}
use uiscsi.Common.Maps.{put_key}
use uiscsi.Pdu.Header.{Result, ok, err, encode_sam_lun, >>=-eq-ok, ok-injective}
use uiscsi.Pdu.Initiator.Commands.{IsValidScsiCommand, marshal_scsi_command, sent_scsi_command}
use uiscsi.Pdu.Codec.{scsi_command, decode_bhs}
use uiscsi.Pdu.RoundTrip.InitiatorCommands.{scsi_command_round_trip}
use uiscsi.Transport.Framer.{RawPdu}
use uiscsi.Transport.Router.{allocate_itt, register_persistent}
use uiscsi.Transport.Router.Tags.{IsRouter}
use uiscsi.Login.Params.{NegotiatedParams}
use uiscsi.Session.DataOut.{raw_of, BurstError, send_unsolicited_data_out}
use uiscsi.Session.Command.{Command, Reader, command_of, build_scsi_command_pdu, read_immediate}
use uiscsi.Session.State.{Session, SessionTask, limits_of, enqueue}
use uiscsi.Session.Submit.{
  Submitted, accepted, start_task, with_immediate, send_command, send_unsolicited,
  after_unsolicited, immediate_of, is_some, rest_of, with_rest, as_write, submitted_task,
}

-- The fields are within the width of their Go types.
pub record IsValidCommand (cmd : Command) : Type 0 where
  pub of_cdb : length cmd.cdb ≡ 16
  pub of_attributes : cmd.task_attributes < 8
  pub of_length : cmd.expected_data_transfer_len < 2 ^ 32

-- What Submit takes from the reader for the command's PDU.
abbrev pub immediate_part : Session → Option Reader → List ℕ
immediate_part s none = []
immediate_part s (some r) =
    if s.params.immediate_data
    then take (min s.params.first_burst_length s.params.max_recv_data_segment_length) r.rest
    else []

-- The next PDU in the write channel is the stamped PDU of this command.
pub record IsSent (stamp : RawPdu → RawPdu) (cmd : Command) (itt cmd_sn : ℕ) (s s' : Session)
    : Type 0 where
  pub raw : RawPdu
  pub others : List RawPdu
  pub lun : List ℕ
  pub queued : s'.write_ch ≡ s.write_ch ++ (stamp raw ∷ others)
  pub address : encode_sam_lun cmd.lun ≡ some lun
  pub decoded :
      decode_bhs raw.bhs
      ≡ ok (
          scsi_command (
            sent_scsi_command (
              command_of
                (record cmd { write = is_some cmd.source || cmd.write })
                itt
                cmd_sn
                s.exp_stat_sn
                (immediate_part s cmd.source)
                lun)))
  pub segment : raw.data_segment ≡ immediate_part s cmd.source

abbrev pub Sends : (RawPdu → RawPdu) → Command → ℕ → ℕ → Session → Submitted × Session → Type 0
Sends stamp cmd itt cmd_sn s (accepted k, s') = IsSent stamp cmd itt cmd_sn s s'
Sends stamp cmd itt cmd_sn s (refusal, s') = Unit

none-some : {A : Type 0} (a : A) → ¬ (none ≡ some a)
none-some a h = cc

encode_sam_lun_array : (lun : ℕ) (a : List ℕ) → encode_sam_lun lun ≡ some a → length a ≡ 8
unfolding encode_sam_lun
encode_sam_lun_array lun a h = elim (Bool-cases (ltb 0xffff lun)) [
  | inl big ↦ absurd (none-some a (rw big at h))
  | inr small ↦ subst (λ z. length z ≡ 8) (some-injective (rw small at h)) refl
]

-- What `immediate_of` hands on of a reader.
immediate_taken :
    (p : NegotiatedParams) (takes : Bool) (r : Reader) (imm : List ℕ) (reader : Option Reader)
    → p.first_burst_length < 2 ^ 24
    → immediate_of takes p (some r) ≡ some (imm, reader)
    → (imm ≡ (
        if takes
        then take (min p.first_burst_length p.max_recv_data_segment_length) r.rest
        else []))
      × (length imm < 2 ^ 24)
unfolding read_immediate
immediate_taken p false r imm reader small h =
    let same : [] ≡ imm = ap (λ z. z.0) (some-injective h) in
    (sym same, subst (λ z. length z < 2 ^ 24) same (omega arith))
immediate_taken p true r imm reader small h =
    let n = min p.first_burst_length p.max_recv_data_segment_length in
    elim (Bool-cases (ltb 0 n && length r.rest == 0)) [
      | inl at_end ↦
          absurd (none-some (imm, reader) (rw (immediate_of, read_immediate, at_end) at h))
      | inr not_end ↦
          let same : take n r.rest ≡ imm =
            ap (λ z. z.0) (some-injective (rw (immediate_of, read_immediate, not_end) at h)) in
          (sym same, subst (λ z. length z < 2 ^ 24) same (omega (arith, length-take_fits n r.rest)))
    ]

immediate_of-part :
    (s : Session) (source : Option Reader) (imm : List ℕ) (reader : Option Reader)
    → s.params.first_burst_length < 2 ^ 24
    → immediate_of (is_some source && s.params.immediate_data) s.params source ≡ some (imm, reader)
    → (imm ≡ immediate_part s source) × (length imm < 2 ^ 24)
immediate_of-part s none imm reader small h =
    let same : [] ≡ imm = ap (λ z. z.0) (some-injective h) in
    (sym same, subst (λ z. length z < 2 ^ 24) same (omega arith))
immediate_of-part s (some r) imm reader small h =
    immediate_taken s.params s.params.immediate_data r imm reader small h

module _ (stamp : RawPdu → RawPdu) (exp_stat_sn : ℕ → ℕ) (cmd : Command) (itt cmd_sn : ℕ)
    (s : Session) where
  -- The raw PDU is that of the command with this immediate data.
  abbrev IsBuilt : List ℕ → RawPdu → Type 0
  IsBuilt imm raw =
      (lun : List ℕ) × (encode_sam_lun cmd.lun ≡ some lun)
      × (decode_bhs raw.bhs
          ≡ ok (
              scsi_command (
                sent_scsi_command (
                  command_of (record cmd { write = is_some cmd.source || cmd.write }) itt cmd_sn
                    s.exp_stat_sn imm lun))))
      × (raw.data_segment ≡ imm)

  -- Once the command's PDU is in the channel, more PDUs behind it change nothing.
  more-Sends :
      (failure : Option BurstError) (s1 s2 : Session) (pdus : List RawPdu)
      → IsSent stamp cmd itt cmd_sn s s1
      → s2.write_ch ≡ s1.write_ch ++ pdus
      → Sends stamp cmd itt cmd_sn s (after_unsolicited failure itt s2)
  more-Sends (some e) s1 s2 pdus sent same = tt
  more-Sends none s1 s2 pdus sent same = record {
    raw = sent.raw;
    others = sent.others ++ pdus;
    lun = sent.lun;
    queued = same ∙ ap (λ z. z ++ pdus) sent.queued ∙ append_assoc s.write_ch _ pdus;
    address = sent.address;
    decoded = sent.decoded;
    segment = sent.segment;
  }

  send_unsolicited-Sends :
      (tk : SessionTask) (s1 : Session)
      → IsSent stamp cmd itt cmd_sn s s1
      → Sends stamp cmd itt cmd_sn s (send_unsolicited stamp exp_stat_sn itt tk s1)
  send_unsolicited-Sends tk s1 sent =
      let (b, t) =
        send_unsolicited_data_out exp_stat_sn stamp (limits_of s1.params)
          (record { itt = itt; bytes_sent = tk.bytes_sent; reader = rest_of tk.reader }) in
      let tk' : SessionTask = record tk {
        reader = with_rest t.reader tk.reader;
        bytes_sent = t.bytes_sent;
      } in
      more-Sends b.failure s1 (enqueue b.pdus (record s1 { tasks = put_key itt tk' s1.tasks }))
        b.pdus sent refl

  send_command-Sends :
      (takes : Bool) (tk : SessionTask) (o : Option (Result RawPdu)) (s1 : Session)
      → s1.write_ch ≡ s.write_ch
      → ((raw : RawPdu) → o ≡ some (ok raw) → IsBuilt (immediate_part s cmd.source) raw)
      → Sends stamp cmd itt cmd_sn s (send_command stamp exp_stat_sn takes itt tk o s1)
  send_command-Sends takes tk none s1 same built = tt
  send_command-Sends takes tk (some (err e)) s1 same built = tt
  send_command-Sends false tk (some (ok raw)) s1 same built = tt
  send_command-Sends true tk (some (ok raw)) s1 same built =
      let (lun, address, decoded, segment) = built raw refl in
      let sent : IsSent stamp cmd itt cmd_sn s (enqueue (stamp raw ∷ []) s1) = record {
        raw = raw;
        others = [];
        lun = lun;
        queued = ap (λ z. z ++ (stamp raw ∷ [])) same;
        address = address;
        decoded = decoded;
        segment = segment;
      } in
      elim (Bool-cases (is_some tk.reader && not s1.params.initial_r2t)) [
        | inl more ↦ rw more (send_unsolicited-Sends tk (enqueue (stamp raw ∷ []) s1) sent)
        | inr no_more ↦ rw no_more sent
      ]

  build-Sends :
      (imm : List ℕ)
      → IsValidCommand cmd
      → itt < 2 ^ 32
      → cmd_sn < 2 ^ 32
      → s.exp_stat_sn < 2 ^ 32
      → length imm < 2 ^ 24
      → (raw : RawPdu)
      → build_scsi_command_pdu (as_write cmd) itt cmd_sn s.exp_stat_sn imm ≡ some (ok raw)
      → IsBuilt imm raw
  unfolding build_scsi_command_pdu
  build-Sends imm v tag number stat fits raw h = elim (Option-cases (encode_sam_lun cmd.lun)) [
    | inl no_lun ↦ absurd (none-some (ok raw) (rw (build_scsi_command_pdu, no_lun) at h))
    | inr (lun, address) ↦
        let p = command_of (as_write cmd) itt cmd_sn s.exp_stat_sn imm lun in
        let valid : IsValidScsiCommand p = record {
          of_header = record {
            ahs_byte = omega arith;
            length_fits = fits;
            lun_array = encode_sam_lun_array cmd.lun lun address;
            tag_word = tag;
          };
          of_attr = v.of_attributes;
          of_expected_data_transfer_length = v.of_length;
          of_cmd_sn = number;
          of_exp_stat_sn = stat;
          of_cdb = v.of_cdb;
        } in
        let (bhs, written, decoded) =
          >>=-eq-ok (marshal_scsi_command p) decode_bhs (scsi_command_round_trip p valid) in
        let is_raw : raw_of bhs imm ≡ raw =
          ok-injective (some-injective (rw (build_scsi_command_pdu, address, written) at h)) in
        (
          lun,
          address,
          subst (λ z. decode_bhs z.bhs ≡ ok (scsi_command (sent_scsi_command p))) is_raw decoded,
          sym (ap RawPdu.data_segment is_raw),
        )
  ]

  with_immediate-Sends :
      (takes : Bool) (tk : SessionTask) (o : Option (List ℕ × Option Reader)) (s1 : Session)
      → s1.write_ch ≡ s.write_ch
      → s1.exp_stat_sn ≡ s.exp_stat_sn
      → tk.cmd ≡ as_write cmd
      → tk.cmd_sn ≡ cmd_sn
      → IsValidCommand cmd
      → itt < 2 ^ 32
      → cmd_sn < 2 ^ 32
      → s.exp_stat_sn < 2 ^ 32
      → ((imm : List ℕ) (reader : Option Reader)
          → o ≡ some (imm, reader)
          → (imm ≡ immediate_part s cmd.source) × (length imm < 2 ^ 24))
      → Sends stamp cmd itt cmd_sn s (with_immediate stamp exp_stat_sn takes itt tk o s1)
  with_immediate-Sends takes tk none s1 same same_stat same_cmd same_sn v tag number stat part = tt
  with_immediate-Sends takes tk (some (imm, reader)) s1 same same_stat same_cmd same_sn v tag number
        stat part =
      let (is_part, fits) = part imm reader refl in
      let sent = if is_some tk.reader && s1.params.immediate_data then length imm else 0 in
      let tk' : SessionTask = record tk { reader = reader; bytes_sent = sent } in
      send_command-Sends takes tk' (build_scsi_command_pdu tk.cmd itt tk.cmd_sn s1.exp_stat_sn imm)
        (record s1 { tasks = put_key itt tk' s1.tasks }) same
        (λ raw built.
          subst (λ z. IsBuilt z raw) is_part
            (build-Sends imm v tag number stat fits raw
              (rw (same_cmd, same_sn, same_stat) at built)))

-- What Submit and SubmitStreaming do once `acquire` has given them a CmdSN: when the command is
-- accepted, the next PDU in the write channel is its SCSI Command PDU, which decodes to the
-- command's CDB, LUN, length and attributes with the tag, this CmdSN and the session's ExpStatSN,
-- the W bit set when there is data, and it carries the immediate data that the parameters allow. The
-- command's fields and the numbers are in the range of their types, and FirstBurstLength is below
-- 2 ^ 24.
pub start_task-Sends :
    (stamp : RawPdu → RawPdu) (exp_stat_sn : ℕ → ℕ) (depth : ℤ) (takes : Bool) (cmd : Command)
    (cmd_sn : ℕ) (s : Session)
    → IsValidCommand cmd
    → IsRouter s.router
    → cmd_sn < 2 ^ 32
    → s.exp_stat_sn < 2 ^ 32
    → s.params.first_burst_length < 2 ^ 24
    → Sends stamp cmd
        (allocate_itt s.router).0
        cmd_sn
        s
        (start_task stamp exp_stat_sn depth takes cmd cmd_sn s)
unfolding start_task allocate_itt
start_task-Sends stamp exp_stat_sn depth takes cmd cmd_sn s v router number stat small =
    let itt = (allocate_itt s.router).0 in
    let tag : itt < 2 ^ 32 = ground arith in
    let tk = submitted_task depth cmd itt cmd_sn s in
    with_immediate-Sends stamp exp_stat_sn cmd itt cmd_sn s takes tk
      (immediate_of (is_some cmd.source && s.params.immediate_data) s.params cmd.source)
      (record s {
        router = (register_persistent itt (allocate_itt s.router).1).1;
        tasks = put_key itt tk s.tasks;
      })
      refl refl refl refl v tag number stat
      (λ imm reader h. immediate_of-part s cmd.source imm reader small h)
