-- ===== src/Login/Stages/Whole.antt =====
-- internal/login/login.go: run, from the first request to the parameters.
use uiscsi.Common.{
  some-injective, ℕ, ◌+◌, ◌%◌, ◌^◌, ◌≡◌, refl, ap, sym, ◌∙◌, subst, true, Option, some, none, List,
  ◌∷◌, ◌++◌, length,
}
use mathlib.Core.List.{map}
use uiscsi.Pdu.Target.Sessions.{LoginResp}
use uiscsi.Transport.Framer.{RawPdu}
use uiscsi.Common.Text.{codes}
use uiscsi.Login.Params.{NegotiatedParams}
use uiscsi.Login.TextCodec.{KeyValue}
use uiscsi.Login.Chap.{ChapState}
use uiscsi.Login.Stages.{
  answered, first_keys, stage_security_negotiation, stage_operational_neg, done, LoginState,
  response_of, send_checked, after_security, security_of, adopt_params, do_operational_negotiation,
  run, handed_off, stage_full_feature_phase,
}
use uiscsi.Login.Stages.Results.{
  done_first, done-injective, IsExchanged, send_checked-IsExchanged, IsAdvanced,
  exchanged-IsAdvanced, trans-IsAdvanced, after_security-IsAdvanced,
}
use uiscsi.Login.Operational.{build_initiator_keys, negotiated}
use uiscsi.Login.Stages.Chap.{IsChapLogin, authenticate-IsChapLogin}

-- The requests of the security stage.
abbrev security_rounds : Option ChapState → ℕ
security_rounds none = 1
security_rounds (some cs) = 3

-- The requests of both stages were answered, and the parameters come from the last answer.
pub record IsCompleted (chap : Option ChapState) (ls ls' : LoginState) : Type 0 where
  pub written : length ls'.sent ≡ length ls.sent + (security_rounds chap + 1)
  pub earlier : List RawPdu
  pub earlier_count : length earlier ≡ security_rounds chap
  pub answer : RawPdu
  pub exchanged : ls.exchanges ≡ map answered earlier ++ (answered answer ∷ ls'.exchanges)
  pub settled : NegotiatedParams
  pub from_answer : negotiated ls.cfg answer.data_segment ≡ some settled
  pub result : handed_off ls' ≡ record settled {
    tsih = (response_of answer).tsih;
    target_name = ls.cfg.target_name;
    cmd_sn = ls.cmd_sn;
    exp_stat_sn = ((response_of answer).stat_sn + 1) % 2 ^ 32;
    isid = ls.isid;
  }

adopt_params-IsCompleted :
    (chap : Option ChapState) (ls0 ls ls1 ls' : LoginState) (resp : LoginResp)
    (o : Option NegotiatedParams)
    → IsAdvanced (security_rounds chap) ls0 ls
    → IsExchanged ls resp ls1
    → negotiated ls1.cfg resp.payload ≡ o
    → adopt_params resp ls1 o ≡ done ls'
    → IsCompleted chap ls0 ls'
adopt_params-IsCompleted chap ls0 ls ls1 ls' resp none before e found h = absurd cc
adopt_params-IsCompleted chap ls0 ls ls1 ls' resp (some p) before e found h =
    let rounds =
      trans-IsAdvanced (security_rounds chap) 1 ls0 ls ls1 before
        (exchanged-IsAdvanced ls resp ls1 e) in
    let payload : resp.payload ≡ e.answer.data_segment = ap LoginResp.payload e.is_answer in
    let number : resp.stat_sn ≡ (response_of e.answer).stat_sn = ap LoginResp.stat_sn e.is_answer in
    let handle : resp.tsih ≡ (response_of e.answer).tsih = ap LoginResp.tsih e.is_answer in
    let same : negotiated ls1.cfg resp.payload ≡ negotiated ls0.cfg e.answer.data_segment =
      λ i. negotiated (rounds.same_cfg i) (payload i) in
    subst (IsCompleted chap ls0) (done-injective h) (record {
      written = rounds.written;
      earlier = before.answers;
      earlier_count = before.answer_count;
      answer = e.answer;
      exchanged = before.exchanged ∙ ap (λ z. map answered before.answers ++ z) e.next;
      settled = p;
      from_answer = sym same ∙ found;
      result = λ i. record p {
        tsih = handle i;
        target_name = (rounds.same_cfg i).target_name;
        cmd_sn = rounds.command_number i;
        exp_stat_sn = (e.status_number ∙ ap (λ z. (z + 1) % 2 ^ 32) number) i;
        isid = rounds.same_isid i;
      };
    })

operational-IsCompleted :
    (chap : Option ChapState) (ls0 ls ls' : LoginState)
    → IsAdvanced (security_rounds chap) ls0 ls
    → do_operational_negotiation ls ≡ done ls'
    → IsCompleted chap ls0 ls'
unfolding do_operational_negotiation
operational-IsCompleted chap ls0 ls ls' before h =
    done_first
      (send_checked (build_initiator_keys ls.cfg) true stage_operational_neg
        stage_full_feature_phase ls)
      _ ls' h
      (λ (resp, ls1) h1 k1.
        adopt_params-IsCompleted chap ls0 ls ls1 ls' resp _ before
          (send_checked-IsExchanged _ _ _ _ ls (resp, ls1) h1).0 refl k1)

module _ (md5 : List ℕ → List ℕ) (base64 : List ℕ → Option (List ℕ))
    (order : List KeyValue → List KeyValue) where
  security_of-IsAdvanced :
      (chap : Option ChapState) (ls ls' : LoginState)
      → security_of md5 base64 order chap ls ≡ done ls'
      → IsAdvanced (security_rounds chap) ls ls'
  unfolding security_of
  security_of-IsAdvanced (some cs) ls ls' h =
      (authenticate-IsChapLogin md5 base64 order cs ls ls' h).1
  security_of-IsAdvanced none ls ls' h =
      done_first
        (send_checked (first_keys ls.cfg (codes "None")) true stage_security_negotiation
          stage_operational_neg ls)
        _ ls' h
        (λ (resp, ls1) h1 k1. subst (IsAdvanced 1 ls) (done-injective k1) (
          trans-IsAdvanced 1 0 ls ls1 (after_security resp ls1)
            (exchanged-IsAdvanced ls resp ls1
              (send_checked-IsExchanged _ _ _ _ ls (resp, ls1) h1).0)
            (after_security-IsAdvanced resp ls1)))

  security_of-IsChapLogin :
      (o : Option ChapState) (cs : ChapState) (ls ls' : LoginState)
      → o ≡ some cs
      → security_of md5 base64 order o ls ≡ done ls'
      → IsChapLogin md5 base64 cs ls
  unfolding security_of
  security_of-IsChapLogin none cs ls ls' same h = absurd cc
  security_of-IsChapLogin (some c) cs ls ls' same h =
      subst (λ z. IsChapLogin md5 base64 z ls) (some-injective same)
        (authenticate-IsChapLogin md5 base64 order c ls ls' h).0

  -- When a login succeeds, whatever the target answered: two requests were written and answered, or
  -- four with CHAP, and the parameters that are handed off are those that the configuration and the
  -- data of the last answer settle, with that answer's TSIH and, as ExpStatSN, its StatSN and one
  -- more, and with the target name, the CmdSN and the ISID that the login began with.
  pub run-IsCompleted :
      (ls ls' : LoginState) → run md5 base64 order ls ≡ done ls' → IsCompleted ls.chap ls ls'
  unfolding run
  run-IsCompleted ls ls' h =
      done_first (security_of md5 base64 order ls.chap ls) _ ls' h (λ ls1 h1 k1.
        operational-IsCompleted ls.chap ls ls1 ls' (security_of-IsAdvanced ls.chap ls ls1 h1) k1)

  -- A login with CHAP that succeeds has had its second request answered with a challenge of 16 bytes
  -- at least that are not all zero, and when CHAP is mutual, its third request with a CHAP_R that is
  -- the MD5 of the initiator's identifier, the target's secret and the initiator's challenge.
  pub run-IsChapLogin :
      (cs : ChapState) (ls ls' : LoginState)
      → ls.chap ≡ some cs
      → run md5 base64 order ls ≡ done ls'
      → IsChapLogin md5 base64 cs ls
  unfolding run
  run-IsChapLogin cs ls ls' same h =
      done_first (security_of md5 base64 order ls.chap ls) _ ls' h
        (λ ls1 h1 k1. security_of-IsChapLogin ls.chap cs ls ls1 same h1)
