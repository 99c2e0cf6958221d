-- ===== src/Login/Stages/Chap.antt =====
-- internal/login/login.go: the security stage and the whole of a login.
use uiscsi.Common.{ℕ, ◌≡◌, ap, ◌∙◌, subst, Bool, true, false, Option, List, [], ◌∷◌, if◌then◌else◌}
use uiscsi.Pdu.Target.Sessions.{LoginResp}
use uiscsi.Transport.Framer.{RawPdu}
use uiscsi.Common.Text.{codes}
use uiscsi.Login.TextCodec.{KeyValue, decode_text_kv}
use uiscsi.Login.Chap.{Answer, failed, given, ChapState, process_challenge}
use uiscsi.Login.Chap.Authentication.{
  IsAuthentic, IsChallenge, verify_mutual_response-IsAuthentic, process_challenge-IsChallenge,
}
use uiscsi.Login.Stages.{
  Exchange, first_keys, stage_security_negotiation, stage_operational_neg, answered, done,
  LoginState, send_checked, after_security, authenticated, verify_target, authenticate,
}
use uiscsi.Login.Stages.Results.{
  done_first, done-injective, send_checked-IsExchanged, IsAdvanced, exchanged-IsAdvanced,
  trans-IsAdvanced, after_security-IsAdvanced,
}

authenticated-given : {A : Type 0} (m : Answer A) (a : A) → authenticated m ≡ done a → m ≡ given a
authenticated-given (failed e) a h = absurd cc
authenticated-given (given x) a h = cc

then_part : {A : Type 0} (c : Bool) (a b : A) (d : A) → c ≡ true → (if c then a else b) ≡ d → a ≡ d
then_part true a b d is_true h = h
then_part false a b d is_true h = absurd cc

verify_target-IsAuthentic :
    (md5 : List ℕ → List ℕ) (base64 : List ℕ → Option (List ℕ)) (cs : ChapState) (resp : LoginResp)
    (u : Unit)
    → cs.is_mutual ≡ true
    → verify_target md5 base64 cs resp ≡ done u
    → IsAuthentic md5 base64 cs (decode_text_kv resp.payload)
unfolding verify_target
verify_target-IsAuthentic md5 base64 cs resp u two_way h =
    verify_mutual_response-IsAuthentic md5 base64 cs (decode_text_kv resp.payload)
      (authenticated-given _ u (then_part cs.is_mutual _ (done tt) (done u) two_way h))

-- The target answered the three requests of CHAP, and what it sent was right.
pub record IsChapLogin (md5 : List ℕ → List ℕ) (base64 : List ℕ → Option (List ℕ)) (cs : ChapState)
    (ls : LoginState) : Type 0 where
  pub proposal : RawPdu
  pub challenge : RawPdu
  pub verdict : RawPdu
  pub later : List Exchange
  pub exchanged : ls.exchanges ≡ answered proposal ∷ answered challenge ∷ answered verdict ∷ later
  pub challenged : IsChallenge md5 base64 (decode_text_kv challenge.data_segment)
  pub verified :
      cs.is_mutual ≡ true → IsAuthentic md5 base64 cs (decode_text_kv verdict.data_segment)

-- The three rounds of CHAP, for any MD5, base64 and order of the answer's keys.
module _ (md5 : List ℕ → List ℕ) (base64 : List ℕ → Option (List ℕ))
    (order : List KeyValue → List KeyValue) where
  pub authenticate-IsChapLogin :
      (cs : ChapState) (ls ls' : LoginState)
      → authenticate md5 base64 order cs ls ≡ done ls'
      → IsChapLogin md5 base64 cs ls × IsAdvanced 3 ls ls'
  unfolding authenticate
  authenticate-IsChapLogin cs ls ls' h =
      done_first
        (send_checked (first_keys ls.cfg (codes "CHAP")) false stage_security_negotiation
          stage_security_negotiation ls)
        _ ls' h
        (λ (first, ls1) h1 k1.
          done_first
            (send_checked (record { key = codes "CHAP_A"; value = codes "5" } ∷ []) false
              stage_security_negotiation stage_security_negotiation ls1)
            _ ls' k1
            (λ (second, ls2) h2 k2.
              done_first
                (authenticated (process_challenge md5 base64 cs (decode_text_kv second.payload))) _
                ls' k2
                (λ keys h3 k3.
                  done_first
                    (send_checked (order keys) true stage_security_negotiation stage_operational_neg
                      ls2)
                    _ ls' k3
                    (λ (last, ls3) h4 k4.
                      done_first (verify_target md5 base64 cs last) _ ls' k4 (λ u h5 k5.
                        let e1 = (send_checked-IsExchanged _ _ _ _ ls (first, ls1) h1).0 in
                        let e2 = (send_checked-IsExchanged _ _ _ _ ls1 (second, ls2) h2).0 in
                        let e3 = (send_checked-IsExchanged _ _ _ _ ls2 (last, ls3) h4).0 in
                        let rounds =
                          trans-IsAdvanced 2 1 ls ls2 ls3
                            (trans-IsAdvanced 1 1 ls ls1 ls2 (exchanged-IsAdvanced ls first ls1 e1)
                              (exchanged-IsAdvanced ls1 second ls2 e2))
                            (exchanged-IsAdvanced ls2 last ls3 e3) in
                        (
                          record {
                            proposal = e1.answer;
                            challenge = e2.answer;
                            verdict = e3.answer;
                            later = ls3.exchanges;
                            exchanged =
                                e1.next
                                ∙ ap (λ z. answered e1.answer ∷ z)
                                    (e2.next ∙ ap (λ z. answered e2.answer ∷ z) e3.next);
                            challenged =
                                subst (λ z. IsChallenge md5 base64 (decode_text_kv z.payload))
                                  e2.is_answer
                                  (process_challenge-IsChallenge md5 base64 cs _ keys
                                    (authenticated-given _ keys h3));
                            verified = λ two_way.
                                subst (λ z. IsAuthentic md5 base64 cs (decode_text_kv z.payload))
                                  e3.is_answer
                                  (verify_target-IsAuthentic md5 base64 cs last u two_way h5);
                          },
                          subst (IsAdvanced 3 ls) (done-injective k5) (
                              trans-IsAdvanced 3 0 ls ls3 (after_security last ls3) rounds
                                (after_security-IsAdvanced last ls3)),
                        ))))))
