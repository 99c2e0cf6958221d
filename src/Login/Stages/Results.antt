-- ===== src/Login/Stages/Results.antt =====
-- internal/login/login.go: what a successful login has established.
use uiscsi.Common.{
  ℕ, ◌+◌, ◌%◌, ◌^◌, ◌≡◌, refl, ap, ◌∙◌, subst, inl, inr, Bool, List, [], ◌∷◌, ◌++◌, length,
  length-append, append_assoc, ◌==◌, ◌&&◌, Bool-cases, arith,
}
use mathlib.Core.List.{map, map-append}
use uiscsi.Pdu.Header.{Result, ok, err}
use uiscsi.Pdu.Target.Sessions.{LoginResp}
use uiscsi.Transport.Framer.{RawPdu}
use uiscsi.Login.TextCodec.{KeyValue}
use uiscsi.Login.Stages.{
  Exchange, LoginFailure, not_sent, not_read, answered, Progress, refused, done, ◌>>=◌, LoginState,
  response_of, exchange, send_encoded, send_login, send_checked, after_security,
  stage_full_feature_phase,
}

-- The first of two steps gives its value to the second.
pub done_first :
    {A : Type 0} {B : Type 0} {C : Type 0} (m : Progress A) (f : A → Progress B) (b : B)
    → (m >>= f) ≡ done b
    → ((a : A) → m ≡ done a → f a ≡ done b → C)
    → C
done_first (refused e) f b h next = absurd cc
done_first (done a) f b h next = next a refl h

pub done-injective : {A : Type 0} {a b : A} → done a ≡ done b → a ≡ b
done-injective h = cc

refused-done : {A : Type 0} (e : LoginFailure) (a : A) → ¬ (refused e ≡ done a)
refused-done e a h = cc

-- One request was written and answered with success.
pub record IsExchanged (ls : LoginState) (resp : LoginResp) (ls' : LoginState) : Type 0 where
  pub answer : RawPdu
  pub request : RawPdu
  pub next : ls.exchanges ≡ answered answer ∷ ls'.exchanges
  pub is_answer : resp ≡ response_of answer
  pub written : ls'.sent ≡ ls.sent ++ (request ∷ [])
  pub status_number : ls'.exp_stat_sn ≡ (resp.stat_sn + 1) % 2 ^ 32
  pub command_number : ls'.cmd_sn ≡ ls.cmd_sn
  pub same_cfg : ls'.cfg ≡ ls.cfg
  pub same_isid : ls'.isid ≡ ls.isid

exchange-IsExchanged :
    (ls : LoginState) (raw : RawPdu) (es : List Exchange) (resp : LoginResp) (ls' : LoginState)
    → ls.exchanges ≡ es
    → exchange ls raw es ≡ done (resp, ls')
    → IsExchanged ls resp ls'
exchange-IsExchanged ls raw [] resp ls' same h = absurd cc
exchange-IsExchanged ls raw (not_sent ∷ later) resp ls' same h = absurd cc
exchange-IsExchanged ls raw (not_read ∷ later) resp ls' same h = absurd cc
exchange-IsExchanged ls raw (answered answer ∷ later) resp ls' same h =
    let after : LoginState = record ls {
      exchanges = later;
      sent = ls.sent ++ raw ∷ [];
      exp_stat_sn = ((response_of answer).stat_sn + 1) % 2 ^ 32;
    } in
    let built : IsExchanged ls (response_of answer) after = record {
      answer = answer;
      request = raw;
      next = same;
      is_answer = refl;
      written = refl;
      status_number = refl;
      command_number = refl;
      same_cfg = refl;
      same_isid = refl;
    } in
    subst (λ z. IsExchanged ls z.0 z.1) (done-injective h) built

send_encoded-IsExchanged :
    (ls : LoginState) (r : Result (List ℕ)) (resp : LoginResp) (ls' : LoginState)
    → send_encoded ls r ≡ done (resp, ls')
    → IsExchanged ls resp ls'
send_encoded-IsExchanged ls (err e) resp ls' h = absurd cc
send_encoded-IsExchanged ls (ok bytes) resp ls' h =
    exchange-IsExchanged ls _ ls.exchanges resp ls' refl h

pub send_checked-IsExchanged :
    (keys : List KeyValue) (transit : Bool) (csg nsg : ℕ) (ls : LoginState)
    (a : LoginResp × LoginState)
    → send_checked keys transit csg nsg ls ≡ done a
    → IsExchanged ls a.0 a.1 × (a.0.status_class ≡ 0)
unfolding send_checked send_login
send_checked-IsExchanged keys transit csg nsg ls a h =
    done_first (send_login keys transit csg nsg ls) _ a h (λ (resp, ls1) first second.
      elim (Bool-cases (resp.status_class == 0)) [
        | inl success ↦
            let same : (resp, ls1) ≡ a = done-injective (rw success at second) in
            let zero_class : resp.status_class ≡ 0 = ground arith in
            subst (λ z. IsExchanged ls z.0 z.1 × (z.0.status_class ≡ 0)) same
              (send_encoded-IsExchanged ls _ resp ls1 first, zero_class)
        | inr failure ↦ absurd (refused-done _ a (rw failure at second))
      ])

-- `rounds` requests were written and answered, with the CmdSN as it was.
pub record IsAdvanced (rounds : ℕ) (ls ls' : LoginState) : Type 0 where
  pub command_number : ls'.cmd_sn ≡ ls.cmd_sn
  pub written : length ls'.sent ≡ length ls.sent + rounds
  pub answers : List RawPdu
  pub answer_count : length answers ≡ rounds
  pub exchanged : ls.exchanges ≡ map answered answers ++ ls'.exchanges
  pub same_cfg : ls'.cfg ≡ ls.cfg
  pub same_isid : ls'.isid ≡ ls.isid

pub exchanged-IsAdvanced :
    (ls : LoginState) (resp : LoginResp) (ls' : LoginState)
    → IsExchanged ls resp ls'
    → IsAdvanced 1 ls ls'
exchanged-IsAdvanced ls resp ls' e = record {
  command_number = e.command_number;
  written = ap length e.written ∙ length-append ls.sent (e.request ∷ []);
  answers = e.answer ∷ [];
  answer_count = refl;
  exchanged = e.next;
  same_cfg = e.same_cfg;
  same_isid = e.same_isid;
}

pub trans-IsAdvanced :
    (m n : ℕ) (ls ls1 ls2 : LoginState)
    → IsAdvanced m ls ls1
    → IsAdvanced n ls1 ls2
    → IsAdvanced (m + n) ls ls2
trans-IsAdvanced m n ls ls1 ls2 a b = record {
  command_number = b.command_number ∙ a.command_number;
  written = omega (arith, a.written, b.written);
  answers = a.answers ++ b.answers;
  answer_count = omega (arith, length-append a.answers b.answers, a.answer_count, b.answer_count);
  exchanged =
      a.exchanged
      ∙ ap (λ z. map answered a.answers ++ z) b.exchanged
      ∙ simp (map-append, append_assoc);
  same_cfg = b.same_cfg ∙ a.same_cfg;
  same_isid = b.same_isid ∙ a.same_isid;
}

pub after_security-IsAdvanced :
    (resp : LoginResp) (ls : LoginState) → IsAdvanced 0 ls (after_security resp ls)
after_security-IsAdvanced resp ls =
    elim (Bool-cases (resp.transit && resp.nsg == stage_full_feature_phase)) [
      | inl skips ↦ rw skips (record {
        command_number = refl;
        written = omega arith;
        answers = [];
        answer_count = refl;
        exchanged = refl;
        same_cfg = refl;
        same_isid = refl;
      })
      | inr goes_on ↦ rw goes_on (record {
        command_number = refl;
        written = omega arith;
        answers = [];
        answer_count = refl;
        exchanged = refl;
        same_cfg = refl;
        same_isid = refl;
      })
    ]
