-- ===== src/Jmap/Once/Answers.antt =====
-- A batch on its way takes answers in any order (jmaprequest.cpp): what is owed is kept.
use mailove.Common.{
  ℕ, suc, ◌-◌, Bool, true, false, ◌&&◌, ◌≡◌, subst, refl, sym, ap, ◌∙◌, Option, none, some, List,
  [], ◌∷◌, ◌==◌, if◌then◌else◌, arith,
}
use mailove.PublicSuffix.{PublicSuffixList}
use mailove.Jmap.{UrlPlatform}
use mailove.Jmap.Discovery.{NetworkReply, JmapSession, Signal, ready, failed, handle_reply}
use mailove.Jmap.Sending.{
  JmapRequest, Turn, and_then, nothing, run_handlers, take_signal, take_signals, renew,
  handle_response, judge_response, answer_post, answer_session,
}
use mailove.Jmap.Once.Phases.{
  Phase, first, renewing, second, over, steps_left, posts_left, owed, Stands, at_first, at_renewing,
  at_second, at_over, Fair, Fair-if, Moves, stay, from_fair, Moves-later,
}
use mailove.Jmap.Once.Turns.{judge_response-Fair, refresh-Heard, judge_reply-Heard}

-- A reply that arrives: to the request's POST, or to the session's own request.
pub data Answer (p : UrlPlatform) : Type 0 where
  to_request : NetworkReply p → Answer p
  to_session : NetworkReply p → Answer p

if_never {ℓ} : {A : Type ℓ} (b : Bool) (x y : A) → (if b && false then x else y) ≡ y
if_never true x y = refl
if_never false x y = refl

module _ {p : UrlPlatform} {C : Type 0} (psl : PublicSuffixList) (max_bytes : ℕ) where
  unfoldable pub take_answer : Answer p → JmapSession p → JmapRequest C → Turn p C
  unfolding answer_post answer_session
  take_answer (to_request reply) s r = answer_post reply r.in_flight s r
  take_answer (to_session reply) s r = answer_session psl max_bytes reply s r

  unfoldable pub run : List (Answer p) → JmapSession p → JmapRequest C → Turn p C
  unfolding take_answer and_then nothing
  run [] s r = nothing s r
  run (answer ∷ answers) s r = and_then (take_answer answer s r) (run answers)

  -- A reply to whatever is waited for
  unfoldable pub take_awaited :
      Option Bool → NetworkReply p → JmapSession p → JmapRequest C → Turn p C
  unfolding answer_post answer_session
  take_awaited none reply s r = answer_session psl max_bytes reply s r
  take_awaited (some b) reply s r = answer_post reply r.in_flight s r

  unfoldable pub run_awaited : List (NetworkReply p) → JmapSession p → JmapRequest C → Turn p C
  unfolding take_awaited and_then nothing
  run_awaited [] s r = nothing s r
  run_awaited (reply ∷ replies) s r =
      and_then (take_awaited r.in_flight reply s r) (run_awaited replies)

  -- A request that does not listen stands where it stood, whatever the session says.
  unheard :
      (done : C) (phase : Phase) (s t : JmapSession p) (r : JmapRequest C)
      → r.listening ≡ 0
      → Stands done s r phase
      → Stands done t (record r { listening = 0 }) phase
  unheard done _ s t r l (at_first e f g) = at_first e f refl
  unheard done _ s t r l (at_renewing e f g w) = absurd (omega (arith, l, g))
  unheard done _ s t r l (at_second e f g) = at_second e f refl
  unheard done _ s t r l (at_over e f g) = at_over e f refl

  quiet :
      (signals : List Signal) (t : JmapSession p) (r : JmapRequest C)
      → take_signals signals t (record r { listening = 0 }) ≡ nothing t (record r { listening = 0 })
  unfolding take_signals take_signal run_handlers and_then nothing
  quiet [] t r = refl
  quiet (ready ∷ signals) t r = quiet signals t r
  quiet (failed error ∷ signals) t r = quiet signals t r

  deaf :
      (done : C) (phase : Phase) (signals : List Signal) (s t : JmapSession p) (r : JmapRequest C)
      → r.listening ≡ 0
      → Stands done s r phase
      → Moves done phase (steps_left phase) (take_signals signals t r)
  deaf done phase signals s t r l h =
      let same : take_signals signals t r ≡ nothing t (record r { listening = 0 }) =
        ap (λ (n : ℕ). take_signals signals t (record r { listening = n })) l ∙ quiet signals t r in
      rw same (stay done phase t _ (unheard done phase s t r l h))

  deaf_reply :
      (done : C) (phase : Phase) (reply : NetworkReply p) (s : JmapSession p) (r : JmapRequest C)
      → r.listening ≡ 0
      → Stands done s r phase
      → Moves done phase (steps_left phase) (answer_session psl max_bytes reply s r)
  unfolding answer_session
  deaf_reply done phase reply s r =
      let (after, signals) = handle_reply p psl max_bytes reply s in
      deaf done phase signals s after r

  -- The reply to a POST that is waited for
  first_reply :
      (done : C) (reply : NetworkReply p) (s : JmapSession p) (r : JmapRequest C)
      → r.done ≡ some done
      → r.listening ≡ 0
      → Fair done 3 1 (answer_post reply (some false) s r)
  unfolding answer_post handle_response renew
  first_reply done reply s r e g =
      let r1 = record r { in_flight = none; listening = suc r.listening } in
      let asked = (refresh-Heard done r1 s e refl (omega (arith, g))).fair in
      let judged = judge_response-Fair 2 1 reply s (record r { in_flight = none }) e refl g in
      Fair-if (reply.status == 401 && true) _ _ asked judged

  second_reply :
      (done : C) (reply : NetworkReply p) (s : JmapSession p) (r : JmapRequest C)
      → r.done ≡ some done
      → r.listening ≡ 0
      → Fair done 1 0 (answer_post reply (some true) s r)
  unfolding answer_post handle_response
  second_reply done reply s r e g =
      let judged = judge_response-Fair 0 0 reply s (record r { in_flight = none }) e refl g in
      subst (Fair done 1 0)
        (sym (
          if_never (reply.status == 401) (renew s (record r { in_flight = none }))
            (judge_response reply s (record r { in_flight = none }))))
        judged

  session_reply :
      (done : C) (reply : NetworkReply p) (s : JmapSession p) (r : JmapRequest C)
      → r.done ≡ some done
      → r.in_flight ≡ none
      → r.listening ≡ 1
      → s.is_waiting ≡ true
      → Fair done 2 1 (answer_session psl max_bytes reply s r)
  unfolding answer_session handle_reply
  session_reply done reply s r e f g w =
      rw w
        (judge_reply-Heard done r psl max_bytes reply (record s { is_waiting = false }) e f g).fair

  at_reply :
      {done : C} {phase : Phase} {steps : ℕ} (o : Option Bool) (reply : NetworkReply p)
      (s : JmapSession p) (r : JmapRequest C)
      → r.in_flight ≡ o
      → Moves done phase steps (answer_post reply o s r)
      → Moves done phase steps (answer_post reply r.in_flight s r)
  at_reply {done} {phase} {steps} o reply s r f =
      subst (λ (i : Option Bool). Moves done phase steps (answer_post reply i s r)) (sym f)

  -- One that is waited for takes the request a step on.
  pub awaited_Moves :
      (done : C) (phase : Phase) (reply : NetworkReply p) (s : JmapSession p) (r : JmapRequest C)
      → Stands done s r phase
      → Moves done phase (steps_left phase - 1) (take_awaited r.in_flight reply s r)
  unfolding take_awaited answer_session owed steps_left posts_left
  awaited_Moves done phase reply s r h = go r.in_flight refl phase h
    where
      go :
          (o : Option Bool)
          → r.in_flight ≡ o
          → (phase : Phase) → Stands done s r phase
          → Moves done phase (steps_left phase - 1) (take_awaited o reply s r)
      go none f _ (at_first e g l) = ground arith
      go none f _ (at_renewing e g l w) =
          from_fair done renewing 1 _ refl (session_reply done reply s r e g l w)
      go none f _ (at_second e g l) = ground arith
      go none f _ (at_over e g l) = deaf_reply done over reply s r l (at_over e g l)
      go (some b) f _ (at_first e g l) =
          at_reply _ reply s r g (from_fair done first 2 _ refl (first_reply done reply s r e l))
      go (some b) f _ (at_renewing e g l w) = ground arith
      go (some b) f _ (at_second e g l) =
          at_reply _ reply s r g (from_fair done second 0 _ refl (second_reply done reply s r e l))
      go (some b) f _ (at_over e g l) = ground arith

  -- Any reply keeps what is owed.
  pub answer_Moves :
      (done : C) (phase : Phase) (answer : Answer p) (s : JmapSession p) (r : JmapRequest C)
      → Stands done s r phase
      → Moves done phase (steps_left phase) (take_answer answer s r)
  unfolding take_answer take_awaited answer_session answer_post owed steps_left posts_left
  answer_Moves done _ (to_request reply) s r (at_first e f g) =
      at_reply _ reply s r f (
        Moves-later 3 (from_fair done first 2 _ refl (first_reply done reply s r e g))
          (omega arith))
  answer_Moves done _ (to_request reply) s r (at_renewing e f g w) =
      at_reply none reply s r f (stay done renewing s r (at_renewing e f g w))
  answer_Moves done _ (to_request reply) s r (at_second e f g) = at_reply _ reply s r f (
      Moves-later 1 (from_fair done second 0 _ refl (second_reply done reply s r e g))
        (omega arith))
  answer_Moves done _ (to_request reply) s r (at_over e f g) =
      at_reply none reply s r f (stay done over s r (at_over e f g))
  answer_Moves done _ (to_session reply) s r (at_first e f g) =
      deaf_reply done first reply s r g (at_first e f g)
  answer_Moves done _ (to_session reply) s r (at_renewing e f g w) =
      Moves-later 2 (from_fair done renewing 1 _ refl (session_reply done reply s r e f g w))
        (omega arith)
  answer_Moves done _ (to_session reply) s r (at_second e f g) =
      deaf_reply done second reply s r g (at_second e f g)
  answer_Moves done _ (to_session reply) s r (at_over e f g) =
      deaf_reply done over reply s r g (at_over e f g)
