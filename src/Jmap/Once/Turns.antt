-- ===== src/Jmap/Once/Turns.antt =====
-- What a single answer does to a batch that is on its way: its callback is called or still owed.
use mailove.Common.{
  ℕ, suc, Bool, true, false, ◌≡◌, refl, none, some, List, [], ◌∷◌, if◌then◌else◌, arith,
}
use mailove.PublicSuffix.{PublicSuffixList}
use mailove.Jmap.{Error, protocol, UrlPlatform}
use mailove.Jmap.Discovery.{
  NetworkReply, JmapSession, Signal, ready, failed, discover, refresh, take_ingested, judge_reply,
}
use mailove.Jmap.Session.{Ingested, accepted, refused}
use mailove.Jmap.Ingest.{ingest_json}
use mailove.Jmap.Request.{Response, Message, Parsed, parsed, unreadable, parse_response}
use mailove.Jmap.Once.Phases.{
  renewing, second, over, steps_left, posts_left, owed, callbacks, posts, at_renewing, at_second,
  at_over, Fair, Fair-if,
}
use mailove.Jmap.Sending.{
  JmapRequest, call_back, finish, post, and_then, nothing, run_handlers, take_signal, take_signals,
  finish_parsed, judge_response,
}

module _ {p : UrlPlatform} {C : Type 0} where
  -- finish, when nothing else is waited for
  pub finish-Fair :
      {done : C} (steps allowed : ℕ) (error : Error) (responses : List Response) (message : Message)
      (s : JmapSession p) (r : JmapRequest C)
      → r.done ≡ some done
      → r.in_flight ≡ none
      → r.listening ≡ 0
      → Fair done (suc steps) allowed (finish error responses message s r)
  unfolding finish call_back callbacks posts owed steps_left posts_left
  finish-Fair {done} steps allowed error responses message s r e f g = record {
    phase = over;
    stands = at_over refl f g;
    told = rw e refl;
    fewer = omega arith;
    spared = rw e (omega arith);
  }

  pub judge_response-Fair :
      {done : C} (steps allowed : ℕ) (reply : NetworkReply p) (s : JmapSession p)
      (r : JmapRequest C)
      → r.done ≡ some done
      → r.in_flight ≡ none
      → r.listening ≡ 0
      → Fair done (suc steps) allowed (judge_response reply s r)
  unfolding judge_response finish_parsed
  judge_response-Fair {done} steps allowed reply s r e f g =
      let last = finish_parsed_Fair (parse_response (p.parse_json reply.body)) in
      search (finish-Fair, Fair-if) depth 9
    where
      finish_parsed_Fair : (q : Parsed) → Fair done (suc steps) allowed (finish_parsed q s r)
      finish_parsed_Fair (parsed responses state) = finish-Fair steps allowed _ _ _ s r e f g
      finish_parsed_Fair (unreadable message) = finish-Fair steps allowed _ _ _ s r e f g

  -- The session's signals reach a request that listens.
  failed-Fair :
      {done : C} (steps allowed : ℕ) (error : Error) (s : JmapSession p) (r : JmapRequest C)
      → r.done ≡ some done
      → r.in_flight ≡ none
      → r.listening ≡ 1
      → Fair done (suc steps) allowed (take_signals (failed error ∷ []) s r)
  unfolding take_signals take_signal run_handlers and_then nothing finish call_back callbacks posts
      owed steps_left posts_left
  failed-Fair steps allowed error s r e f g = rw g record {
    phase = over;
    stands = at_over refl f refl;
    told = rw e refl;
    fewer = omega arith;
    spared = rw e (omega arith);
  }

  ready-Fair :
      {done : C} (steps allowed : ℕ) (s : JmapSession p) (r : JmapRequest C)
      → r.done ≡ some done
      → r.in_flight ≡ none
      → r.listening ≡ 1
      → Fair done (suc (suc steps)) (suc allowed) (take_signals (ready ∷ []) s r)
  unfolding take_signals take_signal run_handlers and_then nothing post callbacks posts owed
      steps_left posts_left
  ready-Fair steps allowed s r e f g = rw g record {
    phase = second;
    stands = at_second e refl refl;
    told = refl;
    fewer = omega arith;
    spared = omega arith;
  }

  module _ (done : C) (r : JmapRequest C) where
    -- The request's turn after the session has answered like this
    pub record Heard (steps allowed : ℕ) (x : JmapSession p × List Signal) : Type 0 where
      pub fair : Fair done steps allowed (take_signals x.1 x.0 r)

    Heard-if :
        {steps allowed : ℕ} (b : Bool) (x y : JmapSession p × List Signal)
        → Heard steps allowed x
        → Heard steps allowed y
        → Heard steps allowed (if b then x else y)
    Heard-if true x y h k = h
    Heard-if false x y h k = k

    Heard-failed :
        (steps allowed : ℕ) (error : Error) (s : JmapSession p)
        → r.done ≡ some done
        → r.in_flight ≡ none
        → r.listening ≡ 1
        → Heard (suc steps) allowed (s, failed error ∷ [])
    Heard-failed steps allowed error s e f g = record {
      fair = failed-Fair steps allowed error s r e f g;
    }

    Heard-waiting :
        (s : JmapSession p)
        → r.done ≡ some done
        → r.in_flight ≡ none
        → r.listening ≡ 1
        → s.is_waiting ≡ true
        → Heard 3 1 (s, [])
    unfolding take_signals nothing callbacks posts owed steps_left posts_left
    Heard-waiting s e f g w = record {
      fair = record {
        phase = renewing;
        stands = at_renewing e f g w;
        told = refl;
        fewer = omega arith;
        spared = omega arith;
      };
    }

    Heard-ready :
        (s : JmapSession p)
        → r.done ≡ some done
        → r.in_flight ≡ none
        → r.listening ≡ 1
        → Heard 2 1 (s, ready ∷ [])
    Heard-ready s e f g = record { fair = ready-Fair 0 0 s r e f g }

    pub refresh-Heard :
        (s : JmapSession p)
        → r.done ≡ some done
        → r.in_flight ≡ none
        → r.listening ≡ 1
        → Heard 3 1 (refresh p s)
    unfolding refresh discover
    refresh-Heard s e f g = search (Heard-if, Heard-failed, Heard-waiting) depth 9

    pub judge_reply-Heard :
        (psl : PublicSuffixList) (max_bytes : ℕ) (reply : NetworkReply p) (s : JmapSession p)
        → r.done ≡ some done
        → r.in_flight ≡ none
        → r.listening ≡ 1
        → Heard 2 1 (judge_reply p psl max_bytes reply s)
    unfolding judge_reply take_ingested
    judge_reply-Heard psl max_bytes reply s e f g =
        let last = taken (ingest_json p psl (p.parse_json reply.body) reply.url) in
        search (Heard-if, Heard-failed) depth 9
      where
        taken : (i : Ingested p) → Heard 2 1 (take_ingested i s)
        taken (accepted c) = Heard-ready _ e f g
        taken (refused x) = Heard-failed 1 1 protocol s e f g
