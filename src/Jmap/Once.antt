-- ===== src/Jmap/Once.antt =====
-- Each batch that is sent has its callback called once (jmaprequest.cpp).
pub mod Phases
pub mod Turns
pub mod Answers
use mailove.Common.{
  ℕ, zero, suc, ◌+◌, ◌-◌, ◌≤◌, ◌<◌, Bool, true, false, not, ◌&&◌, ◌≡◌, refl, sym, ap, ◌∙◌, Option,
  none, some, List, [], ◌∷◌, ◌++◌, append-nil, append_assoc, length, if◌then◌else◌, arith,
}
use mailove.PublicSuffix.{PublicSuffixList}
use mailove.Jmap.{protocol, auth, UrlPlatform}
use mailove.Jmap.Discovery.{NetworkReply, JmapSession}
use mailove.Jmap.Sending.{JmapRequest, Turn, finish, post, has_calls, send_batch, and_then, nothing}
use mailove.Jmap.Once.Phases.{
  Phase, first, renewing, second, over, steps_left, posts_left, owed, callbacks, callbacks-append,
  posts, posts-append, Stands, at_first, at_renewing, at_second, at_over, Fair, Fair-if, Moves,
  Moves-and_then, stay, Moves-later,
}
use mailove.Jmap.Once.Turns.{finish-Fair}
use mailove.Jmap.Once.Answers.{
  Answer, take_answer, take_awaited, run, run_awaited, answer_Moves, awaited_Moves,
}

-- The callback that is still to be called
unfoldable pub pending : {C : Type 0} → Option C → List C
pending none = []
pending (some done) = done ∷ []

steps_left_le : (phase : Phase) → steps_left phase ≤ 3
unfolding steps_left
steps_left_le first = omega arith
steps_left_le renewing = omega arith
steps_left_le second = omega arith
steps_left_le over = omega arith

module _ {p : UrlPlatform} {C : Type 0} (psl : PublicSuffixList) (max_bytes : ℕ) where
  run-Moves :
      (done : C) (answers : List (Answer p)) (phase : Phase) (s : JmapSession p) (r : JmapRequest C)
      → Stands done s r phase
      → Moves done phase (steps_left phase) (run psl max_bytes answers s r)
  unfolding run
  run-Moves done [] phase s r h = stay done phase s r h
  run-Moves done (answer ∷ answers) phase s r h =
      let t = take_answer psl max_bytes answer s r in
      Moves-and_then done phase (steps_left phase) (steps_left phase) t (run psl max_bytes answers)
        (answer_Moves psl max_bytes done phase answer s r h)
        (λ after few stands.
          Moves-later (steps_left phase) (run-Moves done answers after t.session t.request stands)
            few)

  run_awaited-Moves :
      (done : C) (replies : List (NetworkReply p)) (phase : Phase) (s : JmapSession p)
      (r : JmapRequest C)
      → Stands done s r phase
      → Moves done phase (steps_left phase - length replies) (run_awaited psl max_bytes replies s r)
  unfolding run_awaited
  run_awaited-Moves done [] phase s r h = Moves-later _ (stay done phase s r h) (omega arith)
  run_awaited-Moves done (reply ∷ replies) phase s r h =
      let t = take_awaited psl max_bytes r.in_flight reply s r in
      Moves-and_then done phase (steps_left phase - 1) (steps_left phase - suc (length replies)) t
        (run_awaited psl max_bytes replies) (awaited_Moves psl max_bytes done phase reply s r h)
        (λ after few stands.
          Moves-later _ (run_awaited-Moves done replies after t.session t.request stands)
            (omega (arith, few)))

  send_batch-Fair :
      (done : C) (s : JmapSession p) (r : JmapRequest C)
      → r.in_flight ≡ none
      → r.listening ≡ 0
      → Fair done 4 2 (send_batch done s r)
  unfolding send_batch post callbacks posts owed steps_left posts_left
  send_batch-Fair done s r f g =
      let sending = record r { done = some done } in
      Fair-if (not (has_calls r.batch.calls)) _ _ (finish-Fair 3 2 protocol [] _ s sending refl f g)
        (Fair-if (not s.valid) _ _ (finish-Fair 3 2 auth [] _ s sending refl f g) record {
          phase = first;
          stands = at_first refl refl g;
          told = refl;
          fewer = omega arith;
          spared = omega arith;
        })

  -- What is known after `send` on a request that waits for nothing
  sent :
      (done : C) (s : JmapSession p) (r : JmapRequest C) (later : ℕ)
      (f : JmapSession p → JmapRequest C → Turn p C)
      → r.in_flight ≡ none
      → r.listening ≡ 0
      → ((phase : Phase) (t : JmapSession p) (q : JmapRequest C)
          → Stands done t q phase
          → Moves done phase later (f t q))
      → Fair done (suc later) 2 (and_then (send_batch done s r) f)
  unfolding and_then
  sent done s r later f e g next =
      let t = send_batch done s r in
      let h = send_batch-Fair done s r e g in
      let n = next h.phase t.session t.request h.stands in
      record {
        phase = n.phase;
        stands = n.stands;
        told =
            ap (λ (cs : List C). cs ++ owed done n.phase)
              (callbacks-append t.deliveries (f t.session t.request).deliveries)
            ∙ (append_assoc (callbacks t.deliveries) _ _
                ∙ (ap (λ (cs : List C). callbacks t.deliveries ++ cs) n.told ∙ h.told));
        fewer = omega (arith, n.fewer);
        spared = omega (
          arith,
          posts-append t.deliveries (f t.session t.request).deliveries,
          n.spared,
          h.spared,
        );
      }

  owed-pending :
      (done : C) (phase : Phase) (s : JmapSession p) (r : JmapRequest C)
      → Stands done s r phase
      → owed done phase ≡ pending r.done
  unfolding owed pending
  owed-pending done _ s r (at_first e f g) = rw e refl
  owed-pending done _ s r (at_renewing e f g w) = rw e refl
  owed-pending done _ s r (at_second e f g) = rw e refl
  owed-pending done _ s r (at_over e f g) = rw e refl

  -- A batch that is sent with a callback, on a request that waits for nothing, and then any replies, in
  -- any order, to the request or to its session: either the callback has been called, once, or it is
  -- still the one that is to be called; no other is called, and there are two POSTs at most.
  pub send_batch-run :
      (done : C) (s : JmapSession p) (r : JmapRequest C) (answers : List (Answer p))
      → r.in_flight ≡ none
      → r.listening ≡ 0
      → let t = and_then (send_batch done s r) (run psl max_bytes answers) in
        (callbacks t.deliveries ++ pending t.request.done ≡ done ∷ []) × (posts t.deliveries ≤ 2)
  send_batch-run done s r answers e g =
      let t = and_then (send_batch done s r) (run psl max_bytes answers) in
      let h = sent done s r 3 (run psl max_bytes answers) e g (λ phase t q stands.
        Moves-later 3 (run-Moves done answers phase t q stands) (steps_left_le phase)) in
      (
        ap (λ (cs : List C). callbacks t.deliveries ++ cs)
              (sym (owed-pending done h.phase t.session t.request h.stands))
            ∙ h.told,
        omega (arith, h.spared),
      )

  -- A batch that is sent with a callback, on a request that waits for nothing, is over when whatever is
  -- waited for has been answered three times: the callback has been called exactly once.
  pub send_batch-run_awaited :
      (done : C) (s : JmapSession p) (r : JmapRequest C) (replies : List (NetworkReply p))
      → r.in_flight ≡ none
      → r.listening ≡ 0
      → 3 ≤ length replies
      → let t = and_then (send_batch done s r) (run_awaited psl max_bytes replies) in
        (callbacks t.deliveries ≡ done ∷ []) × (t.request.done ≡ none)
  unfolding steps_left owed
  send_batch-run_awaited done s r replies e g l =
      let t = and_then (send_batch done s r) (run_awaited psl max_bytes replies) in
      let h = sent done s r 0 (run_awaited psl max_bytes replies) e g (λ phase t q stands.
        Moves-later 0 (run_awaited-Moves done replies phase t q stands)
          (omega (arith, l, steps_left_le phase))) in
      ends t h.phase h.fewer h.told h.stands
    where
      ends :
          (t : Turn p C) (phase : Phase)
          → steps_left phase < 1
          → callbacks t.deliveries ++ owed done phase ≡ done ∷ []
          → Stands done t.session t.request phase
          → (callbacks t.deliveries ≡ done ∷ []) × (t.request.done ≡ none)
      ends t first l told h = absurd (omega (arith, l))
      ends t renewing l told h = absurd (omega (arith, l))
      ends t second l told h = absurd (omega (arith, l))
      ends t over l told (at_over e f g) = (sym (append-nil _) ∙ told, e)
