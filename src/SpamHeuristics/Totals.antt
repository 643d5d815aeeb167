-- ===== src/SpamHeuristics/Totals.antt =====
-- The total of a score is the sum of its hits, and the rules on links stay within their cap.
use mailove.Common.{
  zero, suc, true, false, ◌≡◌, refl, sym, ap, ◌∙◌, inl, inr, List, [], ◌∷◌, ◌++◌, Bytes, ℤ, pos,
  negsuc, less_int, ◌+ℤ◌, min_int, All, Bool-cases, arith,
}
use mailove.SpamHeuristics.{SpamPlatform, SpamConfig}
use mailove.SpamHeuristics.Fields.{Field}
use mailove.SpamHeuristics.Rules.{score_decision_keeps, score_rules_keeps}
use mailove.SpamHeuristics.Scoring.{
  Hit, Score, Context, ham, is_zero, rule_weight, append_hit, hit, is_from_own, is_exempt,
  score_decision, blank_score, score_sender,
}

-- The weights added to `t` from the left.
unfoldable pub sum_from : ℤ → List Hit → ℤ
sum_from t [] = t
sum_from t (h ∷ hs) = sum_from (t +ℤ h.weight) hs

abbrev pub Counts : Hit → Type 0
Counts h = is_zero (h.weight) ≡ false

-- The total is the sum of the weights, and no hit weighs nothing.
pub record IsSummed (out : Score) : Type 0 where
  pub sum : out.total ≡ sum_from (pos 0) (out.hits)
  pub counted : All Counts (out.hits)

sum_from-append :
    (t : ℤ) (hs : List Hit) (h : Hit) → sum_from t (hs ++ h ∷ []) ≡ sum_from t hs +ℤ h.weight
unfolding sum_from
sum_from-append t [] h = refl
sum_from-append t (g ∷ hs) h = sum_from-append (t +ℤ g.weight) hs h

pub All-append : (hs : List Hit) (h : Hit) → All Counts hs → Counts h → All Counts (hs ++ h ∷ [])
All-append [] h a c = (c, tt)
All-append (g ∷ hs) h (b, a) c = (b, All-append hs h a c)

pub append_hit-IsSummed :
    (id : Bytes) (w : ℤ) (out : Score)
    → is_zero w ≡ false
    → IsSummed out
    → IsSummed (append_hit id w out)
unfolding append_hit
append_hit-IsSummed id w out c s =
    let h : Hit = record { id = id; weight = w } in
    record {
      sum = ap (λ (t : ℤ). t +ℤ w) s.sum ∙ sym (sum_from-append (pos 0) (out.hits) h);
      counted = All-append (out.hits) h s.counted c;
    }

pub hit-IsSummed :
    (config : SpamConfig) (id : Bytes) (weight : ℤ) (out : Score)
    → IsSummed out
    → IsSummed (hit config id weight out)
unfolding hit
hit-IsSummed config id weight out s = elim (Bool-cases (is_zero (rule_weight config id weight))) [
  | inl e ↦ rw e s
  | inr e ↦ rw e (append_hit-IsSummed id (rule_weight config id weight) out e s)
]

pub marked : (out : Score) → IsSummed out → IsSummed (record out { exempt = true; verdict = ham })
marked out s = record { sum = s.sum; counted = s.counted }

-- The score of a sender, exempt or not, is the sum of the weights of its hits, in their order, and
-- no hit in it weighs nothing.
pub score_sender-IsSummed :
    (p : SpamPlatform) (config : SpamConfig) (ctx : Context) (fields : List Field)
    (from_addr : Bytes)
    → IsSummed (score_sender p config ctx fields from_addr)
unfolding score_sender sum_from
score_sender-IsSummed p config ctx fields from_addr =
    let filed = score_decision config ctx blank_score in
    let own = is_from_own ctx from_addr in
    let s : IsSummed filed =
      score_decision_keeps IsSummed config (hit-IsSummed config) ctx blank_score
        record { sum = refl; counted = tt } in
    elim (Bool-cases (is_exempt ctx own)) [
      | inl e ↦ rw e (marked filed s)
      | inr e ↦ rw e (
          score_rules_keeps IsSummed config (hit-IsSummed config) p ctx fields from_addr own filed
            s)
    ]

pub min_int-counts :
    (x y : ℤ) → is_zero x ≡ false → less_int (pos 0) y ≡ true → is_zero (min_int x y) ≡ false
unfolding is_zero min_int less_int
min_int-counts (pos zero) y c h = ground arith
min_int-counts x (pos zero) c h = ground arith
min_int-counts x (negsuc n) c h = ground arith
min_int-counts (pos (suc m)) (pos (suc n)) c h = ground arith
min_int-counts (negsuc m) (pos (suc n)) c h = ground arith
