-- ===== src/Tests/Scores.antt =====
-- Runs of the whole score of a message whose body is not there yet.
use mailove.Common.{true, false, ◌≡◌, refl, some, [], ◌∷◌, codes, ltb, leb, less_int, if◌then◌else◌}
use mailove.PublicSuffix.{empty_list}
use mailove.SpamHeuristics.{SpamConfig}
use mailove.SpamHeuristics.Content.{Message, score_head}
use mailove.SpamHeuristics.Contents.{score_head-IsSummed}
use mailove.SpamHeuristics.Decisive.{score_head-user_not_spam}
use mailove.SpamHeuristics.Scoring.{Context, ham}
use mailove.SpamHeuristics.Sealed.{accused, score_head-arc}
use mailove.SpamHeuristics.Totals.{IsSummed}
use mailove.SpamHeuristics.Words.{TextPlatform, latin, cyrillic}
use mailove.Tests.Spam.{mini_spam, usual_spam, stranger}

-- Letters from U+0400 on are Cyrillic, words are not split, and all dates are one.
abbrev mini_text : TextPlatform
mini_text = record {
  script = λ c. if ltb c 1024 then latin else cyrillic;
  is_letter_or_number = λ c. true;
  is_upper = λ c. leb 65 c;
  split_pattern = λ pattern_text b. b ∷ [];
  match_all = λ pattern_text b. b ∷ [];
  from_ace = λ b. b;
  date_seconds = λ b. some 0;
  contains_caseless = λ part b. false;
}

abbrev program : Message
program = record {
  fields = record { name = codes "from"; value = codes "a@b.top" } ∷ [];
  from_text = codes "a@b.top";
  subject_text = [];
  attachment_names = codes "bill.pdf.exe" ∷ [];
  encrypted_archive = true;
}

abbrev plain_spam : SpamConfig
plain_spam = record usual_spam { rule_weights = [] }

abbrev answered : Context
answered = record stranger { user_not_spam = true }

score_head-IsSummed_example :
    IsSummed (score_head mini_spam mini_text empty_list usual_spam stranger program)
score_head-IsSummed_example =
    score_head-IsSummed mini_spam mini_text empty_list usual_spam stranger program

score_head-user_not_spam_example :
    (score_head mini_spam mini_text empty_list plain_spam answered program).verdict ≡ ham
unfolding less_int
score_head-user_not_spam_example =
    score_head-user_not_spam plain_spam refl mini_spam mini_text empty_list answered program refl
      refl

abbrev sealed : Context
sealed = record stranger { arc_passed = true }

score_head-arc_example :
    score_head mini_spam mini_text empty_list usual_spam (accused true true sealed) program
    ≡ score_head mini_spam mini_text empty_list usual_spam sealed program
score_head-arc_example =
    score_head-arc mini_spam mini_text empty_list usual_spam sealed true true program refl
