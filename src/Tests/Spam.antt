-- ===== src/Tests/Spam.antt =====
-- Runs of the spam scorer, with a small platform in place of Qt.
use mailove.Common.{
  true, false, ◌≡◌, refl, ◌↔◌, some, List, [], ◌∷◌, ◌++◌, Bytes, ℤ, pos, negsuc, ◌+ℤ◌, ◌-ℤ◌, codes,
  equal, to_lower, trimmed, if◌then◌else◌,
}
use mailove.SpamHeuristics.{
  SpamPlatform, SpamConfig, before_equals, after_equals, strip_auth_comments_and_quotes,
}
use mailove.SpamHeuristics.Fields.{Field, parse_head, read_upstream, rspamd_pattern}
use mailove.SpamHeuristics.Mailbox.{split_mailbox, address_in, unquoted_name}
use mailove.SpamHeuristics.Linking.{score_links}
use mailove.SpamHeuristics.Scoring.{Context, blank_score, score_sender, set_verdict, spam_verdict}
use mailove.SpamHeuristics.Angles.{closed, quote, plain_char, split_mailbox-angles}
use mailove.SpamHeuristics.Written.{
  AuthText, text_end, text_char, text_quoted, text_comment, quote_end, quote_char, quote_escaped,
  comment_end, comment_char, comment_nested, print_auth, outside_text,
  strip_auth_comments_and_quotes-print,
}
use mailove.SpamHeuristics.Transit.{read_upstream-sent}
use mailove.SpamHeuristics.Senders.{IsVouchedFor, IsUnopposed, score_sender-exempt}

-- Every text matches: a pair around `=` is captured, an address is the whole text, and the numbers
-- of an Rspamd line are -5 and 15.
abbrev pub mini_spam : SpamPlatform
mini_spam = record {
  lower_text = to_lower;
  trim_text = trimmed;
  equal_caseless = λ a b. equal (to_lower a) (to_lower b);
  from_utf8 = λ b. b;
  is_letter = λ c. true;
  to_hundredths = λ b. if equal b (codes "-5") then some (negsuc 499) else some (pos 1500);
  match_pattern = λ caseless pattern_text b.
      if equal pattern_text rspamd_pattern
      then some (b ∷ codes "-5" ∷ codes "15" ∷ [])
      else some (b ∷ trimmed (before_equals b) ∷ trimmed (after_equals b) ∷ []);
}

abbrev pub usual_spam : SpamConfig
usual_spam = record {
  trust_spf = true;
  trust_dkim = true;
  trust_dmarc = true;
  trust_arc = true;
  trust_compauth = true;
  trust_auth = true;
  threshold = pos 50;
  familiar_count = pos 20;
  familiar_days = pos 60;
  tld_min_sample = pos 50;
  link_group_cap = pos 40;
  rule_weights = (codes "auth-fail", pos 45) ∷ [];
}

abbrev pub stranger : Context
stranger = record {
  known_correspondent = false;
  auth_failed = true;
  auth_passed = false;
  auth_soft_failed = false;
  arc_passed = false;
  auth_submitted = false;
  seen_from_org = pos 0;
  days_known_org = pos 0;
  familiar_tlds = codes "sk" ∷ [];
  sent_tld_sample = pos 80;
  own_addresses = codes "me@b.sk" ∷ [];
  in_reply_to_known = false;
  crypto = 0;
  junk_content_match = false;
  in_junk_folder = false;
  user_not_spam = false;
  always_score = false;
}

abbrev friend : Context
friend = record stranger { known_correspondent = true; auth_passed = true; arc_passed = true }

-- A failed authentication with the weight of the settings, and a domain the user never writes to.
stranger_total :
    (set_verdict usual_spam
      (score_sender mini_spam usual_spam stranger [] (codes "x@y.top"))).verdict
    ≡ spam_verdict
unfolding set_verdict score_sender to_lower ◌+ℤ◌
stranger_total = refl

score_sender-exempt_example :
    ((score_sender mini_spam usual_spam friend [] (codes "f@y.sk")).exempt ≡ true)
    ↔ (IsVouchedFor friend (codes "f@y.sk") × IsUnopposed friend)
score_sender-exempt_example = score_sender-exempt mini_spam usual_spam friend [] (codes "f@y.sk")

abbrev three_calls : List (Bytes × ℤ)
three_calls =
    (codes "url-shortener", pos 8)
    ∷ (codes "link-text-mismatch", pos 25)
    ∷ (codes "url-credential-trick", pos 30)
    ∷ []

-- The two heaviest, the second cut to the room that is left.
link_total : (score_links usual_spam three_calls blank_score).total ≡ pos 40
unfolding score_links ◌-ℤ◌ ◌+ℤ◌
link_total = refl

abbrev relayed_fields : List Field
relayed_fields =
    record { name = codes "x-spam-flag"; value = codes "YES" }
    ∷ record { name = codes "received"; value = codes "from a" }
    ∷ []

abbrev sent_fields : List Field
sent_fields = record { name = codes "x-spamd-result"; value = codes "[-5 / 15]" } ∷ []

read_upstream-sent_example :
    read_upstream mini_spam (relayed_fields ++ sent_fields) ≡ read_upstream mini_spam relayed_fields
unfolding equal
read_upstream-sent_example = read_upstream-sent mini_spam relayed_fields sent_fields (refl, tt)

-- A sender who writes a Received field too has the fields above it read.
forged_received :
    (read_upstream mini_spam (
      parse_head mini_spam
        (codes "Received: from a\nX-Spamd-Result: [-5 / 15]\nReceived: from b\n"))).score
    ≡ negsuc 499
unfolding read_upstream parse_head to_lower trimmed
forged_received = refl

-- The prefix is `"<a>" `, the address `t@e`.
split_mailbox-angles_example :
    split_mailbox mini_spam (codes "\"<a>\" <t@e>")
    ≡ (unquoted_name mini_spam (codes "\"<a>\" "), address_in mini_spam (codes "t@e"))
split_mailbox-angles_example =
    split_mailbox-angles mini_spam (codes "\"<a>\" ") (codes "t@e") []
      (quote (
        plain_char refl refl
          (plain_char refl refl (plain_char refl refl (quote (plain_char refl refl closed))))))
      ((refl, refl, refl, refl), ((refl, refl, refl, refl), ((refl, refl, refl, refl), tt))) tt

-- `a;(b())"\"c"`
abbrev commented : AuthText
commented = text_char b'a' refl refl (
    text_char b';' refl refl (
      text_comment (comment_char b'b' refl refl refl (comment_nested comment_end comment_end))
        (text_quoted (quote_escaped b'"' (quote_char b'c' refl refl quote_end)) text_end)))

strip_auth_comments_and_quotes-print_example :
    strip_auth_comments_and_quotes (print_auth commented) ≡ outside_text commented
strip_auth_comments_and_quotes-print_example = strip_auth_comments_and_quotes-print commented
