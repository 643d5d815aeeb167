-- ===== src/SpamHeuristics/Content.antt =====
-- The rules of score on the software that sent a message, its subject, its recipients and its
-- attachments, and the whole score of a message whose body is not there yet.
use mailove.Common.{
  ℕ, suc, ◌*◌, Bool, true, false, not, ◌&&◌, ◌||◌, Option, none, some, List, [], ◌∷◌, ◌++◌, Bytes,
  pos, codes, is_empty, contains, leb, if◌then◌else◌,
}
use mailove.PublicSuffix.{PublicSuffixList}
use mailove.SpamHeuristics.{SpamPlatform, SpamConfig}
use mailove.SpamHeuristics.Fields.{Field, first_value}
use mailove.SpamHeuristics.Header.{
  hit_if, Sender, score_display_name, score_brand, score_from_domain, score_reply_to,
  score_message_id, score_relays, score_date,
}
use mailove.SpamHeuristics.Mailbox.{
  address_of, normalize_address, display_name_of, organizational_domain_of,
}
use mailove.SpamHeuristics.Names.{
  has_double_extension, is_dangerous_attachment, is_macro_document, has_extension, pages,
}
use mailove.SpamHeuristics.Scoring.{
  Score, Context, hit, no_texts, blank_score, score_decision, is_exempt, is_from_own, score_rules,
  set_verdict, ham,
}
use mailove.SpamHeuristics.Words.{
  TextPlatform, is_match, has_text, any_text, has_confusable_word, cyrillic_in,
  has_invisible_inside_word, is_one_of, relayed_mail,
}

unfoldable pub score_script : SpamPlatform → TextPlatform → SpamConfig → List Field → Score → Score
unfolding hit first_value is_empty has_text
score_script p q config fields out =
    let script =
      first_value fields (codes "x-php-originating-script")
      ++ (b' ' ∷ first_value fields (codes "x-php-script")) in
    let args = first_value fields (codes "x-source-args") in
    let path = script ++ (b' ' ∷ (first_value fields (codes "x-source-dir") ++ (b' ' ∷ args))) in
    if is_empty (p.trim_text script) && not (q.contains_caseless (codes "/usr/bin/php") args)
    then out
    else if q.contains_caseless (codes "eval()'d code") script
    then hit config (codes "php-eval-source") (pos 40) out
    else if q.contains_caseless (codes "wp-content") path
        || q.contains_caseless (codes "wp-includes") path
        || has_text (codes "components/com_") path
        || q.contains_caseless (codes "/joomla/") path
        || has_text (codes "/.well-known/") path
        || q.contains_caseless (codes "vendor/phpunit") path
    then hit config (codes "php-cms-origin") (pos 25) out
    else hit config (codes "php-script-origin") (pos 10) out

unfoldable pub score_mailer : SpamPlatform → SpamConfig → List Field → Score → Score
unfolding is_match first_value
score_mailer p config fields out =
    hit_if config
      (is_match (
        p.match_pattern true (codes "\\bPHPMailer\\s+[1-5]\\.")
          (first_value fields (codes "x-mailer"))))
      (codes "vulnerable-mailer") (pos 12) out

-- bidiControls
unfoldable pub has_bidi : Bytes → Bool
has_bidi [] = false
has_bidi (c ∷ b) =
    is_one_of c (8234 ∷ 8235 ∷ 8237 ∷ 8238 ∷ 8294 ∷ 8295 ∷ 8296 ∷ 8236 ∷ 8297 ∷ []) || has_bidi b

unfoldable pub count_chars : (ℕ → Bool) → Bytes → ℕ
count_chars f [] = 0
count_chars f (c ∷ b) = let n = count_chars f b in if f c then suc n else n

unfoldable pub is_shouting : SpamPlatform → TextPlatform → Bytes → Bool
unfolding count_chars
is_shouting p q subject =
    let letters = count_chars p.is_letter subject in
    let upper = count_chars (λ c. p.is_letter c && q.is_upper c) subject in
    leb 12 letters && leb (letters * 8) (upper * 10)

unfoldable pub encoded_word_charset : SpamPlatform → Option (List Bytes) → Bytes
encoded_word_charset p none = []
encoded_word_charset p (some []) = []
encoded_word_charset p (some (whole ∷ [])) = []
encoded_word_charset p (some (whole ∷ charset ∷ texts)) = p.lower_text charset

unfoldable pub is_ascii : Bytes → Bool
is_ascii [] = true
is_ascii (c ∷ b) = leb c 127 && is_ascii b

abbrev pub legacy_charsets : List Bytes
legacy_charsets =
    codes "gb2312"
    ∷ codes "gbk"
    ∷ codes "big5"
    ∷ codes "koi8-r"
    ∷ codes "koi8-u"
    ∷ codes "euc-kr"
    ∷ codes "iso-2022-jp"
    ∷ codes "windows-1251"
    ∷ []

-- Given the raw value of a subject and the decoded one, which is not empty here.
unfoldable pub score_subject_text :
    SpamPlatform → TextPlatform → SpamConfig → Bytes → Bytes → Score → Score
unfolding has_bidi has_confusable_word is_shouting has_invisible_inside_word contains
    encoded_word_charset is_ascii
score_subject_text p q config raw subject out =
    let charset =
      encoded_word_charset p
        (p.match_pattern false (codes "=\\?([A-Za-z0-9_.:-]+)\\?[BbQq]\\?") raw) in
    hit_if config (contains charset legacy_charsets && is_ascii subject) (codes "charset-mismatch")
      (pos 8)
      (hit_if config (has_invisible_inside_word q subject) (codes "zero-width-obfuscation") (pos 25)
        (hit_if config (is_shouting p q subject) (codes "subject-shouting") (pos 6) (
          hit_if config (has_confusable_word p q subject) (codes "subject-confusable") (pos 25)
            (hit_if config (has_bidi subject) (codes "subject-bidi-override") (pos 30) out))))

unfoldable pub score_subject :
    SpamPlatform → TextPlatform → SpamConfig → Bytes → Bytes → Score → Score
unfolding is_empty score_subject_text
score_subject p q config raw subject out =
    if is_empty subject then out else score_subject_text p q config raw subject out

unfoldable pub score_cyrillic : TextPlatform → SpamConfig → Bytes → Bytes → Score → Score
unfolding cyrillic_in
score_cyrillic q config subject display_name out =
    hit_if config (cyrillic_in q subject || cyrillic_in q display_name) (codes "cyrillic-script")
      (pos 50) out

-- The loop over the user's addresses
unfoldable pub names_own : List Bytes → Bytes → Bool
unfolding is_empty has_text
names_own [] recipients = false
names_own (own ∷ owns) recipients =
    (not (is_empty own) && has_text own recipients) || names_own owns recipients

unfoldable pub score_recipients : SpamPlatform → SpamConfig → Context → List Field → Score → Score
unfolding hit first_value is_empty contains normalize_address address_of names_own no_texts
score_recipients p config ctx fields out =
    let to_value = first_value fields (codes "to") in
    let no_list = is_empty (first_value fields (codes "list-id")) in
    let delivered =
      normalize_address p (address_of p (first_value fields (codes "delivered-to"))) in
    let recipients = p.lower_text (to_value ++ (b' ' ∷ first_value fields (codes "cc"))) in
    if not (is_one_of b'@' to_value) && no_list
    then hit config (codes "undisclosed-recipients") (pos 6) out
    else hit_if config
        (not (no_texts ctx.own_addresses)
          && no_list
          && not (contains delivered ctx.own_addresses)
          && not (names_own ctx.own_addresses recipients))
        (codes "not-addressed-to-you") (pos 8) out

-- Message, as the rules up to here read it, with From and the subject also decoded.
pub record Message : Type 0 where
  pub fields : List Field
  pub from_text : Bytes
  pub subject_text : Bytes
  pub attachment_names : List Bytes
  pub encrypted_archive : Bool

-- The first loop over the names: the first that is a program, in disguise or not.
unfoldable pub score_programs : SpamPlatform → SpamConfig → List Bytes → Score → Score
unfolding hit has_double_extension is_dangerous_attachment
score_programs p config [] out = out
score_programs p config (name ∷ names) out =
    let rest = score_programs p config names out in
    if has_double_extension p name
    then hit config (codes "attachment-double-extension") (pos 50) out
    else if is_dangerous_attachment p name
    then hit config (codes "attachment-executable") (pos 45) out
    else rest

unfoldable pub score_attachments : SpamPlatform → SpamConfig → Message → Score → Score
unfolding score_programs any_text has_extension is_macro_document
score_attachments p config msg out =
    hit_if config (any_text (is_macro_document p) msg.attachment_names) (codes "attachment-macro")
      (pos 15)
      (hit_if config (any_text (has_extension p pages) msg.attachment_names)
        (codes "html-attachment") (pos 30)
        (score_programs p config msg.attachment_names
          (hit_if config msg.encrypted_archive (codes "encrypted-archive") (pos 50) out)))

unfoldable pub sender_of : SpamPlatform → PublicSuffixList → Message → Sender
unfolding address_of organizational_domain_of display_name_of relayed_mail
sender_of p suffixes msg =
    let from_addr = address_of p msg.from_text in
    record {
      from_value = msg.from_text;
      from_addr = from_addr;
      from_org = organizational_domain_of p suffixes from_addr;
      display_name = display_name_of p msg.from_text;
      relayed = relayed_mail p msg.fields (display_name_of p msg.from_text);
    }

-- The rules on the header and the attachments, behind those on the sender.
unfoldable pub score_contents :
    SpamPlatform
    → TextPlatform
    → PublicSuffixList
    → SpamConfig
    → Context
    → Message
    → Sender
    → Score
    → Score
unfolding score_display_name score_brand score_from_domain score_reply_to score_message_id
    score_relays score_date score_script score_mailer score_subject score_cyrillic score_recipients
    score_attachments first_value
score_contents p q suffixes config ctx msg s out =
    let fields = msg.fields in
    let named = score_reply_to p suffixes config ctx fields s (
      score_from_domain p q config s
        (score_brand p q config ctx s (score_display_name p q suffixes config s out))) in
    let routed =
      score_date p q config fields
        (score_relays p config fields (score_message_id p config fields named)) in
    let written = score_cyrillic q config msg.subject_text s.display_name (
      score_subject p q config (first_value fields (codes "subject")) msg.subject_text
        (score_mailer p config fields (score_script p q config fields routed))) in
    score_attachments p config msg (score_recipients p config ctx fields written)

-- score, for a message with no text and no HTML: no rule on the body fires.
unfoldable pub score_head :
    SpamPlatform → TextPlatform → PublicSuffixList → SpamConfig → Context → Message → Score
unfolding sender_of score_decision is_exempt is_from_own score_rules score_contents set_verdict
score_head p q suffixes config ctx msg =
    let s = sender_of p suffixes msg in
    let own = is_from_own ctx s.from_addr in
    let filed = score_decision config ctx blank_score in
    if is_exempt ctx own
    then record filed { exempt = true; verdict = ham }
    else set_verdict config (
        score_contents p q suffixes config ctx msg s
          (score_rules p config ctx msg.fields s.from_addr own filed))
