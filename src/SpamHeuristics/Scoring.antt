-- ===== src/SpamHeuristics/Scoring.antt =====
-- The scorer (score): the rules on who sent the message, from the first to OpenPGP, and the verdict.
-- A weight is an int of C++; the settings keep it far from the bounds. The text for the reader is left
-- out of a hit.
use mailove.Common.{
  ℕ, zero, suc, Bool, true, false, not, ◌&&◌, ◌||◌, Option, none, some, List, [], ◌∷◌, ◌++◌, Bytes,
  ℤ, pos, negsuc, less_int, ◌+ℤ◌, scale, codes, is_empty, contains, lookup, ◌==◌, if◌then◌else◌,
}
use mailove.SpamHeuristics.{SpamPlatform, SpamConfig}
use mailove.SpamHeuristics.Fields.{Field, Upstream, read_upstream}
use mailove.SpamHeuristics.Mailbox.{tld_of}

pub data Verdict : Type 0 where
  ham : Verdict
  unsure : Verdict
  spam_verdict : Verdict

pub record Hit : Type 0 where
  pub id : Bytes
  pub weight : ℤ

pub record Score : Type 0 where
  pub total : ℤ
  pub verdict : Verdict
  pub hits : List Hit
  pub exempt : Bool

-- Context
pub record Context : Type 0 where
  pub known_correspondent : Bool
  pub auth_failed : Bool
  pub auth_passed : Bool
  pub auth_soft_failed : Bool
  pub arc_passed : Bool
  pub auth_submitted : Bool
  pub seen_from_org : ℤ
  pub days_known_org : ℤ
  pub familiar_tlds : List Bytes
  pub sent_tld_sample : ℤ
  pub own_addresses : List Bytes
  pub in_reply_to_known : Bool
  pub crypto : ℕ
  pub junk_content_match : Bool
  pub in_junk_folder : Bool
  pub user_not_spam : Bool
  pub always_score : Bool

-- AdvancedConfig::intOr for spamrules/<id>
unfoldable pub weight_or : Option ℤ → ℤ → ℤ
weight_or none fallback = fallback
weight_or (some w) fallback = w

unfoldable pub rule_weight : SpamConfig → Bytes → ℤ → ℤ
unfolding weight_or lookup
rule_weight config id fallback = weight_or (lookup id (config.rule_weights)) fallback

unfoldable pub is_zero : ℤ → Bool
is_zero (pos zero) = true
is_zero (pos (suc n)) = false
is_zero (negsuc n) = false

unfoldable pub append_hit : Bytes → ℤ → Score → Score
append_hit id w out = record out {
  hits = out.hits ++ record { id = id; weight = w } ∷ [];
  total = out.total +ℤ w;
}

-- the lambda `hit`
unfoldable pub hit : SpamConfig → Bytes → ℤ → Score → Score
unfolding rule_weight is_zero append_hit
hit config id weight out =
    let w = rule_weight config id weight in if is_zero w then out else append_hit id w out

-- the local authFailed
unfoldable pub is_auth_failed : Context → Bool
is_auth_failed ctx = ctx.auth_failed && not (ctx.arc_passed)

unfoldable pub is_from_own : Context → Bytes → Bool
unfolding is_empty contains
is_from_own ctx from_addr = not (is_empty from_addr) && contains from_addr (ctx.own_addresses)

-- Rules -2 and -1
unfoldable pub score_decision : SpamConfig → Context → Score → Score
unfolding hit
score_decision config ctx out =
    if ctx.user_not_spam
    then hit config (codes "user-not-spam") (negsuc 998) out
    else if ctx.in_junk_folder
    then hit config (codes "junk-folder") (pos 999) out
    else out

-- Rule 0, for a correspondent and for the user's own address
unfoldable pub is_exempt : Context → Bool → Bool
unfolding is_auth_failed
is_exempt ctx from_is_own =
    (ctx.known_correspondent
      && ctx.auth_passed
      && not (is_auth_failed ctx)
      && not (ctx.always_score)
      && not (ctx.in_junk_folder))
    || (from_is_own
        && ctx.auth_submitted
        && not (is_auth_failed ctx)
        && not (ctx.always_score)
        && not (ctx.in_junk_folder))

unfoldable pub score_junk_content : SpamConfig → Context → Score → Score
unfolding hit
score_junk_content config ctx out =
    if ctx.junk_content_match then hit config (codes "junk-content-match") (pos 50) out else out

unfoldable pub score_authentication : SpamConfig → Context → Bool → Score → Score
unfolding hit is_auth_failed
score_authentication config ctx from_is_own out =
    if from_is_own && is_auth_failed ctx
    then hit config (codes "own-address-forged") (pos 100) out
    else if from_is_own && not (ctx.auth_passed) && not (ctx.arc_passed) && not (ctx.auth_submitted)
    then hit config (codes "own-address-unverified") (pos 100) out
    else if ctx.known_correspondent && is_auth_failed ctx
    then hit config (codes "known-contact-spoofed") (pos 60) out
    else if is_auth_failed ctx
    then hit config (codes "auth-fail") (pos 35) out
    else if ctx.auth_soft_failed && not (ctx.arc_passed)
    then hit config (codes "auth-softfail") (pos 20) out
    else out

unfoldable pub score_known_contact : SpamConfig → Context → Bool → Score → Score
unfolding hit is_auth_failed
score_known_contact config ctx from_is_own out =
    if ctx.known_correspondent
      && not (is_auth_failed ctx)
      && not from_is_own
      && not (ctx.in_junk_folder)
    then hit config (codes "known-contact") (negsuc 14) out
    else out

unfoldable pub is_familiar_org : SpamConfig → Context → Bool
unfolding less_int
is_familiar_org config ctx =
    not (less_int (ctx.seen_from_org) (config.familiar_count))
    && not (less_int (ctx.days_known_org) (config.familiar_days))

unfoldable pub score_familiarity : SpamConfig → Context → Score → Score
unfolding hit is_auth_failed is_familiar_org
score_familiarity config ctx out =
    let familiar = is_familiar_org config ctx in
    if ctx.auth_passed && not (is_auth_failed ctx)
    then (if familiar
        then hit config (codes "auth-pass-familiar") (negsuc 24) out
        else hit config (codes "auth-pass") (negsuc 7) out)
    else if familiar && not (is_auth_failed ctx)
    then hit config (codes "familiar-domain") (negsuc 14) out
    else if familiar && is_auth_failed ctx
    then hit config (codes "familiar-domain-spoofed") (pos 25) out
    else out

unfoldable pub no_texts : List Bytes → Bool
no_texts [] = true
no_texts (b ∷ bs) = false

unfoldable pub score_tld : SpamPlatform → SpamConfig → Context → Bytes → Score → Score
unfolding hit is_familiar_org tld_of is_empty no_texts less_int contains
score_tld p config ctx from_addr out =
    let from_tld = tld_of p from_addr in
    if not (is_familiar_org config ctx)
      && not (is_empty from_tld)
      && not (no_texts (ctx.familiar_tlds))
      && not (less_int (ctx.sent_tld_sample) (config.tld_min_sample))
      && not (contains from_tld (ctx.familiar_tlds))
    then hit config (codes "unfamiliar-tld") (pos 15) out
    else out

unfoldable pub score_thread : SpamConfig → Context → Score → Score
unfolding hit
score_thread config ctx out =
    if ctx.in_reply_to_known then hit config (codes "thread-reply") (negsuc 29) out else out

unfoldable pub score_upstream : SpamConfig → Upstream → Score → Score
unfolding hit less_int scale
score_upstream config up out =
    if up.scored
    then (if not (less_int (up.score) (scale 1 (up.required)))
        then hit config (codes "upstream-spam-high") (pos 50) out
        else if not (less_int (up.score) (up.required))
        then hit config (codes "upstream-spam") (pos 40) out
        else if not (less_int (scale 4 (up.score)) (scale 2 (up.required)))
        then hit config (codes "upstream-near-threshold") (pos 30) out
        else if not (less_int (pos 0) (up.score))
        then hit config (codes "upstream-ham") (negsuc 14) out
        else out)
    else if up.present && up.spam
    then hit config (codes "upstream-spam") (pos 40) out
    else out

unfoldable pub score_pgp : SpamConfig → Context → Score → Score
unfolding hit
score_pgp config ctx out =
    if ctx.crypto == 2 || ctx.crypto == 3
    then hit config (codes "pgp-signed") (negsuc 49) out
    else if ctx.crypto == 1
    then hit config (codes "pgp-encrypted") (negsuc 39) out
    else out

-- What score does once the message is not exempt, up to OpenPGP.
unfoldable pub score_rules :
    SpamPlatform → SpamConfig → Context → List Field → Bytes → Bool → Score → Score
unfolding score_junk_content score_authentication score_known_contact score_familiarity score_tld
    score_thread score_upstream score_pgp read_upstream
score_rules p config ctx fields from_addr from_is_own out = score_pgp config ctx (
    score_upstream config (read_upstream p fields) (
      score_thread config ctx (
        score_tld p config ctx from_addr (
          score_familiarity config ctx (
            score_known_contact config ctx from_is_own
              (score_authentication config ctx from_is_own (score_junk_content config ctx out)))))))

abbrev pub blank_score : Score
blank_score = record { total = pos 0; verdict = ham; hits = []; exempt = false }

-- From the address of From, already decoded; an exempt message is returned at once.
unfoldable pub score_sender : SpamPlatform → SpamConfig → Context → List Field → Bytes → Score
unfolding score_decision is_exempt is_from_own score_rules
score_sender p config ctx fields from_addr =
    let own = is_from_own ctx from_addr in
    let filed = score_decision config ctx blank_score in
    if is_exempt ctx own
    then record filed { exempt = true; verdict = ham }
    else score_rules p config ctx fields from_addr own filed

unfoldable pub verdict_for : SpamConfig → ℤ → Verdict
unfolding less_int
verdict_for config total =
    if not (less_int total (config.threshold))
    then spam_verdict
    else if not (less_int total (pos 25))
    then unsure
    else ham

unfoldable pub set_verdict : SpamConfig → Score → Score
unfolding verdict_for
set_verdict config out = record out { verdict = verdict_for config (out.total) }
