-- ===== src/SpamHeuristics/Mailbox.antt =====
-- Addresses (normalizeAddress, splitMailbox, addressOf, displayNameOf, tldOf, orgOfDomain,
-- organizationalDomainOf, urlHasUserinfo).
use mailove.Common.{
  ℕ, zero, suc, ◌-◌, Bool, true, false, not, ◌&&◌, ◌||◌, Option, none, some, List, [], ◌∷◌, ◌++◌,
  Bytes, codes, is_empty, starts_with, ends_with, split, join, index_of, last_index_of, length,
  take, drop, ltb, leb, ◌==◌, if◌then◌else◌,
}
use mailove.SpamHeuristics.{SpamPlatform, captured}
use mailove.PublicSuffix.{PublicSuffixList, organizational_domain}

-- plus > 0
unfoldable pub without_tag : Option ℕ → Bytes → Bytes
without_tag none local = local
without_tag (some zero) local = local
without_tag (some (suc n)) local = take (suc n) local

-- at <= 0 leaves the text.
unfoldable pub normalize_at : Option ℕ → Bytes → Bytes
unfolding without_tag index_of
normalize_at none a = a
normalize_at (some zero) a = a
normalize_at (some (suc n)) a =
    let local = take (suc n) a in without_tag (index_of b'+' local) local ++ drop (suc n) a

unfoldable pub normalize_address : SpamPlatform → Bytes → Bytes
unfolding normalize_at last_index_of
normalize_address p address =
    let a = p.lower_text (p.trim_text address) in normalize_at (last_index_of b'@' a) a

-- The variables of the loop of splitMailbox; `escaped`: this character is the one that ++i skips.
pub record MailboxScan : Type 0 where
  pub escaped : Bool
  pub in_quotes : Bool
  pub angle_open : Option ℕ
  pub angle_close : Option ℕ

unfoldable pub is_here : Option ℕ → Bool
is_here none = false
is_here (some i) = true

unfoldable pub scan_step : ℕ → MailboxScan → ℕ → MailboxScan
unfolding is_here
scan_step i s c =
    if s.escaped
    then record s { escaped = false }
    else if c == 92
    then record s { escaped = true }
    else if c == b'"'
    then record s { in_quotes = not (s.in_quotes) }
    else if s.in_quotes
    then s
    else if c == b'<'
    then record s { angle_open = some i; angle_close = none }
    else if c == b'>' && is_here (s.angle_open) && not (is_here (s.angle_close))
    then record s { angle_close = some i }
    else s

unfoldable pub scan_mailbox : ℕ → MailboxScan → Bytes → MailboxScan
unfolding scan_step
scan_mailbox i s [] = s
scan_mailbox i s (c ∷ cs) = scan_mailbox (suc i) (scan_step i s c) cs

-- addressRe
abbrev pub address_pattern : Bytes
address_pattern = codes "[A-Za-z0-9._%+'-]+@[A-Za-z0-9.-]+\\.[A-Za-z]{2,}"

unfoldable pub matched_text : Option (List Bytes) → Bytes
unfolding captured
matched_text none = []
matched_text (some m) = captured 0 m

unfoldable pub address_in : SpamPlatform → Bytes → Bytes
unfolding matched_text
address_in p text = matched_text (p.match_pattern false address_pattern text)

unfoldable pub inner_text : ℕ → Option ℕ → Bytes → Bytes
inner_text o none value = drop (suc o) value
inner_text o (some k) value =
    if ltb o k then take (k - o - 1) (drop (suc o) value) else drop (suc o) value

unfoldable pub unquoted_name : SpamPlatform → Bytes → Bytes
unfolding starts_with ends_with
unquoted_name p text =
    let shown = p.trim_text text in
    p.trim_text (
      if leb 2 (length shown) && starts_with (b'"' ∷ []) shown && ends_with (b'"' ∷ []) shown
      then take (length shown - 2) (drop 1 shown)
      else shown)

-- *name and *addr
unfoldable pub split_at : SpamPlatform → Option ℕ → Option ℕ → Bytes → Bytes × Bytes
unfolding address_in inner_text unquoted_name
split_at p none close value = ([], address_in p value)
split_at p (some o) close value =
    (unquoted_name p (take o value), address_in p (inner_text o close value))

abbrev pub unscanned : MailboxScan
unscanned = record { escaped = false; in_quotes = false; angle_open = none; angle_close = none }

unfoldable pub split_mailbox : SpamPlatform → Bytes → Bytes × Bytes
unfolding split_at scan_mailbox
split_mailbox p value =
    let s = scan_mailbox 0 unscanned value in split_at p (s.angle_open) (s.angle_close) value

unfoldable pub address_of : SpamPlatform → Bytes → Bytes
unfolding split_mailbox is_empty normalize_address
address_of p value =
    let (name, addr) = split_mailbox p value in
    if is_empty addr then [] else normalize_address p addr

unfoldable pub display_name_of : SpamPlatform → Bytes → Bytes
unfolding split_mailbox
display_name_of p value = let (name, addr) = split_mailbox p value in name

unfoldable pub all_letters : (ℕ → Bool) → Bytes → Bool
all_letters is_letter [] = true
all_letters is_letter (c ∷ cs) = is_letter c && all_letters is_letter cs

unfoldable pub after_at : Option ℕ → Bytes → Bytes
after_at none address = address
after_at (some i) address = drop (suc i) address

-- section('.', -1): what follows the last point
unfoldable pub last_piece : List Bytes → Bytes
last_piece [] = []
last_piece (b ∷ []) = b
last_piece (b ∷ c ∷ bs) = last_piece (c ∷ bs)

unfoldable pub tld_of : SpamPlatform → Bytes → Bytes
unfolding after_at last_index_of is_empty starts_with last_piece split all_letters
tld_of p address =
    let domain = p.lower_text (after_at (last_index_of b'@' address) address) in
    let last = last_piece (split b'.' domain) in
    if is_empty domain || starts_with (b'[' ∷ []) domain
    then []
    else if all_letters (p.is_letter) last
    then last
    else []

-- Qt::SkipEmptyParts
unfoldable pub skip_empty : List Bytes → List Bytes
unfolding is_empty
skip_empty [] = []
skip_empty (b ∷ bs) = let rest = skip_empty bs in if is_empty b then rest else b ∷ rest

unfoldable pub org_of_domain : SpamPlatform → PublicSuffixList → Bytes → Bytes
unfolding is_empty organizational_domain skip_empty split join
org_of_domain p suffixes domain =
    let org = organizational_domain (p.lower_text) suffixes domain in
    let labels = skip_empty (split b'.' domain) in
    if is_empty domain
    then []
    else if not (is_empty org)
    then org
    else if leb (length labels) 2
    then domain
    else join b'.' (drop (length labels - 2) labels)

unfoldable pub domain_after : SpamPlatform → PublicSuffixList → Option ℕ → Bytes → Bytes
unfolding org_of_domain
domain_after p suffixes none address = []
domain_after p suffixes (some i) address =
    org_of_domain p suffixes (p.lower_text (drop (suc i) address))

unfoldable pub organizational_domain_of : SpamPlatform → PublicSuffixList → Bytes → Bytes
unfolding domain_after last_index_of
organizational_domain_of p suffixes address =
    domain_after p suffixes (last_index_of b'@' address) address
