-- ===== src/Tests/Canon.antt =====
-- Canonical forms, verdicts and domains: the vectors of RFC 6376, 3.4.5, and the theorems at them.
use mailove.Common.{
  true, false, [], ◌∷◌, ◌++◌, ◌≡◌, refl, ◌⊎◌, Bytes, codes, crlf, split, join, is_empty, ends_with,
  to_lower,
}
use mailove.PublicSuffix.{
  PublicSuffixList, empty_list, is_loaded, public_suffix, organizational_labels,
  organizational_domain,
}
use mailove.Dkim.Canon.{header_relaxed, unfold_value, body_simple, body_relaxed, blank_line}
use mailove.Dkim.Canon.Headers.{words, header_relaxed-words}
use mailove.Dkim.Canon.Bodies.{body_simple_lem}
use mailove.Dkim.Canon.Relaxed.{body_relaxed_lem}
use mailove.Dkim.Fields.{scan_fields, split_fields}
use mailove.Dkim.Fields.Pieces.{AreCut}
use mailove.Dkim.Fields.Laws.{FieldsOf, join_lines, split_fields_keeps}
use mailove.Dkim.Results.{DkimResult, DkimStatus, no_result}
use mailove.Dkim.Align.{domains_aligned}
use mailove.Dkim.Align.Laws.{domains_aligned_lem, fallback_looser}

abbrev folded : Bytes
folded = codes " \tX Y\t\r\n\tZ  "

header_relaxed_vector : header_relaxed (codes "A") folded ≡ codes "a:X Y Z\r\n"
unfolding header_relaxed
header_relaxed_vector = refl

body_vector : body_relaxed (codes " C \r\nD \t E\r\n\r\n\r\n") ≡ codes " C\r\nD E\r\n"
unfolding body_relaxed is_empty
body_vector = refl

header_relaxed-words_example :
    header_relaxed (codes "A") folded
    ≡ to_lower (codes "A") ++ (58 ∷ (join 32 (words (unfold_value folded)) ++ crlf))
header_relaxed-words_example = header_relaxed-words (codes "A") folded

abbrev letter : Bytes
letter = codes "one \r\n\ttwo\r\n\r\n"

body_simple_lem_example :
    (ends_with crlf (body_simple letter) ≡ true)
    × (ends_with blank_line (body_simple letter) ≡ false)
    × (body_simple (body_simple letter) ≡ body_simple letter)
    × (body_simple ((letter ++ crlf) ++ crlf) ≡ body_simple (letter ++ crlf))
body_simple_lem_example = body_simple_lem letter

body_relaxed_lem_example :
    ((body_relaxed letter ≡ [])
      ⊎ ((ends_with crlf (body_relaxed letter) ≡ true)
          × (ends_with blank_line (body_relaxed letter) ≡ false)
          × (¬ (body_relaxed letter ≡ crlf))))
    × (body_relaxed ((letter ++ crlf) ++ crlf) ≡ body_relaxed (letter ++ crlf))
body_relaxed_lem_example = body_relaxed_lem letter

abbrev block : Bytes
block = codes "From: a\r\n b\r\nTo : c\r\n"

split_fields_keeps_example :
    (join_lines (scan_fields [] block) ≡ block)
    × AreCut (scan_fields [] block)
    × FieldsOf (scan_fields [] block) (split_fields block)
split_fields_keeps_example = split_fields_keeps block

abbrev passed : DkimResult
passed = record no_result { status = DkimStatus.pass }

abbrev failed : DkimResult
failed = record no_result { status = DkimStatus.fail }

abbrev retry : DkimResult
retry = record no_result { status = DkimStatus.temp_error }

abbrev suffixes : PublicSuffixList
suffixes = record {
  rules = codes "uk" ∷ codes "co.uk" ∷ codes "jp" ∷ [];
  wildcards = codes "kobe.jp" ∷ [];
  exceptions = codes "city.kobe.jp" ∷ [];
}

organizational_vectors :
    (organizational_domain to_lower suffixes (codes "Mail.A.co.uk.") ≡ codes "a.co.uk")
    × (organizational_domain to_lower suffixes (codes "co.uk") ≡ [])
    × (organizational_domain to_lower suffixes (codes "x.b.kobe.jp") ≡ codes "x.b.kobe.jp")
    × (organizational_domain to_lower suffixes (codes "x.city.kobe.jp") ≡ codes "city.kobe.jp")
    × (organizational_domain to_lower suffixes (codes "a.b.example") ≡ codes "b.example")
unfolding organizational_domain public_suffix to_lower split join
organizational_vectors = (refl, refl, refl, refl, refl)

abbrev org_of : Bytes → Bytes
org_of name = organizational_labels suffixes (split 46 name)

domains_aligned_lem_example :
    (domains_aligned to_lower suffixes (codes "m.a.co.uk") (codes "a.co.uk")
      ≡ domains_aligned to_lower suffixes (codes "a.co.uk") (codes "m.a.co.uk"))
    × (is_loaded suffixes ≡ true
        → domains_aligned to_lower suffixes (codes "m.a.co.uk") (codes "a.co.uk") ≡ true
        → domains_aligned to_lower suffixes (codes "a.co.uk") (codes "n.a.co.uk") ≡ true
        → domains_aligned to_lower suffixes (codes "m.a.co.uk") (codes "n.a.co.uk") ≡ true)
domains_aligned_lem_example =
    domains_aligned_lem to_lower suffixes (codes "m.a.co.uk") (codes "a.co.uk") (codes "n.a.co.uk")

fallback_looser_example :
    (domains_aligned to_lower empty_list (codes "co.uk") (codes "bank" ++ (46 ∷ codes "co.uk"))
      ≡ true)
    × (domains_aligned to_lower suffixes (codes "co.uk") (codes "bank" ++ (46 ∷ codes "co.uk"))
        ≡ false)
unfolding organizational_domain public_suffix to_lower split join
fallback_looser_example =
    fallback_looser to_lower empty_list suffixes (codes "co.uk") (codes "bank") refl refl refl refl
      refl refl
