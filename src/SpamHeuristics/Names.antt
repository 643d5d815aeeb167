-- ===== src/SpamHeuristics/Names.antt =====
-- The names that the rules on the header and on attachments know (spamheuristics.cpp): brands,
-- free mailboxes, offices of a company, and extensions of files.
use mailove.Common.{
  ℕ, suc, Bool, false, ◌&&◌, ◌||◌, Option, none, some, List, [], ◌∷◌, Bytes, codes, equal, is_empty,
  ends_with, contains, split, last_index_of, drop, length, ltb, if◌then◌else◌,
}
use mailove.SpamHeuristics.{SpamPlatform}
use mailove.SpamHeuristics.Mailbox.{skip_empty}
use mailove.SpamHeuristics.Words.{TextPlatform, any_text, has_text}

pub record Brand : Type 0 where
  pub token : Bytes
  pub domains : Bytes

abbrev pub brand : Bytes → Bytes → Brand
brand token domains = record { token = token; domains = domains }

abbrev pub brands : List Brand
brands =
    brand (codes "paypal") (codes "paypal.com paypal.co.uk paypal-communication.com")
    ∷ brand (codes "apple") (codes "apple.com icloud.com apple.co cdn-apple.com")
    ∷ brand (codes "icloud") (codes "apple.com icloud.com")
    ∷ brand (codes "microsoft") (
        codes
          "microsoft.com microsoftonline.com live.com aka.ms msftauth.net office365.com office.net office.com")
    ∷ brand (codes "outlook")
        (codes "microsoft.com outlook.com live.com office365.com office.net office.com")
    ∷ brand (codes "onedrive") (codes "microsoft.com")
    ∷ brand (codes "office365")
        (codes "microsoft.com microsoftonline.com office365.com office.net office.com")
    ∷ brand (codes "amazon") (codes "amazon.com amazon.co.uk amazon.de amazonses.com amzn.to a.co")
    ∷ brand (codes "netflix") (codes "netflix.com nflx.it nflxext.com")
    ∷ brand (codes "google") (
        codes
          "google.com gmail.com youtube.com c.gle goo.gle goo.gl googleusercontent.com googlemail.com withgoogle.com")
    ∷ brand (codes "facebook") (codes "facebook.com facebookmail.com meta.com fb.me fb.com")
    ∷ brand (codes "instagram") (codes "instagram.com facebookmail.com meta.com")
    ∷ brand (codes "whatsapp") (codes "whatsapp.com meta.com")
    ∷ brand (codes "linkedin") (codes "linkedin.com lnkd.in licdn.com")
    ∷ brand (codes "dropbox") (codes "dropbox.com dropboxmail.com db.tt")
    ∷ brand (codes "docusign") (codes "docusign.com docusign.net")
    ∷ brand (codes "dhl") (codes "dhl.com dhl.de")
    ∷ brand (codes "fedex") (codes "fedex.com")
    ∷ brand (codes "ups") (codes "ups.com")
    ∷ brand (codes "coinbase") (codes "coinbase.com")
    ∷ brand (codes "binance") (codes "binance.com")
    ∷ brand (codes "revolut") (codes "revolut.com")
    ∷ brand (codes "wise") (codes "wise.com transferwise.com")
    ∷ brand (codes "stripe") (codes "stripe.com stripecdn.com")
    ∷ brand (codes "steam") (codes "steampowered.com valvesoftware.com")
    ∷ brand (codes "spotify") (codes "spotify.com")
    ∷ brand (codes "ebay") (codes "ebay.com ebay.co.uk ebay.de ebay.to ebayimg.com")
    ∷ brand (codes "bitcoin") (codes "")
    ∷ brand (codes "visa") (codes "visa.com")
    ∷ brand (codes "mastercard") (codes "mastercard.com")
    ∷ []

-- The loop over the brands
unfoldable pub find_brand : List Bytes → List Brand → Option Brand
unfolding contains
find_brand words [] = none
find_brand words (b ∷ bs) =
    let rest = find_brand words bs in if contains b.token words then some b else rest

unfoldable pub brand_claimed_by : SpamPlatform → TextPlatform → Bytes → Option Brand
unfolding find_brand
brand_claimed_by p q s = find_brand (q.match_all (codes "[a-z0-9]+") (p.lower_text s)) brands

unfoldable pub brand_owns : Brand → Bytes → Bool
unfolding is_empty any_text skip_empty split equal ends_with
brand_owns b host =
    if is_empty host
    then false
    else if is_empty b.domains
    then false
    else any_text (λ d. equal host d || ends_with (b'.' ∷ d) host)
        (skip_empty (split b' ' b.domains))

unfoldable pub is_freemail : Bytes → Bool
unfolding contains
is_freemail org = contains org (
    codes "gmail.com"
    ∷ codes "googlemail.com"
    ∷ codes "yahoo.com"
    ∷ codes "yahoo.co.uk"
    ∷ codes "hotmail.com"
    ∷ codes "outlook.com"
    ∷ codes "live.com"
    ∷ codes "msn.com"
    ∷ codes "aol.com"
    ∷ codes "gmx.net"
    ∷ codes "gmx.com"
    ∷ codes "gmx.de"
    ∷ codes "mail.ru"
    ∷ codes "yandex.ru"
    ∷ codes "proton.me"
    ∷ codes "protonmail.com"
    ∷ codes "zoho.com"
    ∷ codes "icloud.com"
    ∷ codes "me.com"
    ∷ codes "seznam.cz"
    ∷ codes "centrum.sk"
    ∷ codes "azet.sk"
    ∷ codes "zoznam.sk"
    ∷ codes "post.cz"
    ∷ [])

abbrev pub roles : List Bytes
roles =
    codes "support"
    ∷ codes "billing"
    ∷ codes "invoice"
    ∷ codes "invoicing"
    ∷ codes "accounts"
    ∷ codes "accounting"
    ∷ codes "payroll"
    ∷ codes "helpdesk"
    ∷ codes "security"
    ∷ codes "customer service"
    ∷ codes "no-reply"
    ∷ codes "noreply"
    ∷ codes "admin"
    ∷ codes "administrator"
    ∷ codes "it department"
    ∷ codes "service desk"
    ∷ []

unfoldable pub is_role_name : SpamPlatform → Bytes → Bool
unfolding any_text has_text
is_role_name p display_name =
    let lower = p.lower_text display_name in any_text (λ r. has_text r lower) roles

-- The last extension of a file name, with what comes of one.
unfoldable pub extension_in : List Bytes → Option ℕ → Bytes → Bool
unfolding contains
extension_in extensions none name = false
extension_in extensions (some dot) name = contains (drop (suc dot) name) extensions

unfoldable pub has_extension : SpamPlatform → List Bytes → Bytes → Bool
unfolding extension_in last_index_of
has_extension p extensions name =
    let n = p.lower_text (p.trim_text name) in extension_in extensions (last_index_of b'.' n) n

abbrev pub dangerous : List Bytes
dangerous =
    codes "exe"
    ∷ codes "scr"
    ∷ codes "com"
    ∷ codes "pif"
    ∷ codes "bat"
    ∷ codes "cmd"
    ∷ codes "vbs"
    ∷ codes "vbe"
    ∷ codes "js"
    ∷ codes "jse"
    ∷ codes "wsf"
    ∷ codes "wsh"
    ∷ codes "hta"
    ∷ codes "lnk"
    ∷ codes "cpl"
    ∷ codes "msi"
    ∷ codes "jar"
    ∷ codes "ps1"
    ∷ codes "iso"
    ∷ codes "img"
    ∷ codes "vhd"
    ∷ []

unfoldable pub is_dangerous_attachment : SpamPlatform → Bytes → Bool
unfolding has_extension
is_dangerous_attachment p name = has_extension p dangerous name

abbrev pub documents : List Bytes
documents =
    codes "pdf"
    ∷ codes "doc"
    ∷ codes "docx"
    ∷ codes "xls"
    ∷ codes "xlsx"
    ∷ codes "ppt"
    ∷ codes "pptx"
    ∷ codes "txt"
    ∷ codes "rtf"
    ∷ codes "jpg"
    ∷ codes "jpeg"
    ∷ codes "png"
    ∷ codes "gif"
    ∷ codes "csv"
    ∷ codes "htm"
    ∷ codes "html"
    ∷ []

-- parts.at(parts.size() - 2), if there are three parts
unfoldable pub inner_extension : List Bytes → Bytes
inner_extension [] = []
inner_extension (a ∷ []) = []
inner_extension (a ∷ b ∷ []) = a
inner_extension (a ∷ b ∷ c ∷ bs) = inner_extension (b ∷ c ∷ bs)

unfoldable pub has_double_extension : SpamPlatform → Bytes → Bool
unfolding skip_empty split is_dangerous_attachment contains inner_extension
has_double_extension p name =
    let n = p.lower_text (p.trim_text name) in
    let parts = skip_empty (split b'.' n) in
    if ltb (length parts) 3
    then false
    else is_dangerous_attachment p n && contains (inner_extension parts) documents

abbrev pub macros : List Bytes
macros =
    codes "docm" ∷ codes "xlsm" ∷ codes "pptm" ∷ codes "dotm" ∷ codes "xltm" ∷ codes "xlam" ∷ []

unfoldable pub is_macro_document : SpamPlatform → Bytes → Bool
unfolding has_extension
is_macro_document p name = has_extension p macros name

abbrev pub pages : List Bytes
pages =
    codes "html" ∷ codes "htm" ∷ codes "shtml" ∷ codes "xhtml" ∷ codes "svg" ∷ codes "mhtml" ∷ []
