-- ===== src/Lib.antt =====
-- mailove, a mail client: the parts that judge a message's origin and score it as spam, the list of
-- messages and the folder tree, the writer of message bodies, the JMAP transport, and the check for
-- updates.
--
-- The program is a Qt application. src/dkimverifier.cpp verifies the DKIM signatures and the ARC
-- chain of a message that the user opens; src/publicsuffixlist.cpp tells it which part of a domain
-- is its owner's. A verdict goes to the badge that the reader sees. src/spamheuristics.cpp scores a
-- message from its header; the list shows the verdict. Bodies that are fetched wait in a queue for a
-- thread that writes them, which src/maintenancescheduler.cpp pauses while it compacts the cache. With
-- a JMAP server, src/jmapsession.cpp finds where an account's credentials may go, and
-- src/jmaprequest.cpp sends batches of method calls there.
--
-- Common: lists, byte strings (QByteArray, QString as code units), maps, Boolean tests.
-- PublicSuffix: src/publicsuffixlist.cpp. `PublicSuffixList` holds the three sets of rules,
--   `set_rules_from_data` is setRulesFromData, `organizational_domain` organizationalDomain.
-- Dkim.Tags, Dkim.Canon, Dkim.Fields: parseTagList and tagValue, namespace DkimCanon, splitFields.
-- Dkim.Results: DkimResult, ArcResult, moreInformative. A text for the reader is a `Detail`, with
--   what the code puts into the sentence.
-- Dkim.Platform: what is called in OpenSSL and Qt (keys, digests, base64, number parsing, lower
--   case of a QString, the regular expression engine), a parameter.
-- Dkim.Align: domainsAligned. Dkim.Keys: lookupDkimKey behind the resolver's answer,
--   publicKeyRecord with both caches, loadPublicKey, verifySignature. The clock and the resolver
--   are functions of the number of requests made, so both may change between two requests.
--   Dkim.Keys.Sources and Dkim.Arc.Sources say where the records in the caches come from.
-- Dkim.Prepare: prepare. Dkim.Arc: verifyArcChain, one function for each of its loops (the first
--   in Dkim.Arc.Collect), an early return as `stop`. Dkim.Verify: verify; the call of finished() is the result.
--   Dkim.Verify.Sound runs it on one message after another, with one verifier and a new message cache
--   for each.
-- UpdateCheck: src/updatecheck.cpp. `check` is check, with whether a request goes out; `finish`
--   is finished, with whether changed() is emitted; `open_check` is the constructor. QUrl and the
--   text functions of Qt are the parameter `UpdatePlatform`.
-- SpamHeuristics: src/spamheuristics.cpp. The module itself reads an Authentication-Results value
--   (a loop over characters is a step function on its local variables), SpamHeuristics.Fields the
--   header fields and readUpstream, SpamHeuristics.Mailbox addresses. In SpamHeuristics.Scoring
--   each rule of score is a function from Score to Score, `score_sender` the rules from the first
--   to OpenPGP, and `set_verdict` the end; SpamHeuristics.Header and SpamHeuristics.Content have the
--   rules behind them up to the attachments, given the decoded From and subject, and `score_head`,
--   the whole of score for a message without text and HTML, as in the list. In
--   SpamHeuristics.Linking, `score_links` is the capped group, given the calls of linkHit. The texts
--   for the reader are left out of a hit. Regular expressions, lower case, trimming and
--   QString::toDouble are the parameter `SpamPlatform`, scripts, dates and QUrl::fromAce the
--   parameter `TextPlatform`.
-- MaintenanceScheduler: src/maintenancescheduler.cpp, the writer of bodies and the compaction.
--   `phase_step` is one step of runBodyWriter, with the lock held where the code holds it; the
--   handlers of the user interface have their names. `Runs` puts all of them in any order. Writing
--   a batch appends it to `written`, and what externalizeAttachments does to a body is a parameter.
--   A join is four steps of the writer, and a timer is a step that may happen.
-- Jmap: src/jmapsession.cpp and src/jmaprequest.cpp. `Json` is a QJsonValue, `UrlPlatform` what is
--   called in QUrl and Qt. Jmap.Session and Jmap.Ingest read a session object (ingest),
--   Jmap.Discovery has the operations of a session with the signals that they emit, Jmap.Templates
--   expandTemplate, Jmap.Request the batch and its answer, Jmap.Sending send, post, handleReply and finish: a
--   `Turn` is the request and its session after an event, with the POSTs and the calls of the
--   callback. The handlers that a 401 connects to the session's signals are counted. A
--   request has a session, and a reply that a later POST of the same request replaces is not heard.
-- FolderModel: src/foldermodel.cpp. `visible_from` is the loop of rebuildVisible, `hidden_from` that
--   of recomputeHiddenUnread, and each operation of the model has its name. The collapsed folders
--   that the settings hold for an account are an argument of `set_account_key`; signals to the view
--   and the write of the settings are left out.
-- MessageListModel: src/messagelistmodel.cpp. The state with lessThan, visibleRowOf and
--   rebuildVisible; MessageListModel.Append is appendHeaders, MessageListModel.Changes the other
--   operations. A row is an index, a row of -1 is none. std::stable_sort and std::sort are the
--   insertion sort of Common.Rows, std::lower_bound and std::upper_bound count the elements in front
--   of the bound, which is what they find in sorted rows. The map by uid is a function.
--   MessageListModel.Steps lists the operations whose runs its theorems are about; clearSpamFrom is
--   not modelled, and removeByUids, setAttachKind and the refresh of a listed header are no steps.
-- Tests: runs at fixed inputs, and the theorems at inputs.
--
-- State is passed on explicitly: the verifier with its DNS cache, and the cache of one message.
-- A `while (x.endsWith(…)) x.chop(…)` runs on the length of x as fuel, which is enough since each
-- round makes x shorter. The loop of expandTemplate has the length of its text and one as fuel, each
-- round takes two characters at least. All other loops are structural.
--
-- Not modelled: the rest of the application (storage, backends, synchronisation, the display of
-- HTML, user interface), the download of
-- the suffix list and its timer, the DNS query itself, the rules of the spam score on the body of a
-- message, the other threads of the scheduler and its end. Times and lengths are unbounded numbers.
pub mod Common
pub mod Dkim
pub mod FolderModel
pub mod Jmap
pub mod MaintenanceScheduler
pub mod MessageListModel
pub mod PublicSuffix
pub mod SpamHeuristics
pub mod Tests
pub mod UpdateCheck
