-- ===== src/Dkim/Results.antt =====
-- The verdicts of a verification (DkimResult, ArcResult, moreInformative).
pub mod Order
use mailove.Common.{ℕ, Bool, true, false, not, ◌&&◌, List, [], Bytes, if◌then◌else◌, ltb, ◌==◌}

-- The short human-readable reason, with what the code puts into the text.
pub data Detail : Type 0 where
  nothing : Detail
  no_separator obsolete_algorithm body_changed from_not_covered : Detail
  signed_prefix : Bytes → Detail
  missing_domain no_dns revoked unusable_key does_not_match : Detail
  no_key_published signed_by : Bytes → Detail
  signed_by_other : Bytes → Bytes → Detail
  arc_bad_instance : Detail
  arc_duplicate arc_incomplete arc_broken arc_seal_fails : ℕ → Detail
  arc_out_of_place arc_unsupported : ℕ → Bytes → Detail
  arc_missing_domain arc_no_dns arc_revoked arc_unusable_key : Detail
  arc_no_key arc_body_differs arc_signature_fails : Bytes → Detail
  arc_intact : ℕ → Bytes → Detail

unfoldable pub is_nothing : Detail → Bool
is_nothing nothing = true
is_nothing d = false

pub data ArcStatus : Type 0 where
  none pass seals_only fail temp_error perm_error : ArcStatus

pub record ArcResult : Type 0 where
  pub status : ArcStatus
  pub sealer : Bytes
  pub sets : ℕ
  pub detail : Detail

abbrev pub no_arc : ArcResult
no_arc = record { status = ArcStatus.none; sealer = []; sets = 0; detail = nothing }

pub data DkimStatus : Type 0 where
  none pass fail temp_error perm_error unsupported body_mismatch : DkimStatus

pub record DkimResult : Type 0 where
  pub status : DkimStatus
  pub domain : Bytes
  pub selector : Bytes
  pub aligned : Bool
  pub body_truncated : Bool
  pub detail : Detail
  pub arc : ArcResult

abbrev pub no_result : DkimResult
no_result = record {
  status = DkimStatus.none;
  domain = [];
  selector = [];
  aligned = false;
  body_truncated = false;
  detail = nothing;
  arc = no_arc;
}

abbrev pub is_pass : DkimStatus → Bool
is_pass DkimStatus.pass = true
is_pass s = false

unfoldable pub trustworthy : DkimResult → Bool
trustworthy r = is_pass r.status && r.aligned && not r.body_truncated

unfoldable pub rank : DkimStatus → ℕ
rank DkimStatus.pass = 0
rank DkimStatus.body_mismatch = 1
rank DkimStatus.fail = 2
rank DkimStatus.unsupported = 3
rank DkimStatus.perm_error = 4
rank DkimStatus.temp_error = 5
rank DkimStatus.none = 6

unfoldable pub more_informative : DkimResult → DkimResult → Bool
unfolding rank
more_informative candidate current =
    let a = rank candidate.status in
    let b = rank current.status in
    if not (a == b) then ltb a b else candidate.aligned && not current.aligned
