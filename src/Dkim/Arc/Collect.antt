-- ===== src/Dkim/Arc/Collect.antt =====
-- The first loop of verifyArcChain: the headers of each hop.
use mailove.Common.{
  ℕ, Bool, true, false, ◌&&◌, List, [], ◌∷◌, Option, none, some, ◌==◌, leb, max, if◌then◌else◌,
  Bytes, ℤ, pos, negsuc, codes, equal, to_lower,
}
use mailove.Dkim.Platform.{Platform}
use mailove.Dkim.Tags.{TagList, parse_tag_list, tag_value}
use mailove.Dkim.Fields.{Field}
use mailove.Dkim.Results.{ArcResult, ArcStatus, no_arc, Detail, arc_bad_instance, arc_duplicate}
use mailove.Dkim.Keys.{Verifier, KeyCache}

-- The verifier and the keys of this message.
pub record KeyState : Type 0 where
  pub verifier : Verifier
  pub cache : KeyCache

pub record ArcSet : Type 0 where
  pub aar : Field
  pub ams : Field
  pub seal : Field
  pub seal_tags : TagList
  pub have_aar : Bool
  pub have_ams : Bool
  pub have_seal : Bool

abbrev no_field : Field
no_field = record { name = []; value = []; raw = []; used = false }

abbrev pub empty_set : ArcSet
empty_set = record {
  aar = no_field;
  ams = no_field;
  seal = no_field;
  seal_tags = [];
  have_aar = false;
  have_ams = false;
  have_seal = false;
}

-- QMap<int, ArcSet>: operator[] gives a missing hop an empty set.
abbrev pub ArcSets : Type 0
ArcSets = List (ℕ × ArcSet)

unfoldable pub set_at : ℕ → ArcSets → ArcSet
set_at i [] = empty_set
set_at i ((j, s) ∷ sets) = if j == i then s else set_at i sets

unfoldable pub put_set : ℕ → ArcSet → ArcSets → ArcSets
put_set i t [] = (i, t) ∷ []
put_set i t ((j, s) ∷ sets) = if j == i then (i, t) ∷ sets else (j, s) ∷ put_set i t sets

-- lastKey
unfoldable pub newest : ArcSets → ℕ
newest [] = 0
newest ((i, s) ∷ sets) = max i (newest sets)

pub data ArcHeader : Type 0 where
  results signature seal : ArcHeader

unfoldable pub arc_header : Bytes → Option ArcHeader
unfolding equal
arc_header name =
    if equal name (codes "arc-authentication-results")
    then some results
    else if equal name (codes "arc-message-signature")
    then some signature
    else if equal name (codes "arc-seal")
    then some seal
    else none

unfoldable pub has_header : ArcHeader → ArcSet → Bool
has_header results s = s.have_aar
has_header signature s = s.have_ams
has_header seal s = s.have_seal

unfoldable pub add_header : ArcHeader → Field → TagList → ArcSet → ArcSet
add_header results f tags s = record s { aar = f; have_aar = true }
add_header signature f tags s = record s { ams = f; have_ams = true }
add_header seal f tags s = record s { seal = f; seal_tags = tags; have_seal = true }

-- ok && 1 <= instance <= 50
unfoldable pub usable_instance : Option ℤ → Option ℕ
usable_instance none = none
usable_instance (some (negsuc n)) = none
usable_instance (some (pos n)) = if leb 1 n && leb n 50 then some n else none

-- An early return of the whole function, or what the next part works on.
pub data Checked {ℓ} (A : Type ℓ) : Type ℓ where
  stop : ArcResult → Checked A
  go_on : A → Checked A

infixl 5 ◌>>=◌
abbrev pub ◌>>=◌ {ℓ κ} : {A : Type ℓ} {B : Type κ} → Checked A → (A → Checked B) → Checked B
stop r >>= f = stop r
go_on a >>= f = f a

abbrev pub perm_error : ArcResult → Detail → ArcResult
perm_error out why = record out { status = ArcStatus.perm_error; detail = why }

unfoldable pub add_to_set : ArcHeader → Field → TagList → Option ℕ → ArcSets → Checked ArcSets
unfolding set_at put_set has_header add_header
add_to_set kind f tags none sets = stop (perm_error no_arc arc_bad_instance)
add_to_set kind f tags (some i) sets =
    if has_header kind (set_at i sets)
    then stop (perm_error no_arc (arc_duplicate i))
    else go_on (put_set i (add_header kind f tags (set_at i sets)) sets)

module _ (p : Platform) where
  open p use {to_int, from_base64, lower_text}

  -- One field of the first loop.
  unfoldable pub collect_field : Field → ArcSets → Checked ArcSets
  unfolding arc_header add_to_set to_lower parse_tag_list tag_value usable_instance
  collect_field f sets = elim (arc_header (to_lower f.name)) [
    | none ↦ go_on sets
    | some kind ↦
        let tags = parse_tag_list f.value in
        add_to_set kind f tags (usable_instance (to_int (tag_value tags (codes "i")))) sets
  ]

  unfoldable pub collect_sets : List Field → ArcSets → Checked ArcSets
  unfolding collect_field
  collect_sets [] sets = go_on sets
  collect_sets (f ∷ fields) sets = collect_field f sets >>= λ more. collect_sets fields more
