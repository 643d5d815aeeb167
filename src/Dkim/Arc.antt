-- ===== src/Dkim/Arc.antt =====
-- The ARC chain (verifyArcChain). The parts of the function are functions of their own, in order:
-- collect_sets, check_complete, check_states, check_seals, check_message.
mod Collect
pub mod Sources
unfoldable pub use Collect.*
use mailove.Common.{
  ℕ, zero, suc, ◌-◌, Bool, true, false, not, ◌&&◌, ◌||◌, List, [], ◌∷◌, ◌++◌, Option, none, some,
  ◌==◌, leb, max, if◌then◌else◌, Bytes, ℤ, pos, negsuc, codes, crlf, is_empty, equal, chop,
  ends_with, to_lower, index_of, take, drop,
}
use mailove.Dkim.Platform.{Platform}
use mailove.Dkim.Tags.{TagList, parse_tag_list, tag_value, strip_wsp}
use mailove.Dkim.Canon.{header_relaxed}
use mailove.Dkim.Fields.{Field, split_fields}
use mailove.Dkim.Results.{
  DkimResult, DkimStatus, no_result, ArcResult, ArcStatus, no_arc, Detail, arc_bad_instance,
  arc_duplicate, arc_incomplete, arc_broken, arc_out_of_place, arc_unsupported, arc_missing_domain,
  arc_no_dns, arc_no_key, arc_revoked, arc_unusable_key, arc_seal_fails, arc_body_differs,
  arc_signature_fails, arc_intact,
}
use mailove.Dkim.Keys.{
  World, Verifier, KeyCache, public_key_record, load_public_key, verify_signature,
}
use mailove.Dkim.Prepare.{Signature, refused, prepared, prepare, strip_b_tag, is_supported}

-- Hops i, i + 1, … for the given number of rounds: each must hold all three headers.
unfoldable pub is_complete : ArcSet → Bool
is_complete s = s.have_aar && s.have_ams && s.have_seal

unfoldable pub check_complete : ArcResult → ArcSets → ℕ → ℕ → Checked (Unit {0})
unfolding is_complete set_at
check_complete out sets zero i = go_on tt
check_complete out sets (suc rounds) i =
    let rest = check_complete out sets rounds (suc i) in
    if is_complete (set_at i sets) then rest else stop (perm_error out (arc_incomplete i))

abbrev pub expected_state : ℕ → Bytes
expected_state i = if i == 1 then codes "none" else codes "pass"

abbrev pub chain_state : ArcSets → ℕ → Bytes
chain_state sets i = to_lower (tag_value (set_at i sets).seal_tags (codes "cv"))

unfoldable pub check_states : ArcResult → ArcSets → ℕ → ℕ → Checked (Unit {0})
check_states out sets zero i = go_on tt
check_states out sets (suc rounds) i =
    let rest = check_states out sets rounds (suc i) in
    let cv = chain_state sets i in
    if equal cv (codes "fail")
    then stop (record out { status = ArcStatus.fail; detail = arc_broken i })
    else if not (equal cv (expected_state i))
    then stop (perm_error out (arc_out_of_place i cv))
    else rest

-- What one seal adds, in the order results, signature, seal.
unfoldable pub relaxed_set : ArcSet → Bytes
relaxed_set s =
    header_relaxed s.aar.name s.aar.value
    ++ (header_relaxed s.ams.name s.ams.value ++ header_relaxed s.seal.name s.seal.value)

-- The key type and the key data of a record, or the early return.
pub record KeyText : Type 0 where
  pub key_type : Bytes
  pub key_data : Bytes

pub record Fetch : Type 0 where
  pub state : KeyState
  pub key : Checked KeyText

unfoldable pub key_type_of : TagList → Bytes
unfolding is_empty tag_value to_lower
key_type_of tags =
    if is_empty (tag_value tags (codes "k"))
    then codes "rsa"
    else to_lower (tag_value tags (codes "k"))

abbrev pub dns_name_of : Bytes → Bytes → Bytes
dns_name_of selector domain = selector ++ (codes "._domainkey." ++ domain)

unfoldable pub read_key : Bytes → ArcResult → Checked KeyText
read_key key_record err =
    let tags = parse_tag_list key_record in
    let key_data = strip_wsp (tag_value tags (codes "p")) in
    if is_empty key_data
    then stop (perm_error err arc_revoked)
    else go_on (record { key_type = key_type_of tags; key_data = key_data })

module _ (p : Platform) (w : World) where
  open p use {from_base64, lower_text}

  unfoldable pub fetch_key : KeyState → TagList → ArcResult → Fetch
  unfolding read_key
  fetch_key st tags err =
      let domain = lower_text (tag_value tags (codes "d")) in
      let selector = tag_value tags (codes "s") in
      let r = public_key_record w st.verifier (dns_name_of selector domain) st.cache in
      let after : KeyState = record { verifier = r.verifier; cache = r.cache } in
      if is_empty domain || is_empty selector
      then (record { state = st; key = stop (perm_error err arc_missing_domain) })
      else if is_empty r.key_record
      then (record {
        state = after;
        key =
            if r.temp_error
            then stop (record err { status = ArcStatus.temp_error; detail = arc_no_dns })
            else stop (perm_error err (arc_no_key domain));
      })
      else (record { state = after; key = read_key r.key_record err })

  -- The sealed bytes of hops i, i + 1, … with `rounds` hops before the last.
  unfoldable pub sealed_data : ArcSets → ℕ → ℕ → Bytes
  unfolding relaxed_set
  sealed_data sets zero i =
      let s = set_at i sets in
      let own = header_relaxed s.seal.name (strip_b_tag p s.seal.value) in
      header_relaxed s.aar.name s.aar.value
      ++ (header_relaxed s.ams.name s.ams.value ++ (if ends_with crlf own then chop 2 own else own))
  sealed_data sets (suc rounds) i = relaxed_set (set_at i sets) ++ sealed_data sets rounds (suc i)

  -- A fetched key that loads and verifies the signature in b=, or the early return.
  unfoldable pub check_signed : ArcResult → Bytes → TagList → Detail → KeyText → Checked (Unit {0})
  check_signed out signed tags why k =
      elim (load_public_key p (from_base64 k.key_data) k.key_type) [
        | none ↦ stop (perm_error out arc_unusable_key)
        | some key ↦
            if verify_signature p key k.key_type signed
              (from_base64 (strip_wsp (tag_value tags (codes "b"))))
            then go_on tt
            else stop (record out { status = ArcStatus.fail; detail = why })
      ]

  -- The seal of hop i.
  unfoldable pub check_seal : ArcResult → ArcSets → ℕ → KeyState → KeyState × Checked (Unit {0})
  unfolding fetch_key
  check_seal out sets i st =
      let tags = (set_at i sets).seal_tags in
      let algorithm = to_lower (tag_value tags (codes "a")) in
      let f = fetch_key st tags out in
      if not (is_supported algorithm)
      then (st, stop (perm_error out (arc_unsupported i algorithm)))
      else (
        f.state,
        f.key >>= check_signed out (sealed_data sets (i - 1) 1) tags (arc_seal_fails i),
      )

  unfoldable pub check_seals :
      ArcResult → ArcSets → ℕ → ℕ → KeyState → KeyState × Checked (Unit {0})
  check_seals out sets zero i st = (st, go_on tt)
  check_seals out sets (suc rounds) i st =
      let (after, checked) = check_seal out sets i st in
      elim checked [
        | stop r ↦ (after, stop r)
        | go_on u ↦ check_seals out sets rounds (suc i) after
      ]

-- The two halves of c=, header/body.
unfoldable pub header_canon_of : Bytes → Bytes
unfolding is_empty index_of
header_canon_of canon =
    if is_empty canon
    then codes "simple"
    else elim (index_of b'/' canon) [ none ↦ canon | some slash ↦ take slash canon ]

unfoldable pub body_canon_of : Bytes → Bytes
unfolding is_empty index_of
body_canon_of canon =
    if is_empty canon
    then codes "simple"
    else elim (index_of b'/' canon) [ none ↦ codes "simple" | some slash ↦ drop (suc slash) canon ]

-- A signature from the field that holds it.
unfoldable pub read_signature : Field → Signature
unfolding header_canon_of body_canon_of
read_signature f =
    let tags = parse_tag_list f.value in
    let canon = to_lower (tag_value tags (codes "c")) in
    record {
      tags = tags;
      raw_name = f.name;
      raw_value = f.value;
      raw_field = f.raw;
      header_canon = header_canon_of canon;
      body_canon = body_canon_of canon;
    }

abbrev is_body_mismatch : DkimStatus → Bool
is_body_mismatch DkimStatus.body_mismatch = true
is_body_mismatch s = false

-- prepare failed for the newest message signature.
unfoldable pub unprepared : ArcResult → DkimResult → ArcResult
unprepared out r =
    if is_body_mismatch r.status
    then record out { status = ArcStatus.seals_only; detail = arc_body_differs out.sealer }
    else perm_error out r.detail

abbrev outcome : ArcResult → Checked (Unit {0}) → ArcResult
outcome out (stop r) = r
outcome out (go_on u) = record out {
  status = ArcStatus.pass;
  detail = arc_intact out.sets out.sealer;
}

module _ (p : Platform) (w : World) where
  -- The newest message signature, behind the seals.
  unfoldable pub check_message :
      Bytes → Bytes → ArcResult → Signature → KeyState → KeyState × ArcResult
  unfolding unprepared
  check_message head body out ams st = elim (prepare p head body ams no_result) [
    | refused r ↦ (st, unprepared out r)
    | prepared signed r ↦
        let f = fetch_key p w st ams.tags out in
        (
          f.state,
          outcome out
              (f.key >>= check_signed p w out signed ams.tags (arc_signature_fails out.sealer)),
        )
  ]

  -- The part of the function behind the loop over the fields.
  unfoldable pub verify_sets : Bytes → Bytes → ArcSets → KeyState → KeyState × ArcResult
  unfolding newest
  verify_sets head body sets st =
      let hops = newest sets in
      let counted : ArcResult = record no_arc { sets = hops } in
      let out = record counted {
        sealer = p.lower_text (tag_value (set_at hops sets).seal_tags (codes "d"));
      } in
      elim (check_complete counted sets hops 1) [
        | stop r ↦ (st, r)
        | go_on u ↦ elim (check_states out sets hops 1) [
          | stop r ↦ (st, r)
          | go_on v ↦
              let (after, sealed) = check_seals p w out sets hops 1 st in
              elim sealed [
                | stop r ↦ (after, r)
                | go_on x ↦
                    check_message head body out (read_signature (set_at hops sets).ams) after
              ]
        ]
      ]

  abbrev verify_collected : Bytes → Bytes → KeyState → Checked ArcSets → KeyState × ArcResult
  verify_collected head body st (stop r) = (st, r)
  verify_collected head body st (go_on []) = (st, no_arc)
  verify_collected head body st (go_on (s ∷ sets)) = verify_sets head body (s ∷ sets) st

  unfoldable pub verify_arc_chain : Bytes → Bytes → KeyState → KeyState × ArcResult
  verify_arc_chain head body st =
      verify_collected head body st (collect_sets p (split_fields head) [])
