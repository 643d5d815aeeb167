-- ===== src/Dkim/Arc/Sources.antt =====
-- The ARC chain leaves only key records in the caches that were given for their names.
use mailove.Common.{
  ℕ, zero, suc, ◌||◌, [], ◌∷◌, Bytes, codes, is_empty, to_lower, Bool-cases, inl, inr,
}
use mailove.Dkim.Platform.{Platform}
use mailove.Dkim.Tags.{TagList, tag_value}
use mailove.Dkim.Fields.{split_fields}
use mailove.Dkim.Results.{ArcResult, no_result, no_arc}
use mailove.Dkim.Keys.{World, public_key_record}
use mailove.Dkim.Keys.Sources.{Sourced, public_key_record-Sources}
use mailove.Dkim.Prepare.{Signature, prepare, is_supported}
use mailove.Dkim.Prepare.Laws.{Prepared-cases}
use mailove.Dkim.Arc.{
  KeyState, ArcSets, Checked, stop, go_on, set_at, newest, collect_sets, dns_name_of, fetch_key,
  check_complete, check_states, check_seal, check_seals, check_message, read_signature, verify_sets,
  verify_collected, verify_arc_chain,
}

abbrev pub Sound : World → KeyState → Type 0
Sound w st = Sourced w st.verifier st.cache

module _ (p : Platform) (w : World) where
  fetch_key-Sound :
      (st : KeyState) (tags : TagList) (err : ArcResult)
      → Sound w st
      → Sound w (fetch_key p w st tags err).state
  unfolding fetch_key
  fetch_key-Sound st tags err s =
      let domain = p.lower_text (tag_value tags (codes "d")) in
      let selector = tag_value tags (codes "s") in
      let name = dns_name_of selector domain in
      let r = public_key_record w st.verifier name st.cache in
      let kept = (public_key_record-Sources w name st.verifier st.cache s).0 in
      elim (Bool-cases (is_empty domain || is_empty selector)) [
        | inl e ↦ rw e s
        | inr e ↦ elim (Bool-cases (is_empty r.key_record)) [
          | inl q ↦ rw (e, q) kept
          | inr q ↦ rw (e, q) kept
        ]
      ]

  check_seal-Sound :
      (out : ArcResult) (sets : ArcSets) (i : ℕ) (st : KeyState)
      → Sound w st
      → Sound w (check_seal p w out sets i st).0
  unfolding check_seal
  check_seal-Sound out sets i st s =
      let tags = (set_at i sets).seal_tags in
      elim (Bool-cases (is_supported (to_lower (tag_value tags (codes "a"))))) [
        | inl e ↦ rw e (fetch_key-Sound st tags out s)
        | inr e ↦ rw e s
      ]

  -- An early return, or what follows.
  Checked-Sound :
      {A B : Type 0} (checked : Checked A) (early : ArcResult → KeyState × B)
      (next : A → KeyState × B)
      → ((r : ArcResult) → Sound w (early r).0)
      → ((a : A) → Sound w (next a).0)
      → Sound w (elim checked as (λ c. KeyState × B) [ stop r ↦ early r | go_on a ↦ next a ]).0
  Checked-Sound (stop r) early next e n = e r
  Checked-Sound (go_on a) early next e n = n a

  check_seals-Sound :
      (out : ArcResult) (sets : ArcSets) (rounds i : ℕ) (st : KeyState)
      → Sound w st
      → Sound w (check_seals p w out sets rounds i st).0
  unfolding check_seals
  check_seals-Sound out sets zero i st s = s
  check_seals-Sound out sets (suc rounds) i st s =
      let (after, checked) = check_seal p w out sets i st in
      let kept = check_seal-Sound out sets i st s in
      Checked-Sound checked (λ r. (after, stop r))
        (λ u. check_seals p w out sets rounds (suc i) after) (λ r. kept)
        (λ u. check_seals-Sound out sets rounds (suc i) after kept)

  check_message-Sound :
      (head body : Bytes) (out : ArcResult) (ams : Signature) (st : KeyState)
      → Sound w st
      → Sound w (check_message p w head body out ams st).0
  unfolding check_message
  check_message-Sound head body out ams st s =
      elim (Prepared-cases (prepare p head body ams no_result)) [
        | inl (r, q) ↦ rw (check_message, q) s
        | inr (signed, r, q) ↦ rw (check_message, q) (fetch_key-Sound st ams.tags out s)
      ]

  pub verify_sets-Sound :
      (head body : Bytes) (sets : ArcSets) (st : KeyState)
      → Sound w st
      → Sound w (verify_sets p w head body sets st).0
  unfolding verify_sets
  verify_sets-Sound head body sets st s =
      let hops = newest sets in
      let counted : ArcResult = record no_arc { sets = hops } in
      let out = record counted {
        sealer = p.lower_text (tag_value (set_at hops sets).seal_tags (codes "d"));
      } in
      let sealed = check_seals p w out sets hops 1 st in
      let kept = check_seals-Sound out sets hops 1 st s in
      let ams = read_signature (set_at hops sets).ams in
      let message : KeyState × ArcResult = elim sealed.1 [
        | stop r ↦ (sealed.0, r)
        | go_on x ↦ check_message p w head body out ams sealed.0
      ] in
      Checked-Sound (check_complete counted sets hops 1) (λ r. (st, r))
        (λ u. elim (check_states out sets hops 1) [ stop r ↦ (st, r) | go_on v ↦ message ]) (λ r. s)
        (λ u.
          Checked-Sound (check_states out sets hops 1) (λ r. (st, r)) (λ v. message) (λ r. s)
            (λ v.
              Checked-Sound sealed.1 (λ r. (sealed.0, r))
                (λ x. check_message p w head body out ams sealed.0) (λ r. kept)
                (λ x. check_message-Sound head body out ams sealed.0 kept)))

  pub verify_arc_chain-Sound :
      (head body : Bytes) (st : KeyState)
      → Sound w st
      → Sound w (verify_arc_chain p w head body st).0
  unfolding verify_arc_chain
  verify_arc_chain-Sound head body st s = go (collect_sets p (split_fields head) [])
    where
      go : (c : Checked ArcSets) → Sound w (verify_collected p w head body st c).0
      go (stop r) = s
      go (go_on []) = s
      go (go_on (x ∷ sets)) = verify_sets-Sound head body (x ∷ sets) st s
