-- ===== src/UpdateCheck/Answers.antt =====
-- What the marker shows, and what an answer leaves behind (check, finished, the constructor).
use mailove.Common.{
  ℕ, zero, suc, ◌+◌, ◌*◌, ◌<◌, Bool, true, false, List, [], ◌∷◌, ◌≡◌, refl, sym, ap, subst, ◌∙◌,
  ◌⊎◌, Bytes, pos, codes, arith, split, equal_iff, is_empty, inl, inr, split_cons,
}
use mailove.UpdateCheck.{
  UpdatePlatform, UpdateConfig, UpdateState, Settings, Reply, is_version, drop_v, all_parts,
  is_digit, is_forced, running_version, is_newer, version_from_tag, tag_from_location, open_check,
  check, finish, take_version, is_gated, is_redirect, floor_of, hours_to_seconds, is_within,
  is_positive,
}

abbrev pub Justified : UpdatePlatform → UpdateConfig → Bytes → Type 0
Justified p cfg b = (b ≡ []) ⊎ ((is_version b ≡ true) × (is_newer p b (running_version cfg) ≡ true))

-- What a run of the program makes of the object: it is opened, asked, and answered.
pub data Reachable (p : UpdatePlatform) (cfg : UpdateConfig) : UpdateState → Type 0 where
  opened : (s : Settings) → Reachable p cfg (open_check p cfg s)
  asked :
      {st : UpdateState} (user_asked : Bool) (now : ℕ)
      → Reachable p cfg st
      → Reachable p cfg (check p cfg user_asked now st).0
  answered :
      {st : UpdateState} (now : ℕ) (reply : Reply)
      → Reachable p cfg st
      → Reachable p cfg (finish p cfg now reply st).0

first_digit :
    (c : ℕ) (parts : List Bytes) → all_parts (split_cons c parts) ≡ true → is_digit c ≡ true
unfolding all_parts split_cons
first_digit c [] h = ground arith
first_digit c (b ∷ parts) h = ground arith

is_version-nonempty : (b : Bytes) → is_version b ≡ true → is_empty b ≡ false
unfolding is_version is_empty
is_version-nonempty [] h = ground arith
is_version-nonempty (c ∷ cs) h = refl

is_version-drop_v : (b : Bytes) → is_version b ≡ true → drop_v b ≡ b
unfolding is_version split drop_v is_digit
is_version-drop_v [] h = refl
is_version-drop_v (c ∷ cs) h = ground (arith, first_digit c (split b'.' cs))

module _ (p : UpdatePlatform) (cfg : UpdateConfig) where
  version_from_tag-is_version :
      (t : Bytes)
      → is_empty (version_from_tag p t) ≡ false
      → is_version (version_from_tag p t) ≡ true
  unfolding version_from_tag
  version_from_tag-is_version t h = ground arith

  open_check-Justified : (s : Settings) → Justified p cfg (open_check p cfg s).latest
  unfolding open_check
  open_check-Justified s = ground (arith, version_from_tag-is_version s.latest_seen)

  check-latest :
      (user_asked : Bool) (now : ℕ) (st : UpdateState)
      → (check p cfg user_asked now st).0.latest ≡ st.latest
  unfolding check
  check-latest user_asked now st = ground arith

  take_version-Justified :
      (v : Bytes) (st : UpdateState)
      → is_version v ≡ true
      → Justified p cfg (take_version p cfg v st).0.latest
  unfolding take_version
  take_version-Justified v st h = ground arith

  finish-Justified :
      (now : ℕ) (reply : Reply) (st : UpdateState)
      → Justified p cfg st.latest
      → Justified p cfg (finish p cfg now reply st).0.latest
  unfolding finish
  finish-Justified now reply st j =
      let tag = tag_from_location p reply.location reply.url.host in
      ground
        (arith, version_from_tag-is_version tag, take_version-Justified (version_from_tag p tag) st)

  -- Whatever was asked and answered since the object was opened, the marker is off or shows a
  -- well-formed version that is newer than the one that runs.
  pub Reachable-Justified : (st : UpdateState) → Reachable p cfg st → Justified p cfg st.latest
  Reachable-Justified st (opened s) = open_check-Justified s
  Reachable-Justified st (asked {st = prior} user_asked now r) =
      rw (check-latest user_asked now prior) (Reachable-Justified prior r)
  Reachable-Justified st (answered {st = prior} now reply r) =
      finish-Justified now reply prior (Reachable-Justified prior r)

  -- A request is sent only while none is on its way, the check is on, the address is valid and
  -- https, and the gate is open; and it is on its way then.
  pub check-sent :
      (user_asked : Bool) (now : ℕ) (st : UpdateState)
      → (check p cfg user_asked now st).1 ≡ true
      → (st.in_flight ≡ false)
        × ((check p cfg user_asked now st).0.in_flight ≡ true)
        × (cfg.check_enabled ≡ true)
        × ((p.parse_url cfg.check_url).scheme ≡ codes "https")
        × (is_gated cfg st.settings user_asked now ≡ false)
  unfolding check
  check-sent user_asked now st h =
      ground (arith, equal_iff (p.parse_url cfg.check_url).scheme (codes "https"))

  -- A run with a forced version writes no setting, whatever is asked or answered.
  pub forced-settings :
      (user_asked : Bool) (now : ℕ) (reply : Reply) (st : UpdateState)
      → is_forced cfg ≡ true
      → ((check p cfg user_asked now st).0.settings ≡ st.settings)
        × ((finish p cfg now reply st).0.settings ≡ st.settings)
  unfolding check finish take_version
  forced-settings user_asked now reply st h = ground arith

  finish-stamped :
      (now : ℕ) (reply : Reply) (st : UpdateState)
      → is_forced cfg ≡ false
      → reply.failed ≡ false
      → ((finish p cfg now reply st).0.settings.last_check ≡ pos now)
        × ((finish p cfg now reply st).0.settings.checked_version ≡ running_version cfg)
  unfolding finish take_version
  finish-stamped now reply st unforced completed = ground arith

  is_gated-stamped :
      (now later hours : ℕ) (s : Settings)
      → is_forced cfg ≡ false
      → cfg.interval_hours ≡ pos hours
      → s.last_check ≡ pos now
      → s.checked_version ≡ running_version cfg
      → 0 < now
      → later < now + 3600 * hours
      → is_gated cfg s false later ≡ true
  unfolding is_gated floor_of hours_to_seconds is_within is_positive
  is_gated-stamped zero later hours s unforced h e v positive soon = elim positive [ ]
  is_gated-stamped (suc now) later hours s unforced h e v positive soon =
      rw e (rw h (ground (arith, equal_iff s.checked_version (running_version cfg))))

  check-gated :
      (user_asked : Bool) (now : ℕ) (st : UpdateState)
      → is_gated cfg st.settings user_asked now ≡ true
      → check p cfg user_asked now st ≡ (st, false)
  unfolding check
  check-gated user_asked now st h = ground arith

  -- A completed answer closes the gate: a check that the user did not ask for sends no request and
  -- changes nothing until the interval has passed, unless the version is forced.
  pub check-finish :
      (now later hours : ℕ) (reply : Reply) (st : UpdateState)
      → is_forced cfg ≡ false
      → reply.failed ≡ false
      → cfg.interval_hours ≡ pos hours
      → 0 < now
      → later < now + 3600 * hours
      → check p cfg false later (finish p cfg now reply st).0
        ≡ ((finish p cfg now reply st).0, false)
  check-finish now later hours reply st unforced completed h positive soon =
      let (e, v) = finish-stamped now reply st unforced completed in
      let after = (finish p cfg now reply st).0 in
      check-gated false later after
        (is_gated-stamped now later hours after.settings unforced h e v positive soon)

  take_version-seen :
      (v : Bytes) (st : UpdateState)
      → is_forced cfg ≡ false
      → (take_version p cfg v st).0.settings.latest_seen ≡ (take_version p cfg v st).0.latest
  unfolding take_version
  take_version-seen v st h = ground arith

  finish-seen :
      (now : ℕ) (reply : Reply) (st : UpdateState)
      → is_forced cfg ≡ false
      → reply.failed ≡ false
      → is_redirect reply.status ≡ true
      → is_empty (version_from_tag p (tag_from_location p reply.location reply.url.host)) ≡ false
      → (finish p cfg now reply st).0.settings.latest_seen ≡ (finish p cfg now reply st).0.latest
  unfolding finish take_version
  finish-seen now reply st unforced completed redirect named = ground arith

  version_from_tag-nil : p.trim_text [] ≡ [] → version_from_tag p [] ≡ []
  unfolding version_from_tag
  version_from_tag-nil e = rw e refl

  version_from_tag_idem :
      (v : Bytes) → p.trim_text v ≡ v → (v ≡ []) ⊎ (is_version v ≡ true) → version_from_tag p v ≡ v
  unfolding version_from_tag
  version_from_tag_idem v e (inl h) =
      ap (version_from_tag p) h
      ∙ (version_from_tag-nil (subst (λ b. p.trim_text b ≡ b) h e) ∙ sym h)
  version_from_tag_idem v e (inr h) = rw e (rw (is_version-drop_v v h) (rw h refl))

  Justified-shape : (b : Bytes) → Justified p cfg b → (b ≡ []) ⊎ (is_version b ≡ true)
  Justified-shape b (inl h) = inl h
  Justified-shape b (inr (h, k)) = inr h

  open_check-seen :
      (s : Settings)
      → p.trim_text s.latest_seen ≡ s.latest_seen
      → Justified p cfg s.latest_seen
      → (open_check p cfg s).latest ≡ s.latest_seen
  unfolding open_check is_empty
  open_check-seen s e (inl h) = ground (arith, version_from_tag_idem s.latest_seen e (inl h))
  open_check-seen s e (inr (h, k)) =
      ground
        (arith, version_from_tag_idem s.latest_seen e (inr h), is_version-nonempty s.latest_seen h)

  finish-named :
      (now : ℕ) (reply : Reply) (st : UpdateState)
      → reply.failed ≡ false
      → is_redirect reply.status ≡ true
      → is_empty (version_from_tag p (tag_from_location p reply.location reply.url.host)) ≡ false
      → Justified p cfg (finish p cfg now reply st).0.latest
  unfolding finish
  finish-named now reply st completed redirect named =
      let tag = tag_from_location p reply.location reply.url.host in
      ground
        (arith, version_from_tag-is_version tag, take_version-Justified (version_from_tag p tag) st)

  -- What an answer with a version leaves in the settings shows the same marker at the next start,
  -- unless the version is forced; trimming is assumed to leave a version and an empty text alone.
  pub open_check-finish :
      (now : ℕ) (reply : Reply) (st : UpdateState)
      → ((b : Bytes) → (b ≡ []) ⊎ (is_version b ≡ true) → p.trim_text b ≡ b)
      → is_forced cfg ≡ false
      → reply.failed ≡ false
      → is_redirect reply.status ≡ true
      → is_empty (version_from_tag p (tag_from_location p reply.location reply.url.host)) ≡ false
      → (open_check p cfg (finish p cfg now reply st).0.settings).latest
        ≡ (finish p cfg now reply st).0.latest
  open_check-finish now reply st trims unforced completed redirect named =
      let after = (finish p cfg now reply st).0 in
      let e = finish-seen now reply st unforced completed redirect named in
      let j =
        subst (Justified p cfg) (sym e) (finish-named now reply st completed redirect named) in
      open_check-seen after.settings
        (trims after.settings.latest_seen (Justified-shape after.settings.latest_seen j)) j
      ∙ e
