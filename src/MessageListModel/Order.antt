-- ===== src/MessageListModel/Order.antt =====
-- lessThan is a total order on headers with different uids, for each column and direction.
use mailove.Common.{
  Bool, true, false, ◌||◌, ◌≡◌, refl, sym, ap, subst, ◌∙◌, ◌≢◌, ℤ, less_int, equal_int_iff,
  less_int_asymm, less_int_trans, less_int_total, arith, if◌then◌else◌,
}
use mailove.Common.Texts.{less_text, less_text_asymm, less_text_trans, less_text_total}
use mathlib.Core.Path.{fun_ext}
use mailove.MessageListModel.{
  Header, SortColumn, by_date, by_sender, by_subject, by_attachment, compare_by, less_than, Sign,
  kind_has_attachment, bool_less,
}

-- A test that orders values up to equality.
pub record IsOrder {ℓ} {K : Type ℓ} (less : K → K → Bool) : Type ℓ where
  pub asymm : (x y : K) → less x y ≡ true → less y x ≡ false
  pub trans : (x y z : K) → less x y ≡ true → less y z ≡ true → less x z ≡ true
  pub total : (x y : K) → less x y ≡ false → less y x ≡ false → x ≡ y

-- What a comparison of headers is: a sign that turns round with its arguments, and orders classes
-- of level headers.
pub record IsComparison (f : Header → Header → Sign) : Type 0 where
  pub swap : (a b : Header) → (f b a).0 ≡ (f a b).1
  pub one_way : (a b : Header) → (f a b).0 ≡ true → (f a b).1 ≡ false
  pub trans : (a b c : Header) → (f a b).0 ≡ true → (f b c).0 ≡ true → (f a c).0 ≡ true
  pub level_before :
      (a b c : Header) → (f a b).0 ≡ false → (f a b).1 ≡ false → (f b c).0 ≡ (f a c).0
  pub before_level :
      (a b c : Header) → (f b c).0 ≡ false → (f b c).1 ≡ false → (f a b).0 ≡ (f a c).0

abbrev pub by_key {ℓ} : {K : Type ℓ} → (K → K → Bool) → (Header → K) → Header → Header → Sign
by_key less key a b = (less (key a) (key b), less (key b) (key a))

by_key-IsComparison {ℓ} :
    {K : Type ℓ} (less : K → K → Bool) (key : Header → K)
    → IsOrder less
    → IsComparison (by_key less key)
by_key-IsComparison less key o = record {
  swap = λ a b. refl;
  one_way = λ a b. o.asymm (key a) (key b);
  trans = λ a b c. o.trans (key a) (key b) (key c);
  level_before = λ a b c h k. ap (λ x. less x (key c)) (sym (o.total (key a) (key b) h k));
  before_level = λ a b c h k. ap (less (key a)) (o.total (key b) (key c) h k);
}

less_int-IsOrder : IsOrder less_int
less_int-IsOrder = record { asymm = less_int_asymm; trans = less_int_trans; total = less_int_total }

less_text-IsOrder : IsOrder less_text
less_text-IsOrder = record {
  asymm = less_text_asymm;
  trans = less_text_trans;
  total = less_text_total;
}

-- The attachments first, then the dates the other way round.
abbrev pub attached_less : Bool × ℤ → Bool × ℤ → Bool
attached_less (x, s) (y, t) = if bool_less x y || bool_less y x then bool_less x y else less_int t s

attached_less-IsOrder : IsOrder attached_less
attached_less-IsOrder = record { asymm = asymm; trans = trans; total = total }
  where
    asymm : (k l : Bool × ℤ) → attached_less k l ≡ true → attached_less l k ≡ false
    asymm (x, s) (y, t) h = ground (arith, less_int_asymm t s)

    trans :
        (k l m : Bool × ℤ)
        → attached_less k l ≡ true
        → attached_less l m ≡ true
        → attached_less k m ≡ true
    trans (x, s) (y, t) (z, u) h k = ground (arith, less_int_trans u t s)

    total : (k l : Bool × ℤ) → attached_less k l ≡ false → attached_less l k ≡ false → k ≡ l
    total (x, s) (y, t) h k = ground (arith, less_int_total s t)

unfoldable pub attached_key : Header → Bool × ℤ
attached_key h = (kind_has_attachment h.attach_kind, h.date_secs)

pair_key :
    (x y : Bool) (s t : ℤ)
    → ◌≡◌ {A = Sign}
        (if bool_less x y || bool_less y x
          then (bool_less x y, bool_less y x)
          else (less_int t s, less_int s t))
        (attached_less (x, s) (y, t), attached_less (y, t) (x, s))
pair_key true true s t = refl
pair_key true false s t = refl
pair_key false true s t = refl
pair_key false false s t = refl

pub by_attachment-key :
    (a b : Header) → compare_by by_attachment a b ≡ by_key attached_less attached_key a b
unfolding compare_by attached_key
by_attachment-key a b =
    pair_key (kind_has_attachment a.attach_kind) (kind_has_attachment b.attach_kind) a.date_secs
      b.date_secs

compare_by-IsComparison : (column : SortColumn) → IsComparison (compare_by column)
unfolding compare_by
compare_by-IsComparison by_date = by_key-IsComparison less_int (λ h. h.date_secs) less_int-IsOrder
compare_by-IsComparison by_sender =
    by_key-IsComparison less_text (λ h. h.sender_key) less_text-IsOrder
compare_by-IsComparison by_subject =
    by_key-IsComparison less_text (λ h. h.subject_key) less_text-IsOrder
compare_by-IsComparison by_attachment =
    subst IsComparison (fun_ext (λ a. fun_ext (λ b. sym (by_attachment-key a b))))
      (by_key-IsComparison attached_less attached_key attached_less-IsOrder)

module _ (column : SortColumn) where
  abbrev sign : Header → Header → Sign
  sign = compare_by column

  laws : IsComparison sign
  laws = compare_by-IsComparison column

  less_than-flip : (a b : Header) → less_than column true a b ≡ less_than column false b a
  unfolding less_than
  less_than-flip a b =
      ground
        (arith, laws.swap a b, laws.swap b a, equal_int_iff a.uid b.uid, equal_int_iff b.uid a.uid)

  upward_trans :
      (a b c : Header)
      → less_than column false a b ≡ true
      → less_than column false b c ≡ true
      → less_than column false a c ≡ true
  unfolding less_than
  upward_trans a b c h k = ground (
    arith,
    laws.swap a b,
    laws.swap b c,
    laws.swap a c,
    laws.swap b a,
    laws.swap c b,
    laws.swap c a,
    laws.trans a b c,
    laws.level_before a b c,
    laws.before_level a b c,
    laws.level_before c b a,
    laws.before_level c b a,
    less_int_trans a.uid b.uid c.uid,
    less_int_asymm a.uid b.uid,
    equal_int_iff a.uid c.uid,
  )

  upward_connected :
      (a b : Header)
      → a.uid ≢ b.uid
      → less_than column false a b ≡ false
      → less_than column false b a ≡ true
  unfolding less_than
  upward_connected a b d h = ground (
    arith,
    d,
    laws.swap a b,
    laws.swap b a,
    equal_int_iff a.uid b.uid,
    equal_int_iff b.uid a.uid,
    less_int_total a.uid b.uid,
  )

  pub less_than_trans :
      (descending : Bool) (a b c : Header)
      → less_than column descending a b ≡ true
      → less_than column descending b c ≡ true
      → less_than column descending a c ≡ true
  less_than_trans false a b c h k = upward_trans a b c h k
  less_than_trans true a b c h k =
      less_than-flip a c
      ∙ upward_trans c b a (sym (less_than-flip b c) ∙ k) (sym (less_than-flip a b) ∙ h)

  pub less_than_irrefl : (descending : Bool) (a : Header) → less_than column descending a a ≡ false
  unfolding less_than
  less_than_irrefl descending a =
      ground (arith, laws.swap a a, laws.one_way a a, equal_int_iff a.uid a.uid)

  pub less_than_connected :
      (descending : Bool) (a b : Header)
      → a.uid ≢ b.uid
      → less_than column descending a b ≡ false
      → less_than column descending b a ≡ true
  less_than_connected false a b d h = upward_connected a b d h
  less_than_connected true a b d h =
      less_than-flip b a ∙ upward_connected b a (λ e. d (sym e)) (sym (less_than-flip a b) ∙ h)

  -- Whatever is sorted by and in whichever direction, lessThan is a strict total order on headers
  -- with different uids: no header is before itself, what is before an earlier header is before the
  -- later one, and of two headers with different uids one is before the other.
  pub less_than_order :
      (descending : Bool) (a b c : Header)
      → (less_than column descending a a ≡ false)
        × (less_than column descending a b ≡ true
            → less_than column descending b c ≡ true
            → less_than column descending a c ≡ true)
        × (a.uid ≢ b.uid
            → less_than column descending a b ≡ false
            → less_than column descending b a ≡ true)
  less_than_order descending a b c = (
    less_than_irrefl descending a,
    less_than_trans descending a b c,
    less_than_connected descending a b,
  )
