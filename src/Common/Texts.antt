-- ===== src/Common/Texts.antt =====
-- The order of texts by their code units (QString::compare).
use mailove.Common.{Bool, true, false, ◌≡◌, refl, [], ◌∷◌, Bytes, ltb, if◌then◌else◌, arith}

unfoldable pub less_text : Bytes → Bytes → Bool
less_text [] [] = false
less_text [] (d ∷ b) = true
less_text (c ∷ a) [] = false
less_text (c ∷ a) (d ∷ b) =
    let rest = less_text a b in if ltb c d then true else if ltb d c then false else rest

pub less_text_irrefl : (a : Bytes) → less_text a a ≡ false
unfolding less_text
less_text_irrefl [] = refl
less_text_irrefl (c ∷ a) = ground (arith, less_text_irrefl a)

pub less_text_asymm : (a b : Bytes) → less_text a b ≡ true → less_text b a ≡ false
unfolding less_text
less_text_asymm [] [] h = refl
less_text_asymm [] (d ∷ b) h = refl
less_text_asymm (c ∷ a) [] h = ground arith
less_text_asymm (c ∷ a) (d ∷ b) h = ground (arith, less_text_asymm a b)

pub less_text_trans :
    (a b c : Bytes) → less_text a b ≡ true → less_text b c ≡ true → less_text a c ≡ true
unfolding less_text
less_text_trans [] [] c h k = k
less_text_trans [] (y ∷ b) [] h k = ground arith
less_text_trans [] (y ∷ b) (z ∷ c) h k = refl
less_text_trans (x ∷ a) [] c h k = ground arith
less_text_trans (x ∷ a) (y ∷ b) [] h k = ground arith
less_text_trans (x ∷ a) (y ∷ b) (z ∷ c) h k = ground (arith, less_text_trans a b c)

pub less_text_total : (a b : Bytes) → less_text a b ≡ false → less_text b a ≡ false → a ≡ b
unfolding less_text
less_text_total [] [] h k = refl
less_text_total [] (d ∷ b) h k = ground arith
less_text_total (c ∷ a) [] h k = ground arith
less_text_total (c ∷ a) (d ∷ b) h k = ground (arith, less_text_total a b)
