-- ===== src/Dkim/Tags/Laws.antt =====
-- What the tag list of a signature holds.
use mailove.Common.{false, [], ◌∷◌, ◌++◌, ◌≡◌, refl, arith, Bytes, All}
use mailove.Dkim.Tags.{strip_wsp, is_folding}

-- No byte of a stripped value is white space.
pub strip_wsp-All : (b : Bytes) → All (λ c. is_folding c ≡ false) (strip_wsp b)
unfolding strip_wsp
strip_wsp-All [] = tt
strip_wsp-All (c ∷ cs) = ground (arith, strip_wsp-All cs)

-- Folding a value anywhere does not change what is read.
pub strip_wsp-append : (a b : Bytes) → strip_wsp (a ++ b) ≡ strip_wsp a ++ strip_wsp b
unfolding strip_wsp
strip_wsp-append [] b = refl
strip_wsp-append (c ∷ a) b = ground (arith, strip_wsp-append a b)
