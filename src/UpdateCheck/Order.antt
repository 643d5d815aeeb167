-- ===== src/UpdateCheck/Order.antt =====
-- The order of versions (isNewer).
use mailove.Common.{
  Bool, true, false, List, [], ◌∷◌, ◌≡◌, refl, Bytes, ℤ, pos, negsuc, less_int, equal_int, arith,
}
use mailove.UpdateCheck.{UpdatePlatform, decide, is_newer_parts, is_newer}

equal_int_refl : (x : ℤ) → equal_int x x ≡ true
unfolding equal_int
equal_int_refl (pos m) = ground arith
equal_int_refl (negsuc m) = ground arith

decide_irrefl : (x : ℤ) (b : Bool) → decide x x b ≡ b
unfolding decide
decide_irrefl x b = ground (arith, equal_int_refl x)

decide_asym :
    (x y : ℤ) (b c : Bool) → (b ≡ true → c ≡ false) → decide x y b ≡ true → decide y x c ≡ false
unfolding decide less_int equal_int
decide_asym (pos x) (pos y) b c f h = ground arith
decide_asym (pos x) (negsuc y) b c f h = ground arith
decide_asym (negsuc x) (pos y) b c f h = ground arith
decide_asym (negsuc x) (negsuc y) b c f h = ground arith

decide_trans :
    (x y z : ℤ) (b c d : Bool)
    → (b ≡ true → c ≡ true → d ≡ true)
    → decide x y b ≡ true
    → decide y z c ≡ true
    → decide x z d ≡ true
unfolding decide less_int equal_int
decide_trans (pos x) (pos y) (pos z) b c d f h k = ground arith
decide_trans (pos x) (pos y) (negsuc z) b c d f h k = ground arith
decide_trans (pos x) (negsuc y) (pos z) b c d f h k = ground arith
decide_trans (pos x) (negsuc y) (negsuc z) b c d f h k = ground arith
decide_trans (negsuc x) (pos y) (pos z) b c d f h k = ground arith
decide_trans (negsuc x) (pos y) (negsuc z) b c d f h k = ground arith
decide_trans (negsuc x) (negsuc y) (pos z) b c d f h k = ground arith
decide_trans (negsuc x) (negsuc y) (negsuc z) b c d f h k = ground arith

module _ (p : UpdatePlatform) where
  is_newer_parts_irrefl : (xs : List Bytes) → is_newer_parts p xs xs ≡ false
  unfolding is_newer_parts
  is_newer_parts_irrefl [] = refl
  is_newer_parts_irrefl (x ∷ xs) =
      ground (arith, decide_irrefl (p.to_int x) (is_newer_parts p xs xs), is_newer_parts_irrefl xs)

  is_newer_parts_asym :
      (xs ys : List Bytes) → is_newer_parts p xs ys ≡ true → is_newer_parts p ys xs ≡ false
  unfolding is_newer_parts
  is_newer_parts_asym [] [] = ground arith
  is_newer_parts_asym (x ∷ xs) [] = decide_asym _ _ _ _ (is_newer_parts_asym xs [])
  is_newer_parts_asym [] (y ∷ ys) = decide_asym _ _ _ _ (is_newer_parts_asym [] ys)
  is_newer_parts_asym (x ∷ xs) (y ∷ ys) = decide_asym _ _ _ _ (is_newer_parts_asym xs ys)

  is_newer_parts_trans :
      (xs ys zs : List Bytes)
      → is_newer_parts p xs ys ≡ true
      → is_newer_parts p ys zs ≡ true
      → is_newer_parts p xs zs ≡ true
  unfolding is_newer_parts
  is_newer_parts_trans [] [] [] h k = k
  is_newer_parts_trans [] [] (z ∷ zs) h k = k
  is_newer_parts_trans (x ∷ xs) [] [] h k = h
  is_newer_parts_trans [] (y ∷ ys) [] h k = absurd (ground (arith, is_newer_parts_asym [] (y ∷ ys)))
  is_newer_parts_trans (x ∷ xs) (y ∷ ys) [] h k =
      decide_trans _ _ _ _ _ _ (is_newer_parts_trans xs ys []) h k
  is_newer_parts_trans (x ∷ xs) [] (z ∷ zs) h k =
      decide_trans _ _ _ _ _ _ (is_newer_parts_trans xs [] zs) h k
  is_newer_parts_trans [] (y ∷ ys) (z ∷ zs) h k =
      decide_trans _ _ _ _ _ _ (is_newer_parts_trans [] ys zs) h k
  is_newer_parts_trans (x ∷ xs) (y ∷ ys) (z ∷ zs) h k =
      decide_trans _ _ _ _ _ _ (is_newer_parts_trans xs ys zs) h k

  -- isNewer is a strict order on versions: no version is newer than itself, of two versions at most
  -- one is newer than the other, and what is newer than a newer version is newer.
  pub is_newer_order :
      (a b c : Bytes)
      → (is_newer p a a ≡ false)
        × (is_newer p a b ≡ true → is_newer p b a ≡ false)
        × (is_newer p a b ≡ true → is_newer p b c ≡ true → is_newer p a c ≡ true)
  unfolding is_newer
  is_newer_order a b c =
      (is_newer_parts_irrefl _, is_newer_parts_asym _ _, is_newer_parts_trans _ _ _)
